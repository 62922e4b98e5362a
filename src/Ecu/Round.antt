-- ===== src/Ecu/Round.antt =====
-- One round of `main` in uds_server/src/uds_server.c as the ECU behind its socket.
use mathlib.Core.List.{append-nil}
use vdiag_server.Handlers.DidMap.Lookup.{HasEntries}
use vdiag_server.Base.{
  Bool, ℕ, ◌≤◌, ◌<◌, ◌≡◌, ◌∙◌, sym, ap, refl, true, false, some, List, ◌∷◌, ◌++◌, length, All,
  arith, replicate,
}
use vdiag_server.Base.Exec.{Exec, done, >>=-done}
use vdiag_server.Base.Ptr.{Ptr}
use vdiag_server.Can.{CanMessage, IsMessage}
use vdiag_server.Can.Receive.{All-overwrite, All-replicate}
use vdiag_server.Can.Socket.{
  CanError, SocketState, Net, is_closed, can_socket_read, can_socket_write,
}
use vdiag_server.Config.{EcuConfig}
use vdiag_server.Os.{Os}
use vdiag_server.Os.Files.{View, IsRegular}
use vdiag_server.Uds.Codes.{UdsError}
use vdiag_server.Uds.Dispatch.{handle_msg}
use vdiag_server.Uds.Interface.{Locals}
use vdiag_server.Handlers.Std.{Machine, std_handlers}
use vdiag_server.Server.{World, on_net, on_machine, zero_message, respond, on_received, round}
use vdiag_server.Ecu.{Ecu, Command, answer_command}
use vdiag_server.Ecu.Promises.{put_zero-Fits}
use vdiag_server.Ecu.Refines.{command_answered}
use vdiag_server.Ecu.Requests.{Ready, Stands, Fits, sent_bytes}
use vdiag_server.Ecu.Wire.{Arrival, Carries, message, Line, Delivers, message_of, heard_of}
use vdiag_server.Ecu.Calls.{read_message, write_response}

message_of-IsMessage :
    (bs : List ℕ) → length bs ≤ 4096 → All (λ b. b < 256) bs → IsMessage (message_of bs)
message_of-IsMessage bs short bytes =
    let (full, fits) = put_zero-Fits bs (length bs) short in
    record {
      full = full;
      bytes = All-overwrite bs (replicate 4096 0) bytes (All-replicate 4096);
      word = omega arith;
    }

on_net-done :
    {N F A : Type 0} (step : Exec N A) (w : World N F) (a : A) (t : N)
    → step w.wire ≡ done (a, t)
    → on_net step w ≡ done (a, record { wire = t; machine = w.machine })
on_net-done step w a t ran = rw (ran, on_net) refl

on_machine-done :
    {N F A : Type 0} (step : Exec (Machine F) A) (w : World N F) (a : A) (m : Machine F)
    → step w.machine ≡ done (a, m)
    → on_machine step w ≡ done (a, record { wire = w.wire; machine = m })
on_machine-done step w a m ran = rw (ran, on_machine) refl

module _ (net : Net) (line : Line net) (os : Os) (stale : Ptr → Ptr) (st : SocketState)
    (delivers : Delivers net line st.sockfd) (alive : is_closed st.sockfd ≡ false) where
  abbrev Running : Type 0
  Running = World net.State os.State

  pub respond_lem :
      (err : UdsError) (out : CanMessage) (w : Running)
      → Fits out
      → (t : net.State) × (respond net os (std_handlers os stale) st err (some out) w
          ≡ done (tt, record { wire = t; machine = w.machine }))
        × (line.due t ≡ line.due w.wire)
        × (line.sent t
            ≡ line.sent w.wire ++ heard_of (line.is_clear w.wire) (sent_bytes err (some out)))
  respond_lem UdsError.no_error out w fits =
      let (sent_err, t, wrote, due, sent) =
        write_response net line st delivers alive out w.wire fits in
      let step = can_socket_write net (some st) (some out) in
      (t, >>=-done (on_net step) _ (on_net-done step w _ t wrote), due, sent)
  respond_lem _ out w fits = (w.wire, refl, refl, sym (append-nil (line.sent w.wire)))

  -- A round that receives nothing goes on from what is due next.
  pub idle_round :
      (l : Locals) (err : CanError) (w : Running) (t : net.State)
      → (on_received net os
            (std_handlers os stale)
            st
            l
            err
            (some zero_message)
            (record { wire = t; machine = w.machine })
          ≡ done (tt, record { wire = t; machine = w.machine }))
      → can_socket_read net (some st) (some zero_message) w.wire
        ≡ done ((err, some zero_message), t)
      → round net os (std_handlers os stale) st l w
        ≡ done (tt, record { wire = t; machine = w.machine })
  unfolding round
  idle_round l err w t ignored got =
      let step = can_socket_read net (some st) (some zero_message) in
      >>=-done (on_net step) _ (on_net-done step w _ t got) ∙ ignored

-- Where the server is once the line has heard so much, with what is still due.
pub record Reached (net : Net) (line : Line net) (os : Os) (v : View os) (c : EcuConfig)
    (w : World net.State os.State) (e : Ecu) (later : List Arrival) (bytes : List (List ℕ))
    (w' : World net.State os.State) : Type 0 where
  pub stands : Stands os v c w'.machine e
  pub due : line.due w'.wire ≡ later
  pub sent : line.sent w'.wire ≡ line.sent w.wire ++ bytes

module _ (net : Net) (line : Line net) (os : Os) (v : View os) (reg : IsRegular os v)
    (stale : Ptr → Ptr) (intact : (p : Ptr) → stale p ≡ p) (c : EcuConfig) (st : SocketState)
    (delivers : Delivers net line st.sockfd) (alive : is_closed st.sockfd ≡ false)
    (small : c.memory.end_addr < 4294967296) (counted : HasEntries c) where
  pub answer_round :
      (l : Locals) (bs : List ℕ) (cmd : Command) (w : World net.State os.State) (e e1 : Ecu)
      (bytes : List ℕ) (clear : Bool) (later : List Arrival)
      → Stands os v c w.machine e
      → line.due w.wire ≡ message bs clear ∷ later
      → Carries bs cmd
      → Ready c l cmd
      → answer_command c cmd e ≡ some (bytes, e1)
      → (w' : World net.State os.State) × (round net os (std_handlers os stale) st l w
          ≡ done (tt, w'))
        × Reached net line os v c w e1 later (heard_of clear bytes) w'
  unfolding round
  answer_round l bs cmd w e e1 bytes clear later stands next carried ready said =
      let (t, got, writable, polled) =
        read_message net line st delivers alive w.wire bs clear later next carried.some_byte
          carried.short in
      let req = message_of bs in
      let (err, out, m1, handled, sent, fits, stands1) =
        command_answered os v reg stale intact c l req cmd w.machine e e1 bytes small counted
          (message_of-IsMessage bs carried.short carried.whole) stands carried.asks ready said in
      let read_step = can_socket_read net (some st) (some zero_message) in
      let step = handle_msg (std_handlers os stale) l true req (some zero_message) in
      let w1 : World net.State os.State = record { wire = t; machine = w.machine } in
      let w2 : World net.State os.State = record { wire = t; machine = m1 } in
      let (t2, responded, due, went) =
        respond_lem net line os stale st delivers alive err out w2 fits in
      (
        record { wire = t2; machine = m1 },
        >>=-done (on_net read_step) _ (on_net-done read_step w _ t got)
            ∙ >>=-done (on_machine step) _ (on_machine-done step w1 _ m1 handled)
            ∙ responded,
        record {
          stands = stands1;
          due = due ∙ polled.due;
          sent =
              went
              ∙ ap (λ r. r ++ heard_of (line.is_clear t) (sent_bytes err (some out))) polled.sent
              ∙ ap (λ b. line.sent w.wire ++ heard_of (line.is_clear t) b) sent
              ∙ ap (λ (b : Bool). line.sent w.wire ++ heard_of b bytes) writable;
        },
      )
