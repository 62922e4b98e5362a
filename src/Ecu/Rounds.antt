-- ===== src/Ecu/Rounds.antt =====
-- The rounds of `main` in uds_server/src/uds_server.c as the ECU behind its socket.
use mathlib.Core.List.{append_assoc, append-nil}
use vdiag_server.Handlers.DidMap.Lookup.{HasEntries}
use vdiag_server.Base.{ℕ, ◌<◌, ◌≡◌, ◌∙◌, sym, ap, refl, false, some, List, [], ◌∷◌, ◌++◌, arith}
use vdiag_server.Base.Exec.{done, >>=-done}
use vdiag_server.Base.Ptr.{Ptr}
use vdiag_server.Can.Socket.{CanError, SocketState, Net, is_closed}
use vdiag_server.Config.{EcuConfig}
use vdiag_server.Os.{Os}
use vdiag_server.Os.Files.{View, IsRegular}
use vdiag_server.Uds.Interface.{Locals}
use vdiag_server.Handlers.Std.{std_handlers}
use vdiag_server.Server.{World, round, rounds}
use vdiag_server.Ecu.{Ecu, Command, answer_all}
use vdiag_server.Ecu.Refines.{answer_all-∷}
use vdiag_server.Ecu.Requests.{Stands}
use vdiag_server.Ecu.Wire.{
  Arrival, timeout, interrupted, message, Line, Polled, Delivers, Arrive, heard, heard_of,
}
use vdiag_server.Ecu.Calls.{read_timeout, read_interrupted}
use vdiag_server.Ecu.Round.{Reached, idle_round, answer_round}

module _ (net : Net) (line : Line net) (os : Os) (v : View os) (reg : IsRegular os v)
    (stale : Ptr → Ptr) (intact : (p : Ptr) → stale p ≡ p) (c : EcuConfig) (st : SocketState)
    (delivers : Delivers net line st.sockfd) (alive : is_closed st.sockfd ≡ false)
    (small : c.memory.end_addr < 4294967296) (counted : HasEntries c) where
  idle_Reached :
      (w : World net.State os.State) (e : Ecu) (t : net.State) (later : List Arrival)
      → Stands os v c w.machine e
      → Polled net line w.wire t later
      → Reached net line os v c w e later [] (record { wire = t; machine = w.machine })
  idle_Reached w e t later stands polled = record {
    stands = stands;
    due = polled.due;
    sent = polled.sent ∙ sym (append-nil (line.sent w.wire));
  }

  and_then :
      (l : Locals) (ls : List Locals) (w w1 : World net.State os.State) (e1 e' : Ecu)
      (mid later : List Arrival) (first others : List (List ℕ))
      → round net os (std_handlers os stale) st l w ≡ done (tt, w1)
      → Reached net line os v c w e1 mid first w1
      → ((w' : World net.State os.State) × (rounds net os (std_handlers os stale) st ls w1
            ≡ done (tt, w'))
          × Reached net line os v c w1 e' later others w')
      → (w' : World net.State os.State) × (rounds net os (std_handlers os stale) st (l ∷ ls) w
          ≡ done (tt, w'))
        × Reached net line os v c w e' later (first ++ others) w'
  unfolding rounds
  and_then l ls w w1 e1 e' mid later first others ran r1 (w', rest, r2) = (
    w',
    >>=-done (round net os (std_handlers os stale) st l) _ ran ∙ rest,
    record {
      stands = r2.stands;
      due = r2.due;
      sent = r2.sent ∙ ap (λ r. r ++ others) r1.sent ∙ append_assoc (line.sent w.wire) first others;
    },
  )

  -- The server's loop implements the ECU on the wire. For a memory whose end address fits 32 bits,
  -- no more identifiers counted than there are, with terminated names, regular files, arguments of
  -- setups that are still in place when they are used, an open socket that `select` can watch and on
  -- which only `select` may fail, and a machine that stands for the ECU: where each round finds nothing, an error of `select`, or a message of one to
  -- 4096 bytes that asks for the next of the commands that the ECU promises to answer, and the
  -- `wrbi_param` of a round with a write by identifier happens to hold a range of the memory, the
  -- rounds finish. The promised responses have been sent in order and nothing else, but for empty
  -- ones and those of rounds in which the socket cannot be written to, what is due later is left,
  -- and the machine stands for the ECU after all the commands.
  pub rounds-answer_all :
      (ls : List Locals) (arrivals later : List Arrival) (cs : List Command)
      (w : World net.State os.State) (e e' : Ecu) (responses : List (List ℕ))
      → Stands os v c w.machine e
      → line.due w.wire ≡ arrivals ++ later
      → Arrive c ls arrivals cs
      → answer_all c cs e ≡ some (responses, e')
      → (w' : World net.State os.State) × (rounds net os (std_handlers os stale) st ls w
          ≡ done (tt, w'))
        × Reached net line os v c w e' later (heard arrivals responses) w'
  unfolding rounds answer_all
  rounds-answer_all [] [] later [] w e e' responses stands next asks said = (
    w,
    refl,
    record {
      stands = record {
        config = stands.config;
        session = ground arith;
        memory = ground arith;
        spare = ground arith;
      };
      due = next;
      sent = ground (arith, append-nil (line.sent w.wire));
    },
  )
  rounds-answer_all [] [] later (cmd ∷ cs) w e e' responses stands next asks said = elim asks [ ]
  rounds-answer_all [] (a ∷ as_) later cs w e e' responses stands next asks said = elim asks [ ]
  rounds-answer_all (l ∷ ls) [] later cs w e e' responses stands next asks said = elim asks [ ]
  rounds-answer_all (l ∷ ls) (timeout ∷ as_) later cs w e e' responses stands next asks said =
      let (t, got, polled) = read_timeout net line st delivers alive w.wire (as_ ++ later) next in
      let w1 : World net.State os.State = record { wire = t; machine = w.machine } in
      and_then l ls w w1 e e' (as_ ++ later) later [] (heard as_ responses)
        (idle_round net line os stale st delivers alive l CanError.can_error_timeout w t refl got)
        (idle_Reached w e t (as_ ++ later) stands polled)
        (rounds-answer_all ls as_ later cs w1 e e' responses stands polled.due asks said)
  rounds-answer_all (l ∷ ls) (interrupted ∷ as_) later cs w e e' responses stands next asks said =
      let (t, got, polled) =
        read_interrupted net line st delivers alive w.wire (as_ ++ later) next in
      let w1 : World net.State os.State = record { wire = t; machine = w.machine } in
      and_then l ls w w1 e e' (as_ ++ later) later [] (heard as_ responses)
        (idle_round net line os stale st delivers alive l CanError.can_error_read w t refl got)
        (idle_Reached w e t (as_ ++ later) stands polled)
        (rounds-answer_all ls as_ later cs w1 e e' responses stands polled.due asks said)
  rounds-answer_all (l ∷ ls) (message bs clear ∷ as_) later [] w e e' responses stands next asks
        said =
      elim asks [ ]
  rounds-answer_all (l ∷ ls) (message bs clear ∷ as_) later (cmd ∷ cs) w e e' responses stands next
        (carried, ready, asks) said =
      let (bytes, e1, rest, first, others, eq) =
        answer_all-∷ os v reg stale intact c cmd cs e e' responses said in
      let (w1, ran, r1) =
        answer_round net line os v reg stale intact c st delivers alive small counted l bs cmd w e
          e1 bytes clear (as_ ++ later) stands next carried ready first in
      rw eq (
        and_then l ls w w1 e1 e' (as_ ++ later) later (heard_of clear bytes) (heard as_ rest) ran r1
          (rounds-answer_all ls as_ later cs w1 e1 e' rest r1.stands r1.due asks others))
