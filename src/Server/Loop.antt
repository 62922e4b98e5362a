-- ===== src/Server/Loop.antt =====
-- What holds in every round of the server's loop.
use mathlib.Core.Path.{subst}
use vdiag_server.Base.{◌<◌, ◌≡◌, ◌≢◌, sym, true, Option, none, some, List, [], ◌∷◌, arith, inl, inr}
use vdiag_server.Base.Exec.{done, Exec, Exec-cases, pure-eq-done, >>=-eq-done}
use vdiag_server.Base.Ptr.{Ptr}
use vdiag_server.Can.{CanMessage, byte}
use vdiag_server.Can.Socket.{CanError, SocketState, Net, can_socket_read, can_socket_write}
use vdiag_server.Config.{EcuConfig}
use vdiag_server.Os.{Os}
use vdiag_server.Uds.Codes.{UdsError}
use vdiag_server.Uds.Interface.{Locals}
use vdiag_server.Uds.Dispatch.{handle_msg}
use vdiag_server.Uds.Dispatch.Cases.{unknown_service}
use vdiag_server.Handlers.Std.{Machine, std_handlers}
use vdiag_server.Handlers.Std.Known.{IsKnown, handle_msg-IsKnown}
use vdiag_server.Handlers.Std.Session.{tester_present_lem}
use vdiag_server.Server.{
  World, on_net, on_machine, zero_message, respond, answer_request, on_received, round, rounds,
}

machine-on_net :
    {N F A : Type 0} (step : Exec N A) (w w' : World N F) (a : A)
    → on_net step w ≡ done (a, w')
    → w'.machine ≡ w.machine
machine-on_net step w w' a h = elim (Exec-cases (step w.wire)) [
  | inl e ↦ ground (arith, e)
  | inr (b, t, e) ↦ ground (arith, e)
]

on_machine-eq-done :
    {N F A : Type 0} (step : Exec (Machine F) A) (w w' : World N F) (a : A)
    → on_machine step w ≡ done (a, w')
    → step w.machine ≡ done (a, w'.machine)
on_machine-eq-done step w w' a h = elim (Exec-cases (step w.machine)) [
  | inl e ↦ ground (arith, e)
  | inr (b, t, e) ↦ ground (arith, e)
]

module _ (net : Net) (os : Os) (stale : Ptr → Ptr) (st : SocketState) (c : EcuConfig) where
  abbrev Good : World net.State os.State → Type 0
  Good w = IsKnown c w.machine

  same_machine : (w w' : World net.State os.State) → w'.machine ≡ w.machine → Good w → Good w'
  same_machine w w' e k = subst (IsKnown c) (sym e) k

  respond_keeps :
      (e : UdsError) (resp : Option CanMessage) (w w' : World net.State os.State) (u : Unit {0})
      → Good w
      → respond net os (std_handlers os stale) st e resp w ≡ done (u, w')
      → Good w'
  respond_keeps UdsError.no_error resp w w' u k ran =
      let (_, w1, wrote, rest) = >>=-eq-done (on_net (can_socket_write net (some st) resp)) _ ran in
      subst Good (pure-eq-done rest).1
        (same_machine w w1 (machine-on_net (can_socket_write net (some st) resp) w w1 _ wrote) k)
  respond_keeps _ resp w w' u k ran = subst Good (pure-eq-done ran).1 k

  answer_keeps :
      (l : Locals) (req : CanMessage) (w w' : World net.State os.State) (u : Unit {0})
      → Good w
      → answer_request net os (std_handlers os stale) st l req w ≡ done (u, w')
      → Good w'
  answer_keeps l req w w' u k ran =
      let step = handle_msg (std_handlers os stale) l true req (some zero_message) in
      let ((e, resp), w1, handled, rest) = >>=-eq-done (on_machine step) _ ran in
      let done_ = on_machine-eq-done step w w1 (e, resp) handled in
      respond_keeps e resp w1 w' u
        (handle_msg-IsKnown os stale l true c req (some zero_message) w.machine w1.machine (e, resp)
          k done_)
        rest

  received_keeps :
      (l : Locals) (err : CanError) (req : Option CanMessage) (w w' : World net.State os.State)
      (u : Unit {0})
      → Good w
      → on_received net os (std_handlers os stale) st l err req w ≡ done (u, w')
      → Good w'
  received_keeps l err none w w' u k ran = subst Good (pure-eq-done ran).1 k
  received_keeps l CanError.can_no_error (some req) w w' u k ran = answer_keeps l req w w' u k ran
  received_keeps l _ (some req) w w' u k ran = subst Good (pure-eq-done ran).1 k

  -- From a known session, rounds of the loop that finish leave the session one that the server
  -- knows, and the configuration as it was read, whatever arrives on the socket.
  pub rounds-IsKnown :
      (ls : List Locals) (w w' : World net.State os.State)
      → IsKnown c w.machine
      → rounds net os (std_handlers os stale) st ls w ≡ done (tt, w')
      → IsKnown c w'.machine
  unfolding round rounds
  rounds-IsKnown [] w w' k ran = subst Good (pure-eq-done ran).1 k
  rounds-IsKnown (l ∷ ls) w w' k ran =
      let (_, w1, first, rest) = >>=-eq-done (round net os (std_handlers os stale) st l) _ ran in
      let ((err, req), w2, got, handled) =
        >>=-eq-done (on_net (can_socket_read net (some st) (some zero_message))) _ first in
      let k2 =
        same_machine w w2
          (machine-on_net (can_socket_read net (some st) (some zero_message)) w w2 (err, req) got)
          k in
      rounds-IsKnown ls w1 w' (received_keeps l err req w2 w1 _ k2 handled) rest

module _ (net : Net) (os : Os) (stale : Ptr → Ptr) (st : SocketState) (l : Locals) where
  -- A round that receives a request of at least one byte for none of the six services sends
  -- nothing: it leaves the wire as the read did, and the diagnostic state as it was.
  pub round-unknown_service :
      (req : CanMessage) (w : World net.State os.State) (t : net.State)
      → can_socket_read net (some st) (some zero_message) w.wire
        ≡ done ((CanError.can_no_error, some req), t)
      → 0 < req.usz
      → byte req 0 ≢ 0x10
      → byte req 0 ≢ 0x22
      → byte req 0 ≢ 0x23
      → byte req 0 ≢ 0x3e
      → byte req 0 ≢ 0x3d
      → byte req 0 ≢ 0x2e
      → round net os (std_handlers os stale) st l w
        ≡ done (tt, record { wire = t; machine = w.machine })
  unfolding round
  round-unknown_service req w t got some_byte a b c d e f =
      let refused =
        unknown_service (std_handlers os stale) l req zero_message some_byte w.machine a b c d e
          f in
      ground arith

  -- A round that receives the two bytes 3E 80, a request to be quiet, sends nothing and changes
  -- nothing.
  pub round-suppressed :
      (req : CanMessage) (w : World net.State os.State) (t : net.State)
      → can_socket_read net (some st) (some zero_message) w.wire
        ≡ done ((CanError.can_no_error, some req), t)
      → req.usz ≡ 2
      → byte req 0 ≡ 0x3e
      → byte req 1 ≡ 0x80
      → round net os (std_handlers os stale) st l w
        ≡ done (tt, record { wire = t; machine = w.machine })
  unfolding round can_socket_write
  round-suppressed req w t got two sid quiet =
      let served = tester_present_lem os stale l w.machine req zero_message (omega arith) sid in
      ground arith
