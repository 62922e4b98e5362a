-- ===== src/Server.antt =====
-- uds_server/src/uds_server.c: the loop of `main` over one socket, one diagnostic state and
-- the handlers that it calls. The
-- pause at the end of a round is left out.
pub mod Loop
pub mod Start
pub mod Started
use vdiag_server.Base.{ℕ, Bool, true, false, Option, none, some, List, [], ◌∷◌, replicate}
use vdiag_server.Base.Exec.{Outcome, done, undefined, Exec, pure, ◌>>=◌, ◌>>◌}
use vdiag_server.Can.{CanMessage}
use vdiag_server.Can.Socket.{CanError, SocketState, Net, can_socket_read, can_socket_write}
use vdiag_server.Os.{Os}
use vdiag_server.Uds.Codes.{UdsError}
use vdiag_server.Uds.Interface.{Locals, Handlers}
use vdiag_server.Uds.Dispatch.{handle_msg}
use vdiag_server.Handlers.Std.{Machine}

pub record World (N F : Type 0) : Type 0 where
  pub wire : N
  pub machine : Machine F

abbrev pub on_net : {N F A : Type 0} → Exec N A → Exec (World N F) A
on_net step w = elim (step w.wire) [
  | undefined ↦ undefined
  | done (a, t) ↦ done (a, record { wire = t; machine = w.machine })
]

abbrev pub on_machine : {N F A : Type 0} → Exec (Machine F) A → Exec (World N F) A
on_machine step w = elim (step w.machine) [
  | undefined ↦ undefined
  | done (a, m) ↦ done (a, record { wire = w.wire; machine = m })
]

-- `memset(&req, 0, sizeof(req))`, and so for `resp`.
abbrev pub zero_message : CanMessage
zero_message = record { pdata = replicate 4096 0; usz = 0 }

module _ (net : Net) (os : Os) (handlers : Handlers (Machine os.State)) (st : SocketState) where
  -- The response is sent only after `UDS_NO_ERROR`.
  abbrev pub respond : UdsError → Option CanMessage → Exec (World net.State os.State) (Unit {0})
  respond UdsError.no_error resp = do err ← on_net (can_socket_write net (some st) resp); pure tt
  respond _ resp = pure tt

  abbrev pub answer_request : Locals → CanMessage → Exec (World net.State os.State) (Unit {0})
  answer_request l req = do
    (uds_err, resp) ← on_machine (handle_msg handlers l true req (some zero_message))
    respond uds_err resp

  -- The request is handled only after `CAN_NO_ERROR`.
  abbrev pub on_received :
      Locals → CanError → Option CanMessage → Exec (World net.State os.State) (Unit {0})
  on_received l err none = pure tt
  on_received l CanError.can_no_error (some req) = answer_request l req
  on_received l _ (some req) = pure tt

  -- One round of `while (1)`.
  unfoldable pub round : Locals → Exec (World net.State os.State) (Unit {0})
  round l = do
    (err, req) ← on_net (can_socket_read net (some st) (some zero_message))
    on_received l err req

  -- So many rounds, each with what the local variables of its call hold.
  unfoldable pub rounds : List Locals → Exec (World net.State os.State) (Unit {0})
  rounds [] = pure tt
  rounds (l ∷ ls) = do round l; rounds ls
