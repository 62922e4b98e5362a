-- ===== src/Handlers/Std/Session.antt =====
-- TesterPresent and DiagnosticSessionControl through the dispatcher, against the bytes that
-- ISO 14229 gives for them.
use vdiag_server.Base.{
  ℕ, ◌<◌, ◌≡◌, Bool, true, not, ◌&&◌, some, List, [], ◌∷◌, arith, ltb, ◌==◌, if◌then◌else◌,
}
use vdiag_server.Base.Exec.{done}
use vdiag_server.Base.Ptr.{Ptr}
use vdiag_server.Can.{CanMessage, byte, put}
use vdiag_server.Os.{Os}
use vdiag_server.Uds.Codes.{code, UdsError}
use vdiag_server.Uds.Interface.{Locals}
use vdiag_server.Uds.Dispatch.{handle_msg}
use vdiag_server.Uds.Dispatch.Cases.{tester_present, session_control}
use vdiag_server.Handlers.Tp.{tp_setup, tp, tp_pack}
use vdiag_server.Handlers.Dsc.{dsc_setup, dsc, dsc_pack}
use vdiag_server.Handlers.Std.{Machine, std_handlers}

-- The reply to TesterPresent: 7E 00, nothing new when it is to be suppressed, or a refusal for a
-- wrong length or an unknown sub-function.
abbrev pub tp_reply : CanMessage → CanMessage → CanMessage
tp_reply req presp =
    if not (req.usz == 2)
    then put presp (0x7f ∷ 0x3e ∷ 0x13 ∷ []) 3
    else if byte req 1 == 0
    then put presp (0x7e ∷ 0x00 ∷ []) 2
    else if byte req 1 == 0x80
    then presp
    else put presp (0x7f ∷ 0x3e ∷ 0x12 ∷ []) 3

-- The four sessions, and the times P2 and P2* of each in two bytes.
abbrev pub is_known_session : ℕ → Bool
is_known_session uses = ltb 0 uses && ltb uses 5

abbrev pub timing_bytes : ℕ → List ℕ
timing_bytes uses =
    if uses == 2 then 0x13 ∷ 0x88 ∷ 0x13 ∷ 0x88 ∷ [] else 0x00 ∷ 0x32 ∷ 0x13 ∷ 0x88 ∷ []

abbrev pub dsc_reply : CanMessage → CanMessage → CanMessage
dsc_reply req presp =
    if not (req.usz == 2)
    then put presp (0x7f ∷ 0x10 ∷ 0x13 ∷ []) 3
    else if is_known_session (byte req 1)
    then put presp (0x50 ∷ byte req 1 ∷ timing_bytes (byte req 1)) 6
    else put presp (0x7f ∷ 0x10 ∷ 0x12 ∷ []) 3

-- The session that the server is in afterwards.
abbrev pub session_after : CanMessage → ℕ → ℕ
session_after req uses = if req.usz == 2 && is_known_session (byte req 1) then byte req 1 else uses

module _ (os : Os) (stale : Ptr → Ptr) (l : Locals) (m : Machine os.State) (req presp : CanMessage)
    (some_byte : 0 < req.usz) where
  -- Every request of at least one byte that starts with 3E is answered by `tp_reply`, without an
  -- error, and changes nothing.
  pub tester_present_lem :
      byte req 0 ≡ 0x3e
      → handle_msg (std_handlers os stale) l true req (some presp) m
        ≡ done ((UdsError.no_error, some (tp_reply req presp)), m)
  unfolding tp_setup tp tp_pack code
  tester_present_lem e =
      rw (tester_present (std_handlers os stale) l req presp some_byte m e) (ground arith)

  -- Every request of at least one byte that starts with 10 is answered by `dsc_reply`, without an
  -- error. It changes the session to the one that a well-formed request asks for, and nothing else.
  pub session_control_lem :
      byte req 0 ≡ 0x10
      → handle_msg (std_handlers os stale) l true req (some presp) m
        ≡ done (
          (UdsError.no_error, some (dsc_reply req presp)),
          record {
            uds = let u = m.uds in record u { uses = session_after req m.uds.uses };
            globals = m.globals;
          },
        )
  unfolding dsc_setup dsc dsc_pack code
  session_control_lem e =
      rw (session_control (std_handlers os stale) l req presp some_byte m e) (ground arith)
