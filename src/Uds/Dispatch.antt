-- ===== src/Uds/Dispatch.antt =====
-- `uds_handle_msg` of uds_server/src/uds.c, over any handlers.
pub mod Cases
pub mod Invariant
pub mod Replies
use vdiag_server.Base.{
  ℕ, Bool, true, false, not, ◌||◌, Option, none, some, List, [], ◌∷◌, ltb, ◌==◌, if◌then◌else◌,
}
use vdiag_server.Base.Exec.{Exec, pure, ◌>>=◌, ◌>>◌}
use vdiag_server.Base.Ptr.{free}
use vdiag_server.Can.{CanMessage, byte, put}
use vdiag_server.Uds.Codes
use vdiag_server.Uds.Codes.{Nrc, code, is_positive, Sid, sid, UdsError}
use vdiag_server.Uds.Interface.{Service, Handlers, Locals}

-- What `uds_handle_msg` returns, and what `*presp` holds then.
abbrev pub Reply : Type 0
Reply = UdsError × CanMessage

module _ {S : Type 0} where
  -- `call` only after a `setup` with `NRC_POSITIVE_RESPONSE`; else the result is what the local
  -- variable held, with `rc` assigned.
  abbrev pub answer : {P R : Type 0} → Service S P R → (Nrc → R) → Nrc → P → Exec S R
  answer svc refused rc p = if is_positive rc then svc.call p else pure (refused rc)

  -- One case of the switch, up to its `return`: the parameters and the response.
  abbrev pub exchange :
      {P R : Type 0}
      → Service S P R
      → P
      → (Nrc → R)
      → CanMessage
      → CanMessage
      → Exec S (P × CanMessage)
  exchange svc param refused req presp = do
    (rc, p) ← svc.setup req param
    res ← answer svc refused rc p
    out ← svc.pack res presp
    pure (p, out)

  abbrev pub serve :
      {P R : Type 0} → Service S P R → P → (Nrc → R) → CanMessage → CanMessage → Exec S Reply
  serve svc param refused req presp = do
    (p, out) ← exchange svc param refused req presp
    pure (UdsError.no_error, out)

  -- The case default: it leaves `usz` alone, and returns the number 3.
  abbrev pub unsupported : ℕ → CanMessage → Exec S Reply
  unsupported usid presp = pure (
    UdsError.error_handler_init,
    put presp (0x7f ∷ usid ∷ code Nrc.service_not_supported ∷ []) presp.usz,
  )

  -- The case UDS_SID_WRITE_DATA_BY_IDENTIFIER frees the buffer that `setup` allocated.
  abbrev pub write_by_id : Handlers S → Locals → CanMessage → CanMessage → Exec S Reply
  write_by_id h l req presp = do
    (p, out) ←
        exchange h.wrbi l.wrbi_param (λ c. let r = l.wrbi_res in record r { rc = c }) req presp
    free p.pdata
    pure (UdsError.no_error, out)

  unfoldable pub dispatch : Handlers S → Locals → CanMessage → CanMessage → ℕ → Exec S Reply
  dispatch h l req presp usid =
      if usid == sid Sid.diagnostic_session_control
      then serve h.dsc l.dsc_param (λ c. let r = l.dsc_res in record r { rc = c }) req presp
      else if usid == sid Sid.read_data_by_identifier
      then serve h.rdbi l.rdbi_param (λ c. let r = l.rdbi_res in record r { rc = c }) req presp
      else if usid == sid Sid.read_memory_by_address
      then serve h.rdba l.rdba_param (λ c. let r = l.rdba_res in record r { rc = c }) req presp
      else if usid == sid Sid.tester_present
      then serve h.tp l.tp_param (λ c. let r = l.tp_res in record r { rc = c }) req presp
      else if usid == sid Sid.write_memory_by_address
      then serve h.wrba l.wrba_param (λ c. let r = l.wrba_res in record r { rc = c }) req presp
      else if usid == sid Sid.write_data_by_identifier
      then write_by_id h l req presp
      else unsupported usid presp

  -- The dispatcher's value, with the response in the caller's object.
  abbrev pub give_back : Exec S Reply → Exec S (UdsError × Option CanMessage)
  give_back m = do (err, out) ← m; pure (err, some out)

  -- `has_state` says that `puds` is not null; a null `presp` is `none`.
  unfoldable pub handle_msg :
      Handlers S
      → Locals
      → Bool
      → CanMessage
      → Option CanMessage
      → Exec S (UdsError × Option CanMessage)
  handle_msg h l has_state req none = pure (UdsError.error_invalid_param, none)
  handle_msg h l has_state req (some presp) =
      if ltb req.usz 1 || not has_state
      then pure (UdsError.error_invalid_param, some presp)
      else give_back (dispatch h l req presp (byte req 0))
