-- ===== src/Uds/Dispatch/Cases.antt =====
-- Which service a request goes to.
use vdiag_server.Base.{◌<◌, ◌≡◌, ◌≢◌, true, some, [], ◌∷◌, arith}
use vdiag_server.Base.Exec.{done}
use vdiag_server.Can.{CanMessage, byte, put}
use vdiag_server.Uds.Codes.{UdsError, code}
use vdiag_server.Uds.Interface.{Handlers, Locals}
use vdiag_server.Uds.Dispatch.{serve, write_by_id, dispatch, give_back, handle_msg}

module _ {S : Type 0} (h : Handlers S) (l : Locals) (req presp : CanMessage)
    (some_byte : 0 < req.usz) where
  to_dispatch :
      (s : S)
      → handle_msg h l true req (some presp) s ≡ give_back (dispatch h l req presp (byte req 0)) s
  unfolding handle_msg
  to_dispatch s = ground arith

  pub session_control :
      (s : S)
      → byte req 0 ≡ 0x10
      → handle_msg h l true req (some presp) s
        ≡ give_back
            (serve h.dsc l.dsc_param (λ c. let r = l.dsc_res in record r { rc = c }) req presp)
            s
  unfolding dispatch
  session_control s e = rw (to_dispatch, e)

  pub read_by_identifier :
      (s : S)
      → byte req 0 ≡ 0x22
      → handle_msg h l true req (some presp) s
        ≡ give_back
            (serve h.rdbi l.rdbi_param (λ c. let r = l.rdbi_res in record r { rc = c }) req presp)
            s
  unfolding dispatch
  read_by_identifier s e = rw (to_dispatch, e)

  pub read_by_address :
      (s : S)
      → byte req 0 ≡ 0x23
      → handle_msg h l true req (some presp) s
        ≡ give_back
            (serve h.rdba l.rdba_param (λ c. let r = l.rdba_res in record r { rc = c }) req presp)
            s
  unfolding dispatch
  read_by_address s e = rw (to_dispatch, e)

  pub tester_present :
      (s : S)
      → byte req 0 ≡ 0x3e
      → handle_msg h l true req (some presp) s
        ≡ give_back
            (serve h.tp l.tp_param (λ c. let r = l.tp_res in record r { rc = c }) req presp)
            s
  unfolding dispatch
  tester_present s e = rw (to_dispatch, e)

  pub write_by_address :
      (s : S)
      → byte req 0 ≡ 0x3d
      → handle_msg h l true req (some presp) s
        ≡ give_back
            (serve h.wrba l.wrba_param (λ c. let r = l.wrba_res in record r { rc = c }) req presp)
            s
  unfolding dispatch
  write_by_address s e = rw (to_dispatch, e)

  pub write_by_identifier :
      (s : S)
      → byte req 0 ≡ 0x2e
      → handle_msg h l true req (some presp) s ≡ give_back (write_by_id h l req presp) s
  unfolding dispatch
  write_by_identifier s e = rw (to_dispatch, e)

  -- A request of at least one byte for a service other than the six is refused with the bytes 7F,
  -- its identifier and 11 at the head of the response, whose length stays what it was. The returned
  -- error is the number 3, which is not `UDS_NO_ERROR`, and no handler runs.
  pub unknown_service :
      (s : S)
      → byte req 0 ≢ 0x10
      → byte req 0 ≢ 0x22
      → byte req 0 ≢ 0x23
      → byte req 0 ≢ 0x3e
      → byte req 0 ≢ 0x3d
      → byte req 0 ≢ 0x2e
      → handle_msg h l true req (some presp) s
        ≡ done (
          (UdsError.error_handler_init, some (put presp (0x7f ∷ byte req 0 ∷ 0x11 ∷ []) presp.usz)),
          s,
        )
  unfolding dispatch code
  unknown_service s a b c d e f = rw to_dispatch (ground arith)
