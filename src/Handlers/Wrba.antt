-- ===== src/Handlers/Wrba.antt =====
-- uds_handlers/src/wrba_handler.c: WriteMemoryByAddress.
use vdiag_server.Base.{
  ℕ, ◌+◌, not, Option, none, some, [], ◌∷◌, drop, ltb, ◌==◌, bit_or, if◌then◌else◌,
}
use vdiag_server.Base.Word.{u32, is_negative}
use vdiag_server.Base.Exec.{Exec, pure, ◌>>=◌}
use vdiag_server.Base.Ptr.{block}
use vdiag_server.Can.{CanMessage, byte, put}
use vdiag_server.Os.{Os}
use vdiag_server.Memory.{check_memrange, write_memory}
use vdiag_server.Uds.{UdsState}
use vdiag_server.Uds.Codes.{Nrc, code, is_positive, Sid, sid}
use vdiag_server.Uds.Interface.{WrbaParams, WrbaResult}
use vdiag_server.Handlers.Address.{addr_len, size_len, bad_format, parse_field}
use vdiag_server.Handlers.Dsc.{extended_diagnostic_session}

-- The checks behind the format byte. `pdata` points into the request.
wrba_fields : UdsState → CanMessage → WrbaParams → ℕ → ℕ → Nrc × Option WrbaParams
wrba_fields puds req p uaddrlen uszlen =
    let uaddr = parse_field req uaddrlen 2 0 in
    let usz = parse_field req uszlen (2 + uaddrlen) 0 in
    let data_offset = 2 + uaddrlen + uszlen in
    if bad_format uaddrlen uszlen
    then (Nrc.request_out_of_range, some p)
    else if ltb req.usz (2 + uaddrlen + uszlen)
    then (Nrc.incorrect_msg_len_or_format, some p)
    else if not (check_memrange puds.ecucfg.memory.start_addr puds.ecucfg.memory.end_addr uaddr usz)
    then (Nrc.request_out_of_range, some p)
    else if ltb req.usz (u32 (data_offset + usz))
    then (Nrc.incorrect_msg_len_or_format, some p)
    else (
      Nrc.positive_response,
      some (record { uaddr = uaddr; usz = usz; pdata = block (drop data_offset req.pdata) }),
    )

unfoldable pub wrba_setup :
    Option UdsState → CanMessage → Option WrbaParams → Nrc × Option WrbaParams
unfolding wrba_fields
wrba_setup none req pparams = (Nrc.general_reject, pparams)
wrba_setup (some puds) req none = (Nrc.general_reject, none)
wrba_setup (some puds) req (some p) =
    if ltb req.usz 2
    then (Nrc.incorrect_msg_len_or_format, some p)
    else if not (puds.uses == extended_diagnostic_session)
    then (Nrc.service_not_supported_in_session, some p)
    else wrba_fields puds req p (addr_len (byte req 1)) (size_len (byte req 1))

module _ (os : Os) where
  unfoldable pub wrba : Option UdsState → WrbaParams → Exec os.State WrbaResult
  wrba none params = pure (record { rc = Nrc.conditions_not_correct })
  wrba (some puds) params = do
    n ← write_memory os puds.ecucfg.memory.file_path params.uaddr params.usz params.pdata
    if is_negative n
        then pure (record { rc = Nrc.conditions_not_correct })
        else pure (record { rc = Nrc.positive_response })

unfoldable pub wrba_pack : WrbaResult → CanMessage → CanMessage
wrba_pack res presp =
    if not (is_positive res.rc)
    then put presp (sid Sid.negative_response ∷ sid Sid.write_memory_by_address ∷ code res.rc ∷ [])
        3
    else put presp (bit_or (sid Sid.write_memory_by_address) 0x40 ∷ []) 1
