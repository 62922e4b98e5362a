-- ===== src/Handlers/Rdbi.antt =====
-- uds_handlers/src/rdbi_handler.c: ReadDataByIdentifier.
use vdiag_server.Base.{
  ℕ, not, Option, none, some, [], ◌∷◌, ltb, ◌==◌, bit_or, bit_and, if◌then◌else◌,
}
use vdiag_server.Base.Word.{u16, ◌<<<◌, ◌>>>◌}
use vdiag_server.Base.Exec.{done, undefined, Exec, pure, ◌>>=◌, ◌>>◌}
use vdiag_server.Base.Ptr.{Ptr, null, is_null, free}
use vdiag_server.Can.{CanMessage, byte, put}
use vdiag_server.Os.{Os}
use vdiag_server.Memory.{check_memrange, read_memory}
use vdiag_server.Uds.{UdsState}
use vdiag_server.Uds.Codes.{Nrc, code, is_positive, Sid, sid}
use vdiag_server.Uds.Interface.{RdbiParams, RdbiResult}
use vdiag_server.Handlers.DidMap.{DidTable, DidMapping, init_mapping, max_did}
use vdiag_server.Handlers.Rdba.{allocate, copy_in}

-- `(req.pdata[1] << 8) | req.pdata[2]`, as a `uint16_t`.
abbrev pub request_did : CanMessage → ℕ
request_did req = u16 (bit_or (byte req 1 <<< 8) (byte req 2))

-- The checks on the entry of the table.
rdbi_entry : UdsState → ℕ → DidMapping → RdbiParams → Nrc × Option RdbiParams
rdbi_entry puds udid did_map p =
    if did_map.valid == 0
    then (Nrc.request_out_of_range, some p)
    else if not (
        check_memrange puds.ecucfg.memory.start_addr puds.ecucfg.memory.end_addr
          did_map.memory_address did_map.data_size)
    then (Nrc.request_out_of_range, some p)
    else (
      Nrc.positive_response,
      some (record { udid = udid; uaddr = did_map.memory_address; usz = did_map.data_size }),
    )

-- The checks once the table is filled.
rdbi_checks : UdsState → CanMessage → Option RdbiParams → DidTable → Nrc × Option RdbiParams
unfolding rdbi_entry
rdbi_checks puds req none table = (Nrc.general_reject, none)
rdbi_checks puds req (some p) table =
    let udid = request_did req in
    if ltb req.usz 3
    then (Nrc.incorrect_msg_len_or_format, some p)
    else if ltb max_did udid
    then (Nrc.request_out_of_range, some p)
    else rdbi_entry puds udid (table udid) p

-- `*puds` is read to fill the table before `puds` is tested for null.
unfoldable pub rdbi_setup :
    Option UdsState → CanMessage → Option RdbiParams → Exec DidTable (Nrc × Option RdbiParams)
unfolding rdbi_checks
rdbi_setup none req pparams table = undefined
rdbi_setup (some puds) req pparams table = elim (init_mapping puds.ecucfg) [
  | undefined ↦ undefined
  | done filled ↦ done (rdbi_checks puds req pparams filled, filled)
]

module _ (os : Os) where
  -- The test `res.usz < 0` on a `uint32_t`, and the two ways on.
  rdbi_result : ℕ → ℕ → Ptr → Exec os.State RdbiResult
  rdbi_result udid n got =
      if ltb n 0
      then (do
        free got
        pure (record { rc = Nrc.conditions_not_correct; udid = 0; pdata = null; usz = n }))
      else pure (record { rc = Nrc.positive_response; udid = udid; pdata = got; usz = n })

  rdbi_read : UdsState → RdbiParams → Ptr → Exec os.State RdbiResult
  unfolding rdbi_result
  rdbi_read puds params buf =
      if is_null buf
      then pure (record { rc = Nrc.conditions_not_correct; udid = 0; pdata = buf; usz = 0 })
      else do
        (n, got) ← read_memory os puds.ecucfg.memory.file_path params.uaddr params.usz buf
        rdbi_result params.udid n got

  unfoldable pub rdbi : Option UdsState → RdbiParams → Exec os.State RdbiResult
  unfolding rdbi_read
  rdbi none params =
      pure (record { rc = Nrc.conditions_not_correct; udid = 0; pdata = null; usz = 0 })
  rdbi (some puds) params = do buf ← allocate os params.usz; rdbi_read puds params buf

unfoldable pub rdbi_pack : {S : Type 0} → RdbiResult → CanMessage → Exec S CanMessage
rdbi_pack res presp =
    if not (is_positive res.rc)
    then pure (
        put presp (sid Sid.negative_response ∷ sid Sid.read_data_by_identifier ∷ code res.rc ∷ [])
          3)
    else do
      out ←
          copy_in 3
            (bit_or (sid Sid.read_data_by_identifier) 0x40
              ∷ bit_and (res.udid >>> 8) 0xff
              ∷ bit_and res.udid 0xff
              ∷ [])
            res.pdata res.usz presp
      free res.pdata
      pure out
