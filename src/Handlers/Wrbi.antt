-- ===== src/Handlers/Wrbi.antt =====
-- uds_handlers/src/wrbi_handler.c: WriteDataByIdentifier.
use vdiag_server.Base.{
  ℕ, not, Option, none, some, [], ◌∷◌, drop, ltb, ◌==◌, bit_or, bit_and, if◌then◌else◌,
}
use vdiag_server.Base.Word.{is_negative, ◌>>>◌}
use vdiag_server.Base.Exec.{done, undefined, Exec, pure, fault, ◌>>=◌}
use vdiag_server.Base.Ptr.{block, load, store}
use vdiag_server.Can.{CanMessage, put}
use vdiag_server.Os.{Os}
use vdiag_server.Memory.{check_memrange, write_memory}
use vdiag_server.Uds.{UdsState}
use vdiag_server.Uds.Codes.{Nrc, code, is_positive, Sid, sid}
use vdiag_server.Uds.Interface.{WrbiParams, WrbiResult}
use vdiag_server.Handlers.DidMap.{DidTable, DidMapping, init_mapping, max_did}
use vdiag_server.Handlers.Dsc.{extended_diagnostic_session}
use vdiag_server.Handlers.Rdba.{allocate}
use vdiag_server.Handlers.Rdbi.{request_did}

-- What the setups that need it see beside `puds`: the operating system and the global table.
pub record Globals (F : Type 0) : Type 0 where
  pub fs : F
  pub dids : DidTable

abbrev pub on_fs : {F A : Type 0} → Exec F A → Exec (Globals F) A
on_fs m g = elim (m g.fs) [
  | undefined ↦ undefined
  | done (a, t) ↦ done (a, record { fs = t; dids = g.dids })
]

-- `init_mapping(*puds->pecucfg)`
abbrev fill : {F : Type 0} → UdsState → Exec (Globals F) DidTable
fill puds g = elim (init_mapping puds.ecucfg) [
  | undefined ↦ undefined
  | done filled ↦ done (filled, record { fs = g.fs; dids = filled })
]

module _ {F : Type 0} where
  -- The last assignments of the setup, and the `memcpy` of the data.
  wrbi_accept :
      CanMessage → ℕ → DidMapping → WrbiParams → Exec (Globals F) (Nrc × Option WrbiParams)
  wrbi_accept req did did_map p = do
    bytes ← load (block (drop 3 req.pdata)) did_map.data_size
    copied ← store p.pdata bytes
    pure (
      Nrc.positive_response,
      some (record {
        udid = did;
        uaddr = did_map.memory_address;
        usz = did_map.data_size;
        pdata = copied;
      }),
    )

  -- The checks on the entry of the table. The range that is tested is the one that `*pparams`
  -- holds, which no statement has assigned yet.
  wrbi_entry :
      UdsState
      → CanMessage
      → ℕ
      → DidMapping
      → WrbiParams
      → Exec (Globals F) (Nrc × Option WrbiParams)
  unfolding wrbi_accept
  wrbi_entry puds req did did_map p =
      if did_map.valid == 0
      then pure (Nrc.request_out_of_range, some p)
      else if not
          (check_memrange puds.ecucfg.memory.start_addr puds.ecucfg.memory.end_addr p.uaddr p.usz)
      then pure (Nrc.request_out_of_range, some p)
      else wrbi_accept req did did_map p

  wrbi_checks :
      UdsState → CanMessage → DidTable → WrbiParams → Exec (Globals F) (Nrc × Option WrbiParams)
  unfolding wrbi_entry
  wrbi_checks puds req table p =
      let did = request_did req in
      if ltb req.usz 3
      then pure (Nrc.incorrect_msg_len_or_format, some p)
      else if not (puds.uses == extended_diagnostic_session)
      then pure (Nrc.service_not_supported_in_session, some p)
      else if ltb max_did did
      then pure (Nrc.request_out_of_range, some p)
      else wrbi_entry puds req did (table did) p

module _ (os : Os) where
  -- `*puds` and `*pparams` are used before either is tested for null.
  unfoldable pub wrbi_setup :
      Option UdsState
      → CanMessage
      → Option WrbiParams
      → Exec (Globals os.State) (Nrc × Option WrbiParams)
  unfolding wrbi_checks
  wrbi_setup none req pparams = fault
  wrbi_setup (some puds) req none = fault
  wrbi_setup (some puds) req (some p) = do
    table ← fill puds
    buf ← on_fs (allocate os 4096)
    wrbi_checks puds req table (record p { pdata = buf })

  -- On the error paths `udid` is not assigned, and `pack` does not read it.
  unfoldable pub wrbi : Option UdsState → WrbiParams → Exec os.State WrbiResult
  wrbi none params = pure (record { rc = Nrc.conditions_not_correct; udid = 0 })
  wrbi (some puds) params = do
    n ← write_memory os puds.ecucfg.memory.file_path params.uaddr params.usz params.pdata
    if is_negative n
        then pure (record { rc = Nrc.conditions_not_correct; udid = 0 })
        else pure (record { rc = Nrc.positive_response; udid = params.udid })

unfoldable pub wrbi_pack : WrbiResult → CanMessage → CanMessage
wrbi_pack res presp =
    if not (is_positive res.rc)
    then put presp (sid Sid.negative_response ∷ sid Sid.write_data_by_identifier ∷ code res.rc ∷ [])
        3
    else put presp
        (bit_or (sid Sid.write_data_by_identifier) 0x40
          ∷ bit_and (res.udid >>> 8) 0xff
          ∷ bit_and res.udid 0xff
          ∷ [])
        3
