-- ===== src/Handlers/Rdba.antt =====
-- uds_handlers/src/rdba_handler.c: ReadMemoryByAddress.
use vdiag_server.Base.{
  ℕ, ◌+◌, not, Option, none, some, List, [], ◌∷◌, ◌++◌, replicate, ltb, leb, bit_or, if◌then◌else◌,
}
use vdiag_server.Base.Exec.{Exec, pure, fault, ◌>>=◌, ◌>>◌, sys}
use vdiag_server.Base.Ptr.{Ptr, null, block, load, free}
use vdiag_server.Can.{CanMessage, byte, put, max_message_size}
use vdiag_server.Os.{Os}
use vdiag_server.Memory.{check_memrange, read_memory}
use vdiag_server.Uds.{UdsState}
use vdiag_server.Uds.Codes.{Nrc, code, is_positive, Sid, sid}
use vdiag_server.Uds.Interface.{RdbaParams, RdbaResult}
use vdiag_server.Handlers.Address.{addr_len, size_len, bad_format, parse_field}

abbrev pub max_data_chunk_size : ℕ
max_data_chunk_size = 4096

-- The checks behind the format byte.
rdba_fields : UdsState → CanMessage → RdbaParams → ℕ → ℕ → Nrc × Option RdbaParams
rdba_fields puds req p uaddrlen uszlen =
    let uaddr = parse_field req uaddrlen 2 0 in
    let usz = parse_field req uszlen (2 + uaddrlen) 0 in
    if bad_format uaddrlen uszlen
    then (Nrc.request_out_of_range, some p)
    else if ltb req.usz (2 + uaddrlen + uszlen)
    then (Nrc.incorrect_msg_len_or_format, some p)
    else if not (check_memrange puds.ecucfg.memory.start_addr puds.ecucfg.memory.end_addr uaddr usz)
    then (Nrc.request_out_of_range, some p)
    else (Nrc.positive_response, some (record { usz = usz; uaddr = uaddr }))

unfoldable pub rdba_setup :
    Option UdsState → CanMessage → Option RdbaParams → Nrc × Option RdbaParams
unfolding rdba_fields
rdba_setup none req pparams = (Nrc.conditions_not_correct, pparams)
rdba_setup (some puds) req none = (Nrc.conditions_not_correct, none)
rdba_setup (some puds) req (some p) =
    if ltb req.usz 2
    then (Nrc.incorrect_msg_len_or_format, some p)
    else rdba_fields puds req p (addr_len (byte req 1)) (size_len (byte req 1))

-- `calloc` of `n` bytes.
abbrev pub allocate : (os : Os) → ℕ → Exec os.State Ptr
allocate os n = do got ← sys (os.calloc n); pure (if got then block (replicate n 0) else null)

-- `memcpy(&presp->pdata[i], pdata, n)` behind the bytes assigned to `pdata[0..i)`, and
-- `presp->usz = i + n`. The copy has to stay within the array.
abbrev pub copy_in : {S : Type 0} → ℕ → List ℕ → Ptr → ℕ → CanMessage → Exec S CanMessage
copy_in i front pdata n presp = do
  bytes ← load pdata n
  if leb (i + n) max_message_size then pure (put presp (front ++ bytes) (i + n)) else fault

module _ (os : Os) where
  -- The test `res.usz < 0` on a `uint32_t`, and the two ways on.
  rdba_result : ℕ → Ptr → RdbaResult
  rdba_result n got =
      if ltb n 0
      then record { rc = Nrc.conditions_not_correct; pdata = got; usz = n }
      else record { rc = Nrc.positive_response; pdata = got; usz = n }

  unfoldable pub rdba : Option UdsState → RdbaParams → Exec os.State RdbaResult
  unfolding rdba_result
  rdba none params = do
    buf ← allocate os max_data_chunk_size
    pure (record { rc = Nrc.conditions_not_correct; pdata = buf; usz = 0 })
  rdba (some puds) params = do
    buf ← allocate os max_data_chunk_size
    (n, got) ← read_memory os puds.ecucfg.memory.file_path params.uaddr params.usz buf
    pure (rdba_result n got)

-- A refusal is written first, and then the positive response over it: no `return` parts them.
unfoldable pub rdba_pack : {S : Type 0} → RdbaResult → CanMessage → Exec S CanMessage
rdba_pack res presp =
    let presp' =
      if not (is_positive res.rc)
      then put presp (sid Sid.negative_response ∷ sid Sid.read_memory_by_address ∷ code res.rc ∷ [])
          3
      else presp in
    do
      out ← copy_in 1 (bit_or (sid Sid.read_memory_by_address) 0x40 ∷ []) res.pdata res.usz presp'
      free res.pdata
      pure out
