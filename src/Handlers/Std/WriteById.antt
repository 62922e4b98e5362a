-- ===== src/Handlers/Std/WriteById.antt =====
-- WriteDataByIdentifier through the dispatcher, over regular files.
use vdiag_server.Base.{
  ℕ, ◌+◌, ◌/◌, ◌≤◌, ◌<◌, ◌≡◌, refl, sym, ap, ◌∙◌, true, some, List, [], ◌∷◌, length, take, drop,
  replicate, overwrite, length-drop, length-take, length-replicate, length-overwrite,
  take-overwrite, arith, if◌then◌else◌, bit_and_byte,
}
use vdiag_server.Base.Exec.{done}
use vdiag_server.Base.Ptr.{Ptr, block}
use vdiag_server.Can.{CanMessage, byte, put, IsMessage}
use vdiag_server.Config.{DataIdentifier}
use vdiag_server.Os.{Os}
use vdiag_server.Os.Files.{View, IsRegular}
use vdiag_server.Memory.{check_memrange}
use vdiag_server.Memory.Write.{Written, write_memory_ok}
use vdiag_server.Uds.Codes.{Nrc, code, UdsError}
use vdiag_server.Uds.Interface.{Locals}
use vdiag_server.Uds.Dispatch.{handle_msg}
use vdiag_server.Uds.Dispatch.Cases.{write_by_identifier}
use vdiag_server.Handlers.Address.Value.{byte-lt}
use vdiag_server.Handlers.DidMap.{DidTable, mapping_of}
use vdiag_server.Handlers.DidMap.Lookup.{HasEntries, last_entry, entries, init_mapping_lem}
use vdiag_server.Handlers.Wrbi.{Globals, wrbi_setup, wrbi, wrbi_pack}
use vdiag_server.Handlers.Std.{Machine, std_handlers}
use vdiag_server.Handlers.Std.Write.{memory_file}
use vdiag_server.Handlers.Std.ById.{named_did, request_did_lem, with_globals}

module _ (os : Os) (v : View os) (reg : IsRegular os v) (stale : Ptr → Ptr) (l : Locals) where
  -- In the extended session, where memory for the buffer is given and all names of identifiers are
  -- terminated, a request of at least three
  -- bytes to write an identifier that has an entry of at most 4093 bytes is accepted or refused by
  -- the range that the local `wrbi_param` held before any assignment, wherever the entry lies.
  -- Where the setup accepts it, it takes the entry's region and as many bytes from behind the
  -- identifier as the entry asks for, whether sent or not. No file changes.
  pub write_setup_uninitialised :
      (m : Machine os.State) (req : CanMessage) (d : DataIdentifier)
      → IsMessage req
      → 3 ≤ req.usz
      → m.uds.uses ≡ 3
      → HasEntries m.uds.ecucfg
      → last_entry (entries m.uds.ecucfg) (named_did req) ≡ some d
      → d.size ≤ 4093
      → let mem = m.uds.ecucfg.memory in
        let garbage = l.wrbi_param in
        let zeros = replicate {A = ℕ} 4096 0 in
        (g : Globals os.State) × (wrbi_setup os (some m.uds) req (some garbage) m.globals
          ≡ done (
            if check_memrange mem.start_addr mem.end_addr garbage.uaddr garbage.usz
                then (
                  Nrc.positive_response,
                  some (record {
                    udid = named_did req;
                    uaddr = d.address;
                    usz = d.size;
                    pdata = block (overwrite (take d.size (drop 3 req.pdata)) zeros);
                  }),
                )
                else (Nrc.request_out_of_range, some (record garbage { pdata = block zeros })),
            g,
          ))
        × ((name : List ℕ) → v.content g.fs name ≡ v.content m.globals.fs name)
        × (v.spare g.fs ≡ v.spare m.globals.fs)
  unfolding wrbi_setup
  write_setup_uninitialised m req d msg long extended counted entry few =
      let (table, filled, looked) = init_mapping_lem m.uds.ecucfg counted in
      let h1 = byte-lt msg 1 in
      let h2 = byte-lt msg 2 in
      let did = request_did_lem msg in
      let hit : table (named_did req) ≡ mapping_of d =
        rw (looked (named_did req) (omega arith), entry) refl in
      let zeros = replicate {A = ℕ} 4096 0 in
      let (got, same) = reg.calloc_ok 4096 m.globals.fs (omega arith) in
      let sent = take d.size (drop 3 req.pdata) in
      let len : length sent ≡ d.size =
        omega (arith, length-take d.size (drop 3 req.pdata), length-drop 3 req.pdata, msg.full) in
      let zlen = length-replicate {A = ℕ} 4096 0 in
      let have : length (drop 3 req.pdata) ≡ 4093 =
        omega (arith, length-drop 3 req.pdata, msg.full) in
      (
        record { fs = (os.calloc 4096 m.globals.fs).1; dids = table },
        ground (arith, filled, did, hit, got, len, zlen, have),
        same.content,
        same.spare,
      )

  -- In the extended session, with all names of identifiers terminated and with what `wrbi_param`
  -- held in range, a request of at least three
  -- bytes to write an identifier whose last entry names 1 to 4093 bytes at a 32-bit address, over a
  -- regular memory file that holds them, with a descriptor to spare, is answered by 6E and the
  -- identifier. It changes exactly the bytes of the entry, to those behind the identifier.
  pub write_by_identifier_lem :
      (m : Machine os.State) (req presp : CanMessage) (d : DataIdentifier) (bs : List ℕ)
      → IsMessage req
      → 3 ≤ req.usz
      → byte req 0 ≡ 0x2e
      → m.uds.uses ≡ 3
      → HasEntries m.uds.ecucfg
      → last_entry (entries m.uds.ecucfg) (named_did req) ≡ some d
      → check_memrange m.uds.ecucfg.memory.start_addr m.uds.ecucfg.memory.end_addr
          l.wrbi_param.uaddr l.wrbi_param.usz
        ≡ true
      → d.address < 4294967296
      → 0 < d.size
      → d.size ≤ 4093
      → v.content m.globals.fs (memory_file m) ≡ some bs
      → 0 < v.spare m.globals.fs
      → d.address + d.size ≤ length bs
      → (t : os.State) × (table : DidTable) × (handle_msg
            (std_handlers os stale)
            l
            true
            req
            (some presp)
            m
          ≡ done (
            (UdsError.no_error, some (put presp (0x6e ∷ byte req 1 ∷ byte req 2 ∷ []) 3)),
            with_globals m t table,
          ))
        × Written os v (memory_file m) d.address (take d.size (drop 3 req.pdata)) bs m.globals.fs t
  unfolding wrbi wrbi_pack code
  write_by_identifier_lem m req presp d bs msg long sid extended counted entry range word pos few
        con spare room =
      let (g, set_up, same, same_spare) =
        write_setup_uninitialised m req d msg long extended counted entry few in
      let h1 = byte-lt msg 1 in
      let h2 = byte-lt msg 2 in
      let zeros = replicate {A = ℕ} 4096 0 in
      let sent = take d.size (drop 3 req.pdata) in
      let len : length sent ≡ d.size =
        omega (arith, length-take d.size (drop 3 req.pdata), length-drop 3 req.pdata, msg.full) in
      let zlen = length-replicate {A = ℕ} 4096 0 in
      let olen = length-overwrite sent zeros in
      let whole : take d.size (overwrite sent zeros) ≡ sent =
        ap (λ (k : ℕ). take k (overwrite sent zeros)) (sym len)
        ∙ take-overwrite sent zeros (omega arith) in
      let (t, ran, left) =
        write_memory_ok os v reg d.address d.size (overwrite sent zeros) bs (memory_file m) g.fs
          (same (memory_file m) ∙ con) (omega arith) pos (omega arith) room word (omega arith) in
      let hi = bit_and_byte (named_did req / 256) in
      let lo = bit_and_byte (named_did req) in
      (
        t,
        g.dids,
        rw (write_by_identifier (std_handlers os stale) l req presp (omega arith) m sid)
            (ground (arith, set_up, range, ran, hi, lo)),
        record {
          content = rw whole at left.content;
          others = λ other ne. left.others other ne ∙ same other;
          spare = left.spare ∙ same_spare;
        },
      )
