-- ===== src/Handlers/Std/ById.antt =====
-- ReadDataByIdentifier through the dispatcher, over regular files.
use vdiag_server.Base.{
  ℕ, ◌+◌, ◌*◌, ◌/◌, ◌≤◌, ◌<◌, ◌≡◌, refl, sym, ap, ◌∙◌, ◌⊎◌, inl, inr, true, false, ◌&&◌, leb, none,
  some, List, [], ◌∷◌, length, take, drop, replicate, overwrite, length-drop, length-take,
  length-replicate, length-overwrite, take-overwrite, arith, bit_or_byte, bit_and_byte,
}
use vdiag_server.Base.Exec.{done}
use vdiag_server.Base.Ptr.{Ptr}
use vdiag_server.Can.{CanMessage, byte, put, IsMessage}
use vdiag_server.Config.{DataIdentifier, EcuConfig}
use vdiag_server.Os.{Os}
use vdiag_server.Os.Files.{View, IsRegular}
use vdiag_server.Memory.Result.{check_memrange_iff, check_memrange-outside}
use vdiag_server.Memory.Read.{Unchanged, read_memory_ok}
use vdiag_server.Uds.Codes.{code, UdsError}
use vdiag_server.Uds.Interface.{Locals}
use vdiag_server.Uds.Dispatch.{handle_msg}
use vdiag_server.Uds.Dispatch.Cases.{read_by_identifier}
use vdiag_server.Handlers.Address.Value.{byte-lt}
use vdiag_server.Handlers.DidMap.{DidTable, mapping_of}
use vdiag_server.Handlers.DidMap.Lookup.{HasEntries, last_entry, entries, init_mapping_lem}
use vdiag_server.Handlers.Rdbi.{request_did, rdbi_setup, rdbi, rdbi_pack}
use vdiag_server.Handlers.Std.{Machine, std_handlers}
use vdiag_server.Handlers.Std.Write.{memory_file}

-- The identifier that a request names: its second and third byte.
abbrev pub named_did : CanMessage → ℕ
named_did req = byte req 1 * 256 + byte req 2

pub request_did_lem : {req : CanMessage} → IsMessage req → request_did req ≡ named_did req
request_did_lem {req} m =
    let h1 = byte-lt m 1 in
    let h2 = byte-lt m 2 in omega (arith, bit_or_byte (byte req 1) (byte req 2) h2)

-- The machine with its table and its files in another state.
abbrev pub with_globals : {F : Type 0} → Machine F → F → DidTable → Machine F
with_globals m t table = record { uds = m.uds; globals = record { fs = t; dids = table } }

-- An entry whose region lies in the configured memory.
pub record IsMapped (ecucfg : EcuConfig) (udid : ℕ) (d : DataIdentifier) : Type 0 where
  pub counted : HasEntries ecucfg
  pub entry : last_entry (entries ecucfg) udid ≡ some d
  pub above : ecucfg.memory.start_addr ≤ d.address
  pub below : d.address + d.size ≤ ecucfg.memory.end_addr

-- An entry whose region ends below 2 ^ 32 and lies outside the configured memory.
abbrev pub IsOutside : EcuConfig → DataIdentifier → Type 0
IsOutside c d =
    (d.address + d.size < 4294967296)
    × ((leb c.memory.start_addr d.address && leb (d.address + d.size) c.memory.end_addr) ≡ false)

module _ (os : Os) (v : View os) (reg : IsRegular os v) (stale : Ptr → Ptr) (l : Locals) where
  -- A request of at least three bytes to read an identifier whose last entry names 1 to 4093 bytes
  -- of the configured memory, with all names of identifiers terminated, over a regular memory file
  -- that holds them, with 32-bit addresses configured and a descriptor to spare, is answered by 62, the identifier and those bytes. It
  -- changes no file, but the process may open one file fewer than before.
  pub read_by_identifier_lem :
      (m : Machine os.State) (req presp : CanMessage) (d : DataIdentifier) (bs : List ℕ)
      → IsMessage req
      → 3 ≤ req.usz
      → byte req 0 ≡ 0x22
      → IsMapped m.uds.ecucfg (named_did req) d
      → m.uds.ecucfg.memory.end_addr < 4294967296
      → 0 < d.size
      → d.size ≤ 4093
      → v.content m.globals.fs (memory_file m) ≡ some bs
      → 0 < v.spare m.globals.fs
      → d.address + d.size ≤ length bs
      → (t : os.State) × (table : DidTable) × (handle_msg
            (std_handlers os stale)
            l
            true
            req
            (some presp)
            m
          ≡ done (
            (
              UdsError.no_error,
              some (
                  put presp
                    (0x62 ∷ byte req 1 ∷ byte req 2 ∷ take d.size (drop d.address bs))
                    (3 + d.size)),
            ),
            with_globals m t table,
          ))
        × Unchanged os v 1 m.globals.fs t
  unfolding rdbi_setup rdbi rdbi_pack code
  read_by_identifier_lem m req presp d bs msg long sid w end pos few con spare room =
      let (table, filled, looked) = init_mapping_lem m.uds.ecucfg w.counted in
      let h1 = byte-lt msg 1 in
      let h2 = byte-lt msg 2 in
      let did = request_did_lem msg in
      let hit : table (named_did req) ≡ mapping_of d =
        rw (looked (named_did req) (omega arith), w.entry) refl in
      let below = w.below in
      let inside =
        (check_memrange_iff m.uds.ecucfg.memory.start_addr m.uds.ecucfg.memory.end_addr d.address
            d.size (omega arith)).1
          (w.above, w.below) in
      let zeros = replicate {A = ℕ} d.size 0 in
      let found = take d.size (drop d.address bs) in
      let (got, same) = reg.calloc_ok d.size m.globals.fs pos in
      let fs = (os.calloc d.size m.globals.fs).1 in
      let zlen = length-replicate {A = ℕ} d.size 0 in
      let (t, ran, left) =
        read_memory_ok os v reg d.address d.size zeros bs (memory_file m) fs
          (same.content (memory_file m) ∙ con) (omega (arith, same.spare)) pos (omega arith) room
          (omega arith) (omega arith) in
      let len : length found ≡ d.size =
        omega (arith, length-take d.size (drop d.address bs), length-drop d.address bs) in
      let whole : take d.size (overwrite found zeros) ≡ found =
        ap (λ (k : ℕ). take k (overwrite found zeros)) (sym len)
        ∙ take-overwrite found zeros (omega arith) in
      let olen = length-overwrite found zeros in
      let some_byte : 0 < req.usz = omega arith in
      let hi = bit_and_byte (named_did req / 256) in
      let lo = bit_and_byte (named_did req) in
      (
        t,
        table,
        rw (read_by_identifier (std_handlers os stale) l req presp some_byte m sid)
            (ground (arith, filled, did, hit, inside, got, ran, whole, olen, hi, lo)),
        record {
          content = λ other. left.content other ∙ same.content other;
          spare = omega (arith, left.spare, same.spare);
        },
      )

  -- A request of at least three bytes to read an identifier without an entry, or with one whose
  -- region ends below 2 ^ 32 and lies outside the configured memory, is refused with 7F 22 31, and no
  -- file is touched.
  pub read_unknown_identifier :
      (m : Machine os.State) (req presp : CanMessage)
      → IsMessage req
      → 3 ≤ req.usz
      → byte req 0 ≡ 0x22
      → HasEntries m.uds.ecucfg
      → (last_entry (entries m.uds.ecucfg) (named_did req) ≡ none)
        ⊎ ((d : DataIdentifier) × (last_entry (entries m.uds.ecucfg) (named_did req) ≡ some d)
            × IsOutside m.uds.ecucfg d)
      → (table : DidTable) × (handle_msg (std_handlers os stale) l true req (some presp) m
          ≡ done (
            (UdsError.no_error, some (put presp (0x7f ∷ 0x22 ∷ 0x31 ∷ []) 3)),
            with_globals m m.globals.fs table,
          ))
  unfolding rdbi_setup rdbi_pack code
  read_unknown_identifier m req presp msg long sid counted why =
      let (table, filled, looked) = init_mapping_lem m.uds.ecucfg counted in
      let h1 = byte-lt msg 1 in
      let h2 = byte-lt msg 2 in
      let did = request_did_lem msg in
      let found = looked (named_did req) (omega arith) in
      (
        table,
        rw (read_by_identifier (std_handlers os stale) l req presp (omega arith) m sid) (elim why [
          | inl missing ↦
              let miss : (table (named_did req)).valid ≡ 0 = rw (found, missing) refl in
              ground (arith, filled, did, miss)
          | inr (d, entry, (fits, out)) ↦
              let hit : table (named_did req) ≡ mapping_of d = rw (found, entry) refl in
              let outside =
                check_memrange-outside m.uds.ecucfg.memory.start_addr m.uds.ecucfg.memory.end_addr
                  d.address d.size fits out in
              ground (arith, filled, did, hit, outside)
        ]),
      )

  -- A shorter one is refused with 7F 22 13.
  pub read_short_identifier :
      (m : Machine os.State) (req presp : CanMessage)
      → 0 < req.usz
      → req.usz < 3
      → byte req 0 ≡ 0x22
      → HasEntries m.uds.ecucfg
      → (table : DidTable) × (handle_msg (std_handlers os stale) l true req (some presp) m
          ≡ done (
            (UdsError.no_error, some (put presp (0x7f ∷ 0x22 ∷ 0x13 ∷ []) 3)),
            with_globals m m.globals.fs table,
          ))
  unfolding rdbi_setup rdbi_pack code
  read_short_identifier m req presp some_byte short sid counted =
      let (table, filled, looked) = init_mapping_lem m.uds.ecucfg counted in
      (
        table,
        rw (read_by_identifier (std_handlers os stale) l req presp some_byte m sid)
            (ground (arith, filled, short)),
      )
