-- ===== src/Handlers/Std/Read.antt =====
-- ReadMemoryByAddress through the dispatcher, over regular files.
use vdiag_server.Base.{
  ℕ, ◌+◌, ◌≤◌, ◌<◌, ◌≡◌, sym, ap, ◌∙◌, true, some, List, ◌∷◌, length, take, drop, replicate,
  overwrite, length-drop, length-take, length-replicate, length-overwrite, take-overwrite, arith,
}
use vdiag_server.Base.Exec.{done}
use vdiag_server.Base.Ptr.{Ptr}
use vdiag_server.Can.{CanMessage, byte, put, IsMessage}
use vdiag_server.Os.{Os}
use vdiag_server.Os.Files.{View, IsRegular}
use vdiag_server.Memory.Read.{Unchanged, read_memory_ok}
use vdiag_server.Uds.Codes.{code, UdsError}
use vdiag_server.Uds.Interface.{Locals}
use vdiag_server.Uds.Dispatch.{handle_msg}
use vdiag_server.Uds.Dispatch.Cases.{read_by_address}
use vdiag_server.Handlers.Region.{IsRegion, region_addr, region_size, rdba_setup_iff}
use vdiag_server.Handlers.Rdba.{rdba, rdba_pack}
use vdiag_server.Handlers.Std.{Machine, std_handlers}
use vdiag_server.Handlers.Std.Write.{with_files, memory_file}

module _ (os : Os) (v : View os) (reg : IsRegular os v) (stale : Ptr → Ptr) (l : Locals) where
  -- An accepted request to read 1 to 4095 bytes, over a regular memory file that holds the region,
  -- with 32-bit addresses configured and a descriptor to spare, is answered by 63 and those bytes.
  -- It changes no file, but the process may open one file fewer than before.
  pub read_by_address_lem :
      (m : Machine os.State) (req presp : CanMessage) (bs : List ℕ)
      → IsMessage req
      → byte req 0 ≡ 0x23
      → IsRegion m.uds req
      → m.uds.ecucfg.memory.end_addr < 4294967296
      → 0 < region_size req
      → region_size req < 4096
      → v.content m.globals.fs (memory_file m) ≡ some bs
      → 0 < v.spare m.globals.fs
      → region_addr req + region_size req ≤ length bs
      → (t : os.State) × (handle_msg (std_handlers os stale) l true req (some presp) m
          ≡ done (
            (
              UdsError.no_error,
              some (
                  put presp
                    (0x63 ∷ take (region_size req) (drop (region_addr req) bs))
                    (1 + region_size req)),
            ),
            with_files m t,
          ))
        × Unchanged os v 1 m.globals.fs t
  unfolding rdba rdba_pack code
  read_by_address_lem m req presp bs msg sid w end pos few con spare room =
      let zeros = replicate {A = ℕ} 4096 0 in
      let found = take (region_size req) (drop (region_addr req) bs) in
      let (got, same) = reg.calloc_ok 4096 m.globals.fs (omega arith) in
      let fs = (os.calloc 4096 m.globals.fs).1 in
      let below = w.below in
      let (t, ran, left) =
        read_memory_ok os v reg (region_addr req) (region_size req) zeros bs (memory_file m) fs
          (same.content (memory_file m) ∙ con) (omega (arith, same.spare)) pos
          (omega (arith, length-replicate {A = ℕ} 4096 0)) room (omega arith) (omega arith) in
      let len : length found ≡ region_size req = omega (
        arith,
        length-take (region_size req) (drop (region_addr req) bs),
        length-drop (region_addr req) bs,
      ) in
      let whole : take (region_size req) (overwrite found zeros) ≡ found =
        ap (λ (k : ℕ). take k (overwrite found zeros)) (sym len)
        ∙ take-overwrite found zeros (omega (arith, length-replicate {A = ℕ} 4096 0)) in
      let accepted = (rdba_setup_iff m.uds req msg l.rdba_param (omega arith)).1 w in
      let some_byte : 0 < req.usz = omega (arith, w.complete) in
      let room_left : length (overwrite found zeros) ≡ 4096 =
        length-overwrite found zeros ∙ length-replicate 4096 0 in
      (
        t,
        rw (read_by_address (std_handlers os stale) l req presp some_byte m sid)
            (ground (arith, accepted, got, ran, whole, room_left)),
        record {
          content = λ other. left.content other ∙ same.content other;
          spare = omega (arith, left.spare, same.spare);
        },
      )
