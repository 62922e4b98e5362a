-- ===== src/Handlers/Std/Write.antt =====
-- WriteMemoryByAddress through the dispatcher, over regular files.
use vdiag_server.Base.{
  ℕ, ◌+◌, ◌≤◌, ◌<◌, ◌≡◌, true, some, List, [], ◌∷◌, length, take, drop, length-drop, arith,
}
use vdiag_server.Base.Exec.{done}
use vdiag_server.Base.Ptr.{Ptr, block}
use vdiag_server.Can.{CanMessage, byte, put, IsMessage}
use vdiag_server.Os.{Os}
use vdiag_server.Os.Files.{View, IsRegular}
use vdiag_server.Memory.Write.{Written, write_memory_ok}
use vdiag_server.Uds.Codes.{code, UdsError}
use vdiag_server.Uds.Interface.{Locals}
use vdiag_server.Uds.Dispatch.{handle_msg}
use vdiag_server.Uds.Dispatch.Cases.{write_by_address}
use vdiag_server.Handlers.Region.{IsWrite, region_addr, region_size, header_size, wrba_setup_iff}
use vdiag_server.Handlers.Wrba.{wrba, wrba_pack}
use vdiag_server.Handlers.Std.{Machine, std_handlers}

-- The data bytes of a write request.
abbrev pub written_data : CanMessage → List ℕ
written_data req = take (region_size req) (drop (header_size req) req.pdata)

-- The machine with its files in another state.
abbrev pub with_files : {F : Type 0} → Machine F → F → Machine F
with_files m t = record { uds = m.uds; globals = record { fs = t; dids = m.globals.dids } }

-- The file of the ECU memory.
abbrev pub memory_file : {F : Type 0} → Machine F → List ℕ
memory_file m = m.uds.ecucfg.memory.file_path

module _ (os : Os) (v : View os) (reg : IsRegular os v) (stale : Ptr → Ptr)
    (intact : (p : Ptr) → stale p ≡ p) (l : Locals) where
  -- An accepted request of at most 4096 bytes to write at least one byte, over a regular memory
  -- file that holds the region, with 32-bit addresses configured, with a descriptor to spare and
  -- with the argument of the setup still in place, is answered by 7D. It changes exactly the bytes
  -- of its region, to its data, and nothing else.
  pub write_by_address_lem :
      (m : Machine os.State) (req presp : CanMessage) (bs : List ℕ)
      → IsMessage req
      → req.usz ≤ 4096
      → byte req 0 ≡ 0x3d
      → IsWrite m.uds req
      → m.uds.ecucfg.memory.end_addr < 4294967296
      → 0 < region_size req
      → v.content m.globals.fs (memory_file m) ≡ some bs
      → 0 < v.spare m.globals.fs
      → region_addr req + region_size req ≤ length bs
      → (t : os.State) × (handle_msg (std_handlers os stale) l true req (some presp) m
          ≡ done ((UdsError.no_error, some (put presp (0x7d ∷ []) 1)), with_files m t))
        × Written os v (memory_file m) (region_addr req) (written_data req) bs m.globals.fs t
  unfolding wrba wrba_pack code
  write_by_address_lem m req presp bs msg fits sid w end pos con spare room =
      let d = drop (header_size req) req.pdata in
      let have : region_size req ≤ length d =
        omega (arith, length-drop (header_size req) req.pdata, msg.full, w.has_data) in
      let below = w.region.below in
      let (t, wrote, left) =
        write_memory_ok os v reg (region_addr req) (region_size req) d bs (memory_file m)
          m.globals.fs con spare pos have room (omega arith) (omega (arith, w.has_data)) in
      let accepted =
        (wrba_setup_iff m.uds req msg l.wrba_param (omega arith)
            (omega (arith, w.has_data, msg.word))).1
          w in
      let some_byte : 0 < req.usz = omega (arith, w.region.complete) in
      (
        t,
        rw (write_by_address (std_handlers os stale) l req presp some_byte m sid)
            (ground (arith, accepted, intact (block d), wrote)),
        left,
      )
