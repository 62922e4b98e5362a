-- ===== src/Handlers/Std/RoundTrip.antt =====
-- A client that writes memory and reads it back.
use vdiag_server.Base.{
  ℕ, ◌+◌, ◌≤◌, ◌<◌, ◌≡◌, ap, ◌∙◌, true, some, List, [], ◌∷◌, length, take, drop, length-take,
  length-drop, arith,
}
use vdiag_server.Base.Exec.{done}
use vdiag_server.Base.Ptr.{Ptr}
use vdiag_server.Can.{CanMessage, byte, put, IsMessage}
use vdiag_server.Os.{Os}
use vdiag_server.Os.Files.{View, IsRegular, splice}
use vdiag_server.Memory.RoundTrip.{take-drop-splice, length-splice}
use vdiag_server.Uds.Codes.{UdsError}
use vdiag_server.Uds.Interface.{Locals}
use vdiag_server.Uds.Dispatch.{handle_msg}
use vdiag_server.Handlers.Region.{IsRegion, IsWrite, region_addr, region_size, header_size}
use vdiag_server.Handlers.Std.{Machine, std_handlers}
use vdiag_server.Handlers.Std.Write.{with_files, memory_file, written_data, write_by_address_lem}
use vdiag_server.Handlers.Std.Read.{read_by_address_lem}

module _ (os : Os) (v : View os) (reg : IsRegular os v) (stale : Ptr → Ptr)
    (intact : (p : Ptr) → stale p ≡ p) (l l' : Locals) where
  -- After an accepted request of at most 4096 bytes to write at least one byte, over a regular
  -- memory file that holds the region, with 32-bit addresses configured, with a descriptor to spare
  -- and with the argument of the setup still in place, an accepted request to read the same region
  -- is answered by 63 and the data of the write request.
  pub read_after_write :
      (m : Machine os.State) (req req' presp presp' : CanMessage) (bs : List ℕ)
      → IsMessage req
      → IsMessage req'
      → req.usz ≤ 4096
      → byte req 0 ≡ 0x3d
      → byte req' 0 ≡ 0x23
      → IsWrite m.uds req
      → IsRegion m.uds req'
      → region_addr req' ≡ region_addr req
      → region_size req' ≡ region_size req
      → m.uds.ecucfg.memory.end_addr < 4294967296
      → 0 < region_size req
      → v.content m.globals.fs (memory_file m) ≡ some bs
      → 0 < v.spare m.globals.fs
      → region_addr req + region_size req ≤ length bs
      → (t u : os.State) × (handle_msg (std_handlers os stale) l true req (some presp) m
          ≡ done ((UdsError.no_error, some (put presp (0x7d ∷ []) 1)), with_files m t))
        × (handle_msg (std_handlers os stale) l' true req' (some presp') (with_files m t)
            ≡ done (
              (
                UdsError.no_error,
                some (put presp' (0x63 ∷ written_data req) (1 + region_size req')),
              ),
              with_files m u,
            ))
  read_after_write m req req' presp presp' bs msg msg' fits sid sid' w r same_addr same_size end pos
        con spare room =
      let (t, wrote, left) =
        write_by_address_lem os v reg stale intact l m req presp bs msg fits sid w end pos con spare
          room in
      let d = written_data req in
      let len : length d ≡ region_size req = omega (
        arith,
        length-take (region_size req) (drop (header_size req) req.pdata),
        length-drop (header_size req) req.pdata,
        msg.full,
        w.has_data,
      ) in
      let bs' = splice (region_addr req) d bs in
      let long = length-splice (region_addr req) d bs (omega arith) in
      let seen = take-drop-splice (region_addr req) (region_size req) d bs len (omega arith) in
      let seen' : take (region_size req') (drop (region_addr req') bs') ≡ d =
        rw (same_addr, same_size) seen in
      let (u, got, _) =
        read_by_address_lem os v reg stale l' (with_files m t) req' presp' bs' msg' sid' r end
          (omega arith) (omega (arith, w.has_data, w.region.size_some)) left.content
          (omega (arith, left.spare)) (omega arith) in
      (
        t,
        u,
        wrote,
        got
            ∙ ap
                (λ (found : List ℕ). done (
                  (UdsError.no_error, some (put presp' (0x63 ∷ found) (1 + region_size req'))),
                  with_files m u,
                ))
                seen',
      )
