-- ===== src/Mocks/Writes.antt =====
-- WriteMemoryByAddress over the stand-ins, set up as in the tests of its handler.
use vdiag_server.Base.{
  ℕ, ◌≤◌, ◌<◌, ◌≡◌, true, false, some, List, [], ◌∷◌, length, drop, length-drop, length-take, arith,
}
use vdiag_server.Base.Word.{minus_one, is_negative}
use vdiag_server.Base.Exec.{done}
use vdiag_server.Base.Ptr.{Ptr, block}
use vdiag_server.Can.{CanMessage, byte, put, IsMessage}
use vdiag_server.Memory.{write_memory}
use vdiag_server.Os.{Os}
use vdiag_server.Uds.Codes.{code, UdsError}
use vdiag_server.Uds.Interface.{Locals}
use vdiag_server.Uds.Dispatch.{handle_msg}
use vdiag_server.Uds.Dispatch.Cases.{write_by_address}
use vdiag_server.Handlers.Region.{IsWrite, region_addr, region_size, header_size, wrba_setup_iff}
use vdiag_server.Handlers.Wrba.{wrba, wrba_pack}
use vdiag_server.Handlers.Std.{Machine, std_handlers}
use vdiag_server.Handlers.Std.Write.{with_files, memory_file}
use vdiag_server.Mocks.{
  Mocked, mocked_os, reported, OpenStatus, LseekStatus, close_no_error, close_error,
  close_invalid_fd, WriteStatus, write_no_error, write_error, write_partial,
}

-- The descriptor is made up, and nothing is refused before the write.
pub record IsSetUp {S : Type 0} (s : Mocked S) : Type 0 where
  pub opened : s.mocks.open_status ≡ OpenStatus.open_spec
  pub descriptor : is_negative s.mocks.mock_fd ≡ false
  pub sought : s.mocks.lseek_status ≡ LseekStatus.lseek_no_error

-- What the three settings of the stand-in for `write` make of a response.
abbrev pub mocked_reply : WriteStatus → CanMessage → CanMessage
mocked_reply write_no_error presp = put presp (0x7d ∷ []) 1
mocked_reply write_error presp = put presp (0x7f ∷ 0x3d ∷ 0x22 ∷ []) 3
mocked_reply write_partial presp = put presp (0x7f ∷ 0x3d ∷ 0x22 ∷ []) 3

module _ (os : Os) where
  -- After a write of so many bytes: the result is kept, and the descriptor closed for real unless
  -- that has been mocked too.
  abbrev pub after_write : ℕ → Mocked os.State → Mocked os.State
  after_write n s =
      let k = s.mocks in
      record {
        mocks = record k { mock_write_result = reported s.mocks.write_status n };
        real = elim s.mocks.close_status [
          | close_no_error ↦ os.close s.mocks.mock_fd s.real
          | close_error ↦ s.real
          | close_invalid_fd ↦ s.real
        ];
      }

  mocked_write_memory :
      (name d : List ℕ) (uaddr usz : ℕ) (s : Mocked os.State)
      → IsSetUp s
      → 0 < usz
      → usz ≤ length d
      → usz < 2147483648
      → uaddr < 4294967296
      → write_memory (mocked_os os) name uaddr usz (block d) s
        ≡ done (
          elim s.mocks.write_status [
            | write_no_error ↦ usz
            | write_error ↦ minus_one
            | write_partial ↦ minus_one
          ],
          after_write usz s,
        )
  unfolding write_memory
  mocked_write_memory name d uaddr usz s set_up pos room few word =
      let len = length-take usz d in
      ground (arith, len, set_up.opened, set_up.descriptor, set_up.sought)

  -- Over the stand-ins, set up as in the tests and with the argument of the setup still in place, an
  -- accepted request of at most 4096 bytes to write at least one byte is answered by 7D where the
  -- stand-in for `write` is set to no error, and else refused with 7F 3D 22. Nothing is opened, sought
  -- or written for real; but unless it has been mocked too, the made-up descriptor is closed for real.
  pub mocked_write_by_address :
      (stale : Ptr → Ptr) (l : Locals) (m : Machine (Mocked os.State)) (req presp : CanMessage)
      → ((p : Ptr) → stale p ≡ p)
      → IsMessage req
      → req.usz ≤ 4096
      → byte req 0 ≡ 0x3d
      → IsWrite m.uds req
      → m.uds.ecucfg.memory.end_addr < 4294967296
      → 0 < region_size req
      → IsSetUp m.globals.fs
      → handle_msg (std_handlers (mocked_os os) stale) l true req (some presp) m
        ≡ done (
          (UdsError.no_error, some (mocked_reply m.globals.fs.mocks.write_status presp)),
          with_files m (after_write (region_size req) m.globals.fs),
        )
  unfolding wrba wrba_pack code
  mocked_write_by_address stale l m req presp intact msg fits sid w end pos set_up =
      let d = drop (header_size req) req.pdata in
      let have : region_size req ≤ length d =
        omega (arith, length-drop (header_size req) req.pdata, msg.full, w.has_data) in
      let below = w.region.below in
      let wrote =
        mocked_write_memory (memory_file m) d (region_addr req) (region_size req) m.globals.fs
          set_up pos have (omega (arith, w.has_data)) (omega arith) in
      let accepted =
        (wrba_setup_iff m.uds req msg l.wrba_param (omega arith) (omega (arith, w.has_data))).1 w in
      let same = intact (block d) in
      rw
        (write_by_address (std_handlers (mocked_os os) stale) l req presp
          (omega (arith, w.region.complete)) m sid)
        (ground (arith, accepted, same, wrote))
