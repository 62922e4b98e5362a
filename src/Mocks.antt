-- ===== src/Mocks.antt =====
-- src/mocks: the stand-ins for system calls that the tests link, as the operating system that the
-- code then runs on. The calls that a stand-in passes on are those of an operating system that is a
-- parameter. `errno` is left out: only messages read it.
pub mod Sockets
pub mod Writes
use vdiag_server.Base.{ℕ, ◌/◌, Bool, false, List, [], length}
use vdiag_server.Base.Word.{minus_one, minus_one64}
use vdiag_server.Os.{Os, FileName, Mode}

pub data OpenStatus : Type 0 where
  open_no_error open_error open_access_denied open_spec : OpenStatus

pub data LseekStatus : Type 0 where
  lseek_no_error lseek_error lseek_invalid_offset : LseekStatus

pub data ReadStatus : Type 0 where
  read_no_error read_error read_partial read_eof : ReadStatus

pub data WriteStatus : Type 0 where
  write_no_error write_error write_partial : WriteStatus

pub data CloseStatus : Type 0 where
  close_no_error close_error close_invalid_fd : CloseStatus

pub data CallocStatus : Type 0 where
  calloc_no_error calloc_fail : CallocStatus

-- The global variables of the stand-ins.
pub record FileMocks : Type 0 where
  pub open_status : OpenStatus
  pub mock_fd : ℕ
  pub lseek_status : LseekStatus
  pub mock_lseek_result : ℕ
  pub read_status : ReadStatus
  pub mock_read_result : ℕ
  pub write_status : WriteStatus
  pub mock_write_result : ℕ
  pub close_status : CloseStatus
  pub calloc_status : CallocStatus

pub record Mocked (S : Type 0) : Type 0 where
  pub mocks : FileMocks
  pub real : S

-- What the stand-in reports of a write of `count` bytes. None is written.
abbrev pub reported : WriteStatus → ℕ → ℕ
reported write_no_error count = count
reported write_error count = minus_one64
reported write_partial count = count / 2

module _ {S : Type 0} where
  -- A real call that leaves the global variables alone.
  abbrev pub passed_on : {A : Type 0} → (S → A × S) → Mocked S → A × Mocked S
  passed_on call s = let (a, t) = call s.real in (a, record { mocks = s.mocks; real = t })

  abbrev wrap_open : (FileName → Mode → S → ℕ × S) → FileName → Mode → Mocked S → ℕ × Mocked S
  wrap_open real_open name mode s = elim s.mocks.open_status [
    | open_no_error ↦ passed_on (real_open name mode) s
    | open_error ↦ (minus_one, s)
    | open_access_denied ↦ (minus_one, s)
    | open_spec ↦ (s.mocks.mock_fd, s)
  ]

  abbrev set_lseek_result : ℕ → Mocked S → Mocked S
  set_lseek_result n s =
      let k = s.mocks in record { mocks = record k { mock_lseek_result = n }; real = s.real }

  abbrev set_read_result : ℕ → Mocked S → Mocked S
  set_read_result n s =
      let k = s.mocks in record { mocks = record k { mock_read_result = n }; real = s.real }

  abbrev set_write_result : ℕ → Mocked S → Mocked S
  set_write_result n s =
      let k = s.mocks in record { mocks = record k { mock_write_result = n }; real = s.real }

  -- Without an error nothing is sought: the offset comes back.
  abbrev wrap_lseek : ℕ → ℕ → Mocked S → ℕ × Mocked S
  wrap_lseek fd offset s = elim s.mocks.lseek_status [
    | lseek_no_error ↦ (offset, s)
    | lseek_error ↦ (minus_one64, set_lseek_result minus_one64 s)
    | lseek_invalid_offset ↦ (minus_one64, set_lseek_result minus_one64 s)
  ]

  -- A call of the real `read`, whose result is kept.
  abbrev read_and_keep : (ℕ → ℕ → S → ℕ × List ℕ × S) → ℕ → ℕ → Mocked S → ℕ × List ℕ × Mocked S
  read_and_keep real_read fd count s =
      let (n, out, t) = real_read fd count s.real in
      (n, out, set_read_result n (record { mocks = s.mocks; real = t }))

  abbrev pub wrap_read : (ℕ → ℕ → S → ℕ × List ℕ × S) → ℕ → ℕ → Mocked S → ℕ × List ℕ × Mocked S
  wrap_read real_read fd count s = elim s.mocks.read_status [
    | read_no_error ↦ read_and_keep real_read fd count s
    | read_error ↦ (minus_one64, [], set_read_result minus_one64 s)
    | read_partial ↦ read_and_keep real_read fd (count / 2) s
    | read_eof ↦ (0, [], set_read_result 0 s)
  ]

  abbrev pub wrap_write : ℕ → List ℕ → Mocked S → ℕ × Mocked S
  wrap_write fd bytes s =
      let n = reported s.mocks.write_status (length bytes) in (n, set_write_result n s)

  abbrev pub wrap_close : (ℕ → S → S) → ℕ → Mocked S → Mocked S
  wrap_close real_close fd s = elim s.mocks.close_status [
    | close_no_error ↦ record { mocks = s.mocks; real = real_close fd s.real }
    | close_error ↦ s
    | close_invalid_fd ↦ s
  ]

  abbrev pub wrap_calloc : (S → Bool × S) → Mocked S → Bool × Mocked S
  wrap_calloc real_calloc s = elim s.mocks.calloc_status [
    | calloc_no_error ↦ passed_on real_calloc s
    | calloc_fail ↦ (false, s)
  ]

-- The operating system that the tests run on.
abbrev pub mocked_os : Os → Os
mocked_os os = record {
  State = Mocked os.State;
  open_file = wrap_open os.open_file;
  lseek = wrap_lseek;
  read = wrap_read os.read;
  write = wrap_write;
  close = wrap_close os.close;
  calloc = λ n. wrap_calloc (os.calloc n);
}
