-- ===== src/Memory.antt =====
-- uds_handlers/src/utils.c: the ECU memory, kept in a file.
pub mod Write
pub mod Read
pub mod Short
pub mod RoundTrip
pub mod Leak
pub mod Keeps
pub mod Result
pub mod Bytes
use vdiag_server.Base.{
  ℕ, ◌+◌, Bool, true, false, not, ◌&&◌, ◌||◌, List, length, take, overwrite, leb, ◌==◌,
  if◌then◌else◌,
}
use vdiag_server.Base.Word.{u32, is_negative, is_negative64, minus_one}
use vdiag_server.Base.Exec.{Outcome, done, undefined, Exec, pure, fault, ◌>>=◌, ◌>>◌, sys}
use vdiag_server.Base.Ptr.{Ptr, is_null, load, store}
use vdiag_server.Os.{Os, FileName, rdonly, wronly}

-- The sum of two `uint32_t` wraps.
pub check_memrange : ℕ → ℕ → ℕ → ℕ → Bool
check_memrange uminaddr umaxaddr uaddr usz = leb uminaddr uaddr && leb (u32 (uaddr + usz)) umaxaddr

module _ (os : Os) where
  -- The label `err`.
  abbrev close_and_fail : ℕ → Exec os.State ℕ
  close_and_fail memfd s = done (minus_one, if memfd == minus_one then s else os.close memfd s)

  -- The tests on the result of `write`.
  abbrev write_result : ℕ → ℕ → ℕ → Exec os.State ℕ
  write_result memfd usz iwritesz =
      if is_negative iwritesz
      then close_and_fail memfd
      else if not (iwritesz == usz)
      then close_and_fail memfd
      else λ s. done (iwritesz, os.close memfd s)

  abbrev write_at : ℕ → ℕ → ℕ → Ptr → Exec os.State ℕ
  write_at memfd uaddr usz pdata = do
    off ← sys (os.lseek memfd uaddr)
    if is_negative64 off then close_and_fail memfd else do
      bytes ← load pdata usz
      n ← sys (os.write memfd bytes)
      write_result memfd usz (u32 n)

  unfoldable pub write_memory : FileName → ℕ → ℕ → Ptr → Exec os.State ℕ
  write_memory mem_filename uaddr usz pdata = do
    memfd ← sys (os.open_file mem_filename wronly)
    if is_null pdata || usz == 0
        then pure minus_one
        else if is_negative memfd
        then pure minus_one
        else write_at memfd uaddr usz pdata

  -- The tests on the result of `read`. A complete read leaves the descriptor open.
  abbrev read_result : ℕ → ℕ → ℕ → Exec os.State ℕ
  read_result memfd usz ireadsz =
      if ireadsz == minus_one
      then close_and_fail memfd
      else if not (ireadsz == usz)
      then close_and_fail memfd
      else pure ireadsz

  -- The result, and what `pdata` points at afterwards.
  abbrev read_at : ℕ → ℕ → ℕ → Ptr → Exec os.State (ℕ × Ptr)
  read_at memfd uaddr usz pdata = do
    off ← sys (os.lseek memfd uaddr)
    if is_negative64 off then (do r ← close_and_fail memfd; pure (r, pdata)) else do
      (n, out) ← sys (λ s. let (n, out, t) = os.read memfd usz s in ((n, out), t))
      pdata' ← store pdata out
      r ← read_result memfd usz (u32 n)
      pure (r, pdata')

  pub read_memory : FileName → ℕ → ℕ → Ptr → Exec os.State (ℕ × Ptr)
  read_memory mem_filename uaddr usz pdata = do
    memfd ← sys (os.open_file mem_filename rdonly)
    if is_null pdata || usz == 0
        then pure (minus_one, pdata)
        else if memfd == minus_one
        then pure (minus_one, pdata)
        else read_at memfd uaddr usz pdata
