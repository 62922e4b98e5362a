-- ===== src/Config/Files.antt =====
-- uds_server/src/ecu_config.c: the directory and the memory file that the server creates. The calls
-- are a parameter: `stat`, `mkdir`, the stream functions of the C library, and `calloc`.
pub mod Memfile
use vdiag_server.Base.{
  ℕ, ◌+◌, ◌-◌, ◌%◌, Bool, true, false, not, ◌||◌, Option, none, some, List, replicate, ltb, ◌==◌,
  if◌then◌else◌,
}
use vdiag_server.Base.Word.{minus_one, is_negative64}
use vdiag_server.Base.Exec.{Exec, pure, ◌>>=◌, ◌>>◌, sys}
use vdiag_server.Os.{FileName}

-- A null stream is 0.
pub record Host (S : Type 0) : Type 0 where
  -- `stat`: nothing on failure, or whether the file is a directory.
  pub stat : FileName → S → Option Bool × S
  pub mkdir : FileName → S → ℕ × S
  -- `fopen` with the mode `ab+`.
  pub fopen : FileName → S → ℕ × S
  -- `fseek(fd, 0, SEEK_END)`, whose result is not looked at.
  pub seek_end : ℕ → S → S
  pub ftell : ℕ → S → ℕ × S
  pub fwrite : ℕ → List ℕ → S → ℕ × S
  pub fclose : ℕ → S → S
  pub calloc : ℕ → S → Bool × S

module _ {S : Type 0} (host : Host S) where
  -- Where nothing is there yet.
  abbrev make_dir : FileName → Exec S ℕ
  make_dir cpath = do r ← sys (host.mkdir cpath); if r == 0 then pure 0 else pure minus_one

  unfoldable pub create_cfgdir : FileName → Exec S ℕ
  create_cfgdir cpath = do
    st ← sys (host.stat cpath)
    elim st [ some true ↦ pure 0 | some false ↦ pure minus_one | none ↦ make_dir cpath ]

  -- `fclose(fd)`, and the result.
  abbrev pub close_with : ℕ → ℕ → Exec S ℕ
  close_with fd r = do sys (λ s. (tt, host.fclose fd s)); pure r

  -- Writing the zeros that are missing.
  unfoldable pub grow : ℕ → ℕ → Exec S ℕ
  grow fd bytes_needed = do
    got ← sys (host.calloc bytes_needed)
    if not got then close_with fd minus_one else do
      written ← sys (host.fwrite fd (replicate bytes_needed 0))
      if not (written == bytes_needed) then close_with fd minus_one else close_with fd 0

  -- `current_size` is a `long`, so the comparison is one of signed numbers; the difference is taken
  -- as a `size_t`.
  unfoldable pub create_memfile : FileName → ℕ → Exec S ℕ
  create_memfile cname usz = do
    fd ← sys (host.fopen cname)
    if fd == 0 then pure minus_one else do
      sys (λ s. (tt, host.seek_end fd s))
      current_size ← sys (host.ftell fd)
      if is_negative64 current_size || ltb current_size usz
          then grow fd ((usz + 18446744073709551616 - current_size) % 18446744073709551616)
          else close_with fd 0
