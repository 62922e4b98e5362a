-- ===== src/Memory/Bytes.antt =====
-- What a read leaves in the buffer is bytes.
use vdiag_server.Base.{ℕ, ◌≡◌, ◌<◌, ◌⊎◌, inl, inr, overwrite, All, arith}
use mathlib.Core.Path.{subst}
use vdiag_server.Base.Exec.{done}
use vdiag_server.Base.Ptr.{Ptr, null, block, wild}
use vdiag_server.Can.Receive.{All-overwrite}
use vdiag_server.Os.{Os, FileName, rdonly}
use vdiag_server.Memory.{read_memory}

-- What is left of a block holds bytes.
abbrev pub HoldsBytes : Ptr → Type 0
HoldsBytes null = Unit
HoldsBytes (block bs) = All (λ b. b < 256) bs
HoldsBytes wild = Unit

-- `read` stores bytes.
abbrev pub StoresBytes : Os → Type 0
StoresBytes os = (fd n : ℕ) (s : os.State) → All (λ b. b < 256) (os.read fd n s).1

module _ (os : Os) (stores : StoresBytes os) where
  pub read_memory-HoldsBytes :
      (name : FileName) (uaddr usz : ℕ) (pdata p : Ptr) (s t : os.State) (r : ℕ)
      → HoldsBytes pdata
      → read_memory os name uaddr usz pdata s ≡ done ((r, p), t)
      → HoldsBytes p
  unfolding read_memory
  read_memory-HoldsBytes name uaddr usz null p s t r holds ran =
      let same : null ≡ p = ground arith in subst HoldsBytes same tt
  read_memory-HoldsBytes name uaddr usz wild p s t r holds ran =
      let s1 = (os.open_file name rdonly s).1 in
      let same : wild ≡ p = ground arith in subst HoldsBytes same tt
  read_memory-HoldsBytes name uaddr usz (block bs) p s t r holds ran =
      let fd = (os.open_file name rdonly s).0 in
      let s1 = (os.open_file name rdonly s).1 in
      let out = (os.read fd usz (os.lseek fd uaddr s1).1).1 in
      let ways : (block bs ≡ p) ⊎ (block (overwrite out bs) ≡ p) = ground arith in
      elim ways [
        | inl same ↦ subst HoldsBytes same holds
        | inr same ↦
            subst HoldsBytes same
              (All-overwrite out bs (stores fd usz (os.lseek fd uaddr s1).1) holds)
      ]
