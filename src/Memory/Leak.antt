-- ===== src/Memory/Leak.antt =====
-- A complete read keeps its descriptor open, so that reads use the descriptors up.
use vdiag_server.Base.{
  ℕ, zero, suc, ◌+◌, ◌≤◌, ◌<◌, ◌≡◌, ◌∙◌, refl, inr, some, List, length, take, drop, overwrite,
  length-overwrite, arith,
}
use vdiag_server.Base.Word.{minus_one}
use vdiag_server.Base.Exec.{Exec, done, pure, ◌>>=◌, >>=-done}
use vdiag_server.Os.{Os, FileName}
use vdiag_server.Os.Files.{View, IsRegular}
use vdiag_server.Base.Ptr.{Ptr, block}
use vdiag_server.Memory.{read_memory}
use vdiag_server.Memory.Read.{read_memory_ok, read_memory_fails}

module _ (os : Os) where
  -- `n` reads of the same bytes into the same buffer.
  unfoldable pub read_times : ℕ → FileName → ℕ → ℕ → Ptr → Exec os.State (Unit {0})
  read_times zero name uaddr usz pdata = pure tt
  read_times (suc n) name uaddr usz pdata =
      read_memory os name uaddr usz pdata >>= λ r. read_times n name uaddr usz r.1

module _ (os : Os) (v : View os) (reg : IsRegular os v) where
  read_times_ok :
      (n uaddr usz : ℕ) (buf bs : List ℕ) (name : FileName) (s : os.State)
      → v.content s name ≡ some bs
      → v.spare s ≡ n
      → 0 < usz
      → usz ≤ length buf
      → uaddr + usz ≤ length bs
      → uaddr < 4294967296
      → usz < 2147483648
      → (t : os.State) × (read_times os n name uaddr usz (block buf) s ≡ done (tt, t))
        × (v.spare t ≡ 0)
  unfolding read_times
  read_times_ok zero uaddr usz buf bs name s con spare pos have room small fits = (s, refl, spare)
  read_times_ok (suc n) uaddr usz buf bs name s con spare pos have room small fits =
      let (t, ran, left) =
        read_memory_ok os v reg uaddr usz buf bs name s con (omega arith) pos have room small
          fits in
      let new = take usz (drop uaddr bs) in
      let (u, rest, none_left) =
        read_times_ok n uaddr usz (overwrite new buf) bs name t (left.content name ∙ con)
          (omega (arith, left.spare)) pos (omega (arith, length-overwrite new buf)) room small
          fits in
      (u, >>=-done (read_memory os name uaddr usz (block buf)) _ ran ∙ rest, none_left)

  -- On a regular file that holds the addressed bytes, of which there is at least one and fewer than
  -- 2 ^ 31, at a 32-bit address, a process that may open `n` more files completes `n` reads of them
  -- into a buffer with room, and the next read of that file, of any range, reports -1.
  pub reads_exhaust :
      (n uaddr usz : ℕ) (buf bs : List ℕ) (name : FileName) (s : os.State)
      → v.content s name ≡ some bs
      → v.spare s ≡ n
      → 0 < usz
      → usz ≤ length buf
      → uaddr + usz ≤ length bs
      → uaddr < 4294967296
      → usz < 2147483648
      → (t : os.State) × (read_times os n name uaddr usz (block buf) s ≡ done (tt, t))
        × ((uaddr' usz' : ℕ) (pdata : Ptr)
            → (u : os.State) × (read_memory os name uaddr' usz' pdata t
                ≡ done ((minus_one, pdata), u)))
  reads_exhaust n uaddr usz buf bs name s con spare pos have room small fits =
      let (t, ran, none_left) =
        read_times_ok n uaddr usz buf bs name s con spare pos have room small fits in
      (
        t,
        ran,
        λ uaddr' usz' pdata.
            let (u, failed, _) =
              read_memory_fails os v reg uaddr' usz' pdata name t (inr none_left) in
            (u, failed),
      )
