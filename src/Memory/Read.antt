-- ===== src/Memory/Read.antt =====
-- `read_memory` on a regular file.
use vdiag_server.Base.{
  ℕ, ◌+◌, ◌≤◌, ◌<◌, ◌≡◌, ◌∙◌, ◌⊎◌, none, some, List, length, take, drop, overwrite, arith,
  length-take, length-drop,
}
use vdiag_server.Base.Word.{minus_one}
use vdiag_server.Base.Exec.{done, undefined}
use vdiag_server.Os.{Os, FileName, rdonly}
use vdiag_server.Os.Files.{View, IsRegular, SameFiles}
use vdiag_server.Base.Ptr.{Ptr, block}
use vdiag_server.Memory.{read_memory, read_at}

module _ (os : Os) (v : View os) where
  -- What any read leaves: the files as they were, and `gone` descriptors fewer.
  pub record Unchanged (gone : ℕ) (s t : os.State) : Type 0 where
    pub content : (other : FileName) → v.content t other ≡ v.content s other
    pub spare : gone + v.spare t ≡ v.spare s

module _ (os : Os) (v : View os) (reg : IsRegular os v) where
  read_at_ok :
      (memfd uaddr usz : ℕ) (buf bs : List ℕ) (name : FileName) (s : os.State)
      → v.cursor s memfd ≡ some (name, rdonly, 0)
      → v.content s name ≡ some bs
      → usz ≤ length buf
      → uaddr + usz ≤ length bs
      → uaddr < 4294967296
      → usz < 2147483648
      → (t : os.State) × (read_at os memfd uaddr usz (block buf) s
          ≡ done ((usz, block (overwrite (take usz (drop uaddr bs)) buf)), t))
        × SameFiles v s t
  read_at_ok memfd uaddr usz buf bs name s cur con have room small fits =
      let len : length (take usz (drop uaddr bs)) ≡ usz =
        omega (arith, length-take usz (drop uaddr bs), length-drop uaddr bs) in
      let sought = reg.lseek_ok memfd uaddr s name rdonly 0 cur small in
      let s1 = (os.lseek memfd uaddr s).1 in
      let con1 : v.content s1 name ≡ some bs = sought.2.content name ∙ con in
      let got = reg.read_ok memfd usz s1 name uaddr bs sought.1 con1 fits in
      (
        (os.read memfd usz s1).2,
        ground arith,
        record {
          content = λ other. got.3.content other ∙ sought.2.content other;
          spare = got.3.spare ∙ sought.2.spare;
        },
      )

  -- On a regular file that holds the addressed bytes, of which there is at least one and fewer than
  -- 2 ^ 31, at a 32-bit address, with a descriptor to spare and room in the buffer, the call
  -- reports a complete read and stores exactly those bytes. It changes no file, and does not give
  -- its descriptor back.
  pub read_memory_ok :
      (uaddr usz : ℕ) (buf bs : List ℕ) (name : FileName) (s : os.State)
      → v.content s name ≡ some bs
      → 0 < v.spare s
      → 0 < usz
      → usz ≤ length buf
      → uaddr + usz ≤ length bs
      → uaddr < 4294967296
      → usz < 2147483648
      → (t : os.State) × (read_memory os name uaddr usz (block buf) s
          ≡ done ((usz, block (overwrite (take usz (drop uaddr bs)) buf)), t))
        × Unchanged os v 1 s t
  unfolding read_memory
  read_memory_ok uaddr usz buf bs name s con spare pos have room small fits =
      let opened = reg.open_ok name rdonly s bs con spare in
      let fd = (os.open_file name rdonly s).0 in
      let s1 = (os.open_file name rdonly s).1 in
      let con1 : v.content s1 name ≡ some bs = opened.2 name ∙ con in
      let (t, ran, same) =
        read_at_ok fd uaddr usz buf bs name s1 opened.1 con1 have room small fits in
      (
        t,
        ground arith,
        record {
          content = λ other. same.content other ∙ opened.2 other;
          spare = omega (arith, same.spare, opened.3);
        },
      )

  -- With no file of the name, or no descriptor to spare, the call reports -1, stores nothing and
  -- changes nothing.
  pub read_memory_fails :
      (uaddr usz : ℕ) (pdata : Ptr) (name : FileName) (s : os.State)
      → (v.content s name ≡ none) ⊎ (v.spare s ≡ 0)
      → (t : os.State) × (read_memory os name uaddr usz pdata s ≡ done ((minus_one, pdata), t))
        × Unchanged os v 0 s t
  unfolding read_memory
  read_memory_fails uaddr usz pdata name s why =
      let opened = reg.open_fails name rdonly s why in
      (
        (os.open_file name rdonly s).1,
        ground arith,
        record { content = opened.1.content; spare = omega (arith, opened.1.spare) },
      )

  read_at_overflow :
      (memfd uaddr usz : ℕ) (buf bs : List ℕ) (name : FileName) (s : os.State)
      → v.cursor s memfd ≡ some (name, rdonly, 0)
      → v.content s name ≡ some bs
      → length buf < usz
      → uaddr + usz ≤ length bs
      → uaddr < 4294967296
      → usz < 2147483648
      → read_at os memfd uaddr usz (block buf) s ≡ undefined
  read_at_overflow memfd uaddr usz buf bs name s cur con small_buf room small fits =
      let len : length (take usz (drop uaddr bs)) ≡ usz =
        omega (arith, length-take usz (drop uaddr bs), length-drop uaddr bs) in
      let sought = reg.lseek_ok memfd uaddr s name rdonly 0 cur small in
      let s1 = (os.lseek memfd uaddr s).1 in
      let con1 : v.content s1 name ≡ some bs = sought.2.content name ∙ con in
      let got = reg.read_ok memfd usz s1 name uaddr bs sought.1 con1 fits in ground arith

  -- A read of more bytes than the buffer holds, where the file has them, is undefined.
  pub read_memory_overflow :
      (uaddr usz : ℕ) (buf bs : List ℕ) (name : FileName) (s : os.State)
      → v.content s name ≡ some bs
      → 0 < v.spare s
      → length buf < usz
      → uaddr + usz ≤ length bs
      → uaddr < 4294967296
      → usz < 2147483648
      → read_memory os name uaddr usz (block buf) s ≡ undefined
  unfolding read_memory
  read_memory_overflow uaddr usz buf bs name s con spare small_buf room small fits =
      let opened = reg.open_ok name rdonly s bs con spare in
      let fd = (os.open_file name rdonly s).0 in
      let s1 = (os.open_file name rdonly s).1 in
      let con1 : v.content s1 name ≡ some bs = opened.2 name ∙ con in
      let over =
        read_at_overflow fd uaddr usz buf bs name s1 opened.1 con1 small_buf room small fits in
      ground arith
