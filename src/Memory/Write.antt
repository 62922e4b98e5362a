-- ===== src/Memory/Write.antt =====
-- `write_memory` on a regular file.
use vdiag_server.Base.{
  ℕ, suc, ◌+◌, ◌≤◌, ◌<◌, ◌≡◌, ◌≢◌, ◌∙◌, some, List, length, take, arith, length-take,
}
use vdiag_server.Base.Exec.{done}
use vdiag_server.Os.{Os, FileName, wronly}
use vdiag_server.Os.Files.{View, IsRegular, splice}
use vdiag_server.Base.Ptr.{block}
use vdiag_server.Memory.{write_memory, write_at}

module _ (os : Os) (v : View os) where
  -- What a complete write leaves.
  pub record Written (name : FileName) (uaddr : ℕ) (new bs : List ℕ) (s t : os.State) : Type 0 where
    pub content : v.content t name ≡ some (splice uaddr new bs)
    pub others : (other : FileName) → other ≢ name → v.content t other ≡ v.content s other
    pub spare : v.spare t ≡ v.spare s

module _ (os : Os) (v : View os) (reg : IsRegular os v) where
  write_at_ok :
      (memfd uaddr usz : ℕ) (d bs : List ℕ) (name : FileName) (s : os.State)
      → v.cursor s memfd ≡ some (name, wronly, 0)
      → v.content s name ≡ some bs
      → usz ≤ length d
      → uaddr + usz ≤ length bs
      → uaddr < 4294967296
      → usz < 2147483648
      → (t : os.State) × (write_at os memfd uaddr usz (block d) s ≡ done (usz, t))
        × (v.content t name ≡ some (splice uaddr (take usz d) bs))
        × ((other : FileName) → other ≢ name → v.content t other ≡ v.content s other)
        × (v.spare t ≡ suc (v.spare s))
  write_at_ok memfd uaddr usz d bs name s cur con have room small fits =
      let len : length (take usz d) ≡ usz = omega (arith, length-take usz d) in
      let sought = reg.lseek_ok memfd uaddr s name wronly 0 cur small in
      let s1 = (os.lseek memfd uaddr s).1 in
      let con1 : v.content s1 name ≡ some bs = sought.2.content name ∙ con in
      let wrote =
        reg.write_ok memfd (take usz d) s1 name uaddr bs sought.1 con1 (omega arith)
          (omega arith) in
      let closed = reg.close_ok memfd (os.write memfd (take usz d) s1).1 name wronly _ wrote.3 in
      (
        os.close memfd (os.write memfd (take usz d) s1).1,
        ground arith,
        closed.0 name ∙ wrote.1,
        λ other ne. closed.0 other ∙ wrote.2 other ne ∙ sought.2.content other,
        omega (arith, wrote.4, closed.1, sought.2.spare),
      )

  -- On a regular file that holds the addressed bytes, of which there is at least one and fewer than
  -- 2 ^ 31, at a 32-bit address, with a descriptor to spare, the call reports a complete write,
  -- changes exactly those bytes, and gives its descriptor back.
  pub write_memory_ok :
      (uaddr usz : ℕ) (d bs : List ℕ) (name : FileName) (s : os.State)
      → v.content s name ≡ some bs
      → 0 < v.spare s
      → 0 < usz
      → usz ≤ length d
      → uaddr + usz ≤ length bs
      → uaddr < 4294967296
      → usz < 2147483648
      → (t : os.State) × (write_memory os name uaddr usz (block d) s ≡ done (usz, t))
        × Written os v name uaddr (take usz d) bs s t
  unfolding write_memory
  write_memory_ok uaddr usz d bs name s con spare pos have room small fits =
      let opened = reg.open_ok name wronly s bs con spare in
      let fd = (os.open_file name wronly s).0 in
      let s1 = (os.open_file name wronly s).1 in
      let con1 : v.content s1 name ≡ some bs = opened.2 name ∙ con in
      let (t, ran, con2, oth, left) =
        write_at_ok fd uaddr usz d bs name s1 opened.1 con1 have room small fits in
      (
        t,
        ground arith,
        record {
          content = con2;
          others = λ other ne. oth other ne ∙ opened.2 other;
          spare = omega (arith, left, opened.3);
        },
      )
