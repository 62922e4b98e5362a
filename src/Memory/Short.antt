-- ===== src/Memory/Short.antt =====
-- `read_memory` where the file ends before the addressed bytes.
use vdiag_server.Base.{
  ℕ, ◌+◌, ◌≤◌, ◌<◌, ◌≡◌, ◌∙◌, false, some, List, length, take, drop, overwrite, arith, length-take,
  length-overwrite, length-drop,
}
use vdiag_server.Base.Word.{is_negative, minus_one}
use vdiag_server.Base.Exec.{done}
use vdiag_server.Base.Ptr.{block}
use vdiag_server.Os.{Os, FileName, rdonly}
use vdiag_server.Os.Files.{View, IsRegular}
use vdiag_server.Memory.{read_memory, read_at}

module _ (os : Os) (v : View os) (reg : IsRegular os v) where
  read_at_short :
      (memfd uaddr usz : ℕ) (buf bs : List ℕ) (name : FileName) (s : os.State)
      → is_negative memfd ≡ false
      → v.cursor s memfd ≡ some (name, rdonly, 0)
      → v.content s name ≡ some bs
      → usz ≤ length buf
      → length bs < uaddr + usz
      → 0 < usz
      → uaddr < 4294967296
      → usz < 2147483648
      → (left : List ℕ) × (t : os.State) × (read_at os memfd uaddr usz (block buf) s
          ≡ done ((minus_one, block left), t))
        × (length left ≡ length buf)
  read_at_short memfd uaddr usz buf bs name s usable cur con have short pos small fits =
      let found = take usz (drop uaddr bs) in
      let len = length-take usz (drop uaddr bs) in
      let len2 = length-drop uaddr bs in
      let olen = length-overwrite found buf in
      let less : length found < usz = omega (arith, len, len2) in
      let sought = reg.lseek_ok memfd uaddr s name rdonly 0 cur small in
      let s1 = (os.lseek memfd uaddr s).1 in
      let con1 : v.content s1 name ≡ some bs = sought.2.content name ∙ con in
      let got = reg.read_ok memfd usz s1 name uaddr bs sought.1 con1 fits in
      (
        overwrite found buf,
        os.close memfd (os.read memfd usz s1).2,
        ground arith,
        omega (arith, olen, less, have),
      )

  -- On a regular file that ends before the addressed bytes, of which there is at least one and fewer
  -- than 2 ^ 31, at a 32-bit address, with a descriptor to spare and room in the buffer, the call
  -- reports -1.
  pub read_memory_short :
      (uaddr usz : ℕ) (buf bs : List ℕ) (name : FileName) (s : os.State)
      → v.content s name ≡ some bs
      → 0 < v.spare s
      → usz ≤ length buf
      → length bs < uaddr + usz
      → 0 < usz
      → uaddr < 4294967296
      → usz < 2147483648
      → (left : List ℕ) × (t : os.State) × (read_memory os name uaddr usz (block buf) s
          ≡ done ((minus_one, block left), t))
        × (length left ≡ length buf)
  unfolding read_memory
  read_memory_short uaddr usz buf bs name s con spare have short pos small fits =
      let opened = reg.open_ok name rdonly s bs con spare in
      let fd = (os.open_file name rdonly s).0 in
      let s1 = (os.open_file name rdonly s).1 in
      let con1 : v.content s1 name ≡ some bs = opened.2 name ∙ con in
      let (left, t, ran, same) =
        read_at_short fd uaddr usz buf bs name s1 opened.0 opened.1 con1 have short pos small
          fits in
      (left, t, ground arith, same)
