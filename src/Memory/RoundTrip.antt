-- ===== src/Memory/RoundTrip.antt =====
-- What `write_memory` stores, `read_memory` returns.
use vdiag_server.Base.{
  ℕ, zero, suc, ◌+◌, ◌≤◌, ◌<◌, ◌≡◌, refl, ap, ◌∙◌, some, List, [], ◌∷◌, ◌++◌, length, take, drop,
  overwrite, arith, length-take, length-drop, length-append,
}
use vdiag_server.Base.Exec.{done}
use vdiag_server.Os.{Os, FileName}
use vdiag_server.Os.Files.{View, IsRegular, splice}
use vdiag_server.Base.Ptr.{block}
use vdiag_server.Memory.{write_memory, read_memory}
use vdiag_server.Memory.Write.{write_memory_ok}
use vdiag_server.Memory.Read.{read_memory_ok}

take-append : (d rest : List ℕ) (n : ℕ) → length d ≡ n → take n (d ++ rest) ≡ d
take-append [] rest zero e = refl
take-append [] rest (suc n) e = absurd (omega arith)
take-append (x ∷ d) rest zero e = absurd (omega arith)
take-append (x ∷ d) rest (suc n) e = ap (λ r. x ∷ r) (take-append d rest n (omega arith))

drop-splice : (a : ℕ) (bs tail : List ℕ) → a ≤ length bs → drop a (take a bs ++ tail) ≡ tail
drop-splice zero bs tail h = refl
drop-splice (suc a) [] tail h = absurd (omega arith)
drop-splice (suc a) (x ∷ bs) tail h = drop-splice a bs tail (omega arith)

pub take-drop-splice :
    (a n : ℕ) (d bs : List ℕ) → length d ≡ n → a ≤ length bs → take n (drop a (splice a d bs)) ≡ d
take-drop-splice a n d bs e h =
    rw (drop-splice a bs (d ++ drop (a + length d) bs) h) (take-append d _ n e)

pub length-splice :
    (a : ℕ) (d bs : List ℕ) → a + length d ≤ length bs → length (splice a d bs) ≡ length bs
length-splice a d bs h = omega (
  arith,
  length-append (take a bs) (d ++ drop (a + length d) bs),
  length-append d (drop (a + length d) bs),
  length-take a bs,
  length-drop (a + length d) bs,
)

module _ (os : Os) (v : View os) (reg : IsRegular os v) where
  -- On a regular file that holds the addressed bytes, of which there is at least one and fewer than
  -- 2 ^ 31, at a 32-bit address, with a descriptor to spare, a read into a buffer with room for the
  -- bytes that were just written reports success and stores those very bytes.
  pub read_memory-write_memory :
      (uaddr usz : ℕ) (d buf bs : List ℕ) (name : FileName) (s : os.State)
      → v.content s name ≡ some bs
      → 0 < v.spare s
      → 0 < usz
      → usz ≤ length d
      → usz ≤ length buf
      → uaddr + usz ≤ length bs
      → uaddr < 4294967296
      → usz < 2147483648
      → (t u : os.State) × (write_memory os name uaddr usz (block d) s ≡ done (usz, t))
        × (read_memory os name uaddr usz (block buf) t
            ≡ done ((usz, block (overwrite (take usz d) buf)), u))
  read_memory-write_memory uaddr usz d buf bs name s con spare pos have room fits small limit =
      let (t, wrote, left) =
        write_memory_ok os v reg uaddr usz d bs name s con spare pos have fits small limit in
      let len : length (take usz d) ≡ usz = omega (arith, length-take usz d) in
      let same : length (splice uaddr (take usz d) bs) ≡ length bs =
        length-splice uaddr (take usz d) bs (omega arith) in
      let (u, got, _) =
        read_memory_ok os v reg uaddr usz buf (splice uaddr (take usz d) bs) name t left.content
          (omega (arith, left.spare)) pos room (omega arith) small limit in
      let seen = take-drop-splice uaddr usz (take usz d) bs len (omega arith) in
      (t, u, wrote, got ∙ ap (λ (r : List ℕ). done ((usz, block (overwrite r buf)), u)) seen)
