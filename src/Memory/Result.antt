-- ===== src/Memory/Result.antt =====
-- What `utils.c` promises on every operating system, and the range test.
use vdiag_server.Base.{
  ℕ, ◌+◌, ◌≤◌, ◌<◌, ◌≡◌, ◌⊎◌, ◌↔◌, true, false, List, length, inl, inr, leb, ◌&&◌, arith,
}
use vdiag_server.Base.Word.{minus_one}
use vdiag_server.Base.Exec.{done, Exec-cases}
use vdiag_server.Os.{Os, FileName}
use vdiag_server.Base.Ptr.{Ptr, is_null, null, block, wild}
use vdiag_server.Memory.{check_memrange, write_memory, read_memory}

-- For 32-bit operands whose sum does not wrap, the test accepts exactly the regions that lie
-- between the two addresses.
pub check_memrange_iff :
    (lo hi uaddr usz : ℕ)
    → uaddr + usz < 4294967296
    → (check_memrange lo hi uaddr usz ≡ true) ↔ ((lo ≤ uaddr) × (uaddr + usz ≤ hi))
unfolding check_memrange
check_memrange_iff lo hi uaddr usz h = ground arith

pub check_memrange-outside :
    (lo hi uaddr usz : ℕ)
    → uaddr + usz < 4294967296
    → (leb lo uaddr && leb (uaddr + usz) hi) ≡ false
    → check_memrange lo hi uaddr usz ≡ false
unfolding check_memrange
check_memrange-outside lo hi uaddr usz h out = ground arith

-- For 32-bit operands whose sum wraps, the test accepts a region that starts at or above the
-- lower address whenever its wrapped end is at most the upper one: the region runs past both.
pub check_memrange_wraps :
    (lo hi uaddr usz : ℕ)
    → uaddr < 4294967296
    → usz < 4294967296
    → hi < 4294967296
    → 4294967296 ≤ uaddr + usz
    → lo ≤ uaddr
    → uaddr + usz ≤ 4294967296 + hi
    → (check_memrange lo hi uaddr usz ≡ true) × (hi < uaddr + usz)
unfolding check_memrange
check_memrange_wraps lo hi uaddr usz ha hs hh wraps start end = ground arith

module _ (os : Os) where
  -- On every operating system a call of `write_memory` that is defined reports its whole size or
  -- -1, and it reports -1 for a null pointer and for no bytes.
  pub write_memory_result :
      (name : FileName) (uaddr usz : ℕ) (pdata : Ptr) (s t : os.State) (r : ℕ)
      → write_memory os name uaddr usz pdata s ≡ done (r, t)
      → (r ≡ minus_one) ⊎ ((r ≡ usz) × (0 < usz) × (is_null pdata ≡ false))
  unfolding write_memory
  write_memory_result name uaddr usz null s t r h = ground arith
  write_memory_result name uaddr usz (block bs) s t r h = ground arith
  write_memory_result name uaddr usz wild s t r h = ground arith

  -- On every operating system a call of `read_memory` that is defined reports its whole size or
  -- -1, and it reports -1 for a null pointer and for no bytes.
  pub read_memory_result :
      (name : FileName) (uaddr usz : ℕ) (pdata p : Ptr) (s t : os.State) (r : ℕ)
      → read_memory os name uaddr usz pdata s ≡ done ((r, p), t)
      → (r ≡ minus_one) ⊎ ((r ≡ usz) × (0 < usz) × (is_null pdata ≡ false))
  unfolding read_memory
  read_memory_result name uaddr usz null p s t r h = ground arith
  read_memory_result name uaddr usz (block bs) p s t r h = ground arith
  read_memory_result name uaddr usz wild p s t r h = ground arith

  -- A write from a block that holds the bytes always returns.
  pub write_memory_returns :
      (name : FileName) (uaddr usz : ℕ) (bs : List ℕ) (s : os.State)
      → usz ≤ length bs
      → (r : ℕ) × (t : os.State) × (write_memory os name uaddr usz (block bs) s ≡ done (r, t))
  unfolding write_memory
  write_memory_returns name uaddr usz bs s room =
      elim (Exec-cases (write_memory os name uaddr usz (block bs) s)) [
        | inl stuck ↦ absurd (ground (arith, stuck))
        | inr ended ↦ ended
      ]
