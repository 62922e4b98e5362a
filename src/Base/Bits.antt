-- ===== src/Base/Bits.antt =====
-- `|` of a shifted number and a byte, and `&` with a mask of low bits, as arithmetic.
use Prim.Native.Nat.{ℕ, zero, suc, ◌+◌, ◌*◌, ◌/◌, ◌%◌, ◌≤◌, ◌<◌, min, max, bit_and, bit_or, digits}
use Prim.Native.Nat.{bit_and-bitwise, bit_or-bitwise}
use mathlib.Core.Path.{◌≡◌, refl}
use native.Mathlib.Omega.{arith}

-- The native operations run over binary digits on fuel; any two sufficient fuels agree.
module _ (base : ℕ → ℕ) (op : ℕ → ℕ → ℕ) where
  fuel_irrelevant : (f g a b : ℕ) → a ≤ f → a ≤ g → digits base op f a b ≡ digits base op g a b
  fuel_irrelevant zero zero a b hf hg = refl
  fuel_irrelevant zero (suc g) zero b hf hg = refl
  fuel_irrelevant zero (suc g) (suc a) b hf hg = absurd (omega arith)
  fuel_irrelevant (suc f) zero zero b hf hg = refl
  fuel_irrelevant (suc f) zero (suc a) b hf hg = absurd (omega arith)
  fuel_irrelevant (suc f) (suc g) zero b hf hg = refl
  fuel_irrelevant (suc f) (suc g) (suc a) b hf hg =
      rw (fuel_irrelevant f g (suc a / 2) (b / 2) (omega arith) (omega arith))

-- The lowest digit of a result, and the rest.
or_halves : (a b : ℕ) → bit_or a b ≡ bit_or (a / 2) (b / 2) * 2 + max (a % 2) (b % 2)
or_halves zero b = simp bit_or-bitwise (omega arith)
or_halves (suc a) b =
    let k : suc a / 2 ≤ a = omega arith in
    simp bit_or-bitwise (
      omega (arith, fuel_irrelevant (λ y. y) max a (suc a / 2) (suc a / 2) (b / 2) k (omega arith)))

and_halves : (a b : ℕ) → bit_and a b ≡ bit_and (a / 2) (b / 2) * 2 + min (a % 2) (b % 2)
and_halves zero b = simp bit_and-bitwise (omega arith)
and_halves (suc a) b =
    let k : suc a / 2 ≤ a = omega arith in
    simp bit_and-bitwise (
      omega (arith, fuel_irrelevant (λ y. 0) min a (suc a / 2) (suc a / 2) (b / 2) k (omega arith)))

or_zero_below : (n a : ℕ) → a ≤ n → bit_or a 0 ≡ a
or_zero_below n zero h = refl
or_zero_below zero (suc a) h = absurd (omega arith)
or_zero_below (suc n) (suc a) h =
    omega (arith, or_halves (suc a) 0, or_zero_below n (suc a / 2) (omega arith))

and_zero_below : (n a : ℕ) → a ≤ n → bit_and a 0 ≡ 0
and_zero_below n zero h = refl
and_zero_below zero (suc a) h = absurd (omega arith)
and_zero_below (suc n) (suc a) h =
    omega (arith, and_halves (suc a) 0, and_zero_below n (suc a / 2) (omega arith))

or_double : (p q r : ℕ) → p ≡ q * 2 → bit_or p r ≡ bit_or q (r / 2) * 2 + r % 2
or_double p q r e = ground (arith, or_halves p r)

or_nibble : (q r : ℕ) → r < 16 → bit_or (q * 16) r ≡ q * 16 + r
or_nibble q r h = ground (
  arith,
  or_double (q * 16) (q * 8) r,
  or_double (q * 8) (q * 4) (r / 2),
  or_double (q * 4) (q * 2) (r / 2 / 2),
  or_double (q * 2) q (r / 2 / 2 / 2),
  or_zero_below q q,
)

-- `(q << 8) | r` is a sum when `r` is a byte.
pub bit_or_byte : (q r : ℕ) → r < 256 → bit_or (q * 256) r ≡ q * 256 + r
bit_or_byte q r h = omega (
  arith,
  or_double (q * 256) (q * 128) r (omega arith),
  or_double (q * 128) (q * 64) (r / 2) (omega arith),
  or_double (q * 64) (q * 32) (r / 2 / 2) (omega arith),
  or_double (q * 32) (q * 16) (r / 2 / 2 / 2) (omega arith),
  or_nibble q (r / 2 / 2 / 2 / 2) (omega arith),
)

-- `a & 0x0F` and `a & 0xFF` are remainders.
pub bit_and_nibble : (a : ℕ) → bit_and a 15 ≡ a % 16
bit_and_nibble a = omega (
  arith,
  and_halves a 15,
  and_halves (a / 2) 7,
  and_halves (a / 2 / 2) 3,
  and_halves (a / 2 / 2 / 2) 1,
  and_zero_below (a / 2 / 2 / 2 / 2) (a / 2 / 2 / 2 / 2),
)

pub bit_and_byte : (a : ℕ) → bit_and a 255 ≡ a % 256
bit_and_byte a = omega (
  arith,
  and_halves a 255,
  and_halves (a / 2) 127,
  and_halves (a / 2 / 2) 63,
  and_halves (a / 2 / 2 / 2) 31,
  bit_and_nibble (a / 2 / 2 / 2 / 2),
)
