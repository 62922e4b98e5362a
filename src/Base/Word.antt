-- ===== src/Base/Word.antt =====
-- Fixed-width integers. An `int32_t` or `ssize_t` is its bit pattern, a number below 2 ^ 32 or
-- 2 ^ 64, so the conversions of C between signed and unsigned of one width do nothing to it.
use Prim.Native.Nat.{ℕ, ◌*◌, ◌/◌, ◌%◌, ◌^◌}
use mathlib.Core.Bool.{Bool}
use vdiag_server.Base.Tests.{leb}

abbrev pub u8 : ℕ → ℕ
u8 n = n % 256

abbrev pub u16 : ℕ → ℕ
u16 n = n % 65536

abbrev pub u32 : ℕ → ℕ
u32 n = n % 4294967296

infixl 75 ◌<<<◌ ◌>>>◌
abbrev pub ◌<<<◌ : ℕ → ℕ → ℕ
x <<< k = x * 2 ^ k

abbrev pub ◌>>>◌ : ℕ → ℕ → ℕ
x >>> k = x / 2 ^ k

-- The pattern of -1, as an `int32_t` and as an `ssize_t` or `off_t`.
abbrev pub minus_one : ℕ
minus_one = 4294967295

abbrev pub minus_one64 : ℕ
minus_one64 = 18446744073709551615

-- `x < 0`, for an `int32_t` and for an `off_t`.
abbrev pub is_negative : ℕ → Bool
is_negative w = leb 2147483648 w

abbrev pub is_negative64 : ℕ → Bool
is_negative64 w = leb 9223372036854775808 w
