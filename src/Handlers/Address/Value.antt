-- ===== src/Handlers/Address/Value.antt =====
-- The parsed fields as numbers: big-endian values of the bytes of the request.
use native.Mathlib.Nat.{
  pow-suc, one-le-pow, pow-le-pow_right, mul-le-mul_left, mul-le-mul_right, le_trans,
}
use vdiag_server.Base.{
  ℕ, zero, suc, ◌+◌, ◌*◌, ◌/◌, ◌%◌, ◌^◌, ◌≤◌, ◌<◌, ◌≡◌, ◌↔◌, ◌∙◌, false, List, [], ◌∷◌, get_or, All,
  arith, bit_or, bit_or_byte, bit_and_nibble,
}
use vdiag_server.Base.Word.{u32, ◌<<<◌}
use vdiag_server.Can.{CanMessage, byte, IsMessage}
use vdiag_server.Handlers.Address.{addr_len, size_len, bad_format, parse_field}

-- The `n` bytes from `pdata[i]` on, the first the most significant.
unfoldable pub field_value : CanMessage → ℕ → ℕ → ℕ
field_value req zero i = 0
field_value req (suc n) i = byte req i * 256 ^ n + field_value req n (i + 1)

get_or-lt : (bs : List ℕ) (i : ℕ) → All (λ b. b < 256) bs → get_or bs i 0 < 256
get_or-lt [] i h = omega arith
get_or-lt (b ∷ bs) zero h = h.0
get_or-lt (b ∷ bs) (suc i) h = get_or-lt bs i h.1

pub byte-lt : {req : CanMessage} → IsMessage req → (i : ℕ) → byte req i < 256
byte-lt {req} m i = get_or-lt req.pdata i m.bytes

-- One round of the loop, while nothing is shifted out.
shift_in : (acc b : ℕ) → acc < 16777216 → b < 256 → bit_or (u32 (acc <<< 8)) b ≡ acc * 256 + b
shift_in acc b small h =
    let e : u32 (acc <<< 8) ≡ acc * 256 = omega arith in rw e (bit_or_byte acc b h)

room_left : (acc b p : ℕ) → b < 256 → (acc * 256 + b + 1) * p ≤ (acc + 1) * (p * 256)
room_left acc b p h =
    let k : (acc * 256 + b + 1) * p ≤ (acc * 256 + 256) * p = mul-le-mul_right p (omega arith) in
    omega (arith, k)

regroup : (acc b p v : ℕ) → (acc * 256 + b) * p + v ≡ acc * (p * 256) + (b * p + v)
regroup acc b p v = omega arith

small_acc : (acc p : ℕ) → 1 ≤ p → (acc + 1) * (p * 256) ≤ 4294967296 → acc < 16777216
small_acc acc p one h =
    let k : (acc + 1) * 1 ≤ (acc + 1) * p = mul-le-mul_left (acc + 1) one in omega (arith, k)

parse_field_acc :
    (req : CanMessage) (n i acc : ℕ)
    → IsMessage req
    → (acc + 1) * 256 ^ n ≤ 4294967296
    → parse_field req n i acc ≡ acc * 256 ^ n + field_value req n i
unfolding parse_field field_value
parse_field_acc req zero i acc m h = omega arith
parse_field_acc req (suc n) i acc m h =
    let b = byte req i in
    let h' : (acc + 1) * (256 ^ n * 256) ≤ 4294967296 = rw pow-suc at h in
    let small = small_acc acc (256 ^ n) (one-le-pow n 256 (omega arith)) h' in
    let ok : (acc * 256 + b + 1) * 256 ^ n ≤ 4294967296 =
      le_trans (room_left acc b (256 ^ n) (byte-lt m i)) h' in
    let rest = parse_field_acc req n (i + 1) (acc * 256 + b) m ok in
    rw (shift_in acc b small (byte-lt m i), pow-suc)
      (rest ∙ regroup acc b (256 ^ n) (field_value req n (i + 1)))

pow_bound : (n : ℕ) → n ≤ 4 → 256 ^ n ≤ 4294967296
pow_bound n h = pow-le-pow_right {n = 256} (omega arith) {i = n} {j = 4} h

-- A field of at most four bytes of a well-formed message is parsed to its big-endian value, with
-- nothing lost.
pub parse_field_lem :
    (req : CanMessage) (n i : ℕ)
    → IsMessage req
    → n ≤ 4
    → parse_field req n i 0 ≡ field_value req n i
parse_field_lem req n i m h =
    omega (arith, parse_field_acc req n i 0 m (omega (arith, pow_bound n h)))

pub field_value-lt : (req : CanMessage) (n i : ℕ) → IsMessage req → field_value req n i < 256 ^ n
unfolding field_value
field_value-lt req zero i m = omega arith
field_value-lt req (suc n) i m =
    grind (arith, pow-suc 256 n, byte-lt m i, field_value-lt req n (i + 1) m)

pub addr_len_lem : (usubfnc : ℕ) → usubfnc < 256 → addr_len usubfnc ≡ usubfnc / 16
unfolding addr_len
addr_len_lem usubfnc h = omega (arith, bit_and_nibble (usubfnc / 16))

pub size_len_lem : (usubfnc : ℕ) → size_len usubfnc ≡ usubfnc % 16
unfolding size_len
size_len_lem usubfnc = bit_and_nibble usubfnc

pub bad_format_iff : (a s : ℕ) → (bad_format a s ≡ false) ↔ ((0 < a) × (a ≤ 4) × (0 < s) × (s ≤ 4))
unfolding bad_format
bad_format_iff a s = ground arith
