-- ===== src/Config/Print/Numbers.antt =====
-- The numbers that `print_config` prints, as `parse_hex` and `atoi` read them.
use mathlib.Core.Path.{subst}
use native.Mathlib.Nat.{div-lt_iff_lt-mul, pow-suc, pow-zero, mod-lt, mod-eq_of_lt, div-add-mod'}
use vdiag_server.Base.{
  ℕ, zero, suc, ◌+◌, ◌-◌, ◌*◌, ◌/◌, ◌%◌, ◌^◌, ◌≤◌, ◌<◌, ◌≡◌, ◌≢◌, ◌⊎◌, inl, inr, ◌∙◌, refl, ap,
  false, some, List, [], ◌∷◌, ◌++◌, length, length-append, length-replicate, replicate, All,
  All-append, All-map, arith, Bool-cases, ltb,
}
use vdiag_server.Config.Text.{signed, digit_of, digits, hex_digits, skip_spaces, parse_hex, atoi}
use vdiag_server.Config.Print.{digit, spell, upper_hex, upper_hex4, decimal}

-- A digit of a base, in upper case.
abbrev IsDigit : ℕ → ℕ → Type 0
IsDigit base c = digit_of c < base

digit_of-digit : (n : ℕ) → n < 16 → digit_of (digit n) ≡ n
digit_of-digit n h = ground arith

digits-append :
    (base : ℕ) (xs : List ℕ) (c acc : ℕ)
    → All (IsDigit base) xs
    → IsDigit base c
    → digits base (xs ++ (c ∷ [])) acc ≡ digits base xs acc * base + digit_of c
unfolding digits
digits-append base [] c acc all one = ground arith
digits-append base (x ∷ xs) c acc (first, all) one =
    let rest = digits-append base xs c (acc * base + digit_of x) all one in ground (arith, rest)

-- What `strtok`, `trim` and the tests of a sign leave alone.
abbrev pub IsPlain : ℕ → Type 0
IsPlain c = (48 ≤ c) × (c ≢ 58)

digit-IsPlain : (n : ℕ) → n < 16 → IsPlain (digit n)
digit-IsPlain n h = (ground arith, ground arith)

div_small : (base k n : ℕ) → 0 < base → n < base ^ suc k → n / base < base ^ k
div_small base k n some_ h = (div-lt_iff_lt-mul some_).1 (subst (λ p. n < p) (pow-suc base k) h)

-- A digit of the base that is left alone.
abbrev IsGood : ℕ → ℕ → Type 0
IsGood base c = IsDigit base c × IsPlain c

module _ (base : ℕ) (some_ : 0 < base) (few : base ≤ 16) where
  digit-IsGood : (n : ℕ) → n < base → IsGood base (digit n)
  digit-IsGood n h =
      let value = digit_of-digit n (omega arith) in
      (omega (arith, value), digit-IsPlain n (omega arith))

  -- The last digit, and the ones before it if there are any.
  spell-cases :
      (left n : ℕ)
      → ((n < base) × (spell base (suc left) n ≡ digit n ∷ []))
        ⊎ ((base ≤ n)
            × (spell base (suc left) n ≡ spell base left (n / base) ++ (digit (n % base) ∷ [])))
  unfolding spell
  spell-cases left n = elim (Bool-cases (ltb n base)) [
    | inl less ↦
        let small : n < base = ground (arith, less) in
        let same = mod-eq_of_lt small in inl (small, ground (arith, same))
    | inr more ↦ inr (ground (arith, more), ground (arith, more))
  ]

  spell-IsGood : (left n : ℕ) → All (IsGood base) (spell base left n)
  unfolding spell
  spell-IsGood zero n = tt
  spell-IsGood (suc left) n = elim (spell-cases left n) [
    | inl (small, eq) ↦ rw eq (digit-IsGood n small, tt)
    | inr (large, eq) ↦ rw eq (
        All-append (IsGood base) (spell base left (n / base)) (digit (n % base) ∷ [])
          (spell-IsGood left (n / base)) (digit-IsGood (n % base) (mod-lt n some_), tt))
  ]

  spell-IsDigit : (left n : ℕ) → All (IsDigit base) (spell base left n)
  spell-IsDigit left n =
      All-map (IsGood base) (IsDigit base) (λ c g. g.0) (spell base left n) (spell-IsGood left n)

  pub spell-IsPlain : (left n : ℕ) → All IsPlain (spell base left n)
  spell-IsPlain left n =
      All-map (IsGood base) IsPlain (λ c g. g.1) (spell base left n) (spell-IsGood left n)

  pub spell-value : (left n : ℕ) → n < base ^ left → digits base (spell base left n) 0 ≡ n
  unfolding digits spell
  spell-value zero n h = let one : base ^ 0 ≡ 1 = pow-zero base in omega (arith, one)
  spell-value (suc left) n h = elim (spell-cases left n) [
    | inl (small, eq) ↦ let value = digit_of-digit n (omega (arith, few)) in rw eq (ground arith)
    | inr (large, eq) ↦
        let less = mod-lt n some_ in
        let value = digit_of-digit (n % base) (omega (arith, few, less)) in
        let one : IsDigit base (digit (n % base)) = omega (arith, value, less) in
        let front = spell-value left (n / base) (div_small base left n some_ h) in
        rw eq (
          digits-append base (spell base left (n / base)) (digit (n % base)) 0
            (spell-IsDigit left (n / base)) one
          ∙ ap (λ k. k * base + digit_of (digit (n % base))) front
          ∙ ap (λ k. n / base * base + k) value
          ∙ div-add-mod' n base)
  ]

digits-zeros :
    (base k : ℕ) (ds : List ℕ) → 0 < base → digits base (replicate k 48 ++ ds) 0 ≡ digits base ds 0
unfolding digits replicate
digits-zeros base zero ds some_ = refl
digits-zeros base (suc k) ds some_ = let rest = digits-zeros base k ds some_ in ground (arith, rest)

zeros-IsGood : (base k : ℕ) → 0 < base → All (IsGood base) (replicate k 48)
unfolding replicate
zeros-IsGood base zero some_ = tt
zeros-IsGood base (suc k) some_ =
    ((omega (arith, some_), (omega arith, omega arith)), zeros-IsGood base k some_)

upper_hex4-IsGood : (n : ℕ) → All (IsGood 16) (upper_hex4 n)
upper_hex4-IsGood n =
    All-append (IsGood 16) (replicate (4 - length (upper_hex n)) 48) (upper_hex n)
      (zeros-IsGood 16 (4 - length (upper_hex n)) (omega arith))
      (spell-IsGood 16 (omega arith) (omega arith) 8 n)

pub upper_hex4-IsPlain : (n : ℕ) → All IsPlain (upper_hex4 n)
upper_hex4-IsPlain n = All-map (IsGood 16) IsPlain (λ c g. g.1) (upper_hex4 n) (upper_hex4-IsGood n)

upper_hex4-value : (n : ℕ) → n < 4294967296 → digits 16 (upper_hex4 n) 0 ≡ n
upper_hex4-value n h =
    digits-zeros 16 (4 - length (upper_hex n)) (upper_hex n) (omega arith)
    ∙ spell-value 16 (omega arith) (omega arith) 8 n (omega arith)

length-upper_hex4 : (n : ℕ) → 0 < length (upper_hex4 n)
length-upper_hex4 n =
    let zeros = replicate {A = ℕ} (4 - length (upper_hex n)) 48 in
    omega (
      arith,
      length-append zeros (upper_hex n),
      length-replicate {A = ℕ} (4 - length (upper_hex n)) 48,
    )

-- `0x` is skipped before a digit.
hex_digits-prefix :
    (ds : List ℕ)
    → 0 < length ds
    → All (IsGood 16) ds
    → hex_digits (0x30 ∷ 0x78 ∷ ds) ≡ digits 16 ds 0
unfolding hex_digits
hex_digits-prefix [] pos all = absurd (omega (arith, pos))
hex_digits-prefix (c ∷ cs) pos ((first, plain), all) = ground (arith, first)

pub skip_spaces_plain : (s : List ℕ) → All IsPlain s → skip_spaces s ≡ s
unfolding skip_spaces
skip_spaces_plain [] all = refl
skip_spaces_plain (c ∷ cs) (first, all) = ground (arith, first)

signed_plain : (s : List ℕ) → All IsPlain s → signed s ≡ (false, s)
signed_plain [] all = refl
signed_plain (c ∷ cs) (first, all) = ground (arith, first)

pub parse_hex-upper_hex4 : (n : ℕ) → n < 4294967296 → parse_hex (0x30 ∷ 0x78 ∷ upper_hex4 n) ≡ n
unfolding parse_hex skip_spaces
parse_hex-upper_hex4 n h =
    let value =
      hex_digits-prefix (upper_hex4 n) (length-upper_hex4 n) (upper_hex4-IsGood n)
      ∙ upper_hex4-value n h in
    ground (arith, value)

pub decimal-IsPlain : (n : ℕ) → All IsPlain (decimal n)
decimal-IsPlain n = spell-IsPlain 10 (omega arith) (omega arith) 5 n

pub length-decimal : (n : ℕ) → 0 < length (decimal n)
unfolding spell
length-decimal n = elim (spell-cases 10 (omega arith) (omega arith) 4 n) [
  | inl (small, eq) ↦ rw eq (omega arith)
  | inr (large, eq) ↦
      let len = length-append (spell 10 4 (n / 10)) (digit (n % 10) ∷ []) in
      rw eq (omega (arith, len))
]

pub atoi-decimal : (n : ℕ) → n < 65536 → atoi (decimal n) ≡ some n
unfolding atoi
atoi-decimal n h =
    let plain = decimal-IsPlain n in
    let skipped = skip_spaces_plain (decimal n) plain in
    let unsigned = signed_plain (decimal n) plain in
    let value = spell-value 10 (omega arith) (omega arith) 5 n (omega arith) in
    ground (arith, skipped, unsigned, value)
