-- ===== src/Config/Text.antt =====
-- The functions on strings that uds_server/src/ecu_config.c uses: those of the C library, in its
-- default locale, and its own `parse_hex` and `trim`. A string is the list of its bytes before the
-- terminating zero.
use vdiag_server.Base.{
  ℕ, ◌+◌, ◌-◌, ◌*◌, Bool, true, false, ◌&&◌, ◌||◌, Option, none, some, List, [], ◌∷◌, ◌++◌, take,
  replicate, ltb, leb, ◌==◌, if◌then◌else◌,
}
use vdiag_server.Base.Word.{u32}

abbrev pub is_space : ℕ → Bool
is_space c = c == 32 || (leb 9 c && leb c 13)

abbrev to_lower : ℕ → ℕ
to_lower c = if leb 65 c && leb c 90 then c + 32 else c

-- `strcasecmp(a, b) == 0`
unfoldable pub same_ignoring_case : List ℕ → List ℕ → Bool
same_ignoring_case [] [] = true
same_ignoring_case [] (b ∷ ys) = false
same_ignoring_case (a ∷ xs) [] = false
same_ignoring_case (a ∷ xs) (b ∷ ys) = (to_lower a == to_lower b) && same_ignoring_case xs ys

-- `strncpy(dst, src, n)` into an array of `n`: what the array holds.
abbrev pub strncpy : List ℕ → ℕ → List ℕ
strncpy src n = take n (src ++ replicate n 0)

unfoldable pub skip_spaces : List ℕ → List ℕ
skip_spaces [] = []
skip_spaces (c ∷ cs) = let rest = skip_spaces cs in if is_space c then rest else c ∷ cs

-- A string without its last spaces.
unfoldable pub trim_end : List ℕ → List ℕ
trim_end [] = []
trim_end (c ∷ cs) = elim (trim_end cs) [
  | [] ↦ if is_space c then [] else c ∷ []
  | x ∷ xs ↦ c ∷ x ∷ xs
]

unfoldable pub trim : List ℕ → List ℕ
unfolding skip_spaces trim_end
trim str = trim_end (skip_spaces str)

-- The value of a digit of base 16; none has 16.
abbrev pub digit_of : ℕ → ℕ
digit_of c =
    if leb 48 c && leb c 57
    then c - 48
    else if leb 97 (to_lower c) && leb (to_lower c) 102
    then to_lower c - 87
    else 16

-- The number that the leading digits of a base spell, from what is read already.
unfoldable pub digits : ℕ → List ℕ → ℕ → ℕ
digits base [] acc = acc
digits base (c ∷ cs) acc =
    let rest = digits base cs (acc * base + digit_of c) in
    if ltb (digit_of c) base then rest else acc

-- The digits of base 16 behind an optional `0x`, which a digit has to follow.
unfoldable pub hex_digits : List ℕ → ℕ
unfolding digits
hex_digits (z ∷ x ∷ c ∷ cs) =
    if z == 48 && (to_lower x == 120 && ltb (digit_of c) 16)
    then digits 16 (c ∷ cs) 0
    else digits 16 (z ∷ x ∷ c ∷ cs) 0
hex_digits cs = digits 16 cs 0

-- A sign, and what follows it.
abbrev pub signed : List ℕ → Bool × List ℕ
signed [] = (false, [])
signed (c ∷ cs) = if c == 45 then (true, cs) else if c == 43 then (false, cs) else (false, c ∷ cs)

-- `(uint32_t)strtoul(str, NULL, 16)`, where `unsigned long` has 64 bits: a number that does not fit
-- is `ULONG_MAX`, and another is negated behind a minus sign.
unfoldable pub parse_hex : List ℕ → ℕ
unfolding skip_spaces hex_digits
parse_hex str =
    let (minus, rest) = signed (skip_spaces str) in
    let n = hex_digits rest in
    if leb 18446744073709551616 n
    then 4294967295
    else if minus
    then u32 (18446744073709551616 - n)
    else u32 n

-- `atoi(str)`, the pattern of an `int`. It is not defined for a number that does not fit.
unfoldable pub atoi : List ℕ → Option ℕ
unfolding skip_spaces digits
atoi str =
    let (minus, rest) = signed (skip_spaces str) in
    let n = digits 10 rest 0 in
    if minus
    then (if leb n 2147483648 then some (u32 (4294967296 - n)) else none)
    else (if leb n 2147483647 then some n else none)

-- `strtok` with the delimiter `:`. The bytes up to the next delimiter, and those behind it.
unfoldable pub up_to_colon : List ℕ → List ℕ × List ℕ
up_to_colon [] = ([], [])
up_to_colon (c ∷ cs) =
    let (token, rest) = up_to_colon cs in if c == 58 then ([], cs) else (c ∷ token, rest)

unfoldable pub skip_colons : List ℕ → List ℕ
skip_colons [] = []
skip_colons (c ∷ cs) = let rest = skip_colons cs in if c == 58 then rest else c ∷ cs

unfoldable pub strtok : List ℕ → Option (List ℕ × List ℕ)
unfolding up_to_colon skip_colons
strtok str = elim (skip_colons str) [ [] ↦ none | c ∷ cs ↦ some (up_to_colon (c ∷ cs)) ]
