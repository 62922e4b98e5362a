-- ===== src/Config/Print/Words.antt =====
-- The text of an identifier that `print_config` prints, as the loop over `strtok` takes it apart.
use vdiag_server.Base.{
  ℕ, suc, ◌≡◌, ◌∙◌, refl, ap, some, List, [], ◌∷◌, ◌++◌, length, All, arith, ◌<◌,
}
use vdiag_server.Config.{DataIdentifier}
use vdiag_server.Config.Text.{trim_end, trim, up_to_colon, skip_colons, strtok}
use vdiag_server.Config.Parse.{tokens_of}
use vdiag_server.Config.Print.{upper_hex4, decimal, identifier_text}
use vdiag_server.Config.Print.Numbers.{
  IsPlain, skip_spaces_plain, upper_hex4-IsPlain, decimal-IsPlain, length-decimal,
}

trim_end_plain : (s : List ℕ) → All IsPlain s → trim_end s ≡ s
unfolding trim_end
trim_end_plain [] all = refl
trim_end_plain (c ∷ []) (first, all) = ground (arith, first)
trim_end_plain (c ∷ (d ∷ ds)) (first, all) =
    let rest = trim_end_plain (d ∷ ds) all in ground (arith, rest)

trim_plain : (s : List ℕ) → All IsPlain s → trim s ≡ s
unfolding trim
trim_plain s all = ap trim_end (skip_spaces_plain s all) ∙ trim_end_plain s all

-- Up to a colon, or the end.
up_to_colon-append :
    (s rest : List ℕ) → All IsPlain s → up_to_colon (s ++ (0x3a ∷ rest)) ≡ (s, rest)
unfolding up_to_colon
up_to_colon-append [] rest all = ground arith
up_to_colon-append (c ∷ cs) rest (first, all) =
    let next = up_to_colon-append cs rest all in ground (arith, next, first)

up_to_colon_plain : (s : List ℕ) → All IsPlain s → up_to_colon s ≡ (s, [])
unfolding up_to_colon
up_to_colon_plain [] all = refl
up_to_colon_plain (c ∷ cs) (first, all) =
    let next = up_to_colon_plain cs all in ground (arith, next, first)

strtok-append :
    (s rest : List ℕ) → All IsPlain s → 0 < length s → strtok (s ++ (0x3a ∷ rest)) ≡ some (s, rest)
unfolding strtok skip_colons
strtok-append [] rest all pos = absurd (omega (arith, pos))
strtok-append (c ∷ cs) rest all pos =
    let next = up_to_colon-append (c ∷ cs) rest all in ground (arith, next, all)

strtok_plain : (s : List ℕ) → All IsPlain s → 0 < length s → strtok s ≡ some (s, [])
unfolding strtok skip_colons
strtok_plain [] all pos = absurd (omega (arith, pos))
strtok_plain (c ∷ cs) all pos =
    let next = up_to_colon_plain (c ∷ cs) all in ground (arith, next, all)

next_token :
    (left : ℕ) (s word rest : List ℕ)
    → All IsPlain word
    → strtok s ≡ some (word, rest)
    → tokens_of (suc left) s ≡ word ∷ tokens_of left rest
unfolding tokens_of
next_token left s word rest plain found =
    let trimmed = trim_plain word plain in ground (arith, found, trimmed)

-- Three words between colons are three tokens.
tokens_of_words :
    (a b c : List ℕ)
    → All IsPlain a
    → All IsPlain b
    → All IsPlain c
    → 0 < length a
    → 0 < length b
    → 0 < length c
    → tokens_of 3 (a ++ (0x3a ∷ (b ++ (0x3a ∷ c)))) ≡ a ∷ b ∷ c ∷ []
unfolding tokens_of
tokens_of_words a b c pa pb pc some_a some_b some_c =
    next_token 2 _ a _ pa (strtok-append a (b ++ (0x3a ∷ c)) pa some_a)
    ∙ ap (λ r. a ∷ r) (next_token 1 _ b _ pb (strtok-append b c pb some_b))
    ∙ ap (λ r. a ∷ b ∷ r) (next_token 0 _ c _ pc (strtok_plain c pc some_c))

-- What is printed of an identifier has its address, its size and its access level as tokens.
pub tokens_of-identifier_text :
    (d : DataIdentifier)
    → tokens_of 3 (identifier_text d)
      ≡ (0x30 ∷ 0x78 ∷ upper_hex4 d.address) ∷ decimal d.size ∷ decimal d.access_level ∷ []
tokens_of-identifier_text d =
    tokens_of_words (0x30 ∷ 0x78 ∷ upper_hex4 d.address) (decimal d.size) (decimal d.access_level)
      ((omega arith, omega arith), ((omega arith, omega arith), upper_hex4-IsPlain d.address))
      (decimal-IsPlain d.size) (decimal-IsPlain d.access_level) (omega arith)
      (length-decimal d.size) (length-decimal d.access_level)
