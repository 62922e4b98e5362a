-- ===== src/Config/Whole.antt =====
-- What every configuration that was read satisfies, and what an identifier's entry adds to it.
use vdiag_server.Base.{
  ℕ, ◌≤◌, ◌<◌, ◌≡◌, ◌⊎◌, inl, inr, refl, Bool-cases, Option-cases, ◌∙◌, true, false, List, [], ◌∷◌,
  length, ltb, length-set, length-replicate, arith,
}
use mathlib.Core.Path.{subst}
use vdiag_server.Base.Word.{is_negative}
use vdiag_server.Base.Exec.{Outcome, done, undefined}
use vdiag_server.Config.{EcuConfig}
use vdiag_server.Config.Text.{same_ignoring_case, parse_hex, atoi}
use vdiag_server.Config.Parse.{
  IniEntry, data_identifiers_name, tokens_of, add_identifier, handle_can, handle_uds, handle_memory,
  handle_logging, handle_tokens, handle_section, handler, handle_all, zero_config, parse_config,
  can_name, uds_name, memory_name, logging_name,
}

-- The arrays have their 50 places, of which at most 50 count.
pub record IsWhole (c : EcuConfig) : Type 0 where
  pub identifiers : length c.data_identifiers ≡ 50
  pub names : length c.did_names ≡ 50
  pub count : c.did_count ≤ 50

same_arrays :
    (c c' : EcuConfig)
    → c'.data_identifiers ≡ c.data_identifiers
    → c'.did_names ≡ c.did_names
    → c'.did_count ≡ c.did_count
    → IsWhole c
    → IsWhole c'
same_arrays c c' ids names count w = record {
  identifiers = ground arith;
  names = ground arith;
  count = ground arith;
}

handle_can-IsWhole : (e : IniEntry) (c : EcuConfig) → IsWhole c → IsWhole (handle_can e c)
handle_can-IsWhole e c w = same_arrays c _ (ground arith) (ground arith) (ground arith) w

handle_uds-IsWhole : (e : IniEntry) (c : EcuConfig) → IsWhole c → IsWhole (handle_uds e c)
handle_uds-IsWhole e c w = same_arrays c _ (ground arith) (ground arith) (ground arith) w

handle_memory-IsWhole : (e : IniEntry) (c : EcuConfig) → IsWhole c → IsWhole (handle_memory e c)
handle_memory-IsWhole e c w = same_arrays c _ (ground arith) (ground arith) (ground arith) w

handle_logging-IsWhole : (e : IniEntry) (c : EcuConfig) → IsWhole c → IsWhole (handle_logging e c)
handle_logging-IsWhole e c w = same_arrays c _ (ground arith) (ground arith) (ground arith) w

pub add_identifier-IsWhole :
    (name : List ℕ) (address size access_level : ℕ) (c : EcuConfig)
    → IsWhole c
    → c.did_count < 50
    → IsWhole (add_identifier name address size access_level c)
add_identifier-IsWhole name address size access_level c w room = record {
  identifiers = length-set c.data_identifiers c.did_count _ ∙ w.identifiers;
  names = length-set c.did_names c.did_count _ ∙ w.names;
  count = omega arith;
}

handle_tokens-IsWhole :
    (name : List ℕ) (tokens : List (List ℕ)) (c c' : EcuConfig)
    → IsWhole c
    → c.did_count < 50
    → handle_tokens name tokens c ≡ done c'
    → IsWhole c'
handle_tokens-IsWhole name (address ∷ size ∷ access_level ∷ []) c c' w room ran =
    elim (Option-cases (atoi size)) [
      | inl e ↦ absurd (ground (arith, e))
      | inr (n, e) ↦ elim (Option-cases (atoi access_level)) [
        | inl e' ↦ absurd (ground (arith, e, e'))
        | inr (k, e') ↦
            let same : add_identifier name (parse_hex address) n k c ≡ c' = ground (arith, e, e') in
            subst IsWhole same (add_identifier-IsWhole name (parse_hex address) n k c w room)
      ]
    ]
handle_tokens-IsWhole name _ c c' w room ran =
    (let same : c ≡ c' = ground arith in subst IsWhole same w)

of_done : {c c' : EcuConfig} → IsWhole c → done c ≡ done c' → IsWhole c'
of_done {c} {c'} w ran = (let same : c ≡ c' = ground arith in subst IsWhole same w)

handle_section-IsWhole :
    (e : IniEntry) (c c' : EcuConfig) → IsWhole c → handle_section e c ≡ done c' → IsWhole c'
unfolding handle_section
handle_section-IsWhole e c c' w ran = elim (Bool-cases (same_ignoring_case e.section uds_name)) [
  | inl u ↦ of_done (handle_uds-IsWhole e c w) (rw u at ran)
  | inr u ↦ elim (Bool-cases (same_ignoring_case e.section memory_name)) [
    | inl m ↦ of_done (handle_memory-IsWhole e c w) (rw (u, m) at ran)
    | inr m ↦ elim (Bool-cases (same_ignoring_case e.section data_identifiers_name)) [
      | inl d ↦ elim (Bool-cases (ltb c.did_count 50)) [
        | inl room ↦
            handle_tokens-IsWhole e.name (tokens_of 3 e.value) c c' w (ground arith)
              (rw (u, m, d, room) at ran)
        | inr full ↦ of_done w (rw (u, m, d, full) at ran)
      ]
      | inr d ↦ elim (Bool-cases (same_ignoring_case e.section logging_name)) [
        | inl l ↦ of_done (handle_logging-IsWhole e c w) (rw (u, m, d, l) at ran)
        | inr l ↦ of_done w (rw (u, m, d, l) at ran)
      ]
    ]
  ]
]

handler-IsWhole : (e : IniEntry) (c c' : EcuConfig) → IsWhole c → handler e c ≡ done c' → IsWhole c'
unfolding handler
handler-IsWhole e c c' w ran = elim (Bool-cases (same_ignoring_case e.section can_name)) [
  | inl y ↦ handle_section-IsWhole e (handle_can e c) c' (handle_can-IsWhole e c w) (rw y at ran)
  | inr n ↦ handle_section-IsWhole e c c' w (rw n at ran)
]

-- To split on how a call ends and keep the equation.
Outcome-cases : {A : Type 0} (o : Outcome A) → (o ≡ undefined) ⊎ ((a : A) × (o ≡ done a))
Outcome-cases undefined = inl refl
Outcome-cases (done a) = inr (a, refl)

handle_all-IsWhole :
    (es : List IniEntry) (c c' : EcuConfig) → IsWhole c → handle_all es c ≡ done c' → IsWhole c'
unfolding handle_all
handle_all-IsWhole [] c c' w ran = of_done w ran
handle_all-IsWhole (e ∷ es) c c' w ran = elim (Outcome-cases (handler e c)) [
  | inl u ↦ absurd (ground (arith, u))
  | inr (c1, d) ↦
      let rest : handle_all es c1 ≡ done c' = ground (arith, d) in
      handle_all-IsWhole es c1 c' (handler-IsWhole e c c1 w d) rest
]

pub zero_config-IsWhole : IsWhole zero_config
zero_config-IsWhole = record {
  identifiers = length-replicate 50 _;
  names = length-replicate 50 _;
  count = omega arith;
}

-- Whatever the file holds and whatever `ini_parse` returns, a configuration that is read has its
-- whole arrays with at most 50 identifiers counted. The result is 0 where `ini_parse` returned a
-- negative number and 1 otherwise, hence itself never negative, which is what `main` tests for.
pub parse_config-IsWhole :
    (ini_parse : List ℕ → ℕ × List IniEntry) (filename : List ℕ) (r : ℕ) (c : EcuConfig)
    → parse_config ini_parse filename ≡ done (r, c)
    → IsWhole c
      × (((r ≡ 0) × (is_negative (ini_parse filename).0 ≡ true))
          ⊎ ((r ≡ 1) × (is_negative (ini_parse filename).0 ≡ false)))
unfolding parse_config
parse_config-IsWhole ini_parse filename r c ran =
    elim (Outcome-cases (handle_all (ini_parse filename).1 zero_config)) [
      | inl u ↦ absurd (ground (arith, u))
      | inr (c1, d) ↦
          let same : c1 ≡ c = ground (arith, d) in
          let whole =
            handle_all-IsWhole (ini_parse filename).1 zero_config c1 zero_config-IsWhole d in
          (subst IsWhole same whole, ground (arith, d))
    ]
