-- ===== src/Handlers/DidMap/Lookup.antt =====
-- The table of data identifiers against the list of entries that it is filled from.
use vdiag_server.Base.{
  ℕ, Option-cases, sym, ◌⊎◌, inl, inr, zero, suc, ◌+◌, ◌≤◌, ◌<◌, ◌≡◌, refl, ap, ◌∙◌, Option, none,
  some, List, [], ◌∷◌, length, take, drop, get_elem?, All, ◌==◌, if◌then◌else◌, arith,
}
use mathlib.Core.Path.{subst}
use vdiag_server.Base.Exec.{done, undefined}
use vdiag_server.Config.{DataIdentifier, EcuConfig}
use vdiag_server.Config.Print.{IsTerminated, c_string}
use vdiag_server.Handlers.DidMap.{
  DidMapping, DidTable, cleared, mapping_of, enter, init_from, init_mapping,
}

-- The last entry of an identifier.
unfoldable pub last_entry : List DataIdentifier → ℕ → Option DataIdentifier
last_entry [] udid = none
last_entry (d ∷ ds) udid = elim (last_entry ds udid) [
  | some later ↦ some later
  | none ↦ if udid == d.udid then some d else none
]

-- The entries that count.
abbrev pub entries : EcuConfig → List DataIdentifier
entries ecucfg = take ecucfg.did_count ecucfg.data_identifiers

abbrev mapping_or : DidMapping → Option DataIdentifier → DidMapping
mapping_or other none = other
mapping_or other (some d) = mapping_of d

enter_all : List DataIdentifier → DidTable → DidTable
enter_all [] table = table
enter_all (d ∷ ds) table = enter_all ds (enter d table)

-- The entries that count lie within the arrays, and their names are terminated.
pub record HasEntries (ecucfg : EcuConfig) : Type 0 where
  pub identifiers : ecucfg.did_count ≤ length ecucfg.data_identifiers
  pub names : ecucfg.did_count ≤ length ecucfg.did_names
  pub terminated : All IsTerminated (take ecucfg.did_count ecucfg.did_names)

drop-cons :
    {A : Type 0} (ids : List A) (i : ℕ)
    → i < length ids
    → (d : A) × (get_elem? ids i ≡ some d) × (drop i ids ≡ d ∷ drop (i + 1) ids)
drop-cons [] i h = absurd (omega arith)
drop-cons (d ∷ ids) zero h = (d, refl, refl)
drop-cons (d ∷ ids) (suc i) h =
    let (e, got, rest) = drop-cons ids i (omega arith) in
    let k : i + 1 ≡ suc i = omega arith in
    let k' : suc i + 1 ≡ suc (suc i) = omega arith in
    (e, got, rw k' (rest ∙ ap (λ (j : ℕ). e ∷ drop j ids) k))

init_from_lem :
    (ids : List DataIdentifier) (names : List (List ℕ)) (left i : ℕ) (table : DidTable)
    → i + left ≤ length ids
    → i + left ≤ length names
    → All IsTerminated (take left (drop i names))
    → init_from ids names left i table ≡ done (enter_all (take left (drop i ids)) table)
unfolding init_from enter_all
init_from_lem ids names zero i table h k all = refl
init_from_lem ids names (suc left) i table h k all =
    let (d, got, rest) = drop-cons ids i (omega arith) in
    let (array, named, others) = drop-cons names i (omega arith) in
    let ((s, held), more) =
      subst (λ (as_ : List (List ℕ)). All IsTerminated (take (suc left) as_)) others all in
    let later =
      init_from_lem ids names left (i + 1) (enter d table) (omega arith) (omega arith) more in
    rw rest (ground (arith, got, named, held, later))

-- Whether the names that count are terminated.
pub IsTerminated-cases :
    (n : ℕ) (names : List (List ℕ))
    → All IsTerminated (take n names) ⊎ (All IsTerminated (take n names) → ⊥)
IsTerminated-cases zero names = inl tt
IsTerminated-cases (suc n) [] = inl tt
IsTerminated-cases (suc n) (a ∷ as_) = elim (Option-cases (c_string a)) [
  | inl endless ↦ inr (λ all. absurd (ground (arith, endless, all.0.1)))
  | inr (s, held) ↦ elim (IsTerminated-cases n as_) [
    | inl rest ↦ inl ((s, held), rest)
    | inr missing ↦ inr (λ all. missing all.1)
  ]
]

init_from_undefined :
    (ids : List DataIdentifier) (names : List (List ℕ)) (left i : ℕ) (table : DidTable)
    → i + left ≤ length ids
    → i + left ≤ length names
    → (All IsTerminated (take left (drop i names)) → ⊥)
    → init_from ids names left i table ≡ undefined
unfolding init_from
init_from_undefined ids names zero i table h k missing = absurd (missing tt)
init_from_undefined ids names (suc left) i table h k missing =
    let (d, got, rest) = drop-cons ids i (omega arith) in
    let (array, named, others) = drop-cons names i (omega arith) in
    elim (Option-cases (c_string array)) [
      | inl endless ↦ ground (arith, got, named, endless)
      | inr (s, held) ↦
          let fewer : All IsTerminated (take left (drop (i + 1) names)) → ⊥ = λ more. missing (
            subst (λ (as_ : List (List ℕ)). All IsTerminated (take (suc left) as_)) (sym others)
              ((s, held), more)) in
          let later =
            init_from_undefined ids names left (i + 1) (enter d table) (omega arith) (omega arith)
              fewer in
          ground (arith, got, named, held, later)
    ]

-- With a name that does not end, filling the table is undefined.
pub init_mapping_undefined :
    (ecucfg : EcuConfig)
    → ecucfg.did_count ≤ length ecucfg.data_identifiers
    → ecucfg.did_count ≤ length ecucfg.did_names
    → (All IsTerminated (take ecucfg.did_count ecucfg.did_names) → ⊥)
    → init_mapping ecucfg ≡ undefined
unfolding init_mapping
init_mapping_undefined ecucfg h k missing =
    init_from_undefined ecucfg.data_identifiers ecucfg.did_names ecucfg.did_count 0 cleared
      (omega arith) (omega arith) missing

enter_all_lem :
    (ds : List DataIdentifier) (table : DidTable) (udid : ℕ)
    → udid ≤ 65535
    → enter_all ds table udid ≡ mapping_or (table udid) (last_entry ds udid)
unfolding enter_all last_entry
enter_all_lem [] table udid h = refl
enter_all_lem (d ∷ ds) table udid h = ground (arith, enter_all_lem ds (enter d table) udid h)

-- Where the entries that count lie within the arrays and their names are terminated, filling the
-- table is defined, and each identifier of 16 bits is mapped by its last entry; without one it stays
-- cleared, hence not valid.
pub init_mapping_lem :
    (ecucfg : EcuConfig)
    → HasEntries ecucfg
    → (table : DidTable) × (init_mapping ecucfg ≡ done table)
      × ((udid : ℕ)
          → udid ≤ 65535
          → table udid ≡ elim (last_entry (entries ecucfg) udid) [
            | none ↦ cleared udid
            | some d ↦ mapping_of d
          ])
unfolding init_mapping
init_mapping_lem ecucfg h = (
  enter_all (entries ecucfg) cleared,
  init_from_lem ecucfg.data_identifiers ecucfg.did_names ecucfg.did_count 0 cleared
      (omega (arith, h.identifiers)) (omega (arith, h.names)) h.terminated,
  λ udid small. ground (arith, enter_all_lem (entries ecucfg) cleared udid small),
)
