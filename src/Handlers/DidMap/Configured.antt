-- ===== src/Handlers/DidMap/Configured.antt =====
-- What a line of the configuration file adds to the entries that fill the table of identifiers.
use vdiag_server.Base.{
  All, ◌⊎◌, inl, inr, none, ◌≤◌, ℕ, zero, suc, ◌+◌, ◌<◌, ◌≡◌, ◌≢◌, refl, ap, some, List, [], ◌∷◌,
  ◌++◌, length, take, set, arith,
}
use vdiag_server.Base.Word.{u8, u16}
use vdiag_server.Base.Exec.{done, undefined}
use vdiag_server.Config.{DataIdentifier, EcuConfig}
use vdiag_server.Config.Print.{IsTerminated}
use vdiag_server.Config.Text.{same_ignoring_case, parse_hex, atoi}
use vdiag_server.Config.Parse.{
  IniEntry, data_identifiers_name, tokens_of, add_identifier, handle_section, handler, parse_config,
}
use vdiag_server.Config.Whole.{IsWhole, parse_config-IsWhole}
use vdiag_server.Handlers.DidMap.Lookup.{
  HasEntries, last_entry, entries, IsTerminated-cases, init_mapping_lem, init_mapping_undefined,
}
use vdiag_server.Handlers.DidMap.{DidTable, cleared, mapping_of, init_mapping}

take-set :
    (ids : List DataIdentifier) (n : ℕ) (d : DataIdentifier)
    → n < length ids
    → take (suc n) (set ids n d) ≡ take n ids ++ (d ∷ [])
take-set [] n d h = absurd (omega arith)
take-set (x ∷ ids) zero d h = refl
take-set (x ∷ ids) (suc n) d h = ap (λ r. x ∷ r) (take-set ids n d (omega arith))

last_entry-append_self :
    (ds : List DataIdentifier) (d : DataIdentifier) → last_entry (ds ++ (d ∷ [])) d.udid ≡ some d
unfolding last_entry
last_entry-append_self [] d = ground arith
last_entry-append_self (x ∷ ds) d = rw (last_entry-append_self ds d) refl

last_entry-append_ne :
    (ds : List DataIdentifier) (d : DataIdentifier) (udid : ℕ)
    → udid ≢ d.udid
    → last_entry (ds ++ (d ∷ [])) udid ≡ last_entry ds udid
unfolding last_entry
last_entry-append_ne [] d udid ne = ground arith
last_entry-append_ne (x ∷ ds) d udid ne = rw (last_entry-append_ne ds d udid ne) refl

-- The entry that a line of the section `data_identifiers` stands for.
abbrev pub identifier_of : List ℕ → ℕ → ℕ → ℕ → DataIdentifier
identifier_of name address size access_level = record {
  address = address;
  udid = u16 (parse_hex name);
  size = u16 size;
  access_level = u8 access_level;
}

-- A line of the section `data_identifiers` whose value has three tokens, the last two decimal
-- numbers.
pub handler-add_identifier :
    (name value address size access_level : List ℕ) (n k : ℕ) (c : EcuConfig)
    → c.did_count < 50
    → tokens_of 3 value ≡ address ∷ size ∷ access_level ∷ []
    → atoi size ≡ some n
    → atoi access_level ≡ some k
    → handler (record { section = data_identifiers_name; name = name; value = value }) c
      ≡ done (add_identifier name (parse_hex address) n k c)
unfolding handler handle_section same_ignoring_case
handler-add_identifier name value address size access_level n k c room three size_ok level_ok =
    ground (arith, three, size_ok, level_ok)

pub entries-add_identifier :
    (name : List ℕ) (address n k : ℕ) (c : EcuConfig)
    → IsWhole c
    → c.did_count < 50
    → entries (add_identifier name address n k c)
      ≡ entries c ++ (identifier_of name address n k ∷ [])
entries-add_identifier name address n k c w room =
    let one_more : c.did_count + 1 ≡ suc c.did_count = omega arith in
    rw one_more (
      take-set c.data_identifiers c.did_count (identifier_of name address n k)
        (omega (arith, w.identifiers)))

pub IsWhole-HasEntries :
    (c : EcuConfig) → IsWhole c → All IsTerminated (take c.did_count c.did_names) → HasEntries c
IsWhole-HasEntries c w all = record {
  identifiers = omega (arith, w.count, w.identifiers);
  names = omega (arith, w.count, w.names);
  terminated = all;
}

-- While fewer than 50 identifiers of a whole configuration are counted, a line of the section
-- `data_identifiers` whose value has three tokens, the last two decimal numbers, is taken: it
-- becomes the last entry, the one that its identifier is looked up by, and every other identifier
-- keeps its entry.
pub handler-entries :
    (name value address size access_level : List ℕ) (n k : ℕ) (c : EcuConfig)
    → IsWhole c
    → c.did_count < 50
    → tokens_of 3 value ≡ address ∷ size ∷ access_level ∷ []
    → atoi size ≡ some n
    → atoi access_level ≡ some k
    → (c' : EcuConfig) × (handler
          (record { section = data_identifiers_name; name = name; value = value })
          c
        ≡ done c')
      × (entries c' ≡ entries c ++ (identifier_of name (parse_hex address) n k ∷ []))
      × (last_entry (entries c') (u16 (parse_hex name))
          ≡ some (identifier_of name (parse_hex address) n k))
      × ((udid : ℕ)
          → udid ≢ u16 (parse_hex name)
          → last_entry (entries c') udid ≡ last_entry (entries c) udid)
handler-entries name value address size access_level n k c w room three size_ok level_ok =
    let d = identifier_of name (parse_hex address) n k in
    let c' = add_identifier name (parse_hex address) n k c in
    let grown : entries c' ≡ entries c ++ (d ∷ []) =
      entries-add_identifier name (parse_hex address) n k c w room in
    (
      c',
      handler-add_identifier name value address size access_level n k c room three size_ok level_ok,
      grown,
      rw grown (last_entry-append_self (entries c) d),
      λ udid ne. rw grown (last_entry-append_ne (entries c) d udid ne),
    )

-- With a configuration that was read from any file, filling the table of identifiers stays within
-- the array of entries. Where the names of the entries that count are terminated, it finishes with
-- each identifier of 16 bits mapped by its last entry, or cleared; where one of them is not, it is
-- undefined, since each name is printed.
pub init_mapping-parse_config :
    (ini_parse : List ℕ → ℕ × List IniEntry) (filename : List ℕ) (r : ℕ) (c : EcuConfig)
    → parse_config ini_parse filename ≡ done (r, c)
    → (All IsTerminated (take c.did_count c.did_names)
        × (table : DidTable) × (init_mapping c ≡ done table)
        × ((udid : ℕ)
            → udid ≤ 65535
            → table udid
              ≡ elim (last_entry (entries c) udid) [ none ↦ cleared udid | some d ↦ mapping_of d ]))
      ⊎ ((All IsTerminated (take c.did_count c.did_names) → ⊥) × (init_mapping c ≡ undefined))
init_mapping-parse_config ini_parse filename r c ran =
    let (w, _) = parse_config-IsWhole ini_parse filename r c ran in
    elim (IsTerminated-cases c.did_count c.did_names) [
      | inl all ↦
          (let (table, filled, looked) = init_mapping_lem c (IsWhole-HasEntries c w all) in
            inl (all, table, filled, looked))
      | inr missing ↦ inr (
        missing,
        init_mapping_undefined c (omega (arith, w.count, w.identifiers))
            (omega (arith, w.count, w.names)) missing,
      )
    ]
