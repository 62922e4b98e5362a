-- ===== src/Handlers/DidMap.antt =====
-- uds_handlers/src/did_map.c: the table of data identifiers. The array of 65536 mappings is a
-- function, since its index is a `uint16_t`.
pub mod Lookup
pub mod Configured
pub mod Reread
pub mod Printed
use vdiag_server.Base.{
  ℕ, zero, suc, ◌+◌, Option, none, some, List, get_elem?, leb, ◌==◌, if◌then◌else◌,
}
use vdiag_server.Base.Exec.{Outcome, done, undefined}
use vdiag_server.Config.{DataIdentifier, EcuConfig}
use vdiag_server.Config.Print.{c_string}

abbrev pub max_did : ℕ
max_did = 0xffff

pub record DidMapping : Type 0 where
  pub memory_address : ℕ
  pub data_size : ℕ
  pub access_level : ℕ
  pub valid : ℕ

abbrev pub DidTable : Type 0
DidTable = ℕ → DidMapping

-- The table after `memset`.
abbrev pub cleared : DidTable
cleared udid = record { memory_address = 0; data_size = 0; access_level = 0; valid = 0 }

abbrev pub mapping_of : DataIdentifier → DidMapping
mapping_of d = record {
  memory_address = d.address;
  data_size = d.size;
  access_level = d.access_level;
  valid = 1;
}

-- The body of the loop, for the entry `data_identifiers[i]`.
abbrev pub enter : DataIdentifier → DidTable → DidTable
enter d table =
    if leb d.udid max_did
    then (λ udid. if udid == d.udid then mapping_of d else table udid)
    else table

-- `did_names[i]` as both branches print it with `%s`: nothing past the end of the array, or where
-- its bytes have no terminator.
abbrev pub printed_name : List (List ℕ) → ℕ → Option (List ℕ)
printed_name names i = elim (get_elem? names i) [ none ↦ none | some array ↦ c_string array ]

-- The loop from `i`, with so many rounds left. It is undefined past the end of an array, and where
-- the name to print has no end.
init_from : List DataIdentifier → List (List ℕ) → ℕ → ℕ → DidTable → Outcome DidTable
init_from ids names zero i table = done table
init_from ids names (suc left) i table = elim (get_elem? ids i) [
  | none ↦ undefined
  | some d ↦ elim (printed_name names i) [
    | none ↦ undefined
    | some name ↦ init_from ids names left (i + 1) (enter d table)
  ]
]

unfoldable pub init_mapping : EcuConfig → Outcome DidTable
unfolding init_from
init_mapping ecucfg = init_from ecucfg.data_identifiers ecucfg.did_names ecucfg.did_count 0 cleared
