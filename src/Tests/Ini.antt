-- ===== src/Tests/Ini.antt =====
-- Lines of a configuration file.
use vdiag_server.Base.{
  take, All, ◌≤◌, ℕ, ◌≡◌, ◌≢◌, ◌⊎◌, ◌++◌, refl, true, false, none, some, List, [], ◌∷◌, arith,
}
use vdiag_server.Base.Word.{u16, is_negative}
use vdiag_server.Base.Exec.{done, undefined}
use vdiag_server.Config.Print.{IsTerminated}
use vdiag_server.Config.{EcuConfig}
use vdiag_server.Config.Text.{same_ignoring_case, parse_hex, atoi, trim, strtok}
use vdiag_server.Config.Parse.{
  IniEntry, data_identifiers_name, tokens_of, handler, handle_section, handle_all, zero_config,
  parse_config,
}
use vdiag_server.Config.Whole.{IsWhole, zero_config-IsWhole, parse_config-IsWhole}
use vdiag_server.Handlers.DidMap.Configured.{
  identifier_of, handler-entries, init_mapping-parse_config,
}
use vdiag_server.Handlers.DidMap.{DidTable, cleared, mapping_of, init_mapping}
use vdiag_server.Handlers.DidMap.Lookup.{last_entry, entries}

-- `F100 = 4:16:1`
abbrev pub f100_name : List ℕ
f100_name = 0x46 ∷ 0x31 ∷ 0x30 ∷ 0x30 ∷ []

abbrev f100_value : List ℕ
f100_value = 0x34 ∷ 0x3a ∷ 0x31 ∷ 0x36 ∷ 0x3a ∷ 0x31 ∷ []

abbrev f100_entry : IniEntry
f100_entry = record { section = data_identifiers_name; name = f100_name; value = f100_value }

abbrev pub one_entry : List ℕ → ℕ × List IniEntry
one_entry filename = (0, f100_entry ∷ [])

f100_number : parse_hex f100_name ≡ 0xf100
unfolding parse_hex
f100_number = refl

f100_tokens : tokens_of 3 f100_value ≡ (0x34 ∷ []) ∷ (0x31 ∷ 0x36 ∷ []) ∷ (0x31 ∷ []) ∷ []
unfolding tokens_of strtok trim
f100_tokens = refl

f100_size : atoi (0x31 ∷ 0x36 ∷ []) ≡ some 16
unfolding atoi
f100_size = refl

f100_level : atoi (0x31 ∷ []) ≡ some 1
unfolding atoi
f100_level = refl

handler-entries_example :
    (c' : EcuConfig) × (handler f100_entry zero_config ≡ done c')
    × (entries c'
        ≡ entries zero_config ++ (identifier_of f100_name (parse_hex (0x34 ∷ [])) 16 1 ∷ []))
    × (last_entry (entries c') (u16 (parse_hex f100_name))
        ≡ some (identifier_of f100_name (parse_hex (0x34 ∷ [])) 16 1))
    × ((udid : ℕ)
        → udid ≢ u16 (parse_hex f100_name)
        → last_entry (entries c') udid ≡ last_entry (entries zero_config) udid)
handler-entries_example =
    handler-entries f100_name f100_value (0x34 ∷ []) (0x31 ∷ 0x36 ∷ []) (0x31 ∷ []) 16 1 zero_config
      zero_config-IsWhole (omega arith) f100_tokens f100_size f100_level

unfoldable pub read_one : (c : EcuConfig) × (parse_config one_entry [] ≡ done (1, c))
unfolding parse_config handle_all handler handle_section same_ignoring_case tokens_of strtok trim
    atoi parse_hex
read_one = (_, refl)

parse_config-IsWhole_example :
    IsWhole read_one.0
    × ((◌≡◌ {A = ℕ} 1 0 × (is_negative 0 ≡ true)) ⊎ (◌≡◌ {A = ℕ} 1 1 × (is_negative 0 ≡ false)))
parse_config-IsWhole_example = parse_config-IsWhole one_entry [] 1 read_one.0 read_one.1

init_mapping-parse_config_example :
    (All IsTerminated (take (read_one.0).did_count (read_one.0).did_names)
      × (table : DidTable) × (init_mapping read_one.0 ≡ done table)
      × ((udid : ℕ)
          → udid ≤ 65535
          → table udid ≡ elim (last_entry (entries read_one.0) udid) [
            | none ↦ cleared udid
            | some d ↦ mapping_of d
          ]))
    ⊎ ((All IsTerminated (take (read_one.0).did_count (read_one.0).did_names) → ⊥)
        × (init_mapping read_one.0 ≡ undefined))
init_mapping-parse_config_example = init_mapping-parse_config one_entry [] 1 read_one.0 read_one.1
