-- ===== src/Tests/Printed.antt =====
-- A configuration with one identifier, printed and read again.
use vdiag_server.Base.{ℕ, ◌≡◌, refl, List, [], ◌∷◌, ◌++◌, replicate, arith}
use vdiag_server.Base.Exec.{done}
use vdiag_server.Config.{EcuConfig}
use vdiag_server.Config.Parse.{IniEntry, parse_config}
use vdiag_server.Config.Print.{c_string, print_config, identifier_text, spell}
use vdiag_server.Config.Text.{parse_hex}
use vdiag_server.Config.Whole.{parse_config-IsWhole}
use vdiag_server.Handlers.DidMap.Lookup.{entries}
use vdiag_server.Handlers.DidMap.Reread.{ini_text, ArePrintable, ini_entries}
use vdiag_server.Handlers.DidMap.Printed.{HasStrings, print_config-parse_config}
use vdiag_server.Tests.Ini.{one_entry, read_one, f100_name}
use vdiag_server.Tests.Requests.{did_f100}

-- `0x0004:4:1`
did_f100_text :
    identifier_text did_f100
    ≡ 0x30 ∷ 0x78 ∷ 0x30 ∷ 0x30 ∷ 0x30 ∷ 0x34 ∷ 0x3a ∷ 0x34 ∷ 0x3a ∷ 0x31 ∷ []
unfolding spell replicate
did_f100_text = refl

abbrev names : List (List ℕ)
names = f100_name ∷ []

abbrev printed_file : List ℕ → ℕ × List IniEntry
printed_file filename = (0, ini_entries names (read_one.0).data_identifiers)

strings : HasStrings read_one.0
unfolding read_one c_string replicate
strings = record {
  interface = ([], refl);
  protocol = ([], refl);
  file_path = ([], refl);
  level = ([], refl);
  file = ([], refl);
}

one-ArePrintable : ArePrintable names (read_one.0).did_names (read_one.0).data_identifiers
unfolding read_one c_string replicate parse_hex
one-ArePrintable = (
  record {
    terminated = refl;
    named = refl;
    address = omega arith;
    size = omega arith;
    access_level = omega arith;
  },
  tt,
)

print_config-parse_config_example :
    (front : List ℕ) × (back : List ℕ) × (print_config read_one.0 []
      ≡ done (
        tt,
        [] ++ (front ++ (ini_text (ini_entries names (read_one.0).data_identifiers) ++ back)),
      ))
    × (c' : EcuConfig) × (parse_config printed_file [] ≡ done (1, c'))
    × (entries c' ≡ entries read_one.0)
unfolding read_one
print_config-parse_config_example =
    print_config-parse_config names read_one.0 strings [] printed_file []
      (parse_config-IsWhole one_entry [] 1 read_one.0 read_one.1).0 one-ArePrintable refl refl
