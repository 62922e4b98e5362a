-- ===== src/Config/Print.antt =====
-- uds_server/src/ecu_config.c: what `print_config` prints, appended to what is printed already. The
-- conversions of `printf` are those of the C standard.
pub mod Numbers
pub mod Words
use vdiag_server.Base.{
  ℕ, zero, suc, ◌+◌, ◌-◌, ◌/◌, ◌%◌, ◌≡◌, Option, none, some, List, [], ◌∷◌, ◌++◌, length, replicate,
  ltb, ◌==◌, if◌then◌else◌,
}
use vdiag_server.Base.Exec.{Exec, done, pure, fault, ◌>>=◌, ◌>>◌}
use vdiag_server.Config.{DataIdentifier, EcuConfig}

-- The texts of the formats, as ASCII.
abbrev pub title : List ℕ
title =
    0x3d ∷ 0x3d ∷ 0x3d ∷ 0x20 ∷ 0x45 ∷ 0x43 ∷ 0x55 ∷ 0x20 ∷ 0x43 ∷ 0x6f ∷ 0x6e ∷ 0x66 ∷ 0x69 ∷ 0x67
    ∷ 0x75 ∷ 0x72 ∷ 0x61 ∷ 0x74 ∷ 0x69 ∷ 0x6f ∷ 0x6e ∷ 0x20 ∷ 0x3d ∷ 0x3d ∷ 0x3d ∷ 0x0a ∷ 0x0a ∷ []

abbrev pub can_heading : List ℕ
can_heading = 0x5b ∷ 0x43 ∷ 0x41 ∷ 0x4e ∷ 0x5d ∷ 0x0a ∷ []

abbrev pub interface_label : List ℕ
interface_label = 0x49 ∷ 0x6e ∷ 0x74 ∷ 0x65 ∷ 0x72 ∷ 0x66 ∷ 0x61 ∷ 0x63 ∷ 0x65 ∷ 0x3a ∷ 0x20 ∷ []

abbrev pub tx_id_label : List ℕ
tx_id_label = 0x54 ∷ 0x58 ∷ 0x20 ∷ 0x49 ∷ 0x44 ∷ 0x3a ∷ 0x20 ∷ 0x30 ∷ 0x78 ∷ []

abbrev pub rx_id_label : List ℕ
rx_id_label = 0x52 ∷ 0x58 ∷ 0x20 ∷ 0x49 ∷ 0x44 ∷ 0x3a ∷ 0x20 ∷ 0x30 ∷ 0x78 ∷ []

abbrev pub protocol_label : List ℕ
protocol_label = 0x50 ∷ 0x72 ∷ 0x6f ∷ 0x74 ∷ 0x6f ∷ 0x63 ∷ 0x6f ∷ 0x6c ∷ 0x3a ∷ 0x20 ∷ []

abbrev pub memory_heading : List ℕ
memory_heading = 0x5b ∷ 0x4d ∷ 0x65 ∷ 0x6d ∷ 0x6f ∷ 0x72 ∷ 0x79 ∷ 0x5d ∷ 0x0a ∷ []

abbrev pub file_path_label : List ℕ
file_path_label = 0x46 ∷ 0x69 ∷ 0x6c ∷ 0x65 ∷ 0x20 ∷ 0x50 ∷ 0x61 ∷ 0x74 ∷ 0x68 ∷ 0x3a ∷ 0x20 ∷ []

abbrev pub start_address_label : List ℕ
start_address_label =
    0x53 ∷ 0x74 ∷ 0x61 ∷ 0x72 ∷ 0x74 ∷ 0x20 ∷ 0x41 ∷ 0x64 ∷ 0x64 ∷ 0x72 ∷ 0x65 ∷ 0x73 ∷ 0x73 ∷ 0x3a
    ∷ 0x20 ∷ 0x30 ∷ 0x78 ∷ []

abbrev pub end_address_label : List ℕ
end_address_label =
    0x45 ∷ 0x6e ∷ 0x64 ∷ 0x20 ∷ 0x41 ∷ 0x64 ∷ 0x64 ∷ 0x72 ∷ 0x65 ∷ 0x73 ∷ 0x73 ∷ 0x3a ∷ 0x20 ∷ 0x30
    ∷ 0x78 ∷ []

abbrev pub identifiers_heading : List ℕ
identifiers_heading =
    0x5b ∷ 0x44 ∷ 0x61 ∷ 0x74 ∷ 0x61 ∷ 0x20 ∷ 0x49 ∷ 0x64 ∷ 0x65 ∷ 0x6e ∷ 0x74 ∷ 0x69 ∷ 0x66 ∷ 0x69
    ∷ 0x65 ∷ 0x72 ∷ 0x73 ∷ 0x5d ∷ 0x0a ∷ []

abbrev pub logging_heading : List ℕ
logging_heading = 0x5b ∷ 0x4c ∷ 0x6f ∷ 0x67 ∷ 0x67 ∷ 0x69 ∷ 0x6e ∷ 0x67 ∷ 0x5d ∷ 0x0a ∷ []

abbrev pub level_label : List ℕ
level_label = 0x4c ∷ 0x65 ∷ 0x76 ∷ 0x65 ∷ 0x6c ∷ 0x3a ∷ 0x20 ∷ []

abbrev pub file_label : List ℕ
file_label = 0x46 ∷ 0x69 ∷ 0x6c ∷ 0x65 ∷ 0x3a ∷ 0x20 ∷ []

-- `%s`: the bytes of an array before its zero. It is not defined without one.
unfoldable pub c_string : List ℕ → Option (List ℕ)
c_string [] = none
c_string (b ∷ bs) =
    if b == 0 then some [] else elim (c_string bs) [ none ↦ none | some s ↦ some (b ∷ s) ]

abbrev pub IsTerminated : List ℕ → Type 0
IsTerminated array = (s : List ℕ) × (c_string array ≡ some s)

-- A digit, with the upper case from ten on.
abbrev pub digit : ℕ → ℕ
digit n = if ltb n 10 then 48 + n else 55 + n

-- A number in a base, of at most so many digits.
unfoldable pub spell : ℕ → ℕ → ℕ → List ℕ
spell base zero n = []
spell base (suc left) n =
    let rest = spell base left (n / base) in
    (if ltb n base then [] else rest) ++ (digit (n % base) ∷ [])

-- `%X` of a `uint32_t`, and `%04X`.
abbrev pub upper_hex : ℕ → List ℕ
upper_hex n = spell 16 8 n

abbrev pub upper_hex4 : ℕ → List ℕ
upper_hex4 n = replicate (4 - length (upper_hex n)) 48 ++ upper_hex n

-- `%d` of a `uint16_t` or a `uint8_t`.
abbrev pub decimal : ℕ → List ℕ
decimal n = spell 10 5 n

-- `0x%04X:%d:%d`
abbrev pub identifier_text : DataIdentifier → List ℕ
identifier_text d =
    0x30
    ∷ 0x78
    ∷ (upper_hex4 d.address ++ (0x3a ∷ (decimal d.size ++ (0x3a ∷ decimal d.access_level))))

abbrev pub print : List ℕ → Exec (List ℕ) (Unit {0})
print bs out = done (tt, out ++ bs)

-- A label, a string and what follows it.
abbrev pub print_string : List ℕ → List ℕ → List ℕ → Exec (List ℕ) (Unit {0})
print_string label array end_ = elim (c_string array) [
  | none ↦ fault
  | some s ↦ print (label ++ (s ++ end_))
]

-- The loop over the identifiers, with the arrays from its index on.
unfoldable pub print_identifiers :
    ℕ → List (List ℕ) → List DataIdentifier → Exec (List ℕ) (Unit {0})
print_identifiers zero names ids = pure tt
print_identifiers (suc left) (name ∷ names) (d ∷ ids) = do
  print_string [] name (0x20 ∷ 0x3d ∷ 0x20 ∷ (identifier_text d ++ (0x0a ∷ [])))
  print_identifiers left names ids
print_identifiers (suc left) _ _ = fault

unfoldable pub print_config : EcuConfig → Exec (List ℕ) (Unit {0})
print_config config = do
  print title
  print can_heading
  print_string interface_label config.can.interface (0x0a ∷ [])
  print (tx_id_label ++ (upper_hex config.can.tx_id ++ (0x0a ∷ [])))
  print (rx_id_label ++ (upper_hex config.can.rx_id ++ (0x0a ∷ [])))
  print_string protocol_label config.can.protocol (0x0a ∷ 0x0a ∷ [])
  print memory_heading
  print_string file_path_label config.memory.file_path (0x0a ∷ [])
  print (start_address_label ++ (upper_hex4 config.memory.start_addr ++ (0x0a ∷ [])))
  print (end_address_label ++ (upper_hex4 config.memory.end_addr ++ (0x0a ∷ 0x0a ∷ [])))
  print identifiers_heading
  print_identifiers config.did_count config.did_names config.data_identifiers
  print (0x0a ∷ [])
  print logging_heading
  print_string level_label config.logging.level (0x0a ∷ [])
  print_string file_label config.logging.file (0x0a ∷ [])
