-- ===== src/Config/Parse.antt =====
-- uds_server/src/ecu_config.c: reading the configuration. The ini library is a parameter: for a file
-- the result of `ini_parse`, and the entries for which it calls its handler, in order.
use vdiag_server.Base.{
  ℕ, zero, suc, ◌+◌, none, some, List, [], ◌∷◌, replicate, set, ltb, if◌then◌else◌,
}
use vdiag_server.Base.Word.{u8, u16, is_negative}
use vdiag_server.Base.Exec.{Outcome, done, undefined}
use vdiag_server.Config.{EcuConfig, max_string_length, max_did_entries}
use vdiag_server.Config.Text.{same_ignoring_case, strncpy, parse_hex, atoi, trim, strtok}

-- The section, the name and the value of an entry.
pub record IniEntry : Type 0 where
  pub section : List ℕ
  pub name : List ℕ
  pub value : List ℕ

-- The names of sections and entries, as ASCII.
abbrev pub can_name : List ℕ
can_name = 0x63 ∷ 0x61 ∷ 0x6e ∷ []

abbrev pub interface_name : List ℕ
interface_name = 0x69 ∷ 0x6e ∷ 0x74 ∷ 0x65 ∷ 0x72 ∷ 0x66 ∷ 0x61 ∷ 0x63 ∷ 0x65 ∷ []

abbrev pub tx_id_name : List ℕ
tx_id_name = 0x74 ∷ 0x78 ∷ 0x5f ∷ 0x69 ∷ 0x64 ∷ []

abbrev pub rx_id_name : List ℕ
rx_id_name = 0x72 ∷ 0x78 ∷ 0x5f ∷ 0x69 ∷ 0x64 ∷ []

abbrev pub protocol_name : List ℕ
protocol_name = 0x70 ∷ 0x72 ∷ 0x6f ∷ 0x74 ∷ 0x6f ∷ 0x63 ∷ 0x6f ∷ 0x6c ∷ []

abbrev pub uds_name : List ℕ
uds_name = 0x75 ∷ 0x64 ∷ 0x73 ∷ []

abbrev pub impl_name : List ℕ
impl_name = 0x69 ∷ 0x6d ∷ 0x70 ∷ 0x6c ∷ []

abbrev pub memory_name : List ℕ
memory_name = 0x6d ∷ 0x65 ∷ 0x6d ∷ 0x6f ∷ 0x72 ∷ 0x79 ∷ []

abbrev pub file_path_name : List ℕ
file_path_name = 0x66 ∷ 0x69 ∷ 0x6c ∷ 0x65 ∷ 0x5f ∷ 0x70 ∷ 0x61 ∷ 0x74 ∷ 0x68 ∷ []

abbrev pub start_addr_name : List ℕ
start_addr_name = 0x73 ∷ 0x74 ∷ 0x61 ∷ 0x72 ∷ 0x74 ∷ 0x5f ∷ 0x61 ∷ 0x64 ∷ 0x64 ∷ 0x72 ∷ []

abbrev pub end_addr_name : List ℕ
end_addr_name = 0x65 ∷ 0x6e ∷ 0x64 ∷ 0x5f ∷ 0x61 ∷ 0x64 ∷ 0x64 ∷ 0x72 ∷ []

abbrev pub data_identifiers_name : List ℕ
data_identifiers_name =
    0x64 ∷ 0x61 ∷ 0x74 ∷ 0x61 ∷ 0x5f ∷ 0x69 ∷ 0x64 ∷ 0x65 ∷ 0x6e ∷ 0x74 ∷ 0x69 ∷ 0x66 ∷ 0x69 ∷ 0x65
    ∷ 0x72 ∷ 0x73 ∷ []

abbrev pub logging_name : List ℕ
logging_name = 0x6c ∷ 0x6f ∷ 0x67 ∷ 0x67 ∷ 0x69 ∷ 0x6e ∷ 0x67 ∷ []

abbrev pub level_name : List ℕ
level_name = 0x6c ∷ 0x65 ∷ 0x76 ∷ 0x65 ∷ 0x6c ∷ []

abbrev pub file_name : List ℕ
file_name = 0x66 ∷ 0x69 ∷ 0x6c ∷ 0x65 ∷ []

-- Section `can`.
abbrev pub handle_can : IniEntry → EcuConfig → EcuConfig
handle_can e config =
    let can = config.can in
    if same_ignoring_case e.name interface_name
    then record config { can = record can { interface = strncpy e.value max_string_length } }
    else if same_ignoring_case e.name tx_id_name
    then record config { can = record can { tx_id = parse_hex e.value } }
    else if same_ignoring_case e.name rx_id_name
    then record config { can = record can { rx_id = parse_hex e.value } }
    else if same_ignoring_case e.name protocol_name
    then record config { can = record can { protocol = strncpy e.value max_string_length } }
    else config

abbrev pub handle_uds : IniEntry → EcuConfig → EcuConfig
handle_uds e config =
    if same_ignoring_case e.name impl_name
    then record config { uds = record { cimpl_libname = strncpy e.value max_string_length } }
    else config

abbrev pub handle_memory : IniEntry → EcuConfig → EcuConfig
handle_memory e config =
    let memory = config.memory in
    if same_ignoring_case e.name file_path_name
    then record config { memory = record memory { file_path = strncpy e.value max_string_length } }
    else if same_ignoring_case e.name start_addr_name
    then record config { memory = record memory { start_addr = parse_hex e.value } }
    else if same_ignoring_case e.name end_addr_name
    then record config { memory = record memory { end_addr = parse_hex e.value } }
    else config

abbrev pub handle_logging : IniEntry → EcuConfig → EcuConfig
handle_logging e config =
    let logging = config.logging in
    if same_ignoring_case e.name level_name
    then record config { logging = record logging { level = strncpy e.value max_string_length } }
    else if same_ignoring_case e.name file_name
    then record config { logging = record logging { file = strncpy e.value max_string_length } }
    else config

-- The loop over the tokens, with so many places left in `tokens`.
unfoldable pub tokens_of : ℕ → List ℕ → List (List ℕ)
tokens_of zero str = []
tokens_of (suc left) str = elim (strtok str) [
  | none ↦ []
  | some (token, rest) ↦ trim token ∷ tokens_of left rest
]

-- The entry at `did_count`.
abbrev pub add_identifier : List ℕ → ℕ → ℕ → ℕ → EcuConfig → EcuConfig
add_identifier name address size access_level config = record config {
  data_identifiers = set config.data_identifiers config.did_count (record {
    address = address;
    udid = u16 (parse_hex name);
    size = u16 size;
    access_level = u8 access_level;
  });
  did_names = set config.did_names config.did_count (strncpy name 8);
  did_count = config.did_count + 1;
}

-- A value of three tokens: an address, a size and an access level.
abbrev pub handle_tokens : List ℕ → List (List ℕ) → EcuConfig → Outcome EcuConfig
handle_tokens name (address ∷ size ∷ access_level ∷ []) config = elim (atoi size) [
  | none ↦ undefined
  | some n ↦ elim (atoi access_level) [
    | none ↦ undefined
    | some k ↦ done (add_identifier name (parse_hex address) n k config)
  ]
]
handle_tokens name _ config = done config

abbrev pub handle_identifier : IniEntry → EcuConfig → Outcome EcuConfig
handle_identifier e config =
    if ltb config.did_count max_did_entries
    then handle_tokens e.name (tokens_of 3 e.value) config
    else done config

-- The chain of the other sections.
unfoldable pub handle_section : IniEntry → EcuConfig → Outcome EcuConfig
handle_section e config =
    if same_ignoring_case e.section uds_name
    then done (handle_uds e config)
    else if same_ignoring_case e.section memory_name
    then done (handle_memory e config)
    else if same_ignoring_case e.section data_identifiers_name
    then handle_identifier e config
    else if same_ignoring_case e.section logging_name
    then done (handle_logging e config)
    else done config

-- The callback, which always returns 1.
unfoldable pub handler : IniEntry → EcuConfig → Outcome EcuConfig
handler e config =
    handle_section e (if same_ignoring_case e.section can_name then handle_can e config else config)

unfoldable pub handle_all : List IniEntry → EcuConfig → Outcome EcuConfig
handle_all [] config = done config
handle_all (e ∷ es) config = elim (handler e config) [
  | undefined ↦ undefined
  | done config' ↦ handle_all es config'
]

-- The configuration after `memset`.
abbrev pub zero_config : EcuConfig
zero_config = record {
  can = record {
    interface = replicate max_string_length 0;
    tx_id = 0;
    rx_id = 0;
    protocol = replicate max_string_length 0;
  };
  uds = record { cimpl_libname = replicate max_string_length 0 };
  memory = record { file_path = replicate max_string_length 0; start_addr = 0; end_addr = 0 };
  data_identifiers =
      replicate max_did_entries (record { address = 0; udid = 0; size = 0; access_level = 0 });
  did_names = replicate max_did_entries (replicate 8 0);
  did_count = 0;
  logging = record { level = replicate max_string_length 0; file = replicate max_string_length 0 };
}

-- The result, which is a Boolean, and the configuration.
unfoldable pub parse_config : (List ℕ → ℕ × List IniEntry) → List ℕ → Outcome (ℕ × EcuConfig)
parse_config ini_parse filename =
    let (result, found) = ini_parse filename in
    elim (handle_all found zero_config) [
      | undefined ↦ undefined
      | done config ↦ done (if is_negative result then 0 else 1, config)
    ]
