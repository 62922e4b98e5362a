-- ===== src/Handlers/DidMap/Printed.antt =====
-- What `print_config` of uds_server/src/ecu_config.c prints as a whole, and what a file with its
-- identifiers is read as.
use mathlib.Core.List.{append_assoc, append-nil}
use vdiag_server.Base.{ℕ, ◌≡◌, ◌∙◌, refl, ap, sym, List, [], ◌∷◌, ◌++◌, length, take, arith}
use vdiag_server.Base.Exec.{Exec, done, >>=-done, ◌>>◌}
use vdiag_server.Config.{EcuConfig}
use vdiag_server.Config.Parse.{IniEntry, parse_config, zero_config}
use vdiag_server.Config.Print.{
  IsTerminated, print, print_string, print_identifiers, print_config, title, can_heading,
  interface_label, tx_id_label, rx_id_label, protocol_label, memory_heading, file_path_label,
  start_address_label, end_address_label, identifiers_heading, logging_heading, level_label,
  file_label, upper_hex, upper_hex4,
}
use vdiag_server.Config.Whole.{IsWhole, zero_config-IsWhole}
use vdiag_server.Handlers.DidMap.Lookup.{entries}
use vdiag_server.Handlers.DidMap.Reread.{
  ArePrintable, ini_entries, ini_text, print_identifiers-ini_text, handle_all-ini_entries,
}

-- The arrays that are printed as strings.
pub record HasStrings (c : EcuConfig) : Type 0 where
  pub interface : IsTerminated c.can.interface
  pub protocol : IsTerminated c.can.protocol
  pub file_path : IsTerminated c.memory.file_path
  pub level : IsTerminated c.logging.level
  pub file : IsTerminated c.logging.file

abbrev pub concat : List (List ℕ) → List ℕ
concat [] = []
concat (p ∷ ps) = p ++ concat ps

-- A line with the string that an array holds.
abbrev line : (label array : List ℕ) → IsTerminated array → List ℕ → List ℕ
line label array (s, held) end_ = label ++ (s ++ end_)

-- Steps that print some text, whatever is printed already.
abbrev Prints : Exec (List ℕ) (Unit {0}) → List ℕ → Type 0
Prints step bs = (out : List ℕ) → step out ≡ done (tt, out ++ bs)

infixr 5 ◌⨟◌
◌⨟◌ :
    {step next : Exec (List ℕ) (Unit {0})} {bs more : List ℕ}
    → Prints step bs
    → Prints next more
    → Prints (step >> next) (bs ++ more)
◌⨟◌ {step} {next} {bs} {more} first rest out =
    >>=-done step _ (first out)
    ∙ rest (out ++ bs)
    ∙ ap (λ (t : List ℕ). done (tt, t)) (append_assoc out bs more)

print_string-Prints :
    (label array end_ : List ℕ) (held : IsTerminated array)
    → Prints (print_string label array end_) (line label array held end_)
print_string-Prints label array end_ (s, held) out = ground (arith, held)

-- The configuration as it is printed, up to the lines of the identifiers that count and from there.
abbrev to_identifiers : (c : EcuConfig) → HasStrings c → List (List ℕ)
to_identifiers c strings =
    title
    ∷ can_heading
    ∷ line interface_label c.can.interface strings.interface (0x0a ∷ [])
    ∷ (tx_id_label ++ (upper_hex c.can.tx_id ++ (0x0a ∷ [])))
    ∷ (rx_id_label ++ (upper_hex c.can.rx_id ++ (0x0a ∷ [])))
    ∷ line protocol_label c.can.protocol strings.protocol (0x0a ∷ 0x0a ∷ [])
    ∷ memory_heading
    ∷ line file_path_label c.memory.file_path strings.file_path (0x0a ∷ [])
    ∷ (start_address_label ++ (upper_hex4 c.memory.start_addr ++ (0x0a ∷ [])))
    ∷ (end_address_label ++ (upper_hex4 c.memory.end_addr ++ (0x0a ∷ 0x0a ∷ [])))
    ∷ identifiers_heading
    ∷ []

abbrev from_identifiers : (c : EcuConfig) → HasStrings c → List (List ℕ)
from_identifiers c strings =
    (0x0a ∷ [])
    ∷ logging_heading
    ∷ line level_label c.logging.level strings.level (0x0a ∷ [])
    ∷ line file_label c.logging.file strings.file (0x0a ∷ [])
    ∷ []

abbrev config_text : (c : EcuConfig) → HasStrings c → List (List ℕ) → List (List ℕ)
config_text c strings ts =
    to_identifiers c strings
    ++ (ini_text (ini_entries ts c.data_identifiers) ∷ from_identifiers c strings)

print_config-Prints :
    (ts : List (List ℕ)) (c : EcuConfig) (strings : HasStrings c)
    → ArePrintable ts c.did_names c.data_identifiers
    → c.did_count ≡ length ts
    → Prints (print_config c) (concat (config_text c strings ts))
unfolding print_config
print_config-Prints ts c strings all counted =
    let loop : Prints (print_identifiers c.did_count c.did_names c.data_identifiers)
        (ini_text (ini_entries ts c.data_identifiers)) =
      λ out.
        ap (λ (n : ℕ). print_identifiers n c.did_names c.data_identifiers out) counted
        ∙ print_identifiers-ini_text ts c.did_names c.data_identifiers out all in
    let string = print_string-Prints in
    let plain : (bs : List ℕ) → Prints (print bs) bs = λ bs out. refl in
    let nl : List ℕ = 0x0a ∷ [] in
    let two : List ℕ = 0x0a ∷ 0x0a ∷ [] in
    let last_line = string file_label c.logging.file nl strings.file in
    let last : Prints _ (line file_label c.logging.file strings.file nl ++ []) =
      λ out. last_line out ∙ ap (λ (t : List ℕ). done (tt, out ++ t)) (sym (append-nil _)) in
    plain title
    ⨟ plain can_heading
    ⨟ string interface_label c.can.interface nl strings.interface
    ⨟ plain (tx_id_label ++ (upper_hex c.can.tx_id ++ nl))
    ⨟ plain (rx_id_label ++ (upper_hex c.can.rx_id ++ nl))
    ⨟ string protocol_label c.can.protocol two strings.protocol
    ⨟ plain memory_heading
    ⨟ string file_path_label c.memory.file_path nl strings.file_path
    ⨟ plain (start_address_label ++ (upper_hex4 c.memory.start_addr ++ nl))
    ⨟ plain (end_address_label ++ (upper_hex4 c.memory.end_addr ++ two))
    ⨟ plain identifiers_heading
    ⨟ loop
    ⨟ plain nl
    ⨟ plain logging_heading
    ⨟ string level_label c.logging.level nl strings.level
    ⨟ last

concat-append :
    (ps : List (List ℕ)) (q : List ℕ) (qs : List (List ℕ))
    → concat (ps ++ (q ∷ qs)) ≡ concat ps ++ (q ++ concat qs)
concat-append [] q qs = refl
concat-append (p ∷ ps) q qs =
    ap (λ r. p ++ r) (concat-append ps q qs) ∙ sym (append_assoc p (concat ps) (q ++ concat qs))

-- The lines of the identifiers can be read again, once they stand in a section data_identifiers;
-- print_config itself prints them under another heading. For a whole configuration whose strings are
-- terminated, among them the names of the identifiers that count, which spell them, and whose fields
-- have their widths: `print_config` is defined, and what it prints has a line `name = value` for each
-- identifier that counts, in order, one behind the other; and a file whose entries are these names
-- and values in the section data_identifiers is read without an error as a configuration with the
-- same identifiers in order.
pub print_config-parse_config :
    (ts : List (List ℕ)) (c : EcuConfig) (strings : HasStrings c) (out : List ℕ)
    (ini_parse : List ℕ → ℕ × List IniEntry) (filename : List ℕ)
    → IsWhole c
    → ArePrintable ts c.did_names c.data_identifiers
    → c.did_count ≡ length ts
    → ini_parse filename ≡ (0, ini_entries ts c.data_identifiers)
    → (front : List ℕ) × (back : List ℕ) × (print_config c out
        ≡ done (tt, out ++ (front ++ (ini_text (ini_entries ts c.data_identifiers) ++ back))))
      × (c' : EcuConfig) × (parse_config ini_parse filename ≡ done (1, c'))
      × (entries c' ≡ entries c)
unfolding parse_config
print_config-parse_config ts c strings out ini_parse filename w all counted found =
    let (c', read, whole, same) =
      handle_all-ini_entries ts c.did_names c.data_identifiers zero_config all zero_config-IsWhole
        (omega (arith, counted, w.count)) in
    let text = ini_text (ini_entries ts c.data_identifiers) in
    (
      concat (to_identifiers c strings),
      concat (from_identifiers c strings),
      print_config-Prints ts c strings all counted out
          ∙ ap (λ (t : List ℕ). done (tt, out ++ t))
              (concat-append (to_identifiers c strings) text (from_identifiers c strings)),
      c',
      ground (arith, found, read),
      same ∙ ap (λ (n : ℕ). take n c.data_identifiers) (sym counted),
    )
