-- ===== src/Handlers/DidMap/Reread.antt =====
-- The identifiers that `print_config` of uds_server/src/ecu_config.c prints, read back by the
-- callback of `parse_config`.
use mathlib.Core.List.{append_assoc, append-nil}
use native.Mathlib.Nat.{mod-eq_of_lt}
use vdiag_server.Base.{
  ℕ, suc, ◌+◌, ◌≤◌, ◌<◌, ◌≡◌, ◌∙◌, refl, ap, sym, some, List, [], ◌∷◌, ◌++◌, length, take, arith,
}
use vdiag_server.Base.Word.{u16}
use vdiag_server.Base.Exec.{done}
use vdiag_server.Config.{DataIdentifier, EcuConfig}
use vdiag_server.Config.Parse.{IniEntry, data_identifiers_name, add_identifier, handler, handle_all}
use vdiag_server.Config.Text.{parse_hex}
use vdiag_server.Config.Print.{c_string, decimal, identifier_text, print_identifiers, upper_hex4}
use vdiag_server.Config.Print.Numbers.{parse_hex-upper_hex4, atoi-decimal}
use vdiag_server.Config.Print.Words.{tokens_of-identifier_text}
use vdiag_server.Config.Whole.{IsWhole, add_identifier-IsWhole}
use vdiag_server.Handlers.DidMap.Lookup.{entries}
use vdiag_server.Handlers.DidMap.Configured.{
  identifier_of, handler-add_identifier, entries-add_identifier,
}

-- An identifier under its terminated name, within the widths of its fields.
pub record IsPrintable (array text : List ℕ) (d : DataIdentifier) : Type 0 where
  pub terminated : c_string array ≡ some text
  pub named : u16 (parse_hex text) ≡ d.udid
  pub address : d.address < 4294967296
  pub size : d.size < 65536
  pub access_level : d.access_level < 256

abbrev pub ArePrintable : List (List ℕ) → List (List ℕ) → List DataIdentifier → Type 0
ArePrintable [] arrays ids = Unit
ArePrintable (t ∷ ts) [] ids = ⊥
ArePrintable (t ∷ ts) (a ∷ as_) [] = ⊥
ArePrintable (t ∷ ts) (a ∷ as_) (d ∷ ds) = IsPrintable a t d × ArePrintable ts as_ ds

-- The entries of a configuration file that name the identifiers.
abbrev pub ini_entries : List (List ℕ) → List DataIdentifier → List IniEntry
ini_entries [] ids = []
ini_entries (t ∷ ts) [] = []
ini_entries (t ∷ ts) (d ∷ ds) =
    record { section = data_identifiers_name; name = t; value = identifier_text d }
    ∷ ini_entries ts ds

-- As lines `name = value`.
abbrev pub ini_text : List IniEntry → List ℕ
ini_text [] = []
ini_text (e ∷ es) = (e.name ++ (0x20 ∷ 0x3d ∷ 0x20 ∷ (e.value ++ (0x0a ∷ [])))) ++ ini_text es

pub print_identifiers-ini_text :
    (ts arrays : List (List ℕ)) (ids : List DataIdentifier) (out : List ℕ)
    → ArePrintable ts arrays ids
    → print_identifiers (length ts) arrays ids out ≡ done (tt, out ++ ini_text (ini_entries ts ids))
unfolding print_identifiers
print_identifiers-ini_text [] arrays ids out all = ground (arith, append-nil out)
print_identifiers-ini_text (t ∷ ts) [] ids out all = elim all [ ]
print_identifiers-ini_text (t ∷ ts) (a ∷ as_) [] out all = elim all [ ]
print_identifiers-ini_text (t ∷ ts) (a ∷ as_) (d ∷ ds) out (p, all) =
    let line = t ++ (0x20 ∷ 0x3d ∷ 0x20 ∷ (identifier_text d ++ (0x0a ∷ []))) in
    let rest = print_identifiers-ini_text ts as_ ds (out ++ line) all in
    let together = append_assoc out line (ini_text (ini_entries ts ds)) in
    ground (arith, p.terminated, rest, together)

-- A line that is read stands for the identifier that was printed.
handler-identifier_text :
    (array text : List ℕ) (d : DataIdentifier) (c : EcuConfig)
    → IsPrintable array text d
    → IsWhole c
    → c.did_count < 50
    → (c' : EcuConfig) × (handler
          (record { section = data_identifiers_name; name = text; value = identifier_text d })
          c
        ≡ done c')
      × IsWhole c'
      × (c'.did_count ≡ suc c.did_count)
      × (entries c' ≡ entries c ++ (d ∷ []))
handler-identifier_text array text d c p w room =
    let read_address = parse_hex-upper_hex4 d.address p.address in
    let same : identifier_of text d.address d.size d.access_level ≡ d =
      rw (p.named, mod-eq_of_lt p.size, mod-eq_of_lt p.access_level) refl in
    (
      add_identifier text d.address d.size d.access_level c,
      handler-add_identifier text (identifier_text d) (0x30 ∷ 0x78 ∷ upper_hex4 d.address)
            (decimal d.size) (decimal d.access_level) d.size d.access_level c room
            (tokens_of-identifier_text d) (atoi-decimal d.size p.size)
            (atoi-decimal d.access_level (omega (arith, p.access_level)))
          ∙ ap (λ (n : ℕ). done (add_identifier text n d.size d.access_level c)) read_address,
      add_identifier-IsWhole text d.address d.size d.access_level c w room,
      omega arith,
      entries-add_identifier text d.address d.size d.access_level c w room
          ∙ ap (λ (i : DataIdentifier). entries c ++ (i ∷ [])) same,
    )

pub handle_all-ini_entries :
    (ts arrays : List (List ℕ)) (ids : List DataIdentifier) (c : EcuConfig)
    → ArePrintable ts arrays ids
    → IsWhole c
    → c.did_count + length ts ≤ 50
    → (c' : EcuConfig) × (handle_all (ini_entries ts ids) c ≡ done c')
      × IsWhole c'
      × (entries c' ≡ entries c ++ take (length ts) ids)
unfolding handle_all
handle_all-ini_entries [] arrays ids c all w room = (c, refl, w, sym (append-nil (entries c)))
handle_all-ini_entries (t ∷ ts) [] ids c all w room = elim all [ ]
handle_all-ini_entries (t ∷ ts) (a ∷ as_) [] c all w room = elim all [ ]
handle_all-ini_entries (t ∷ ts) (a ∷ as_) (d ∷ ds) c (p, all) w room =
    let (c1, handled, w1, counted, grown) =
      handler-identifier_text a t d c p w (omega (arith, room)) in
    let (c2, rest, w2, added) =
      handle_all-ini_entries ts as_ ds c1 all w1 (omega (arith, room, counted)) in
    (
      c2,
      ground (arith, handled, rest),
      w2,
      added
          ∙ ap (λ es. es ++ take (length ts) ds) grown
          ∙ append_assoc (entries c) (d ∷ []) (take (length ts) ds),
    )
