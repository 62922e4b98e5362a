-- ===== src/Ecu/Promises.antt =====
-- What the answers of the ECU say, case by case.
use vdiag_server.Base.{
  ℕ, ◌*◌, ◌+◌, ◌-◌, ◌≤◌, ◌<◌, ◌≡◌, ◌≢◌, ◌⊎◌, ◌∙◌, sym, ap, false, none, some, List, [], ◌∷◌, length,
  take, drop, overwrite, replicate, length-replicate, length-overwrite, take-overwrite, leb, inl,
  inr, arith, Option-cases, Bool-cases, ◌&&◌, ◌==◌,
}
use vdiag_server.Can.{put, payload}
use vdiag_server.Ecu.Requests.{Fits}
use vdiag_server.Config.{EcuConfig}
use vdiag_server.Os.Files.{splice}
use vdiag_server.Handlers.Std.Session.{timing_bytes}
use vdiag_server.Server.{zero_message}
use vdiag_server.Ecu.{
  Ecu, read_identifier, read_bytes, write_bytes, write_identifier, answer_command, answer_entry,
  answer_write_entry,
}
use vdiag_server.Config.{DataIdentifier}
use vdiag_server.Handlers.DidMap.Lookup.{last_entry, entries}
use vdiag_server.Handlers.Std.ById.{IsOutside}

pub payload-put_zero :
    (bs : List ℕ) (n : ℕ) → length bs ≡ n → n ≤ 4096 → payload (put zero_message bs n) ≡ bs
payload-put_zero bs n e h =
    let zeros = replicate {A = ℕ} 4096 0 in
    ap (λ (k : ℕ). take k (overwrite bs zeros)) (sym e)
    ∙ take-overwrite bs zeros (omega (arith, length-replicate {A = ℕ} 4096 0))

pub put_zero-Fits : (bs : List ℕ) (n : ℕ) → n ≤ 4096 → Fits (put zero_message bs n)
put_zero-Fits bs n h =
    let zeros = replicate {A = ℕ} 4096 0 in
    (omega (arith, length-overwrite bs zeros, length-replicate {A = ℕ} 4096 0), h)

pub zero-Fits : Fits zero_message
zero-Fits = (length-replicate {A = ℕ} 4096 0, omega arith)

-- What the ECU promises of a read, and on what terms.
pub promised_read :
    (c : EcuConfig) (addr size : ℕ) (e e' : Ecu) (bytes : List ℕ)
    → answer_command c (read_bytes addr size) e ≡ some (bytes, e')
    → (c.memory.start_addr ≤ addr)
      × (addr + size ≤ c.memory.end_addr)
      × (addr + size ≤ length e.memory)
      × (0 < size)
      × (size < 4096)
      × (0 < e.files_left)
      × (bytes ≡ 0x63 ∷ take size (drop addr e.memory))
      × (e'.session ≡ e.session)
      × (e'.memory ≡ e.memory)
      × (e'.files_left ≡ e.files_left - 1)
unfolding answer_command
promised_read c addr size e e' bytes said = ground arith

-- What the ECU promises of a write: one of two refusals, or the write.
pub promised_write :
    (c : EcuConfig) (addr : ℕ) (new : List ℕ) (e e' : Ecu) (bytes : List ℕ)
    → answer_command c (write_bytes addr new) e ≡ some (bytes, e')
    → ((e.session ≢ 3) × (bytes ≡ 0x7f ∷ 0x3d ∷ 0x7f ∷ []) × (e' ≡ e))
      ⊎ (((e.session ≡ 3)
            × (addr + length new < 4294967296)
            × ((leb c.memory.start_addr addr && leb (addr + length new) c.memory.end_addr) ≡ false)
            × (bytes ≡ 0x7f ∷ 0x3d ∷ 0x31 ∷ [])
            × (e' ≡ e))
          ⊎ ((e.session ≡ 3)
              × (c.memory.start_addr ≤ addr)
              × (addr + length new ≤ c.memory.end_addr)
              × (addr + length new ≤ length e.memory)
              × (0 < length new)
              × (0 < e.files_left)
              × (bytes ≡ 0x7d ∷ [])
              × (e'.session ≡ e.session)
              × (e'.memory ≡ splice addr new e.memory)
              × (e'.files_left ≡ e.files_left)))
unfolding answer_command
promised_write c addr new e e' bytes said = ground arith

pub length-timing_bytes : (uses : ℕ) → length (timing_bytes uses) ≡ 4
length-timing_bytes uses = ground arith

-- What the ECU promises of an entry that it reads.
pub record PromisedEntry (c : EcuConfig) (hi lo : ℕ) (d : DataIdentifier) (e e' : Ecu)
    (bytes : List ℕ) : Type 0 where
  pub above : c.memory.start_addr ≤ d.address
  pub below : d.address + d.size ≤ c.memory.end_addr
  pub room : d.address + d.size ≤ length e.memory
  pub some_byte : 0 < d.size
  pub few : d.size < 4094
  pub spare : 0 < e.files_left
  pub found : bytes ≡ 0x62 ∷ hi ∷ lo ∷ take d.size (drop d.address e.memory)
  pub same_session : e'.session ≡ e.session
  pub same_memory : e'.memory ≡ e.memory
  pub after : e'.files_left ≡ e.files_left - 1

promised_entry :
    (c : EcuConfig) (hi lo : ℕ) (d : DataIdentifier) (e e' : Ecu) (bytes : List ℕ)
    → answer_entry c hi lo d e ≡ some (bytes, e')
    → (IsOutside c d × (bytes ≡ 0x7f ∷ 0x22 ∷ 0x31 ∷ []) × (e' ≡ e))
      ⊎ PromisedEntry c hi lo d e e' bytes
promised_entry c hi lo d e e' bytes said =
    elim (Bool-cases
      (leb c.memory.start_addr d.address && leb (d.address + d.size) c.memory.end_addr)) [
        | inl inside ↦ inr (record {
          above = ground (arith, inside);
          below = ground (arith, inside);
          room = ground arith;
          some_byte = ground arith;
          few = ground arith;
          spare = ground arith;
          found = ground arith;
          same_session = ground arith;
          same_memory = ground arith;
          after = ground arith;
        })
        | inr outside ↦ inl ((ground arith, outside), ground arith, ground arith)
      ]

-- What the ECU promises of an identifier: the refusal, or the bytes of its entry.
pub promised_identifier :
    (c : EcuConfig) (hi lo : ℕ) (e e' : Ecu) (bytes : List ℕ)
    → answer_command c (read_identifier hi lo) e ≡ some (bytes, e')
    → (((last_entry (entries c) (hi * 256 + lo) ≡ none)
          ⊎ ((d : DataIdentifier) × (last_entry (entries c) (hi * 256 + lo) ≡ some d)
              × IsOutside c d))
        × (bytes ≡ 0x7f ∷ 0x22 ∷ 0x31 ∷ [])
        × (e' ≡ e))
      ⊎ ((d : DataIdentifier) × (last_entry (entries c) (hi * 256 + lo) ≡ some d)
          × PromisedEntry c hi lo d e e' bytes)
unfolding answer_command
promised_identifier c hi lo e e' bytes said =
    elim (Option-cases (last_entry (entries c) (hi * 256 + lo))) [
      | inl missing ↦ inl (inl missing, ground (arith, missing), ground (arith, missing))
      | inr (d, entry) ↦ elim (promised_entry c hi lo d e e' bytes (ground (arith, entry))) [
        | inl (outside, reply, same) ↦ inl (inr (d, entry, outside), reply, same)
        | inr p ↦ inr (d, entry, p)
      ]
    ]

-- What the ECU promises of an entry that it writes.
pub record HasWritten (c : EcuConfig) (hi lo : ℕ) (new : List ℕ) (d : DataIdentifier) (e e' : Ecu)
    (bytes : List ℕ) : Type 0 where
  pub below : d.address + d.size ≤ c.memory.end_addr
  pub room : d.address + d.size ≤ length e.memory
  pub whole : d.size ≡ length new
  pub some_byte : 0 < d.size
  pub few : d.size < 4094
  pub spare : 0 < e.files_left
  pub found : bytes ≡ 0x6e ∷ hi ∷ lo ∷ []
  pub same_session : e'.session ≡ e.session
  pub grown : e'.memory ≡ splice d.address new e.memory
  pub after : e'.files_left ≡ e.files_left

promised_write_entry :
    (c : EcuConfig) (hi lo : ℕ) (new : List ℕ) (d : DataIdentifier) (e e' : Ecu) (bytes : List ℕ)
    → answer_write_entry c hi lo new d e ≡ some (bytes, e')
    → HasWritten c hi lo new d e e' bytes
promised_write_entry c hi lo new d e e' bytes said = ground arith

-- What the ECU promises of a write by identifier: one of two refusals, or the write.
pub promised_write_identifier :
    (c : EcuConfig) (hi lo : ℕ) (new : List ℕ) (e e' : Ecu) (bytes : List ℕ)
    → answer_command c (write_identifier hi lo new) e ≡ some (bytes, e')
    → ((e.session ≢ 3) × (bytes ≡ 0x7f ∷ 0x2e ∷ 0x7f ∷ []) × (e' ≡ e))
      ⊎ (((e.session ≡ 3)
            × (last_entry (entries c) (hi * 256 + lo) ≡ none)
            × (bytes ≡ 0x7f ∷ 0x2e ∷ 0x31 ∷ [])
            × (e' ≡ e))
          ⊎ ((e.session ≡ 3)
              × ((d : DataIdentifier) × (last_entry (entries c) (hi * 256 + lo) ≡ some d)
                  × HasWritten c hi lo new d e e' bytes)))
unfolding answer_command
promised_write_identifier c hi lo new e e' bytes said = elim (Bool-cases (e.session == 3)) [
  | inr other ↦ inl (ground arith, ground arith, ground arith)
  | inl extended ↦
      let is_three : e.session ≡ 3 = ground arith in
      elim (Option-cases (last_entry (entries c) (hi * 256 + lo))) [
        | inl missing ↦
            inr (inl (is_three, missing, ground (arith, missing), ground (arith, missing)))
        | inr (d, entry) ↦ inr (
            inr (
              is_three,
              (d, entry, promised_write_entry c hi lo new d e e' bytes (ground (arith, entry))),
            ))
      ]
]
