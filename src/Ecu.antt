-- ===== src/Ecu.antt =====
-- What the server promises a diagnostic client: an ECU with a session and a memory, without messages,
-- files or descriptors but for the number of reads that are left.
pub mod Requests
pub mod Promises
pub mod Answered
pub mod Reads
pub mod Writes
pub mod WritesById
pub mod Refines
pub mod Wire
pub mod Calls
pub mod Round
pub mod Rounds
pub mod Served
use vdiag_server.Base.{
  ℕ, ◌+◌, ◌-◌, ◌*◌, Bool, ◌&&◌, ◌||◌, not, Option, none, some, List, [], ◌∷◌, length, take, drop,
  ltb, leb, ◌==◌, if◌then◌else◌,
}
use vdiag_server.Config.{DataIdentifier, EcuConfig, MemoryConfig}
use vdiag_server.Handlers.DidMap.Lookup.{last_entry, entries}
use vdiag_server.Os.Files.{splice}
use vdiag_server.Handlers.Std.Session.{is_known_session, timing_bytes}

pub record Ecu : Type 0 where
  pub session : ℕ
  pub memory : List ℕ
  pub files_left : ℕ

pub data Command : Type 0 where
  open_session : ℕ → Command
  -- With its sub-function.
  tester_present : ℕ → Command
  read_bytes : ℕ → ℕ → Command
  write_bytes : ℕ → List ℕ → Command
  -- By the two bytes of the identifier.
  read_identifier : ℕ → ℕ → Command
  write_identifier : ℕ → ℕ → List ℕ → Command
  -- A request of no length of the service: a session or TesterPresent not in two bytes, an
  -- identifier to read or to write in fewer than three.
  bad_length : ℕ → Command
  -- Any other service.
  other_service : ℕ → Command

-- The bytes of the response and the next state.
abbrev pub Answer : Type 0
Answer = Option (List ℕ × Ecu)

abbrev answer_session : ℕ → Ecu → Answer
answer_session uses e =
    if is_known_session uses
    then some (0x50 ∷ uses ∷ timing_bytes uses, record e { session = uses })
    else some (0x7f ∷ 0x10 ∷ 0x12 ∷ [], e)

abbrev answer_tester : ℕ → Ecu → Answer
answer_tester sub e =
    if sub == 0
    then some (0x7e ∷ 0x00 ∷ [], e)
    else if sub == 0x80
    then some ([], e)
    else some (0x7f ∷ 0x3e ∷ 0x12 ∷ [], e)

abbrev answer_bad_length : ℕ → Ecu → Answer
answer_bad_length sid e =
    if sid == 0x10 || (sid == 0x3e || (sid == 0x22 || sid == 0x2e))
    then some (0x7f ∷ sid ∷ 0x13 ∷ [], e)
    else none

-- A read outside the memory, of no bytes or of 4096 and more is not promised anything.
abbrev answer_read : MemoryConfig → ℕ → ℕ → Ecu → Answer
answer_read range addr size e =
    if leb range.start_addr addr
      && (leb (addr + size) range.end_addr
          && (leb (addr + size) (length e.memory)
              && (ltb 0 size && (ltb size 4096 && ltb 0 e.files_left))))
    then some (0x63 ∷ take size (drop addr e.memory), record e { files_left = e.files_left - 1 })
    else none

-- A write is refused outside the extended session, and outside the range; one whose end does not
-- fit 32 bits, of no bytes or past the memory is not promised anything.
abbrev answer_write : MemoryConfig → ℕ → List ℕ → Ecu → Answer
answer_write range addr bytes e =
    if not (e.session == 3)
    then some (0x7f ∷ 0x3d ∷ 0x7f ∷ [], e)
    else if leb 4294967296 (addr + length bytes)
    then none
    else if not (leb range.start_addr addr && leb (addr + length bytes) range.end_addr)
    then some (0x7f ∷ 0x3d ∷ 0x31 ∷ [], e)
    else if leb (addr + length bytes) (length e.memory)
        && (ltb 0 (length bytes) && ltb 0 e.files_left)
    then some (0x7d ∷ [], record e { memory = splice addr bytes e.memory })
    else none

-- An entry outside the configured memory is refused; one whose end does not fit 32 bits, of no bytes
-- or of 4094 and more, or past the memory is not promised anything.
abbrev pub answer_entry : EcuConfig → ℕ → ℕ → DataIdentifier → Ecu → Answer
answer_entry c hi lo d e =
    if leb 4294967296 (d.address + d.size)
    then none
    else if not (leb c.memory.start_addr d.address && leb (d.address + d.size) c.memory.end_addr)
    then some (0x7f ∷ 0x22 ∷ 0x31 ∷ [], e)
    else if leb (d.address + d.size) (length e.memory)
        && (ltb 0 d.size && (ltb d.size 4094 && ltb 0 e.files_left))
    then some (
      0x62 ∷ hi ∷ lo ∷ take d.size (drop d.address e.memory),
      record e { files_left = e.files_left - 1 },
    )
    else none

-- An identifier without an entry is refused.
abbrev answer_identifier : EcuConfig → ℕ → ℕ → Ecu → Answer
answer_identifier c hi lo e = elim (last_entry (entries c) (hi * 256 + lo)) [
  | none ↦ some (0x7f ∷ 0x22 ∷ 0x31 ∷ [], e)
  | some d ↦ answer_entry c hi lo d e
]

-- A write to an entry outside the configured memory or of another size is not promised anything.
abbrev pub answer_write_entry : EcuConfig → ℕ → ℕ → List ℕ → DataIdentifier → Ecu → Answer
answer_write_entry c hi lo bytes d e =
    if leb c.memory.start_addr d.address
      && (leb (d.address + d.size) c.memory.end_addr
          && (leb (d.address + d.size) (length e.memory)
              && (d.size == length bytes
                  && (ltb 0 d.size && (ltb d.size 4094 && ltb 0 e.files_left)))))
    then some (0x6e ∷ hi ∷ lo ∷ [], record e { memory = splice d.address bytes e.memory })
    else none

-- A write by identifier is refused outside the extended session, and without an entry.
abbrev answer_write_identifier : EcuConfig → ℕ → ℕ → List ℕ → Ecu → Answer
answer_write_identifier c hi lo bytes e =
    if not (e.session == 3)
    then some (0x7f ∷ 0x2e ∷ 0x7f ∷ [], e)
    else elim (last_entry (entries c) (hi * 256 + lo)) [
      | none ↦ some (0x7f ∷ 0x2e ∷ 0x31 ∷ [], e)
      | some d ↦ answer_write_entry c hi lo bytes d e
    ]

abbrev is_service : ℕ → Bool
is_service sid =
    sid == 0x10 || (sid == 0x22 || (sid == 0x23 || (sid == 0x3e || (sid == 0x3d || sid == 0x2e))))

-- A request to be quiet is not answered, nor is one for a service that there is not.
unfoldable pub answer_command : EcuConfig → Command → Ecu → Answer
answer_command c (open_session uses) e = answer_session uses e
answer_command c (tester_present sub) e = answer_tester sub e
answer_command c (bad_length sid) e = answer_bad_length sid e
answer_command c (read_bytes addr size) e = answer_read c.memory addr size e
answer_command c (write_bytes addr bytes) e = answer_write c.memory addr bytes e
answer_command c (read_identifier hi lo) e = answer_identifier c hi lo e
answer_command c (write_identifier hi lo bytes) e = answer_write_identifier c hi lo bytes e
answer_command c (other_service sid) e = if is_service sid then none else some ([], e)

-- A client's commands one after the other, and their responses.
unfoldable pub answer_all : EcuConfig → List Command → Ecu → Option (List (List ℕ) × Ecu)
answer_all config [] e = some ([], e)
answer_all config (c ∷ cs) e = elim (answer_command config c e) [
  | none ↦ none
  | some (bytes, e1) ↦ elim (answer_all config cs e1) [
    | none ↦ none
    | some (rest, e2) ↦ some (bytes ∷ rest, e2)
  ]
]
