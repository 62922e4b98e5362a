-- ===== src/Ecu/Refines.antt =====
-- The server does what the ECU promises.
use vdiag_server.Handlers.DidMap.Lookup.{HasEntries}
use vdiag_server.Base.{ℕ, ◌<◌, ◌≡◌, some, List, ◌∷◌, inl, inr, arith, Option-cases}
use vdiag_server.Base.Ptr.{Ptr}
use vdiag_server.Can.{CanMessage, IsMessage}
use vdiag_server.Config.{EcuConfig}
use vdiag_server.Os.{Os}
use vdiag_server.Os.Files.{View, IsRegular}
use vdiag_server.Uds.Interface.{Locals}
use vdiag_server.Handlers.Std.{Machine}
use vdiag_server.Ecu.{
  Ecu, Command, open_session, tester_present, bad_length, read_identifier, write_identifier,
  other_service, read_bytes, write_bytes, answer_command, answer_all,
}
use vdiag_server.Ecu.Requests.{Asks, Ready, Stands, Answered}
use vdiag_server.Ecu.Answered.{session_answered, tester_answered, length_answered, other_answered}
use vdiag_server.Ecu.Reads.{read_answered, identifier_answered}
use vdiag_server.Ecu.Writes.{write_answered}
use vdiag_server.Ecu.WritesById.{write_identifier_answered}

module _ (os : Os) (v : View os) (reg : IsRegular os v) (stale : Ptr → Ptr)
    (intact : (p : Ptr) → stale p ≡ p) (c : EcuConfig) where
  pub command_answered :
      (l : Locals) (req : CanMessage) (cmd : Command) (m : Machine os.State) (e e' : Ecu)
      (bytes : List ℕ)
      → c.memory.end_addr < 4294967296
      → HasEntries c
      → IsMessage req
      → Stands os v c m e
      → Asks req cmd
      → Ready c l cmd
      → answer_command c cmd e ≡ some (bytes, e')
      → Answered os v stale c l req m bytes e'
  command_answered l req (open_session uses) m e e' bytes small counted msg w asks ready said =
      session_answered os v reg stale c l req uses m e e' bytes w asks said
  command_answered l req (tester_present sub) m e e' bytes small counted msg w asks ready said =
      tester_answered os v reg stale c l req sub m e e' bytes w asks said
  command_answered l req (bad_length sid) m e e' bytes small counted msg w asks ready said =
      length_answered os v reg stale c l req sid m e e' bytes counted msg w asks said
  command_answered l req (read_bytes addr size) m e e' bytes small counted msg w asks ready said =
      read_answered os v reg stale c l req addr size m e e' bytes small msg w asks said
  command_answered l req (write_bytes addr new) m e e' bytes small counted msg w asks ready said =
      write_answered os v reg stale intact c l req addr new m e e' bytes small msg w asks said
  command_answered l req (other_service sid) m e e' bytes small counted msg w asks ready said =
      other_answered os v reg stale c l req sid m e e' bytes w asks said
  command_answered l req (read_identifier hi lo) m e e' bytes small counted msg w asks ready said =
      identifier_answered os v reg stale c l req hi lo m e e' bytes small counted msg w asks said
  command_answered l req (write_identifier hi lo new) m e e' bytes small counted msg w asks ready
        said =
      write_identifier_answered os v reg stale c l req hi lo new m e e' bytes small counted msg w
        asks ready said

  pub answer_all-∷ :
      (cmd : Command) (cs : List Command) (e e' : Ecu) (responses : List (List ℕ))
      → answer_all c (cmd ∷ cs) e ≡ some (responses, e')
      → (bytes : List ℕ) × (e1 : Ecu) × (rest : List (List ℕ)) × (answer_command c cmd e
          ≡ some (bytes, e1))
        × (answer_all c cs e1 ≡ some (rest, e'))
        × (responses ≡ bytes ∷ rest)
  unfolding answer_all
  answer_all-∷ cmd cs e e' responses said = elim (Option-cases (answer_command c cmd e)) [
    | inl refused ↦ let bad : ⊥ = ground (arith, refused) in elim bad [ ]
    | inr ((bytes, e1), first) ↦ elim (Option-cases (answer_all c cs e1)) [
      | inl refused ↦ let bad : ⊥ = ground (arith, first, refused) in elim bad [ ]
      | inr ((rest, e2), others) ↦
          (bytes, e1, rest, first, ground (arith, first, others), ground (arith, first, others))
    ]
  ]
