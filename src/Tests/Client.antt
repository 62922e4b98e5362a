-- ===== src/Tests/Client.antt =====
-- A client that opens a session, writes, reads back by address and by identifier, asks for a service
-- that there is not, writes by identifier, and makes mistakes.
use vdiag_server.Base.{ℕ, ◌≡◌, refl, some, List, [], ◌∷◌}
use vdiag_server.Os.Files.{splice}
use vdiag_server.Handlers.DidMap.Lookup.{last_entry}
use vdiag_server.Handlers.Std.{Machine}
use vdiag_server.Ecu.{
  Ecu, Command, open_session, tester_present, bad_length, write_identifier, read_identifier,
  other_service, read_bytes, write_bytes, answer_command, answer_all,
}
use vdiag_server.Ecu.Requests.{Stands}
use vdiag_server.Tests.Disk.{Disk, disk_os, disk_view}
use vdiag_server.Tests.Requests.{config, memory_bytes, machine_in, disk_with}

abbrev pub commands : List Command
commands =
    open_session 3
    ∷ write_bytes 4 (0xaa ∷ 0xbb ∷ [])
    ∷ read_bytes 4 2
    ∷ other_service 0x27
    ∷ read_identifier 0xf1 0x00
    ∷ write_identifier 0xf1 0x00 (1 ∷ 2 ∷ 3 ∷ 4 ∷ [])
    ∷ tester_present 7
    ∷ bad_length 0x22
    ∷ []

abbrev pub ecu : Ecu
ecu = record { session = 1; memory = memory_bytes; files_left = 3 }

abbrev pub ecu_after : Ecu
ecu_after = record {
  session = 3;
  memory = splice 4 (1 ∷ 2 ∷ 3 ∷ 4 ∷ []) memory_bytes;
  files_left = 1;
}

abbrev pub responses : List (List ℕ)
responses =
    (0x50 ∷ 0x03 ∷ 0x00 ∷ 0x32 ∷ 0x13 ∷ 0x88 ∷ [])
    ∷ (0x7d ∷ [])
    ∷ (0x63 ∷ 0xaa ∷ 0xbb ∷ [])
    ∷ []
    ∷ (0x62 ∷ 0xf1 ∷ 0x00 ∷ 0xaa ∷ 0xbb ∷ 6 ∷ 7 ∷ [])
    ∷ (0x6e ∷ 0xf1 ∷ 0x00 ∷ [])
    ∷ (0x7f ∷ 0x3e ∷ 0x12 ∷ [])
    ∷ (0x7f ∷ 0x22 ∷ 0x13 ∷ [])
    ∷ []

pub promised : answer_all config commands ecu ≡ some (responses, ecu_after)
unfolding answer_all answer_command last_entry
promised = refl

-- Three files may be opened.
abbrev pub client_machine : Machine Disk
client_machine = machine_in 1 (disk_with memory_bytes 3)

pub machine-Stands : Stands disk_os disk_view config client_machine ecu
machine-Stands = record { config = refl; session = refl; memory = refl; spare = refl }
