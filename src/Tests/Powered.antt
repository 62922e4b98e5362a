-- ===== src/Tests/Powered.antt =====
-- The server from its start, on the line, to a write that is read back.
use vdiag_server.Base.{
  true, ℕ, ◌≡◌, ◌∙◌, sym, refl, ap, some, none, List, [], ◌∷◌, replicate, arith,
}
use vdiag_server.Base.Exec.{done, pure-eq-done}
use vdiag_server.Can.Socket.{CanError, can_socket_open, set_nonblocking}
use vdiag_server.Config.Files.{create_memfile, grow}
use vdiag_server.Os.Files.{splice}
use vdiag_server.Handlers.Address.Value.{field_value}
use vdiag_server.Uds.Interface.{Handlers}
use vdiag_server.Handlers.Std.{Machine, std_handlers}
use vdiag_server.Server.{World}
use vdiag_server.Server.Start.{main, world_of}
use vdiag_server.Server.Started.{server_of}
use vdiag_server.Ecu.{
  Ecu, Command, open_session, read_bytes, write_bytes, answer_command, answer_all,
}
use vdiag_server.Ecu.Wire.{Arrival, timeout, message, Arrive}
use vdiag_server.Ecu.Round.{Reached}
use vdiag_server.Ecu.Served.{Flushed, fresh_ecu, main-answer_all}
use vdiag_server.Tests.Disk.{Disk, disk_os, disk_view, disk-IsRegular}
use vdiag_server.Tests.Library.{linker, linker-IsLibrary}
use vdiag_server.Tests.Line.{Wire, wire_net, wire_line, wire-Delivers, two_at_four}
use vdiag_server.Tests.Requests.{locals, still}
use vdiag_server.Tests.Start.{
  disk, disk_host, disk_streams, disk-IsHealthy, end_entry, home, read_end, dir_there, socket,
  loaded, handlers_loaded,
}

abbrev arrivals : List Arrival
arrivals =
    message (0x10 ∷ 0x03 ∷ []) true
    ∷ timeout
    ∷ message (0x3d ∷ 0x11 ∷ 4 ∷ 2 ∷ 0xaa ∷ 0xbb ∷ []) true
    ∷ message (0x23 ∷ 0x11 ∷ 4 ∷ 2 ∷ []) true
    ∷ []

abbrev code : ℕ → Handlers (Machine Disk)
code address = std_handlers disk_os still

abbrev commands : List Command
commands = open_session 3 ∷ write_bytes 4 (0xaa ∷ 0xbb ∷ []) ∷ read_bytes 4 2 ∷ []

abbrev wire : Wire
wire = record { due = arrivals; sent = []; is_clear = true }

abbrev responses : List (List ℕ)
responses =
    (0x50 ∷ 0x03 ∷ 0x00 ∷ 0x32 ∷ 0x13 ∷ 0x88 ∷ []) ∷ (0x7d ∷ []) ∷ (0x63 ∷ 0xaa ∷ 0xbb ∷ []) ∷ []

abbrev ecu_after : Ecu
ecu_after = record {
  session = 3;
  memory = splice 4 (0xaa ∷ 0xbb ∷ []) (replicate 16 0);
  files_left = 1;
}

made :
    (t : Disk) × (create_memfile disk_host (read_end.0).memory.file_path 16 disk ≡ done (0, t))
    × (t.spare ≡ 2)
unfolding create_memfile grow replicate read_end
made = (_, refl, refl)

flushed :
    (files : Disk)
    → create_memfile disk_host (read_end.0).memory.file_path 16 disk ≡ done (0, files)
    → Flushed disk_os disk_view disk_host disk_streams read_end.0 2 files
flushed files ran = record {
  content = refl;
  spare = sym (ap (λ (t : Disk). t.spare) (pure-eq-done (sym made.1 ∙ ran)).1) ∙ made.2;
}

socket_opened :
    can_socket_open wire_net
      (read_end.0).can.interface
      (read_end.0).can.tx_id
      (read_end.0).can.rx_id
      CanError.can_error_common
      wire
    ≡ done ((some socket, CanError.can_error_common), wire)
unfolding can_socket_open set_nonblocking read_end
socket_opened = refl

promised :
    answer_all read_end.0 commands (fresh_ecu read_end.0 none 2) ≡ some (responses, ecu_after)
unfolding answer_all answer_command read_end replicate
promised = refl

arrivals-Arrive : Arrive read_end.0 (replicate 4 locals) arrivals commands
unfolding field_value replicate
arrivals-Arrive = (
  record {
    some_byte = omega arith;
    short = omega arith;
    whole = ground arith;
    asks = (refl, refl, refl);
  },
  tt,
  (
    record {
      some_byte = omega arith;
      short = omega arith;
      whole = ground arith;
      asks = (refl, two_at_four 0x3d (0xaa ∷ 0xbb ∷ []), omega arith, omega arith, refl);
    },
    tt,
    (
      record {
        some_byte = omega arith;
        short = omega arith;
        whole = ground arith;
        asks = (refl, two_at_four 0x23 []);
      },
      tt,
      tt,
    ),
  ),
)

main-answer_all_example :
    (files' : Disk) × (w' : World Wire Disk) × (main wire_net disk_os disk_host linker end_entry
        code
        (replicate 4 locals)
        (some home)
        ([] ∷ [] ∷ [])
        (record { wire = wire; files = disk; linker = 0 })
      ≡ done (some w'))
    × Reached wire_net wire_line disk_os disk_view read_end.0
        (world_of wire_net disk_os disk_host linker end_entry
          (server_of socket loaded read_end.0)
          (record { wire = wire; files = files'; linker = 1 }))
        ecu_after
        []
        responses
        w'
unfolding read_end replicate
main-answer_all_example =
    main-answer_all wire_net wire_line disk_os disk_view disk-IsRegular disk_host disk_streams
      disk-IsHealthy linker end_entry code still (λ p. refl) (replicate 4 locals) (some home) home
      [] [] [] 1 read_end.0 (record { wire = wire; files = disk; linker = 0 }) disk socket
      CanError.can_error_common wire loaded 1 2 arrivals [] commands ecu_after responses refl
      read_end.1 dir_there (omega arith) flushed socket_opened handlers_loaded (linker-IsLibrary _)
      tt wire-Delivers refl (omega arith) refl arrivals-Arrive promised
