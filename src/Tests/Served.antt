-- ===== src/Tests/Served.antt =====
-- The server from its start to a round in which the extended session is asked for.
use vdiag_server.Base.{ℕ, ◌≡◌, refl, some, List, [], ◌∷◌, replicate}
use vdiag_server.Base.Exec.{done}
use vdiag_server.Can.Socket.{can_socket_open, set_nonblocking, can_socket_read, can_socket_write}
use vdiag_server.Config.{EcuConfig}
use vdiag_server.Config.Text.{same_ignoring_case, parse_hex}
use vdiag_server.Config.Parse.{handle_section, handler, handle_all, parse_config}
use vdiag_server.Config.Files.{create_cfgdir, create_memfile, grow}
use vdiag_server.Config.Whole.{IsWhole}
use vdiag_server.Uds.Codes.{code}
use vdiag_server.Uds.Interface.{Handlers}
use vdiag_server.Handlers.Std.{Machine, std_handlers}
use vdiag_server.Uds.Dispatch.{handle_msg, dispatch}
use vdiag_server.Uds.Loader.{load_symbols, uds_init}
use vdiag_server.Handlers.Dsc.{dsc_setup, dsc, dsc_pack}
use vdiag_server.Handlers.Std.Known.{IsKnown}
use vdiag_server.Server.{World, round, rounds}
use vdiag_server.Server.Start.{Server, startup, main, AllHosts}
use vdiag_server.Server.Start.Served.{Parsed, main-IsKnown}
use vdiag_server.Tests.Disk.{Disk, disk_os}
use vdiag_server.Tests.Library.{linker, linker-IsLibrary}
use vdiag_server.Tests.Requests.{locals, still}
use vdiag_server.Tests.Start.{disk, disk_host, end_entry, home}
use vdiag_server.Tests.Wire.{Bus, bus}

abbrev at_address : ℕ → Handlers (Machine Disk)
at_address address = std_handlers disk_os still

abbrev arguments : List (List ℕ)
arguments = [] ∷ [] ∷ []

served :
    (w : World Bus Disk) × (main bus disk_os disk_host linker end_entry at_address
        (locals ∷ [])
        (some home)
        arguments
        (record {
          wire = record { waiting = 0x10 ∷ 0x03 ∷ []; sent_bytes = [] };
          files = disk;
          linker = 0;
        })
      ≡ done (some w))
unfolding main startup parse_config handle_all handler handle_section same_ignoring_case parse_hex
    create_cfgdir create_memfile grow can_socket_open set_nonblocking uds_init load_symbols rounds
    round can_socket_read can_socket_write handle_msg dispatch code dsc_setup dsc dsc_pack replicate
served = (_, refl)

main-IsKnown_example :
    (c : EcuConfig) × Parsed bus disk_os disk_host linker end_entry arguments c
    × IsWhole c
    × IsKnown c served.0.machine
main-IsKnown_example =
    main-IsKnown bus disk_os disk_host linker end_entry at_address still (locals ∷ []) (some home)
      arguments
      (record {
        wire = record { waiting = 0x10 ∷ 0x03 ∷ []; sent_bytes = [] };
        files = disk;
        linker = 0;
      })
      served.0 (linker-IsLibrary _) served.1

abbrev first_hosts : AllHosts bus disk_os disk_host linker end_entry
first_hosts = record {
  wire = record { waiting = 0x10 ∷ 0x03 ∷ []; sent_bytes = [] };
  files = disk;
  linker = 0;
}
