-- ===== src/Server/Started.antt =====
-- What the server starts with.
use vdiag_server.Base.{ℕ, ◌+◌, ◌-◌, ◌<◌, ◌≡◌, some, List, ◌∷◌, length, arith, Option}
use vdiag_server.Base.Word.{u32}
use vdiag_server.Base.Exec.{done}
use vdiag_server.Can.Socket.{CanError, SocketState, Net, can_socket_open}
use vdiag_server.Config.{EcuConfig}
use vdiag_server.Config.Parse.{IniEntry, parse_config}
use vdiag_server.Config.Whole.{parse_config-IsWhole}
use vdiag_server.Config.Files.{Host, create_cfgdir, create_memfile}
use vdiag_server.Config.Files.Memfile.{Streams, IsHealthy, Padded, or_empty, create_memfile_lem}
use vdiag_server.Os.{Os}
use vdiag_server.Uds.Loader.{Linker, Loaded, uds_init}
use vdiag_server.Server.Start.{Hosts, Server, serving, get_home, cfgdir_of, can_timeout, startup}

-- The size that `main` asks of the memory file.
abbrev pub memory_size : EcuConfig → ℕ
memory_size c = u32 (c.memory.end_addr + 4294967296 - c.memory.start_addr)

-- The server over a socket, loaded handlers and a configuration.
abbrev pub server_of : SocketState → Loaded → EcuConfig → Server
server_of st loaded c = record {
  psock_state = record st { uioto = can_timeout };
  pstate = loaded;
  uds = record { ecucfg = c; client_addr = 0; uses = 0 };
}

module _ (net : Net) (os : Os) (host : Host os.State) (v : Streams host) (ld : Linker)
    (ini_parse : List ℕ → ℕ × List IniEntry) where
  -- With HOME set, a path given, a configuration that was parsed with either result, its directory
  -- there, a healthy host, an open socket and all handlers loaded, `main` enters its loop with no
  -- session, with that configuration, and with a memory file that `create_memfile` has padded to the
  -- difference of the two addresses.
  pub startup_lem :
      (home : Option (List ℕ)) (chome prog path : List ℕ) (more : List (List ℕ)) (r : ℕ)
      (c : EcuConfig) (h : Hosts net.State os.State ld.State) (files1 : os.State) (st : SocketState)
      (err : CanError) (wire' : net.State) (loaded : Loaded) (linker' : ld.State)
      → IsHealthy host v
      → get_home home ≡ some chome
      → parse_config ini_parse path ≡ done (r, c)
      → create_cfgdir host (cfgdir_of chome) h.files ≡ done (0, files1)
      → length (or_empty (v.content files1 c.memory.file_path)) < 9223372036854775808
      → can_socket_open net c.can.interface c.can.tx_id c.can.rx_id CanError.can_error_common h.wire
        ≡ done ((some st, err), wire')
      → uds_init ld c.uds.cimpl_libname h.linker ≡ done (loaded, linker')
      → (files' : os.State) × (startup net os host ld ini_parse home (prog ∷ path ∷ more) h
          ≡ done (
            serving (server_of st loaded c),
            record { wire = wire'; files = files'; linker = linker' },
          ))
        × (create_memfile host c.memory.file_path (memory_size c) files1 ≡ done (0, files'))
        × Padded host v c.memory.file_path (memory_size c) files1 files'
  unfolding startup
  startup_lem home chome prog path more r c h files1 st err wire' loaded linker' healthy at_home
        parsed dir short opened resolved =
      let (_, results) = parse_config-IsWhole ini_parse path r c parsed in
      let (files', made, left) =
        create_memfile_lem host v healthy c.memory.file_path (memory_size c) files1 (omega arith)
          short in
      (files', ground (arith, at_home, parsed, results, dir, made, opened, resolved), made, left)
