-- ===== src/Server/Start/Served.antt =====
-- What holds whenever the server is in its loop.
use vdiag_server.Base.{
  ℕ, ap, sym, ◌∙◌, ◌+◌, ◌-◌, ◌≡◌, inl, inr, refl, Option, none, some, List, [], ◌∷◌, Option-cases,
  arith,
}
use mathlib.Core.Path.{subst}
use vdiag_server.Base.Word.{u32}
use vdiag_server.Base.Exec.{done, Exec-cases}
use vdiag_server.Base.Ptr.{Ptr}
use vdiag_server.Can.Socket.{CanError, SocketState, Net, can_socket_open}
use vdiag_server.Config.{EcuConfig}
use vdiag_server.Config.Parse.{IniEntry, parse_config}
use vdiag_server.Config.Whole.{IsWhole, parse_config-IsWhole}
use vdiag_server.Config.Files.{Host, create_cfgdir, create_memfile}
use vdiag_server.Os.{Os}
use vdiag_server.Uds.Interface.{Locals, Handlers}
use vdiag_server.Uds.Linked.{IsLibrary, handlers_of}
use vdiag_server.Handlers.Std.{Machine, std_handlers}
use vdiag_server.Uds.Loader.{Linker, Loaded, uds_init}
use vdiag_server.Uds.Loader.Resolved.{IsLoaded, uds_init-IsLoaded, handlers_of-IsLoaded}
use vdiag_server.Handlers.Std.Known.{IsKnown}
use vdiag_server.Server.{World, rounds}
use vdiag_server.Server.Loop.{rounds-IsKnown}
use vdiag_server.Server.Start.{
  Server, serving, exit_failure, get_home, startup, main, world_of, AllHosts, read_args, cfgdir_of,
  prepare_files, open_socket, load_handlers,
}

module _ (net : Net) (os : Os) (host : Host os.State) (ld : Linker)
    (ini_parse : List ℕ → ℕ × List IniEntry) where
  -- A fresh diagnostic state over a configuration, with a library that was loaded.
  abbrev Fresh : EcuConfig → Server → Type 0
  Fresh c server =
      (server.uds.ecucfg ≡ c) × (server.uds.uses ≡ 0) × (t : ld.State) × IsLoaded ld server.pstate t

  load_handlers-Fresh :
      (c : EcuConfig) (st : SocketState) (h h' : AllHosts net os host ld ini_parse)
      (server : Server)
      → load_handlers net os host ld ini_parse c st h ≡ done (serving server, h')
      → Fresh c server
  load_handlers-Fresh c st h h' server ran =
      elim (Exec-cases (uds_init ld c.uds.cimpl_libname h.linker)) [
        | inl stuck ↦ absurd (ground (arith, ran, stuck))
        | inr (loaded, t, ok) ↦
            let all = uds_init-IsLoaded ld c.uds.cimpl_libname h.linker t loaded ok in
            let same : loaded ≡ server.pstate = ground (arith, ran, ok) in
            (
              ground (arith, ran, ok),
              ground (arith, ran, ok),
              t,
              subst (λ (p : Loaded). IsLoaded ld p t) same all,
            )
      ]

  open_socket-Fresh :
      (c : EcuConfig) (h h' : AllHosts net os host ld ini_parse) (server : Server)
      → open_socket net os host ld ini_parse c h ≡ done (serving server, h')
      → Fresh c server
  open_socket-Fresh c h h' server ran =
      elim (Exec-cases (
        can_socket_open net c.can.interface c.can.tx_id c.can.rx_id CanError.can_error_common
          h.wire)) [
            | inl stuck ↦ absurd (ground (arith, ran, stuck))
            | inr ((none, err), t, ok) ↦ absurd (ground (arith, ran, ok))
            | inr ((some st, err), t, ok) ↦
                load_handlers-Fresh c st (record { wire = t; files = h.files; linker = h.linker })
                  h' server (ground (arith, ran, ok))
          ]

  prepare_files-Fresh :
      (c : EcuConfig) (dir : List ℕ) (h h' : AllHosts net os host ld ini_parse) (server : Server)
      → prepare_files net os host ld ini_parse c dir h ≡ done (serving server, h')
      → Fresh c server
  prepare_files-Fresh c dir h h' server ran = elim (Exec-cases (create_cfgdir host dir h.files)) [
    | inl stuck ↦ absurd (ground (arith, ran, stuck))
    | inr (r, t, made) ↦
        let size = u32 (c.memory.end_addr + 4294967296 - c.memory.start_addr) in
        elim (Exec-cases (create_memfile host c.memory.file_path size t)) [
          | inl stuck ↦ absurd (ground (arith, ran, made, stuck))
          | inr (r2, t2, padded) ↦
              open_socket-Fresh c (record { wire = h.wire; files = t2; linker = h.linker }) h'
                server (ground (arith, ran, made, padded))
        ]
  ]

  -- The configuration that was parsed from the first argument.
  abbrev pub Parsed : List (List ℕ) → EcuConfig → Type 0
  Parsed argv c =
      (prog : List ℕ) × (path : List ℕ) × (more : List (List ℕ)) × (r : ℕ) × (argv
        ≡ prog ∷ path ∷ more)
      × (parse_config ini_parse path ≡ done (r, c))

  read_args-Fresh :
      (argv : List (List ℕ)) (dir : List ℕ) (h h' : AllHosts net os host ld ini_parse)
      (server : Server)
      → read_args net os host ld ini_parse argv dir h ≡ done (serving server, h')
      → (c : EcuConfig) × Parsed argv c × Fresh c server
  read_args-Fresh [] dir h h' server ran = absurd (ground arith)
  read_args-Fresh (prog ∷ []) dir h h' server ran = absurd (ground arith)
  read_args-Fresh (prog ∷ path ∷ more) dir h h' server ran =
      elim (Exec-cases (parse_config ini_parse path)) [
        | inl stuck ↦ absurd (ground (arith, ran, stuck))
        | inr (r, c, parsed) ↦
            let (whole, results) = parse_config-IsWhole ini_parse path r c parsed in
            (
              c,
              (prog, path, more, r, refl, parsed),
              prepare_files-Fresh c dir h h' server (ground (arith, ran, parsed, results)),
            )
      ]

  startup-Fresh :
      (home : Option (List ℕ)) (argv : List (List ℕ)) (h h' : AllHosts net os host ld ini_parse)
      (server : Server)
      → startup net os host ld ini_parse home argv h ≡ done (serving server, h')
      → (c : EcuConfig) × Parsed argv c × Fresh c server
  unfolding startup
  startup-Fresh home argv h h' server ran = elim (Option-cases (get_home home)) [
    | inl missing ↦ absurd (ground (arith, ran, missing))
    | inr (chome, found) ↦
        read_args-Fresh argv (cfgdir_of chome) h h' server (ground (arith, ran, found))
  ]

  -- Whatever the environment, the files and the messages that arrive, and with the functions of
  -- std_handlers under the eighteen symbols that the linker finds: a server that is still in its
  -- loop after some rounds was given a path, still has the configuration that was parsed from there,
  -- which has its whole arrays with at most 50 identifiers counted, and is in no session or in one
  -- of the four.
  pub main-IsKnown :
      (code : ℕ → Handlers (Machine os.State)) (stale : Ptr → Ptr) (ls : List Locals)
      (home : Option (List ℕ)) (argv : List (List ℕ)) (h : AllHosts net os host ld ini_parse)
      (w : World net.State os.State)
      → IsLibrary ld code (std_handlers os stale)
      → main net os host ld ini_parse code ls home argv h ≡ done (some w)
      → (c : EcuConfig) × Parsed argv c × IsWhole c × IsKnown c w.machine
  unfolding main
  main-IsKnown code stale ls home argv h w library ran =
      elim (Exec-cases (startup net os host ld ini_parse home argv h)) [
        | inl stuck ↦ absurd (ground (arith, ran, stuck))
        | inr (exit_failure, h', left) ↦ absurd (ground (arith, ran, left))
        | inr (serving server, h', entered) ↦
            let (c, parsed, fresh) = startup-Fresh home argv h h' server entered in
            let start = world_of net os host ld ini_parse server h' in
            let called = handlers_of code server.pstate in
            let std : called ≡ std_handlers os stale =
              handlers_of-IsLoaded ld code (std_handlers os stale) server.pstate fresh.2 library
                fresh.3 in
            elim (Exec-cases (rounds net os called server.psock_state ls start)) [
              | inl stuck ↦ absurd (ground (arith, ran, entered, stuck))
              | inr (u, w', went) ↦
                  let same : w' ≡ w = ground (arith, ran, entered, went) in
                  let whole = (parse_config-IsWhole ini_parse parsed.1 parsed.3 c parsed.5).0 in
                  (
                    c,
                    parsed,
                    whole,
                    subst (λ (x : World net.State os.State). IsKnown c x.machine) same
                        (rounds-IsKnown net os stale server.psock_state c ls start w'
                          (record { session = ground (arith, fresh.1); config = fresh.0 })
                          (ap
                              (λ (k : Handlers (Machine os.State)).
                                rounds net os k server.psock_state ls start)
                              (sym std)
                            ∙ went)),
                  )
            ]
      ]
