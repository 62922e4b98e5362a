-- ===== src/Server/Start.antt =====
-- uds_server/src/uds_server.c: what `main` does before its loop, and the signal handler. Of the
-- environment the model takes the variable HOME.
pub mod Served
use vdiag_server.Base.{ℕ, ◌+◌, ◌-◌, Option, none, some, List, [], ◌∷◌, ◌++◌, take, if◌then◌else◌}
use vdiag_server.Base.Word.{u32, is_negative}
use vdiag_server.Base.Exec.{Outcome, done, undefined, Exec, pure, fault, ◌>>=◌, ◌>>◌}
use vdiag_server.Can.Socket.{CanError, SocketState, Net, can_socket_open, can_socket_close}
use vdiag_server.Config.{EcuConfig}
use vdiag_server.Config.Parse.{IniEntry, parse_config}
use vdiag_server.Config.Files.{Host, create_cfgdir, create_memfile}
use vdiag_server.Os.{Os}
use vdiag_server.Uds.{UdsState}
use vdiag_server.Uds.Interface.{Locals, Handlers}
use vdiag_server.Uds.Loader.{Linker, Loaded, uds_init, uds_deinit}
use vdiag_server.Uds.Linked.{handlers_of}
use vdiag_server.Handlers.Std.{Machine}
use vdiag_server.Handlers.DidMap.{cleared}
use vdiag_server.Server.{World, rounds}

abbrev pub can_timeout : ℕ
can_timeout = 1000

-- ".local/vds/state"
abbrev pub configs_default_dir : List ℕ
configs_default_dir =
    0x2e ∷ 0x6c ∷ 0x6f ∷ 0x63 ∷ 0x61 ∷ 0x6c ∷ 0x2f ∷ 0x76 ∷ 0x64 ∷ 0x73 ∷ 0x2f ∷ 0x73 ∷ 0x74 ∷ 0x61
    ∷ 0x74 ∷ 0x65 ∷ []

-- From the value of HOME, if it is set.
abbrev pub get_home : Option (List ℕ) → Option (List ℕ)
get_home none = none
get_home (some []) = none
get_home (some (c ∷ cs)) = some (c ∷ cs)

-- `snprintf(cfgdir, 256, "%s/%s", chome, CONFIGS_DEFAULT_DIR)`
abbrev pub cfgdir_of : List ℕ → List ℕ
cfgdir_of chome = take 255 (chome ++ (0x2f ∷ configs_default_dir))

-- The state of everything that the server calls.
pub record Hosts (N F L : Type 0) : Type 0 where
  pub wire : N
  pub files : F
  pub linker : L

abbrev pub on_wire : {N F L A : Type 0} → Exec N A → Exec (Hosts N F L) A
on_wire step h = elim (step h.wire) [
  | undefined ↦ undefined
  | done (a, t) ↦ done (a, record { wire = t; files = h.files; linker = h.linker })
]

abbrev pub on_disk : {N F L A : Type 0} → Exec F A → Exec (Hosts N F L) A
on_disk step h = elim (step h.files) [
  | undefined ↦ undefined
  | done (a, t) ↦ done (a, record { wire = h.wire; files = t; linker = h.linker })
]

abbrev pub on_linker : {N F L A : Type 0} → Exec L A → Exec (Hosts N F L) A
on_linker step h = elim (step h.linker) [
  | undefined ↦ undefined
  | done (a, t) ↦ done (a, record { wire = h.wire; files = h.files; linker = t })
]

-- `psock_state`, and `pstate` with the object behind it.
pub record Server : Type 0 where
  pub psock_state : SocketState
  pub pstate : Loaded
  pub uds : UdsState

-- Either `main` has returned EXIT_FAILURE, or it enters its loop.
pub data Start : Type 0 where
  exit_failure : Start
  serving : Server → Start

module _ (net : Net) (os : Os) (host : Host os.State) (ld : Linker)
    (ini_parse : List ℕ → ℕ × List IniEntry) where
  abbrev pub AllHosts : Type 0
  AllHosts = Hosts net.State os.State ld.State

  -- With a socket: the timeout, the handlers, and the configuration in the zeroed `uds_state_t`.
  abbrev load_handlers : EcuConfig → SocketState → Exec AllHosts Start
  load_handlers ecucfg st = do
    pstate ← on_linker (uds_init ld ecucfg.uds.cimpl_libname)
    pure (
        serving (record {
          psock_state = record st { uioto = can_timeout };
          pstate = pstate;
          uds = record { ecucfg = ecucfg; client_addr = 0; uses = 0 };
        }))

  abbrev open_socket : EcuConfig → Exec AllHosts Start
  open_socket ecucfg = do
    (psock_state, err) ← on_wire (
        can_socket_open net ecucfg.can.interface ecucfg.can.tx_id ecucfg.can.rx_id
          CanError.can_error_common)
    elim psock_state [ none ↦ pure exit_failure | some st ↦ load_handlers ecucfg st ]

  -- With a configuration. The size of the memory file is a difference of two `uint32_t`.
  abbrev prepare_files : EcuConfig → List ℕ → Exec AllHosts Start
  prepare_files ecucfg cfgdir = do
    ierr ← on_disk (create_cfgdir host cfgdir)
    if is_negative ierr then pure exit_failure else do
      ierr2 ← on_disk (
          create_memfile host ecucfg.memory.file_path
            (u32 (ecucfg.memory.end_addr + 4294967296 - ecucfg.memory.start_addr)))
      if is_negative ierr2 then pure exit_failure else open_socket ecucfg

  -- The tests on the result of `parse_config`.
  abbrev read_config : List ℕ → List ℕ → Exec AllHosts Start
  read_config path cfgdir h = elim (parse_config ini_parse path) [
    | undefined ↦ undefined
    | done (ierr, ecucfg) ↦
        (if is_negative ierr then pure exit_failure else prepare_files ecucfg cfgdir) h
  ]

  -- The arguments, the program's name first. A null `chome` is printed to `cfgdir` all the same,
  -- before they are counted: that is undefined.
  abbrev read_args : List (List ℕ) → List ℕ → Exec AllHosts Start
  read_args [] cfgdir = pure exit_failure
  read_args (prog ∷ []) cfgdir = pure exit_failure
  read_args (prog ∷ path ∷ more) cfgdir = read_config path cfgdir

  unfoldable pub startup : Option (List ℕ) → List (List ℕ) → Exec AllHosts Start
  startup home argv = elim (get_home home) [
    | none ↦ fault
    | some chome ↦ read_args argv (cfgdir_of chome)
  ]

  -- The world that the loop starts from. The table of identifiers is zeroed.
  abbrev pub world_of : Server → AllHosts → World net.State os.State
  world_of server h = record {
    wire = h.wire;
    machine = record { uds = server.uds; globals = record { fs = h.files; dids = cleared } };
  }

  -- `main` up to some rounds of its loop: nothing where it has returned before. The handlers are
  -- called through the pointers of `pstate`; `code` has what is at an address.
  unfoldable pub main :
      (ℕ → Handlers (Machine os.State))
      → List Locals
      → Option (List ℕ)
      → List (List ℕ)
      → AllHosts
      → Outcome (Option (World net.State os.State))
  main code ls home argv h = elim (startup home argv h) [
    | undefined ↦ undefined
    | done (exit_failure, h') ↦ done none
    | done (serving server, h') ↦
        elim (rounds net os (handlers_of code server.pstate) server.psock_state ls
          (world_of server h')) [ undefined ↦ undefined | done (u, w) ↦ done (some w) ]
  ]

  -- What is left in `psock_state`. `uds_deinit` leaves `pstate` as it is.
  unfoldable pub uds_server_stop :
      Option SocketState → Option Loaded → Exec AllHosts (Option SocketState)
  uds_server_stop psock_state pstate = do
    left ← on_wire (can_socket_close net psock_state)
    on_linker (uds_deinit ld pstate)
    pure left

  -- The status that the process exits with.
  unfoldable pub signal_handler : ℕ → Option SocketState → Option Loaded → Exec AllHosts ℕ
  signal_handler sig psock_state pstate = do left ← uds_server_stop psock_state pstate; pure sig
