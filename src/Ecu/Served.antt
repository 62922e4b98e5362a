-- ===== src/Ecu/Served.antt =====
-- `main` of uds_server/src/uds_server.c as the ECU behind its socket, from its start on.
use vdiag_server.Base.{
  ℕ, ◌<◌, ◌≡◌, ◌∙◌, refl, false, some, Option, List, ◌∷◌, ◌++◌, length, take, All, ap, arith,
}
use vdiag_server.Base.Exec.{done}
use vdiag_server.Base.Ptr.{Ptr}
use vdiag_server.Can.Socket.{CanError, SocketState, Net, is_closed, can_socket_open}
use vdiag_server.Config.{EcuConfig}
use vdiag_server.Config.Files.{Host, create_cfgdir, create_memfile}
use vdiag_server.Config.Files.Memfile.{Streams, IsHealthy, padded, or_empty}
use vdiag_server.Config.Parse.{IniEntry, parse_config}
use vdiag_server.Config.Whole.{parse_config-IsWhole}
use vdiag_server.Os.{Os}
use vdiag_server.Os.Files.{View, IsRegular}
use vdiag_server.Uds.Interface.{Locals, Handlers}
use vdiag_server.Uds.Linked.{IsLibrary, handlers_of}
use vdiag_server.Uds.Loader.Resolved.{uds_init-IsLoaded, handlers_of-IsLoaded}
use vdiag_server.Handlers.Std.{Machine, std_handlers}
use vdiag_server.Handlers.DidMap.Configured.{IsWhole-HasEntries}
use vdiag_server.Config.Print.{IsTerminated}
use vdiag_server.Uds.Loader.{Linker, Loaded, uds_init}
use vdiag_server.Server.{World, rounds}
use vdiag_server.Server.Start.{Hosts, get_home, cfgdir_of, main, world_of}
use vdiag_server.Server.Started.{memory_size, server_of, startup_lem}
use vdiag_server.Ecu.{Ecu, Command, answer_all}
use vdiag_server.Ecu.Requests.{Stands}
use vdiag_server.Ecu.Wire.{Arrival, Line, Delivers, Arrive, heard}
use vdiag_server.Ecu.Round.{Reached}
use vdiag_server.Ecu.Rounds.{rounds-answer_all}

-- The ECU that the server starts as: in no session, over the memory file as it is padded.
abbrev pub fresh_ecu : EcuConfig → Option (List ℕ) → ℕ → Ecu
fresh_ecu c found files_left = record {
  session = 0;
  memory = padded (or_empty found) (memory_size c);
  files_left = files_left;
}

-- Files after the memory file was given to a stream that is closed again: the file holds what the
-- stream was given, and so descriptors are to spare.
pub record Flushed (os : Os) (v : View os) (host : Host os.State) (vs : Streams host)
    (c : EcuConfig) (files_left : ℕ) (files : os.State) : Type 0 where
  pub content : v.content files c.memory.file_path ≡ vs.content files c.memory.file_path
  pub spare : v.spare files ≡ files_left

module _ (net : Net) (line : Line net) (os : Os) (v : View os) (reg : IsRegular os v)
    (host : Host os.State) (vs : Streams host) (healthy : IsHealthy host vs) (ld : Linker)
    (ini_parse : List ℕ → ℕ × List IniEntry) (code : ℕ → Handlers (Machine os.State))
    (stale : Ptr → Ptr) (intact : (p : Ptr) → stale p ≡ p) where
  -- The program implements the ECU from its start on. With HOME set, a path given, a configuration
  -- that was parsed with either result, its directory there, a host on which no call fails and whose
  -- closed files hold what they were given, an open socket that `select` can watch and on which only
  -- `select` may fail, all handlers loaded, with the functions of std_handlers under their symbols, a
  -- configuration whose names of identifiers are terminated, a memory whose end address fits 32 bits, regular files, and arguments of setups
  -- that are still in place when they are used: `main` starts as an ECU in no session over the
  -- padded memory file. Where each of its rounds then finds nothing, an error of `select`, or a
  -- message of one to 4096 bytes that asks for the next of the commands that this ECU promises to
  -- answer, and the `wrbi_param` of a round with a write by identifier happens to hold a range of the
  -- memory, the rounds finish. The promised responses have been sent in order and nothing else, but
  -- for empty ones and those of rounds in which the socket cannot be written to, and the machine
  -- stands for the ECU after all the commands.
  pub main-answer_all :
      (ls : List Locals) (home : Option (List ℕ)) (chome prog path : List ℕ) (more : List (List ℕ))
      (r : ℕ) (c : EcuConfig) (h : Hosts net.State os.State ld.State) (files1 : os.State)
      (st : SocketState) (err : CanError) (wire' : net.State) (loaded : Loaded) (linker' : ld.State)
      (files_left : ℕ) (arrivals later : List Arrival) (cs : List Command) (e' : Ecu)
      (responses : List (List ℕ))
      → get_home home ≡ some chome
      → parse_config ini_parse path ≡ done (r, c)
      → create_cfgdir host (cfgdir_of chome) h.files ≡ done (0, files1)
      → length (or_empty (vs.content files1 c.memory.file_path)) < 9223372036854775808
      → ((files : os.State)
          → create_memfile host c.memory.file_path (memory_size c) files1 ≡ done (0, files)
          → Flushed os v host vs c files_left files)
      → can_socket_open net c.can.interface c.can.tx_id c.can.rx_id CanError.can_error_common h.wire
        ≡ done ((some st, err), wire')
      → uds_init ld c.uds.cimpl_libname h.linker ≡ done (loaded, linker')
      → IsLibrary ld code (std_handlers os stale)
      → All IsTerminated (take c.did_count c.did_names)
      → Delivers net line st.sockfd
      → is_closed st.sockfd ≡ false
      → c.memory.end_addr < 4294967296
      → line.due wire' ≡ arrivals ++ later
      → Arrive c ls arrivals cs
      → answer_all c cs (fresh_ecu c (vs.content files1 c.memory.file_path) files_left)
        ≡ some (responses, e')
      → (files' : os.State) × (w' : World net.State os.State) × (main net os host ld ini_parse code
            ls home
            (prog ∷ path ∷ more)
            h
          ≡ done (some w'))
        × Reached net line os v c
            (world_of net os host ld ini_parse
              (server_of st loaded c)
              (record { wire = wire'; files = files'; linker = linker' }))
            e'
            later
            (heard arrivals responses)
            w'
  unfolding main
  main-answer_all ls home chome prog path more r c h files1 st err wire' loaded linker' files_left
        arrivals later cs e' responses at_home parsed dir short flushed opened resolved library
        named delivers alive small next asks said =
      let (files', entered, made, pad) =
        startup_lem net os host vs ld ini_parse home chome prog path more r c h files1 st err wire'
          loaded linker' healthy at_home parsed dir short opened resolved in
      let whole = (parse_config-IsWhole ini_parse path r c parsed).0 in
      let kept = flushed files' made in
      let server = server_of st loaded c in
      let start =
        world_of net os host ld ini_parse server
          (record { wire = wire'; files = files'; linker = linker' }) in
      let e = fresh_ecu c (vs.content files1 c.memory.file_path) files_left in
      let stands : Stands os v c start.machine e = record {
        config = refl;
        session = refl;
        memory = kept.content ∙ pad.content;
        spare = kept.spare;
      } in
      let (w', ran, reached) =
        rounds-answer_all net line os v reg stale intact c server.psock_state delivers alive small
          (IsWhole-HasEntries c whole named) ls arrivals later cs start e e' responses stands next
          asks said in
      let std : handlers_of code loaded ≡ std_handlers os stale =
        handlers_of-IsLoaded ld code (std_handlers os stale) loaded linker' library
          (uds_init-IsLoaded ld c.uds.cimpl_libname h.linker linker' loaded resolved) in
      let called =
        ap (λ (k : Handlers (Machine os.State)). rounds net os k server.psock_state ls start) std
        ∙ ran in
      (files', w', ground (arith, entered, called), reached)
