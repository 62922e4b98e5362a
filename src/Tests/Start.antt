-- ===== src/Tests/Start.antt =====
-- The server started over the bus, the disk, a library that has every function, and a configuration.
use vdiag_server.Base.{
  ℕ, ◌≡◌, refl, true, Option, none, some, List, [], ◌∷◌, ◌++◌, length, replicate, arith,
}
use vdiag_server.Base.Word.{minus_one64}
use vdiag_server.Base.Exec.{done}
use vdiag_server.Os.{FileName, wronly}
use vdiag_server.Can.Socket.{CanError, SocketState, can_socket_open, set_nonblocking}
use vdiag_server.Config.{EcuConfig}
use vdiag_server.Config.Text.{same_ignoring_case, parse_hex}
use vdiag_server.Config.Parse.{
  IniEntry, memory_name, end_addr_name, handle_section, handler, handle_all, parse_config,
}
use vdiag_server.Config.Files.{Host, create_cfgdir, create_memfile}
use vdiag_server.Config.Files.Memfile.{Streams, IsHealthy, Padded, or_empty, create_memfile_lem}
use vdiag_server.Uds.Loader.{Loaded, all_symbols, load_symbols, uds_init}
use vdiag_server.Uds.Loader.Resolved.{addresses}
use vdiag_server.Server.Start.{serving, startup, cfgdir_of}
use vdiag_server.Server.Started.{server_of, startup_lem}
use vdiag_server.Tests.Disk.{Disk, disk_os, cursor_of, replace, replace_self, replace_other}
use vdiag_server.Tests.Library.{linker}
use vdiag_server.Tests.Requests.{disk_with, memory_bytes}
use vdiag_server.Tests.Wire.{Bus, bus}

abbrev put_file : Disk → FileName → List ℕ → Disk
put_file d name bs = record {
  files = replace d.files name bs;
  slot = some (name, wronly, 0);
  spare = d.spare;
}

abbrev disk_tell : ℕ → Disk → ℕ × Disk
disk_tell fd d = elim (cursor_of d fd) [
  | none ↦ (minus_one64, d)
  | some (name, mode, offset) ↦ (length (or_empty (d.files name)), d)
]

abbrev disk_append : ℕ → List ℕ → Disk → ℕ × Disk
disk_append fd new d = elim (cursor_of d fd) [
  | none ↦ (0, d)
  | some (name, mode, offset) ↦ (length new, put_file d name (or_empty (d.files name) ++ new))
]

-- Every directory is there, and no call fails.
abbrev pub disk_host : Host Disk
disk_host = record {
  stat = λ name d. (some true, d);
  mkdir = λ name d. (0, d);
  fopen = λ name d. (3, put_file d name (or_empty (d.files name)));
  seek_end = λ fd d. d;
  ftell = disk_tell;
  fwrite = disk_append;
  fclose = λ fd d. record { files = d.files; slot = none; spare = d.spare };
  calloc = λ n d. (true, d);
}

abbrev disk_stream : Disk → ℕ → Option FileName
disk_stream d fd = elim (cursor_of d fd) [ none ↦ none | some (name, mode, offset) ↦ some name ]

abbrev pub disk_streams : Streams disk_host
disk_streams = record { content = λ d. d.files; stream = disk_stream }

tell_works :
    (fd : ℕ) (d : Disk) (name : FileName) (bs : List ℕ)
    → disk_stream d fd ≡ some name
    → d.files name ≡ some bs
    → disk_tell fd d ≡ (length bs, d)
tell_works fd d name bs str con = ground arith

append_works :
    (fd : ℕ) (new : List ℕ) (d : Disk) (name : FileName) (bs : List ℕ)
    → disk_stream d fd ≡ some name
    → d.files name ≡ some bs
    → (disk_append fd new d ≡ (length new, put_file d name (bs ++ new))) × (fd ≡ 3)
append_works fd new d name bs str con = ground arith

pub disk-IsHealthy : IsHealthy disk_host disk_streams
disk-IsHealthy = record {
  fopen_ok = λ name d. (
    (λ e. ground arith),
    refl,
    replace_self d.files name _,
    λ other ne. replace_other d.files name other _ ne,
  );
  seek_end_ok =
      λ fd d name bs str con short. rw (tell_works fd d name bs str con) (refl, str, λ other. refl);
  fwrite_ok = λ fd new d name bs str con.
      let (ran, three) = append_works fd new d name bs str con in
      rw ran (
        refl,
        rw three refl,
        replace_self d.files name (bs ++ new),
        λ other ne. replace_other d.files name other (bs ++ new) ne,
      );
  fclose_ok = λ fd d name str other. refl;
  calloc_ok = λ n fd d pos. (refl, refl, λ other. refl);
}

-- `end_addr = 10` in the section of the memory: sixteen bytes in a file that is not there yet.
abbrev pub end_entry : List ℕ → ℕ × List IniEntry
end_entry filename =
    (0, record { section = memory_name; name = end_addr_name; value = 0x31 ∷ 0x30 ∷ [] } ∷ [])

unfoldable pub read_end : (c : EcuConfig) × (parse_config end_entry [] ≡ done (1, c))
unfolding parse_config handle_all handler handle_section same_ignoring_case parse_hex
read_end = (_, refl)

abbrev pub disk : Disk
disk = disk_with memory_bytes 2

abbrev pub home : List ℕ
home = 0x2f ∷ []

pub dir_there : create_cfgdir disk_host (cfgdir_of home) disk ≡ done (0, disk)
unfolding create_cfgdir
dir_there = refl

abbrev pub socket : SocketState
socket = record {
  sockfd = 5;
  proto = 6;
  uioto = 0;
  addr = record { can_family = 29; can_ifindex = 4; tx_id = 0; rx_id = 0 };
}

abbrev quiet : Bus
quiet = record { waiting = []; sent_bytes = [] }

socket_opened :
    can_socket_open bus
      (read_end.0).can.interface
      (read_end.0).can.tx_id
      (read_end.0).can.rx_id
      CanError.can_error_common
      quiet
    ≡ done ((some socket, CanError.can_error_common), quiet)
unfolding can_socket_open set_nonblocking read_end
socket_opened = refl

abbrev pub loaded : Loaded
loaded = record { puds_impl = 7; found = addresses linker 7 1 all_symbols }

pub handlers_loaded : uds_init linker (read_end.0).uds.cimpl_libname 0 ≡ done (loaded, 1)
unfolding uds_init load_symbols
handlers_loaded = refl

create_memfile_lem_example :
    (t : Disk) × (create_memfile disk_host home 16 disk ≡ done (0, t))
    × Padded disk_host disk_streams home 16 disk t
create_memfile_lem_example =
    create_memfile_lem disk_host disk_streams disk-IsHealthy home 16 disk (omega arith)
      (omega arith)

startup_lem_example :
    (files' : Disk) × (startup bus disk_os disk_host linker end_entry
        (some home)
        ([] ∷ [] ∷ [])
        (record { wire = quiet; files = disk; linker = 0 })
      ≡ done (
        serving (server_of socket loaded read_end.0),
        record { wire = quiet; files = files'; linker = 1 },
      ))
    × (create_memfile disk_host (read_end.0).memory.file_path 16 disk ≡ done (0, files'))
    × Padded disk_host disk_streams (read_end.0).memory.file_path 16 disk files'
unfolding read_end replicate
startup_lem_example =
    startup_lem bus disk_os disk_host disk_streams linker end_entry (some home) home [] [] [] 1
      read_end.0 (record { wire = quiet; files = disk; linker = 0 }) disk socket
      CanError.can_error_common quiet loaded 1 disk-IsHealthy refl read_end.1 dir_there
      (omega arith) socket_opened handlers_loaded
