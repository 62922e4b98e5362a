-- ===== src/Lib.antt =====
-- A virtual diagnostic server: a CAN socket receives ISO-TP messages, a dispatcher hands each to one
-- of six UDS services (ISO 14229-1), the services read and write the memory of an ECU, which is a
-- file, and the socket sends the response.
--
-- The parts, and how they correspond to the code:
-- - Base: the notions of C that the parts share. `Base.Word` has the wrap-around of fixed-width
--   integers: every integer is a natural number, and a signed result is the bit pattern of its width
--   (-1 of 32 bits is 4294967295). `Base.Exec` is the monad of statements: a run ends in `done` with
--   a result and a state, or is `undefined` where C leaves the behaviour undefined (an access out of
--   bounds, through a null or a wild pointer, or after a `free`). `Base.Ptr` has pointers to bytes.
-- - Os: the system calls on files, and `calloc`, as a record of functions over an unknown state.
--   `Os.Files` states what the theorems ask of them: `IsRegular` is the documented behaviour on
--   regular files without I/O errors, in terms of an observer of contents, offsets and free
--   descriptors; `OnlyWriteChanges` says that calls other than `write` keep the contents, whatever
--   they return.
-- - Memory: uds_handlers/src/utils.c (check_memrange, write_memory, read_memory).
-- - Can: uds_server/inc/can.h and uds_server/src/can.c. The socket calls are the record `Net`, and
--   `ReadsBytes` the documented result of `read`. The label `err` of can_socket_open, reached with a
--   socket, is `close_freed`; FD_SET of a descriptor of FD_SETSIZE or more is undefined.
-- - Config: the structures of uds_server/inc/ecu_config.h, and how uds_server/src/ecu_config.c fills
--   them from the entries of an ini file. `Config.Text` has the functions of the C library that it
--   uses on strings. The ini library is a parameter: its result, and the entries that it hands to
--   the callback in order. `Config.Files` has create_cfgdir and create_memfile of the same file, over
--   the calls on streams and directories as a record `Host`. `Config.Print` has print_config as a
--   function of the text that is printed already, with the conversions %s, %d, %X and %04X.
-- - Uds: uds_server/inc/uds.h, uds_server/inc/uds_def.h and uds_handle_msg of uds_server/src/uds.c.
--   `Uds.Interface` is what the dispatcher knows of a service: setup, call and pack of each
--   uds_server/inc/*_def.h, with their parameters and results. `Uds.Dispatch.Cases` is its client's
--   view, one lemma for each service; `Uds.Dispatch.Invariant` the rule for what all requests keep,
--   `Uds.Dispatch.Replies` the rule for what is true of all responses. `Uds.Loader` is uds_init, with
--   the macros of uds.h, and uds_deinit, over the dynamic linker as a record `Linker`. `Uds.Linked`
--   has the function pointers that these assign, through which main calls the handlers: what is at
--   an address is a parameter, and `IsLibrary` says that the linker finds the functions of
--   `Handlers.Std` under their symbols.
-- - Handlers: uds_handlers/src/*_handler.c and did_map.c, one file for each (Tp, Dsc, Rdba, Rdbi,
--   Wrba, Wrbi, DidMap). `Handlers.Std` puts them together as the implementation of
--   `Uds.Interface.Handlers`, and its children show what a request does from end to end.
--   `Handlers.Address` is the text that the setups of rdba and wrba have in common.
-- - Server: uds_server/src/uds_server.c. `Server` itself is the loop of main, `Server.Start` what main
--   does before it, uds_server_stop and the signal handler. The variable HOME is an argument.
-- - Mocks: mocks/src/*.c, the stand-ins for system calls that the tests link. `mocked_os` and
--   `mocked_net` put them in front of an operating system and of a network, so that every theorem
--   about the code over any of these holds over them too. What the real `fcntl` reads in place of
--   the argument that its stand-in drops is the parameter `left_over`.
-- - Ecu: the specification of a client's view, an ECU with a session and a memory of bytes that
--   answers commands, without messages, files or descriptors but for the number of reads left.
--   `Ecu.Requests` relates requests to commands and machines to ECUs. What a command to write by
--   identifier needs of an uninitialised variable is `Ready`. `Ecu.Wire` puts the ECU behind its
--   socket: what arrives in the rounds of main is a list, one element for each round, and
--   `Delivers` is the documented behaviour of `select`, `read` and `write`, of which only `select`
--   may fail. `Ecu.Rounds` is about the loop of main from any state that stands for an ECU,
--   `Ecu.Served` about main from its start.
--
-- State: `UdsState` is the object behind `puds`, without its function pointers; `Globals` has the
-- files and DATA_IDENTIFIER_MAP; `Machine` is both; `World` adds the network. The functions return
-- what they store through pointers. A null pointer to a structure is `none`.
--
-- Assumptions that theorems name where they need them:
-- - `Locals` is what the uninitialised local variables of uds_handle_msg hold: the code reads some.
-- - `stale` says what a pointer into an argument of a finished call still points at: uds_wrba_setup
--   stores such a pointer. `intact` is the hypothesis that it is as it was.
-- - `IsMessage` is what the C type says of a message, an array of 4096 bytes and a 32-bit length.
--
-- Loops: the byte loops of the fields, the loop over three tokens, and the loop over the identifiers
-- recurse on the rounds that are left, which the code fixes before each; `rounds` takes the number of
-- rounds from its list, and its theorems hold for every list. The digits of a printed number recurse
-- on their greatest number, 8 for a 32-bit number in base 16 and 5 for a 16-bit one in base 10.
--
-- Not modelled: printing, except for print_config, the bytes that print_hex reads and the names that
-- init_mapping prints; a strdup that fails; the registration of the signal handler, and the order in
-- which it closes the socket and the library, which are independent components here; the pause
-- between rounds; what becomes of a freed block; the null pointer that uds_init means to return,
-- since it is undefined on every failure; the tests.
pub mod Base
pub mod Can
pub mod Uds
pub mod Config
pub mod Os
pub mod Memory
pub mod Mocks
pub mod Handlers
pub mod Ecu
pub mod Server
pub mod Tests
