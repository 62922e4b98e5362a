-- ===== src/Ecu/Requests.antt =====
-- Which requests stand for a command, and which machines for an ECU.
use vdiag_server.Base.{
  ℕ, ◌+◌, ◌/◌, ◌%◌, ◌≤◌, ◌<◌, ◌≡◌, ◌≢◌, ◌⊎◌, Option, true, some, List, [], length, take, drop,
}
use vdiag_server.Base.Exec.{done}
use vdiag_server.Base.Ptr.{Ptr}
use vdiag_server.Can.{CanMessage, byte, payload}
use vdiag_server.Config.{EcuConfig}
use vdiag_server.Memory.{check_memrange}
use vdiag_server.Os.{Os}
use vdiag_server.Os.Files.{View}
use vdiag_server.Uds.Codes.{UdsError}
use vdiag_server.Uds.Interface.{Locals}
use vdiag_server.Uds.Dispatch.{handle_msg}
use vdiag_server.Handlers.Region.{region_addr, region_size, header_size}
use vdiag_server.Handlers.Std.{Machine, std_handlers}
use vdiag_server.Handlers.Std.Write.{written_data}
use vdiag_server.Server.{zero_message}
use vdiag_server.Ecu.{
  Ecu, Command, open_session, write_identifier, tester_present, bad_length, read_bytes, write_bytes,
  read_identifier, other_service,
}

-- A request with a whole header for so many bytes from an address on.
pub record HasRegion (req : CanMessage) (addr size : ℕ) : Type 0 where
  pub addr_some : 0 < byte req 1 / 16
  pub addr_fits : byte req 1 / 16 ≤ 4
  pub size_some : 0 < byte req 1 % 16
  pub size_fits : byte req 1 % 16 ≤ 4
  pub complete : header_size req ≤ req.usz
  pub at_addr : region_addr req ≡ addr
  pub of_size : region_size req ≡ size

abbrev pub Asks : CanMessage → Command → Type 0
Asks req (open_session uses) = (byte req 0 ≡ 0x10) × (req.usz ≡ 2) × (byte req 1 ≡ uses)
Asks req (tester_present sub) = (byte req 0 ≡ 0x3e) × (req.usz ≡ 2) × (byte req 1 ≡ sub)
Asks req (bad_length sid) =
    (byte req 0 ≡ sid)
    × (0 < req.usz)
    × ((((sid ≡ 0x22) ⊎ (sid ≡ 0x2e)) × (req.usz < 3))
        ⊎ (((sid ≡ 0x10) ⊎ (sid ≡ 0x3e)) × (req.usz ≢ 2)))
Asks req (read_identifier hi lo) =
    (byte req 0 ≡ 0x22) × (3 ≤ req.usz) × (byte req 1 ≡ hi) × (byte req 2 ≡ lo)
Asks req (write_identifier hi lo bytes) =
    (byte req 0 ≡ 0x2e)
    × (req.usz ≡ 3 + length bytes)
    × (byte req 1 ≡ hi)
    × (byte req 2 ≡ lo)
    × (take (length bytes) (drop 3 req.pdata) ≡ bytes)
Asks req (other_service sid) = (byte req 0 ≡ sid) × (0 < req.usz)
Asks req (read_bytes addr size) = (byte req 0 ≡ 0x23) × HasRegion req addr size
Asks req (write_bytes addr bytes) =
    (byte req 0 ≡ 0x3d)
    × HasRegion req addr (length bytes)
    × (header_size req + length bytes ≤ req.usz)
    × (req.usz ≤ 4096)
    × (written_data req ≡ bytes)

-- What a command asks of the uninitialised variables: the server tests the range in `wrbi_param`
-- before it assigns it.
abbrev pub Ready : EcuConfig → Locals → Command → Type 0
Ready c l (write_identifier hi lo bytes) =
    check_memrange c.memory.start_addr c.memory.end_addr l.wrbi_param.uaddr l.wrbi_param.usz ≡ true
Ready c l _ = Unit

-- The machine that the server keeps for an ECU.
pub record Stands (os : Os) (v : View os) (c : EcuConfig) (m : Machine os.State) (e : Ecu)
    : Type 0 where
  pub config : m.uds.ecucfg ≡ c
  pub session : m.uds.uses ≡ e.session
  pub memory : v.content m.globals.fs c.memory.file_path ≡ some e.memory
  pub spare : v.spare m.globals.fs ≡ e.files_left

-- What is sent of a response: nothing after an error.
abbrev pub sent_bytes : UdsError → Option CanMessage → List ℕ
sent_bytes UdsError.no_error (some out) = payload out
sent_bytes _ _ = []

-- A response that fits its array.
abbrev pub Fits : CanMessage → Type 0
Fits out = (length out.pdata ≡ 4096) × (out.usz ≤ 4096)

-- A request is answered with bytes, and leaves a machine that stands for an ECU.
module _ (os : Os) (v : View os) (stale : Ptr → Ptr) (c : EcuConfig) where
  abbrev pub Answered : Locals → CanMessage → Machine os.State → List ℕ → Ecu → Type 0
  Answered l req m bytes e =
      (err : UdsError) × (out : CanMessage) × (m' : Machine os.State) × (handle_msg
          (std_handlers os stale) l true req (some zero_message) m
        ≡ done ((err, some out), m'))
      × (sent_bytes err (some out) ≡ bytes)
      × Fits out
      × Stands os v c m' e
