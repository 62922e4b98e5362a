-- ===== src/Tests/Requests.antt =====
-- A configuration of an ECU with a memory of 16 bytes, its machine, and requests.
use vdiag_server.Base.{
  ℕ, ◌+◌, ◌<◌, ◌≡◌, refl, none, some, List, [], ◌∷◌, ◌++◌, length, replicate, All, All-append,
  length-append, length-replicate, arith, if◌then◌else◌,
}
use vdiag_server.Base.Ptr.{Ptr, wild}
use vdiag_server.Can.{CanMessage, IsMessage}
use vdiag_server.Can.Receive.{All-replicate}
use vdiag_server.Config.{DataIdentifier, EcuConfig}
use vdiag_server.Uds.Codes.{Nrc}
use vdiag_server.Uds.Interface.{Locals}
use vdiag_server.Config.Print.{c_string}
use vdiag_server.Handlers.DidMap.Lookup.{HasEntries}
use vdiag_server.Handlers.DidMap.{cleared}
use vdiag_server.Handlers.Std.{Machine}
use vdiag_server.Tests.Disk.{Disk, same_name}

abbrev pub memory_name : List ℕ
memory_name = 0x6d ∷ 0x65 ∷ 0x6d ∷ []

abbrev pub memory_bytes : List ℕ
memory_bytes = 0 ∷ 1 ∷ 2 ∷ 3 ∷ 4 ∷ 5 ∷ 6 ∷ 7 ∷ 8 ∷ 9 ∷ 10 ∷ 11 ∷ 12 ∷ 13 ∷ 14 ∷ 15 ∷ []

-- The identifier F1 00 names four bytes from 4 on.
abbrev pub did_f100 : DataIdentifier
did_f100 = record { address = 4; udid = 0xf100; size = 4; access_level = 1 }

-- The memory ends at `end_addr`.
abbrev config_to : ℕ → EcuConfig
config_to end_addr = record {
  can = record { interface = []; tx_id = 0x7e8; rx_id = 0x7e0; protocol = [] };
  uds = record { cimpl_libname = [] };
  memory = record { file_path = memory_name; start_addr = 0; end_addr = end_addr };
  data_identifiers = did_f100 ∷ [];
  did_names = (0x46 ∷ 0x31 ∷ 0x30 ∷ 0x30 ∷ 0 ∷ 0 ∷ 0 ∷ 0 ∷ []) ∷ [];
  did_count = 1;
  logging = record { level = []; file = [] };
}

abbrev pub config : EcuConfig
config = config_to 16

pub config-HasEntries : (end_addr : ℕ) → HasEntries (config_to end_addr)
unfolding c_string
config-HasEntries end_addr = record {
  identifiers = omega arith;
  names = omega arith;
  terminated = ((_, refl), tt);
}

abbrev pub disk_with : List ℕ → ℕ → Disk
disk_with bs spare = record {
  files = λ name. if same_name name memory_name then some bs else none;
  slot = none;
  spare = spare;
}

-- A machine with a memory up to an address, in a session, over a disk.
abbrev machine_to : ℕ → ℕ → Disk → Machine Disk
machine_to end_addr uses d = record {
  uds = record { ecucfg = config_to end_addr; client_addr = 0; uses = uses };
  globals = record { fs = d; dids = cleared };
}

abbrev pub machine_in : ℕ → Disk → Machine Disk
machine_in = machine_to 16

abbrev pub machine : ℕ → Machine Disk
machine uses = machine_in uses (disk_with memory_bytes 2)

-- A memory of 8192 bytes.
abbrev pub large_bytes : List ℕ
large_bytes = replicate 8192 0

abbrev pub large_machine : Machine Disk
large_machine = machine_to 8192 1 (disk_with large_bytes 2)

-- Uninitialised local variables whose pointers are wild.
abbrev pub locals : Locals
locals = record {
  tp_param = record { usubfnc = 0 };
  tp_res = record { rc = Nrc.positive_response; usubfnc = 0 };
  dsc_param = record { uses = 0 };
  dsc_res = record {
    rc = Nrc.positive_response;
    uses = 0;
    p2_server_max = 0;
    p2_star_server_max = 0;
  };
  rdba_param = record { usz = 0; uaddr = 0 };
  rdba_res = record { rc = Nrc.positive_response; pdata = wild; usz = 0 };
  rdbi_param = record { udid = 0; uaddr = 0; usz = 0 };
  rdbi_res = record { rc = Nrc.positive_response; udid = 0; pdata = wild; usz = 0 };
  wrba_param = record { uaddr = 0; usz = 0; pdata = wild };
  wrba_res = record { rc = Nrc.positive_response };
  wrbi_param = record { udid = 0; uaddr = 0; usz = 0; pdata = wild };
  wrbi_res = record { rc = Nrc.positive_response; udid = 0 };
}

-- Pointers into finished calls still work.
abbrev pub still : Ptr → Ptr
still p = p

-- A message of the given bytes, in an array of 4096.
abbrev pub message : List ℕ → ℕ → CanMessage
message bs rest = record { pdata = bs ++ replicate {A = ℕ} rest 0; usz = length bs }

pub message-IsMessage :
    (bs : List ℕ) (rest : ℕ)
    → length bs + rest ≡ 4096
    → All (λ b. b < 256) bs
    → IsMessage (message bs rest)
message-IsMessage bs rest whole small = record {
  full =
      omega (
        arith,
        length-append bs (replicate {A = ℕ} rest 0),
        length-replicate {A = ℕ} rest 0,
        whole,
      );
  bytes = All-append (λ b. b < 256) bs (replicate {A = ℕ} rest 0) small (All-replicate rest);
  word = omega arith;
}

-- Write and read two bytes at address 4, and the same with 3 as the service.
abbrev write_bytes : List ℕ
write_bytes = 0x3d ∷ 0x11 ∷ 4 ∷ 2 ∷ 0xaa ∷ 0xbb ∷ []

abbrev read_bytes : List ℕ
read_bytes = 0x23 ∷ 0x11 ∷ 4 ∷ 2 ∷ []

abbrev pub write_request : CanMessage
write_request = message write_bytes 4090

abbrev pub read_request : CanMessage
read_request = message read_bytes 4092

pub write_request-IsMessage : IsMessage write_request
write_request-IsMessage = message-IsMessage write_bytes 4090 refl (ground arith)

pub read_request-IsMessage : IsMessage read_request
read_request-IsMessage = message-IsMessage read_bytes 4092 refl (ground arith)

abbrev pub empty_response : CanMessage
empty_response = message [] 4096
