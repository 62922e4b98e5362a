-- ===== src/Tests/Replies.antt =====
-- Requests that are answered on a disk without descriptors, and a response of bytes.
use vdiag_server.Base.{◌+◌, ◌<◌, ◌≡◌, refl, true, some, Option, [], ◌∷◌, arith}
use vdiag_server.Base.Exec.{done}
use vdiag_server.Can.{CanMessage}
use vdiag_server.Os.{Os}
use vdiag_server.Uds.Codes.{UdsError}
use vdiag_server.Uds.Dispatch.{handle_msg}
use vdiag_server.Uds.Dispatch.Replies.{IsReply}
use vdiag_server.Handlers.Address.Value.{field_value}
use vdiag_server.Handlers.Region.{header_size, region_size}
use vdiag_server.Handlers.DidMap.Lookup.{last_entry}
use vdiag_server.Handlers.Std.{Machine, std_handlers}
use vdiag_server.Handlers.Std.Session.{dsc_reply, session_control_lem}
use vdiag_server.Handlers.Std.Write.{with_files}
use vdiag_server.Handlers.Std.Replies.{handle_msg-IsReply}
use vdiag_server.Handlers.Std.Returns.{IsWriteReply, write_by_address_returns, handle_msg_returns}
use vdiag_server.Handlers.Std.Returns.Calls.{EntriesFit}
use vdiag_server.Tests.Disk.{Disk, disk_os, disk_read}
use vdiag_server.Tests.Requests.{
  config-HasEntries, config, memory_bytes, machine, machine_in, disk_with, locals, still, message,
  message-IsMessage, write_request, write_request-IsMessage, empty_response,
}
use vdiag_server.Tests.Wire.{bytes_of, bytes_of-All}

-- No file can be opened.
abbrev full_machine : Machine Disk
full_machine = machine_in 3 (disk_with memory_bytes 0)

write_header : header_size write_request + region_size write_request < 4294967296
unfolding field_value
write_header = omega arith

write_by_address_returns_example :
    (out : CanMessage) × (t : Disk) × (handle_msg
        (std_handlers disk_os still)
        locals
        true
        write_request
        (some empty_response)
        full_machine
      ≡ done ((UdsError.no_error, some out), with_files full_machine t))
    × IsWriteReply empty_response out
write_by_address_returns_example =
    write_by_address_returns disk_os still (λ p. refl) locals full_machine write_request
      empty_response write_request-IsMessage (omega arith) (omega arith) refl write_header

-- To write four bytes to the identifier F1 00.
abbrev f100_request : CanMessage
f100_request = message (0x2e ∷ 0xf1 ∷ 0x00 ∷ 1 ∷ 2 ∷ 3 ∷ 4 ∷ []) 4089

config_fits : EntriesFit config
unfolding last_entry
config_fits udid d looked = ground arith

handle_msg_returns_example :
    (reply : UdsError × Option CanMessage) × (m' : Machine Disk) × (handle_msg
        (std_handlers disk_os still)
        locals
        true
        f100_request
        (some empty_response)
        full_machine
      ≡ done (reply, m'))
handle_msg_returns_example =
    handle_msg_returns disk_os still locals full_machine f100_request empty_response (λ p. refl)
      (message-IsMessage (0x2e ∷ 0xf1 ∷ 0x00 ∷ 1 ∷ 2 ∷ 3 ∷ 4 ∷ []) 4089 refl (ground arith))
      (omega arith) (omega arith) (omega arith) (omega arith) (omega arith) (config-HasEntries 16)
      config_fits (λ s. refl)

-- The disk whose reads give bytes.
abbrev byte_os : Os
byte_os = record {
  State = Disk;
  open_file = disk_os.open_file;
  lseek = disk_os.lseek;
  read = λ fd n d. let (r, out, t) = disk_read fd n d in (r, bytes_of out, t);
  write = disk_os.write;
  close = disk_os.close;
  calloc = disk_os.calloc;
}

abbrev session_request : CanMessage
session_request = message (0x10 ∷ 0x03 ∷ []) 4094

handle_msg-IsReply_example : IsReply (dsc_reply session_request empty_response)
handle_msg-IsReply_example =
    handle_msg-IsReply byte_os still locals true session_request empty_response
      (dsc_reply session_request empty_response) UdsError.no_error (machine 1) (machine 3)
      (λ fd n d. bytes_of-All (disk_read fd n d).1) tt
      (message-IsMessage (0x10 ∷ 0x03 ∷ []) 4094 refl (ground arith))
      (record { message = message-IsMessage [] 4096 refl tt; fits = omega arith })
      (session_control_lem byte_os still locals (machine 1) session_request empty_response
        (omega arith) refl)
