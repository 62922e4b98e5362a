-- ===== src/Tests/Services.antt =====
-- Requests to the six services, over the disk.
use vdiag_server.Base.{
  ℕ, ◌+◌, ◌<◌, ◌≤◌, ◌≡◌, inr, refl, true, false, Option, some, [], ◌∷◌, length, take, drop, arith,
}
use vdiag_server.Base.Exec.{done, undefined}
use vdiag_server.Can.{CanMessage, put}
use vdiag_server.Memory.Write.{Written}
use vdiag_server.Memory.Read.{Unchanged}
use vdiag_server.Uds.Codes.{code, UdsError, is_positive}
use vdiag_server.Uds.Dispatch.{handle_msg, dispatch}
use vdiag_server.Handlers.Wrba.{wrba_setup, wrba_pack}
use vdiag_server.Handlers.Address.Value.{field_value}
use vdiag_server.Handlers.Region.{IsRegion, IsWrite, region_addr, region_size}
use vdiag_server.Handlers.Std.{Machine, std_handlers}
use vdiag_server.Handlers.Std.Write.{with_files, written_data, write_by_address_lem}
use vdiag_server.Handlers.Std.Read.{read_by_address_lem}
use vdiag_server.Handlers.Std.RoundTrip.{read_after_write}
use vdiag_server.Handlers.Std.Session.{session_control_lem, dsc_reply}
use vdiag_server.Handlers.Std.Locked.{files_locked}
use vdiag_server.Handlers.Rdba.{rdba_setup}
use vdiag_server.Handlers.Std.Faults.{read_refused_undefined, read_failed_undefined}
use vdiag_server.Tests.Disk.{Disk, disk_os, disk_view, disk-IsRegular, disk-OnlyWriteChanges}
use vdiag_server.Tests.Requests.{
  memory_name, memory_bytes, machine, machine_in, disk_with, locals, still, message, write_request,
  read_request, write_request-IsMessage, read_request-IsMessage, empty_response,
}

read_request-IsRegion : (uses : ℕ) → IsRegion (machine uses).uds read_request
unfolding field_value
read_request-IsRegion uses = record {
  addr_some = omega arith;
  addr_fits = omega arith;
  size_some = omega arith;
  size_fits = omega arith;
  complete = omega arith;
  above = omega arith;
  below = omega arith;
}

write_request-IsWrite : IsWrite (machine 3).uds write_request
unfolding field_value
write_request-IsWrite = record {
  region = record {
    addr_some = omega arith;
    addr_fits = omega arith;
    size_some = omega arith;
    size_fits = omega arith;
    complete = omega arith;
    above = omega arith;
    below = omega arith;
  };
  extended = refl;
  has_data = omega arith;
}

region_size-some : 0 < region_size write_request
unfolding field_value
region_size-some = omega arith

region_end : region_addr write_request + region_size write_request ≤ length memory_bytes
unfolding field_value
region_end = omega arith

-- The read request's region: some bytes, few enough, all of them in the file.
read_region :
    (0 < region_size read_request)
    × (region_size read_request < 4096)
    × (region_addr read_request + region_size read_request ≤ length memory_bytes)
unfolding field_value
read_region = (omega arith, omega arith, omega arith)

same_region :
    (region_addr read_request ≡ region_addr write_request)
    × (region_size read_request ≡ region_size write_request)
unfolding field_value
same_region = (refl, refl)

read_after_write_example :
    (t u : Disk) × (handle_msg
        (std_handlers disk_os still)
        locals
        true
        write_request
        (some empty_response)
        (machine 3)
      ≡ done
          ((UdsError.no_error, some (put empty_response (0x7d ∷ []) 1)), with_files (machine 3) t))
    × (handle_msg
          (std_handlers disk_os still)
          locals
          true
          read_request
          (some empty_response)
          (with_files (machine 3) t)
        ≡ done (
          (
            UdsError.no_error,
            some (
                put empty_response
                  (0x63 ∷ written_data write_request)
                  (1 + region_size read_request)),
          ),
          with_files (machine 3) u,
        ))
read_after_write_example =
    read_after_write disk_os disk_view disk-IsRegular still (λ p. refl) locals locals (machine 3)
      write_request read_request empty_response empty_response memory_bytes write_request-IsMessage
      read_request-IsMessage (omega arith) refl refl write_request-IsWrite (read_request-IsRegion 3)
      same_region.0 same_region.1 (omega arith) region_size-some refl (omega arith) region_end

write_by_address_lem_example :
    (t : Disk) × (handle_msg
        (std_handlers disk_os still)
        locals
        true
        write_request
        (some empty_response)
        (machine 3)
      ≡ done
          ((UdsError.no_error, some (put empty_response (0x7d ∷ []) 1)), with_files (machine 3) t))
    × Written disk_os disk_view memory_name
        (region_addr write_request)
        (written_data write_request)
        memory_bytes
        (machine 3).globals.fs
        t
write_by_address_lem_example =
    write_by_address_lem disk_os disk_view disk-IsRegular still (λ p. refl) locals (machine 3)
      write_request empty_response memory_bytes write_request-IsMessage (omega arith) refl
      write_request-IsWrite (omega arith) region_size-some refl (omega arith) region_end

read_by_address_lem_example :
    (t : Disk) × (handle_msg
        (std_handlers disk_os still)
        locals
        true
        read_request
        (some empty_response)
        (machine 1)
      ≡ done (
        (
          UdsError.no_error,
          some (
              put empty_response
                (0x63
                  ∷ take (region_size read_request) (drop (region_addr read_request) memory_bytes))
                (1 + region_size read_request)),
        ),
        with_files (machine 1) t,
      ))
    × Unchanged disk_os disk_view 1 (machine 1).globals.fs t
read_by_address_lem_example =
    read_by_address_lem disk_os disk_view disk-IsRegular still locals (machine 1) read_request
      empty_response memory_bytes read_request-IsMessage refl (read_request-IsRegion 1)
      (omega arith) read_region.0 read_region.1 refl (omega arith) read_region.2

session_control_lem_example :
    handle_msg
      (std_handlers disk_os still)
      locals
      true
      (message (0x10 ∷ 0x03 ∷ []) 4094)
      (some empty_response)
      (machine 1)
    ≡ done (
      (UdsError.no_error, some (dsc_reply (message (0x10 ∷ 0x03 ∷ []) 4094) empty_response)),
      machine 3,
    )
session_control_lem_example =
    session_control_lem disk_os still locals (machine 1) (message (0x10 ∷ 0x03 ∷ []) 4094)
      empty_response (omega arith) refl

-- A write outside the extended session, which is refused.
refused_write :
    (r : UdsError × Option CanMessage) × (m : Machine Disk) × (handle_msg
        (std_handlers disk_os still)
        locals
        true
        write_request
        (some empty_response)
        (machine 1)
      ≡ done (r, m))
unfolding handle_msg dispatch code wrba_setup wrba_pack
refused_write = (_, _, refl)

files_locked_example :
    disk_view.content refused_write.1.globals.fs memory_name
    ≡ disk_view.content (machine 1).globals.fs memory_name
files_locked_example =
    files_locked disk_os disk_view still locals true write_request (some empty_response) (machine 1)
      refused_write.1 refused_write.0 memory_name disk-OnlyWriteChanges (λ e. omega (arith, e))
      refused_write.2

-- The configuration of the machine stays, and its session is one of the known ones.

-- A read request that ends behind its service.
abbrev short_request : CanMessage
short_request = message (0x23 ∷ []) 4095

short_request-refused :
    is_positive (rdba_setup (some (machine 1).uds) short_request (some locals.rdba_param)).0 ≡ false
unfolding rdba_setup code
short_request-refused = refl

read_refused_undefined_example :
    handle_msg
      (std_handlers disk_os still)
      locals
      true
      short_request
      (some empty_response)
      (machine 1)
    ≡ undefined
read_refused_undefined_example =
    read_refused_undefined disk_os still locals (machine 1) short_request empty_response
      (omega arith) refl refl short_request-refused

-- A file of three bytes.
read_failed_undefined_example :
    handle_msg
      (std_handlers disk_os still)
      locals
      true
      read_request
      (some empty_response)
      (machine_in 1 (disk_with (0 ∷ 1 ∷ 2 ∷ []) 1))
    ≡ undefined
unfolding field_value
read_failed_undefined_example =
    read_failed_undefined disk_os disk_view disk-IsRegular still locals
      (machine_in 1 (disk_with (0 ∷ 1 ∷ 2 ∷ []) 1)) read_request empty_response
      read_request-IsMessage refl (read_request-IsRegion 1) (omega arith)
      (inr (inr (0 ∷ 1 ∷ 2 ∷ [], refl, omega arith, omega arith, omega arith, omega arith)))
