-- ===== src/Tests/Identifiers.antt =====
-- Regions, fields and data identifiers of concrete requests.
use vdiag_server.Base.{
  ℕ, ◌+◌, ◌<◌, ◌≤◌, ◌≡◌, refl, true, none, some, List, [], ◌∷◌, take, drop, replicate, overwrite,
  length-replicate, if◌then◌else◌, arith,
}
use vdiag_server.Base.Exec.{done, undefined}
use vdiag_server.Base.Ptr.{block}
use vdiag_server.Can.{CanMessage, IsMessage, put}
use vdiag_server.Memory.{check_memrange}
use vdiag_server.Memory.Result.{check_memrange_iff}
use vdiag_server.Memory.Write.{Written}
use vdiag_server.Memory.Read.{Unchanged}
use vdiag_server.Uds.Codes.{Nrc, UdsError}
use vdiag_server.Uds.Dispatch.{handle_msg}
use vdiag_server.Handlers.Address.{parse_field}
use vdiag_server.Handlers.Address.Value.{field_value, parse_field_lem}
use vdiag_server.Handlers.DidMap.{DidTable, cleared, mapping_of, init_mapping}
use vdiag_server.Handlers.DidMap.Lookup.{last_entry, entries, init_mapping_lem}
use vdiag_server.Handlers.Region.{
  IsRegion, IsWrite, region_addr, region_size, header_size, rdba_setup_iff, wrba_setup_iff,
}
use vdiag_server.Handlers.Rdba.{rdba_setup}
use vdiag_server.Handlers.Wrba.{wrba_setup}
use vdiag_server.Handlers.Wrbi.{Globals, wrbi_setup}
use vdiag_server.Handlers.Std.{std_handlers}
use vdiag_server.Handlers.Std.ById.{named_did, with_globals, IsMapped, read_by_identifier_lem}
use vdiag_server.Handlers.Std.WriteById.{write_setup_uninitialised, write_by_identifier_lem}
use vdiag_server.Handlers.Std.Faults.{read_too_long_undefined}
use vdiag_server.Tests.Disk.{Disk, disk_os, disk_view, disk-IsRegular}
use vdiag_server.Tests.Requests.{
  config-HasEntries, memory_name, memory_bytes, machine, large_bytes, large_machine, locals, still,
  did_f100, message, message-IsMessage, write_request, read_request, write_request-IsMessage,
  read_request-IsMessage, empty_response,
}

rdba_setup_iff_example :
    ((rdba_setup (some (machine 1).uds) read_request (some locals.rdba_param)).0
        ≡ Nrc.positive_response
      → IsRegion (machine 1).uds read_request)
    × (IsRegion (machine 1).uds read_request
        → rdba_setup (some (machine 1).uds) read_request (some locals.rdba_param) ≡ (
          Nrc.positive_response,
          some (record { usz = region_size read_request; uaddr = region_addr read_request }),
        ))
unfolding field_value
rdba_setup_iff_example =
    rdba_setup_iff (machine 1).uds read_request read_request-IsMessage locals.rdba_param
      (omega arith)

wrba_setup_iff_example :
    ((wrba_setup (some (machine 3).uds) write_request (some locals.wrba_param)).0
        ≡ Nrc.positive_response
      → IsWrite (machine 3).uds write_request)
    × (IsWrite (machine 3).uds write_request
        → wrba_setup (some (machine 3).uds) write_request (some locals.wrba_param) ≡ (
          Nrc.positive_response,
          some (record {
            uaddr = region_addr write_request;
            usz = region_size write_request;
            pdata = block (drop (header_size write_request) write_request.pdata);
          }),
        ))
unfolding field_value
wrba_setup_iff_example =
    wrba_setup_iff (machine 3).uds write_request write_request-IsMessage locals.wrba_param
      (omega arith) (omega arith)

parse_field_lem_example : parse_field write_request 2 4 0 ≡ field_value write_request 2 4
parse_field_lem_example = parse_field_lem write_request 2 4 write_request-IsMessage (omega arith)

init_mapping_lem_example :
    (table : DidTable) × (init_mapping (machine 1).uds.ecucfg ≡ done table)
    × ((udid : ℕ)
        → udid ≤ 65535
        → table udid ≡ elim (last_entry (entries (machine 1).uds.ecucfg) udid) [
          | none ↦ cleared udid
          | some d ↦ mapping_of d
        ])
init_mapping_lem_example = init_mapping_lem (machine 1).uds.ecucfg (config-HasEntries 16)

abbrev long_bytes : List ℕ
long_bytes = 0x23 ∷ 0x12 ∷ 0 ∷ 0x10 ∷ 0 ∷ []

-- A request to read 4096 bytes from 0 on.
abbrev long_request : CanMessage
long_request = message long_bytes 4091

long_request-IsMessage : IsMessage long_request
long_request-IsMessage = message-IsMessage long_bytes 4091 refl (ground arith)

long_request-IsRegion : IsRegion large_machine.uds long_request
unfolding field_value
long_request-IsRegion = record {
  addr_some = omega arith;
  addr_fits = omega arith;
  size_some = omega arith;
  size_fits = omega arith;
  complete = omega arith;
  above = omega arith;
  below = omega arith;
}

read_too_long_undefined_example :
    handle_msg
      (std_handlers disk_os still)
      locals
      true
      long_request
      (some empty_response)
      large_machine
    ≡ undefined
unfolding field_value
read_too_long_undefined_example =
    read_too_long_undefined disk_os disk_view disk-IsRegular still locals large_machine long_request
      empty_response large_bytes long_request-IsMessage refl long_request-IsRegion (omega arith)
      (omega arith) refl (omega arith) (omega (arith, length-replicate {A = ℕ} 8192 0))

abbrev by_id_bytes : ℕ → ℕ → List ℕ
by_id_bytes usid low = usid ∷ 0xf1 ∷ low ∷ 0xaa ∷ 0xbb ∷ 0xcc ∷ 0xdd ∷ []

-- A request for the identifier F1 and `low`.
abbrev by_id : ℕ → ℕ → CanMessage
by_id usid low = message (by_id_bytes usid low) 4089

by_id-IsMessage : (usid low : ℕ) → usid < 256 → low < 256 → IsMessage (by_id usid low)
by_id-IsMessage usid low a b = message-IsMessage (by_id_bytes usid low) 4089 refl (ground arith)

f100-IsMapped : (uses : ℕ) → IsMapped (machine uses).uds.ecucfg (named_did (by_id 0x22 0)) did_f100
unfolding last_entry
f100-IsMapped uses = record {
  counted = config-HasEntries 16;
  entry = refl;
  above = omega arith;
  below = omega arith;
}

f100-entry : last_entry (entries (machine 3).uds.ecucfg) (named_did (by_id 0x2e 0)) ≡ some did_f100
unfolding last_entry
f100-entry = refl

initial_range : check_memrange 0 16 locals.wrbi_param.uaddr locals.wrbi_param.usz ≡ true
initial_range = (check_memrange_iff 0 16 0 0 (omega arith)).1 (omega arith, omega arith)

read_by_identifier_lem_example :
    (t : Disk) × (table : DidTable) × (handle_msg
        (std_handlers disk_os still)
        locals
        true
        (by_id 0x22 0)
        (some empty_response)
        (machine 1)
      ≡ done (
        (
          UdsError.no_error,
          some (put empty_response (0x62 ∷ 0xf1 ∷ 0 ∷ take 4 (drop 4 memory_bytes)) (3 + 4)),
        ),
        with_globals (machine 1) t table,
      ))
    × Unchanged disk_os disk_view 1 (machine 1).globals.fs t
read_by_identifier_lem_example =
    read_by_identifier_lem disk_os disk_view disk-IsRegular still locals (machine 1) (by_id 0x22 0)
      empty_response did_f100 memory_bytes (by_id-IsMessage 0x22 0 (omega arith) (omega arith))
      (omega arith) refl (f100-IsMapped 1) (omega arith) (omega arith) (omega arith) refl
      (omega arith) (omega arith)

write_by_identifier_lem_example :
    (t : Disk) × (table : DidTable) × (handle_msg
        (std_handlers disk_os still)
        locals
        true
        (by_id 0x2e 0)
        (some empty_response)
        (machine 3)
      ≡ done (
        (UdsError.no_error, some (put empty_response (0x6e ∷ 0xf1 ∷ 0 ∷ []) 3)),
        with_globals (machine 3) t table,
      ))
    × Written disk_os disk_view memory_name 4
        (take 4 (drop 3 (by_id 0x2e 0).pdata))
        memory_bytes
        (machine 3).globals.fs
        t
write_by_identifier_lem_example =
    write_by_identifier_lem disk_os disk_view disk-IsRegular still locals (machine 3) (by_id 0x2e 0)
      empty_response did_f100 memory_bytes (by_id-IsMessage 0x2e 0 (omega arith) (omega arith))
      (omega arith) refl refl (config-HasEntries 16) f100-entry initial_range (omega arith)
      (omega arith) (omega arith) refl (omega arith) (omega arith)

write_setup_uninitialised_example :
    let zeros = replicate {A = ℕ} 4096 0 in
    (g : Globals Disk) × (wrbi_setup disk_os
        (some (machine 3).uds)
        (by_id 0x2e 0)
        (some locals.wrbi_param)
        (machine 3).globals
      ≡ done (
        if check_memrange 0 16 0 0
            then (
              Nrc.positive_response,
              some (record {
                udid = named_did (by_id 0x2e 0);
                uaddr = 4;
                usz = 4;
                pdata = block (overwrite (take 4 (drop 3 (by_id 0x2e 0).pdata)) zeros);
              }),
            )
            else (
              Nrc.request_out_of_range,
              some (record { udid = 0; uaddr = 0; usz = 0; pdata = block zeros }),
            ),
        g,
      ))
    × ((name : List ℕ)
        → disk_view.content g.fs name ≡ disk_view.content (machine 3).globals.fs name)
    × (disk_view.spare g.fs ≡ disk_view.spare (machine 3).globals.fs)
write_setup_uninitialised_example =
    write_setup_uninitialised disk_os disk_view disk-IsRegular still locals (machine 3)
      (by_id 0x2e 0) did_f100 (by_id-IsMessage 0x2e 0 (omega arith) (omega arith)) (omega arith)
      refl (config-HasEntries 16) f100-entry (omega arith)
