-- ===== src/Tests/Mocked.antt =====
-- The stand-ins in front of the disk.
use vdiag_server.Base.{◌≡◌, ◌<◌, refl, true, some, arith}
use vdiag_server.Base.Exec.{done}
use vdiag_server.Uds.Codes.{UdsError}
use vdiag_server.Uds.Dispatch.{handle_msg}
use vdiag_server.Handlers.Address.Value.{field_value}
use vdiag_server.Handlers.Region.{IsWrite, region_size}
use vdiag_server.Handlers.Std.{Machine, std_handlers}
use vdiag_server.Handlers.Std.Write.{with_files}
use vdiag_server.Mocks.{
  Mocked, mocked_os, OpenStatus, LseekStatus, ReadStatus, WriteStatus, CloseStatus, CallocStatus,
}
use vdiag_server.Mocks.Writes.{mocked_reply, after_write, mocked_write_by_address}
use vdiag_server.Tests.Disk.{Disk, disk_os}
use vdiag_server.Tests.Requests.{
  config, memory_bytes, disk_with, locals, still, write_request, write_request-IsMessage,
  empty_response,
}

abbrev mocked_disk : Mocked Disk
mocked_disk = record {
  mocks = record {
    open_status = OpenStatus.open_spec;
    mock_fd = 123;
    lseek_status = LseekStatus.lseek_no_error;
    mock_lseek_result = 0;
    read_status = ReadStatus.read_no_error;
    mock_read_result = 0;
    write_status = WriteStatus.write_partial;
    mock_write_result = 0;
    close_status = CloseStatus.close_no_error;
    calloc_status = CallocStatus.calloc_no_error;
  };
  real = disk_with memory_bytes 2;
}

abbrev mocked_machine : Machine (Mocked Disk)
mocked_machine = record {
  uds = record { ecucfg = config; client_addr = 0; uses = 3 };
  globals = record { fs = mocked_disk; dids = vdiag_server.Handlers.DidMap.cleared };
}

mocked_request-IsWrite : IsWrite mocked_machine.uds write_request
unfolding field_value
mocked_request-IsWrite = record {
  region = record {
    addr_some = omega arith;
    addr_fits = omega arith;
    size_some = omega arith;
    size_fits = omega arith;
    complete = omega arith;
    above = omega arith;
    below = omega arith;
  };
  extended = refl;
  has_data = omega arith;
}

some_data : 0 < region_size write_request
unfolding field_value
some_data = omega arith

mocked_write_by_address_example :
    handle_msg
      (std_handlers (mocked_os disk_os) still)
      locals
      true
      write_request
      (some empty_response)
      mocked_machine
    ≡ done (
      (UdsError.no_error, some (mocked_reply WriteStatus.write_partial empty_response)),
      with_files mocked_machine (after_write disk_os (region_size write_request) mocked_disk),
    )
mocked_write_by_address_example =
    mocked_write_by_address disk_os still locals mocked_machine write_request empty_response
      (λ p. refl) write_request-IsMessage (omega arith) refl mocked_request-IsWrite (omega arith)
      some_data (record { opened = refl; descriptor = refl; sought = refl })
