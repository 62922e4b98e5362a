-- ===== src/Tests/Files.antt =====
-- The properties of `utils.c` on the disk.
use vdiag_server.Base.{ℕ, ◌+◌, ◌<◌, ◌≡◌, refl, true, List, [], ◌∷◌, take, drop, overwrite, arith}
use vdiag_server.Base.Word.{minus_one}
use vdiag_server.Base.Exec.{done}
use vdiag_server.Base.Ptr.{Ptr, block}
use vdiag_server.Memory.{check_memrange, write_memory, read_memory}
use vdiag_server.Memory.Write.{Written, write_memory_ok}
use vdiag_server.Memory.Read.{Unchanged, read_memory_ok}
use vdiag_server.Memory.RoundTrip.{read_memory-write_memory}
use vdiag_server.Memory.Leak.{read_times, reads_exhaust}
use vdiag_server.Memory.Result.{check_memrange_wraps}
use vdiag_server.Tests.Disk.{Disk, disk_os, disk_view, disk-IsRegular}
use vdiag_server.Tests.Requests.{memory_name, memory_bytes, disk_with}

abbrev disk : Disk
disk = disk_with memory_bytes 2

abbrev new_bytes : List ℕ
new_bytes = 0xaa ∷ 0xbb ∷ []

abbrev buffer : List ℕ
buffer = 0 ∷ 0 ∷ 0 ∷ []

write_memory_ok_example :
    (t : Disk) × (write_memory disk_os memory_name 4 2 (block new_bytes) disk ≡ done (2, t))
    × Written disk_os disk_view memory_name 4 (take 2 new_bytes) memory_bytes disk t
write_memory_ok_example =
    write_memory_ok disk_os disk_view disk-IsRegular 4 2 new_bytes memory_bytes memory_name disk
      refl (omega arith) (omega arith) (omega arith) (omega arith) (omega arith) (omega arith)

read_memory_ok_example :
    (t : Disk) × (read_memory disk_os memory_name 4 2 (block buffer) disk
      ≡ done ((2, block (overwrite (take 2 (drop 4 memory_bytes)) buffer)), t))
    × Unchanged disk_os disk_view 1 disk t
read_memory_ok_example =
    read_memory_ok disk_os disk_view disk-IsRegular 4 2 buffer memory_bytes memory_name disk refl
      (omega arith) (omega arith) (omega arith) (omega arith) (omega arith) (omega arith)

read_memory-write_memory_example :
    (t u : Disk) × (write_memory disk_os memory_name 4 2 (block new_bytes) disk ≡ done (2, t))
    × (read_memory disk_os memory_name 4 2 (block buffer) t
        ≡ done ((2, block (overwrite (take 2 new_bytes) buffer)), u))
read_memory-write_memory_example =
    read_memory-write_memory disk_os disk_view disk-IsRegular 4 2 new_bytes buffer memory_bytes
      memory_name disk refl (omega arith) (omega arith) (omega arith) (omega arith) (omega arith)
      (omega arith) (omega arith)

reads_exhaust_example :
    (t : Disk) × (read_times disk_os 2 memory_name 4 2 (block buffer) disk ≡ done (tt, t))
    × ((uaddr' usz' : ℕ) (pdata : Ptr)
        → (u : Disk) × (read_memory disk_os memory_name uaddr' usz' pdata t
            ≡ done ((minus_one, pdata), u)))
reads_exhaust_example =
    reads_exhaust disk_os disk_view disk-IsRegular 2 4 2 buffer memory_bytes memory_name disk refl
      refl (omega arith) (omega arith) (omega arith) (omega arith) (omega arith)

-- FFFFFFFE bytes from 4 on end at 2.
check_memrange_wraps_example : (check_memrange 0 16 4 4294967294 ≡ true) × (16 < 4 + 4294967294)
check_memrange_wraps_example =
    check_memrange_wraps 0 16 4 4294967294 (omega arith) (omega arith) (omega arith) (omega arith)
      (omega arith) (omega arith)
