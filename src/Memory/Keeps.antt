-- ===== src/Memory/Keeps.antt =====
-- `read_memory` changes no file, whatever the operating system answers.
use vdiag_server.Base.{ℕ, ◌≡◌, arith}
use vdiag_server.Base.Exec.{done}
use vdiag_server.Base.Ptr.{Ptr}
use vdiag_server.Os.{Os, FileName, rdonly}
use vdiag_server.Os.Files.{View, OnlyWriteChanges}
use vdiag_server.Memory.{read_memory}

module _ (os : Os) (v : View os) (laws : OnlyWriteChanges os v) where
  pub read_memory_keeps :
      (file : FileName) (uaddr usz : ℕ) (pdata : Ptr) (s t : os.State) (r : ℕ × Ptr)
      (name : FileName)
      → read_memory os file uaddr usz pdata s ≡ done (r, t)
      → v.content t name ≡ v.content s name
  unfolding read_memory
  read_memory_keeps file uaddr usz pdata s t r name h =
      let opened = os.open_file file rdonly s in
      let sought = os.lseek opened.0 uaddr opened.1 in
      let got = os.read opened.0 usz sought.1 in
      let k1 = laws.open_keeps file rdonly s name in
      let k2 = laws.lseek_keeps opened.0 uaddr opened.1 name in
      let k3 = laws.read_keeps opened.0 usz sought.1 name in
      let k4 = laws.close_keeps opened.0 sought.1 name in
      let k5 = laws.close_keeps opened.0 got.2 name in ground arith
