-- ===== src/Os/Files.antt =====
-- What a program may rely on when it uses regular files that suffer no I/O error: the documented
-- behaviour of open, lseek, read, write, close and calloc, in terms of an observer of the state.
use vdiag_server.Base.{
  ℕ, suc, ◌+◌, ◌≤◌, ◌<◌, ◌≡◌, ◌≢◌, ◌⊎◌, true, false, Option, none, some, List, ◌++◌, length, take,
  drop,
}
use vdiag_server.Base.Word.{is_negative, minus_one}
use vdiag_server.Os.{Os, FileName, Mode, rdonly, wronly}

-- The bytes `bs` with `new` written over them from `offset` on.
abbrev pub splice : ℕ → List ℕ → List ℕ → List ℕ
splice offset new bs = take offset bs ++ (new ++ drop (offset + length new) bs)

pub record View (os : Os) : Type 0 where
  pub content : os.State → FileName → Option (List ℕ)
  -- An open descriptor's file, mode and offset.
  pub cursor : os.State → ℕ → Option (FileName × Mode × ℕ)
  -- How many more files the process may open.
  pub spare : os.State → ℕ

pub record SameFiles {os : Os} (v : View os) (s t : os.State) : Type 0 where
  pub content : (name : FileName) → v.content t name ≡ v.content s name
  pub spare : v.spare t ≡ v.spare s

pub record IsRegular (os : Os) (v : View os) : Type 0 where
  pub open_ok :
      (name : FileName) (mode : Mode) (s : os.State) (bs : List ℕ)
      → v.content s name ≡ some bs
      → 0 < v.spare s
      → let (fd, t) = os.open_file name mode s in
        (is_negative fd ≡ false)
        × (v.cursor t fd ≡ some (name, mode, 0))
        × ((other : FileName) → v.content t other ≡ v.content s other)
        × (suc (v.spare t) ≡ v.spare s)
  pub open_fails :
      (name : FileName) (mode : Mode) (s : os.State)
      → (v.content s name ≡ none) ⊎ (v.spare s ≡ 0)
      → let (fd, t) = os.open_file name mode s in (fd ≡ minus_one) × SameFiles v s t
  pub lseek_ok :
      (fd offset : ℕ) (s : os.State) (name : FileName) (mode : Mode) (old : ℕ)
      → v.cursor s fd ≡ some (name, mode, old)
      → offset < 4294967296
      → let (result, t) = os.lseek fd offset s in
        (result ≡ offset) × (v.cursor t fd ≡ some (name, mode, offset)) × SameFiles v s t
  pub read_ok :
      (fd n : ℕ) (s : os.State) (name : FileName) (offset : ℕ) (bs : List ℕ)
      → v.cursor s fd ≡ some (name, rdonly, offset)
      → v.content s name ≡ some bs
      → n < 2147483648
      → let (result, out, t) = os.read fd n s in
        (out ≡ take n (drop offset bs))
        × (result ≡ length (take n (drop offset bs)))
        × (v.cursor t fd ≡ some (name, rdonly, offset + length (take n (drop offset bs))))
        × SameFiles v s t
  pub write_ok :
      (fd : ℕ) (new : List ℕ) (s : os.State) (name : FileName) (offset : ℕ) (bs : List ℕ)
      → v.cursor s fd ≡ some (name, wronly, offset)
      → v.content s name ≡ some bs
      → offset + length new ≤ length bs
      → length new < 2147483648
      → let (result, t) = os.write fd new s in
        (result ≡ length new)
        × (v.content t name ≡ some (splice offset new bs))
        × ((other : FileName) → other ≢ name → v.content t other ≡ v.content s other)
        × (v.cursor t fd ≡ some (name, wronly, offset + length new))
        × (v.spare t ≡ v.spare s)
  pub close_ok :
      (fd : ℕ) (s : os.State) (name : FileName) (mode : Mode) (offset : ℕ)
      → v.cursor s fd ≡ some (name, mode, offset)
      → ((other : FileName) → v.content (os.close fd s) other ≡ v.content s other)
        × (v.spare (os.close fd s) ≡ suc (v.spare s))
  pub calloc_ok :
      (n : ℕ) (s : os.State) → 0 < n → ((os.calloc n s).0 ≡ true) × SameFiles v s (os.calloc n s).1

-- On every path, errors included, a call other than `write` leaves the content of files alone.
pub record OnlyWriteChanges (os : Os) (v : View os) : Type 0 where
  pub open_keeps :
      (file : FileName) (mode : Mode) (s : os.State) (name : FileName)
      → v.content (os.open_file file mode s).1 name ≡ v.content s name
  pub lseek_keeps :
      (fd offset : ℕ) (s : os.State) (name : FileName)
      → v.content (os.lseek fd offset s).1 name ≡ v.content s name
  pub read_keeps :
      (fd n : ℕ) (s : os.State) (name : FileName)
      → v.content (os.read fd n s).2 name ≡ v.content s name
  pub close_keeps :
      (fd : ℕ) (s : os.State) (name : FileName) → v.content (os.close fd s) name ≡ v.content s name
  pub calloc_keeps :
      (n : ℕ) (s : os.State) (name : FileName) → v.content (os.calloc n s).1 name ≡ v.content s name
