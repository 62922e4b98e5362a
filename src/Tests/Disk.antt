-- ===== src/Tests/Disk.antt =====
-- A file system in memory with one open descriptor, as an instance of the operating system.
use vdiag_server.Base.{
  ℕ, zero, suc, ◌+◌, ◌-◌, ◌<◌, ◌≤◌, ◌≡◌, ◌≢◌, ◌⊎◌, inl, inr, refl, ap, ◌∙◌, Bool, true, false, ◌&&◌,
  Option, none, some, List, [], ◌∷◌, length, take, drop, leb, ◌==◌, if◌then◌else◌, arith,
}
use vdiag_server.Base.Word.{minus_one, minus_one64}
use vdiag_server.Os.{Os, FileName, Mode, rdonly, wronly}
use vdiag_server.Os.Files.{View, SameFiles, IsRegular, OnlyWriteChanges, splice}

abbrev pub same_name : FileName → FileName → Bool
same_name [] [] = true
same_name [] (y ∷ ys) = false
same_name (x ∷ xs) [] = false
same_name (x ∷ xs) (y ∷ ys) = (x == y) && same_name xs ys

same_name_refl : (xs : FileName) → same_name xs xs ≡ true
same_name_refl [] = refl
same_name_refl (x ∷ xs) = ground (arith, same_name_refl xs)

same_name-eq : (xs ys : FileName) → same_name xs ys ≡ true → xs ≡ ys
same_name-eq [] [] h = refl
same_name-eq [] (y ∷ ys) h = ground arith
same_name-eq (x ∷ xs) [] h = ground arith
same_name-eq (x ∷ xs) (y ∷ ys) h =
    let first : x ≡ y = ground arith in
    let rest = same_name-eq xs ys (ground arith) in rw (first, rest)

same_name-ne : (xs ys : FileName) → xs ≢ ys → same_name xs ys ≡ false
same_name-ne xs ys ne = elim (vdiag_server.Base.Bool-cases (same_name xs ys)) [
  | inl e ↦ absurd (ne (same_name-eq xs ys e))
  | inr e ↦ e
]

pub record Disk : Type 0 where
  pub files : FileName → Option (List ℕ)
  pub slot : Option (FileName × Mode × ℕ)
  pub spare : ℕ

-- The only descriptor is 3.
abbrev pub cursor_of : Disk → ℕ → Option (FileName × Mode × ℕ)
cursor_of d fd = if fd == 3 then d.slot else none

abbrev move_to : Disk → FileName → Mode → ℕ → Disk
move_to d name mode offset = record {
  files = d.files;
  slot = some (name, mode, offset);
  spare = d.spare;
}

abbrev pub replace : (FileName → Option (List ℕ)) → FileName → List ℕ → FileName → Option (List ℕ)
replace files name bs other = if same_name other name then some bs else files other

abbrev disk_open : FileName → Mode → Disk → ℕ × Disk
disk_open name mode d = elim (d.files name) [
  | none ↦ (minus_one, d)
  | some bs ↦
      if d.spare == 0
      then (minus_one, d)
      else (3, record { files = d.files; slot = some (name, mode, 0); spare = d.spare - 1 })
]

abbrev disk_lseek : ℕ → ℕ → Disk → ℕ × Disk
disk_lseek fd offset d = elim (cursor_of d fd) [
  | none ↦ (minus_one64, d)
  | some (name, mode, old) ↦ (offset, move_to d name mode offset)
]

abbrev disk_read_from : ℕ → Disk → FileName → ℕ → Option (List ℕ) → ℕ × List ℕ × Disk
disk_read_from n d name offset none = (minus_one64, [], d)
disk_read_from n d name offset (some bs) =
    let out = take n (drop offset bs) in
    (length out, out, move_to d name rdonly (offset + length out))

abbrev pub disk_read : ℕ → ℕ → Disk → ℕ × List ℕ × Disk
disk_read fd n d = elim (cursor_of d fd) [
  | none ↦ (minus_one64, [], d)
  | some (name, rdonly, offset) ↦ disk_read_from n d name offset (d.files name)
  | some (name, wronly, offset) ↦ (minus_one64, [], d)
]

-- Writing does not make a file longer.
abbrev disk_write_to : List ℕ → Disk → FileName → ℕ → Option (List ℕ) → ℕ × Disk
disk_write_to new d name offset none = (minus_one64, d)
disk_write_to new d name offset (some bs) =
    if leb (offset + length new) (length bs)
    then (
      length new,
      record {
        files = replace d.files name (splice offset new bs);
        slot = some (name, wronly, offset + length new);
        spare = d.spare;
      },
    )
    else (minus_one64, d)

abbrev disk_write : ℕ → List ℕ → Disk → ℕ × Disk
disk_write fd new d = elim (cursor_of d fd) [
  | none ↦ (minus_one64, d)
  | some (name, rdonly, offset) ↦ (minus_one64, d)
  | some (name, wronly, offset) ↦ disk_write_to new d name offset (d.files name)
]

abbrev disk_close : ℕ → Disk → Disk
disk_close fd d = elim (cursor_of d fd) [
  | none ↦ d
  | some was ↦ record { files = d.files; slot = none; spare = suc d.spare }
]

abbrev pub disk_os : Os
disk_os = record {
  State = Disk;
  open_file = disk_open;
  lseek = disk_lseek;
  read = disk_read;
  write = disk_write;
  close = disk_close;
  calloc = λ n d. (true, d);
}

abbrev pub disk_view : View disk_os
disk_view = record { content = λ d. d.files; cursor = cursor_of; spare = λ d. d.spare }

same_disk : (d : Disk) → SameFiles disk_view d d
same_disk d = record { content = λ name. refl; spare = refl }

moved :
    (d : Disk) (name : FileName) (mode : Mode) (offset : ℕ)
    → SameFiles disk_view d (move_to d name mode offset)
moved d name mode offset = record { content = λ other. refl; spare = refl }

open_works :
    (name : FileName) (mode : Mode) (d : Disk) (bs : List ℕ)
    → d.files name ≡ some bs
    → 0 < d.spare
    → disk_open name mode d
      ≡ (3, record { files = d.files; slot = some (name, mode, 0); spare = d.spare - 1 })
open_works name mode d bs h some_left = ground arith

open_refuses :
    (name : FileName) (mode : Mode) (d : Disk)
    → (d.files name ≡ none) ⊎ (d.spare ≡ 0)
    → disk_open name mode d ≡ (minus_one, d)
open_refuses name mode d why = ground arith

lseek_works :
    (fd offset : ℕ) (d : Disk) (name : FileName) (mode : Mode) (old : ℕ)
    → cursor_of d fd ≡ some (name, mode, old)
    → (disk_lseek fd offset d ≡ (offset, move_to d name mode offset)) × (fd ≡ 3)
lseek_works fd offset d name mode old h = ground arith

read_works :
    (fd n : ℕ) (d : Disk) (name : FileName) (offset : ℕ) (bs : List ℕ)
    → cursor_of d fd ≡ some (name, rdonly, offset)
    → d.files name ≡ some bs
    → (disk_read fd n d ≡ disk_read_from n d name offset (some bs)) × (fd ≡ 3)
read_works fd n d name offset bs h con = ground arith

write_works :
    (fd : ℕ) (new : List ℕ) (d : Disk) (name : FileName) (offset : ℕ) (bs : List ℕ)
    → cursor_of d fd ≡ some (name, wronly, offset)
    → d.files name ≡ some bs
    → offset + length new ≤ length bs
    → (disk_write fd new d ≡ (
      length new,
      record {
        files = replace d.files name (splice offset new bs);
        slot = some (name, wronly, offset + length new);
        spare = d.spare;
      },
    ))
      × (fd ≡ 3)
write_works fd new d name offset bs h con room = ground arith

pub replace_self :
    (files : FileName → Option (List ℕ)) (name : FileName) (bs : List ℕ)
    → replace files name bs name ≡ some bs
replace_self files name bs = rw (same_name_refl name) refl

pub replace_other :
    (files : FileName → Option (List ℕ)) (name other : FileName) (bs : List ℕ)
    → other ≢ name
    → replace files name bs other ≡ files other
replace_other files name other bs ne = rw (same_name-ne other name ne) refl

-- The disk serves regular files.
pub disk-IsRegular : IsRegular disk_os disk_view
disk-IsRegular = record {
  open_ok = λ name mode d bs con some_left.
      rw (open_works name mode d bs con some_left) (refl, refl, (λ other. refl), omega arith);
  open_fails = λ name mode d why. rw (open_refuses name mode d why) (refl, same_disk d);
  lseek_ok = λ fd offset d name mode old cur small.
      let (ran, three) = lseek_works fd offset d name mode old cur in
      rw ran (refl, rw three refl, moved d name mode offset);
  read_ok = λ fd n d name offset bs cur con small.
      let (ran, three) = read_works fd n d name offset bs cur con in
      rw ran (refl, refl, rw three refl, moved d name rdonly _);
  write_ok = λ fd new d name offset bs cur con room small.
      let (ran, three) = write_works fd new d name offset bs cur con room in
      rw ran (
        refl,
        replace_self d.files name (splice offset new bs),
        (λ other ne. replace_other d.files name other (splice offset new bs) ne),
        rw three refl,
        refl,
      );
  close_ok = λ fd d name mode offset cur. ((λ other. ground arith), ground arith);
  calloc_ok = λ n d pos. (refl, same_disk d);
}

-- The disk changes a file only when it is written.
pub disk-OnlyWriteChanges : OnlyWriteChanges disk_os disk_view
disk-OnlyWriteChanges = record {
  open_keeps = λ file mode d name. ground arith;
  lseek_keeps = λ fd offset d name. ground arith;
  read_keeps = λ fd n d name. ground arith;
  close_keeps = λ fd d name. ground arith;
  calloc_keeps = λ n d name. refl;
}
