-- ===== src/Base/Ptr.antt =====
-- Pointers to bytes, and the accesses through them.
use Prim.Native.Nat.{ℕ}
use mathlib.Core.Bool.{Bool, true, false}
use mathlib.Core.List.{List}
use vdiag_server.Base.Tests.{leb, if◌then◌else◌}
use vdiag_server.Base.Lists.{length, take, overwrite}
use vdiag_server.Base.Exec.{Exec, pure, fault}

-- A pointer to bytes: null, to a block of which these bytes are left from there on, or a value
-- that no object answers to.
pub data Ptr : Type 0 where
  null : Ptr
  block : List ℕ → Ptr
  wild : Ptr

abbrev pub is_null : Ptr → Bool
is_null null = true
is_null (block bs) = false
is_null wild = false

-- Reading `n` bytes through a pointer.
abbrev pub load : {S : Type 0} → Ptr → ℕ → Exec S (List ℕ)
load null n = fault
load (block bs) n = if leb n (length bs) then pure (take n bs) else fault
load wild n = fault

-- Storing bytes through a pointer; the block's new bytes.
abbrev pub store : {S : Type 0} → Ptr → List ℕ → Exec S Ptr
store null new = fault
store (block bs) new =
    if leb (length new) (length bs) then pure (block (overwrite new bs)) else fault
store wild new = fault

-- `free(p)`. What a freed block held is not looked at again, so only the pointer is checked.
abbrev pub free : {S : Type 0} → Ptr → Exec S (Unit {0})
free null = pure tt
free (block bs) = pure tt
free wild = fault
