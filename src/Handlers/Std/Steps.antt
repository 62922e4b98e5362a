-- ===== src/Handlers/Std/Steps.antt =====
-- What a step of the standard handlers that finishes leaves of the machine.
use vdiag_server.Base.{◌≡◌, refl, Option, none, some, arith, inl, inr}
use vdiag_server.Base.Exec.{Exec, done, Exec-cases}
use vdiag_server.Can.{CanMessage}
use vdiag_server.Uds.Codes.{Nrc}
use vdiag_server.Uds.Interface.{RdbaResult, RdbiResult}
use vdiag_server.Handlers.DidMap.{DidTable}
use vdiag_server.Handlers.Rdba.{rdba_pack}
use vdiag_server.Handlers.Rdbi.{rdbi_pack}
use vdiag_server.Handlers.Wrbi.{Globals, on_fs}
use vdiag_server.Handlers.Std.{Machine, left_in, on_files, on_dids, on_globals}

module _ {S : Type 0} (presp out : CanMessage) (s t : S) where
  pub rdba_pack_pure : (res : RdbaResult) → rdba_pack res presp s ≡ done (out, t) → t ≡ s
  unfolding rdba_pack
  rdba_pack_pure res h = ground arith

  pub rdbi_pack_pure : (res : RdbiResult) → rdbi_pack res presp s ≡ done (out, t) → t ≡ s
  unfolding rdbi_pack
  rdbi_pack_pure res h = ground arith

pub left_in-code : {P : Type 0} (r : Nrc × Option P) (p : P) → (left_in r p).0 ≡ r.0
left_in-code (rc, none) p = refl
left_in-code (rc, some q) p = refl

-- A step on the files that finishes leaves the rest of the machine.
pub on_files-eq-done :
    {F A : Type 0} (step : Exec F A) (s s' : Machine F) (a : A)
    → on_files step s ≡ done (a, s')
    → step s.globals.fs ≡ done (a, s'.globals.fs)
on_files-eq-done step s s' a h = elim (Exec-cases (step s.globals.fs)) [
  | inl e ↦ ground (arith, e)
  | inr (b, t, e) ↦ ground (arith, e)
]

pub on_dids-eq-done :
    {F A : Type 0} (step : Exec DidTable A) (s s' : Machine F) (a : A)
    → on_dids step s ≡ done (a, s')
    → s'.globals.fs ≡ s.globals.fs
on_dids-eq-done step s s' a h = elim (Exec-cases (step s.globals.dids)) [
  | inl e ↦ ground (arith, e)
  | inr (b, t, e) ↦ ground (arith, e)
]

pub on_globals-eq-done :
    {F A : Type 0} (step : Exec (Globals F) A) (s s' : Machine F) (a : A)
    → on_globals step s ≡ done (a, s')
    → step s.globals ≡ done (a, s'.globals)
on_globals-eq-done step s s' a h = elim (Exec-cases (step s.globals)) [
  | inl e ↦ ground (arith, e)
  | inr (b, t, e) ↦ ground (arith, e)
]

pub uds-on_globals :
    {F A : Type 0} (step : Exec (Globals F) A) (s s' : Machine F) (a : A)
    → on_globals step s ≡ done (a, s')
    → s'.uds ≡ s.uds
uds-on_globals step s s' a h = elim (Exec-cases (step s.globals)) [
  | inl e ↦ ground (arith, e)
  | inr (b, t, e) ↦ ground (arith, e)
]

pub uds-on_files :
    {F A : Type 0} (step : Exec F A) (s s' : Machine F) (a : A)
    → on_files step s ≡ done (a, s')
    → s'.uds ≡ s.uds
uds-on_files step s s' a h = uds-on_globals (on_fs step) s s' a h

pub uds-on_dids :
    {F A : Type 0} (step : Exec DidTable A) (s s' : Machine F) (a : A)
    → on_dids step s ≡ done (a, s')
    → s'.uds ≡ s.uds
uds-on_dids step s s' a h = elim (Exec-cases (step s.globals.dids)) [
  | inl e ↦ ground (arith, e)
  | inr (b, t, e) ↦ ground (arith, e)
]
