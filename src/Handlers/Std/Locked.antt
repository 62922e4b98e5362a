-- ===== src/Handlers/Std/Locked.antt =====
-- Outside the extended session no request changes a file.
use vdiag_server.Base.{
  ℕ, ◌≡◌, ◌≢◌, inl, inr, refl, sym, ◌∙◌, Bool, false, Option, some, [], arith, if◌then◌else◌,
  replicate,
}
use vdiag_server.Base.Exec.{done, Exec-cases, pure-eq-done, >>=-eq-done}
use vdiag_server.Base.Ptr.{Ptr, null, block}
use vdiag_server.Can.{CanMessage}
use vdiag_server.Os.{Os, FileName}
use vdiag_server.Os.Files.{View, OnlyWriteChanges}
use vdiag_server.Memory.{read_memory}
use vdiag_server.Memory.Keeps.{read_memory_keeps}
use vdiag_server.Uds.{UdsState}
use vdiag_server.Uds.Codes.{Nrc, code, is_positive, UdsError}
use vdiag_server.Uds.Interface.{
  Locals, RdbaParams, RdbaResult, RdbiParams, RdbiResult, WrbaParams, WrbiParams,
}
use vdiag_server.Uds.Dispatch.{handle_msg}
use vdiag_server.Uds.Dispatch.Invariant.{Preserves, PreservesAll, handle_msg_keeps}
use mathlib.Core.Path.{subst}
use vdiag_server.Handlers.Rdba.{rdba}
use vdiag_server.Handlers.Rdbi.{rdbi_setup, rdbi}
use vdiag_server.Handlers.Wrba.{wrba_setup}
use vdiag_server.Handlers.Wrbi.{Globals, wrbi_setup}
use vdiag_server.Handlers.Std.{
  Machine, std_handlers, tp_service, dsc_service, rdba_service, rdbi_service, wrba_service,
  wrbi_service, on_dids, on_globals,
}
use vdiag_server.Handlers.Std.Steps.{
  rdba_pack_pure, rdbi_pack_pure, left_in-code, on_files-eq-done, on_dids-eq-done,
  on_globals-eq-done,
}

module _ (os : Os) (v : View os) (laws : OnlyWriteChanges os v) where
  rdba_keeps :
      (puds : UdsState) (p : RdbaParams) (s t : os.State) (res : RdbaResult) (name : FileName)
      → rdba os (some puds) p s ≡ done (res, t)
      → v.content t name ≡ v.content s name
  unfolding rdba
  rdba_keeps puds p s t res name h =
      let file = puds.ecucfg.memory.file_path in
      let (got, s1) = os.calloc 4096 s in
      let buf = if got then block (replicate {A = ℕ} 4096 0) else null in
      let k1 = laws.calloc_keeps 4096 s name in
      elim (Exec-cases (read_memory os file p.uaddr p.usz buf s1)) [
        | inl e ↦ ground (arith, e)
        | inr (r, t', e) ↦
            let k2 = read_memory_keeps os v laws file p.uaddr p.usz buf s1 t' r name e in
            ground (arith, e, k1, k2)
      ]

  rdbi_keeps :
      (puds : UdsState) (p : RdbiParams) (s t : os.State) (res : RdbiResult) (name : FileName)
      → rdbi os (some puds) p s ≡ done (res, t)
      → v.content t name ≡ v.content s name
  unfolding rdbi
  rdbi_keeps puds p s t res name h =
      let file = puds.ecucfg.memory.file_path in
      let (got, s1) = os.calloc p.usz s in
      let buf = if got then block (replicate {A = ℕ} p.usz 0) else null in
      let k1 = laws.calloc_keeps p.usz s name in
      elim (Exec-cases (read_memory os file p.uaddr p.usz buf s1)) [
        | inl e ↦ ground (arith, e)
        | inr (r, t', e) ↦
            let k2 = read_memory_keeps os v laws file p.uaddr p.usz buf s1 t' r name e in
            ground (arith, e, k1, k2)
      ]

module _ (os : Os) (v : View os) (laws : OnlyWriteChanges os v) where
  -- Outside the extended session no setup of a writing service is positive.
  wrba_setup_locked :
      (puds : UdsState) (req : CanMessage) (p : WrbaParams)
      → puds.uses ≢ 3
      → is_positive (wrba_setup (some puds) req (some p)).0 ≡ false
  unfolding wrba_setup code
  wrba_setup_locked puds req p locked = ground arith

  wrbi_setup_locked :
      (puds : UdsState) (req : CanMessage) (p : WrbiParams) (g g' : Globals os.State)
      (r : Nrc × Option WrbiParams) (name : FileName)
      → puds.uses ≢ 3
      → wrbi_setup os (some puds) req (some p) g ≡ done (r, g')
      → (is_positive r.0 ≡ false) × (v.content g'.fs name ≡ v.content g.fs name)
  unfolding wrbi_setup code
  wrbi_setup_locked puds req p g g' r name locked h =
      let k = laws.calloc_keeps 4096 g.fs name in ground arith

module _ (os : Os) (v : View os) (laws : OnlyWriteChanges os v) (stale : Ptr → Ptr)
    (before : Machine os.State) where
  -- The files are as in `before`.
  abbrev Same : Machine os.State → Type 0
  Same m = (name : FileName) → v.content m.globals.fs name ≡ v.content before.globals.fs name

  abbrev SameLocked : Machine os.State → Type 0
  SameLocked m = Same m × (m.uds.uses ≢ 3)

  tp_keeps : Preserves (tp_service os stale) SameLocked Same (λ p. Unit {0})
  tp_keeps = record {
    setup = λ req p p' rc s s' inv ran. (subst Same (pure-eq-done ran).1 inv.0, λ e. tt);
    call = λ p res s s' inv promise ran. subst Same (pure-eq-done ran).1 inv;
    pack = λ res presp out s s' inv ran. subst Same (pure-eq-done ran).1 inv;
  }

  dsc_keeps : Preserves (dsc_service os stale) SameLocked Same (λ p. Unit {0})
  dsc_keeps = record {
    setup = λ req p p' rc s s' inv ran. (subst Same (pure-eq-done ran).1 inv.0, λ e. tt);
    call = λ p res s s' inv promise ran name. (let k = inv name in ground arith);
    pack = λ res presp out s s' inv ran. subst Same (pure-eq-done ran).1 inv;
  }

  rdba_keeps_all : Preserves (rdba_service os stale) SameLocked Same (λ p. Unit {0})
  rdba_keeps_all = record {
    setup = λ req p p' rc s s' inv ran. (subst Same (pure-eq-done ran).1 inv.0, λ e. tt);
    call = λ p res s s' inv promise ran name.
        rdba_keeps os v laws s.uds p s.globals.fs s'.globals.fs res name
          (on_files-eq-done (rdba os (some s.uds) p) s s' res ran)
        ∙ inv name;
    pack =
        λ res presp out s s' inv ran. subst Same (sym (rdba_pack_pure presp out s s' res ran)) inv;
  }

  rdbi_keeps_all : Preserves (rdbi_service os stale) SameLocked Same (λ p. Unit {0})
  rdbi_keeps_all = record {
    setup = λ req p p' rc s s' inv ran. (
      (λ name.
          let (r, s1, set_up, rest) =
            >>=-eq-done (on_dids (rdbi_setup (some s.uds) req (some p))) _ ran in
          let k = on_dids-eq-done (rdbi_setup (some s.uds) req (some p)) s s1 r set_up in
          let i = inv.0 name in ground arith),
      λ e. tt,
    );
    call = λ p res s s' inv promise ran name.
        rdbi_keeps os v laws s.uds p s.globals.fs s'.globals.fs res name
          (on_files-eq-done (rdbi os (some s.uds) p) s s' res ran)
        ∙ inv name;
    pack =
        λ res presp out s s' inv ran. subst Same (sym (rdbi_pack_pure presp out s s' res ran)) inv;
  }

  wrba_keeps : Preserves (wrba_service os stale) SameLocked Same (λ p. ⊥)
  wrba_keeps = record {
    setup = λ req p p' rc s s' inv ran. (
      subst Same (pure-eq-done ran).1 inv.0,
      λ accepted.
          (let k = wrba_setup_locked os v laws s.uds req p inv.1 in
            let c = left_in-code (wrba_setup (some s.uds) req (some p)) p in ground arith),
    );
    call = λ p res s s' inv promise ran. absurd promise;
    pack = λ res presp out s s' inv ran. subst Same (pure-eq-done ran).1 inv;
  }

  wrbi_keeps : Preserves (wrbi_service os stale) SameLocked Same (λ p. ⊥)
  wrbi_keeps = record {
    setup = λ req p p' rc s s' inv ran.
        let step = wrbi_setup os (some s.uds) req (some p) in
        let (r, s1, set_up, rest) = >>=-eq-done (on_globals step) _ ran in
        let k = on_globals-eq-done step s s1 r set_up in
        let locked = wrbi_setup_locked os v laws s.uds req p s.globals s1.globals r in
        let c = left_in-code r p in
        (
          (λ name. let f = (locked name inv.1 k).1 in let i = inv.0 name in ground arith),
          λ accepted. let f = (locked [] inv.1 k).0 in ground arith,
        );
    call = λ p res s s' inv promise ran. absurd promise;
    pack = λ res presp out s s' inv ran. subst Same (pure-eq-done ran).1 inv;
  }

  all_keep : PreservesAll (std_handlers os stale) SameLocked Same
  all_keep = record {
    OfDsc = λ p. Unit {0};
    OfWrba = λ p. ⊥;
    OfWrbi = λ p. ⊥;
    tp = tp_keeps;
    dsc = dsc_keeps;
    rdba = rdba_keeps_all;
    rdbi = rdbi_keeps_all;
    wrba = wrba_keeps;
    wrbi = wrbi_keeps;
  }

-- On an operating system where no call but `write` changes the content of a file, a request outside
-- the extended session that finishes leaves every file as it was, whatever its bytes and whatever
-- the calls return.
pub files_locked :
    (os : Os) (v : View os) (stale : Ptr → Ptr) (l : Locals) (has_state : Bool) (req : CanMessage)
    (presp : Option CanMessage) (m m' : Machine os.State) (reply : UdsError × Option CanMessage)
    (name : FileName)
    → OnlyWriteChanges os v
    → m.uds.uses ≢ 3
    → handle_msg (std_handlers os stale) l has_state req presp m ≡ done (reply, m')
    → v.content m'.globals.fs name ≡ v.content m.globals.fs name
files_locked os v stale l has_state req presp m m' reply name laws locked ran =
    handle_msg_keeps (std_handlers os stale) (SameLocked os v laws stale m) (Same os v laws stale m)
      (λ s both. both.0) (all_keep os v laws stale m) l req has_state presp reply m m'
      ((λ file. refl), locked) ran name
