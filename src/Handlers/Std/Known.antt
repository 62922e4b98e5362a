-- ===== src/Handlers/Std/Known.antt =====
-- The diagnostic session is always one that the server knows.
use vdiag_server.Base.{◌≤◌, ◌≡◌, sym, Bool, true, Option, some, arith}
use mathlib.Core.Path.{subst}
use vdiag_server.Base.Exec.{done, pure-eq-done, >>=-eq-done}
use vdiag_server.Base.Ptr.{Ptr}
use vdiag_server.Can.{CanMessage}
use vdiag_server.Config.{EcuConfig}
use vdiag_server.Os.{Os}
use vdiag_server.Uds.{UdsState}
use vdiag_server.Uds.Codes.{code, is_positive, UdsError}
use vdiag_server.Uds.Interface.{Locals, DscParams}
use vdiag_server.Uds.Dispatch.{handle_msg}
use vdiag_server.Uds.Dispatch.Invariant.{Preserves, PreservesAll, handle_msg_keeps}
use vdiag_server.Handlers.Dsc.{dsc_setup, dsc}
use vdiag_server.Handlers.Rdba.{rdba}
use vdiag_server.Handlers.Rdbi.{rdbi_setup, rdbi}
use vdiag_server.Handlers.Wrba.{wrba}
use vdiag_server.Handlers.Wrbi.{wrbi_setup, wrbi}
use vdiag_server.Handlers.Std.{
  Machine, std_handlers, tp_service, dsc_service, rdba_service, rdbi_service, wrba_service,
  wrbi_service, on_globals, on_dids, left_in,
}
use vdiag_server.Handlers.Std.Steps.{
  rdba_pack_pure, rdbi_pack_pure, uds-on_globals, uds-on_files, uds-on_dids,
}

-- The session is none yet (0) or one of the four, and the configuration is the one that was read.
pub record IsKnown {F : Type 0} (ecucfg : EcuConfig) (m : Machine F) : Type 0 where
  pub session : m.uds.uses ≤ 4
  pub config : m.uds.ecucfg ≡ ecucfg

dsc_setup_known :
    (puds : UdsState) (req : CanMessage) (p : DscParams)
    → is_positive (left_in (dsc_setup (some puds) req (some p)) p).0 ≡ true
    → (left_in (dsc_setup (some puds) req (some p)) p).1.uses ≤ 4
unfolding dsc_setup code
dsc_setup_known puds req p h = ground arith

module _ (os : Os) (stale : Ptr → Ptr) (c : EcuConfig) where
  abbrev Known : Machine os.State → Type 0
  Known m = IsKnown c m

  move-Known : {s s' : Machine os.State} → s'.uds ≡ s.uds → Known s → Known s'
  move-Known {s} {s'} e k = record { session = ground arith; config = ground arith }

  dsc-Known : Preserves (dsc_service os stale) Known Known (λ p. p.uses ≤ 4)
  unfolding dsc
  dsc-Known = record {
    setup = λ req p p' rc s s' inv ran. (
      subst Known (pure-eq-done ran).1 inv,
      λ e. (let k = dsc_setup_known s.uds req p in let q = (pure-eq-done ran).0 in ground arith),
    );
    call = λ p res s s' inv promise ran. record { session = ground arith; config = ground arith };
    pack = λ res presp out s s' inv ran. subst Known (pure-eq-done ran).1 inv;
  }

  tp-Known : Preserves (tp_service os stale) Known Known (λ p. Unit {0})
  tp-Known = record {
    setup = λ req p p' rc s s' inv ran. (subst Known (pure-eq-done ran).1 inv, λ e. tt);
    call = λ p res s s' inv promise ran. subst Known (pure-eq-done ran).1 inv;
    pack = λ res presp out s s' inv ran. subst Known (pure-eq-done ran).1 inv;
  }

  rdba-Known : Preserves (rdba_service os stale) Known Known (λ p. Unit {0})
  rdba-Known = record {
    setup = λ req p p' rc s s' inv ran. (subst Known (pure-eq-done ran).1 inv, λ e. tt);
    call = λ p res s s' inv promise ran.
        move-Known (uds-on_files (rdba os (some s.uds) p) s s' res ran) inv;
    pack =
        λ res presp out s s' inv ran. subst Known (sym (rdba_pack_pure presp out s s' res ran)) inv;
  }

  rdbi-Known : Preserves (rdbi_service os stale) Known Known (λ p. Unit {0})
  rdbi-Known = record {
    setup = λ req p p' rc s s' inv ran.
        let (r, s1, set_up, rest) =
          >>=-eq-done (on_dids (rdbi_setup (some s.uds) req (some p))) _ ran in
        (
          subst Known (pure-eq-done rest).1
              (move-Known (uds-on_dids (rdbi_setup (some s.uds) req (some p)) s s1 r set_up) inv),
          λ e. tt,
        );
    call = λ p res s s' inv promise ran.
        move-Known (uds-on_files (rdbi os (some s.uds) p) s s' res ran) inv;
    pack =
        λ res presp out s s' inv ran. subst Known (sym (rdbi_pack_pure presp out s s' res ran)) inv;
  }

  wrba-Known : Preserves (wrba_service os stale) Known Known (λ p. Unit {0})
  wrba-Known = record {
    setup = λ req p p' rc s s' inv ran. (subst Known (pure-eq-done ran).1 inv, λ e. tt);
    call = λ p res s s' inv promise ran.
        move-Known (uds-on_files (wrba os (some s.uds) p) s s' res ran) inv;
    pack = λ res presp out s s' inv ran. subst Known (pure-eq-done ran).1 inv;
  }

  wrbi-Known : Preserves (wrbi_service os stale) Known Known (λ p. Unit {0})
  wrbi-Known = record {
    setup = λ req p p' rc s s' inv ran.
        let (r, s1, set_up, rest) =
          >>=-eq-done (on_globals (wrbi_setup os (some s.uds) req (some p))) _ ran in
        (
          subst Known (pure-eq-done rest).1 (
              move-Known (uds-on_globals (wrbi_setup os (some s.uds) req (some p)) s s1 r set_up)
                inv),
          λ e. tt,
        );
    call = λ p res s s' inv promise ran.
        move-Known (uds-on_files (wrbi os (some s.uds) p) s s' res ran) inv;
    pack = λ res presp out s s' inv ran. subst Known (pure-eq-done ran).1 inv;
  }

  all-Known : PreservesAll (std_handlers os stale) Known Known
  all-Known = record {
    OfDsc = λ p. p.uses ≤ 4;
    OfWrba = λ p. Unit {0};
    OfWrbi = λ p. Unit {0};
    tp = tp-Known;
    dsc = dsc-Known;
    rdba = rdba-Known;
    rdbi = rdbi-Known;
    wrba = wrba-Known;
    wrbi = wrbi-Known;
  }

-- From a known session, a request that finishes leaves the session one that the server knows and
-- the configuration as it was read, whatever its bytes.
pub handle_msg-IsKnown :
    (os : Os) (stale : Ptr → Ptr) (l : Locals) (has_state : Bool) (ecucfg : EcuConfig)
    (req : CanMessage) (presp : Option CanMessage) (m m' : Machine os.State)
    (reply : UdsError × Option CanMessage)
    → IsKnown ecucfg m
    → handle_msg (std_handlers os stale) l has_state req presp m ≡ done (reply, m')
    → IsKnown ecucfg m'
handle_msg-IsKnown os stale l has_state ecucfg req presp m m' reply known ran =
    handle_msg_keeps (std_handlers os stale) (IsKnown ecucfg) (IsKnown ecucfg) (λ s k. k)
      (all-Known os stale ecucfg) l req has_state presp reply m m' known ran
