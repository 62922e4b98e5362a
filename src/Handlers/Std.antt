-- ===== src/Handlers/Std.antt =====
-- The library std_handlers.so as the dispatcher calls it: `puds` points at the one `UdsState` of
-- the server, and `pparams` at a local variable of `uds_handle_msg`, so neither is null.
pub mod Session
pub mod Write
pub mod Read
pub mod RoundTrip
pub mod Faults
pub mod ById
pub mod WriteById
pub mod Refused
pub mod Locked
pub mod Steps
pub mod Known
pub mod Returns
pub mod Replies
use vdiag_server.Base.{ℕ, Option, none, some}
use vdiag_server.Base.Exec.{Exec, Outcome, done, undefined, pure, ◌>>=◌}
use vdiag_server.Base.Ptr.{Ptr}
use vdiag_server.Can.{CanMessage}
use vdiag_server.Os.{Os}
use vdiag_server.Uds.{UdsState}
use vdiag_server.Uds.Codes.{Nrc}
use vdiag_server.Uds.Interface.{
  Handlers, TpInterface, DscInterface, RdbaInterface, RdbiInterface, WrbaInterface, WrbiInterface,
  WrbaParams,
}
use vdiag_server.Handlers.DidMap.{DidTable}
use vdiag_server.Handlers.Tp.{tp_setup, tp, tp_pack}
use vdiag_server.Handlers.Dsc.{dsc_setup, dsc, dsc_pack}
use vdiag_server.Handlers.Rdba.{rdba_setup, rdba, rdba_pack}
use vdiag_server.Handlers.Rdbi.{rdbi_setup, rdbi, rdbi_pack}
use vdiag_server.Handlers.Wrba.{wrba_setup, wrba, wrba_pack}
use vdiag_server.Handlers.Wrbi.{Globals, on_fs, wrbi_setup, wrbi, wrbi_pack}

-- All that a request can change.
pub record Machine (F : Type 0) : Type 0 where
  pub uds : UdsState
  pub globals : Globals F

abbrev pub on_globals : {F A : Type 0} → Exec (Globals F) A → Exec (Machine F) A
on_globals m s = elim (m s.globals) [
  | undefined ↦ undefined
  | done (a, g) ↦ done (a, record { uds = s.uds; globals = g })
]

abbrev pub on_files : {F A : Type 0} → Exec F A → Exec (Machine F) A
on_files m = on_globals (on_fs m)

abbrev pub on_dids : {F A : Type 0} → Exec DidTable A → Exec (Machine F) A
on_dids m = on_globals (λ g. elim (m g.dids) [
  | undefined ↦ undefined
  | done (a, d) ↦ done (a, record { fs = g.fs; dids = d })
])

-- `*pparams` as the setup leaves it.
abbrev pub left_in : {P : Type 0} → Nrc × Option P → P → Nrc × P
left_in (rc, none) p = (rc, p)
left_in (rc, some q) p = (rc, q)

abbrev pub behind : Option UdsState → UdsState → UdsState
behind none u = u
behind (some u') u = u'

-- `stale` is what a pointer into an argument of a finished call points at. `uds_wrba_setup` hands
-- such a pointer on: its request is passed by value.
module _ (os : Os) (stale : Ptr → Ptr) where
  abbrev pub tp_service : TpInterface (Machine os.State)
  tp_service = record {
    setup = λ req p s. done (left_in (tp_setup (some s.uds) req (some p)) p, s);
    call = λ p. pure (tp p);
    pack = λ res presp. pure (tp_pack res presp);
  }

  abbrev pub dsc_service : DscInterface (Machine os.State)
  dsc_service = record {
    setup = λ req p s. done (left_in (dsc_setup (some s.uds) req (some p)) p, s);
    call = λ p s.
        let (res, u) = dsc (some s.uds) p in
        done (res, record { uds = behind u s.uds; globals = s.globals });
    pack = λ res presp. pure (dsc_pack res presp);
  }

  abbrev pub rdba_service : RdbaInterface (Machine os.State)
  rdba_service = record {
    setup = λ req p s. done (left_in (rdba_setup (some s.uds) req (some p)) p, s);
    call = λ p s. on_files (rdba os (some s.uds) p) s;
    pack = λ res presp. rdba_pack res presp;
  }

  abbrev pub rdbi_service : RdbiInterface (Machine os.State)
  rdbi_service = record {
    setup =
        λ req p s. (on_dids (rdbi_setup (some s.uds) req (some p)) >>= λ r. pure (left_in r p)) s;
    call = λ p s. on_files (rdbi os (some s.uds) p) s;
    pack = λ res presp. rdbi_pack res presp;
  }

  abbrev pub move : WrbaParams → WrbaParams
  move p = record p { pdata = stale p.pdata }

  abbrev pub wrba_service : WrbaInterface (Machine os.State)
  wrba_service = record {
    setup = λ req p s.
        let (rc, q) = left_in (wrba_setup (some s.uds) req (some p)) p in done ((rc, move q), s);
    call = λ p s. on_files (wrba os (some s.uds) p) s;
    pack = λ res presp. pure (wrba_pack res presp);
  }

  abbrev pub wrbi_service : WrbiInterface (Machine os.State)
  wrbi_service = record {
    setup = λ req p s.
        (on_globals (wrbi_setup os (some s.uds) req (some p)) >>= λ r. pure (left_in r p)) s;
    call = λ p s. on_files (wrbi os (some s.uds) p) s;
    pack = λ res presp. pure (wrbi_pack res presp);
  }

  abbrev pub std_handlers : Handlers (Machine os.State)
  std_handlers = record {
    tp = tp_service;
    dsc = dsc_service;
    rdba = rdba_service;
    rdbi = rdbi_service;
    wrba = wrba_service;
    wrbi = wrbi_service;
  }
