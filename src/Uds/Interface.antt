-- ===== src/Uds/Interface.antt =====
-- The handlers as the dispatcher knows them: for each service its parameters, its result and
-- three function pointers (uds_server/inc/{tp,dsc,rdba,rdbi,wrba,wrbi}_def.h). They change an
-- unknown state, the object behind `puds` among it.
use vdiag_server.Base.{ℕ}
use vdiag_server.Base.Exec.{Exec}
use vdiag_server.Base.Ptr.{Ptr}
use vdiag_server.Can.{CanMessage}
use vdiag_server.Uds.Codes.{Nrc}

pub record TpParams : Type 0 where
  pub usubfnc : ℕ

pub record TpResult : Type 0 where
  pub rc : Nrc
  pub usubfnc : ℕ

pub record DscParams : Type 0 where
  pub uses : ℕ

pub record DscResult : Type 0 where
  pub rc : Nrc
  pub uses : ℕ
  pub p2_server_max : ℕ
  pub p2_star_server_max : ℕ

pub record RdbaParams : Type 0 where
  pub usz : ℕ
  pub uaddr : ℕ

pub record RdbaResult : Type 0 where
  pub rc : Nrc
  pub pdata : Ptr
  pub usz : ℕ

pub record RdbiParams : Type 0 where
  pub udid : ℕ
  pub uaddr : ℕ
  pub usz : ℕ

pub record RdbiResult : Type 0 where
  pub rc : Nrc
  pub udid : ℕ
  pub pdata : Ptr
  pub usz : ℕ

pub record WrbaParams : Type 0 where
  pub uaddr : ℕ
  pub usz : ℕ
  pub pdata : Ptr

pub record WrbaResult : Type 0 where
  pub rc : Nrc

pub record WrbiParams : Type 0 where
  pub udid : ℕ
  pub uaddr : ℕ
  pub usz : ℕ
  pub pdata : Ptr

pub record WrbiResult : Type 0 where
  pub rc : Nrc
  pub udid : ℕ

-- `setup` takes what `*pparams` holds before the call, and returns its code with what `*pparams`
-- holds afterwards. `pack` takes the response so far and returns it filled in.
pub record Service (S P R : Type 0) : Type 0 where
  pub setup : CanMessage → P → Exec S (Nrc × P)
  pub call : P → Exec S R
  pub pack : R → CanMessage → Exec S CanMessage

-- The structures of function pointers `__interface_tp` and so on.
abbrev pub TpInterface : Type 0 → Type 0
TpInterface S = Service S TpParams TpResult

abbrev pub DscInterface : Type 0 → Type 0
DscInterface S = Service S DscParams DscResult

abbrev pub RdbaInterface : Type 0 → Type 0
RdbaInterface S = Service S RdbaParams RdbaResult

abbrev pub RdbiInterface : Type 0 → Type 0
RdbiInterface S = Service S RdbiParams RdbiResult

abbrev pub WrbaInterface : Type 0 → Type 0
WrbaInterface S = Service S WrbaParams WrbaResult

abbrev pub WrbiInterface : Type 0 → Type 0
WrbiInterface S = Service S WrbiParams WrbiResult

pub record Handlers (S : Type 0) : Type 0 where
  pub tp : TpInterface S
  pub dsc : DscInterface S
  pub rdba : RdbaInterface S
  pub rdbi : RdbiInterface S
  pub wrba : WrbaInterface S
  pub wrbi : WrbiInterface S

-- The local variables of `uds_handle_msg`, none of which is initialised: what they hold before
-- the first assignment.
pub record Locals : Type 0 where
  pub tp_param : TpParams
  pub tp_res : TpResult
  pub dsc_param : DscParams
  pub dsc_res : DscResult
  pub rdba_param : RdbaParams
  pub rdba_res : RdbaResult
  pub rdbi_param : RdbiParams
  pub rdbi_res : RdbiResult
  pub wrba_param : WrbaParams
  pub wrba_res : WrbaResult
  pub wrbi_param : WrbiParams
  pub wrbi_res : WrbiResult
