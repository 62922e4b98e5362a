-- ===== src/Uds.antt =====
-- `uds_state_t` of uds_server/inc/uds.h, without its function pointers (`Uds.Interface`), and the
-- dispatcher of uds_server/src/uds.c.
pub mod Codes
pub mod Interface
pub mod Dispatch
pub mod Loader
pub mod Linked
use vdiag_server.Base.{ℕ}
use vdiag_server.Config.{EcuConfig}

-- `ecucfg` is the object behind `pecucfg`; `uses` is the diagnostic session.
pub record UdsState : Type 0 where
  pub ecucfg : EcuConfig
  pub client_addr : ℕ
  pub uses : ℕ
