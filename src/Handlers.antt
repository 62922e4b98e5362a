-- ===== src/Handlers.antt =====
-- uds_handlers: the services that the server loads as std_handlers.so.
pub mod Tp
pub mod Dsc
pub mod Address
pub mod Rdba
pub mod DidMap
pub mod Rdbi
pub mod Wrba
pub mod Wrbi
pub mod Std
pub mod Region
