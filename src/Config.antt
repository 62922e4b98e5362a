-- ===== src/Config.antt =====
-- uds_server/inc/ecu_config.h: the configuration that the server reads once. Character arrays
-- are lists of their bytes, `data_identifiers` and `did_names` lists of `MAX_DID_ENTRIES` entries.
pub mod Text
pub mod Parse
pub mod Whole
pub mod Print
pub mod Files
use vdiag_server.Base.{ℕ, List}

abbrev pub max_string_length : ℕ
max_string_length = 256

abbrev pub max_did_entries : ℕ
max_did_entries = 50

pub record CanConfig : Type 0 where
  pub interface : List ℕ
  pub tx_id : ℕ
  pub rx_id : ℕ
  pub protocol : List ℕ

pub record UdsConfig : Type 0 where
  pub cimpl_libname : List ℕ

pub record MemoryConfig : Type 0 where
  pub file_path : List ℕ
  pub start_addr : ℕ
  pub end_addr : ℕ

pub record DataIdentifier : Type 0 where
  pub address : ℕ
  pub udid : ℕ
  pub size : ℕ
  pub access_level : ℕ

pub record LogConfig : Type 0 where
  pub level : List ℕ
  pub file : List ℕ

pub record EcuConfig : Type 0 where
  pub can : CanConfig
  pub uds : UdsConfig
  pub memory : MemoryConfig
  pub data_identifiers : List DataIdentifier
  pub did_names : List (List ℕ)
  pub did_count : ℕ
  pub logging : LogConfig
