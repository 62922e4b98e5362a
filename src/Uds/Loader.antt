-- ===== src/Uds/Loader.antt =====
-- `uds_init` and `uds_deinit` of uds_server/src/uds.c, and the macros of uds_server/inc/uds.h that
-- look the handlers up. The dynamic linker is a parameter.
pub mod Resolved
use vdiag_server.Base.{ℕ, Bool, not, Option, none, some, List, [], ◌∷◌, ◌++◌, ◌==◌, if◌then◌else◌}
use vdiag_server.Base.Exec.{Exec, pure, fault, ◌>>=◌, ◌>>◌, sys}

-- The six services in the order of `uds_init`, and the three functions of each.
pub data ServiceName : Type 0 where
  tp wrba rdba wrbi rdbi dsc : ServiceName

pub data Part : Type 0 where
  setup call pack : Part

-- The symbol `uds_<service>_setup`, `uds_<service>` or `uds_<service>_pack`.
abbrev pub Symbol : Type 0
Symbol = ServiceName × Part

-- INIT_UDS_HANDLER looks up the three functions of a service.
abbrev pub symbols_of : ServiceName → List Symbol
symbols_of name = (name, Part.setup) ∷ (name, Part.call) ∷ (name, Part.pack) ∷ []

abbrev pub all_symbols : List Symbol
all_symbols =
    symbols_of ServiceName.tp
    ++ (symbols_of ServiceName.wrba
        ++ (symbols_of ServiceName.rdba
            ++ (symbols_of ServiceName.wrbi
                ++ (symbols_of ServiceName.rdbi ++ symbols_of ServiceName.dsc))))

-- Addresses and handles are numbers, null is 0. `dlsym` only looks up.
pub record Linker : Type 1 where
  pub State : Type 0
  pub calloc : State → Bool × State
  pub dlopen : List ℕ → State → ℕ × State
  pub dlsym : ℕ → Symbol → State → ℕ
  pub dlclose : ℕ → State → State

-- The handle, and the function pointers that are assigned so far.
pub record Loaded : Type 0 where
  pub puds_impl : ℕ
  pub found : List (Symbol × ℕ)

module _ (ld : Linker) where
  -- The label `err`: `puds` is freed where it is not null, and then read in either case.
  abbrev pub init_failed : {A : Type 0} → Exec ld.State A
  init_failed = fault

  -- One of the macros INIT_UDS_HANDLER_SETUP, _CALL and _PACK.
  abbrev pub load_symbol : Symbol → Loaded → Exec ld.State Loaded
  load_symbol symbol puds s =
      let address = ld.dlsym puds.puds_impl symbol s in
      (if address == 0
          then init_failed
          else pure (record puds { found = puds.found ++ ((symbol, address) ∷ []) }))
        s

  -- One macro after the other.
  unfoldable pub load_symbols : List Symbol → Loaded → Exec ld.State Loaded
  load_symbols [] puds = pure puds
  load_symbols (symbol ∷ symbols) puds = do
    puds1 ← load_symbol symbol puds
    load_symbols symbols puds1

  unfoldable pub uds_init : List ℕ → Exec ld.State Loaded
  uds_init puds_impl = do
    got ← sys ld.calloc
    if not got then init_failed else do
      handle ← sys (ld.dlopen puds_impl)
      if handle == 0
          then init_failed
          else load_symbols all_symbols (record { puds_impl = handle; found = [] })

  -- A null pointer, or a pointer to null, is `none`. The object is not freed.
  unfoldable pub uds_deinit : Option Loaded → Exec ld.State (Unit {0})
  uds_deinit none = pure tt
  uds_deinit (some puds) =
      if puds.puds_impl == 0 then pure tt else sys (λ t. (tt, ld.dlclose puds.puds_impl t))
