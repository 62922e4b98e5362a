-- ===== src/Tests/Library.antt =====
-- Loading a library that has every function.
use vdiag_server.Base.{ℕ, ◌+◌, ◌≡◌, ◌⊎◌, refl, true, false, []}
use vdiag_server.Base.Exec.{done, undefined}
use vdiag_server.Uds.Interface.{Handlers}
use vdiag_server.Uds.Linked.{IsLibrary}
use vdiag_server.Uds.Loader.{ServiceName, Part, Symbol, Linker, Loaded, uds_init}
use vdiag_server.Uds.Loader.Resolved.{IsLoaded, uds_init_lem}

abbrev pub linker : Linker
linker = record {
  State = ℕ;
  calloc = λ s. (true, s);
  dlopen = λ name s. (7, s + 1);
  dlsym = λ handle symbol s. 100;
  dlclose = λ handle s. s;
}

-- The one address of that library has every function of the handlers.
pub linker-IsLibrary : {S : Type 0} (h : Handlers S) → IsLibrary linker (λ address. h) h
linker-IsLibrary h handle (ServiceName.tp, Part.setup) t some_address = refl
linker-IsLibrary h handle (ServiceName.tp, Part.call) t some_address = refl
linker-IsLibrary h handle (ServiceName.tp, Part.pack) t some_address = refl
linker-IsLibrary h handle (ServiceName.wrba, Part.setup) t some_address = refl
linker-IsLibrary h handle (ServiceName.wrba, Part.call) t some_address = refl
linker-IsLibrary h handle (ServiceName.wrba, Part.pack) t some_address = refl
linker-IsLibrary h handle (ServiceName.rdba, Part.setup) t some_address = refl
linker-IsLibrary h handle (ServiceName.rdba, Part.call) t some_address = refl
linker-IsLibrary h handle (ServiceName.rdba, Part.pack) t some_address = refl
linker-IsLibrary h handle (ServiceName.wrbi, Part.setup) t some_address = refl
linker-IsLibrary h handle (ServiceName.wrbi, Part.call) t some_address = refl
linker-IsLibrary h handle (ServiceName.wrbi, Part.pack) t some_address = refl
linker-IsLibrary h handle (ServiceName.rdbi, Part.setup) t some_address = refl
linker-IsLibrary h handle (ServiceName.rdbi, Part.call) t some_address = refl
linker-IsLibrary h handle (ServiceName.rdbi, Part.pack) t some_address = refl
linker-IsLibrary h handle (ServiceName.dsc, Part.setup) t some_address = refl
linker-IsLibrary h handle (ServiceName.dsc, Part.call) t some_address = refl
linker-IsLibrary h handle (ServiceName.dsc, Part.pack) t some_address = refl

uds_init_lem_example :
    ((puds : Loaded) × (uds_init linker [] 0 ≡ done (puds, 1))
      × ((linker.calloc 0).0 ≡ true)
      × (puds.puds_impl ≡ 7)
      × IsLoaded linker puds 1)
    ⊎ ((((linker.calloc 0).0 ≡ false)
          ⊎ (((linker.dlopen [] 0).0 ≡ 0) ⊎ ((symbol : Symbol) × (linker.dlsym 7 symbol 1 ≡ 0))))
        × (uds_init linker [] 0 ≡ undefined))
uds_init_lem_example = uds_init_lem linker [] 0
