-- ===== src/Uds/Loader/Resolved.antt =====
-- What loading the handlers gives.
use vdiag_server.Base.{
  ℕ, ◌∙◌, sym, ◌≡◌, ◌≢◌, ◌⊎◌, inl, inr, refl, ap, true, false, List, [], ◌∷◌, ◌++◌, map, ◌==◌, All,
  Bool-cases, arith,
}
use native.Mathlib.Decide.{ℕ_discrete}
use mathlib.Core.Path.{subst}
use vdiag_server.Base.Exec.{done, undefined, pure-eq-done}
use vdiag_server.Uds.Interface.{Handlers}
use vdiag_server.Uds.Linked.{IsFunction, IsLibrary, pointer, handlers_of, handlers_of_lem}
use vdiag_server.Uds.Loader.{
  ServiceName, Part, Symbol, Linker, Loaded, all_symbols, load_symbols, uds_init,
}

append_nil : {A : Type 0} (xs : List A) → xs ++ [] ≡ xs
append_nil [] = refl
append_nil (x ∷ xs) = ap (λ r. x ∷ r) (append_nil xs)

append_assoc : {A : Type 0} (xs ys zs : List A) → (xs ++ ys) ++ zs ≡ xs ++ (ys ++ zs)
append_assoc [] ys zs = refl
append_assoc (x ∷ xs) ys zs = ap (λ r. x ∷ r) (append_assoc xs ys zs)

-- What is true of all symbols that are looked up is true of the functions of all services.
all_functions : (P : Symbol → Type 0) → All P all_symbols → (symbol : Symbol) → P symbol
all_functions P all (ServiceName.tp, Part.setup) = all.0
all_functions P all (ServiceName.tp, Part.call) = all.1.0
all_functions P all (ServiceName.tp, Part.pack) = all.1.1.0
all_functions P all (ServiceName.wrba, Part.setup) = all.1.1.1.0
all_functions P all (ServiceName.wrba, Part.call) = all.1.1.1.1.0
all_functions P all (ServiceName.wrba, Part.pack) = all.1.1.1.1.1.0
all_functions P all (ServiceName.rdba, Part.setup) = all.1.1.1.1.1.1.0
all_functions P all (ServiceName.rdba, Part.call) = all.1.1.1.1.1.1.1.0
all_functions P all (ServiceName.rdba, Part.pack) = all.1.1.1.1.1.1.1.1.0
all_functions P all (ServiceName.wrbi, Part.setup) = all.1.1.1.1.1.1.1.1.1.0
all_functions P all (ServiceName.wrbi, Part.call) = all.1.1.1.1.1.1.1.1.1.1.0
all_functions P all (ServiceName.wrbi, Part.pack) = all.1.1.1.1.1.1.1.1.1.1.1.0
all_functions P all (ServiceName.rdbi, Part.setup) = all.1.1.1.1.1.1.1.1.1.1.1.1.0
all_functions P all (ServiceName.rdbi, Part.call) = all.1.1.1.1.1.1.1.1.1.1.1.1.1.0
all_functions P all (ServiceName.rdbi, Part.pack) = all.1.1.1.1.1.1.1.1.1.1.1.1.1.1.0
all_functions P all (ServiceName.dsc, Part.setup) = all.1.1.1.1.1.1.1.1.1.1.1.1.1.1.1.0
all_functions P all (ServiceName.dsc, Part.call) = all.1.1.1.1.1.1.1.1.1.1.1.1.1.1.1.1.0
all_functions P all (ServiceName.dsc, Part.pack) = all.1.1.1.1.1.1.1.1.1.1.1.1.1.1.1.1.1.0

module _ (ld : Linker) where
  -- Each symbol with its address.
  abbrev pub addresses : ℕ → ld.State → List Symbol → List (Symbol × ℕ)
  addresses handle s symbols = map (λ symbol. (symbol, ld.dlsym handle symbol s)) symbols

  pointer-addresses :
      (handle : ℕ) (s : ld.State) (symbol : Symbol)
      → pointer (addresses handle s all_symbols) symbol ≡ ld.dlsym handle symbol s
  pointer-addresses handle s (ServiceName.tp, Part.setup) = refl
  pointer-addresses handle s (ServiceName.tp, Part.call) = refl
  pointer-addresses handle s (ServiceName.tp, Part.pack) = refl
  pointer-addresses handle s (ServiceName.wrba, Part.setup) = refl
  pointer-addresses handle s (ServiceName.wrba, Part.call) = refl
  pointer-addresses handle s (ServiceName.wrba, Part.pack) = refl
  pointer-addresses handle s (ServiceName.rdba, Part.setup) = refl
  pointer-addresses handle s (ServiceName.rdba, Part.call) = refl
  pointer-addresses handle s (ServiceName.rdba, Part.pack) = refl
  pointer-addresses handle s (ServiceName.wrbi, Part.setup) = refl
  pointer-addresses handle s (ServiceName.wrbi, Part.call) = refl
  pointer-addresses handle s (ServiceName.wrbi, Part.pack) = refl
  pointer-addresses handle s (ServiceName.rdbi, Part.setup) = refl
  pointer-addresses handle s (ServiceName.rdbi, Part.call) = refl
  pointer-addresses handle s (ServiceName.rdbi, Part.pack) = refl
  pointer-addresses handle s (ServiceName.dsc, Part.setup) = refl
  pointer-addresses handle s (ServiceName.dsc, Part.call) = refl
  pointer-addresses handle s (ServiceName.dsc, Part.pack) = refl

  load_symbols_lem :
      (symbols : List Symbol) (handle : ℕ) (found : List (Symbol × ℕ)) (s : ld.State)
      → let puds : Loaded = record { puds_impl = handle; found = found } in
        (All (λ symbol. ld.dlsym handle symbol s ≢ 0) symbols
          × (load_symbols ld symbols puds s
              ≡ done
                  (record { puds_impl = handle; found = found ++ addresses handle s symbols }, s)))
        ⊎ (((symbol : Symbol) × (ld.dlsym handle symbol s ≡ 0))
            × (load_symbols ld symbols puds s ≡ undefined))
  unfolding load_symbols
  load_symbols_lem [] handle found s = inl (tt, rw (append_nil found) refl)
  load_symbols_lem (symbol ∷ symbols) handle found s =
      let address = ld.dlsym handle symbol s in
      elim (ℕ_discrete address 0) [
        | yes null ↦ inr ((symbol, null), ground (arith, null))
        | no some_address ↦
            let one : List (Symbol × ℕ) = (symbol, address) ∷ [] in
            elim (load_symbols_lem symbols handle (found ++ one) s) [
              | inr (missing, u) ↦ inr (missing, ground (arith, some_address, u))
              | inl (rest, ran) ↦
                  (let shape = append_assoc found one (addresses handle s symbols) in
                    inl ((some_address, rest), ground (arith, some_address, ran, shape)))
            ]
      ]

  -- `puds` with a library: each of the three functions of each of the six services has its pointer,
  -- to where the linker has it, which is not null.
  pub record IsLoaded (puds : Loaded) (t : ld.State) : Type 0 where
    pub handle : puds.puds_impl ≢ 0
    pub found : (symbol : Symbol) → ld.dlsym puds.puds_impl symbol t ≢ 0
    pub assigned : (symbol : Symbol) → pointer puds.found symbol ≡ ld.dlsym puds.puds_impl symbol t

  -- Loading either gives `puds` with the handle of the library, in the state in which the library is
  -- open, with the pointer to setup, call and pack of each of the six services assigned, none of
  -- them null; or it is undefined, and then memory, library or one of the functions was missing: it
  -- never reports an error.
  pub uds_init_lem :
      (name : List ℕ) (s : ld.State)
      → let s1 = (ld.calloc s).1 in
        let (handle, t) = ld.dlopen name s1 in
        ((puds : Loaded) × (uds_init ld name s ≡ done (puds, t))
          × ((ld.calloc s).0 ≡ true)
          × (puds.puds_impl ≡ handle)
          × IsLoaded puds t)
        ⊎ ((((ld.calloc s).0 ≡ false)
              ⊎ ((handle ≡ 0) ⊎ ((symbol : Symbol) × (ld.dlsym handle symbol t ≡ 0))))
            × (uds_init ld name s ≡ undefined))
  unfolding uds_init
  uds_init_lem name s =
      let (handle, t) = ld.dlopen name (ld.calloc s).1 in
      elim (Bool-cases (ld.calloc s).0) [
        | inr no_memory ↦ inr (inl no_memory, ground (arith, no_memory))
        | inl got ↦ elim (ℕ_discrete handle 0) [
          | yes null ↦ inr (inr (inl null), ground (arith, got, null))
          | no some_handle ↦
              let nonzero : (handle == 0) ≡ false = ground arith in
              elim (load_symbols_lem all_symbols handle [] t) [
                | inl (all, ran) ↦ inl (
                  record { puds_impl = handle; found = addresses handle t all_symbols },
                  rw (got, nonzero) ran,
                  got,
                  refl,
                  record {
                    handle = some_handle;
                    found = all_functions _ all;
                    assigned = pointer-addresses handle t;
                  },
                )
                | inr (missing, u) ↦ inr (inr (inr missing), rw (got, nonzero) u)
              ]
        ]
      ]

  -- What was loaded has its pointers.
  pub uds_init-IsLoaded :
      (name : List ℕ) (s t : ld.State) (loaded : Loaded)
      → uds_init ld name s ≡ done (loaded, t)
      → IsLoaded loaded t
  uds_init-IsLoaded name s t loaded ran = elim (uds_init_lem name s) [
    | inl (puds, ok, got, same, all) ↦
        (let (puds_eq, t_eq) = pure-eq-done (sym ok ∙ ran) in
          subst (λ (p : Loaded). IsLoaded p t) puds_eq (subst (IsLoaded puds) t_eq all))
    | inr (why, stuck) ↦ absurd (ground (arith, stuck, ran))
  ]

  -- The dispatcher then calls the functions of the library.
  pub handlers_of-IsLoaded :
      {S : Type 0} (code : ℕ → Handlers S) (h : Handlers S) (puds : Loaded) (t : ld.State)
      → IsLibrary ld code h
      → IsLoaded puds t
      → handlers_of code puds ≡ h
  handlers_of-IsLoaded code h puds t library loaded =
      handlers_of_lem code puds h
        (λ symbol null. loaded.found symbol (sym (loaded.assigned symbol) ∙ null))
        (λ symbol.
          subst (λ (a : ℕ). IsFunction symbol (code a) h) (sym (loaded.assigned symbol))
            (library puds.puds_impl symbol t (loaded.found symbol)))
