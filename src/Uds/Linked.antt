-- ===== src/Uds/Linked.antt =====
-- uds_server/inc/uds.h and uds_server/src/uds.c: the function pointers of `uds_state_t`, and what the
-- dispatcher calls through them. The code of the loaded library is a parameter.
use vdiag_server.Base.{
  Bool, ◌∙◌, ℕ, ◌≡◌, ◌≢◌, ap, false, List, [], ◌∷◌, ◌&&◌, ◌==◌, if◌then◌else◌, arith,
}
use vdiag_server.Base.Exec.{Exec, fault}
use vdiag_server.Uds.Interface.{Service, Handlers}
use vdiag_server.Uds.Loader.{ServiceName, Part, Symbol, Linker, Loaded}

abbrev service_index : ServiceName → ℕ
service_index ServiceName.tp = 0
service_index ServiceName.wrba = 1
service_index ServiceName.rdba = 2
service_index ServiceName.wrbi = 3
service_index ServiceName.rdbi = 4
service_index ServiceName.dsc = 5

abbrev part_index : Part → ℕ
part_index Part.setup = 0
part_index Part.call = 1
part_index Part.pack = 2

-- The function pointer that a symbol is assigned to. It is null before, since `puds` is zeroed.
abbrev pub pointer : List (Symbol × ℕ) → Symbol → ℕ
pointer [] symbol = 0
pointer (((s, p), address) ∷ rest) symbol =
    if service_index s == service_index symbol.0 && part_index p == part_index symbol.1
    then address
    else pointer rest symbol

module _ {S : Type 0} where
  -- The three pointers of a service, with what is at each address. A call through null is undefined.
  abbrev pub linked :
      {P R : Type 0} → (ℕ → Service S P R) → ServiceName → List (Symbol × ℕ) → Service S P R
  linked code name found = record {
    setup = λ req p.
        let a = pointer found (name, Part.setup) in if a == 0 then fault else (code a).setup req p;
    call =
        λ p. let a = pointer found (name, Part.call) in if a == 0 then fault else (code a).call p;
    pack = λ res presp.
        let a = pointer found (name, Part.pack) in
        if a == 0 then fault else (code a).pack res presp;
  }

  -- The functions behind `puds`. The parameter `code` has what is at an address, as a function of
  -- each type.
  abbrev pub handlers_of : (ℕ → Handlers S) → Loaded → Handlers S
  handlers_of code puds = record {
    tp = linked (λ a. (code a).tp) ServiceName.tp puds.found;
    dsc = linked (λ a. (code a).dsc) ServiceName.dsc puds.found;
    rdba = linked (λ a. (code a).rdba) ServiceName.rdba puds.found;
    rdbi = linked (λ a. (code a).rdbi) ServiceName.rdbi puds.found;
    wrba = linked (λ a. (code a).wrba) ServiceName.wrba puds.found;
    wrbi = linked (λ a. (code a).wrbi) ServiceName.wrbi puds.found;
  }

  -- Two services have one of their functions in common.
  abbrev IsPart : {P R : Type 0} → Part → Service S P R → Service S P R → Type 0
  IsPart Part.setup f g = f.setup ≡ g.setup
  IsPart Part.call f g = f.call ≡ g.call
  IsPart Part.pack f g = f.pack ≡ g.pack

  -- Two sets of handlers have the function of a symbol in common.
  abbrev pub IsFunction : Symbol → Handlers S → Handlers S → Type 0
  IsFunction (ServiceName.tp, part) f g = IsPart part f.tp g.tp
  IsFunction (ServiceName.wrba, part) f g = IsPart part f.wrba g.wrba
  IsFunction (ServiceName.rdba, part) f g = IsPart part f.rdba g.rdba
  IsFunction (ServiceName.wrbi, part) f g = IsPart part f.wrbi g.wrbi
  IsFunction (ServiceName.rdbi, part) f g = IsPart part f.rdbi g.rdbi
  IsFunction (ServiceName.dsc, part) f g = IsPart part f.dsc g.dsc

  called : {A : Type 0} (a : ℕ) (f g : Exec S A) → a ≢ 0 → f ≡ g → (if a == 0 then fault else f) ≡ g
  called a f g some_address same =
      let nonzero : (a == 0) ≡ false = ground arith in
      ap (λ (b : Bool). if b then fault else f) nonzero ∙ same

  -- The library under the linker is `h`: what is found under a symbol is the function of `h`.
  abbrev pub IsLibrary : Linker → (ℕ → Handlers S) → Handlers S → Type 0
  IsLibrary ld code h =
      (handle : ℕ) (symbol : Symbol) (t : ld.State)
      → ld.dlsym handle symbol t ≢ 0
      → IsFunction symbol (code (ld.dlsym handle symbol t)) h

  linked_lem :
      {P R : Type 0} (code : ℕ → Service S P R) (name : ServiceName) (found : List (Symbol × ℕ))
      (g : Service S P R)
      → ((part : Part) → pointer found (name, part) ≢ 0)
      → ((part : Part) → IsPart part (code (pointer found (name, part))) g)
      → linked code name found ≡ g
  linked_lem code name found g some_address same = λ i. record {
    setup = λ req p. called _ _ _ (some_address Part.setup) (ap (λ f. f req p) (same Part.setup)) i;
    call = λ p. called _ _ _ (some_address Part.call) (ap (λ f. f p) (same Part.call)) i;
    pack = λ res presp.
        called _ _ _ (some_address Part.pack) (ap (λ f. f res presp) (same Part.pack)) i;
  }

  -- Where every pointer is assigned, to a function of `h`, the dispatcher calls the functions of `h`.
  pub handlers_of_lem :
      (code : ℕ → Handlers S) (puds : Loaded) (h : Handlers S)
      → ((symbol : Symbol) → pointer puds.found symbol ≢ 0)
      → ((symbol : Symbol) → IsFunction symbol (code (pointer puds.found symbol)) h)
      → handlers_of code puds ≡ h
  handlers_of_lem code puds h assigned same = λ i. record {
    tp =
        linked_lem (λ a. (code a).tp) ServiceName.tp puds.found h.tp
          (λ part. assigned (ServiceName.tp, part)) (λ part. same (ServiceName.tp, part)) i;
    dsc =
        linked_lem (λ a. (code a).dsc) ServiceName.dsc puds.found h.dsc
          (λ part. assigned (ServiceName.dsc, part)) (λ part. same (ServiceName.dsc, part)) i;
    rdba =
        linked_lem (λ a. (code a).rdba) ServiceName.rdba puds.found h.rdba
          (λ part. assigned (ServiceName.rdba, part)) (λ part. same (ServiceName.rdba, part)) i;
    rdbi =
        linked_lem (λ a. (code a).rdbi) ServiceName.rdbi puds.found h.rdbi
          (λ part. assigned (ServiceName.rdbi, part)) (λ part. same (ServiceName.rdbi, part)) i;
    wrba =
        linked_lem (λ a. (code a).wrba) ServiceName.wrba puds.found h.wrba
          (λ part. assigned (ServiceName.wrba, part)) (λ part. same (ServiceName.wrba, part)) i;
    wrbi =
        linked_lem (λ a. (code a).wrbi) ServiceName.wrbi puds.found h.wrbi
          (λ part. assigned (ServiceName.wrbi, part)) (λ part. same (ServiceName.wrbi, part)) i;
  }
