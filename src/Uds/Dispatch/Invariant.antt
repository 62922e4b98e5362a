-- ===== src/Uds/Dispatch/Invariant.antt =====
-- The rule for what every request preserves: it is enough that each function pointer of the
-- services does, from what holds before the request to what holds after it, where `call` may rely on what a positive `setup` promises of the parameters.
use vdiag_server.Base.{
  ◌<◌, ◌≡◌, inl, inr, Bool, true, false, none, some, Option, ltb, Bool-cases, arith,
}
use native.Mathlib.Decide.{ℕ_discrete}
use mathlib.Core.Path.{subst}
use vdiag_server.Base.Exec.{done, >>=-eq-done, pure-eq-done}
use vdiag_server.Base.Ptr.{Ptr, free}
use vdiag_server.Can.{CanMessage, byte}
use vdiag_server.Uds.Codes.{Nrc, is_positive, UdsError}
use vdiag_server.Uds.Interface.{
  Service, Handlers, Locals, DscParams, WrbaParams, WrbiParams, WrbiResult,
}
use vdiag_server.Uds.Dispatch.{exchange, answer, serve, write_by_id, give_back, handle_msg}
use vdiag_server.Uds.Dispatch.Cases.{
  session_control, read_by_identifier, read_by_address, tester_present, write_by_address,
  write_by_identifier, unknown_service,
}

pub record Preserves {S P R : Type 0} (svc : Service S P R) (Pre Inv : S → Type 0)
    (Promise : P → Type 0) : Type 0 where
  pub setup :
      (req : CanMessage) (p p' : P) (rc : Nrc) (s s' : S)
      → Pre s
      → svc.setup req p s ≡ done ((rc, p'), s')
      → Inv s' × (is_positive rc ≡ true → Promise p')
  pub call :
      (p : P) (res : R) (s s' : S) → Inv s → Promise p → svc.call p s ≡ done (res, s') → Inv s'
  pub pack :
      (res : R) (presp out : CanMessage) (s s' : S)
      → Inv s
      → svc.pack res presp s ≡ done (out, s')
      → Inv s'

module _ {S P R : Type 0} (svc : Service S P R) (Pre Inv : S → Type 0) (Promise : P → Type 0)
    (keep : Preserves svc Pre Inv Promise) where
  answer_keeps :
      (refused : Nrc → R) (rc : Nrc) (p : P) (res : R) (s s' : S)
      → Inv s
      → (is_positive rc ≡ true → Promise p)
      → answer svc refused rc p s ≡ done (res, s')
      → Inv s'
  answer_keeps refused rc p res s s' inv promise h = elim (Bool-cases (is_positive rc)) [
    | inl accepted ↦ keep.call p res s s' inv (promise accepted) (rw accepted at h)
    | inr declined ↦ subst Inv (pure-eq-done (rw declined at h)).1 inv
  ]

  pub exchange_keeps :
      (p : P) (refused : Nrc → R) (req presp : CanMessage) (r : P × CanMessage) (s s' : S)
      → Pre s
      → exchange svc p refused req presp s ≡ done (r, s')
      → Inv s'
  exchange_keeps p refused req presp r s s' pre h =
      let ((rc, p'), s1, set_up, h1) = >>=-eq-done (svc.setup req p) _ h in
      let (inv1, promise) = keep.setup req p p' rc s s1 pre set_up in
      let (res, s2, called, h2) = >>=-eq-done (answer svc refused rc p') _ h1 in
      let inv2 = answer_keeps refused rc p' res s1 s2 inv1 promise called in
      let (out, s3, packed, h3) = >>=-eq-done (svc.pack res presp) _ h2 in
      subst Inv (pure-eq-done h3).1 (keep.pack res presp out s2 s3 inv2 packed)

-- All six services, of which three may promise something of their parameters.
pub record PreservesAll {S : Type 0} (h : Handlers S) (Pre Inv : S → Type 0) : Type 1 where
  pub OfDsc : DscParams → Type 0
  pub OfWrba : WrbaParams → Type 0
  pub OfWrbi : WrbiParams → Type 0
  pub tp : Preserves h.tp Pre Inv (λ p. Unit {0})
  pub dsc : Preserves h.dsc Pre Inv OfDsc
  pub rdba : Preserves h.rdba Pre Inv (λ p. Unit {0})
  pub rdbi : Preserves h.rdbi Pre Inv (λ p. Unit {0})
  pub wrba : Preserves h.wrba Pre Inv OfWrba
  pub wrbi : Preserves h.wrbi Pre Inv OfWrbi

module _ {S : Type 0} (h : Handlers S) (Pre Inv : S → Type 0) (weaken : (s : S) → Pre s → Inv s)
    (keep : PreservesAll h Pre Inv) (l : Locals) (req : CanMessage) where
  serve_keeps :
      {P R : Type 0} (svc : Service S P R) (Promise : P → Type 0)
      (ok : Preserves svc Pre Inv Promise) (p : P) (refused : Nrc → R) (presp : CanMessage)
      (r : UdsError × Option CanMessage) (s s' : S)
      → Pre s
      → give_back (serve svc p refused req presp) s ≡ done (r, s')
      → Inv s'
  serve_keeps svc Promise ok p refused presp r s s' pre ran =
      let (_, s1, served, h1) = >>=-eq-done (serve svc p refused req presp) _ ran in
      let (q, s2, exchanged, h2) = >>=-eq-done (exchange svc p refused req presp) _ served in
      let inv2 = exchange_keeps svc Pre Inv Promise ok p refused req presp q s s2 pre exchanged in
      subst Inv (pure-eq-done h1).1 (subst Inv (pure-eq-done h2).1 inv2)

  free_pure : (p : Ptr) (s s' : S) (u : Unit {0}) → free p s ≡ done (u, s') → s ≡ s'
  free_pure Ptr.null s s' u ran = ground arith
  free_pure (Ptr.block bs) s s' u ran = ground arith
  free_pure Ptr.wild s s' u ran = ground arith

  write_by_id_keeps :
      (presp : CanMessage) (r : UdsError × Option CanMessage) (s s' : S)
      → Pre s
      → give_back (write_by_id h l req presp) s ≡ done (r, s')
      → Inv s'
  write_by_id_keeps presp r s s' pre ran =
      let (_, s1, served, h1) = >>=-eq-done (write_by_id h l req presp) _ ran in
      let refused =
        λ (c : Nrc). let r = l.wrbi_res in let q : WrbiResult = record r { rc = c } in q in
      let ((p, out), s2, exchanged, h2) =
        >>=-eq-done (exchange h.wrbi l.wrbi_param refused req presp) _ served in
      let (_, s3, freed, h3) = >>=-eq-done (free p.pdata) _ h2 in
      let inv2 =
        exchange_keeps h.wrbi Pre Inv keep.OfWrbi keep.wrbi l.wrbi_param refused req presp (p, out)
          s s2 pre exchanged in
      let inv3 = subst Inv (free_pure p.pdata s2 s3 _ freed) inv2 in
      subst Inv (pure-eq-done h1).1 (subst Inv (pure-eq-done h3).1 inv3)

  by_identifier :
      (presp : CanMessage) (r : UdsError × Option CanMessage) (s s' : S)
      → 0 < req.usz
      → Pre s
      → handle_msg h l true req (some presp) s ≡ done (r, s')
      → Inv s'
  by_identifier presp r s s' some_byte pre ran = elim (ℕ_discrete (byte req 0) 0x10) [
    | yes e ↦
        serve_keeps h.dsc _ keep.dsc l.dsc_param _ presp r s s' pre
          (rw (session_control h l req presp some_byte s e) at ran)
    | no n0 ↦ elim (ℕ_discrete (byte req 0) 0x22) [
      | yes e ↦
          serve_keeps h.rdbi _ keep.rdbi l.rdbi_param _ presp r s s' pre
            (rw (read_by_identifier h l req presp some_byte s e) at ran)
      | no n1 ↦ elim (ℕ_discrete (byte req 0) 0x23) [
        | yes e ↦
            serve_keeps h.rdba _ keep.rdba l.rdba_param _ presp r s s' pre
              (rw (read_by_address h l req presp some_byte s e) at ran)
        | no n2 ↦ elim (ℕ_discrete (byte req 0) 0x3e) [
          | yes e ↦
              serve_keeps h.tp _ keep.tp l.tp_param _ presp r s s' pre
                (rw (tester_present h l req presp some_byte s e) at ran)
          | no n3 ↦ elim (ℕ_discrete (byte req 0) 0x3d) [
            | yes e ↦
                serve_keeps h.wrba _ keep.wrba l.wrba_param _ presp r s s' pre
                  (rw (write_by_address h l req presp some_byte s e) at ran)
            | no n4 ↦ elim (ℕ_discrete (byte req 0) 0x2e) [
              | yes e ↦
                  write_by_id_keeps presp r s s' pre
                    (rw (write_by_identifier h l req presp some_byte s e) at ran)
              | no n5 ↦
                  let other = unknown_service h l req presp some_byte s n0 n1 n2 n3 n4 n5 in
                  let same : s ≡ s' = ground arith in subst Inv same (weaken s pre)
            ]
          ]
        ]
      ]
    ]
  ]

  -- What every function pointer preserves, a request preserves, whatever its bytes.
  pub handle_msg_keeps :
      (has_state : Bool) (presp : Option CanMessage) (r : UdsError × Option CanMessage) (s s' : S)
      → Pre s
      → handle_msg h l has_state req presp s ≡ done (r, s')
      → Inv s'
  unfolding handle_msg
  handle_msg_keeps has_state none r s s' pre ran = subst Inv (pure-eq-done ran).1 (weaken s pre)
  handle_msg_keeps false (some presp) r s s' pre ran =
      (let same : s ≡ s' = ground arith in subst Inv same (weaken s pre))
  handle_msg_keeps true (some presp) r s s' pre ran = elim (Bool-cases (ltb req.usz 1)) [
    | inl empty ↦ let same : s ≡ s' = ground arith in subst Inv same (weaken s pre)
    | inr more ↦ by_identifier presp r s s' (ground arith) pre ran
  ]
