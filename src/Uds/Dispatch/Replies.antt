-- ===== src/Uds/Dispatch/Replies.antt =====
-- The rule for what is true of every response: it is enough that each service makes a response out
-- of a response, where `call` may rely on what a positive `setup` promises of the parameters, and
-- `pack` on what is good of the result.
use vdiag_server.Base.{
  ℕ, ◌≤◌, ◌<◌, ◌≡◌, inl, inr, Bool, true, false, some, Option, List, [], ◌∷◌, ltb, All, Bool-cases,
  length-overwrite, arith,
}
use native.Mathlib.Decide.{ℕ_discrete}
use mathlib.Core.Path.{subst}
use vdiag_server.Base.Exec.{done, pure, >>=-eq-done, pure-eq-done}
use vdiag_server.Base.Ptr.{free}
use vdiag_server.Can.{CanMessage, IsMessage, byte, put}
use vdiag_server.Can.Receive.{All-overwrite}
use vdiag_server.Uds.Codes.{Nrc, is_positive, UdsError}
use vdiag_server.Uds.Interface.{
  Service, Handlers, Locals, TpParams, TpResult, DscParams, DscResult, RdbaResult, RdbiResult,
  WrbiResult,
}
use vdiag_server.Handlers.Address.Value.{byte-lt}
use vdiag_server.Uds.Dispatch.{exchange, answer, serve, write_by_id, give_back, handle_msg}
use vdiag_server.Uds.Dispatch.Cases.{
  session_control, read_by_identifier, read_by_address, tester_present, write_by_address,
  write_by_identifier, unknown_service,
}

-- A message that fits its array.
pub record IsReply (m : CanMessage) : Type 0 where
  pub message : IsMessage m
  pub fits : m.usz ≤ 4096

pub put-IsReply :
    (m : CanMessage) (bs : List ℕ) (n : ℕ)
    → IsReply m
    → All (λ b. b < 256) bs
    → n ≤ 4096
    → IsReply (put m bs n)
put-IsReply m bs n reply small fits = record {
  message = record {
    full = omega (arith, length-overwrite bs m.pdata, reply.message.full);
    bytes = All-overwrite bs m.pdata small reply.message.bytes;
    word = omega (arith, fits);
  };
  fits = fits;
}

pub record Sound {S P R : Type 0} (svc : Service S P R) (Promise : P → Type 0) (Good : R → Type 0)
    : Type 0 where
  pub setup :
      (req : CanMessage) (p p' : P) (rc : Nrc) (s s' : S)
      → IsMessage req
      → svc.setup req p s ≡ done ((rc, p'), s')
      → is_positive rc ≡ true
      → Promise p'
  pub call : (p : P) (res : R) (s s' : S) → Promise p → svc.call p s ≡ done (res, s') → Good res
  pub pack :
      (res : R) (presp out : CanMessage) (s s' : S)
      → Good res
      → IsReply presp
      → svc.pack res presp s ≡ done (out, s')
      → IsReply out

module _ {S P R : Type 0} (svc : Service S P R) (Promise : P → Type 0) (Good : R → Type 0)
    (sound : Sound svc Promise Good) (refused : Nrc → R)
    (declines : (rc : Nrc) → is_positive rc ≡ false → Good (refused rc)) where
  answer-Good :
      (rc : Nrc) (p : P) (res : R) (s s' : S)
      → (is_positive rc ≡ true → Promise p)
      → answer svc refused rc p s ≡ done (res, s')
      → Good res
  answer-Good rc p res s s' promise h = elim (Bool-cases (is_positive rc)) [
    | inl accepted ↦ sound.call p res s s' (promise accepted) (rw accepted at h)
    | inr declined ↦ subst Good (pure-eq-done (rw declined at h)).0 (declines rc declined)
  ]

  pub exchange_replies :
      (p p' : P) (req presp out : CanMessage) (s s' : S)
      → IsMessage req
      → IsReply presp
      → exchange svc p refused req presp s ≡ done ((p', out), s')
      → IsReply out
  exchange_replies p p' req presp out s s' msg reply h =
      let ((rc, q), s1, set_up, h1) = >>=-eq-done (svc.setup req p) _ h in
      let (res, s2, called, h2) = >>=-eq-done (answer svc refused rc q) _ h1 in
      let good = answer-Good rc q res s1 s2 (sound.setup req p q rc s s1 msg set_up) called in
      let (out', s3, packed, h3) = >>=-eq-done (svc.pack res presp) _ h2 in
      let same : out' ≡ out = ground arith in
      subst IsReply same (sound.pack res presp out' s2 s3 good reply packed)

  pub serve_replies :
      (p : P) (req presp out : CanMessage) (err : UdsError) (s s' : S)
      → IsMessage req
      → IsReply presp
      → give_back (serve svc p refused req presp) s ≡ done ((err, some out), s')
      → IsReply out
  serve_replies p req presp out err s s' msg reply ran =
      let ((e1, o1), s1, served, h1) = >>=-eq-done (serve svc p refused req presp) _ ran in
      let ((q, o2), s2, exchanged, h2) = >>=-eq-done (exchange svc p refused req presp) _ served in
      let same : o2 ≡ out = ground arith in
      subst IsReply same (exchange_replies p q req presp o2 s s2 msg reply exchanged)

-- All six services, with what the local results are good for when a request is declined.
pub record SoundAll {S : Type 0} (h : Handlers S) (l : Locals) : Type 1 where
  pub OfTp : TpParams → Type 0
  pub OfDsc : DscParams → Type 0
  pub GoodTp : TpResult → Type 0
  pub GoodDsc : DscResult → Type 0
  pub GoodRdba : RdbaResult → Type 0
  pub GoodRdbi : RdbiResult → Type 0
  pub tp : Sound h.tp OfTp GoodTp
  pub dsc : Sound h.dsc OfDsc GoodDsc
  pub rdba : Sound h.rdba (λ p. Unit {0}) GoodRdba
  pub rdbi : Sound h.rdbi (λ p. Unit {0}) GoodRdbi
  pub wrba : Sound h.wrba (λ p. Unit {0}) (λ r. Unit {0})
  pub wrbi : Sound h.wrbi (λ p. Unit {0}) (λ r. Unit {0})
  pub tp_declines :
      (rc : Nrc) → is_positive rc ≡ false → GoodTp (let r = l.tp_res in record r { rc = rc })
  pub dsc_declines :
      (rc : Nrc) → is_positive rc ≡ false → GoodDsc (let r = l.dsc_res in record r { rc = rc })
  pub rdba_declines :
      (rc : Nrc) → is_positive rc ≡ false → GoodRdba (let r = l.rdba_res in record r { rc = rc })
  pub rdbi_declines :
      (rc : Nrc) → is_positive rc ≡ false → GoodRdbi (let r = l.rdbi_res in record r { rc = rc })

module _ {S : Type 0} (h : Handlers S) (l : Locals) (sound : SoundAll h l)
    (req presp out : CanMessage) (err : UdsError) (s s' : S) (msg : IsMessage req)
    (reply : IsReply presp) where
  write_by_id_replies :
      give_back (write_by_id h l req presp) s ≡ done ((err, some out), s') → IsReply out
  write_by_id_replies ran =
      let ((e1, o1), s1, served, h1) = >>=-eq-done (write_by_id h l req presp) _ ran in
      let refused =
        λ (c : Nrc). let r = l.wrbi_res in let q : WrbiResult = record r { rc = c } in q in
      let ((p, o2), s2, exchanged, h2) =
        >>=-eq-done (exchange h.wrbi l.wrbi_param refused req presp) _ served in
      let (_, s3, freed, h3) = >>=-eq-done (free p.pdata) _ h2 in
      let same : o2 ≡ out = ground arith in
      subst IsReply same (
        exchange_replies h.wrbi _ _ sound.wrbi refused (λ rc declined. tt) l.wrbi_param p req presp
          o2 s s2 msg reply exchanged)

  unknown_replies :
      0 < req.usz
      → pure {S = S} {A = UdsError × Option CanMessage}
          (UdsError.error_handler_init, some (put presp (0x7f ∷ byte req 0 ∷ 0x11 ∷ []) presp.usz))
          s
        ≡ done ((err, some out), s')
      → IsReply out
  unknown_replies some_byte ran =
      let same : put presp (0x7f ∷ byte req 0 ∷ 0x11 ∷ []) presp.usz ≡ out = ground arith in
      subst IsReply same (
        put-IsReply presp (0x7f ∷ byte req 0 ∷ 0x11 ∷ []) presp.usz reply
          (omega arith, (byte-lt msg 0, (omega arith, tt))) reply.fits)

  by_service :
      0 < req.usz
      → handle_msg h l true req (some presp) s ≡ done ((err, some out), s')
      → IsReply out
  by_service some_byte ran = elim (ℕ_discrete (byte req 0) 0x10) [
    | yes e ↦
        serve_replies h.dsc _ _ sound.dsc _ sound.dsc_declines l.dsc_param req presp out err s s'
          msg reply (rw (session_control h l req presp some_byte s e) at ran)
    | no n0 ↦ elim (ℕ_discrete (byte req 0) 0x22) [
      | yes e ↦
          serve_replies h.rdbi _ _ sound.rdbi _ sound.rdbi_declines l.rdbi_param req presp out err s
            s' msg reply (rw (read_by_identifier h l req presp some_byte s e) at ran)
      | no n1 ↦ elim (ℕ_discrete (byte req 0) 0x23) [
        | yes e ↦
            serve_replies h.rdba _ _ sound.rdba _ sound.rdba_declines l.rdba_param req presp out err
              s s' msg reply (rw (read_by_address h l req presp some_byte s e) at ran)
        | no n2 ↦ elim (ℕ_discrete (byte req 0) 0x3e) [
          | yes e ↦
              serve_replies h.tp _ _ sound.tp _ sound.tp_declines l.tp_param req presp out err s s'
                msg reply (rw (tester_present h l req presp some_byte s e) at ran)
          | no n3 ↦ elim (ℕ_discrete (byte req 0) 0x3d) [
            | yes e ↦
                serve_replies h.wrba _ _ sound.wrba _ (λ rc declined. tt) l.wrba_param req presp out
                  err s s' msg reply (rw (write_by_address h l req presp some_byte s e) at ran)
            | no n4 ↦ elim (ℕ_discrete (byte req 0) 0x2e) [
              | yes e ↦
                  write_by_id_replies (rw (write_by_identifier h l req presp some_byte s e) at ran)
              | no n5 ↦
                  unknown_replies some_byte
                    (rw (unknown_service h l req presp some_byte s n0 n1 n2 n3 n4 n5) at ran)
            ]
          ]
        ]
      ]
    ]
  ]

  -- A request makes a response out of a response, whatever its bytes.
  pub handle_msg_replies :
      (has_state : Bool)
      → handle_msg h l has_state req (some presp) s ≡ done ((err, some out), s')
      → IsReply out
  unfolding handle_msg
  handle_msg_replies false ran = let same : presp ≡ out = ground arith in subst IsReply same reply
  handle_msg_replies true ran = elim (Bool-cases (ltb req.usz 1)) [
    | inl empty ↦ let same : presp ≡ out = ground arith in subst IsReply same reply
    | inr more ↦ by_service (ground arith) ran
  ]
