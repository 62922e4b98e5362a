-- ===== src/Handlers/Std/Replies/Packs.antt =====
-- Each `pack` makes a response out of a response.
use vdiag_server.Base.{
  ℕ, not, ◌==◌, zero, suc, ◌+◌, ◌≤◌, ◌<◌, ◌≡◌, inl, inr, refl, Bool, true, false, some, List, [],
  ◌∷◌, ◌++◌, take, if◌then◌else◌, All, All-append, Bool-cases, arith, bit_and, bit_and_byte,
}
use mathlib.Core.Path.{subst}
use vdiag_server.Base.Word.{◌>>>◌}
use vdiag_server.Base.Exec.{done, pure, ◌>>◌, >>=-eq-done}
use vdiag_server.Base.Ptr.{Ptr, null, block, wild, free}
use vdiag_server.Can.{CanMessage, IsMessage, put}
use vdiag_server.Memory.Bytes.{HoldsBytes}
use vdiag_server.Uds.{UdsState}
use vdiag_server.Uds.Codes.{Nrc, code, code-lt, is_positive}
use vdiag_server.Uds.Interface.{
  TpResult, DscParams, DscResult, RdbaResult, RdbiResult, WrbaResult, WrbiResult,
}
use vdiag_server.Uds.Dispatch.Replies.{IsReply, put-IsReply}
use vdiag_server.Handlers.Address.Value.{byte-lt}
use vdiag_server.Handlers.Tp.{tp_pack}
use vdiag_server.Handlers.Dsc.{dsc_setup, dsc_pack}
use vdiag_server.Handlers.Rdba.{copy_in, rdba_pack}
use vdiag_server.Handlers.Rdbi.{rdbi_pack}
use vdiag_server.Handlers.Wrba.{wrba_pack}
use vdiag_server.Handlers.Wrbi.{wrbi_pack}
use vdiag_server.Handlers.Std.{left_in}

All-take : (n : ℕ) (bs : List ℕ) → All (λ b. b < 256) bs → All (λ b. b < 256) (take n bs)
All-take zero bs a = tt
All-take (suc n) [] a = tt
All-take (suc n) (b ∷ bs) a = (a.0, All-take n bs a.1)

-- A refusal in three bytes.
refusal-IsReply :
    (presp : CanMessage)
    → IsReply presp
    → (sid_byte : ℕ) (rc : Nrc) → sid_byte < 256
    → IsReply (put presp (0x7f ∷ sid_byte ∷ code rc ∷ []) 3)
refusal-IsReply presp reply sid_byte rc small =
    put-IsReply presp (0x7f ∷ sid_byte ∷ code rc ∷ []) 3 reply
      (omega arith, (small, (code-lt rc, tt))) (omega arith)

module _ {S : Type 0} (presp out : CanMessage) (s s' : S) (reply : IsReply presp) where
  copy_in-IsReply :
      (i : ℕ) (front : List ℕ) (p : Ptr) (n : ℕ)
      → All (λ b. b < 256) front
      → HoldsBytes p
      → copy_in i front p n presp s ≡ done (out, s')
      → IsReply out
  copy_in-IsReply i front null n small holds ran = absurd (ground arith)
  copy_in-IsReply i front wild n small holds ran = absurd (ground arith)
  copy_in-IsReply i front (block bs) n small holds ran =
      let same : put presp (front ++ take n bs) (i + n) ≡ out = ground arith in
      let fits : i + n ≤ 4096 = ground arith in
      subst IsReply same (
        put-IsReply presp (front ++ take n bs) (i + n) reply
          (All-append (λ b. b < 256) front (take n bs) small (All-take n bs holds)) fits)

pub dsc_setup_byte :
    (puds : UdsState) (req : CanMessage) (p p' : DscParams) (rc : Nrc)
    → IsMessage req
    → left_in (dsc_setup (some puds) req (some p)) p ≡ (rc, p')
    → is_positive rc ≡ true
    → p'.uses < 256
unfolding dsc_setup code
dsc_setup_byte puds req p p' rc msg set_up ok = let h = byte-lt msg 1 in ground (arith, h)

pub choose-IsReply :
    (b : Bool) (x y : CanMessage)
    → (b ≡ true → IsReply x)
    → (b ≡ false → IsReply y)
    → IsReply (if b then x else y)
choose-IsReply true x y yes_reply no_reply = yes_reply refl
choose-IsReply false x y yes_reply no_reply = no_reply refl

byte-and : (x : ℕ) → bit_and x 0xff < 256
byte-and x = omega (arith, bit_and_byte x)

pub tp_pack-IsReply :
    (res : TpResult) (presp : CanMessage) → IsReply presp → IsReply (tp_pack res presp)
unfolding tp_pack
tp_pack-IsReply res presp reply =
    choose-IsReply (not (is_positive res.rc)) _ _
      (λ refused. refusal-IsReply presp reply 0x3e res.rc (omega arith))
      (λ ok.
        choose-IsReply (not (res.usubfnc == 0x80)) _ _
          (λ loud.
            put-IsReply presp (0x7e ∷ 0x00 ∷ []) 2 reply (omega arith, (omega arith, tt))
              (omega arith))
          (λ quiet. reply))

pub dsc_pack-IsReply :
    (res : DscResult) (presp : CanMessage)
    → (is_positive res.rc ≡ true → res.uses < 256)
    → IsReply presp
    → IsReply (dsc_pack res presp)
unfolding dsc_pack
dsc_pack-IsReply res presp good reply =
    choose-IsReply (not (is_positive res.rc)) _ _
      (λ refused. refusal-IsReply presp reply 0x10 res.rc (omega arith))
      (λ ok.
        put-IsReply presp
          (0x50
            ∷ res.uses
            ∷ bit_and (res.p2_server_max >>> 8) 0xff
            ∷ bit_and res.p2_server_max 0xff
            ∷ bit_and (res.p2_star_server_max >>> 8) 0xff
            ∷ bit_and res.p2_star_server_max 0xff
            ∷ [])
          6 reply
          (
            omega arith,
            (good (ground arith), (byte-and _, (byte-and _, (byte-and _, (byte-and _, tt))))),
          )
          (omega arith))

pub wrba_pack-IsReply :
    (res : WrbaResult) (presp : CanMessage) → IsReply presp → IsReply (wrba_pack res presp)
unfolding wrba_pack
wrba_pack-IsReply res presp reply =
    choose-IsReply (not (is_positive res.rc)) _ _
      (λ refused. refusal-IsReply presp reply 0x3d res.rc (omega arith))
      (λ ok. put-IsReply presp (0x7d ∷ []) 1 reply (omega arith, tt) (omega arith))

pub wrbi_pack-IsReply :
    (res : WrbiResult) (presp : CanMessage) → IsReply presp → IsReply (wrbi_pack res presp)
unfolding wrbi_pack
wrbi_pack-IsReply res presp reply =
    choose-IsReply (not (is_positive res.rc)) _ _
      (λ refused. refusal-IsReply presp reply 0x2e res.rc (omega arith))
      (λ ok.
        put-IsReply presp (0x6e ∷ bit_and (res.udid >>> 8) 0xff ∷ bit_and res.udid 0xff ∷ []) 3
          reply (omega arith, (byte-and _, (byte-and _, tt))) (omega arith))

module _ {S : Type 0} where
  pub rdba_pack-IsReply :
      (res : RdbaResult) (presp out : CanMessage) (s s' : S)
      → HoldsBytes res.pdata
      → IsReply presp
      → rdba_pack res presp s ≡ done (out, s')
      → IsReply out
  unfolding rdba_pack
  rdba_pack-IsReply res presp out s s' holds reply ran =
      let refusal = put presp (0x7f ∷ 0x23 ∷ code res.rc ∷ []) 3 in
      let presp' = if not (is_positive res.rc) then refusal else presp in
      let reply' =
        choose-IsReply (not (is_positive res.rc)) refusal presp
          (λ refused. refusal-IsReply presp reply 0x23 res.rc (omega arith)) (λ ok. reply) in
      let (o, s1, copied, h1) =
        >>=-eq-done (copy_in 1 (0x63 ∷ []) res.pdata res.usz presp') (λ o. free res.pdata >> pure o)
          ran in
      let same : o ≡ out = ground arith in
      subst IsReply same (
        copy_in-IsReply presp' o s s1 reply' 1 (0x63 ∷ []) res.pdata res.usz (omega arith, tt) holds
          copied)

  pub rdbi_pack-IsReply :
      (res : RdbiResult) (presp out : CanMessage) (s s' : S)
      → (is_positive res.rc ≡ true → HoldsBytes res.pdata)
      → IsReply presp
      → rdbi_pack res presp s ≡ done (out, s')
      → IsReply out
  unfolding rdbi_pack
  rdbi_pack-IsReply res presp out s s' holds reply ran = elim (Bool-cases (is_positive res.rc)) [
    | inr refused ↦
        let same : put presp (0x7f ∷ 0x22 ∷ code res.rc ∷ []) 3 ≡ out = ground (arith, refused) in
        subst IsReply same (refusal-IsReply presp reply 0x22 res.rc (omega arith))
    | inl ok ↦
        let h = rw ok at ran in
        let front : List ℕ = 0x62 ∷ bit_and (res.udid >>> 8) 0xff ∷ bit_and res.udid 0xff ∷ [] in
        let (o, s1, copied, h1) =
          >>=-eq-done (copy_in 3 front res.pdata res.usz presp) (λ o. free res.pdata >> pure o) h in
        let same : o ≡ out = ground arith in
        subst IsReply same (
          copy_in-IsReply presp o s s1 reply 3 front res.pdata res.usz
            (omega arith, (byte-and _, (byte-and _, tt))) (holds ok) copied)
  ]
