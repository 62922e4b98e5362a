-- ===== src/Handlers/Std/Replies.antt =====
-- Every response of the standard handlers fits its message.
pub mod Packs
use vdiag_server.Base.{
  ℕ, not, ◌==◌, zero, suc, ◌⊎◌, ◌+◌, ◌≤◌, ◌<◌, ◌≡◌, inl, inr, refl, sym, Bool, true, false, none,
  some, Option, List, [], ◌∷◌, ◌++◌, length, take, replicate, overwrite, leb, if◌then◌else◌, All,
  Bool-cases, arith, bit_and, bit_and_byte,
}
use mathlib.Core.Path.{subst}
use vdiag_server.Base.Word.{◌>>>◌}
use vdiag_server.Base.Exec.{done, pure, ◌>>◌, Exec-cases, >>=-eq-done, pure-eq-done}
use vdiag_server.Base.Ptr.{Ptr, null, block, wild, load, is_null, free}
use vdiag_server.Can.{CanMessage, IsMessage, byte, put}
use vdiag_server.Can.Receive.{All-overwrite, All-replicate}
use vdiag_server.Os.{Os, FileName, rdonly}
use vdiag_server.Memory.{read_memory}
use vdiag_server.Memory.Bytes.{HoldsBytes, StoresBytes, read_memory-HoldsBytes}
use vdiag_server.Uds.{UdsState}
use vdiag_server.Uds.Codes.{Nrc, code, code-lt, is_positive, UdsError}
use vdiag_server.Uds.Interface.{
  Locals, TpParams, TpResult, DscParams, DscResult, RdbaParams, RdbaResult, RdbiParams, RdbiResult,
  WrbaResult, WrbiResult,
}
use vdiag_server.Uds.Dispatch.{handle_msg}
use vdiag_server.Uds.Dispatch.Replies.{IsReply, put-IsReply, Sound, SoundAll, handle_msg_replies}
use vdiag_server.Handlers.Address.Value.{byte-lt}
use vdiag_server.Handlers.Tp.{tp_setup, tp, tp_pack}
use vdiag_server.Handlers.Dsc.{dsc_setup, dsc, dsc_pack}
use vdiag_server.Handlers.Rdba.{copy_in, allocate, rdba, rdba_pack}
use vdiag_server.Handlers.Rdbi.{rdbi, rdbi_pack}
use vdiag_server.Handlers.Wrba.{wrba_pack}
use vdiag_server.Handlers.Wrbi.{wrbi_pack}
use vdiag_server.Handlers.Std.{
  Machine, std_handlers, tp_service, dsc_service, rdba_service, rdbi_service, wrba_service,
  wrbi_service, left_in,
}
use vdiag_server.Handlers.Std.Steps.{on_files-eq-done}
use vdiag_server.Handlers.Std.Replies.Packs.{
  tp_pack-IsReply, dsc_setup_byte, dsc_pack-IsReply, wrba_pack-IsReply, wrbi_pack-IsReply,
  rdba_pack-IsReply, rdbi_pack-IsReply,
}

module _ (os : Os) (stores : StoresBytes os) where
  abbrev allocated : ℕ → os.State → Ptr
  allocated n s = if (os.calloc n s).0 then block (replicate n 0) else null

  allocated-HoldsBytes : (n : ℕ) (s : os.State) → HoldsBytes (allocated n s)
  allocated-HoldsBytes n s = elim (Bool-cases (os.calloc n s).0) [
    | inl got ↦ rw got (All-replicate n)
    | inr none_left ↦ rw none_left tt
  ]

  rdba-HoldsBytes :
      (puds : UdsState) (p : RdbaParams) (res : RdbaResult) (s t : os.State)
      → rdba os (some puds) p s ≡ done (res, t)
      → HoldsBytes res.pdata
  unfolding rdba
  rdba-HoldsBytes puds p res s t ran =
      let name = puds.ecucfg.memory.file_path in
      let buf = allocated 4096 s in
      let s1 = (os.calloc 4096 s).1 in
      elim (Exec-cases (read_memory os name p.uaddr p.usz buf s1)) [
        | inl stuck ↦ absurd (ground (arith, ran, stuck))
        | inr ((n, q), s2, was_read) ↦
            let same : q ≡ res.pdata = ground (arith, ran, was_read) in
            subst HoldsBytes same (
              read_memory-HoldsBytes os stores name p.uaddr p.usz buf q s1 s2 n
                (allocated-HoldsBytes 4096 s) was_read)
      ]

  rdbi-HoldsBytes :
      (puds : UdsState) (p : RdbiParams) (res : RdbiResult) (s t : os.State)
      → rdbi os (some puds) p s ≡ done (res, t)
      → HoldsBytes res.pdata
  unfolding rdbi
  rdbi-HoldsBytes puds p res s t ran =
      let name = puds.ecucfg.memory.file_path in
      let buf = allocated p.usz s in
      let s1 = (os.calloc p.usz s).1 in
      let holds = allocated-HoldsBytes p.usz s in
      elim (Bool-cases (is_null buf)) [
        | inl empty ↦
            let same : buf ≡ res.pdata = ground (arith, ran, empty) in subst HoldsBytes same holds
        | inr given ↦ elim (Exec-cases (read_memory os name p.uaddr p.usz buf s1)) [
          | inl stuck ↦ absurd (ground (arith, ran, given, stuck))
          | inr ((n, q), s2, was_read) ↦
              let same : q ≡ res.pdata = ground (arith, ran, given, was_read) in
              subst HoldsBytes same
                (read_memory-HoldsBytes os stores name p.uaddr p.usz buf q s1 s2 n holds was_read)
        ]
      ]

module _ (os : Os) (stores : StoresBytes os) (stale : Ptr → Ptr) where
  tp-Sound : Sound (tp_service os stale) (λ p. Unit {0}) (λ r. Unit {0})
  unfolding tp_pack
  tp-Sound = record {
    setup = λ req p p' rc s s' msg ran positive. tt;
    call = λ p res s s' promise ran. tt;
    pack = λ res presp out s s' good reply ran.
        let same = (pure-eq-done ran).0 in subst IsReply same (tp_pack-IsReply res presp reply);
  }

  dsc-Sound :
      Sound (dsc_service os stale) (λ p. p.uses < 256) (λ r. is_positive r.rc ≡ true → r.uses < 256)
  unfolding dsc
  dsc-Sound = record {
    setup = λ req p p' rc s s' msg ran positive.
        dsc_setup_byte s.uds req p p' rc msg (pure-eq-done ran).0 positive;
    call = λ p res s s' promise ran ok. ground arith;
    pack = λ res presp out s s' good reply ran.
        subst IsReply (pure-eq-done ran).0 (dsc_pack-IsReply res presp good reply);
  }

  rdba-Sound : Sound (rdba_service os stale) (λ p. Unit {0}) (λ r. HoldsBytes r.pdata)
  rdba-Sound = record {
    setup = λ req p p' rc s s' msg ran positive. tt;
    call = λ p res s s' promise ran.
        rdba-HoldsBytes os stores s.uds p res s.globals.fs s'.globals.fs
          (on_files-eq-done (rdba os (some s.uds) p) s s' res ran);
    pack = λ res presp out s s' good reply ran. rdba_pack-IsReply res presp out s s' good reply ran;
  }

  rdbi-Sound :
      Sound
        (rdbi_service os stale)
        (λ p. Unit {0})
        (λ r. is_positive r.rc ≡ true → HoldsBytes r.pdata)
  rdbi-Sound = record {
    setup = λ req p p' rc s s' msg ran positive. tt;
    call = λ p res s s' promise ran ok.
        rdbi-HoldsBytes os stores s.uds p res s.globals.fs s'.globals.fs
          (on_files-eq-done (rdbi os (some s.uds) p) s s' res ran);
    pack = λ res presp out s s' good reply ran. rdbi_pack-IsReply res presp out s s' good reply ran;
  }

  wrba-Sound : Sound (wrba_service os stale) (λ p. Unit {0}) (λ r. Unit {0})
  wrba-Sound = record {
    setup = λ req p p' rc s s' msg ran positive. tt;
    call = λ p res s s' promise ran. tt;
    pack = λ res presp out s s' good reply ran.
        subst IsReply (pure-eq-done ran).0 (wrba_pack-IsReply res presp reply);
  }

  wrbi-Sound : Sound (wrbi_service os stale) (λ p. Unit {0}) (λ r. Unit {0})
  wrbi-Sound = record {
    setup = λ req p p' rc s s' msg ran positive. tt;
    call = λ p res s s' promise ran. tt;
    pack = λ res presp out s s' good reply ran.
        subst IsReply (pure-eq-done ran).0 (wrbi_pack-IsReply res presp reply);
  }

  all-Sound : (l : Locals) → HoldsBytes l.rdba_res.pdata → SoundAll (std_handlers os stale) l
  all-Sound l holds = record {
    OfTp = λ p. Unit {0};
    OfDsc = λ p. p.uses < 256;
    GoodTp = λ r. Unit {0};
    GoodDsc = λ r. is_positive r.rc ≡ true → r.uses < 256;
    GoodRdba = λ r. HoldsBytes r.pdata;
    GoodRdbi = λ r. is_positive r.rc ≡ true → HoldsBytes r.pdata;
    tp = tp-Sound;
    dsc = dsc-Sound;
    rdba = rdba-Sound;
    rdbi = rdbi-Sound;
    wrba = wrba-Sound;
    wrbi = wrbi-Sound;
    tp_declines = λ rc declined. tt;
    dsc_declines = λ rc declined ok. ground arith;
    rdba_declines = λ rc declined. holds;
    rdbi_declines = λ rc declined ok. absurd (ground arith);
  }

-- On an operating system whose `read` stores bytes, where a pointer that the unassigned result
-- happens to hold leads to bytes if to anything, a request that is handled to an end leaves a whole
-- array of bytes in the response, and a length of at most 4096, whatever the bytes of the request.
pub handle_msg-IsReply :
    (os : Os) (stale : Ptr → Ptr) (l : Locals) (has_state : Bool) (req presp out : CanMessage)
    (err : UdsError) (m m' : Machine os.State)
    → StoresBytes os
    → HoldsBytes l.rdba_res.pdata
    → IsMessage req
    → IsReply presp
    → handle_msg (std_handlers os stale) l has_state req (some presp) m ≡ done ((err, some out), m')
    → IsReply out
handle_msg-IsReply os stale l has_state req presp out err m m' stores holds msg reply ran =
    handle_msg_replies (std_handlers os stale) l (all-Sound os stores stale l holds) req presp out
      err m m' msg reply has_state ran
