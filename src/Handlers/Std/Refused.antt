-- ===== src/Handlers/Std/Refused.antt =====
-- The refusals of WriteDataByIdentifier, over regular files.
use vdiag_server.Base.{
  ◌≤◌, ◌<◌, ◌≡◌, ◌≢◌, ◌⊎◌, inl, inr, refl, true, false, none, some, [], ◌∷◌, replicate, arith,
}
use vdiag_server.Base.Exec.{done}
use vdiag_server.Base.Ptr.{Ptr, block}
use vdiag_server.Can.{CanMessage, byte, put, IsMessage}
use vdiag_server.Os.{Os}
use vdiag_server.Os.Files.{View, IsRegular, SameFiles}
use vdiag_server.Uds.Codes.{Nrc, code, is_positive, UdsError}
use vdiag_server.Uds.Interface.{Locals}
use vdiag_server.Uds.Dispatch.{handle_msg}
use vdiag_server.Uds.Dispatch.Cases.{write_by_identifier}
use vdiag_server.Handlers.Address.Value.{byte-lt}
use vdiag_server.Handlers.DidMap.{DidTable}
use vdiag_server.Handlers.DidMap.Lookup.{HasEntries, last_entry, entries, init_mapping_lem}
use vdiag_server.Handlers.Wrbi.{wrbi_setup, wrbi_pack}
use vdiag_server.Handlers.Std.{Machine, std_handlers}
use vdiag_server.Handlers.Std.ById.{named_did, request_did_lem, with_globals}

-- Why a request is refused: for its length, for the session, or for the want of an entry.
abbrev pub IsRefused : {F : Type 0} → Machine F → CanMessage → Nrc → Type 0
IsRefused m req rc =
    ((req.usz < 3) × (rc ≡ Nrc.incorrect_msg_len_or_format))
    ⊎ (((3 ≤ req.usz) × (m.uds.uses ≢ 3) × (rc ≡ Nrc.service_not_supported_in_session))
        ⊎ ((3 ≤ req.usz)
            × (m.uds.uses ≡ 3)
            × (last_entry (entries m.uds.ecucfg) (named_did req) ≡ none)
            × (rc ≡ Nrc.request_out_of_range)))

negative :
    {F : Type 0} (m : Machine F) (req : CanMessage) (rc : Nrc)
    → IsRefused m req rc
    → is_positive rc ≡ false
unfolding code
negative m req rc (inl (short, is_rc)) = rw is_rc refl
negative m req rc (inr (inl (long, shut, is_rc))) = rw is_rc refl
negative m req rc (inr (inr (long, extended, missing, is_rc))) = rw is_rc refl

module _ (os : Os) (v : View os) (reg : IsRegular os v) (stale : Ptr → Ptr) (l : Locals) where
  setup_refused :
      (m : Machine os.State) (req : CanMessage) (rc : Nrc)
      → IsMessage req
      → HasEntries m.uds.ecucfg
      → IsRefused m req rc
      → let garbage = l.wrbi_param in
        (t : os.State) × (table : DidTable) × (wrbi_setup os
            (some m.uds)
            req
            (some garbage)
            m.globals
          ≡ done (
            (rc, some (record garbage { pdata = block (replicate 4096 0) })),
            record { fs = t; dids = table },
          ))
        × SameFiles v m.globals.fs t
  unfolding wrbi_setup
  setup_refused m req rc msg counted why =
      let (table, filled, looked) = init_mapping_lem m.uds.ecucfg counted in
      let h1 = byte-lt msg 1 in
      let h2 = byte-lt msg 2 in
      let did = request_did_lem msg in
      let found = looked (named_did req) (omega arith) in
      let (got, same) = reg.calloc_ok 4096 m.globals.fs (omega arith) in
      (
        (os.calloc 4096 m.globals.fs).1,
        table,
        elim why [
          | inl (short, is_rc) ↦ ground (arith, filled, got, short, is_rc)
          | inr (inl (long, shut, is_rc)) ↦ ground (arith, filled, got, long, shut, is_rc)
          | inr (inr (long, extended, missing, is_rc)) ↦
              let miss : (table (named_did req)).valid ≡ 0 = rw (found, missing) refl in
              ground (arith, filled, did, got, long, extended, miss, is_rc)
        ],
        same,
      )

  -- Such a request is answered by 7F 2E and the code, and no file changes.
  pub write_by_identifier_refused :
      (m : Machine os.State) (req presp : CanMessage) (rc : Nrc)
      → IsMessage req
      → 0 < req.usz
      → byte req 0 ≡ 0x2e
      → HasEntries m.uds.ecucfg
      → IsRefused m req rc
      → (t : os.State) × (table : DidTable) × (handle_msg
            (std_handlers os stale)
            l
            true
            req
            (some presp)
            m
          ≡ done (
            (UdsError.no_error, some (put presp (0x7f ∷ 0x2e ∷ code rc ∷ []) 3)),
            with_globals m t table,
          ))
        × SameFiles v m.globals.fs t
  unfolding wrbi_pack code
  write_by_identifier_refused m req presp rc msg some_byte sid counted why =
      let (t, table, set_up, same) = setup_refused m req rc msg counted why in
      let refused = negative m req rc why in
      (
        t,
        table,
        rw (write_by_identifier (std_handlers os stale) l req presp some_byte m sid)
            (ground (arith, set_up, refused)),
        same,
      )
