-- ===== src/Ecu/WritesById.antt =====
-- The server's answers to commands that write by identifier.
use vdiag_server.Handlers.DidMap.Lookup.{HasEntries}
use vdiag_server.Base.{
  ℕ, ◌≤◌, ◌<◌, ◌≡◌, ◌∙◌, refl, sym, ap, some, List, [], ◌∷◌, take, drop, inl, inr, arith,
}
use vdiag_server.Base.Ptr.{Ptr}
use vdiag_server.Can.{CanMessage, byte, put, IsMessage}
use vdiag_server.Config.{EcuConfig}
use vdiag_server.Os.{Os}
use vdiag_server.Os.Files.{View, IsRegular, splice}
use vdiag_server.Uds.Codes.{code, Nrc, UdsError}
use vdiag_server.Uds.Interface.{Locals}
use vdiag_server.Handlers.Std.{Machine}
use vdiag_server.Handlers.Std.ById.{with_globals}
use vdiag_server.Handlers.Std.Refused.{IsRefused, write_by_identifier_refused}
use vdiag_server.Handlers.Std.Write.{memory_file}
use vdiag_server.Handlers.Std.WriteById.{write_by_identifier_lem}
use vdiag_server.Server.{zero_message}
use vdiag_server.Ecu.{Ecu, write_identifier, answer_command}
use vdiag_server.Ecu.Requests.{Asks, Ready, Stands, Answered}
use vdiag_server.Ecu.Promises.{payload-put_zero, put_zero-Fits, promised_write_identifier}

module _ (os : Os) (v : View os) (reg : IsRegular os v) (stale : Ptr → Ptr) (c : EcuConfig) where
  -- A refusal leaves a machine that stands for the same ECU.
  refused_write :
      (l : Locals) (req : CanMessage) (m : Machine os.State) (e : Ecu) (rc : Nrc)
      → HasEntries c
      → IsMessage req
      → byte req 0 ≡ 0x2e
      → 0 < req.usz
      → Stands os v c m e
      → IsRefused m req rc
      → Answered os v stale c l req m (0x7f ∷ 0x2e ∷ code rc ∷ []) e
  refused_write l req m e rc counted msg sid some_byte w why =
      let (t, table, ran, same) =
        write_by_identifier_refused os v reg stale l m req zero_message rc msg some_byte sid
          (rw w.config counted) why in
      (
        UdsError.no_error,
        put zero_message (0x7f ∷ 0x2e ∷ code rc ∷ []) 3,
        with_globals m t table,
        ran,
        payload-put_zero (0x7f ∷ 0x2e ∷ code rc ∷ []) 3 refl (omega arith),
        put_zero-Fits (0x7f ∷ 0x2e ∷ code rc ∷ []) 3 (omega arith),
        record {
          config = w.config;
          session = w.session;
          memory = same.content c.memory.file_path ∙ w.memory;
          spare = same.spare ∙ w.spare;
        },
      )

  pub write_identifier_answered :
      (l : Locals) (req : CanMessage) (hi lo : ℕ) (new : List ℕ) (m : Machine os.State) (e e' : Ecu)
      (bytes : List ℕ)
      → c.memory.end_addr < 4294967296
      → HasEntries c
      → IsMessage req
      → Stands os v c m e
      → Asks req (write_identifier hi lo new)
      → Ready c l (write_identifier hi lo new)
      → answer_command c (write_identifier hi lo new) e ≡ some (bytes, e')
      → Answered os v stale c l req m bytes e'
  unfolding code
  write_identifier_answered l req hi lo new m e e' bytes small counted msg w
        (sid, size, is_hi, is_lo, sent) ready said =
      let long : 3 ≤ req.usz = omega (arith, size) in
      let some_byte : 0 < req.usz = omega (arith, size) in
      elim (promised_write_identifier c hi lo new e e' bytes said) [
        | inl (locked, reply, same) ↦
            rw (reply, same)
              (refused_write l req m e Nrc.service_not_supported_in_session counted msg sid
                some_byte w (inr (inl (long, (λ x. locked (sym w.session ∙ x)), refl))))
        | inr (inl (extended, missing, reply, same)) ↦
            rw (reply, same)
              (refused_write l req m e Nrc.request_out_of_range counted msg sid some_byte w
                (inr (inr (long, w.session ∙ extended, rw (w.config, is_hi, is_lo) missing, refl))))
        | inr (inr (extended, (d, entry, p))) ↦
            let con : v.content m.globals.fs (memory_file m) ≡ some e.memory =
              rw w.config w.memory in
            let new_bytes : take d.size (drop 3 req.pdata) ≡ new = rw p.whole sent in
            let (t, table, ran, wrote) =
              write_by_identifier_lem os v reg stale l m req zero_message d e.memory msg long sid
                (w.session ∙ extended) (rw w.config counted) (rw (w.config, is_hi, is_lo) entry)
                (rw w.config ready) (omega (arith, p.below)) p.some_byte (omega (arith, p.few)) con
                (omega (arith, p.spare, w.spare)) p.room in
            (
              UdsError.no_error,
              put zero_message (0x6e ∷ byte req 1 ∷ byte req 2 ∷ []) 3,
              with_globals m t table,
              ran,
              payload-put_zero (0x6e ∷ byte req 1 ∷ byte req 2 ∷ []) 3 refl (omega arith)
                  ∙ rw (is_hi, is_lo) (sym p.found),
              put_zero-Fits (0x6e ∷ byte req 1 ∷ byte req 2 ∷ []) 3 (omega arith),
              record {
                config = w.config;
                session = w.session ∙ sym p.same_session;
                memory =
                    ap (λ (k : EcuConfig). v.content t k.memory.file_path) (sym w.config)
                    ∙ wrote.content
                    ∙ ap (λ (bs : List ℕ). some (splice d.address bs e.memory)) new_bytes
                    ∙ ap some (sym p.grown);
                spare = wrote.spare ∙ w.spare ∙ sym p.after;
              },
            )
      ]
