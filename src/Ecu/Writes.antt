-- ===== src/Ecu/Writes.antt =====
-- The server's answers to commands that write.
use vdiag_server.Base.{
  ℕ, ◌≤◌, ◌<◌, ◌≡◌, ◌≢◌, ◌∙◌, refl, sym, ap, false, some, List, [], ◌∷◌, length, inl, inr, arith,
}
use vdiag_server.Base.Ptr.{Ptr}
use vdiag_server.Can.{CanMessage, byte, put, IsMessage}
use vdiag_server.Config.{EcuConfig}
use vdiag_server.Memory.Result.{check_memrange-outside}
use vdiag_server.Os.{Os}
use vdiag_server.Os.Files.{View, IsRegular, splice}
use vdiag_server.Uds.Codes.{code, Nrc, is_positive, UdsError}
use vdiag_server.Uds.Interface.{Locals}
use vdiag_server.Uds.Dispatch.Cases.{write_by_address}
use vdiag_server.Handlers.Region.{IsWrite, wrba_setup_outside}
use vdiag_server.Handlers.Wrba.{wrba_setup, wrba_pack}
use vdiag_server.Handlers.Std.{Machine, std_handlers}
use vdiag_server.Handlers.Std.Write.{with_files, memory_file, write_by_address_lem, written_data}
use vdiag_server.Server.{zero_message}
use vdiag_server.Ecu.{Ecu, write_bytes, answer_command}
use vdiag_server.Ecu.Requests.{Asks, Stands, Answered}
use vdiag_server.Ecu.Promises.{payload-put_zero, put_zero-Fits, promised_write}

module _ (os : Os) (v : View os) (reg : IsRegular os v) (stale : Ptr → Ptr)
    (intact : (p : Ptr) → stale p ≡ p) (c : EcuConfig) where
  -- Both refusals of a write leave the machine as it was.
  refused_write :
      (l : Locals) (req : CanMessage) (m : Machine os.State) (e : Ecu) (rc : Nrc)
      → IsMessage req
      → byte req 0 ≡ 0x3d
      → 0 < req.usz
      → Stands os v c m e
      → is_positive rc ≡ false
      → wrba_setup (some m.uds) req (some l.wrba_param) ≡ (rc, some l.wrba_param)
      → Answered os v stale c l req m (0x7f ∷ 0x3d ∷ code rc ∷ []) e
  unfolding wrba_pack code
  refused_write l req m e rc msg sid some_byte w negative set_up =
      let pay = payload-put_zero (0x7f ∷ 0x3d ∷ code rc ∷ []) 3 refl (omega arith) in
      (
        UdsError.no_error,
        put zero_message (0x7f ∷ 0x3d ∷ code rc ∷ []) 3,
        m,
        rw (write_by_address (std_handlers os stale) l req zero_message some_byte m sid)
            (ground (arith, set_up, negative)),
        pay,
        put_zero-Fits (0x7f ∷ 0x3d ∷ code rc ∷ []) 3 (omega arith),
        w,
      )

  locked_setup :
      (l : Locals) (req : CanMessage) (m : Machine os.State)
      → 2 ≤ req.usz
      → m.uds.uses ≢ 3
      → wrba_setup (some m.uds) req (some l.wrba_param)
        ≡ (Nrc.service_not_supported_in_session, some l.wrba_param)
  unfolding wrba_setup
  locked_setup l req m long shut = ground arith

  pub write_answered :
      (l : Locals) (req : CanMessage) (addr : ℕ) (new : List ℕ) (m : Machine os.State) (e e' : Ecu)
      (bytes : List ℕ)
      → c.memory.end_addr < 4294967296
      → IsMessage req
      → Stands os v c m e
      → Asks req (write_bytes addr new)
      → answer_command c (write_bytes addr new) e ≡ some (bytes, e')
      → Answered os v stale c l req m bytes e'
  unfolding code
  write_answered l req addr new m e e' bytes small msg w (sid, has, enough, fits, sent) said =
      let some_byte : 0 < req.usz = omega (arith, has.complete) in
      let at_addr = has.at_addr in
      let of_size = has.of_size in
      elim (promised_write c addr new e e' bytes said) [
        | inl (locked, reply, same) ↦
            rw (reply, same)
              (refused_write l req m e Nrc.service_not_supported_in_session msg sid some_byte w refl
                (locked_setup l req m (omega (arith, has.complete))
                  (λ x. locked (sym w.session ∙ x))))
        | inr (inl (extended, word, outside, reply, same)) ↦
            rw (reply, same)
              (refused_write l req m e Nrc.request_out_of_range msg sid some_byte w refl (
                wrba_setup_outside m.uds req msg l.wrba_param (rw (at_addr, of_size) word)
                  (w.session ∙ extended)
                  (has.addr_some, has.addr_fits, has.size_some, has.size_fits) has.complete
                  (rw (w.config, at_addr, of_size)
                    (check_memrange-outside c.memory.start_addr c.memory.end_addr addr (length new)
                      word outside))))
        | inr (inr (extended, above, below, room, pos, spare, reply, same_session, grown, left)) ↦
            let con : v.content m.globals.fs (memory_file m) ≡ some e.memory =
              rw w.config w.memory in
            let accepted : IsWrite m.uds req = record {
              region = record {
                addr_some = has.addr_some;
                addr_fits = has.addr_fits;
                size_some = has.size_some;
                size_fits = has.size_fits;
                complete = has.complete;
                above = rw (w.config, at_addr) above;
                below = rw (w.config, at_addr, of_size) below;
              };
              extended = w.session ∙ extended;
              has_data = rw of_size enough;
            } in
            let (t, ran, wrote) =
              write_by_address_lem os v reg stale intact l m req zero_message e.memory msg fits sid
                accepted (rw w.config small) (rw of_size pos) con (omega (arith, w.spare))
                (rw (at_addr, of_size) room) in
            (
              UdsError.no_error,
              put zero_message (0x7d ∷ []) 1,
              with_files m t,
              ran,
              payload-put_zero (0x7d ∷ []) 1 refl (omega arith) ∙ sym reply,
              put_zero-Fits (0x7d ∷ []) 1 (omega arith),
              record {
                config = w.config;
                session = w.session ∙ sym same_session;
                memory =
                    ap (λ (k : EcuConfig). v.content t k.memory.file_path) (sym w.config)
                    ∙ wrote.content
                    ∙ ap (λ (a : ℕ). some (splice a (written_data req) e.memory)) at_addr
                    ∙ ap (λ (bs : List ℕ). some (splice addr bs e.memory)) sent
                    ∙ ap some (sym grown);
                spare = wrote.spare ∙ w.spare ∙ sym left;
              },
            )
      ]
