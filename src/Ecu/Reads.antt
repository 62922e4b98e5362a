-- ===== src/Ecu/Reads.antt =====
-- The server's answers to commands that read.
use vdiag_server.Handlers.DidMap.Lookup.{HasEntries}
use vdiag_server.Base.{
  ℕ, ◌+◌, ◌<◌, ◌≡◌, ◌∙◌, refl, sym, ap, some, List, [], ◌∷◌, take, drop, length-take, length-drop,
  inl, inr, arith,
}
use vdiag_server.Base.Ptr.{Ptr}
use vdiag_server.Can.{CanMessage, IsMessage, byte}
use vdiag_server.Config.{EcuConfig}
use vdiag_server.Os.{Os}
use vdiag_server.Os.Files.{View, IsRegular}
use vdiag_server.Uds.Interface.{Locals}
use vdiag_server.Handlers.Region.{IsRegion, region_size, region_addr}
use vdiag_server.Handlers.Std.{Machine}
use vdiag_server.Handlers.Std.Read.{read_by_address_lem}
use vdiag_server.Handlers.Std.Write.{with_files, memory_file}
use vdiag_server.Server.{zero_message}
use vdiag_server.Ecu.{Ecu, read_identifier, read_bytes, answer_command}
use vdiag_server.Ecu.Requests.{Asks, Stands, Answered}
use vdiag_server.Ecu.Promises.{payload-put_zero, put_zero-Fits, promised_read, promised_identifier}
use vdiag_server.Handlers.Std.ById.{
  IsMapped, named_did, with_globals, read_by_identifier_lem, read_unknown_identifier,
}

module _ (os : Os) (v : View os) (reg : IsRegular os v) (stale : Ptr → Ptr) (c : EcuConfig) where
  pub read_answered :
      (l : Locals) (req : CanMessage) (addr size : ℕ) (m : Machine os.State) (e e' : Ecu)
      (bytes : List ℕ)
      → c.memory.end_addr < 4294967296
      → IsMessage req
      → Stands os v c m e
      → Asks req (read_bytes addr size)
      → answer_command c (read_bytes addr size) e ≡ some (bytes, e')
      → Answered os v stale c l req m bytes e'
  read_answered l req addr size m e e' bytes small msg w (sid, has) said =
      let (above, below, room, some_byte, few, spare, found, same_session, same_memory, after) =
        promised_read c addr size e e' bytes said in
      let at_addr = has.at_addr in
      let of_size = has.of_size in
      let con : v.content m.globals.fs (memory_file m) ≡ some e.memory = rw w.config w.memory in
      let region : IsRegion m.uds req = record {
        addr_some = has.addr_some;
        addr_fits = has.addr_fits;
        size_some = has.size_some;
        size_fits = has.size_fits;
        complete = has.complete;
        above = rw (w.config, at_addr) above;
        below = rw (w.config, at_addr, of_size) below;
      } in
      let (t, ran, left) =
        read_by_address_lem os v reg stale l m req zero_message e.memory msg sid region
          (rw w.config small) (rw of_size some_byte) (rw of_size few) con (omega (arith, w.spare))
          (rw (at_addr, of_size) room) in
      (
        _,
        _,
        with_files m t,
        ran,
        (let len = length-take size (drop addr e.memory) in
            let len2 = length-drop addr e.memory in
            rw (at_addr, of_size, found)
              (payload-put_zero (0x63 ∷ take size (drop addr e.memory)) (1 + size) (omega arith)
                (omega arith))),
        put_zero-Fits (0x63 ∷ take (region_size req) (drop (region_addr req) e.memory))
            (1 + region_size req) (omega (arith, of_size)),
        record {
          config = w.config;
          session = w.session ∙ sym same_session;
          memory = left.content c.memory.file_path ∙ w.memory ∙ ap (λ r. some r) (sym same_memory);
          spare = omega (arith, left.spare, w.spare, after);
        },
      )

  pub identifier_answered :
      (l : Locals) (req : CanMessage) (hi lo : ℕ) (m : Machine os.State) (e e' : Ecu)
      (bytes : List ℕ)
      → c.memory.end_addr < 4294967296
      → HasEntries c
      → IsMessage req
      → Stands os v c m e
      → Asks req (read_identifier hi lo)
      → answer_command c (read_identifier hi lo) e ≡ some (bytes, e')
      → Answered os v stale c l req m bytes e'
  identifier_answered l req hi lo m e e' bytes small counted msg w (sid, long, is_hi, is_lo) said =
      elim (promised_identifier c hi lo e e' bytes said) [
        | inl (missing, reply, same) ↦
            let (table, ran) =
              read_unknown_identifier os v reg stale l m req zero_message msg long sid
                (rw w.config counted) (rw (w.config, is_hi, is_lo) missing) in
            (
              _,
              _,
              with_globals m m.globals.fs table,
              ran,
              payload-put_zero (0x7f ∷ 0x22 ∷ 0x31 ∷ []) 3 refl (omega arith) ∙ sym reply,
              put_zero-Fits (0x7f ∷ 0x22 ∷ 0x31 ∷ []) 3 (omega arith),
              rw same (record {
                config = w.config;
                session = w.session;
                memory = w.memory;
                spare = w.spare;
              }),
            )
        | inr (d, entry, p) ↦
            let con : v.content m.globals.fs (memory_file m) ≡ some e.memory =
              rw w.config w.memory in
            let mapped : IsMapped m.uds.ecucfg (named_did req) d = record {
              counted = rw w.config counted;
              entry = rw (w.config, is_hi, is_lo) entry;
              above = rw w.config p.above;
              below = rw w.config p.below;
            } in
            let (t, table, ran, left) =
              read_by_identifier_lem os v reg stale l m req zero_message d e.memory msg long sid
                mapped (rw w.config small) p.some_byte (omega (arith, p.few)) con
                (omega (arith, p.spare, w.spare)) p.room in
            let len = length-take d.size (drop d.address e.memory) in
            let len2 = length-drop d.address e.memory in
            (
              _,
              _,
              with_globals m t table,
              ran,
              rw (is_hi, is_lo, p.found)
                  (payload-put_zero (0x62 ∷ hi ∷ lo ∷ take d.size (drop d.address e.memory))
                    (3 + d.size) (omega (arith, p.room)) (omega (arith, p.few))),
              put_zero-Fits (0x62 ∷ byte req 1 ∷ byte req 2 ∷ take d.size (drop d.address e.memory))
                  (3 + d.size) (omega (arith, p.few)),
              record {
                config = w.config;
                session = w.session ∙ sym p.same_session;
                memory =
                    left.content c.memory.file_path
                    ∙ w.memory
                    ∙ ap (λ r. some r) (sym p.same_memory);
                spare = omega (arith, left.spare, w.spare, p.after);
              },
            )
      ]
