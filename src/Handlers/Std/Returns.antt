-- ===== src/Handlers/Std/Returns.antt =====
-- Requests that are answered whatever the operating system returns.
pub mod Calls
use vdiag_server.Base.{
  ℕ, ◌+◌, ◌≤◌, ◌<◌, ◌≡◌, ◌≢◌, ◌⊎◌, inl, inr, refl, true, Option, none, some, List, [], ◌∷◌, length,
  take, drop, replicate, length-drop, length-take, length-replicate, length-overwrite, Bool-cases,
  Option-cases, arith,
}
use native.Mathlib.Decide.{ℕ_discrete}
use vdiag_server.Base.Exec.{done, Exec-cases}
use vdiag_server.Base.Ptr.{Ptr, null, block, wild}
use vdiag_server.Can.{CanMessage, byte, put, IsMessage}
use vdiag_server.Config.{DataIdentifier, EcuConfig}
use vdiag_server.Os.{Os}
use vdiag_server.Uds.{UdsState}
use vdiag_server.Uds.Codes.{Nrc, code, is_positive, UdsError}
use vdiag_server.Uds.Interface.{Locals, WrbaParams, WrbaResult, WrbiParams, WrbiResult}
use vdiag_server.Uds.Dispatch.{handle_msg}
use vdiag_server.Uds.Dispatch.Cases.{write_by_address, write_by_identifier, unknown_service}
use vdiag_server.Handlers.Address.Value.{byte-lt}
use vdiag_server.Handlers.Region.{header_size, region_addr, region_size, wrba_setup_cases}
use vdiag_server.Handlers.DidMap.{DidMapping, mapping_of, cleared}
use vdiag_server.Handlers.DidMap.Lookup.{HasEntries, last_entry, entries, init_mapping_lem}
use vdiag_server.Handlers.Wrba.{wrba, wrba_pack}
use vdiag_server.Handlers.Wrbi.{Globals, wrbi_setup, wrbi, wrbi_pack}
use vdiag_server.Handlers.Std.{Machine, std_handlers}
use vdiag_server.Handlers.Std.ById.{named_did, request_did_lem}
use vdiag_server.Handlers.Std.Session.{tester_present_lem, session_control_lem}
use vdiag_server.Handlers.Std.Write.{with_files}
use vdiag_server.Memory.Result.{write_memory_returns}
use vdiag_server.Handlers.Std.Returns.Calls.{
  wrba_returns, wrbi_returns, EntriesFit, AlwaysAllocates, wrbi_setup_returns,
}

-- 7D, or a refusal with some code.
abbrev pub IsWriteReply : CanMessage → CanMessage → Type 0
IsWriteReply presp out =
    (out ≡ put presp (0x7d ∷ []) 1)
    ⊎ ((rc : Nrc) × (out ≡ put presp (0x7f ∷ 0x3d ∷ code rc ∷ []) 3))

wrba_pack-IsWriteReply :
    (res : WrbaResult) (presp : CanMessage) → IsWriteReply presp (wrba_pack res presp)
unfolding wrba_pack
wrba_pack-IsWriteReply res presp = elim (Bool-cases (is_positive res.rc)) [
  | inl yes_code ↦ inl (ground arith)
  | inr no_code ↦ inr (res.rc, ground arith)
]

module _ (os : Os) (stale : Ptr → Ptr) (intact : (p : Ptr) → stale p ≡ p) (l : Locals) where
  -- Whatever the operating system returns, a message of 1 to 4096 bytes that starts with 3D, whose
  -- header and data add up to less than 2 ^ 32, with the argument of the setup still in place, is
  -- answered without an error, by 7D or by a refusal, and the session, the configuration and the
  -- table of identifiers stay as they were.
  pub write_by_address_returns :
      (m : Machine os.State) (req presp : CanMessage)
      → IsMessage req
      → 0 < req.usz
      → req.usz ≤ 4096
      → byte req 0 ≡ 0x3d
      → header_size req + region_size req < 4294967296
      → (out : CanMessage) × (t : os.State) × (handle_msg
            (std_handlers os stale)
            l
            true
            req
            (some presp)
            m
          ≡ done ((UdsError.no_error, some out), with_files m t))
        × IsWriteReply presp out
  unfolding code
  write_by_address_returns m req presp msg some_byte fits sid word =
      elim (wrba_setup_cases m.uds req msg l.wrba_param word) [
        | inl (rc, refused, set_up) ↦ (
          _,
          m.globals.fs,
          rw (write_by_address (std_handlers os stale) l req presp some_byte m sid)
              (ground (arith, set_up, refused)),
          wrba_pack-IsWriteReply (record { rc = rc }) presp,
        )
        | inr (enough, set_up) ↦
            let sent = drop (header_size req) req.pdata in
            let param : WrbaParams = record {
              uaddr = region_addr req;
              usz = region_size req;
              pdata = stale (block sent);
            } in
            let (res, t, ran) =
              wrba_returns os m.uds param sent m.globals.fs (intact (block sent))
                (omega (arith, length-drop (header_size req) req.pdata, msg.full)) in
            (
              wrba_pack res presp,
              t,
              rw (write_by_address (std_handlers os stale) l req presp some_byte m sid)
                  (ground (arith, set_up, ran)),
              wrba_pack-IsWriteReply res presp,
            )
      ]

module _ (os : Os) (stale : Ptr → Ptr) (l : Locals) where
  write_by_identifier_returns :
      (m : Machine os.State) (req presp : CanMessage)
      → IsMessage req
      → 0 < req.usz
      → byte req 0 ≡ 0x2e
      → HasEntries m.uds.ecucfg
      → EntriesFit m.uds.ecucfg
      → AlwaysAllocates os
      → (reply : UdsError × Option CanMessage) × (m' : Machine os.State) × (handle_msg
            (std_handlers os stale)
            l
            true
            req
            (some presp)
            m
          ≡ done (reply, m'))
  unfolding code
  write_by_identifier_returns m req presp msg some_byte sid counted small gives =
      let (rc, p, bs, g, set_up, held, room) =
        wrbi_setup_returns os m.uds req l.wrbi_param m.globals msg counted small gives in
      let go = write_by_identifier (std_handlers os stale) l req presp some_byte m sid in
      elim (Bool-cases (is_positive rc)) [
        | inl ok ↦
            let (res, t, ran) = wrbi_returns os m.uds p bs g.fs held (room ok) in
            (
              (UdsError.no_error, some (wrbi_pack res presp)),
              record { uds = m.uds; globals = record { fs = t; dids = g.dids } },
              rw go (ground (arith, set_up, ok, ran, held)),
            )
        | inr refused ↦ (
          (UdsError.no_error, some (wrbi_pack (record { rc = rc; udid = l.wrbi_res.udid }) presp)),
          record { uds = m.uds; globals = g },
          rw go (ground (arith, set_up, refused, held)),
        )
      ]

  -- A message of 1 to 4096 bytes for any service but the two that read is handled to an end,
  -- whatever its bytes and whatever the operating system returns, where the header and the data of
  -- a write add up to less than 2 ^ 32, memory for a buffer is given, the configuration counts no
  -- more identifiers than it has, each of at most 4093 bytes and with a terminated name, and the
  -- argument of a setup is still in place.
  pub handle_msg_returns :
      (m : Machine os.State) (req presp : CanMessage)
      → ((p : Ptr) → stale p ≡ p)
      → IsMessage req
      → 0 < req.usz
      → req.usz ≤ 4096
      → byte req 0 ≢ 0x22
      → byte req 0 ≢ 0x23
      → (byte req 0 ≡ 0x3d → header_size req + region_size req < 4294967296)
      → HasEntries m.uds.ecucfg
      → EntriesFit m.uds.ecucfg
      → AlwaysAllocates os
      → (reply : UdsError × Option CanMessage) × (m' : Machine os.State) × (handle_msg
            (std_handlers os stale)
            l
            true
            req
            (some presp)
            m
          ≡ done (reply, m'))
  handle_msg_returns m req presp intact msg some_byte fits no_id no_addr word counted small gives =
      elim (ℕ_discrete (byte req 0) 0x10) [
        | yes e ↦ (_, _, session_control_lem os stale l m req presp some_byte e)
        | no n0 ↦ elim (ℕ_discrete (byte req 0) 0x3e) [
          | yes e ↦ (_, _, tester_present_lem os stale l m req presp some_byte e)
          | no n1 ↦ elim (ℕ_discrete (byte req 0) 0x3d) [
            | yes e ↦
                (let (out, t, ran, kind) =
                    write_by_address_returns os stale intact l m req presp msg some_byte fits e
                      (word e) in
                  (_, _, ran))
            | no n2 ↦ elim (ℕ_discrete (byte req 0) 0x2e) [
              | yes e ↦ write_by_identifier_returns m req presp msg some_byte e counted small gives
              | no n3 ↦ (
                _,
                _,
                unknown_service (std_handlers os stale) l req presp some_byte m n0 no_id no_addr n1
                    n2 n3,
              )
            ]
          ]
        ]
      ]
