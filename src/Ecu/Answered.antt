-- ===== src/Ecu/Answered.antt =====
-- The server's answers to commands without data.
use vdiag_server.Handlers.DidMap.Lookup.{HasEntries}
use vdiag_server.Base.{ℕ, ◌≡◌, ◌∙◌, inl, inr, refl, ap, sym, true, some, List, [], ◌∷◌, arith}
use vdiag_server.Base.Ptr.{Ptr}
use vdiag_server.Can.{CanMessage, byte, payload}
use vdiag_server.Config.{EcuConfig}
use vdiag_server.Os.{Os}
use vdiag_server.Os.Files.{View, IsRegular}
use vdiag_server.Uds.Interface.{Locals}
use vdiag_server.Handlers.Std.{Machine, std_handlers}
use vdiag_server.Handlers.Std.Session.{
  tester_present_lem, session_control_lem, timing_bytes, tp_reply, dsc_reply,
}
use vdiag_server.Server.{zero_message}
use vdiag_server.Ecu.{Ecu, open_session, tester_present, bad_length, other_service, answer_command}
use vdiag_server.Ecu.Requests.{Asks, Stands, Answered, Fits}
use vdiag_server.Ecu.Promises.{payload-put_zero, put_zero-Fits, zero-Fits, length-timing_bytes}
use mathlib.Core.Path.{subst}
use vdiag_server.Uds.Codes.{UdsError, Nrc, code}
use vdiag_server.Handlers.Std.Refused.{write_by_identifier_refused}
use vdiag_server.Can.{IsMessage}
use vdiag_server.Uds.Dispatch.{handle_msg}
use vdiag_server.Base.Exec.{done}
use vdiag_server.Handlers.Std.ById.{with_globals, read_short_identifier}
use vdiag_server.Can.{put}
use vdiag_server.Uds.Dispatch.Cases.{unknown_service}

module _ (os : Os) (v : View os) (reg : IsRegular os v) (stale : Ptr → Ptr) (c : EcuConfig) where
  pub session_answered :
      (l : Locals) (req : CanMessage) (uses : ℕ) (m : Machine os.State) (e e' : Ecu)
      (bytes : List ℕ)
      → Stands os v c m e
      → Asks req (open_session uses)
      → answer_command c (open_session uses) e ≡ some (bytes, e')
      → Answered os v stale c l req m bytes e'
  unfolding answer_command
  session_answered l req uses m e e' bytes w (sid, two, asked) said =
      let good =
        payload-put_zero (0x50 ∷ byte req 1 ∷ timing_bytes (byte req 1)) 6
          (omega (arith, length-timing_bytes (byte req 1))) (omega arith) in
      let bad = payload-put_zero (0x7f ∷ 0x10 ∷ 0x12 ∷ []) 3 refl (omega arith) in
      let good_fits =
        put_zero-Fits (0x50 ∷ byte req 1 ∷ timing_bytes (byte req 1)) 6 (omega arith) in
      let bad_fits = put_zero-Fits (0x7f ∷ 0x10 ∷ 0x12 ∷ []) 3 (omega arith) in
      let ran = session_control_lem os stale l m req zero_message (omega arith) sid in
      (
        _,
        _,
        _,
        ran,
        ground (arith, good, bad),
        ground (arith, good_fits, bad_fits),
        record {
          config = w.config;
          session = ground arith;
          memory = ground arith;
          spare = ground arith;
        },
      )

  pub tester_answered :
      (l : Locals) (req : CanMessage) (sub : ℕ) (m : Machine os.State) (e e' : Ecu) (bytes : List ℕ)
      → Stands os v c m e
      → Asks req (tester_present sub)
      → answer_command c (tester_present sub) e ≡ some (bytes, e')
      → Answered os v stale c l req m bytes e'
  unfolding answer_command
  tester_answered l req sub m e e' bytes w (sid, two, asked) said =
      let good = payload-put_zero (0x7e ∷ 0x00 ∷ []) 2 refl (omega arith) in
      let bad = payload-put_zero (0x7f ∷ 0x3e ∷ 0x12 ∷ []) 3 refl (omega arith) in
      let good_fits = put_zero-Fits (0x7e ∷ 0x00 ∷ []) 2 (omega arith) in
      let bad_fits = put_zero-Fits (0x7f ∷ 0x3e ∷ 0x12 ∷ []) 3 (omega arith) in
      let ran = tester_present_lem os stale l m req zero_message (omega arith) sid in
      (
        _,
        _,
        _,
        ran,
        ground (arith, good, bad),
        ground (arith, good_fits, bad_fits, zero-Fits),
        record {
          config = w.config;
          session = ground arith;
          memory = ground arith;
          spare = ground arith;
        },
      )

  -- A refusal for the length, after which the machine stands for the same ECU.
  refused_length :
      (l : Locals) (req out : CanMessage) (sid : ℕ) (m m' : Machine os.State) (e e' : Ecu)
      (bytes : List ℕ)
      → handle_msg (std_handlers os stale) l true req (some zero_message) m
        ≡ done ((UdsError.no_error, some out), m')
      → out ≡ put zero_message (0x7f ∷ sid ∷ 0x13 ∷ []) 3
      → Stands os v c m' e
      → answer_command c (bad_length sid) e ≡ some (bytes, e')
      → Answered os v stale c l req m bytes e'
  unfolding answer_command
  refused_length l req out sid m m' e e' bytes ran reply w said =
      let bad = payload-put_zero (0x7f ∷ sid ∷ 0x13 ∷ []) 3 refl (omega arith) in
      (
        _,
        out,
        m',
        ran,
        ap payload reply ∙ bad ∙ ground arith,
        subst Fits (sym reply) (put_zero-Fits (0x7f ∷ sid ∷ 0x13 ∷ []) 3 (omega arith)),
        record {
          config = w.config;
          session = ground arith;
          memory = ground arith;
          spare = ground arith;
        },
      )

  pub length_answered :
      (l : Locals) (req : CanMessage) (sid : ℕ) (m : Machine os.State) (e e' : Ecu) (bytes : List ℕ)
      → HasEntries c
      → IsMessage req
      → Stands os v c m e
      → Asks req (bad_length sid)
      → answer_command c (bad_length sid) e ≡ some (bytes, e')
      → Answered os v stale c l req m bytes e'
  unfolding code
  length_answered l req sid m e e' bytes counted msg w (named, some_byte, inl (inl is_read, short))
        said =
      let (table, ran) =
        read_short_identifier os v reg stale l m req zero_message some_byte short (named ∙ is_read)
          (rw w.config counted) in
      refused_length l req _ sid m (with_globals m m.globals.fs table) e e' bytes ran
        (rw is_read refl)
        (record { config = w.config; session = w.session; memory = w.memory; spare = w.spare }) said
  length_answered l req sid m e e' bytes counted msg w (named, some_byte, inl (inr is_write, short))
        said =
      let (t, table, ran, same) =
        write_by_identifier_refused os v reg stale l m req zero_message
          Nrc.incorrect_msg_len_or_format msg some_byte (named ∙ is_write) (rw w.config counted)
          (inl (short, refl)) in
      refused_length l req _ sid m (with_globals m t table) e e' bytes ran (rw is_write refl)
        (record {
          config = w.config;
          session = w.session;
          memory = same.content c.memory.file_path ∙ w.memory;
          spare = same.spare ∙ w.spare;
        })
        said
  length_answered l req sid m e e' bytes counted msg w
        (named, some_byte, inr (inl is_session, long)) said =
      let ran = session_control_lem os stale l m req zero_message some_byte (named ∙ is_session) in
      refused_length l req (dsc_reply req zero_message) sid m _ e e' bytes ran (ground arith)
        (record { config = w.config; session = ground arith; memory = w.memory; spare = w.spare })
        said
  length_answered l req sid m e e' bytes counted msg w (named, some_byte, inr (inr is_tester, long))
        said =
      let ran = tester_present_lem os stale l m req zero_message some_byte (named ∙ is_tester) in
      refused_length l req (tp_reply req zero_message) sid m m e e' bytes ran (ground arith) w said

  pub other_answered :
      (l : Locals) (req : CanMessage) (sid : ℕ) (m : Machine os.State) (e e' : Ecu) (bytes : List ℕ)
      → Stands os v c m e
      → Asks req (other_service sid)
      → answer_command c (other_service sid) e ≡ some (bytes, e')
      → Answered os v stale c l req m bytes e'
  unfolding answer_command
  other_answered l req sid m e e' bytes w (named, some_byte) said =
      let ran =
        unknown_service (std_handlers os stale) l req zero_message some_byte m (ground arith)
          (ground arith) (ground arith) (ground arith) (ground arith) (ground arith) in
      (
        _,
        _,
        _,
        ran,
        ground arith,
        put_zero-Fits (0x7f ∷ byte req 0 ∷ 0x11 ∷ []) 0 (omega arith),
        record {
          config = w.config;
          session = ground arith;
          memory = ground arith;
          spare = ground arith;
        },
      )
