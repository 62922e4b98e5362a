-- ===== src/Handlers/Tp.antt =====
-- uds_handlers/src/tp_handler.c: TesterPresent. A null pointer is `none`; of `*pparams` the
-- setup returns what it holds afterwards.
use vdiag_server.Base.{ℕ, not, ◌&&◌, Option, none, some, [], ◌∷◌, ◌==◌, bit_or, if◌then◌else◌}
use vdiag_server.Can.{CanMessage, byte, put}
use vdiag_server.Uds.{UdsState}
use vdiag_server.Uds.Codes.{Nrc, code, is_positive, Sid, sid}
use vdiag_server.Uds.Interface.{TpParams, TpResult}

abbrev pub default_subfunction : ℕ
default_subfunction = 0x00

abbrev pub suppress_pos_response_subfunction : ℕ
suppress_pos_response_subfunction = 0x80

unfoldable pub tp_setup : Option UdsState → CanMessage → Option TpParams → Nrc × Option TpParams
tp_setup none req pparams = (Nrc.general_reject, pparams)
tp_setup (some puds) req none = (Nrc.general_reject, none)
tp_setup (some puds) req (some p) =
    if not (req.usz == 2)
    then (Nrc.incorrect_msg_len_or_format, some p)
    else if not (byte req 1 == default_subfunction)
        && not (byte req 1 == suppress_pos_response_subfunction)
    then (Nrc.subfunction_not_supported, some p)
    else (Nrc.positive_response, some (record { usubfnc = byte req 1 }))

unfoldable pub tp : TpParams → TpResult
tp params = record { rc = Nrc.positive_response; usubfnc = params.usubfnc }

unfoldable pub tp_pack : TpResult → CanMessage → CanMessage
tp_pack res presp =
    if not (is_positive res.rc)
    then put presp (sid Sid.negative_response ∷ sid Sid.tester_present ∷ code res.rc ∷ []) 3
    else if not (res.usubfnc == suppress_pos_response_subfunction)
    then put presp (bit_or (sid Sid.tester_present) 0x40 ∷ default_subfunction ∷ []) 2
    else presp
