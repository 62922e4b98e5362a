-- ===== src/Handlers/Dsc.antt =====
-- uds_handlers/src/dsc_handler.c: DiagnosticSessionControl. The call returns the state behind
-- `puds` beside its result.
use vdiag_server.Base.{
  ℕ, not, ◌||◌, Bool, Option, none, some, [], ◌∷◌, ◌==◌, bit_or, bit_and, if◌then◌else◌,
}
use vdiag_server.Base.Word.{◌>>>◌}
use vdiag_server.Can.{CanMessage, byte, put}
use vdiag_server.Uds.{UdsState}
use vdiag_server.Uds.Codes.{Nrc, code, is_positive, Sid, sid}
use vdiag_server.Uds.Interface.{DscParams, DscResult}

abbrev pub default_session : ℕ
default_session = 0x01

abbrev pub programming_session : ℕ
programming_session = 0x02

abbrev pub extended_diagnostic_session : ℕ
extended_diagnostic_session = 0x03

abbrev pub safety_system_diagnostic_session : ℕ
safety_system_diagnostic_session = 0x04

abbrev p2_server_max_default : ℕ
p2_server_max_default = 50

abbrev p2_server_max_programming : ℕ
p2_server_max_programming = 5000

abbrev p2_star_server_max_default : ℕ
p2_star_server_max_default = 5000

-- The cases of the switch in the setup.
abbrev is_session : ℕ → Bool
is_session uses =
    uses == default_session
    || (uses == programming_session
        || (uses == extended_diagnostic_session || uses == safety_system_diagnostic_session))

unfoldable pub dsc_setup : Option UdsState → CanMessage → Option DscParams → Nrc × Option DscParams
dsc_setup none req pparams = (Nrc.general_reject, pparams)
dsc_setup (some puds) req none = (Nrc.general_reject, none)
dsc_setup (some puds) req (some p) =
    if not (req.usz == 2)
    then (Nrc.incorrect_msg_len_or_format, some p)
    else if is_session (byte req 1)
    then (Nrc.positive_response, some (record { uses = byte req 1 }))
    else (Nrc.subfunction_not_supported, some p)

-- The timing of the switch in the call. `res` was zeroed, and no case stands for other sessions.
abbrev timing : ℕ → ℕ × ℕ
timing uses =
    if uses == default_session
    then (p2_server_max_default, p2_star_server_max_default)
    else if uses == programming_session
    then (p2_server_max_programming, p2_star_server_max_default)
    else if uses == extended_diagnostic_session || uses == safety_system_diagnostic_session
    then (p2_server_max_default, p2_star_server_max_default)
    else (0, 0)

unfoldable pub dsc : Option UdsState → DscParams → DscResult × Option UdsState
dsc none params = (
  record { rc = Nrc.conditions_not_correct; uses = 0; p2_server_max = 0; p2_star_server_max = 0 },
  none,
)
dsc (some puds) params = (
  record {
    rc = Nrc.positive_response;
    uses = params.uses;
    p2_server_max = (timing params.uses).0;
    p2_star_server_max = (timing params.uses).1;
  },
  some (record puds { uses = params.uses }),
)

unfoldable pub dsc_pack : DscResult → CanMessage → CanMessage
dsc_pack res presp =
    if not (is_positive res.rc)
    then put presp
        (sid Sid.negative_response ∷ sid Sid.diagnostic_session_control ∷ code res.rc ∷ []) 3
    else put presp
        (bit_or (sid Sid.diagnostic_session_control) 0x40
          ∷ res.uses
          ∷ bit_and (res.p2_server_max >>> 8) 0xff
          ∷ bit_and res.p2_server_max 0xff
          ∷ bit_and (res.p2_star_server_max >>> 8) 0xff
          ∷ bit_and res.p2_star_server_max 0xff
          ∷ [])
        6
