-- ===== src/Uds/Codes.antt =====
-- uds_server/inc/uds_def.h: negative response codes, service identifiers and the errors of the
-- dispatcher, with the numbers that the C enumerators stand for.
use vdiag_server.Base.{ℕ, ◌<◌, Bool, ◌==◌, arith}

pub data Nrc : Type 0 where
  positive_response general_reject service_not_supported subfunction_not_supported
        incorrect_msg_len_or_format response_too_long busy_repeat_request conditions_not_correct
        request_sequence_error no_response_from_subnet failure_prevents_execution
        request_out_of_range security_access_denied authentication_failed invalid_key
        exceeded_number_of_attempts required_time_delay_not_expired secure_data_transmission_reqd
        secure_data_transmission_not_allowed secure_data_verification_failed
        cert_validation_failed_invalid_time cert_validation_failed_invalid_signature
        cert_validation_failed_invalid_chain cert_validation_failed_invalid_type
        cert_validation_failed_invalid_format cert_validation_failed_invalid_content
        cert_validation_failed_invalid_scope cert_validation_failed_invalid_cert
        ownership_verification_failed challenge_calculation_failed setting_access_right_failed
        session_key_creation_failed configuration_data_usage_failed deauthentication_failed
        upload_download_not_accepted transfer_data_suspended general_programming_failure
        wrong_block_sequence_number response_pending subfunction_not_supported_in_session
        service_not_supported_in_session rpm_too_high rpm_too_low engine_is_running
        engine_is_not_running engine_run_time_too_low temperature_too_high temperature_too_low
        vehicle_speed_too_high vehicle_speed_too_low throttle_pedal_too_high throttle_pedal_too_low
        transmission_not_in_neutral transmission_not_in_gear brake_switch_not_closed
        shifter_lever_not_in_park torque_converter_clutch_locked voltage_too_high voltage_too_low
        resource_temporary_unavailable :
      Nrc

unfoldable pub code : Nrc → ℕ
code positive_response = 0x00
code general_reject = 0x10
code service_not_supported = 0x11
code subfunction_not_supported = 0x12
code incorrect_msg_len_or_format = 0x13
code response_too_long = 0x14
code busy_repeat_request = 0x21
code conditions_not_correct = 0x22
code request_sequence_error = 0x24
code no_response_from_subnet = 0x25
code failure_prevents_execution = 0x26
code request_out_of_range = 0x31
code security_access_denied = 0x33
code authentication_failed = 0x34
code invalid_key = 0x35
code exceeded_number_of_attempts = 0x36
code required_time_delay_not_expired = 0x37
code secure_data_transmission_reqd = 0x38
code secure_data_transmission_not_allowed = 0x39
code secure_data_verification_failed = 0x3a
code cert_validation_failed_invalid_time = 0x50
code cert_validation_failed_invalid_signature = 0x51
code cert_validation_failed_invalid_chain = 0x52
code cert_validation_failed_invalid_type = 0x53
code cert_validation_failed_invalid_format = 0x54
code cert_validation_failed_invalid_content = 0x55
code cert_validation_failed_invalid_scope = 0x56
code cert_validation_failed_invalid_cert = 0x57
code ownership_verification_failed = 0x58
code challenge_calculation_failed = 0x59
code setting_access_right_failed = 0x5a
code session_key_creation_failed = 0x5b
code configuration_data_usage_failed = 0x5c
code deauthentication_failed = 0x5d
code upload_download_not_accepted = 0x70
code transfer_data_suspended = 0x71
code general_programming_failure = 0x72
code wrong_block_sequence_number = 0x73
code response_pending = 0x78
code subfunction_not_supported_in_session = 0x7e
code service_not_supported_in_session = 0x7f
code rpm_too_high = 0x81
code rpm_too_low = 0x82
code engine_is_running = 0x83
code engine_is_not_running = 0x84
code engine_run_time_too_low = 0x85
code temperature_too_high = 0x86
code temperature_too_low = 0x87
code vehicle_speed_too_high = 0x88
code vehicle_speed_too_low = 0x89
code throttle_pedal_too_high = 0x8a
code throttle_pedal_too_low = 0x8b
code transmission_not_in_neutral = 0x8c
code transmission_not_in_gear = 0x8d
code brake_switch_not_closed = 0x8f
code shifter_lever_not_in_park = 0x90
code torque_converter_clutch_locked = 0x91
code voltage_too_high = 0x92
code voltage_too_low = 0x93
code resource_temporary_unavailable = 0x94

-- `rc == NRC_POSITIVE_RESPONSE`
abbrev pub is_positive : Nrc → Bool
is_positive rc = code rc == 0

pub data Sid : Type 0 where
  diagnostic_session_control ecu_reset read_data_by_identifier read_memory_by_address
        read_scaling_data dynamically_define_data write_data_by_identifier input_output_control
        routine_control request_download request_upload transfer_data request_transfer_exit
        write_memory_by_address tester_present control_dtc_settings security_access
        security_access_advanced communication_control enable_disable_encrypted_comms
        set_timing_parameters clear_diagnostic_information read_dtc_information
        sid_positive_response negative_response :
      Sid

abbrev pub sid : Sid → ℕ
sid diagnostic_session_control = 0x10
sid ecu_reset = 0x11
sid read_data_by_identifier = 0x22
sid read_memory_by_address = 0x23
sid read_scaling_data = 0x24
sid dynamically_define_data = 0x2c
sid write_data_by_identifier = 0x2e
sid input_output_control = 0x2f
sid routine_control = 0x31
sid request_download = 0x34
sid request_upload = 0x35
sid transfer_data = 0x36
sid request_transfer_exit = 0x37
sid write_memory_by_address = 0x3d
sid tester_present = 0x3e
sid control_dtc_settings = 0x85
sid security_access = 0x27
sid security_access_advanced = 0x29
sid communication_control = 0x28
sid enable_disable_encrypted_comms = 0x84
sid set_timing_parameters = 0x83
sid clear_diagnostic_information = 0x14
sid read_dtc_information = 0x19
sid sid_positive_response = 0x40
sid negative_response = 0x7f

pub data UdsError : Type 0 where
  no_error error_malloc error_handler_dir error_handler_init error_handler_lib_init
        error_service_not_supported error_invalid_param error_handler_internal :
      UdsError

abbrev pub error_code : UdsError → ℕ
error_code no_error = 0
error_code error_malloc = 1
error_code error_handler_dir = 2
error_code error_handler_init = 3
error_code error_handler_lib_init = 4
error_code error_service_not_supported = 5
error_code error_invalid_param = 6
error_code error_handler_internal = 7

-- Every code fits the one byte of a negative response.
pub code-lt : (rc : Nrc) → code rc < 256
unfolding code
code-lt positive_response = omega arith
code-lt _ = omega arith
