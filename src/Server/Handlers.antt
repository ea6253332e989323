-- ===== src/Server/Handlers.antt =====
-- `handle_payload` of crates/daphne-sc-server/src/handlers.rs: the dispatch of a request by its message type
-- and the gate in front of the RPU.
use daphne_sc.Prelude.{
  ℕ, List, [], ◌∷◌, ◌++◌, ◌&&◌, Bool, true, false, none, some, Result, ok, err, if◌then◌else◌,
}
use daphne_sc.Transport.{MessageTypeV2, CommandRoute, try_from, route_message_type}
use daphne_sc.Text.{Text, ascii}
use daphne_sc.Rpu.{RpuLinkStatus, RpuError, RpuAfeTransport, rpu_error_text}
use daphne_sc.Server.Preflight.{
  PreflightStatus, ready_for_hardware_commands, failure_message, preflight_rejected,
}
use daphne_sc.Server.Status.{
  SlowControlStatus, SlowControlStatusResponse, slow_control_status_to_pb,
}
use daphne_sc.Server.Messages.{Response, Codec}
use daphne_sc.Server.Submit.{bad_payload}
use daphne_sc.Server.Afe.{
  handle_configure_fe, handle_do_afe_reset, handle_read_afe_bias, handle_read_afe_reg,
  handle_read_afe_vgain, handle_read_offset_all_afe, handle_read_offset_all_channels,
  handle_read_offset_channel, handle_read_trim_all_afe, handle_read_trim_all_channels,
  handle_read_trim_channel, handle_read_vbias_control, handle_set_afe_power_state,
  handle_set_afe_reset, handle_write_afe_attenuation, handle_write_afe_bias,
  handle_write_afe_function, handle_write_afe_reg, handle_write_afe_vgain,
  handle_write_offset_all_afe, handle_write_offset_all_channels, handle_write_offset_channel,
  handle_write_trim_all_afe, handle_write_trim_all_channels, handle_write_trim_channel,
  handle_write_vbias_control,
}
use daphne_sc.Server.Afe.Align.{handle_align_afe}

-- `is_ok`
abbrev is_ok : {E A : Type 0} → Result E A → Bool
is_ok (ok a) = true
is_ok (err e) = false

-- The link status that stands for an error.
abbrev link_status : Result RpuError RpuLinkStatus → RpuLinkStatus
link_status (ok status) = status
link_status (err e) = record {
  available = false;
  running = false;
  firmware = none;
  heartbeat = none;
  last_fault = some (rpu_error_text e);
}

-- `status.errors.push(...)`
abbrev push_error : Result RpuError RpuLinkStatus → SlowControlStatus → SlowControlStatus
push_error (ok _) status = status
push_error (err e) status = record status {
  errors = status.errors ++ ((ascii "rpu: " ++ rpu_error_text e) ∷ []);
}

abbrev status_message : PreflightStatus → Result RpuError RpuLinkStatus → Text
status_message preflight (ok _) =
    if ready_for_hardware_commands preflight then ascii "ok" else failure_message preflight
status_message preflight (err e) =
    if ready_for_hardware_commands preflight
    then ascii "RPU status failed: " ++ rpu_error_text e
    else failure_message preflight

-- `SlowControlStatusResponse { success: false, message, ..Default::default() }`
abbrev bad_slow_control_status : Text → SlowControlStatusResponse
bad_slow_control_status message = record {
  success = false;
  message = message;
  firmware = none;
  rpu = none;
  i2c = [];
  clocks = none;
  temperatures = [];
  rails = [];
  services = [];
  errors = [];
}

unfoldable pub handle_not_implemented : Codec → MessageTypeV2 → List ℕ
handle_not_implemented c MessageTypeV2.read_test_reg_req =
    c.encode (Response.test_reg 0xDEADBEEF (ascii "ok"))
handle_not_implemented c _ = []

module _ (c : Codec) {T : Type 0} (rpu : RpuAfeTransport T) where
  unfoldable pub handle_rpu_afe : MessageTypeV2 → List ℕ → T → T × List ℕ
  handle_rpu_afe MessageTypeV2.configure_fe_req payload t = handle_configure_fe c rpu payload t
  handle_rpu_afe MessageTypeV2.write_afe_reg_req payload t = handle_write_afe_reg c rpu payload t
  handle_rpu_afe MessageTypeV2.write_afe_vgain_req payload t =
      handle_write_afe_vgain c rpu payload t
  handle_rpu_afe MessageTypeV2.write_afe_bias_set_req payload t =
      handle_write_afe_bias c rpu payload t
  handle_rpu_afe MessageTypeV2.write_trim_all_ch_req payload t =
      handle_write_trim_all_channels c rpu payload t
  handle_rpu_afe MessageTypeV2.write_trim_all_afe_req payload t =
      handle_write_trim_all_afe c rpu payload t
  handle_rpu_afe MessageTypeV2.write_trim_ch_req payload t =
      handle_write_trim_channel c rpu payload t
  handle_rpu_afe MessageTypeV2.write_offset_all_ch_req payload t =
      handle_write_offset_all_channels c rpu payload t
  handle_rpu_afe MessageTypeV2.write_offset_all_afe_req payload t =
      handle_write_offset_all_afe c rpu payload t
  handle_rpu_afe MessageTypeV2.write_offset_ch_req payload t =
      handle_write_offset_channel c rpu payload t
  handle_rpu_afe MessageTypeV2.write_vbias_control_req payload t =
      handle_write_vbias_control c rpu payload t
  handle_rpu_afe MessageTypeV2.read_afe_reg_req payload t = handle_read_afe_reg c rpu payload t
  handle_rpu_afe MessageTypeV2.read_afe_vgain_req payload t = handle_read_afe_vgain c rpu payload t
  handle_rpu_afe MessageTypeV2.read_afe_bias_set_req payload t =
      handle_read_afe_bias c rpu payload t
  handle_rpu_afe MessageTypeV2.read_trim_all_ch_req payload t =
      handle_read_trim_all_channels c rpu payload t
  handle_rpu_afe MessageTypeV2.read_trim_all_afe_req payload t =
      handle_read_trim_all_afe c rpu payload t
  handle_rpu_afe MessageTypeV2.read_trim_ch_req payload t = handle_read_trim_channel c rpu payload t
  handle_rpu_afe MessageTypeV2.read_offset_all_ch_req payload t =
      handle_read_offset_all_channels c rpu payload t
  handle_rpu_afe MessageTypeV2.read_offset_all_afe_req payload t =
      handle_read_offset_all_afe c rpu payload t
  handle_rpu_afe MessageTypeV2.read_offset_ch_req payload t =
      handle_read_offset_channel c rpu payload t
  handle_rpu_afe MessageTypeV2.read_vbias_control_req payload t =
      handle_read_vbias_control c rpu payload t
  handle_rpu_afe MessageTypeV2.set_afe_reset_req payload t = handle_set_afe_reset c rpu payload t
  handle_rpu_afe MessageTypeV2.do_afe_reset_req payload t = handle_do_afe_reset c rpu payload t
  handle_rpu_afe MessageTypeV2.set_afe_power_state_req payload t =
      handle_set_afe_power_state c rpu payload t
  handle_rpu_afe MessageTypeV2.write_afe_attenuation_req payload t =
      handle_write_afe_attenuation c rpu payload t
  handle_rpu_afe MessageTypeV2.align_afe_req payload t = handle_align_afe c rpu payload t
  handle_rpu_afe MessageTypeV2.write_afe_function_req payload t =
      handle_write_afe_function c rpu payload t
  handle_rpu_afe _ payload t = (t, [])

-- `collect` is `collect_slow_control_status`, the readings of the board at the time of the request.
module _ (c : Codec) (collect : PreflightStatus → RpuLinkStatus → SlowControlStatus) {T : Type 0}
    (rpu : RpuAfeTransport T) where
  -- What follows `rpu.status()`.
  unfoldable pub answer_status : PreflightStatus → Result RpuError RpuLinkStatus → List ℕ
  answer_status preflight result =
      let success = ready_for_hardware_commands preflight && is_ok result in
      let status = push_error result (collect preflight (link_status result)) in
      c.encode (
        Response.slow_control_status
          (slow_control_status_to_pb success (status_message preflight result) status))

  unfoldable pub handle_slow_control_status : List ℕ → PreflightStatus → T → T × List ℕ
  handle_slow_control_status payload preflight t = elim (c.decode_slow_control_status payload) [
    | err e ↦ (
      t,
      c.encode (
          Response.slow_control_status
            (bad_slow_control_status (bad_payload "SlowControlStatusRequest" e))),
    )
    | ok _ ↦ let (t', result) = rpu.status t in (t', answer_status preflight result)
  ]

  unfoldable pub handle_linux_status : MessageTypeV2 → List ℕ → PreflightStatus → T → T × List ℕ
  handle_linux_status MessageTypeV2.read_current_monitor_req payload preflight t =
      elim (c.decode_read_current_monitor payload) [
        | err e ↦ (
          t,
          c.encode
              (Response.read_current_monitor false (bad_payload "cmd_readCurrentMonitor" e) 0 0),
        )
        | ok req ↦ (
          t,
          c.encode (
              Response.read_current_monitor false
                (ascii "Current monitor not implemented in Rust server yet")
                req.current_monitor_channel 0),
        )
      ]
  handle_linux_status MessageTypeV2.read_bias_voltage_monitor_req payload preflight t =
      elim (c.decode_read_bias_voltage_monitor payload) [
        | err e ↦ (
          t,
          c.encode (
              Response.read_bias_voltage_monitor false (bad_payload "cmd_readBiasVoltageMonitor" e)
                0 0),
        )
        | ok req ↦ (
          t,
          c.encode (
              Response.read_bias_voltage_monitor false
                (ascii "Bias voltage monitor not implemented in Rust server yet") req.afe_block 0),
        )
      ]
  handle_linux_status MessageTypeV2.read_general_info_req payload preflight t =
      (t, c.encode Response.general_info)
  handle_linux_status MessageTypeV2.read_slow_control_status_req payload preflight t =
      handle_slow_control_status payload preflight t
  handle_linux_status _ payload preflight t = (t, [])

  -- The arms of the route `RpuAfe`: with the RPU, or with the transport that rejects everything.
  unfoldable pub handle_gated : MessageTypeV2 → List ℕ → PreflightStatus → T → T × List ℕ
  handle_gated core_type payload preflight t =
      if ready_for_hardware_commands preflight then handle_rpu_afe c rpu core_type payload t else (
        t,
        (handle_rpu_afe c (preflight_rejected (failure_message preflight)) core_type payload tt).1,
      )

  -- The match of `handle_payload`.
  unfoldable pub handle_route :
      CommandRoute → MessageTypeV2 → List ℕ → PreflightStatus → T → T × List ℕ
  handle_route CommandRoute.rpu_afe core_type payload preflight t =
      handle_gated core_type payload preflight t
  handle_route CommandRoute.linux_status core_type payload preflight t =
      handle_linux_status core_type payload preflight t
  handle_route CommandRoute.linux_fpga core_type payload preflight t =
      (t, handle_not_implemented c core_type)
  handle_route CommandRoute.unsupported core_type payload preflight t =
      (t, handle_not_implemented c core_type)

  -- The message type is given by the 32 bits of the `i32`.
  unfoldable pub handle_payload : ℕ → List ℕ → PreflightStatus → T → T × List ℕ
  handle_payload message_type payload preflight t = elim (try_from message_type) [
    | err _ ↦ (t, [])
    | ok core_type ↦ handle_route (route_message_type core_type) core_type payload preflight t
  ]
