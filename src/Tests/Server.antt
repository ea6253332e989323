-- ===== src/Tests/Server.antt =====
-- Requests to the server, of the kind that the tests of crates/daphne-sc-server/src/router.rs make, with a
-- codec for them.
use daphne_sc.Prelude.{
  ℕ, ◌+◌, ◌≡◌, refl, arith, List, [], ◌∷◌, All, of_bool, true, false, none, some, Result, ok, err,
  ok-injective, subst,
}
use daphne_sc.Bytes.{IsByte}
use daphne_sc.Transport.{MessageTypeV2, try_from, route_message_type}
use daphne_sc.Text.{Text, ascii}
use daphne_sc.Rpu.{RpuLinkStatus, RpuError, RpuAfeTransport}
use daphne_sc.Server.Preflight.{PreflightStatus, passed, ready_for_hardware_commands}
use daphne_sc.Server.Status.{SlowControlStatus}
use daphne_sc.Server.Messages.{Codec, CmdWriteAfeReg, CmdWriteAfeFunction, ControlEnvelopeV2}
use daphne_sc.Server.Answers.{succeeds}
use daphne_sc.Server.Gate.{GatedAnswer, success_means_applied, closed_gate}
use daphne_sc.Server.Checked.{Checked, logged}
use daphne_sc.Server.Checked.Requests.{commands-Checked}
use daphne_sc.Server.Handlers.{handle_payload}
use daphne_sc.Server.Router.{handle_envelope, needs_preflight, is_checked_type, dir_response}
use daphne_sc.Server.Router.Envelope.{preflight_where_needed, request_answered}

abbrev decode_reg : List ℕ → Result Text CmdWriteAfeReg
decode_reg (afe ∷ address ∷ value ∷ []) =
    ok (record { afe_block = afe; reg_address = address; reg_value = value })
decode_reg _ = err (ascii "truncated")

abbrev decode_function : List ℕ → Result Text CmdWriteAfeFunction
decode_function (afe ∷ value ∷ []) =
    ok (record { afe_block = afe; function = ascii "LNA_GAIN"; config_value = value })
decode_function _ = err (ascii "truncated")

abbrev decode_env : List ℕ → Result Text ControlEnvelopeV2
decode_env (version ∷ dir ∷ kind ∷ payload) = ok (record {
  version = version;
  dir = dir;
  kind = kind;
  payload = payload;
  task_id = 42;
  msg_id = 100;
  correl_id = 0;
  route = ascii "test";
  timestamp_ns = 0;
})
decode_env _ = err (ascii "truncated")

abbrev codec : Codec
codec = record {
  decode_configure = λ payload. err (ascii "truncated");
  decode_write_afe_reg = decode_reg;
  decode_write_afe_vgain = λ payload. err (ascii "truncated");
  decode_write_afe_attenuation = λ payload. err (ascii "truncated");
  decode_write_afe_bias_set = λ payload. err (ascii "truncated");
  decode_write_trim_all_channels = λ payload. err (ascii "truncated");
  decode_write_trim_all_afe = λ payload. err (ascii "truncated");
  decode_write_trim_single_channel = λ payload. err (ascii "truncated");
  decode_write_offset_all_channels = λ payload. err (ascii "truncated");
  decode_write_offset_all_afe = λ payload. err (ascii "truncated");
  decode_write_offset_single_channel = λ payload. err (ascii "truncated");
  decode_write_vbias_control = λ payload. err (ascii "truncated");
  decode_read_afe_reg = λ payload. err (ascii "truncated");
  decode_read_afe_vgain = λ payload. err (ascii "truncated");
  decode_read_afe_bias_set = λ payload. err (ascii "truncated");
  decode_read_trim_all_channels = λ payload. err (ascii "truncated");
  decode_read_trim_all_afe = λ payload. err (ascii "truncated");
  decode_read_trim_single_channel = λ payload. err (ascii "truncated");
  decode_read_offset_all_channels = λ payload. err (ascii "truncated");
  decode_read_offset_all_afe = λ payload. err (ascii "truncated");
  decode_read_offset_single_channel = λ payload. err (ascii "truncated");
  decode_read_vbias_control = λ payload. err (ascii "truncated");
  decode_set_afe_reset = λ payload. err (ascii "truncated");
  decode_do_afe_reset = λ payload. err (ascii "truncated");
  decode_set_afe_power_state = λ payload. err (ascii "truncated");
  decode_align_afes = λ payload. err (ascii "truncated");
  decode_write_afe_function = decode_function;
  decode_read_current_monitor = λ payload. err (ascii "truncated");
  decode_read_bias_voltage_monitor = λ payload. err (ascii "truncated");
  decode_slow_control_status = λ payload. err (ascii "truncated");
  decode_envelope = decode_env;
  encode = λ response. of_bool (succeeds response) ∷ [];
  encode_envelope = λ envelope. envelope.version ∷ envelope.dir ∷ envelope.kind ∷ envelope.payload;
}

function_names :
    (payload : List ℕ) (req : CmdWriteAfeFunction)
    → decode_function payload ≡ ok req
    → All IsByte req.function
function_names (afe ∷ value ∷ []) req h =
    subst (λ (r : CmdWriteAfeFunction). All IsByte r.function) (ok-injective h) (omega arith)
function_names _ req h = absurd (grind (arith, h))

-- A transport that applies every command and counts them.
abbrev counting_rpu : RpuAfeTransport ℕ
counting_rpu = record {
  status = λ n. (n, err RpuError.timeout);
  submit_afe_command = λ n command. (
    n + 1,
    ok (record {
      accepted = true;
      applied = true;
      readback = none;
      fault_code = 0;
      context_code = 0;
      message = ascii "RPU applied command";
    }),
  );
}

abbrev readings : PreflightStatus → RpuLinkStatus → SlowControlStatus
readings preflight rpu = record {
  firmware = record {
    loaded = true;
    fpga_manager_state = none;
    overlay_name = none;
    build_id = none;
    pl_devices_present = [];
  };
  rpu = rpu;
  i2c = [];
  clocks = record {
    endpoint_clock_source_controlled = none;
    mmcm0_locked = none;
    mmcm1_locked = none;
    raw_endpoint_status = none;
  };
  temperatures = [];
  rails = [];
  services = [];
  errors = [];
}

abbrev clock_failed : PreflightStatus
clock_failed = record {
  checks =
      (record { name = ascii "clockchip.service"; ok = false; detail = ascii "state=failed" }) ∷ [];
}

abbrev request : List ℕ
request = 1 ∷ 3 ∷ 0x1234 ∷ []

success_means_applied_example :
    GatedAnswer codec counting_rpu passed 0
      (handle_payload codec readings counting_rpu 204 request passed 0)
unfolding try_from route_message_type
success_means_applied_example =
    success_means_applied codec readings counting_rpu MessageTypeV2.write_afe_reg_req 204 refl refl
      request passed 0

closed_gate_example : (handle_payload codec readings counting_rpu 204 request clock_failed 0).0 ≡ 0
unfolding try_from ready_for_hardware_commands
closed_gate_example =
    closed_gate codec readings counting_rpu 204 request clock_failed 0 refl (λ e. grind (arith, e))

commands-Checked_example :
    All Checked (handle_payload codec readings (logged counting_rpu) 204 request passed (0, [])).0.1
commands-Checked_example =
    commands-Checked codec readings counting_rpu function_names 204 request passed 0

preflight_where_needed_example :
    handle_envelope codec readings counting_rpu (7, 9) (2 ∷ 0 ∷ 304 ∷ []) passed 0
    ≡ handle_envelope codec readings counting_rpu (7, 9) (2 ∷ 0 ∷ 304 ∷ []) clock_failed 0
unfolding needs_preflight is_checked_type try_from route_message_type
preflight_where_needed_example =
    preflight_where_needed codec readings counting_rpu (7, 9) (2 ∷ 0 ∷ 304 ∷ []) passed clock_failed
      0 refl

-- A request to write a register.
abbrev envelope : ControlEnvelopeV2
envelope = record {
  version = 2;
  dir = 0;
  kind = 204;
  payload = request;
  task_id = 42;
  msg_id = 100;
  correl_id = 0;
  route = ascii "test";
  timestamp_ns = 0;
}

request_answered_example :
    (handle_envelope codec readings counting_rpu (7, 9) (2 ∷ 0 ∷ 204 ∷ request) passed 0 ≡ (
      (handle_payload codec readings counting_rpu 204 request passed 0).0,
      some (
          codec.encode_envelope (record {
            version = 2;
            dir = dir_response;
            kind = 205;
            payload = (handle_payload codec readings counting_rpu 204 request passed 0).1;
            task_id = 42;
            msg_id = 7;
            correl_id = 100;
            route = ascii "test";
            timestamp_ns = 9;
          })),
    ))
    × (try_from 205 ≡ err tt)
unfolding try_from
request_answered_example =
    request_answered codec readings counting_rpu (7, 9) (2 ∷ 0 ∷ 204 ∷ request) passed 0 envelope
      MessageTypeV2.write_afe_reg_req refl refl refl refl
