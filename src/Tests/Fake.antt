-- ===== src/Tests/Fake.antt =====
-- `FakeHardware` of the tests of crates/daphne-sc-rpu/src/lib.rs, and inputs.
use daphne_sc.Prelude.{
  ℕ, ◌<◌, ◌^◌, refl, arith, All, suc, replicate, ◌+◌, ◌*◌, List, [], ◌∷◌, ◌++◌, Bool, true, false,
  ok,
}
use daphne_sc.Afe.{AfeId, ChannelId, AfeFrontendConfig, ChannelFrontendConfig, AfeCommand}
use daphne_sc.Wire.Ops.{RpuWireOp, RpuWireTarget}
use daphne_sc.Bytes.{IsByte}
use daphne_sc.Wire.Command.{RpuWireCommand, IsCommand}
use daphne_sc.Wire.Payload.{RpuWireConfigCounts, RpuWireAfeConfig, RpuWireChannelConfig}
use daphne_sc.Runtime.Interlock.{InterlockState}
use daphne_sc.Runtime.Hardware.{AfeHardware}

pub record FakeHardware : Type 0 where
  pub writes : List (ℕ × ℕ × ℕ)
  pub reset : Bool
  pub begins : List RpuWireConfigCounts
  pub afe_configs : List RpuWireAfeConfig
  pub channel_configs : List RpuWireChannelConfig
  pub apply_count : ℕ

abbrev pub untouched : FakeHardware
untouched = record {
  writes = [];
  reset = false;
  begins = [];
  afe_configs = [];
  channel_configs = [];
  apply_count = 0;
}

abbrev pub fake : AfeHardware FakeHardware (Unit {0})
fake = record {
  read_register = λ h afe r. (h, ok (afe * 65536 + r));
  write_register = λ h afe r v. (record h { writes = h.writes ++ ((afe, r, v) ∷ []) }, ok v);
  read_scalar = λ h op afe. (h, ok afe);
  write_scalar = λ h op afe v. (h, ok v);
  read_channel_scalar = λ h c. (h, ok c.channel);
  write_channel_scalar = λ h c. (h, ok c.value);
  read_vbias_control = λ h. (h, ok 0);
  write_vbias_control = λ h v e. (h, ok v);
  set_reset = λ h a. (record h { reset = a }, ok tt);
  do_reset = λ h. (record h { reset = false }, ok tt);
  set_power_state = λ h e. (h, ok tt);
  align = λ h. (h, ok tt);
  begin_configure_frontend = λ h counts. (record h { begins = h.begins ++ (counts ∷ []) }, ok tt);
  configure_afe = λ h config. (record h { afe_configs = h.afe_configs ++ (config ∷ []) }, ok tt);
  configure_channel =
      λ h config. (record h { channel_configs = h.channel_configs ++ (config ∷ []) }, ok tt);
  apply_configure_frontend = λ h. (record h { apply_count = suc h.apply_count }, ok tt);
  write_function = λ h afe name v. (h, ok v);
}

abbrev pub ready : InterlockState
ready = record {
  clock_ready = true;
  firmware_ready = true;
  interfaces_ready = true;
  temperatures_ok = true;
  rails_ok = true;
  host_heartbeat_ok = true;
  fault_code = 0;
}

abbrev pub board_one : AfeId
board_one = record { board = 1; pl = 4 }

abbrev pub channel_ten : ChannelId
channel_ten = record { channel = 10; afe = board_one; afe_channel = 2 }

abbrev pub afe_config : AfeFrontendConfig
afe_config = record {
  afe = board_one;
  attenuation = 100;
  bias = 200;
  adc = record { resolution = true; output_format = false; msb_first = true };
  pga = record { lpf_cut_frequency = 3; integrator_disable = true; gain = false };
  lna = record { clamp = 4; gain = 5; integrator_disable = true };
}

abbrev pub channel_config : ChannelFrontendConfig
channel_config = record { channel = channel_ten; trim = 300; offset = 400; gain = 500 }

abbrev pub configure : AfeCommand
configure = AfeCommand.configure_frontend (afe_config ∷ []) (channel_config ∷ []) 600

abbrev pub register_write : RpuWireCommand
register_write = record {
  sequence = 10;
  op = RpuWireOp.write_register;
  target = RpuWireTarget.afe;
  afe_board = 1;
  afe_pl = 4;
  channel = 0;
  afe_channel = 0;
  register = 3;
  value = 4660;
  flags = 0;
  payload = replicate 32 0;
}

-- `adc_reset` in bytes.
abbrev pub adc_reset : List ℕ
adc_reset = 97 ∷ 100 ∷ 99 ∷ 95 ∷ 114 ∷ 101 ∷ 115 ∷ 101 ∷ 116 ∷ []

blank : All IsByte (replicate 32 0)
blank = omega arith

pub register_write-IsCommand : IsCommand register_write
register_write-IsCommand = record {
  sequence_lt = omega arith;
  afe_board_lt = omega arith;
  afe_pl_lt = omega arith;
  channel_lt = omega arith;
  afe_channel_lt = omega arith;
  register_lt = omega arith;
  value_lt = omega arith;
  flags_lt = omega arith;
  length-payload = refl;
  payload_bytes = blank;
}

-- A `Status` command with another operation, value and flags.
abbrev pub plain : ℕ → RpuWireOp → ℕ → ℕ → RpuWireCommand
plain sequence op value flags = record {
  sequence = sequence;
  op = op;
  target = RpuWireTarget.none;
  afe_board = 0;
  afe_pl = 0;
  channel = 0;
  afe_channel = 0;
  register = 0;
  value = value;
  flags = flags;
  payload = replicate 32 0;
}

pub plain-IsCommand :
    (sequence : ℕ) (op : RpuWireOp) (value flags : ℕ)
    → sequence < 2 ^ 64
    → value < 2 ^ 32
    → flags < 2 ^ 32
    → IsCommand (plain sequence op value flags)
plain-IsCommand sequence op value flags hs hv hf = record {
  sequence_lt = hs;
  afe_board_lt = omega arith;
  afe_pl_lt = omega arith;
  channel_lt = omega arith;
  afe_channel_lt = omega arith;
  register_lt = omega arith;
  value_lt = hv;
  flags_lt = hf;
  length-payload = refl;
  payload_bytes = blank;
}
