-- ===== src/Runtime/Hardware.antt =====
-- The state of the RPU runtime and the hardware behind it (crates/daphne-sc-rpu/src/lib.rs): the trait
-- `AfeHardware`, `RpuRuntime` and `ConfigState`.
use daphne_sc.Prelude.{ℕ, List, Bool, true, false, ◌&&◌, ltb, ◌==◌, if◌then◌else◌}
use daphne_sc.Prelude.{Result, ok, err, map_err}
use daphne_sc.Wire.Ops.{RpuWireOp, RpuWireTarget, target_eq}
use daphne_sc.Wire.Command.{RpuWireCommand}
use daphne_sc.Wire.Payload.{RpuWireConfigCounts, RpuWireAfeConfig, RpuWireChannelConfig}
use daphne_sc.Runtime.Interlock.{InterlockState}

-- `trait AfeHardware`: a method on `&mut self` takes the state and returns the next one, also where it
-- fails. `H` is the hardware state, `E` its `Error`.
pub record AfeHardware (H E : Type 0) : Type 0 where
  pub read_register : H → ℕ → ℕ → H × Result E ℕ
  pub write_register : H → ℕ → ℕ → ℕ → H × Result E ℕ
  pub read_scalar : H → RpuWireOp → ℕ → H × Result E ℕ
  pub write_scalar : H → RpuWireOp → ℕ → ℕ → H × Result E ℕ
  pub read_channel_scalar : H → RpuWireCommand → H × Result E ℕ
  pub write_channel_scalar : H → RpuWireCommand → H × Result E ℕ
  pub read_vbias_control : H → H × Result E ℕ
  pub write_vbias_control : H → ℕ → Bool → H × Result E ℕ
  pub set_reset : H → Bool → H × Result E (Unit {0})
  pub do_reset : H → H × Result E (Unit {0})
  pub set_power_state : H → Bool → H × Result E (Unit {0})
  pub align : H → H × Result E (Unit {0})
  pub begin_configure_frontend : H → RpuWireConfigCounts → H × Result E (Unit {0})
  pub configure_afe : H → RpuWireAfeConfig → H × Result E (Unit {0})
  pub configure_channel : H → RpuWireChannelConfig → H × Result E (Unit {0})
  pub apply_configure_frontend : H → H × Result E (Unit {0})
  pub write_function : H → ℕ → List ℕ → ℕ → H × Result E ℕ

pub data ApplyError : Type 0 where
  rejected hardware_fault : ApplyError

pub record ConfigState : Type 0 where
  pub active : Bool
  pub expected_afes : ℕ  -- u16
  pub expected_channels : ℕ  -- u16
  pub received_afes : ℕ  -- u16
  pub received_channels : ℕ  -- u16

-- `ConfigState::default()`
unfoldable pub idle : ConfigState
idle = record {
  active = false;
  expected_afes = 0;
  expected_channels = 0;
  received_afes = 0;
  received_channels = 0;
}

unfoldable pub begin : RpuWireConfigCounts → ConfigState
begin counts = record {
  active = true;
  expected_afes = counts.afe_count;
  expected_channels = counts.channel_count;
  received_afes = 0;
  received_channels = 0;
}

unfoldable pub require_afe_slot : ConfigState → Result ApplyError (Unit {0})
require_afe_slot s =
    if s.active && ltb s.received_afes s.expected_afes then ok tt else err ApplyError.rejected

unfoldable pub require_channel_slot : ConfigState → Result ApplyError (Unit {0})
require_channel_slot s =
    if s.active && ltb s.received_channels s.expected_channels
    then ok tt
    else err ApplyError.rejected

unfoldable pub require_complete : ConfigState → Result ApplyError (Unit {0})
require_complete s =
    if s.active && s.received_afes == s.expected_afes && s.received_channels == s.expected_channels
    then ok tt
    else err ApplyError.rejected

unfoldable pub require_afe : RpuWireCommand → Result ApplyError ℕ
unfolding target_eq
require_afe c =
    if target_eq c.target RpuWireTarget.afe then ok c.afe_pl else err ApplyError.rejected

-- `hw`
abbrev pub hw : {E A : Type 0} → Result E A → Result ApplyError A
hw r = map_err (λ _. ApplyError.hardware_fault) r

pub record RpuRuntime (H : Type 0) : Type 0 where
  pub hardware : H
  pub heartbeat : ℕ  -- u64
  pub interlock : InterlockState
  pub config_state : ConfigState
