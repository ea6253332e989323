-- ===== src/Mmio/Calls.antt =====
-- The calls of the hardware interface of crates/daphne-sc-rpu/src/lib.rs as data.
pub mod Bounds
use daphne_sc.Prelude.{ℕ, List, Bool}
use daphne_sc.Wire.Ops.{RpuWireOp}
use daphne_sc.Wire.Command.{RpuWireCommand}
use daphne_sc.Wire.Payload.{RpuWireConfigCounts, RpuWireAfeConfig, RpuWireChannelConfig}
use daphne_sc.Runtime.Hardware.{AfeHardware}

pub data Call : Type 0 where
  read_register : ℕ → ℕ → Call
  write_register : ℕ → ℕ → ℕ → Call
  read_scalar : RpuWireOp → ℕ → Call
  write_scalar : RpuWireOp → ℕ → ℕ → Call
  read_channel_scalar : RpuWireCommand → Call
  write_channel_scalar : RpuWireCommand → Call
  read_vbias_control : Call
  write_vbias_control : ℕ → Bool → Call
  set_reset : Bool → Call
  do_reset : Call
  set_power_state : Bool → Call
  align : Call
  begin_configure_frontend : RpuWireConfigCounts → Call
  configure_afe : RpuWireAfeConfig → Call
  configure_channel : RpuWireChannelConfig → Call
  apply_configure_frontend : Call
  write_function : ℕ → List ℕ → ℕ → Call

-- The state that a call leaves.
abbrev pub state_after : {H E : Type 0} → AfeHardware H E → Call → H → H
state_after hw (Call.read_register afe r) h = (hw.read_register h afe r).0
state_after hw (Call.write_register afe r v) h = (hw.write_register h afe r v).0
state_after hw (Call.read_scalar op afe) h = (hw.read_scalar h op afe).0
state_after hw (Call.write_scalar op afe v) h = (hw.write_scalar h op afe v).0
state_after hw (Call.read_channel_scalar c) h = (hw.read_channel_scalar h c).0
state_after hw (Call.write_channel_scalar c) h = (hw.write_channel_scalar h c).0
state_after hw Call.read_vbias_control h = (hw.read_vbias_control h).0
state_after hw (Call.write_vbias_control v e) h = (hw.write_vbias_control h v e).0
state_after hw (Call.set_reset a) h = (hw.set_reset h a).0
state_after hw Call.do_reset h = (hw.do_reset h).0
state_after hw (Call.set_power_state e) h = (hw.set_power_state h e).0
state_after hw Call.align h = (hw.align h).0
state_after hw (Call.begin_configure_frontend counts) h = (hw.begin_configure_frontend h counts).0
state_after hw (Call.configure_afe config) h = (hw.configure_afe h config).0
state_after hw (Call.configure_channel config) h = (hw.configure_channel h config).0
state_after hw Call.apply_configure_frontend h = (hw.apply_configure_frontend h).0
state_after hw (Call.write_function afe name v) h = (hw.write_function h afe name v).0
