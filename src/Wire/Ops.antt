-- ===== src/Wire/Ops.antt =====
-- The enumerations of crates/daphne-sc-core/src/rpu_wire.rs, with their discriminants.
use daphne_sc.Prelude.{ℕ, Bool, ◌==◌}

pub data RpuWireOp : Type 0 where
  status : RpuWireOp
  read_register : RpuWireOp
  write_register : RpuWireOp
  read_attenuation : RpuWireOp
  set_attenuation : RpuWireOp
  read_bias : RpuWireOp
  set_bias : RpuWireOp
  read_trim : RpuWireOp
  set_trim : RpuWireOp
  read_offset : RpuWireOp
  set_offset : RpuWireOp
  read_vbias_control : RpuWireOp
  set_vbias_control : RpuWireOp
  set_reset : RpuWireOp
  do_reset : RpuWireOp
  set_power_state : RpuWireOp
  align : RpuWireOp
  begin_configure_frontend : RpuWireOp
  configure_afe : RpuWireOp
  configure_channel : RpuWireOp
  apply_configure_frontend : RpuWireOp
  write_function : RpuWireOp
  read_alignment : RpuWireOp

unfoldable pub op_code : RpuWireOp → ℕ
op_code RpuWireOp.status = 0
op_code RpuWireOp.read_register = 1
op_code RpuWireOp.write_register = 2
op_code RpuWireOp.read_attenuation = 3
op_code RpuWireOp.set_attenuation = 4
op_code RpuWireOp.read_bias = 5
op_code RpuWireOp.set_bias = 6
op_code RpuWireOp.read_trim = 7
op_code RpuWireOp.set_trim = 8
op_code RpuWireOp.read_offset = 9
op_code RpuWireOp.set_offset = 10
op_code RpuWireOp.read_vbias_control = 11
op_code RpuWireOp.set_vbias_control = 12
op_code RpuWireOp.set_reset = 13
op_code RpuWireOp.do_reset = 14
op_code RpuWireOp.set_power_state = 15
op_code RpuWireOp.align = 16
op_code RpuWireOp.begin_configure_frontend = 17
op_code RpuWireOp.configure_afe = 18
op_code RpuWireOp.configure_channel = 19
op_code RpuWireOp.apply_configure_frontend = 20
op_code RpuWireOp.write_function = 21
op_code RpuWireOp.read_alignment = 22

pub data RpuWireTarget : Type 0 where
  none : RpuWireTarget
  afe : RpuWireTarget
  channel : RpuWireTarget
  all : RpuWireTarget

unfoldable pub target_code : RpuWireTarget → ℕ
target_code RpuWireTarget.none = 0
target_code RpuWireTarget.afe = 1
target_code RpuWireTarget.channel = 2
target_code RpuWireTarget.all = 3

pub data RpuWireStatus : Type 0 where
  accepted : RpuWireStatus
  applied : RpuWireStatus
  rejected : RpuWireStatus
  interlocked : RpuWireStatus
  fault : RpuWireStatus
  timeout : RpuWireStatus

unfoldable pub status_code : RpuWireStatus → ℕ
status_code RpuWireStatus.accepted = 0
status_code RpuWireStatus.applied = 1
status_code RpuWireStatus.rejected = 2
status_code RpuWireStatus.interlocked = 3
status_code RpuWireStatus.fault = 4
status_code RpuWireStatus.timeout = 5

-- The derived `==`, which compares discriminants.
unfoldable pub op_eq : RpuWireOp → RpuWireOp → Bool
unfolding op_code
op_eq a b = op_code a == op_code b

unfoldable pub target_eq : RpuWireTarget → RpuWireTarget → Bool
unfolding target_code
target_eq a b = target_code a == target_code b
