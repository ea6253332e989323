-- ===== src/Wire/Error.antt =====
-- The errors of crates/daphne-sc-core/src/rpu_wire.rs and the conversions from numbers that raise them.
use daphne_sc.Prelude.{ℕ, List, [], ◌∷◌, first_arm, Result, ok, err, ok_or, String}
use daphne_sc.Prelude.{ltb, if◌then◌else◌}
use daphne_sc.Wire.Ops.{RpuWireOp, RpuWireTarget, RpuWireStatus, op_eq}

pub data RpuWireError : Type 0 where
  -- the length expected, and the actual one
  bad_length : ℕ → ℕ → RpuWireError
  bad_magic : ℕ → RpuWireError
  bad_abi : ℕ → RpuWireError
  unknown_op : ℕ → RpuWireError
  unknown_target : ℕ → RpuWireError
  unknown_status : ℕ → RpuWireError
  unsupported_command : String → RpuWireError
  bad_payload : String → RpuWireError
  -- the field, its maximum and the actual value
  payload_too_long : String → ℕ → ℕ → RpuWireError
  value_out_of_range : String → ℕ → ℕ → RpuWireError

abbrev pub op_arms : List (ℕ × RpuWireOp)
op_arms =
    (0, RpuWireOp.status)
    ∷ (1, RpuWireOp.read_register)
    ∷ (2, RpuWireOp.write_register)
    ∷ (3, RpuWireOp.read_attenuation)
    ∷ (4, RpuWireOp.set_attenuation)
    ∷ (5, RpuWireOp.read_bias)
    ∷ (6, RpuWireOp.set_bias)
    ∷ (7, RpuWireOp.read_trim)
    ∷ (8, RpuWireOp.set_trim)
    ∷ (9, RpuWireOp.read_offset)
    ∷ (10, RpuWireOp.set_offset)
    ∷ (11, RpuWireOp.read_vbias_control)
    ∷ (12, RpuWireOp.set_vbias_control)
    ∷ (13, RpuWireOp.set_reset)
    ∷ (14, RpuWireOp.do_reset)
    ∷ (15, RpuWireOp.set_power_state)
    ∷ (16, RpuWireOp.align)
    ∷ (17, RpuWireOp.begin_configure_frontend)
    ∷ (18, RpuWireOp.configure_afe)
    ∷ (19, RpuWireOp.configure_channel)
    ∷ (20, RpuWireOp.apply_configure_frontend)
    ∷ (21, RpuWireOp.write_function)
    ∷ (22, RpuWireOp.read_alignment)
    ∷ []

unfoldable pub try_from_op : ℕ → Result RpuWireError RpuWireOp
try_from_op value = ok_or (first_arm value op_arms) (RpuWireError.unknown_op value)

abbrev pub target_arms : List (ℕ × RpuWireTarget)
target_arms =
    (0, RpuWireTarget.none)
    ∷ (1, RpuWireTarget.afe)
    ∷ (2, RpuWireTarget.channel)
    ∷ (3, RpuWireTarget.all)
    ∷ []

unfoldable pub try_from_target : ℕ → Result RpuWireError RpuWireTarget
try_from_target value = ok_or (first_arm value target_arms) (RpuWireError.unknown_target value)

abbrev pub status_arms : List (ℕ × RpuWireStatus)
status_arms =
    (0, RpuWireStatus.accepted)
    ∷ (1, RpuWireStatus.applied)
    ∷ (2, RpuWireStatus.rejected)
    ∷ (3, RpuWireStatus.interlocked)
    ∷ (4, RpuWireStatus.fault)
    ∷ (5, RpuWireStatus.timeout)
    ∷ []

unfoldable pub try_from_status : ℕ → Result RpuWireError RpuWireStatus
try_from_status value = ok_or (first_arm value status_arms) (RpuWireError.unknown_status value)

-- `u16::MAX` and `u32::from(u16::MAX)`
abbrev pub u16_max : ℕ
u16_max = 65535

unfoldable pub ensure_record_count : String → ℕ → Result RpuWireError (Unit {0})
ensure_record_count field count =
    if ltb u16_max count then err (RpuWireError.payload_too_long field u16_max count) else ok tt

unfoldable pub require_op : RpuWireOp → RpuWireOp → Result RpuWireError (Unit {0})
unfolding op_eq
require_op actual expected =
    if op_eq actual expected
    then ok tt
    else err (RpuWireError.bad_payload "decoded helper used with wrong opcode")

-- `u16::try_from(value)`, with the error that names the field.
unfoldable pub require_u16 : String → ℕ → Result RpuWireError ℕ
require_u16 field value =
    if ltb u16_max value
    then err (RpuWireError.value_out_of_range field u16_max value)
    else ok value
