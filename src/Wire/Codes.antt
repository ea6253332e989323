-- ===== src/Wire/Codes.antt =====
-- The discriminants of crates/daphne-sc-core/src/rpu_wire.rs and the conversions back.
use daphne_sc.Prelude.{ℕ, ◌<◌, ◌≡◌, refl, arith, ◌↔◌, ok, All, first_arm-All, ok_or-eq-ok}
use daphne_sc.Wire.Ops.{RpuWireOp, RpuWireTarget, RpuWireStatus, op_code, target_code, status_code}
use daphne_sc.Wire.Error.{RpuWireError, op_arms, target_arms, status_arms}
use daphne_sc.Wire.Error.{try_from_op, try_from_target, try_from_status}

op_arms-code : All (λ (p : ℕ × RpuWireOp). op_code p.1 ≡ p.0) op_arms
unfolding op_code
op_arms-code = omega arith

pub op_code-lt : (x : RpuWireOp) → op_code x < 256
unfolding op_code
op_code-lt RpuWireOp.status = omega arith
op_code-lt _ = omega arith

pub try_from_op-op_code : (x : RpuWireOp) → try_from_op (op_code x) ≡ ok x
unfolding try_from_op op_code
try_from_op-op_code RpuWireOp.status = refl
try_from_op-op_code _ = refl

-- A number is taken for an operation exactly when it is the discriminant of that operation.
pub try_from_op_iff : (n : ℕ) (x : RpuWireOp) → (try_from_op n ≡ ok x) ↔ (op_code x ≡ n)
unfolding try_from_op
try_from_op_iff n x = (
  λ h.
      first_arm-All op_code n op_arms x op_arms-code
        (ok_or-eq-ok _ (RpuWireError.unknown_op n) x h),
  λ e. rw (← e) (try_from_op-op_code x),
)

target_arms-code : All (λ (p : ℕ × RpuWireTarget). target_code p.1 ≡ p.0) target_arms
unfolding target_code
target_arms-code = omega arith

pub target_code-lt : (x : RpuWireTarget) → target_code x < 256
unfolding target_code
target_code-lt RpuWireTarget.none = omega arith
target_code-lt _ = omega arith

pub try_from_target-target_code : (x : RpuWireTarget) → try_from_target (target_code x) ≡ ok x
unfolding try_from_target target_code
try_from_target-target_code RpuWireTarget.none = refl
try_from_target-target_code _ = refl

-- A number is taken for a target exactly when it is the discriminant of that target.
pub try_from_target_iff :
    (n : ℕ) (x : RpuWireTarget) → (try_from_target n ≡ ok x) ↔ (target_code x ≡ n)
unfolding try_from_target
try_from_target_iff n x = (
  λ h.
      first_arm-All target_code n target_arms x target_arms-code
        (ok_or-eq-ok _ (RpuWireError.unknown_target n) x h),
  λ e. rw (← e) (try_from_target-target_code x),
)

status_arms-code : All (λ (p : ℕ × RpuWireStatus). status_code p.1 ≡ p.0) status_arms
unfolding status_code
status_arms-code = omega arith

pub status_code-lt : (x : RpuWireStatus) → status_code x < 256
unfolding status_code
status_code-lt RpuWireStatus.accepted = omega arith
status_code-lt _ = omega arith

pub try_from_status-status_code : (x : RpuWireStatus) → try_from_status (status_code x) ≡ ok x
unfolding try_from_status status_code
try_from_status-status_code RpuWireStatus.accepted = refl
try_from_status-status_code _ = refl

-- A number is taken for a reply status exactly when it is the discriminant of that status.
pub try_from_status_iff :
    (n : ℕ) (x : RpuWireStatus) → (try_from_status n ≡ ok x) ↔ (status_code x ≡ n)
unfolding try_from_status
try_from_status_iff n x = (
  λ h.
      first_arm-All status_code n status_arms x status_arms-code
        (ok_or-eq-ok _ (RpuWireError.unknown_status n) x h),
  λ e. rw (← e) (try_from_status-status_code x),
)
