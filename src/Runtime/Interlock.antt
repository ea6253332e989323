-- ===== src/Runtime/Interlock.antt =====
-- The interlock state of crates/daphne-sc-rpu/src/lib.rs.
use daphne_sc.Prelude.{ℕ, ◌*◌, ◌^◌, ◌<◌, ◌≡◌, refl, arith, Bool, true, false, not, ◌&&◌, ◌↔◌}
use daphne_sc.Prelude.Bits.{zero-bit_or, bit_or_low}
use daphne_sc.Prelude.{◌+◌, ◌/◌, ◌%◌, bit_or, of_bool, ◌==◌}

pub record InterlockState : Type 0 where
  pub clock_ready : Bool
  pub firmware_ready : Bool
  pub interfaces_ready : Bool
  pub temperatures_ok : Bool
  pub rails_ok : Bool
  pub host_heartbeat_ok : Bool
  pub fault_code : ℕ  -- u32

-- `InterlockState::default()`
unfoldable pub default : InterlockState
default = record {
  clock_ready = false;
  firmware_ready = false;
  interfaces_ready = false;
  temperatures_ok = false;
  rails_ok = false;
  host_heartbeat_ok = false;
  fault_code = 0;
}

unfoldable pub ready_for_afe : InterlockState → Bool
ready_for_afe s =
    s.clock_ready
    && s.firmware_ready
    && s.interfaces_ready
    && s.temperatures_ok
    && s.rails_ok
    && s.host_heartbeat_ok
    && s.fault_code == 0

unfoldable pub code : InterlockState → ℕ
code s =
    let code = bit_or 0 (of_bool (not s.clock_ready)) in
    let code = bit_or code (of_bool (not s.firmware_ready) * 2 ^ 1) in
    let code = bit_or code (of_bool (not s.interfaces_ready) * 2 ^ 2) in
    let code = bit_or code (of_bool (not s.temperatures_ok) * 2 ^ 3) in
    let code = bit_or code (of_bool (not s.rails_ok) * 2 ^ 4) in
    let code = bit_or code (of_bool (not s.host_heartbeat_ok) * 2 ^ 5) in
    bit_or code (of_bool (not (s.fault_code == 0)) * 2 ^ 6)

-- The bit of a condition that fails.
abbrev fails : Bool → ℕ
fails holds = of_bool (not holds)

fails-lt : (b : Bool) → fails b < 2
fails-lt b = ground arith

code-sum :
    (s : InterlockState)
    → code s
      ≡ fails s.clock_ready
        + fails s.firmware_ready * 2
        + fails s.interfaces_ready * 4
        + fails s.temperatures_ok * 8
        + fails s.rails_ok * 16
        + fails s.host_heartbeat_ok * 32
        + fails (s.fault_code == 0) * 64
unfolding code
code-sum s =
    let a = fails s.clock_ready in
    let b = fails s.firmware_ready in
    let c = fails s.interfaces_ready in
    let d = fails s.temperatures_ok in
    let e = fails s.rails_ok in
    let f = fails s.host_heartbeat_ok in
    let ha = fails-lt s.clock_ready in
    let hb = fails-lt s.firmware_ready in
    let hc = fails-lt s.interfaces_ready in
    let hd = fails-lt s.temperatures_ok in
    let he = fails-lt s.rails_ok in
    let hf = fails-lt s.host_heartbeat_ok in
    rw (
      zero-bit_or,
      bit_or_low 1 a b (omega arith),
      bit_or_low 2 (a + b * 2) c (omega arith),
      bit_or_low 3 (a + b * 2 + c * 4) d (omega arith),
      bit_or_low 4 (a + b * 2 + c * 4 + d * 8) e (omega arith),
      bit_or_low 5 (a + b * 2 + c * 4 + d * 8 + e * 16) f (omega arith),
      bit_or_low 6 (a + b * 2 + c * 4 + d * 8 + e * 16 + f * 32) (fails (s.fault_code == 0))
          (omega arith),
    )

all_hold :
    (a b c d e f g : Bool)
    → (fails a
          + fails b * 2
          + fails c * 4
          + fails d * 8
          + fails e * 16
          + fails f * 32
          + fails g * 64
        ≡ 0)
      ↔ ((a && b && c && d && e && f && g) ≡ true)
all_hold true true true true true true true = (λ _. refl, λ _. refl)
all_hold false b c d e f g = (λ h. absurd (omega arith), λ h. cc)
all_hold true false c d e f g = (λ h. absurd (omega arith), λ h. cc)
all_hold true true false d e f g = (λ h. absurd (omega arith), λ h. cc)
all_hold true true true false e f g = (λ h. absurd (omega arith), λ h. cc)
all_hold true true true true false f g = (λ h. absurd (omega arith), λ h. cc)
all_hold true true true true true false g = (λ h. absurd (omega arith), λ h. cc)
all_hold true true true true true true false = (λ h. absurd (omega arith), λ h. cc)

-- The interlock code fits 7 bits, each bit of it tells whether its condition fails, and it is 0
-- exactly when the runtime is ready for AFE commands.
pub code_lem :
    (s : InterlockState)
    → (code s < 128)
      × (code s % 2 ≡ fails s.clock_ready)
      × (code s / 2 % 2 ≡ fails s.firmware_ready)
      × (code s / 4 % 2 ≡ fails s.interfaces_ready)
      × (code s / 8 % 2 ≡ fails s.temperatures_ok)
      × (code s / 16 % 2 ≡ fails s.rails_ok)
      × (code s / 32 % 2 ≡ fails s.host_heartbeat_ok)
      × (code s / 64 ≡ fails (s.fault_code == 0))
      × ((code s ≡ 0) ↔ (ready_for_afe s ≡ true))
unfolding ready_for_afe
code_lem s =
    let ha = fails-lt s.clock_ready in
    let hb = fails-lt s.firmware_ready in
    let hc = fails-lt s.interfaces_ready in
    let hd = fails-lt s.temperatures_ok in
    let he = fails-lt s.rails_ok in
    let hf = fails-lt s.host_heartbeat_ok in
    let hg = fails-lt (s.fault_code == 0) in
    rw (code-sum s) (
      omega arith,
      omega arith,
      omega arith,
      omega arith,
      omega arith,
      omega arith,
      omega arith,
      omega arith,
      all_hold s.clock_ready s.firmware_ready s.interfaces_ready s.temperatures_ok s.rails_ok
          s.host_heartbeat_ok (s.fault_code == 0),
    )
