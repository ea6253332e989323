-- ===== src/Server/Preflight.antt =====
-- The outcome of the preflight checks of crates/daphne-sc-server/src/preflight.rs, and the transport that
-- crates/daphne-sc-server/src/handlers.rs puts in place of the RPU where a check has failed.
pub mod Config
pub mod Outcomes
pub mod Checks
pub mod Ready
pub mod Cache
use daphne_sc.Prelude.{
  List, [], ◌∷◌, ◌++◌, Bool, true, false, ◌&&◌, not, none, some, ok, err, if◌then◌else◌,
}
use daphne_sc.Text.{Text, ascii}
use daphne_sc.Text.Strings.{join}
use daphne_sc.Rpu.{RpuError, RpuAfeTransport}

pub record PreflightCheck : Type 0 where
  pub name : Text
  pub ok : Bool
  pub detail : Text

-- `PreflightStatus`; the constructor `ready()` is `passed`.
pub record PreflightStatus : Type 0 where
  pub checks : List PreflightCheck

abbrev pub passed : PreflightStatus
passed = record { checks = [] }

-- `iter().all(|check| check.ok)`
abbrev pub all_ok : List PreflightCheck → Bool
all_ok [] = true
all_ok (check ∷ checks) = check.ok && all_ok checks

unfoldable pub ready_for_hardware_commands : PreflightStatus → Bool
ready_for_hardware_commands status = all_ok status.checks

-- The texts of the failed checks.
abbrev pub failures : List PreflightCheck → List Text
failures [] = []
failures (check ∷ checks) =
    let rest = failures checks in
    if not check.ok then (check.name ++ ascii " (" ++ check.detail ++ ascii ")") ∷ rest else rest

unfoldable pub failure_message : PreflightStatus → Text
failure_message status =
    if ready_for_hardware_commands status
    then ascii "preflight ok"
    else ascii "preflight failed: " ++ join (ascii "; ") (failures status.checks)

-- `PreflightRejectedRpuTransport`, with its message.
abbrev pub preflight_rejected : Text → RpuAfeTransport (Unit {0})
preflight_rejected message = record {
  status = λ t. (
    t,
    ok (record {
      available = false;
      running = false;
      firmware = none;
      heartbeat = none;
      last_fault = some message;
    }),
  );
  submit_afe_command = λ t command. (t, err (RpuError.rejected message));
}
