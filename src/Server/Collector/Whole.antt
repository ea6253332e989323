-- ===== src/Server/Collector/Whole.antt =====
-- `collect_slow_control_status` of crates/daphne-sc-server/src/status_collector.rs.
use daphne_sc.Prelude.{List, [], ◌∷◌, ◌++◌, not, none, some, ok, err, if◌then◌else◌}
use daphne_sc.Text.{Text, ascii}
use daphne_sc.Board.{Board}
use daphne_sc.Rpu.{RpuLinkStatus}
use daphne_sc.Endpoint.{
  endpoint_clock_source, mmcm0_locked, mmcm1_locked, read_endpoint_register_status,
}
use daphne_sc.Server.Status.{ClockStatus, SlowControlStatus}
use daphne_sc.Server.Preflight.{PreflightCheck, PreflightStatus}
use daphne_sc.Server.Collector.Floats.{Floats}
use daphne_sc.Server.Collector.Buses.{collect_i2c_status}
use daphne_sc.Server.Collector.Readings.{collect_temperatures, collect_rails}
use daphne_sc.Server.Collector.Services.{collect_firmware_status, collect_service_statuses}

unfoldable pub failed_checks : List PreflightCheck → List Text
failed_checks [] = []
failed_checks (check ∷ checks) =
    let rest = failed_checks checks in
    if not check.ok then (check.name ++ ascii ": " ++ check.detail) ∷ rest else rest

unfoldable pub preflight_errors : PreflightStatus → List Text
preflight_errors preflight = failed_checks preflight.checks

module _ {K F : Type 0} (board : Board K F) (floats : Floats) where
  unfoldable pub collect_clock_status : K → ClockStatus × List Text
  collect_clock_status k = elim (read_endpoint_register_status board.memory k) [
    | ok status ↦ (
      record {
        endpoint_clock_source_controlled = some (endpoint_clock_source status);
        mmcm0_locked = some (mmcm0_locked status);
        mmcm1_locked = some (mmcm1_locked status);
        raw_endpoint_status = some status.endpoint_status;
      },
      [],
    )
    | err e ↦ (
      record {
        endpoint_clock_source_controlled = none;
        mmcm0_locked = none;
        mmcm1_locked = none;
        raw_endpoint_status = none;
      },
      (ascii "endpoint register read failed: " ++ e) ∷ [],
    )
  ]

  unfoldable pub collect_slow_control_status :
      PreflightStatus → RpuLinkStatus → K → K × SlowControlStatus
  collect_slow_control_status preflight rpu k =
      let (clocks, clock_errors) = collect_clock_status k in
      let (temperatures, temperature_errors) = collect_temperatures board floats k in
      let (k', (rails, rail_errors)) = collect_rails board floats k in
      (
        k',
        record {
          firmware = collect_firmware_status board floats k;
          rpu = rpu;
          i2c = collect_i2c_status board floats k preflight;
          clocks = clocks;
          temperatures = temperatures;
          rails = rails;
          services = collect_service_statuses board floats k';
          errors = preflight_errors preflight ++ clock_errors ++ temperature_errors ++ rail_errors;
        },
      )
