-- ===== src/Server/Preflight/Checks.antt =====
-- The checks of crates/daphne-sc-server/src/preflight.rs.
use daphne_sc.Prelude.{ℕ, List, [], ◌∷◌, ◌++◌, ◌&&◌}
use daphne_sc.Prelude.{ok, err, if◌then◌else◌}
use daphne_sc.Text.{Text, ascii, upper_hex_wide}
use daphne_sc.Text.Strings.{text_eq, is_empty}
use daphne_sc.Text.Trim.{trim}
use daphne_sc.Board.{Board, CommandOutput}
use daphne_sc.ClockChip.Registers.{clockchip_default_addr, clockchip_sanity_register}
use daphne_sc.I2c.{i2c_error_text, open_device, read_register}
use daphne_sc.Endpoint.{read_endpoint_register_status}
use daphne_sc.Server.Status.{unwrap_or}
use daphne_sc.Server.Preflight.{PreflightCheck, PreflightStatus}
use daphne_sc.Server.Preflight.Config.{
  Config, read_board_config, env_value, parse_i2c_addr, endpoint_success_states,
  clockchip_bus_candidates,
}
use daphne_sc.Server.Preflight.Outcomes.{
  pass, fail, join_paths, ProbeResult, probe_place, sanity_result, open_failure, not_reachable,
  lock_check, fsm_check, any_entry,
}

module _ {K F : Type 0} (board : Board K F) where
  unfoldable pub output_check : Text → CommandOutput → PreflightCheck
  output_check unit output =
      let stdout = trim output.stdout in
      let stderr = trim output.stderr in
      if output.success && text_eq stdout (ascii "active")
      then pass unit (ascii "active")
      else fail unit (
          if is_empty stderr
          then ascii "state=" ++ stdout
          else ascii "state=" ++ stdout ++ ascii ", stderr=" ++ stderr)

  unfoldable pub systemd_unit_active : Text → K → PreflightCheck
  systemd_unit_active unit k = elim (board.is_active unit k) [
    | ok output ↦ output_check unit output
    | err e ↦ fail unit (ascii "systemctl failed: " ++ e)
  ]

  unfoldable pub file_equals : Text → Text → Text → K → PreflightCheck
  file_equals name path expected k = elim (board.read_to_string path k) [
    | ok content ↦
        let actual = trim content in
        if text_eq actual expected
        then pass name (path ++ ascii "=" ++ actual)
        else fail name (path ++ ascii "=" ++ actual ++ ascii ", expected " ++ expected)
    | err e ↦ fail name (path ++ ascii ": " ++ e)
  ]

  unfoldable pub path_exists : Text → Text → K → PreflightCheck
  path_exists name path k =
      if board.exists path k then pass name path else fail name (path ++ ascii " is missing")

  unfoldable pub any_i2c_device : Config → K → PreflightCheck
  any_i2c_device config k = elim (clockchip_bus_candidates board k config) [
    | [] ↦ fail (ascii "i2c_device_node") (ascii "no /dev/i2c-* nodes found")
    | bus ∷ buses ↦ pass (ascii "i2c_device_node") (join_paths (bus ∷ buses))
  ]

  unfoldable pub any_remoteproc_device : K → PreflightCheck
  any_remoteproc_device k =
      let path = ascii "/sys/class/remoteproc" in
      elim (board.remoteproc_entries k) [
        | ok entries ↦
            if any_entry entries
            then pass (ascii "remoteproc") path
            else fail (ascii "remoteproc") (path ++ ascii " is empty")
        | err e ↦ fail (ascii "remoteproc") (path ++ ascii ": " ++ e)
      ]

  unfoldable pub probe_i2c_addr : ℕ → ℕ → K → K × ProbeResult
  probe_i2c_addr bus addr k =
      let (k', opened) = open_device board.kernel bus addr k in
      elim opened [
        | err e ↦ (k', open_failure bus addr (i2c_error_text e))
        | ok device ↦
            let (k'', answer) = read_register board.kernel device clockchip_sanity_register k' in
            (
              k'',
              elim answer [
                | ok value ↦ sanity_result bus addr value
                | err e ↦
                    ProbeResult.unavailable
                      (probe_place bus addr ++ ascii " sanity read failed: " ++ i2c_error_text e)
              ],
            )
      ]

  -- The loop over the buses left, with all of them and the errors so far.
  unfoldable pub probe_buses : List ℕ → List ℕ → ℕ → List Text → K → K × PreflightCheck
  probe_buses [] buses chip errors k = (k, not_reachable buses chip errors)
  probe_buses (bus ∷ rest) buses chip errors k =
      let (k', result) = probe_i2c_addr bus chip k in
      elim result [
        | ProbeResult.found detail ↦ (k', pass (ascii "clockchip_i2c") detail)
        | ProbeResult.missing ↦ probe_buses rest buses chip errors k'
        | ProbeResult.unavailable detail ↦ probe_buses rest buses chip (errors ++ detail ∷ []) k'
      ]

  abbrev pub chip_address : Config → K → ℕ
  chip_address config k =
      unwrap_or
        (parse_i2c_addr (
          env_value board k config (ascii "CLOCKCHIP_ADDR")
            (ascii "0x" ++ upper_hex_wide clockchip_default_addr)))
        clockchip_default_addr

  unfoldable pub clockchip_reachable : Config → K → K × PreflightCheck
  clockchip_reachable config k =
      let chip = chip_address config k in
      elim (clockchip_bus_candidates board k config) [
        | [] ↦ (k, fail (ascii "clockchip_i2c") (ascii "no candidate I2C buses"))
        | bus ∷ buses ↦ probe_buses (bus ∷ buses) (bus ∷ buses) chip [] k
      ]

  unfoldable pub endpoint_register_checks : Config → K → List PreflightCheck
  endpoint_register_checks config k = elim (read_endpoint_register_status board.memory k) [
    | ok status ↦ lock_check status ∷ fsm_check (endpoint_success_states board k config) status ∷ []
    | err e ↦ fail (ascii "endpoint_registers") (ascii "endpoint register read failed: " ++ e) ∷ []
  ]

  -- The checks of the vector, before the clock chip is probed.
  unfoldable pub first_checks : Config → K → List PreflightCheck
  first_checks config k =
      systemd_unit_active (ascii "firmware.service") k
      ∷ systemd_unit_active (ascii "clockchip.service") k
      ∷ systemd_unit_active (ascii "endpoint.service") k
      ∷ file_equals (ascii "fpga_manager") (ascii "/sys/class/fpga_manager/fpga0/state")
          (ascii "operating") k
      ∷ path_exists (ascii "pl_i2c_device") (ascii "/sys/bus/platform/devices/9c000000.i2c") k
      ∷ path_exists (ascii "pl_spi_device")
          (ascii "/sys/bus/platform/devices/9c020000.axi_quad_spi") k
      ∷ any_i2c_device config k
      ∷ path_exists (ascii "spi_device_node") (ascii "/dev/spidev3.0") k
      ∷ any_remoteproc_device k
      ∷ []

  -- `LinuxPreflight::collect`
  unfoldable pub collect : K → K × PreflightStatus
  collect k =
      let config = read_board_config board k in
      let checks = first_checks config k in
      let (k', reachable) = clockchip_reachable config k in
      (k', record { checks = checks ++ (reachable ∷ endpoint_register_checks config k') })
