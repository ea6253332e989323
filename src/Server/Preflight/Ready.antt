-- ===== src/Server/Preflight/Ready.antt =====
-- What the preflight checks of crates/daphne-sc-server/src/preflight.rs demand of the board.
use daphne_sc.Prelude.{
  ℕ, ◌≡◌, refl, ap, List, [], ◌∷◌, Bool, true, false, ◌&&◌, ◌||◌, not, ◌==◌, arith,
}
use daphne_sc.Prelude.{ok, err}
use daphne_sc.Text.{Text, ascii}
use daphne_sc.Text.Strings.{text_eq}
use daphne_sc.Text.Trim.{trim}
use daphne_sc.Board.{Board}
use daphne_sc.ClockChip.Registers.{clockchip_sanity_register, clockchip_sanity_value}
use daphne_sc.I2c.{open_device, read_register}
use daphne_sc.Endpoint.{
  EndpointRegisterStatus, mmcm0_locked, mmcm1_locked, endpoint_state, timestamp_ok,
  read_endpoint_register_status,
}
use daphne_sc.Server.Preflight.{PreflightCheck, all_ok, ready_for_hardware_commands}
use daphne_sc.Server.Preflight.Config.{
  Config, read_board_config, endpoint_success_states, clockchip_bus_candidates,
}
use daphne_sc.Server.Preflight.Outcomes.{
  ProbeResult, sanity_result, open_failure, not_reachable, lock_check, has_state, fsm_check,
  any_entry, fail,
}
use daphne_sc.Server.Preflight.Checks.{
  output_check, systemd_unit_active, file_equals, path_exists, any_i2c_device,
  any_remoteproc_device, probe_i2c_addr, probe_buses, chip_address, clockchip_reachable,
  endpoint_register_checks, first_checks, collect,
}

abbrev has_bus : List ℕ → Bool
has_bus [] = false
has_bus (bus ∷ buses) = true

-- The endpoint's clocks are locked, its state is one of those accepted, and in the state 8 it has a
-- timestamp.
unfoldable pub endpoint_is_ready : List ℕ → EndpointRegisterStatus → Bool
endpoint_is_ready states status =
    (mmcm0_locked status && mmcm1_locked status)
    && (has_state states (endpoint_state status)
        && (not (endpoint_state status == 0x8) || timestamp_ok status))

module _ {K F : Type 0} (board : Board K F) where
  unfoldable pub unit_is_active : Text → K → Bool
  unit_is_active unit k = elim (board.is_active unit k) [
    | ok output ↦ output.success && text_eq (trim output.stdout) (ascii "active")
    | err e ↦ false
  ]

  unfoldable pub file_holds : Text → Text → K → Bool
  file_holds path expected k = elim (board.read_to_string path k) [
    | ok content ↦ text_eq (trim content) expected
    | err e ↦ false
  ]

  unfoldable pub has_remoteproc : K → Bool
  has_remoteproc k = elim (board.remoteproc_entries k) [
    | ok entries ↦ any_entry entries
    | err e ↦ false
  ]

  -- The chip on the bus opens and its sanity register has the sanity value.
  unfoldable pub chip_answers : ℕ → ℕ → K → K × Bool
  chip_answers bus addr k =
      let (k', opened) = open_device board.kernel bus addr k in
      elim opened [
        | err e ↦ (k', false)
        | ok device ↦
            let (k'', answer) = read_register board.kernel device clockchip_sanity_register k' in
            (k'', elim answer [ ok value ↦ value == clockchip_sanity_value | err e ↦ false ])
      ]

  -- It answers on one of the buses, which are tried in turn.
  unfoldable pub chip_on_some_bus : List ℕ → ℕ → K → K × Bool
  chip_on_some_bus [] addr k = (k, false)
  chip_on_some_bus (bus ∷ buses) addr k =
      let (k', answers) = chip_answers bus addr k in
      elim answers [ true ↦ (k', true) | false ↦ chip_on_some_bus buses addr k' ]

  unfoldable pub endpoint_ready : Config → K → Bool
  endpoint_ready config k = elim (read_endpoint_register_status board.memory k) [
    | ok status ↦ endpoint_is_ready (endpoint_success_states board k config) status
    | err e ↦ false
  ]

  -- What the checks demand, in the state `k` and, with the outcome of the search for the chip, in the
  -- state after it.
  abbrev ready_with : K → Config → K × Bool → Bool
  ready_with k config (k', answers) =
      unit_is_active (ascii "firmware.service") k
      && (unit_is_active (ascii "clockchip.service") k
          && (unit_is_active (ascii "endpoint.service") k
              && (file_holds (ascii "/sys/class/fpga_manager/fpga0/state") (ascii "operating") k
                  && (board.exists (ascii "/sys/bus/platform/devices/9c000000.i2c") k
                      && (board.exists (ascii "/sys/bus/platform/devices/9c020000.axi_quad_spi") k
                          && (has_bus (clockchip_bus_candidates board k config)
                              && (board.exists (ascii "/dev/spidev3.0") k
                                  && (has_remoteproc k
                                      && (answers && endpoint_ready config k')))))))))

  unfoldable pub board_ready : K → Bool
  board_ready k =
      let config = read_board_config board k in
      let buses = clockchip_bus_candidates board k config in
      ready_with k config (chip_on_some_bus buses (chip_address board config k) k)

  unit_lem : (unit : Text) (k : K) → (systemd_unit_active board unit k).ok ≡ unit_is_active unit k
  unfolding systemd_unit_active unit_is_active output_check
  unit_lem unit k = ground arith

  file_lem :
      (name path expected : Text) (k : K)
      → (file_equals board name path expected k).ok ≡ file_holds path expected k
  unfolding file_equals file_holds
  file_lem name path expected k = ground arith

  path_lem : (name path : Text) (k : K) → (path_exists board name path k).ok ≡ board.exists path k
  unfolding path_exists
  path_lem name path k = ground arith

  i2c_lem :
      (config : Config) (k : K)
      → (any_i2c_device board config k).ok ≡ has_bus (clockchip_bus_candidates board k config)
  unfolding any_i2c_device
  i2c_lem config k = ground arith

  remoteproc_lem : (k : K) → (any_remoteproc_device board k).ok ≡ has_remoteproc k
  unfolding any_remoteproc_device has_remoteproc
  remoteproc_lem k = ground arith

  endpoint_lem :
      (config : Config) (k : K)
      → all_ok (endpoint_register_checks board config k) ≡ endpoint_ready config k
  unfolding endpoint_register_checks endpoint_ready endpoint_is_ready lock_check fsm_check
  endpoint_lem config k = ground arith

  abbrev is_found : ProbeResult → Bool
  is_found (ProbeResult.found detail) = true
  is_found ProbeResult.missing = false
  is_found (ProbeResult.unavailable detail) = false

  sanity_lem :
      (bus addr value : ℕ)
      → is_found (sanity_result bus addr value) ≡ (value == clockchip_sanity_value)
  unfolding sanity_result
  sanity_lem bus addr value = ground arith

  open_lem : (bus addr : ℕ) (detail : Text) → is_found (open_failure bus addr detail) ≡ false
  unfolding open_failure
  open_lem bus addr detail = ground arith

  probe_lem :
      (bus addr : ℕ) (k : K)
      → let (k', result) = probe_i2c_addr board bus addr k in
        (k', is_found result) ≡ chip_answers bus addr k
  unfolding probe_i2c_addr chip_answers
  probe_lem bus addr k = grind (arith, sanity_lem, open_lem)

  not_reachable_lem :
      (buses : List ℕ) (chip : ℕ) (errors : List Text)
      → (not_reachable buses chip errors).ok ≡ false
  unfolding not_reachable
  not_reachable_lem buses chip [] = refl
  not_reachable_lem buses chip (error ∷ errors) = refl

  probe_buses_lem :
      (rest buses : List ℕ) (chip : ℕ) (errors : List Text) (k : K)
      → let (k', check) = probe_buses board rest buses chip errors k in
        (k', check.ok) ≡ chip_on_some_bus rest chip k
  unfolding probe_buses chip_on_some_bus
  probe_buses_lem [] buses chip errors k = ap (λ b. (k, b)) (not_reachable_lem buses chip errors)
  probe_buses_lem (bus ∷ rest) buses chip errors k =
      grind (arith, probe_lem bus chip k, probe_buses_lem rest)

  reachable_lem :
      (config : Config) (k : K)
      → let (k', check) = clockchip_reachable board config k in
        (k', check.ok)
        ≡ chip_on_some_bus (clockchip_bus_candidates board k config) (chip_address board config k) k
  unfolding clockchip_reachable
  reachable_lem config k = by_buses (clockchip_bus_candidates board k config)
    where
      by_buses :
          (buses : List ℕ)
          → let p : K × PreflightCheck = elim buses [
            | [] ↦ (k, fail (ascii "clockchip_i2c") (ascii "no candidate I2C buses"))
            | bus ∷ more ↦
                probe_buses board (bus ∷ more) (bus ∷ more) (chip_address board config k) [] k
          ] in
            (p.0, p.1.ok) ≡ chip_on_some_bus buses (chip_address board config k) k
      by_buses [] = unfold chip_on_some_bus in refl
      by_buses (bus ∷ more) =
          probe_buses_lem (bus ∷ more) (bus ∷ more) (chip_address board config k) [] k

  -- The outcome of `collect` is ready for hardware commands exactly if the board is ready: the three
  -- services are active, the FPGA manager reports that it operates, the devices and their nodes and a
  -- remote processor are there, the clock chip answers with its sanity value on one of the candidate
  -- buses, and the endpoint's registers can be read and show locked clocks and an accepted state.
  pub ready_iff : (k : K) → ready_for_hardware_commands (collect board k).1 ≡ board_ready k
  unfolding ready_for_hardware_commands collect first_checks board_ready
  ready_iff k =
      let config = read_board_config board k in
      rw
        (
          unit_lem, unit_lem, unit_lem, file_lem, path_lem, path_lem, path_lem, i2c_lem,
          remoteproc_lem, endpoint_lem,
        )
        (ap (ready_with k config) (reachable_lem config k))
