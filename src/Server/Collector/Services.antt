-- ===== src/Server/Collector/Services.antt =====
-- The firmware, the services and the remote processors of
-- crates/daphne-sc-server/src/status_collector.rs.
use daphne_sc.Prelude.{List, [], ◌∷◌, ◌++◌, map, false, ◌&&◌}
use daphne_sc.Prelude.{Option, none, some, ok, err, if◌then◌else◌}
use daphne_sc.Text.{Text, ascii}
use daphne_sc.Text.Strings.{text_eq, is_empty, split_once}
use daphne_sc.Text.Trim.{trim}
use daphne_sc.Board.{Board}
use daphne_sc.Server.Status.{FirmwareStatus, ServiceStatus, unwrap_or}
use daphne_sc.Server.Preflight.Config.{Config, get, non_empty, read_files}
use daphne_sc.Server.Collector.Floats.{Floats}
use daphne_sc.Server.Collector.Sysfs.{Entry, read_trimmed, glob_paths}
use mathlib.Core.List.{reverse}

abbrev fpga_manager_state : Text
fpga_manager_state = ascii "/sys/class/fpga_manager/fpga0/state"

abbrev services : List Text
services =
    ascii "firmware.service"
    ∷ ascii "clockchip.service"
    ∷ ascii "endpoint.service"
    ∷ ascii "hermes.service"
    ∷ ascii "daphne.service"
    ∷ []

abbrev pl_devices : List Text
pl_devices =
    ascii "/sys/bus/platform/devices/9c000000.i2c"
    ∷ ascii "/sys/bus/platform/devices/9c020000.axi_quad_spi"
    ∷ []

-- The part after the last underscore, `rsplit_once('_')`.
unfoldable pub suffix_of : Text → Option Text
suffix_of name = elim (split_once 0x5f (reverse name)) [
  | none ↦ none
  | some (suffix, rest) ↦ some (reverse suffix)
]

-- `or_else`
abbrev or_else : Option Text → Option Text → Option Text
or_else none other = other
or_else (some text) other = some text

abbrev and_then : Option Text → (Text → Option Text) → Option Text
and_then none f = none
and_then (some text) f = f text

unfoldable pub remoteproc_state_detail : Text → Option Text → Text
remoteproc_state_detail state none = state
remoteproc_state_detail state (some firmware) =
    if is_empty firmware then state else state ++ ascii "; firmware=" ++ firmware

module _ {K F : Type 0} (board : Board K F) (floats : Floats) (k : K) where
  -- `read_board_config` of this file
  abbrev board_config : Config
  board_config =
      read_files board k (ascii "/etc/default/firmware" ∷ ascii "/etc/daphne-board.env" ∷ []) []

  unfoldable pub present_paths : List Text → List Text
  present_paths [] = []
  present_paths (path ∷ paths) =
      let rest = present_paths paths in if board.exists path k then path ∷ rest else rest

  unfoldable pub collect_firmware_status : FirmwareStatus
  collect_firmware_status =
      let state = read_trimmed board floats k fpga_manager_state in
      let overlay_name =
        non_empty board k
          (or_else (get board_config (ascii "FIRMWARE_APP")) (get board_config (ascii "APP"))) in
      record {
        loaded = elim state [ none ↦ false | some text ↦ text_eq text (ascii "operating") ];
        fpga_manager_state = state;
        overlay_name = overlay_name;
        build_id = and_then overlay_name suffix_of;
        pl_devices_present = present_paths pl_devices;
      }

  unfoldable pub service_status : Text → ServiceStatus
  service_status service = elim (board.is_active service k) [
    | ok output ↦
        let state = trim output.stdout in
        record {
          name = service;
          active = output.success && text_eq state (ascii "active");
          state = state;
        }
    | err e ↦ record { name = service; active = false; state = ascii "systemctl failed: " ++ e }
  ]

  unfoldable pub remoteproc_status : Entry → ServiceStatus
  remoteproc_status entry =
      let state =
        unwrap_or (read_trimmed board floats k (entry.path ++ ascii "/state")) (ascii "unknown") in
      let firmware = read_trimmed board floats k (entry.path ++ ascii "/firmware") in
      record {
        name = ascii "remoteproc/" ++ entry.name;
        active = text_eq state (ascii "running");
        state = remoteproc_state_detail state firmware;
      }

  unfoldable pub collect_remoteproc_statuses : List ServiceStatus
  collect_remoteproc_statuses =
      map remoteproc_status (glob_paths board floats k (ascii "/sys/class/remoteproc") [])

  unfoldable pub collect_service_statuses : List ServiceStatus
  collect_service_statuses = map service_status services ++ collect_remoteproc_statuses
