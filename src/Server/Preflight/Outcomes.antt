-- ===== src/Server/Preflight/Outcomes.antt =====
-- The outcomes and the texts of the checks of crates/daphne-sc-server/src/preflight.rs.
use daphne_sc.Prelude.{ℕ, List, [], ◌∷◌, ◌++◌, map, Bool, true, false, ◌&&◌, ◌||◌, not, ◌==◌}
use daphne_sc.Prelude.{if◌then◌else◌}
use daphne_sc.Text.{
  Text, ascii, decimal, upper_hex_u8, upper_hex_wide, upper_hex_u16, upper_hex_u32,
}
use daphne_sc.Text.Strings.{contains, join}
use daphne_sc.ClockChip.Registers.{clockchip_sanity_register, clockchip_sanity_value}
use daphne_sc.I2c.{i2c_dev_path, debug_list}
use daphne_sc.Endpoint.{
  EndpointRegisterStatus, mmcm0_locked, mmcm1_locked, endpoint_state, timestamp_ok,
}
use daphne_sc.Server.Preflight.{PreflightCheck}

-- `PreflightCheck::ok`
abbrev pub pass : Text → Text → PreflightCheck
pass name detail = record { name = name; ok = true; detail = detail }

-- `PreflightCheck::fail`
abbrev pub fail : Text → Text → PreflightCheck
fail name detail = record { name = name; ok = false; detail = detail }

-- `{b}`
abbrev pub bool_text : Bool → Text
bool_text b = if b then ascii "true" else ascii "false"

abbrev pub join_paths : List ℕ → Text
join_paths buses = join (ascii ",") (map i2c_dev_path buses)

pub data ProbeResult : Type 0 where
  found : Text → ProbeResult
  missing : ProbeResult
  unavailable : Text → ProbeResult

-- A probe's place in its texts.
abbrev pub probe_place : ℕ → ℕ → Text
probe_place bus addr = i2c_dev_path bus ++ ascii " addr 0x" ++ upper_hex_wide addr

unfoldable pub sanity_result : ℕ → ℕ → ℕ → ProbeResult
sanity_result bus addr value =
    if value == clockchip_sanity_value
    then ProbeResult.found (
        ascii "0x"
        ++ upper_hex_wide addr
        ++ ascii " present on "
        ++ i2c_dev_path bus
        ++ ascii "; 0x"
        ++ upper_hex_u8 clockchip_sanity_register
        ++ ascii "=0x"
        ++ upper_hex_u8 value)
    else ProbeResult.unavailable (
        probe_place bus addr
        ++ ascii " read 0x"
        ++ upper_hex_u8 clockchip_sanity_register
        ++ ascii "=0x"
        ++ upper_hex_u8 value
        ++ ascii ", expected 0x"
        ++ upper_hex_u8 clockchip_sanity_value)

unfoldable pub open_failure : ℕ → ℕ → Text → ProbeResult
open_failure bus addr detail =
    if contains (ascii "No such device") detail || contains (ascii "Remote I/O") detail
    then ProbeResult.missing
    else ProbeResult.unavailable (probe_place bus addr ++ ascii ": " ++ detail)

-- The candidates do not answer; `errors` are the details of the probes that failed.
unfoldable pub not_reachable : List ℕ → ℕ → List Text → PreflightCheck
not_reachable buses chip errors =
    let candidates = join_paths buses in
    elim errors [
      | [] ↦ fail (ascii "clockchip_i2c") (decimal chip ++ ascii " not detected on " ++ candidates)
      | error ∷ more ↦ fail (ascii "clockchip_i2c") (
          ascii "0x"
          ++ upper_hex_wide chip
          ++ ascii " not reachable on "
          ++ candidates
          ++ ascii "; probe errors: "
          ++ join (ascii "; ") (error ∷ more))
    ]

unfoldable pub lock_check : EndpointRegisterStatus → PreflightCheck
lock_check status =
    if mmcm0_locked status && mmcm1_locked status
    then pass (ascii "endpoint_mmcm_locks")
        (ascii "clock_status=0x" ++ upper_hex_u32 status.clock_status)
    else fail (ascii "endpoint_mmcm_locks") (
        ascii "clock_status=0x"
        ++ upper_hex_u32 status.clock_status
        ++ ascii " mmcm0="
        ++ bool_text (mmcm0_locked status)
        ++ ascii " mmcm1="
        ++ bool_text (mmcm1_locked status))

-- `success_states.contains(&state)`
unfoldable pub has_state : List ℕ → ℕ → Bool
has_state [] state = false
has_state (s ∷ states) state = s == state || has_state states state

abbrev state_detail : EndpointRegisterStatus → Text
state_detail status =
    ascii "endpoint_status=0x"
    ++ upper_hex_u32 status.endpoint_status
    ++ ascii " state=0x"
    ++ upper_hex_u16 (endpoint_state status)
    ++ ascii " timestamp_ok="
    ++ bool_text (timestamp_ok status)

unfoldable pub fsm_check : List ℕ → EndpointRegisterStatus → PreflightCheck
fsm_check success_states status =
    let state = endpoint_state status in
    let state_ok = has_state success_states state in
    let timestamp_fine = not (state == 0x8) || timestamp_ok status in
    if state_ok && timestamp_fine
    then pass (ascii "endpoint_fsm") (state_detail status)
    else fail (ascii "endpoint_fsm")
        (state_detail status ++ ascii " accepted_states=" ++ debug_list success_states)

-- `entries.any(|entry| entry.is_ok())`
unfoldable pub any_entry : List Bool → Bool
any_entry [] = false
any_entry (readable ∷ entries) = readable || any_entry entries
