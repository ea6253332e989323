-- ===== src/Server/Checked/Requests.antt =====
-- The commands that any request makes the server submit, crates/daphne-sc-server/src/handlers.rs.
use daphne_sc.Server.Checked.{logged, Checked}
use daphne_sc.Server.Checked.Afe.{handle_rpu_afe-Checked}
use daphne_sc.Prelude.{ℕ, List, [], All, ◌≡◌, ok, Result-cases, inl, inr, Bool-cases}
use daphne_sc.Bytes.{IsByte}
use daphne_sc.Afe.{AfeCommand}
use daphne_sc.Rpu.{RpuLinkStatus, RpuAfeTransport}
use daphne_sc.Transport.{MessageTypeV2, CommandRoute, try_from, route_message_type}
use daphne_sc.Server.Preflight.{PreflightStatus, ready_for_hardware_commands}
use daphne_sc.Server.Status.{SlowControlStatus}
use daphne_sc.Server.Messages.{Codec, CmdWriteAfeFunction}
use daphne_sc.Server.Handlers.{
  handle_gated, handle_route, handle_payload, handle_linux_status, handle_slow_control_status,
}

module _ (c : Codec) (collect : PreflightStatus → RpuLinkStatus → SlowControlStatus) {T : Type 0}
    (rpu : RpuAfeTransport T)
    (names : (payload : List ℕ) (req : CmdWriteAfeFunction)
      → c.decode_write_afe_function payload ≡ ok req
      → All IsByte req.function) where
  handle_linux_status-Checked :
      (message_type : MessageTypeV2) (payload : List ℕ) (preflight : PreflightStatus)
      (s : T × List AfeCommand)
      → All Checked s.1
      → All Checked
          (handle_linux_status c collect (logged rpu) message_type payload preflight s).0.1
  unfolding handle_linux_status handle_slow_control_status
  handle_linux_status-Checked MessageTypeV2.read_current_monitor_req payload preflight s h =
      elim (Result-cases (c.decode_read_current_monitor payload)) [
        | inr (e, q) ↦ rw (q, handle_linux_status) h
        | inl (req, q) ↦ rw (q, handle_linux_status) h
      ]
  handle_linux_status-Checked MessageTypeV2.read_bias_voltage_monitor_req payload preflight s h =
      elim (Result-cases (c.decode_read_bias_voltage_monitor payload)) [
        | inr (e, q) ↦ rw (q, handle_linux_status) h
        | inl (req, q) ↦ rw (q, handle_linux_status) h
      ]
  handle_linux_status-Checked MessageTypeV2.read_slow_control_status_req payload preflight s h =
      elim (Result-cases (c.decode_slow_control_status payload)) [
        | inr (e, q) ↦ rw (q, handle_slow_control_status) h
        | inl (req, q) ↦ rw (q, handle_slow_control_status) h
      ]
  handle_linux_status-Checked _ payload preflight s h = h

  handle_route-Checked :
      (route : CommandRoute) (message_type : MessageTypeV2) (payload : List ℕ)
      (preflight : PreflightStatus) (s : T × List AfeCommand)
      → All Checked s.1
      → All Checked (handle_route c collect (logged rpu) route message_type payload preflight s).0.1
  unfolding handle_route handle_gated
  handle_route-Checked CommandRoute.rpu_afe message_type payload preflight s h =
      elim (Bool-cases (ready_for_hardware_commands preflight)) [
        | inl ready ↦
            rw (ready, handle_gated) (handle_rpu_afe-Checked c rpu names message_type payload s h)
        | inr failed ↦ rw (failed, handle_gated) h
      ]
  handle_route-Checked CommandRoute.linux_status message_type payload preflight s h =
      handle_linux_status-Checked message_type payload preflight s h
  handle_route-Checked _ message_type payload preflight s h = h

  -- Where function names are decoded to bytes, every command that any message makes the server submit to
  -- the RPU passes the validation of AFE commands and has all its fields in the range of their types: AFEs
  -- and channels that exist, with consistent numberings, and values of 8 and 16 bits.
  pub commands-Checked :
      (number : ℕ) (payload : List ℕ) (preflight : PreflightStatus) (t : T)
      → All Checked (handle_payload c collect (logged rpu) number payload preflight (t, [])).0.1
  unfolding handle_payload
  commands-Checked number payload preflight t = elim (Result-cases (try_from number)) [
    | inr (e, q) ↦ rw (q, handle_payload) tt
    | inl (m, q) ↦
        rw (q, handle_payload)
          (handle_route-Checked (route_message_type m) m payload preflight (t, []) tt)
  ]
