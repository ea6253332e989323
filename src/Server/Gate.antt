-- ===== src/Server/Gate.antt =====
-- The gate in front of the RPU, of crates/daphne-sc-server/src/handlers.rs.
use daphne_sc.Prelude.{
  ◌≢◌, ℕ, List, ◌≡◌, refl, ap, ◌∙◌, true, false, ok, ◌⊎◌, Result-cases, inl, inr, Bool-cases, arith,
}
use daphne_sc.Text.{Text}
use daphne_sc.Rpu.{RpuLinkStatus, RpuAfeTransport}
use daphne_sc.Transport.{MessageTypeV2, CommandRoute, try_from, route_message_type}
use daphne_sc.Server.Preflight.{
  PreflightStatus, ready_for_hardware_commands, failure_message, preflight_rejected,
}
use daphne_sc.Server.Status.{SlowControlStatus}
use daphne_sc.Server.Messages.{Response, Codec}
use daphne_sc.Server.Handlers.{handle_gated, handle_route, handle_payload, handle_linux_status}
use daphne_sc.Server.Answers.Afe.{handle_rpu_afe-Answered}
use daphne_sc.Server.Answers.{succeeds, Applied}

-- An encoded response that reports a success only where the checks have passed and the RPU has accepted and
-- applied a valid command.
pub record GatedAnswer (c : Codec) {T : Type 0} (rpu : RpuAfeTransport T)
    (preflight : PreflightStatus) (t : T) (answer : T × List ℕ) : Type 0 where
  pub response : Response
  pub encoded : answer.1 ≡ c.encode response
  pub verdict :
      (succeeds response ≡ false) ⊎ ((ready_for_hardware_commands preflight ≡ true) × Applied rpu t)

rejected-not-Applied : (message : Text) → Applied (preflight_rejected message) tt → ⊥
rejected-not-Applied message a = grind (arith, a.replied)

module _ (c : Codec) (collect : PreflightStatus → RpuLinkStatus → SlowControlStatus) {T : Type 0}
    (rpu : RpuAfeTransport T) where
  handle_gated-GatedAnswer :
      (message_type : MessageTypeV2)
      → route_message_type message_type ≡ CommandRoute.rpu_afe
      → (payload : List ℕ) (preflight : PreflightStatus) (t : T)
      → GatedAnswer c rpu preflight t (handle_gated c collect rpu message_type payload preflight t)
  unfolding handle_gated
  handle_gated-GatedAnswer message_type h payload preflight t =
      let open_answer = handle_rpu_afe-Answered c rpu message_type h payload t in
      let closed_answer =
        handle_rpu_afe-Answered c (preflight_rejected (failure_message preflight)) message_type h
          payload tt in
      elim (Bool-cases (ready_for_hardware_commands preflight)) [
        | inl ready ↦ record {
          response = open_answer.response;
          encoded = rw (ready, handle_gated) open_answer.encoded;
          verdict = elim (Bool-cases (succeeds open_answer.response)) [
            | inl good ↦ inr (ready, open_answer.honest good)
            | inr bad ↦ inl bad
          ];
        }
        | inr failed ↦ record {
          response = closed_answer.response;
          encoded = rw (failed, handle_gated) closed_answer.encoded;
          verdict = elim (Bool-cases (succeeds closed_answer.response)) [
            | inl good ↦
                absurd
                  (rejected-not-Applied (failure_message preflight) (closed_answer.honest good))
            | inr bad ↦ inl bad
          ];
        }
      ]

  -- A request for the RPU is answered by an encoded response, and the response reports a success only where
  -- all preflight checks have passed and the RPU has been given a valid command and replied that it accepted
  -- and applied it.
  pub success_means_applied :
      (message_type : MessageTypeV2) (number : ℕ)
      → try_from number ≡ ok message_type
      → route_message_type message_type ≡ CommandRoute.rpu_afe
      → (payload : List ℕ) (preflight : PreflightStatus) (t : T)
      → GatedAnswer c rpu preflight t (handle_payload c collect rpu number payload preflight t)
  unfolding handle_payload handle_route
  success_means_applied message_type number known routed payload preflight t =
      rw (known, handle_payload, routed, handle_route)
        (handle_gated-GatedAnswer message_type routed payload preflight t)

  linux_status-same :
      (message_type : MessageTypeV2) (payload : List ℕ) (preflight : PreflightStatus) (t : T)
      → message_type ≢ MessageTypeV2.read_slow_control_status_req
      → (handle_linux_status c collect rpu message_type payload preflight t).0 ≡ t
  unfolding handle_linux_status
  linux_status-same MessageTypeV2.read_slow_control_status_req payload preflight t other =
      absurd (other refl)
  linux_status-same MessageTypeV2.read_current_monitor_req payload preflight t other = ground arith
  linux_status-same MessageTypeV2.read_bias_voltage_monitor_req payload preflight t other =
      ground arith
  linux_status-same _ payload preflight t other = refl

  handle_route-same :
      (route : CommandRoute) (message_type : MessageTypeV2) (payload : List ℕ)
      (preflight : PreflightStatus) (t : T)
      → ready_for_hardware_commands preflight ≡ false
      → message_type ≢ MessageTypeV2.read_slow_control_status_req
      → (handle_route c collect rpu route message_type payload preflight t).0 ≡ t
  unfolding handle_route handle_gated
  handle_route-same CommandRoute.rpu_afe message_type payload preflight t failed other =
      rw (failed, handle_gated)
  handle_route-same CommandRoute.linux_status message_type payload preflight t failed other =
      linux_status-same message_type payload preflight t other
  handle_route-same _ message_type payload preflight t failed other = refl

  -- While a preflight check has failed, no request but the one for the slow control status reaches the RPU:
  -- the transport is left as it was.
  pub closed_gate :
      (number : ℕ) (payload : List ℕ) (preflight : PreflightStatus) (t : T)
      → ready_for_hardware_commands preflight ≡ false
      → try_from number ≢ ok MessageTypeV2.read_slow_control_status_req
      → (handle_payload c collect rpu number payload preflight t).0 ≡ t
  unfolding handle_payload
  closed_gate number payload preflight t failed other = elim (Result-cases (try_from number)) [
    | inl (message_type, q) ↦
        rw (q, handle_payload)
          (handle_route-same (route_message_type message_type) message_type payload preflight t
            failed (λ e. other (q ∙ ap ok e)))
    | inr (e, q) ↦ rw (q, handle_payload)
  ]
