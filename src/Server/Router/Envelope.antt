-- ===== src/Server/Router/Envelope.antt =====
-- What crates/daphne-sc-server/src/router.rs and v2.rs do with an envelope.
use daphne_sc.Server.Router.{
  response_type, make_response, is_checked_type, needs_preflight, ignored, is_rpu_afe,
  is_slow_control_status,
}
use daphne_sc.Server.Router.{handle_envelope, dir_request, dir_response}
use daphne_sc.Prelude.{ℕ, ◌+◌, List, ◌≡◌, refl, subst, false, ◌||◌, Bool-cases}
use daphne_sc.Prelude.{some, ok, err, Result-cases, inl, inr, arith}
use daphne_sc.Transport.{MessageTypeV2, CommandRoute, try_from, route_message_type, code}
use daphne_sc.Transport.Codes.{try_from_iff}
use daphne_sc.Rpu.{RpuLinkStatus, RpuAfeTransport}
use daphne_sc.Server.Preflight.{PreflightStatus}
use daphne_sc.Server.Status.{SlowControlStatus}
use daphne_sc.Server.Messages.{ControlEnvelopeV2, Codec}
use daphne_sc.Server.Handlers.{handle_payload, handle_route, handle_linux_status}

module _ (c : Codec) (collect : PreflightStatus → RpuLinkStatus → SlowControlStatus) {T : Type 0}
    (rpu : RpuAfeTransport T) where
  linux_status-any :
      (message_type : MessageTypeV2)
      → is_slow_control_status message_type ≡ false
      → (payload : List ℕ) (p q : PreflightStatus) (t : T)
      → handle_linux_status c collect rpu message_type payload p t
        ≡ handle_linux_status c collect rpu message_type payload q t
  unfolding handle_linux_status
  linux_status-any MessageTypeV2.read_slow_control_status_req h payload p q t =
      absurd (grind (arith, h))
  linux_status-any _ h payload p q t = refl

  handle_route-any :
      (route : CommandRoute) (message_type : MessageTypeV2)
      → (is_rpu_afe route || is_slow_control_status message_type) ≡ false
      → (payload : List ℕ) (p q : PreflightStatus) (t : T)
      → handle_route c collect rpu route message_type payload p t
        ≡ handle_route c collect rpu route message_type payload q t
  unfolding handle_route
  handle_route-any CommandRoute.rpu_afe message_type h payload p q t = absurd (grind (arith, h))
  handle_route-any CommandRoute.linux_status message_type h payload p q t =
      linux_status-any message_type h payload p q t
  handle_route-any _ message_type h payload p q t = refl

  handle_payload-any :
      (number : ℕ)
      → is_checked_type number ≡ false
      → (payload : List ℕ) (p q : PreflightStatus) (t : T)
      → handle_payload c collect rpu number payload p t
        ≡ handle_payload c collect rpu number payload q t
  unfolding is_checked_type handle_payload
  handle_payload-any number h payload p q t = elim (Result-cases (try_from number)) [
    | inr (e, k) ↦ rw (k, handle_payload)
    | inl (m, k) ↦
        rw (k, handle_payload)
          (handle_route-any (route_message_type m) m (rw (k, is_checked_type) at h) payload p q t)
  ]

  -- A payload for which no preflight is run is handled in the same way whatever its outcome would have been,
  -- with the same response and the same calls of the RPU.
  pub preflight_where_needed :
      (clock : ℕ × ℕ) (payload : List ℕ) (p q : PreflightStatus) (t : T)
      → needs_preflight c payload ≡ false
      → handle_envelope c collect rpu clock payload p t
        ≡ handle_envelope c collect rpu clock payload q t
  unfolding needs_preflight handle_envelope
  preflight_where_needed clock payload p q t h = elim (Result-cases (c.decode_envelope payload)) [
    | inr (e, k) ↦ rw (k, handle_envelope)
    | inl (req, k) ↦ elim (Bool-cases (ignored req)) [
      | inl i ↦ rw (k, i, handle_envelope)
      | inr i ↦ rw (
        k,
        i,
        handle_envelope,
        handle_payload-any req.kind (rw (k, i, needs_preflight) at h) req.payload p q t,
      )
    ]
  ]

  -- A response to a known request has the number after the request's, which is no request's.
  response_type-known :
      (message_type : MessageTypeV2)
      → (response_type (code message_type) ≡ code message_type + 1)
        × (try_from (code message_type + 1) ≡ err tt)
  unfolding response_type code try_from
  response_type-known MessageTypeV2.configure_clks_req = (refl, refl)
  response_type-known _ = (refl, refl)

  -- A request of version 2 with a known message type is answered by what `handle_payload` gives for it, in an
  -- envelope of version 2 marked as a response that carries the request's `msg_id` as `correl_id`, its task
  -- and its route; its type is the number after the request's, which is no request type, so that the
  -- response is not itself taken for a request.
  pub request_answered :
      (clock : ℕ × ℕ) (payload : List ℕ) (preflight : PreflightStatus) (t : T)
      (req : ControlEnvelopeV2) (message_type : MessageTypeV2)
      → c.decode_envelope payload ≡ ok req
      → req.version ≡ 2
      → req.dir ≡ dir_request
      → try_from req.kind ≡ ok message_type
      → (handle_envelope c collect rpu clock payload preflight t ≡ (
        (handle_payload c collect rpu req.kind req.payload preflight t).0,
        some (
            c.encode_envelope (record {
              version = 2;
              dir = dir_response;
              kind = req.kind + 1;
              payload = (handle_payload c collect rpu req.kind req.payload preflight t).1;
              task_id = req.task_id;
              msg_id = clock.0;
              correl_id = req.msg_id;
              route = req.route;
              timestamp_ns = clock.1;
            })),
      ))
        × (try_from (req.kind + 1) ≡ err tt)
  unfolding handle_envelope make_response
  request_answered clock payload preflight t req message_type decoded version dir known =
      let e = (try_from_iff req.kind message_type).0 known in
      let k = response_type-known message_type in
      (
        rw (decoded, handle_envelope, version, dir, subst (λ n. response_type n ≡ n + 1) e k.0),
        subst (λ n. try_from (n + 1) ≡ err tt) e k.1,
      )
