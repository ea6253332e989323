-- ===== src/Server/Router.antt =====
-- The envelopes of requests and responses: `handle_envelope` and `needs_preflight` of
-- crates/daphne-sc-server/src/router.rs, and crates/daphne-sc-server/src/v2.rs.
pub mod Envelope
use Prim.Native.Nat.{bit_xor}
use daphne_sc.Prelude.{
  ℕ, ◌+◌, ◌-◌, ◌*◌, ◌%◌, ◌^◌, bit_and, List, ◌==◌, ◌||◌, not, Bool, true, false, if◌then◌else◌,
}
use daphne_sc.Prelude.{Option, none, some, Result, ok, err}
use daphne_sc.Transport.{MessageTypeV2, CommandRoute, try_from, route_message_type}
use daphne_sc.Rpu.{RpuLinkStatus, RpuAfeTransport}
use daphne_sc.Server.Preflight.{PreflightStatus}
use daphne_sc.Server.Status.{SlowControlStatus}
use daphne_sc.Server.Messages.{ControlEnvelopeV2, Codec}
use daphne_sc.Server.Handlers.{handle_payload}

-- `Direction::DirRequest` and `Direction::DirResponse`
abbrev pub dir_request : ℕ
dir_request = 0

abbrev pub dir_response : ℕ
dir_response = 1

-- On the 32 bits of an `i32`; an even number has a successor.
unfoldable pub response_type : ℕ → ℕ
response_type req_type =
    if req_type == 0 then 0 else if bit_and req_type 1 == 0 then req_type + 1 else req_type

-- `next_msg_id`, from the clock and the counter before `fetch_add`.
unfoldable pub next_msg_id : ℕ → ℕ → ℕ
next_msg_id now_ns seq = bit_and (bit_xor (now_ns * 2 ^ 16 % 2 ^ 64) seq) (2 ^ 63 - 1)

-- `msg_id` and `timestamp_ns` are what `next_msg_id` and `now_ns` give.
unfoldable pub make_response : ControlEnvelopeV2 → List ℕ → ℕ → ℕ → ControlEnvelopeV2
make_response req payload msg_id timestamp_ns = record {
  version = 2;
  dir = dir_response;
  kind = response_type req.kind;
  payload = payload;
  task_id = req.task_id;
  msg_id = msg_id;
  correl_id = req.msg_id;
  route = req.route;
  timestamp_ns = timestamp_ns;
}

-- `req.version != 2 || req.dir != DirRequest`
abbrev ignored : ControlEnvelopeV2 → Bool
ignored req = not (req.version == 2) || not (req.dir == dir_request)

abbrev is_rpu_afe : CommandRoute → Bool
is_rpu_afe CommandRoute.rpu_afe = true
is_rpu_afe _ = false

abbrev is_slow_control_status : MessageTypeV2 → Bool
is_slow_control_status MessageTypeV2.read_slow_control_status_req = true
is_slow_control_status _ = false

-- The end of `needs_preflight`.
unfoldable pub is_checked_type : ℕ → Bool
is_checked_type number = elim (try_from number) [
  | err _ ↦ false
  | ok message_type ↦
      is_rpu_afe (route_message_type message_type) || is_slow_control_status message_type
]

unfoldable pub needs_preflight : Codec → List ℕ → Bool
needs_preflight c payload = elim (c.decode_envelope payload) [
  | err _ ↦ false
  | ok req ↦ if ignored req then false else is_checked_type req.kind
]

module _ (c : Codec) (collect : PreflightStatus → RpuLinkStatus → SlowControlStatus) {T : Type 0}
    (rpu : RpuAfeTransport T) where
  -- `clock` gives the two numbers that `make_response` takes from the clock and the counter.
  unfoldable pub handle_envelope : ℕ × ℕ → List ℕ → PreflightStatus → T → T × Option (List ℕ)
  handle_envelope clock payload preflight t = elim (c.decode_envelope payload) [
    | err _ ↦ (t, none)
    | ok req ↦
        if ignored req
        then (t, none)
        else (let (t', response) = handle_payload c collect rpu req.kind req.payload preflight t in
            (t', some (c.encode_envelope (make_response req response clock.0 clock.1))))
  ]
