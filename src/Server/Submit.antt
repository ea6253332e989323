-- ===== src/Server/Submit.antt =====
-- `submit` of crates/daphne-sc-server/src/handlers.rs and the course that its handlers share.
use daphne_sc.Prelude.{
  ℕ, List, ◌++◌, Bool, true, false, ◌&&◌, Option, none, Result, ok, err, String,
}
use daphne_sc.Afe.{AfeCommand, validate}
use daphne_sc.Text.{Text, ascii, validation_error_text}
use daphne_sc.Rpu.{AfeCommandReply, RpuError, RpuAfeTransport, rpu_error_text}
use daphne_sc.Server.Messages.{Response, Codec}

pub record SubmitOutcome : Type 0 where
  pub success : Bool
  pub message : Text
  pub readback : Option ℕ
  pub fault_code : ℕ
  pub context_code : ℕ
  pub transport_error : Bool

abbrev pub rpu_fail_prefix : Text
rpu_fail_prefix = ascii "RPU AFE command failed: "

-- The outcome where there is no reply.
abbrev pub no_reply : Text → Bool → SubmitOutcome
no_reply message transport_error = record {
  success = false;
  message = message;
  readback = none;
  fault_code = 0;
  context_code = 0;
  transport_error = transport_error;
}

-- The match on the result of `submit_afe_command`.
abbrev pub reply_outcome : Result RpuError AfeCommandReply → SubmitOutcome
reply_outcome (ok reply) = record {
  success = reply.accepted && reply.applied;
  message = reply.message;
  readback = reply.readback;
  fault_code = reply.fault_code;
  context_code = reply.context_code;
  transport_error = false;
}
reply_outcome (err e) = no_reply (rpu_fail_prefix ++ rpu_error_text e) true

unfoldable pub submit : {T : Type 0} → RpuAfeTransport T → AfeCommand → T → T × SubmitOutcome
submit rpu command t = elim (validate command) [
  | err e ↦ (t, no_reply (validation_error_text e) false)
  | ok _ ↦ let (t', reply) = rpu.submit_afe_command t command in (t', reply_outcome reply)
]

-- `map` on a result
abbrev pub map_ok : {A B : Type 0} → (A → B) → Result Text A → Result Text B
map_ok f (ok a) = ok (f a)
map_ok f (err e) = err e

-- `format!("Bad {name} payload: {err}")`
unfoldable pub bad_payload : String → Text → Text
bad_payload name e = ascii "Bad " ++ ascii name ++ ascii " payload: " ++ e

-- The course of a handler: the payload is decoded, a command is made of the request and submitted, and the
-- first of the three that fails decides the response.
unfoldable pub exchange :
    {T R : Type 0}
    → Codec
    → RpuAfeTransport T
    → (List ℕ → Result Text R)
    → (Text → Response)
    → (R → Result Text AfeCommand)
    → (R → Text → Response)
    → (R → SubmitOutcome → Response)
    → List ℕ
    → T
    → T × List ℕ
exchange c rpu decode bad make refuse answer payload t = elim (decode payload) [
  | err e ↦ (t, c.encode (bad e))
  | ok req ↦ elim (make req) [
    | err e ↦ (t, c.encode (refuse req e))
    | ok command ↦ let (t', outcome) = submit rpu command t in (t', c.encode (answer req outcome))
  ]
]
