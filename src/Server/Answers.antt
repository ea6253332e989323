-- ===== src/Server/Answers.antt =====
-- What the responses of crates/daphne-sc-server/src/handlers.rs say of the RPU.
pub mod Afe
use daphne_sc.Prelude.{
  ℕ, List, ◌≡◌, ◌∙◌, sym, Bool, true, false, Result, ok, Result-cases, inl, inr, arith,
}
use daphne_sc.Afe.{AfeCommand, validate}
use daphne_sc.Text.{Text}
use daphne_sc.Rpu.{AfeCommandReply, RpuAfeTransport}
use daphne_sc.Server.Messages.{Response, Codec}
use daphne_sc.Server.Submit.{SubmitOutcome, submit, exchange}

-- The field `success`; the two messages without one do not come from the RPU.
abbrev pub succeeds : Response → Bool
succeeds (Response.configure success _) = success
succeeds (Response.write_afe_reg success _ _ _ _) = success
succeeds (Response.write_afe_vgain success _ _ _) = success
succeeds (Response.write_afe_attenuation success _ _ _) = success
succeeds (Response.write_afe_bias_set success _ _ _) = success
succeeds (Response.write_trim_all_channels success _ _ _) = success
succeeds (Response.write_trim_all_afe success _ _ _ _) = success
succeeds (Response.write_trim_single_channel success _ _ _ _) = success
succeeds (Response.write_offset_all_channels success _ _ _) = success
succeeds (Response.write_offset_all_afe success _ _ _ _) = success
succeeds (Response.write_offset_single_channel success _ _ _ _) = success
succeeds (Response.write_vbias_control success _ _) = success
succeeds (Response.read_afe_reg success _ _ _ _) = success
succeeds (Response.read_afe_vgain success _ _ _) = success
succeeds (Response.read_afe_bias_set success _ _ _) = success
succeeds (Response.read_trim_all_channels success _ _) = success
succeeds (Response.read_trim_all_afe success _ _ _) = success
succeeds (Response.read_trim_single_channel success _ _ _) = success
succeeds (Response.read_offset_all_channels success _ _) = success
succeeds (Response.read_offset_all_afe success _ _ _) = success
succeeds (Response.read_offset_single_channel success _ _ _) = success
succeeds (Response.read_vbias_control success _ _) = success
succeeds (Response.read_current_monitor success _ _ _) = success
succeeds (Response.read_bias_voltage_monitor success _ _ _) = success
succeeds (Response.set_afe_reset success _ _) = success
succeeds (Response.do_afe_reset success _) = success
succeeds (Response.set_afe_power_state success _ _) = success
succeeds (Response.align_afes success _ _ _) = success
succeeds (Response.write_afe_function success _ _ _ _) = success
succeeds (Response.slow_control_status status) = status.success
succeeds _ = false

module _ {T : Type 0} (rpu : RpuAfeTransport T) where
  -- The RPU accepts and applies a valid command that it is given in this state.
  pub record Applied (t : T) : Type 0 where
    pub command : AfeCommand
    pub reply : AfeCommandReply
    pub valid : validate command ≡ ok tt
    pub replied : (rpu.submit_afe_command t command).1 ≡ ok reply
    pub accepted : reply.accepted ≡ true
    pub applied : reply.applied ≡ true

  -- The answer is an encoded response, which reports a success only where a command was applied.
  pub record Answered (c : Codec) (t : T) (answer : T × List ℕ) : Type 0 where
    pub response : Response
    pub encoded : answer.1 ≡ c.encode response
    pub honest : succeeds response ≡ true → Applied t

  pub submit-Applied :
      (command : AfeCommand) (t : T) → (submit rpu command t).1.success ≡ true → Applied t
  unfolding submit
  submit-Applied command t h = elim (Result-cases (validate command)) [
    | inr (e, q) ↦ absurd (ground (arith, h, q))
    | inl (u, q) ↦ elim (Result-cases (rpu.submit_afe_command t command).1) [
      | inr (e, r) ↦ absurd (ground (arith, h, q, r))
      | inl (reply, r) ↦ record {
        command = command;
        reply = reply;
        valid = q;
        replied = r;
        accepted = ground (arith, h, q, r);
        applied = ground (arith, h, q, r);
      }
    ]
  ]

  pub exchange-Answered :
      {R : Type 0} (c : Codec) (decode : List ℕ → Result Text R) (bad : Text → Response)
      (make : R → Result Text AfeCommand) (refuse : R → Text → Response)
      (answer : R → SubmitOutcome → Response)
      → ((e : Text) → succeeds (bad e) ≡ false)
      → ((req : R) (e : Text) → succeeds (refuse req e) ≡ false)
      → ((req : R) (outcome : SubmitOutcome) → succeeds (answer req outcome) ≡ outcome.success)
      → (payload : List ℕ) (t : T)
      → Answered c t (exchange c rpu decode bad make refuse answer payload t)
  unfolding exchange
  exchange-Answered c decode bad make refuse answer bad_no refuse_no answer_ok payload t =
      elim (Result-cases (decode payload)) [
        | inr (e, q) ↦ record {
          response = bad e;
          encoded = rw (q, exchange);
          honest = λ h. absurd (grind (arith, h, bad_no e));
        }
        | inl (req, q) ↦ elim (Result-cases (make req)) [
          | inr (e, r) ↦ record {
            response = refuse req e;
            encoded = rw (q, r, exchange);
            honest = λ h. absurd (grind (arith, h, refuse_no req e));
          }
          | inl (command, r) ↦ record {
            response = answer req (submit rpu command t).1;
            encoded = rw (q, r, exchange);
            honest =
                λ h. submit-Applied command t (sym (answer_ok req (submit rpu command t).1) ∙ h);
          }
        ]
      ]
