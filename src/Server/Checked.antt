-- ===== src/Server/Checked.antt =====
-- The commands that reach the RPU from crates/daphne-sc-server/src/handlers.rs: a transport that keeps them,
-- and what a handler submits.
pub mod Afe
pub mod Requests
use daphne_sc.Prelude.{
  ℕ, zero, suc, List, [], ◌∷◌, ◌++◌, All, All-append, ◌≡◌, refl, Result, ok, err, Result-cases, inl,
  inr, Bool-cases, arith, ◌>>=◌,
}
use daphne_sc.Bytes.{IsByte}
use daphne_sc.Afe.{AfeCommand, ChannelTarget, validate, from_board}
use daphne_sc.Afe.InRange.{InRange, IsTarget}
use daphne_sc.Text.{Text}
use daphne_sc.Rpu.{RpuLinkStatus, RpuAfeTransport}
use daphne_sc.Transport.{MessageTypeV2, CommandRoute, try_from, route_message_type}
use daphne_sc.Server.Preflight.{PreflightStatus, ready_for_hardware_commands}
use daphne_sc.Server.Status.{SlowControlStatus}
use daphne_sc.Server.Messages.{Response, Codec, CmdWriteAfeFunction}
use daphne_sc.Server.Submit.{SubmitOutcome, submit, exchange, map_ok}
use daphne_sc.Server.Commands.Ranges.{
  OkIs, bind-OkIs, ok-OkIs, from_board-OkIs, afe_id-OkIs, channel_id-OkIs, make_read_register-OkIs,
  make_write_register-OkIs, make_set_attenuation-OkIs, make_set_bias-OkIs, make_set_trim-OkIs,
  make_set_offset-OkIs, make_set_vbias_control-OkIs, make_write_function-OkIs,
  configure_command-OkIs,
}
use daphne_sc.Server.Commands.{afe_id, channel_id}
use daphne_sc.Server.Afe.{
  handle_configure_fe, handle_do_afe_reset, handle_read_afe_bias, handle_read_afe_reg,
  handle_read_afe_vgain, handle_read_offset_all_afe, handle_read_offset_all_channels,
  handle_read_offset_channel, handle_read_trim_all_afe, handle_read_trim_all_channels,
  handle_read_trim_channel, handle_read_vbias_control, handle_set_afe_power_state,
  handle_set_afe_reset, handle_write_afe_attenuation, handle_write_afe_bias,
  handle_write_afe_function, handle_write_afe_reg, handle_write_afe_vgain,
  handle_write_offset_all_afe, handle_write_offset_all_channels, handle_write_offset_channel,
  handle_write_trim_all_afe, handle_write_trim_all_channels, handle_write_trim_channel,
  handle_write_vbias_control,
}
use daphne_sc.Server.Afe.Align.{
  handle_align_afe, answer_align, alignment_vectors, read_alignment_vectors, read_alignments,
  read_alignment_of,
}
use daphne_sc.Server.Handlers.{
  handle_rpu_afe, handle_gated, handle_route, handle_payload, handle_linux_status,
  handle_slow_control_status,
}

-- A transport that keeps the commands it is given, the last one at the end.
abbrev pub logged : {T : Type 0} → RpuAfeTransport T → RpuAfeTransport (T × List AfeCommand)
logged rpu = record {
  status = λ s. let (t, r) = rpu.status s.0 in ((t, s.1), r);
  submit_afe_command = λ s command.
      let (t, r) = rpu.submit_afe_command s.0 command in ((t, s.1 ++ (command ∷ [])), r);
}

abbrev pub Checked : AfeCommand → Type 0
Checked command = (validate command ≡ ok tt) × InRange command

pub map_ok-OkIs :
    {A B : Type 0} {P : A → Type 0} {Q : B → Type 0} (f : A → B) (r : Result Text A)
    → OkIs P r
    → ((a : A) → P a → Q (f a))
    → OkIs Q (map_ok f r)
map_ok-OkIs f (ok a) p q = ok-OkIs (q a (p.apply a refl))
map_ok-OkIs f (err e) p q = record { apply = λ b h. absurd (grind (arith, h)) }

pub one_channel :
    (v : ℕ) (make : ChannelTarget → Result Text AfeCommand)
    → ((target : ChannelTarget) → IsTarget target → OkIs InRange (make target))
    → OkIs InRange (map_ok ChannelTarget.one (channel_id v) >>= make)
one_channel v make h = bind-OkIs (map_ok-OkIs ChannelTarget.one _ (channel_id-OkIs v) λ a p. p) h

pub one_afe :
    (v : ℕ) (make : ChannelTarget → Result Text AfeCommand)
    → ((target : ChannelTarget) → IsTarget target → OkIs InRange (make target))
    → OkIs InRange (map_ok ChannelTarget.afe (afe_id v) >>= make)
one_afe v make h = bind-OkIs (map_ok-OkIs ChannelTarget.afe _ (afe_id-OkIs v) λ a p. p) h

module _ (c : Codec) {T : Type 0} (rpu : RpuAfeTransport T) where
  pub submit-Checked :
      (command : AfeCommand) (s : T × List AfeCommand)
      → InRange command
      → All Checked s.1
      → All Checked (submit (logged rpu) command s).0.1
  unfolding submit
  submit-Checked command s r h = elim (Result-cases (validate command)) [
    | inr (e, q) ↦ rw (q, submit) h
    | inl (u, q) ↦ rw (q, submit) (All-append Checked s.1 (command ∷ []) h ((q, r), tt))
  ]

  pub exchange-Checked :
      {R : Type 0} (decode : List ℕ → Result Text R) (bad : Text → Response)
      (make : R → Result Text AfeCommand) (refuse : R → Text → Response)
      (answer : R → SubmitOutcome → Response) (payload : List ℕ)
      → ((req : R) → decode payload ≡ ok req → OkIs InRange (make req))
      → (s : T × List AfeCommand) → All Checked s.1
      → All Checked (exchange c (logged rpu) decode bad make refuse answer payload s).0.1
  unfolding exchange
  exchange-Checked decode bad make refuse answer payload made s h =
      elim (Result-cases (decode payload)) [
        | inr (e, q) ↦ rw (q, exchange) h
        | inl (req, q) ↦ elim (Result-cases (make req)) [
          | inr (e, r) ↦ rw (q, r, exchange) h
          | inl (command, r) ↦
              rw (q, r, exchange) (submit-Checked command s ((made req q).apply command r) h)
        ]
      ]
