-- ===== src/Server/Answers/Afe.antt =====
-- What the handlers for AFE messages answer, crates/daphne-sc-server/src/handlers.rs.
use daphne_sc.Prelude.{ℕ, List, [], ◌≡◌, refl, false, Result-cases, inl, inr, arith}
use daphne_sc.Afe.{AfeCommand}
use daphne_sc.Rpu.{RpuAfeTransport}
use daphne_sc.Transport.{MessageTypeV2, CommandRoute, route_message_type}
use daphne_sc.Server.Messages.{Response, Codec}
use daphne_sc.Server.Submit.{submit, bad_payload}
use daphne_sc.Server.Afe.{
  handle_configure_fe, handle_do_afe_reset, handle_read_afe_bias, handle_read_afe_reg,
  handle_read_afe_vgain, handle_read_offset_all_afe, handle_read_offset_all_channels,
  handle_read_offset_channel, handle_read_trim_all_afe, handle_read_trim_all_channels,
  handle_read_trim_channel, handle_read_vbias_control, handle_set_afe_power_state,
  handle_set_afe_reset, handle_write_afe_attenuation, handle_write_afe_bias,
  handle_write_afe_function, handle_write_afe_reg, handle_write_afe_vgain,
  handle_write_offset_all_afe, handle_write_offset_all_channels, handle_write_offset_channel,
  handle_write_trim_all_afe, handle_write_trim_all_channels, handle_write_trim_channel,
  handle_write_vbias_control,
}
use daphne_sc.Server.Afe.Align.{
  handle_align_afe, answer_align, alignment_vectors, alignment_message,
}
use daphne_sc.Server.Handlers.{handle_rpu_afe}
use daphne_sc.Server.Answers.{Answered, submit-Applied, exchange-Answered}

module _ (c : Codec) {T : Type 0} (rpu : RpuAfeTransport T) where
  handle_align_afe-Answered :
      (payload : List ℕ) (t : T) → Answered rpu c t (handle_align_afe c rpu payload t)
  unfolding handle_align_afe answer_align
  handle_align_afe-Answered payload t =
      let (t', outcome) = submit rpu AfeCommand.align t in
      let (t'', delay, bitslip) = alignment_vectors c rpu outcome t' in
      elim (Result-cases (c.decode_align_afes payload)) [
        | inr (e, q) ↦ record {
          response = Response.align_afes false [] [] (bad_payload "cmd_alignAFEs" e);
          encoded = rw (q, handle_align_afe);
          honest = λ h. absurd (grind (arith, h));
        }
        | inl (u, q) ↦ record {
          response = Response.align_afes outcome.success delay bitslip (alignment_message outcome);
          encoded = rw (q, handle_align_afe);
          honest = submit-Applied rpu AfeCommand.align t;
        }
      ]

  pub handle_rpu_afe-Answered :
      (message_type : MessageTypeV2)
      → route_message_type message_type ≡ CommandRoute.rpu_afe
      → (payload : List ℕ) (t : T) → Answered rpu c t (handle_rpu_afe c rpu message_type payload t)
  unfolding route_message_type handle_rpu_afe handle_configure_fe handle_do_afe_reset
      handle_read_afe_bias handle_read_afe_reg handle_read_afe_vgain handle_read_offset_all_afe
      handle_read_offset_all_channels handle_read_offset_channel handle_read_trim_all_afe
      handle_read_trim_all_channels handle_read_trim_channel handle_read_vbias_control
      handle_set_afe_power_state handle_set_afe_reset handle_write_afe_attenuation
      handle_write_afe_bias handle_write_afe_function handle_write_afe_reg handle_write_afe_vgain
      handle_write_offset_all_afe handle_write_offset_all_channels handle_write_offset_channel
      handle_write_trim_all_afe handle_write_trim_all_channels handle_write_trim_channel
      handle_write_vbias_control
  handle_rpu_afe-Answered MessageTypeV2.configure_fe_req h payload t =
      exchange-Answered rpu c _ _ _ _ _ (λ e. refl) (λ req e. refl) (λ req outcome. refl) payload t
  handle_rpu_afe-Answered MessageTypeV2.write_afe_reg_req h payload t =
      exchange-Answered rpu c _ _ _ _ _ (λ e. refl) (λ req e. refl) (λ req outcome. refl) payload t
  handle_rpu_afe-Answered MessageTypeV2.write_afe_vgain_req h payload t =
      exchange-Answered rpu c _ _ _ _ _ (λ e. refl) (λ req e. refl) (λ req outcome. refl) payload t
  handle_rpu_afe-Answered MessageTypeV2.write_afe_bias_set_req h payload t =
      exchange-Answered rpu c _ _ _ _ _ (λ e. refl) (λ req e. refl) (λ req outcome. refl) payload t
  handle_rpu_afe-Answered MessageTypeV2.write_trim_all_ch_req h payload t =
      exchange-Answered rpu c _ _ _ _ _ (λ e. refl) (λ req e. refl) (λ req outcome. refl) payload t
  handle_rpu_afe-Answered MessageTypeV2.write_trim_all_afe_req h payload t =
      exchange-Answered rpu c _ _ _ _ _ (λ e. refl) (λ req e. refl) (λ req outcome. refl) payload t
  handle_rpu_afe-Answered MessageTypeV2.write_trim_ch_req h payload t =
      exchange-Answered rpu c _ _ _ _ _ (λ e. refl) (λ req e. refl) (λ req outcome. refl) payload t
  handle_rpu_afe-Answered MessageTypeV2.write_offset_all_ch_req h payload t =
      exchange-Answered rpu c _ _ _ _ _ (λ e. refl) (λ req e. refl) (λ req outcome. refl) payload t
  handle_rpu_afe-Answered MessageTypeV2.write_offset_all_afe_req h payload t =
      exchange-Answered rpu c _ _ _ _ _ (λ e. refl) (λ req e. refl) (λ req outcome. refl) payload t
  handle_rpu_afe-Answered MessageTypeV2.write_offset_ch_req h payload t =
      exchange-Answered rpu c _ _ _ _ _ (λ e. refl) (λ req e. refl) (λ req outcome. refl) payload t
  handle_rpu_afe-Answered MessageTypeV2.write_vbias_control_req h payload t =
      exchange-Answered rpu c _ _ _ _ _ (λ e. refl) (λ req e. refl) (λ req outcome. refl) payload t
  handle_rpu_afe-Answered MessageTypeV2.read_afe_reg_req h payload t =
      exchange-Answered rpu c _ _ _ _ _ (λ e. refl) (λ req e. refl) (λ req outcome. refl) payload t
  handle_rpu_afe-Answered MessageTypeV2.read_afe_vgain_req h payload t =
      exchange-Answered rpu c _ _ _ _ _ (λ e. refl) (λ req e. refl) (λ req outcome. refl) payload t
  handle_rpu_afe-Answered MessageTypeV2.read_afe_bias_set_req h payload t =
      exchange-Answered rpu c _ _ _ _ _ (λ e. refl) (λ req e. refl) (λ req outcome. refl) payload t
  handle_rpu_afe-Answered MessageTypeV2.read_trim_all_ch_req h payload t =
      exchange-Answered rpu c _ _ _ _ _ (λ e. refl) (λ req e. refl) (λ req outcome. refl) payload t
  handle_rpu_afe-Answered MessageTypeV2.read_trim_all_afe_req h payload t =
      exchange-Answered rpu c _ _ _ _ _ (λ e. refl) (λ req e. refl) (λ req outcome. refl) payload t
  handle_rpu_afe-Answered MessageTypeV2.read_trim_ch_req h payload t =
      exchange-Answered rpu c _ _ _ _ _ (λ e. refl) (λ req e. refl) (λ req outcome. refl) payload t
  handle_rpu_afe-Answered MessageTypeV2.read_offset_all_ch_req h payload t =
      exchange-Answered rpu c _ _ _ _ _ (λ e. refl) (λ req e. refl) (λ req outcome. refl) payload t
  handle_rpu_afe-Answered MessageTypeV2.read_offset_all_afe_req h payload t =
      exchange-Answered rpu c _ _ _ _ _ (λ e. refl) (λ req e. refl) (λ req outcome. refl) payload t
  handle_rpu_afe-Answered MessageTypeV2.read_offset_ch_req h payload t =
      exchange-Answered rpu c _ _ _ _ _ (λ e. refl) (λ req e. refl) (λ req outcome. refl) payload t
  handle_rpu_afe-Answered MessageTypeV2.read_vbias_control_req h payload t =
      exchange-Answered rpu c _ _ _ _ _ (λ e. refl) (λ req e. refl) (λ req outcome. refl) payload t
  handle_rpu_afe-Answered MessageTypeV2.set_afe_reset_req h payload t =
      exchange-Answered rpu c _ _ _ _ _ (λ e. refl) (λ req e. refl) (λ req outcome. refl) payload t
  handle_rpu_afe-Answered MessageTypeV2.do_afe_reset_req h payload t =
      exchange-Answered rpu c _ _ _ _ _ (λ e. refl) (λ req e. refl) (λ req outcome. refl) payload t
  handle_rpu_afe-Answered MessageTypeV2.set_afe_power_state_req h payload t =
      exchange-Answered rpu c _ _ _ _ _ (λ e. refl) (λ req e. refl) (λ req outcome. refl) payload t
  handle_rpu_afe-Answered MessageTypeV2.write_afe_attenuation_req h payload t =
      exchange-Answered rpu c _ _ _ _ _ (λ e. refl) (λ req e. refl) (λ req outcome. refl) payload t
  handle_rpu_afe-Answered MessageTypeV2.align_afe_req h payload t =
      handle_align_afe-Answered payload t
  handle_rpu_afe-Answered MessageTypeV2.write_afe_function_req h payload t =
      exchange-Answered rpu c _ _ _ _ _ (λ e. refl) (λ req e. refl) (λ req outcome. refl) payload t
  handle_rpu_afe-Answered MessageTypeV2.configure_clks_req h payload t = absurd (ground (arith, h))
  handle_rpu_afe-Answered MessageTypeV2.read_current_monitor_req h payload t =
      absurd (ground (arith, h))
  handle_rpu_afe-Answered MessageTypeV2.read_bias_voltage_monitor_req h payload t =
      absurd (ground (arith, h))
  handle_rpu_afe-Answered MessageTypeV2.dump_spybuffer_req h payload t = absurd (ground (arith, h))
  handle_rpu_afe-Answered MessageTypeV2.do_software_trigger_req h payload t =
      absurd (ground (arith, h))
  handle_rpu_afe-Answered MessageTypeV2.dump_spybuffer_chunk_req h payload t =
      absurd (ground (arith, h))
  handle_rpu_afe-Answered MessageTypeV2.read_test_reg_req h payload t = absurd (ground (arith, h))
  handle_rpu_afe-Answered MessageTypeV2.read_trigger_counters_req h payload t =
      absurd (ground (arith, h))
  handle_rpu_afe-Answered MessageTypeV2.read_general_info_req h payload t =
      absurd (ground (arith, h))
  handle_rpu_afe-Answered MessageTypeV2.read_slow_control_status_req h payload t =
      absurd (ground (arith, h))
