-- ===== src/Server/Checked/Afe.antt =====
-- The commands that the handlers for AFE messages submit, crates/daphne-sc-server/src/handlers.rs.
use daphne_sc.Server.Checked.{
  logged, Checked, map_ok-OkIs, one_channel, one_afe, submit-Checked, exchange-Checked,
}
use daphne_sc.Prelude.{ℕ, zero, suc, List, All, ◌≡◌, ok, Result-cases, inl, inr, Bool-cases}
use daphne_sc.Bytes.{IsByte}
use daphne_sc.Afe.{AfeCommand, from_board}
use daphne_sc.Rpu.{RpuAfeTransport}
use daphne_sc.Transport.{MessageTypeV2}
use daphne_sc.Server.Messages.{Codec, CmdWriteAfeFunction}
use daphne_sc.Server.Submit.{submit}
use daphne_sc.Server.Commands.Ranges.{
  ok-OkIs, from_board-OkIs, afe_id-OkIs, channel_id-OkIs, make_read_register-OkIs,
  make_write_register-OkIs, make_set_attenuation-OkIs, make_set_bias-OkIs, make_set_trim-OkIs,
  make_set_offset-OkIs, make_set_vbias_control-OkIs, make_write_function-OkIs,
  configure_command-OkIs,
}
use daphne_sc.Server.Afe.{
  handle_configure_fe, handle_do_afe_reset, handle_read_afe_bias, handle_read_afe_reg,
  handle_read_afe_vgain, handle_read_offset_all_afe, handle_read_offset_all_channels,
  handle_read_offset_channel, handle_read_trim_all_afe, handle_read_trim_all_channels,
  handle_read_trim_channel, handle_read_vbias_control, handle_set_afe_power_state,
  handle_set_afe_reset, handle_write_afe_attenuation, handle_write_afe_bias,
  handle_write_afe_function, handle_write_afe_reg, handle_write_afe_vgain,
  handle_write_offset_all_afe, handle_write_offset_all_channels, handle_write_offset_channel,
  handle_write_trim_all_afe, handle_write_trim_all_channels, handle_write_trim_channel,
  handle_write_vbias_control,
}
use daphne_sc.Server.Afe.Align.{
  handle_align_afe, answer_align, alignment_vectors, read_alignment_vectors, read_alignments,
  read_alignment_of,
}
use daphne_sc.Server.Handlers.{handle_rpu_afe}

module _ (c : Codec) {T : Type 0} (rpu : RpuAfeTransport T)
    (names : (payload : List ℕ) (req : CmdWriteAfeFunction)
      → c.decode_write_afe_function payload ≡ ok req
      → All IsByte req.function) where
  read_alignments-Checked :
      (n board : ℕ) (s : (T × List AfeCommand) × List ℕ × List ℕ)
      → All Checked s.0.1
      → All Checked (read_alignments c (logged rpu) n board s).0.1
  unfolding read_alignments read_alignment_of
  read_alignments-Checked zero board s h = h
  read_alignments-Checked (suc n) board (s, delay, bitslip) h =
      read_alignments-Checked n (suc board)
        (read_alignment_of c (logged rpu) board (s, delay, bitslip))
        (elim (Result-cases (from_board board)) [
          | inr (e, q) ↦ rw (q, read_alignment_of) h
          | inl (afe, q) ↦
              rw (q, read_alignment_of)
                (submit-Checked c rpu (AfeCommand.read_alignment afe) s
                  ((from_board-OkIs board).apply afe q) h)
        ])

  handle_align_afe-Checked :
      (payload : List ℕ) (s : T × List AfeCommand)
      → All Checked s.1
      → All Checked (handle_align_afe c (logged rpu) payload s).0.1
  unfolding handle_align_afe answer_align alignment_vectors read_alignment_vectors
  handle_align_afe-Checked payload s h =
      let aligned = submit-Checked c rpu AfeCommand.align s tt h in
      let outcome = (submit (logged rpu) AfeCommand.align s).1 in
      elim (Result-cases (c.decode_align_afes payload)) [
        | inr (e, q) ↦ rw (q, handle_align_afe) h
        | inl (u, q) ↦ elim (Bool-cases outcome.transport_error) [
          | inl failed ↦ rw (q, handle_align_afe, failed, alignment_vectors) aligned
          | inr replied ↦
              rw (q, handle_align_afe, replied, alignment_vectors)
                (read_alignments-Checked 5 0 _ aligned)
        ]
      ]

  pub handle_rpu_afe-Checked :
      (message_type : MessageTypeV2) (payload : List ℕ) (s : T × List AfeCommand)
      → All Checked s.1
      → All Checked (handle_rpu_afe c (logged rpu) message_type payload s).0.1
  unfolding handle_rpu_afe handle_configure_fe handle_do_afe_reset handle_read_afe_bias
      handle_read_afe_reg handle_read_afe_vgain handle_read_offset_all_afe
      handle_read_offset_all_channels handle_read_offset_channel handle_read_trim_all_afe
      handle_read_trim_all_channels handle_read_trim_channel handle_read_vbias_control
      handle_set_afe_power_state handle_set_afe_reset handle_write_afe_attenuation
      handle_write_afe_bias handle_write_afe_function handle_write_afe_reg handle_write_afe_vgain
      handle_write_offset_all_afe handle_write_offset_all_channels handle_write_offset_channel
      handle_write_trim_all_afe handle_write_trim_all_channels handle_write_trim_channel
      handle_write_vbias_control
  handle_rpu_afe-Checked MessageTypeV2.configure_fe_req payload s h =
      exchange-Checked c rpu _ _ _ _ _ payload (λ req decoded. configure_command-OkIs req) s h
  handle_rpu_afe-Checked MessageTypeV2.write_afe_reg_req payload s h =
      exchange-Checked c rpu _ _ _ _ _ payload (λ req decoded. make_write_register-OkIs _ _ _) s h
  handle_rpu_afe-Checked MessageTypeV2.write_afe_vgain_req payload s h =
      exchange-Checked c rpu _ _ _ _ _ payload (λ req decoded. make_set_attenuation-OkIs _ _) s h
  handle_rpu_afe-Checked MessageTypeV2.write_afe_bias_set_req payload s h =
      exchange-Checked c rpu _ _ _ _ _ payload (λ req decoded. make_set_bias-OkIs _ _) s h
  handle_rpu_afe-Checked MessageTypeV2.write_trim_all_ch_req payload s h =
      exchange-Checked c rpu _ _ _ _ _ payload (λ req decoded. make_set_trim-OkIs _ _ _ tt) s h
  handle_rpu_afe-Checked MessageTypeV2.write_trim_all_afe_req payload s h =
      exchange-Checked c rpu _ _ _ _ _ payload
        (λ req decoded. one_afe _ _ (λ target h. make_set_trim-OkIs target _ _ h)) s h
  handle_rpu_afe-Checked MessageTypeV2.write_trim_ch_req payload s h =
      exchange-Checked c rpu _ _ _ _ _ payload
        (λ req decoded. one_channel _ _ (λ target h. make_set_trim-OkIs target _ _ h)) s h
  handle_rpu_afe-Checked MessageTypeV2.write_offset_all_ch_req payload s h =
      exchange-Checked c rpu _ _ _ _ _ payload (λ req decoded. make_set_offset-OkIs _ _ _ tt) s h
  handle_rpu_afe-Checked MessageTypeV2.write_offset_all_afe_req payload s h =
      exchange-Checked c rpu _ _ _ _ _ payload
        (λ req decoded. one_afe _ _ (λ target h. make_set_offset-OkIs target _ _ h)) s h
  handle_rpu_afe-Checked MessageTypeV2.write_offset_ch_req payload s h =
      exchange-Checked c rpu _ _ _ _ _ payload
        (λ req decoded. one_channel _ _ (λ target h. make_set_offset-OkIs target _ _ h)) s h
  handle_rpu_afe-Checked MessageTypeV2.write_vbias_control_req payload s h =
      exchange-Checked c rpu _ _ _ _ _ payload (λ req decoded. make_set_vbias_control-OkIs _ _) s h
  handle_rpu_afe-Checked MessageTypeV2.read_afe_reg_req payload s h =
      exchange-Checked c rpu _ _ _ _ _ payload (λ req decoded. make_read_register-OkIs _ _) s h
  handle_rpu_afe-Checked MessageTypeV2.read_afe_vgain_req payload s h =
      exchange-Checked c rpu _ _ _ _ _ payload
        (λ req decoded. map_ok-OkIs _ _ (afe_id-OkIs _) λ a h. h) s h
  handle_rpu_afe-Checked MessageTypeV2.read_afe_bias_set_req payload s h =
      exchange-Checked c rpu _ _ _ _ _ payload
        (λ req decoded. map_ok-OkIs _ _ (afe_id-OkIs _) λ a h. h) s h
  handle_rpu_afe-Checked MessageTypeV2.read_trim_all_ch_req payload s h =
      exchange-Checked c rpu _ _ _ _ _ payload (λ req decoded. ok-OkIs tt) s h
  handle_rpu_afe-Checked MessageTypeV2.read_trim_all_afe_req payload s h =
      exchange-Checked c rpu _ _ _ _ _ payload
        (λ req decoded. map_ok-OkIs _ _ (afe_id-OkIs _) λ a h. h) s h
  handle_rpu_afe-Checked MessageTypeV2.read_trim_ch_req payload s h =
      exchange-Checked c rpu _ _ _ _ _ payload
        (λ req decoded. map_ok-OkIs _ _ (channel_id-OkIs _) λ a h. h) s h
  handle_rpu_afe-Checked MessageTypeV2.read_offset_all_ch_req payload s h =
      exchange-Checked c rpu _ _ _ _ _ payload (λ req decoded. ok-OkIs tt) s h
  handle_rpu_afe-Checked MessageTypeV2.read_offset_all_afe_req payload s h =
      exchange-Checked c rpu _ _ _ _ _ payload
        (λ req decoded. map_ok-OkIs _ _ (afe_id-OkIs _) λ a h. h) s h
  handle_rpu_afe-Checked MessageTypeV2.read_offset_ch_req payload s h =
      exchange-Checked c rpu _ _ _ _ _ payload
        (λ req decoded. map_ok-OkIs _ _ (channel_id-OkIs _) λ a h. h) s h
  handle_rpu_afe-Checked MessageTypeV2.read_vbias_control_req payload s h =
      exchange-Checked c rpu _ _ _ _ _ payload (λ req decoded. ok-OkIs tt) s h
  handle_rpu_afe-Checked MessageTypeV2.set_afe_reset_req payload s h =
      exchange-Checked c rpu _ _ _ _ _ payload (λ req decoded. ok-OkIs tt) s h
  handle_rpu_afe-Checked MessageTypeV2.do_afe_reset_req payload s h =
      exchange-Checked c rpu _ _ _ _ _ payload (λ req decoded. ok-OkIs tt) s h
  handle_rpu_afe-Checked MessageTypeV2.set_afe_power_state_req payload s h =
      exchange-Checked c rpu _ _ _ _ _ payload (λ req decoded. ok-OkIs tt) s h
  handle_rpu_afe-Checked MessageTypeV2.write_afe_attenuation_req payload s h =
      exchange-Checked c rpu _ _ _ _ _ payload (λ req decoded. make_set_attenuation-OkIs _ _) s h
  handle_rpu_afe-Checked MessageTypeV2.align_afe_req payload s h =
      handle_align_afe-Checked payload s h
  handle_rpu_afe-Checked MessageTypeV2.write_afe_function_req payload s h =
      exchange-Checked c rpu _ _ _ _ _ payload
        (λ req decoded. make_write_function-OkIs _ _ _ (names payload req decoded)) s h
  handle_rpu_afe-Checked _ payload s h = h
