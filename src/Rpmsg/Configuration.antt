-- ===== src/Rpmsg/Configuration.antt =====
-- A configuration from `submit_afe_command` of crates/daphne-sc-server/src/rpmsg.rs to the hardware of the
-- runtime, crates/daphne-sc-rpu/src/lib.rs.
use daphne_sc.Rpmsg.Device.{RpmsgAfeTransport, lift}
use daphne_sc.Rpmsg.Transact.{
  final_answer, submit_frames, submit_numbered, submit_counted, submit_valid, transact,
  transact_all, frame_error, reserve, afe_command_reply, reply_verdict, submit_afe_command,
}
use daphne_sc.Rpmsg.OverRuntime.{
  RuntimeFile, runtime_file, after_reply, >>-ok, >>=-ok, transact_lem, same_sequence,
}
use daphne_sc.Rpmsg.{reserve_sequences, wrap_sequence, u64_max}
use daphne_sc.Rpmsg.Texts.{wire_error_text}
use daphne_sc.Prelude.{
  ℕ, suc, ◌+◌, ◌≤◌, ◌<◌, ◌^◌, ◌≡◌, refl, sym, ap, ◌∙◌, subst, arith, List, [], ◌∷◌, length, map,
  All, true,
}
use daphne_sc.Prelude.{Option, none, some, Result, ok, map_err, le→ltb_false}
use daphne_sc.Afe.{AfeCommand, AfeFrontendConfig, ChannelFrontendConfig, validate}
use daphne_sc.Afe.InRange.{InRange}
use daphne_sc.Wire.Ops.{RpuWireStatus}
use daphne_sc.Wire.Error.{u16_max, ensure_record_count}
use daphne_sc.Wire.Command.{RpuWireCommand, IsCommand, encode}
use daphne_sc.Wire.FromAfe.{frame_count_for_afe_command, from_afe_command_sequence}
use daphne_sc.Wire.FromAfe.Frames.{length-session_frames, configure_frontend_sequence-eq-ok}
use daphne_sc.Wire.FromAfe.Valid.{frames-IsCommand}
use daphne_sc.Wire.Reply.{RpuWireReply}
use daphne_sc.Text.{validation_error_text}
use daphne_sc.Rpu.{AfeCommandReply, RpuError}
use daphne_sc.Runtime.Interlock.{ready_for_afe}
use daphne_sc.Runtime.Hardware.{AfeHardware, RpuRuntime}
use daphne_sc.Runtime.Session.{run_frames, run_frames-cons, run_frames-nil, IsApplied, Accepting}
use daphne_sc.Runtime.Session.Whole.{Configured, configure_frontend_runs}

-- There is a last reply, and it reports its frame as applied.
abbrev Done : Option RpuWireReply → Type 0
Done none = ⊥
Done (some reply) = reply.status ≡ RpuWireStatus.applied

configure-counted :
    (afes : List AfeFrontendConfig) (channels : List ChannelFrontendConfig) (bias : ℕ)
    → length afes ≤ u16_max
    → length channels ≤ u16_max
    → frame_count_for_afe_command (AfeCommand.configure_frontend afes channels bias)
      ≡ ok (2 + length afes + length channels)
unfolding frame_count_for_afe_command ensure_record_count
configure-counted afes channels bias ha hc = rw (le→ltb_false _ _ ha, le→ltb_false _ _ hc)

configure-nonempty :
    (first : ℕ) (afes : List AfeFrontendConfig) (channels : List ChannelFrontendConfig) (bias : ℕ)
    (frames : List RpuWireCommand)
    → from_afe_command_sequence first (AfeCommand.configure_frontend afes channels bias) ≡ ok frames
    → length frames ≡ 0
    → ⊥
unfolding from_afe_command_sequence
configure-nonempty first afes channels bias frames made empty =
    let same =
      ap (λ (l : List RpuWireCommand). length l)
        (configure_frontend_sequence-eq-ok first afes channels bias frames made) in
    omega (arith, same, empty, length-session_frames first afes channels bias)

module _ {H E : Type 0} (hw : AfeHardware H E) where
  -- All frames are exchanged; the last reply is of the last frame.
  transact_all-Done :
      (number count : ℕ) (frames : List RpuWireCommand) (outputs : List (List ℕ))
      (final : Option RpuWireReply) (t : RpmsgAfeTransport (RuntimeFile H)) (last : RpuRuntime H)
      → t.file.pending ≡ []
      → All IsCommand frames
      → run_frames hw t.file.runtime (map encode frames) ≡ some (last, outputs)
      → All IsApplied outputs
      → (length frames ≡ 0 → Done final)
      → (t' : RpmsgAfeTransport (RuntimeFile H)) × (final' : Option RpuWireReply) × (transact_all
            (runtime_file hw)
            number
            count
            frames
            final
            t
          ≡ (t', ok final'))
        × (t'.file.runtime ≡ last)
        × Done final'
  unfolding transact_all
  transact_all-Done number count [] outputs final t last unread w ran applied done =
      (t, final, refl, run_frames-nil hw t.file.runtime last outputs ran, done refl)
  transact_all-Done number count (frame ∷ frames) outputs final t last unread (w, ws) ran applied
        done =
      let (rt', output, rest, e, es, eo) =
        run_frames-cons hw t.file.runtime last (encode frame) (map encode frames) outputs ran in
      let ((reply, written, status, fits), more) = subst (All IsApplied) eo applied in
      let answer = e ∙ ap (λ (o : List ℕ). some (rt', o)) written in
      let same = same_sequence hw t.file.runtime rt' frame reply w answer fits in
      let exchanged = transact_lem hw t frame rt' reply unread answer fits same in
      let (t', final', e', at, d) =
        transact_all-Done (suc number) count frames rest (some reply) (after_reply hw t rt' reply)
          last refl ws es more (λ _. status) in
      (
        t',
        final',
        >>=-ok t
              (λ s.
                let (s', r) = transact (runtime_file hw) frame s in
                (s', map_err (frame_error number count frame) r))
              (λ reply. transact_all (runtime_file hw) (suc number) count frames (some reply))
              (ap
                (λ (p : RpmsgAfeTransport (RuntimeFile H) × Result RpuError RpuWireReply).
                  (p.0, map_err (frame_error number count frame) p.1))
                exchanged)
            ∙ e',
        at,
        d,
      )

  Done-applied :
      (final : Option RpuWireReply)
      → Done final
      → (reply : AfeCommandReply) × (final_answer final ≡ ok reply)
        × (reply.accepted ≡ true)
        × (reply.applied ≡ true)
  unfolding final_answer afe_command_reply reply_verdict
  Done-applied none done = absurd done
  Done-applied (some reply) done = (_, refl, rw done, rw done)

  reserved-lt :
      (next count : ℕ) → 1 ≤ count → count < u64_max → (reserve_sequences next count).1 < 2 ^ 64
  unfolding reserve_sequences wrap_sequence
  reserved-lt next count h k = ground arith

  -- A configuration that is valid, in range and of at most 65535 records of each kind, submitted over a file
  -- in which no reply is unread, with the runtime at its other end, whose interlock is ready and whose
  -- hardware accepts every configuration call, is reported as accepted and applied, whatever the next
  -- sequence number of the transport and the runtime's session; the hardware has seen the begin call, the
  -- call for each AFE and channel in order, and the apply call.
  pub configuration_applied :
      (accepts : Accepting hw) (t : RpmsgAfeTransport (RuntimeFile H))
      (afes : List AfeFrontendConfig) (channels : List ChannelFrontendConfig) (bias : ℕ)
      → t.file.pending ≡ []
      → ready_for_afe t.file.runtime.interlock ≡ true
      → InRange (AfeCommand.configure_frontend afes channels bias)
      → validate (AfeCommand.configure_frontend afes channels bias) ≡ ok tt
      → length afes ≤ u16_max
      → length channels ≤ u16_max
      → (t' : RpmsgAfeTransport (RuntimeFile H)) × (reply : AfeCommandReply) × (submit_afe_command
            (runtime_file hw)
            (AfeCommand.configure_frontend afes channels bias)
            t
          ≡ (t', ok reply))
        × (reply.accepted ≡ true)
        × (reply.applied ≡ true)
        × Configured hw accepts t.file.runtime afes channels bias t'.file.runtime
  unfolding submit_afe_command submit_valid submit_counted submit_numbered submit_frames reserve
  configuration_applied accepts t afes channels bias unread ready ranges valid ha hc =
      let (frames, made, (last, outputs, ran, applied, configured)) =
        configure_frontend_runs hw accepts t.file.runtime first afes channels bias ready ranges ha
          hc in
      let (t', final, e, at, done) =
        transact_all-Done 1 count frames outputs none numbered last unread
          (frames-IsCommand first command frames
            (reserved-lt t.next_sequence count (omega arith) (omega arith)) ranges made)
          ran applied
          (λ empty. absurd (configure-nonempty first afes channels bias frames made empty)) in
      let (reply, answer, accepted, was_applied) = Done-applied final done in
      (
        t',
        reply,
        >>-ok t
              (lift (map_err (λ e. RpuError.rejected (validation_error_text e)) (validate command)))
              (submit_valid (runtime_file hw) command) (rw valid)
            ∙ >>=-ok t
                (lift (
                  map_err (λ e. RpuError.rejected (wire_error_text e))
                    (frame_count_for_afe_command command)))
                (submit_counted (runtime_file hw) command) (rw counted)
            ∙ >>=-ok t (reserve (runtime_file hw) count)
                (submit_numbered (runtime_file hw) command count) refl
            ∙ >>=-ok numbered
                (lift (
                  map_err (λ e. RpuError.rejected (wire_error_text e))
                    (from_afe_command_sequence first command)))
                (submit_frames (runtime_file hw) count) (rw made)
            ∙ >>=-ok numbered (transact_all (runtime_file hw) 1 count frames none)
                (λ final_reply. lift (final_answer final_reply)) e
            ∙ ap (λ (r : Result RpuError AfeCommandReply). (t', r)) answer,
        accepted,
        was_applied,
        subst (Configured hw accepts t.file.runtime afes channels bias) (sym at) configured,
      )
    where
      command : AfeCommand
      command = AfeCommand.configure_frontend afes channels bias

      count : ℕ
      count = 2 + length afes + length channels

      first : ℕ
      first = (reserve_sequences t.next_sequence count).1

      numbered : RpmsgAfeTransport (RuntimeFile H)
      numbered = record t { next_sequence = (reserve_sequences t.next_sequence count).0 }

      counted : frame_count_for_afe_command command ≡ ok count
      counted = configure-counted afes channels bias ha hc
