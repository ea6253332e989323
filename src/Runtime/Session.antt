-- ===== src/Runtime/Session.antt =====
-- Frames handled one after the other, and hardware that accepts every configuration call.
pub mod Arms
pub mod Whole
use daphne_sc.Prelude.{
  ℕ, zero, suc, ◌+◌, ◌%◌, ◌^◌, ◌≤◌, ◌<◌, ◌≡◌, ◌≢◌, refl, sym, ap, ◌∙◌, subst, arith,
}
use native.Mathlib.Nat.{mod-eq_of_lt}
use daphne_sc.Prelude.{
  map-append, List, [], ◌∷◌, ◌++◌, length, map, All, true, Option, none, some, Option-cases, inl,
  inr, ok, Result,
}
use daphne_sc.Afe.{AfeFrontendConfig, ChannelFrontendConfig, AfeCommand}
use daphne_sc.Afe.InRange.{IsAfeConfig, IsChannelConfig, InRange, IsU16}
use daphne_sc.Wire.Ops.{RpuWireOp, RpuWireStatus}
use daphne_sc.Wire.Error.{u16_max}
use daphne_sc.Wire.Command.{RpuWireCommand, IsCommand, encode}
use daphne_sc.Wire.Payload.{RpuWireConfigCounts, RpuWireAfeConfig, RpuWireChannelConfig}
use daphne_sc.Wire.Payload.{configure_counts, afe_config, channel_config}
use daphne_sc.Wire.FromAfe.{
  from_afe_command_sequence, begin_frame, afe_frame, channel_frame, apply_frame, sequence_for_frame,
}
use daphne_sc.Wire.FromAfe.Frames.{
  afe_frames, channel_frames, session_frames, configure_frontend_sequence_lem,
}
use daphne_sc.Wire.FromAfe.Records.{counts_view, afe_view, channel_view}
use daphne_sc.Wire.FromAfe.Records.{
  configure_counts-begin_frame, afe_config-afe_frame, channel_config-channel_frame,
}
use daphne_sc.Wire.FromAfe.Valid.{
  begin_frame-IsCommand, afe_frame-IsCommand, channel_frame-IsCommand, apply_frame-IsCommand,
  sequence_for_frame-lt,
}
use daphne_sc.Wire.Reply
use daphne_sc.Wire.Reply.{RpuWireReply, IsReply, unwrap_or_zero}
use daphne_sc.Wire.RoundTrip.{decode-encode}
use daphne_sc.Runtime.Interlock.{ready_for_afe}
use daphne_sc.Runtime.Hardware.{AfeHardware, ConfigState, ApplyError, RpuRuntime, idle, begin}
use daphne_sc.Runtime.Hardware.{require_afe_slot, require_channel_slot, require_complete}
use daphne_sc.Runtime.Handler.{M, dispatch, apply_command, applied_reply, handle_frame}
use daphne_sc.Runtime.Safety.{reply_lem}
use daphne_sc.Runtime.Steps.{OnArm, beat, frame_good, command_run}

some-injective : {A : Type 0} {a b : A} → ◌≡◌ {A = Option A} (some a) (some b) → a ≡ b
some-injective h = cc

-- Frames handled one after the other, as a client sends them.
pub run_frames :
    {H E : Type 0}
    → AfeHardware H E
    → RpuRuntime H
    → List (List ℕ)
    → Option (RpuRuntime H × List (List ℕ))
run_frames hw rt [] = some (rt, [])
run_frames hw rt (input ∷ inputs) = elim (handle_frame hw rt input) [
  | none ↦ none
  | some (rt', output) ↦ elim (run_frames hw rt' inputs) [
    | none ↦ none
    | some (last, outputs) ↦ some (last, output ∷ outputs)
  ]
]

-- A reply that fits its fields and reports the command as applied.
abbrev pub IsApplied : List ℕ → Type 0
IsApplied output =
    (reply : RpuWireReply) × (output ≡ Reply.encode reply)
    × (reply.status ≡ RpuWireStatus.applied)
    × IsReply reply

-- All of the frames are answered as applied, and `P` holds of the runtime that is left.
abbrev pub Succeeds :
    {H E : Type 0}
    → AfeHardware H E
    → RpuRuntime H
    → List (List ℕ)
    → (RpuRuntime H → Type 0)
    → Type 0
Succeeds {H} hw rt inputs P =
    (rt' : RpuRuntime H) × (outputs : List (List ℕ)) × (run_frames hw rt inputs
      ≡ some (rt', outputs))
    × All IsApplied outputs
    × P rt'

module _ {H E : Type 0} (hw : AfeHardware H E) where
  -- One frame whose arm succeeds.
  pub frame-IsApplied :
      (rt rt' : RpuRuntime H) (c : RpuWireCommand) (v : Option ℕ) {run : M H (Option ℕ)}
      → IsCommand c
      → c.op ≢ RpuWireOp.status
      → ready_for_afe rt.interlock ≡ true
      → dispatch hw c.op c ≡ some run
      → run (beat rt) ≡ (rt', ok v)
      → unwrap_or_zero v < 2 ^ 32
      → (output : List ℕ) × (handle_frame hw rt (encode c) ≡ some (rt', output)) × IsApplied output
  unfolding apply_command applied_reply
  frame-IsApplied rt rt' c v {run} w op ready arm done small =
      let made = command_run hw (beat rt) c op ready arm in
      let answer =
        frame_good hw rt (encode c) (decode-encode c w) made
        ∙ ap
            (λ (p : RpuRuntime H × Result ApplyError (Option ℕ)).
              some (p.0, Reply.encode (applied_reply c p.0 p.1)))
            done in
      let (reply, e, hb, kept, lock, good, bad) = reply_lem hw rt (encode c) rt' _ answer in
      (
        Reply.encode (applied_reply c rt' (ok v)),
        answer,
        (
          applied_reply c rt' (ok v),
          refl,
          refl,
          record {
            sequence_lt = w.sequence_lt;
            readback_lt = small;
            heartbeat_lt = omega (arith, kept);
            fault_code_lt = omega arith;
            interlock_code_lt = omega arith;
          },
        ),
      )

  pub run_frames-cons :
      (rt last : RpuRuntime H) (input : List ℕ) (inputs outputs : List (List ℕ))
      → run_frames hw rt (input ∷ inputs) ≡ some (last, outputs)
      → (rt' : RpuRuntime H) × (output : List ℕ) × (rest : List (List ℕ)) × (handle_frame hw rt
            input
          ≡ some (rt', output))
        × (run_frames hw rt' inputs ≡ some (last, rest))
        × (outputs ≡ output ∷ rest)
  unfolding run_frames
  run_frames-cons rt last input inputs outputs h = elim (Option-cases (handle_frame hw rt input)) [
    | inl q ↦ absurd (grind (arith, rw (q, run_frames) at h))
    | inr ((rt', output), q) ↦ elim (Option-cases (run_frames hw rt' inputs)) [
      | inl r ↦ absurd (grind (arith, rw (q, r, run_frames) at h))
      | inr ((last', rest), r) ↦
          let e = some-injective (rw (q, r, run_frames) at h) in
          (
            rt',
            output,
            rest,
            q,
            r ∙ ap (λ (p : RpuRuntime H × List (List ℕ)). some (p.0, rest)) e,
            ap (λ (p : RpuRuntime H × List (List ℕ)). p.1) (sym e),
          )
    ]
  ]

  pub run_frames-nil :
      (rt last : RpuRuntime H) (outputs : List (List ℕ))
      → run_frames hw rt [] ≡ some (last, outputs)
      → rt ≡ last
  unfolding run_frames
  run_frames-nil rt last outputs h =
      ap (λ (p : RpuRuntime H × List (List ℕ)). p.0) (some-injective h)

  pub then_frames :
      (rt rt' : RpuRuntime H) (input : List ℕ) (inputs : List (List ℕ)) (P : RpuRuntime H → Type 0)
      → (output : List ℕ) × (handle_frame hw rt input ≡ some (rt', output)) × IsApplied output
      → Succeeds hw rt' inputs P
      → Succeeds hw rt (input ∷ inputs) P
  unfolding run_frames
  then_frames rt rt' input inputs P (output, e, a) (last, outputs, es, as', p) =
      (last, output ∷ outputs, rw (e, es, run_frames), (a, as'), p)

-- Hardware whose configuration calls succeed in every state.
pub record Accepting {H E : Type 0} (hw : AfeHardware H E) : Type 0 where
  pub begin_ok :
      (h : H) (counts : RpuWireConfigCounts) → (hw.begin_configure_frontend h counts).1 ≡ ok tt
  pub afe_ok : (h : H) (config : RpuWireAfeConfig) → (hw.configure_afe h config).1 ≡ ok tt
  pub channel_ok :
      (h : H) (config : RpuWireChannelConfig) → (hw.configure_channel h config).1 ≡ ok tt
  pub apply_ok : (h : H) → (hw.apply_configure_frontend h).1 ≡ ok tt

-- The calls for each record, in order.
abbrev pub stage_afes : {H E : Type 0} → AfeHardware H E → H → List AfeFrontendConfig → H
stage_afes hw h [] = h
stage_afes hw h (config ∷ afes) = stage_afes hw (hw.configure_afe h (afe_view config)).0 afes

abbrev pub stage_channels : {H E : Type 0} → AfeHardware H E → H → List ChannelFrontendConfig → H
stage_channels hw h [] = h
stage_channels hw h (config ∷ channels) =
    stage_channels hw (hw.configure_channel h (channel_view config)).0 channels
