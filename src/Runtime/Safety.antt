-- ===== src/Runtime/Safety.antt =====
-- What the RPU runtime does with a frame in every interlock state.
use daphne_sc.Prelude.{
  subst, sym, ap, ◌∙◌, ok-injective, ℕ, ◌+◌, ◌%◌, ◌^◌, ◌≡◌, ◌↔◌, refl, arith, List, true, false,
  none, some,
}
use daphne_sc.Prelude.{Option, inl, inr, Result, ok, err, Result-cases}
use daphne_sc.Wire.Ops.{RpuWireOp, RpuWireStatus}
use daphne_sc.Wire.Error.{RpuWireError}
use daphne_sc.Wire.Command.{RpuWireCommand, decode}
use daphne_sc.Wire.Reply
use daphne_sc.Wire.Reply.{RpuWireReply}
use daphne_sc.Runtime.Interlock.{ready_for_afe}
use daphne_sc.Runtime.Hardware.{AfeHardware, ApplyError, RpuRuntime}
use daphne_sc.Runtime.Handler.{M, dispatch, apply_command, handle_frame}
use daphne_sc.Runtime.Handler.{applied_reply, status_reply, interlocked_reply, error_reply}
use daphne_sc.Runtime.Steps.{
  OnArm, RpuWireOp-discrete, beat, frame_bad, frame_good, frame_none, frame_split,
}
use daphne_sc.Runtime.Steps.{command_status, command_blocked, command_none}

abbrev KeepsRest : {H A : Type 0} → RpuRuntime H → M H A → Type 0
KeepsRest rt run = ((run rt).0.heartbeat ≡ rt.heartbeat) × ((run rt).0.interlock ≡ rt.interlock)

-- What a reply says of the frame that it answers.
abbrev pub Answers : {H : Type 0} → RpuRuntime H → List ℕ → RpuRuntime H → List ℕ → Type 0
Answers rt input rt' output =
    (reply : RpuWireReply) × (output ≡ Reply.encode reply)
    × (reply.heartbeat ≡ (rt.heartbeat + 1) % 2 ^ 64)
    × (rt'.heartbeat ≡ (rt.heartbeat + 1) % 2 ^ 64)
    × (rt'.interlock ≡ rt.interlock)
    × ((c : RpuWireCommand) → decode input ≡ ok c → reply.sequence ≡ c.sequence)
    × ((e : RpuWireError)
        → decode input ≡ err e
        → (reply.sequence ≡ 0)
          × (reply.status ≡ RpuWireStatus.rejected)
          × (rt'.hardware ≡ rt.hardware)
          × (rt'.config_state ≡ rt.config_state))

module _ {H E : Type 0} (hardware : AfeHardware H E) where
  -- While the interlock is not ready, a frame changes nothing but the heartbeat, neither the hardware
  -- nor the configuration session, and only a status query can be answered as applied.
  pub interlock_blocks :
      (rt : RpuRuntime H) (input : List ℕ)
      → ready_for_afe rt.interlock ≡ false
      → (reply : RpuWireReply) × (handle_frame hardware rt input
          ≡ some (beat rt, Reply.encode reply))
        × (reply.status ≡ RpuWireStatus.applied
            → (c : RpuWireCommand) × (decode input ≡ ok c) × (c.op ≡ RpuWireOp.status))
  unfolding interlocked_reply error_reply
  interlock_blocks rt input h = elim (Result-cases (decode input)) [
    | inr (e, bad) ↦ (error_reply (beat rt) 0, frame_bad hardware rt input bad, λ a. cc)
    | inl (c, good) ↦ elim (RpuWireOp-discrete c.op RpuWireOp.status) [
      | yes p ↦ (
        status_reply (beat rt) c,
        frame_good hardware rt input good (command_status hardware (beat rt) c p),
        λ _. (c, good, p),
      )
      | no p ↦ (
        interlocked_reply (beat rt) c,
        frame_good hardware rt input good (command_blocked hardware (beat rt) c p h),
        λ a. cc,
      )
    ]
  ]

  dispatch_none :
      (op : RpuWireOp) (c : RpuWireCommand)
      → dispatch hardware op c ≡ none
      → op ≡ RpuWireOp.read_alignment
  unfolding dispatch
  dispatch_none RpuWireOp.read_alignment c h = refl
  dispatch_none _ c h = cc

  dispatch-keeps :
      (op : RpuWireOp) (c : RpuWireCommand) (rt : RpuRuntime H)
      → OnArm (KeepsRest rt) (dispatch hardware op c)
  unfolding dispatch
  dispatch-keeps RpuWireOp.read_alignment c rt = tt
  dispatch-keeps _ c rt = ground arith

  run-keeps :
      (c : RpuWireCommand) (rt : RpuRuntime H) {run : M H (Option ℕ)}
      → apply_command hardware c ≡ some run
      → KeepsRest rt run
  unfolding apply_command
  run-keeps c rt arm = subst (OnArm (KeepsRest rt)) arm (dispatch-keeps c.op c rt)

  alignment_gap :
      (c : RpuWireCommand) → c.op ≡ RpuWireOp.read_alignment → apply_command hardware c ≡ none
  unfolding apply_command dispatch
  alignment_gap c h = rw h

  -- A frame is left without a reply exactly when the runtime is ready and the frame decodes to a
  -- `ReadAlignment` command, for which the match has no arm.
  pub unanswered_iff :
      (rt : RpuRuntime H) (input : List ℕ)
      → (handle_frame hardware rt input ≡ none) ↔ (
          (ready_for_afe rt.interlock ≡ true)
          × ((c : RpuWireCommand) × (decode input ≡ ok c) × (c.op ≡ RpuWireOp.read_alignment)))
  unfolding apply_command
  unanswered_iff rt input = (
    frame_split hardware rt input
        (λ o.
          o ≡ none
          → (ready_for_afe rt.interlock ≡ true)
            × ((c : RpuWireCommand) × (decode input ≡ ok c) × (c.op ≡ RpuWireOp.read_alignment)))
        (λ e q h. cc) (λ c q p h. cc) (λ c q p off h. cc) (λ c run q p on arm h. cc)
        (λ c q p on gap h. (on, (c, q, dispatch_none c.op c gap))),
    λ (on, (c, q, r)).
        frame_none hardware rt input q
          (command_none hardware (beat rt) c (λ e. cc) on (alignment_gap c r)),
  )

  applied_reply-sequence :
      (c : RpuWireCommand) (rt : RpuRuntime H) (r : Result ApplyError (Option ℕ))
      → ((applied_reply c rt r).sequence ≡ c.sequence)
        × ((applied_reply c rt r).heartbeat ≡ rt.heartbeat)
  unfolding applied_reply
  applied_reply-sequence c rt (ok v) = (refl, refl)
  applied_reply-sequence c rt (err ApplyError.rejected) = (refl, refl)
  applied_reply-sequence c rt (err ApplyError.hardware_fault) = (refl, refl)

  abbrev Answered : RpuRuntime H → List ℕ → Option (RpuRuntime H × List ℕ) → Type 0
  Answered rt input none = Unit
  Answered rt input (some (rt', output)) = Answers rt input rt' output

  answered :
      (rt : RpuRuntime H) (input : List ℕ) → Answered rt input (handle_frame hardware rt input)
  unfolding error_reply status_reply interlocked_reply
  answered rt input =
      frame_split hardware rt input (Answered rt input)
        (λ e q. (_, refl, refl, refl, refl, λ c g. cc, λ e' _. (refl, refl, refl, refl)))
        (λ c q p. (_, refl, refl, refl, refl, λ c' g. same c c' q g, λ e bad. cc))
        (λ c q p off. (_, refl, refl, refl, refl, λ c' g. same c c' q g, λ e bad. cc))
        (λ c run q p on arm.
          let (kept_beat, kept_lock) = run-keeps c (beat rt) arm in
          let (r', r) = run (beat rt) in
          let (seq, hb) = applied_reply-sequence c r' r in
          (_, refl, hb ∙ kept_beat, kept_beat, kept_lock, λ c' g. seq ∙ same c c' q g, λ e bad. cc))
        (λ c q p on gap. tt)
    where
      same :
          (c c' : RpuWireCommand)
          → decode input ≡ ok c
          → decode input ≡ ok c'
          → c.sequence ≡ c'.sequence
      same c c' q g = ap (λ (d : RpuWireCommand). d.sequence) (ok-injective (sym q ∙ g))

  pub reply_lem :
      (rt : RpuRuntime H) (input : List ℕ) (rt' : RpuRuntime H) (output : List ℕ)
      → handle_frame hardware rt input ≡ some (rt', output)
      → Answers rt input rt' output
  reply_lem rt input rt' output h = subst (Answered rt input) h (answered rt input)
