-- ===== src/Runtime/Steps.antt =====
-- The branches of `handle_frame` and `handle_command`, each under its condition.
use daphne_sc.Prelude.{ℕ, ◌+◌, ◌%◌, ◌^◌, ◌≡◌, ◌≢◌, refl, List, true, false, none, some}
use daphne_sc.Prelude.{Option, ok, err, Result-cases, Option-cases, Bool-cases, inl, inr}
use daphne_sc.Wire.Ops.{RpuWireOp, op_eq}
use daphne_sc.Wire.Error.{RpuWireError}
use daphne_sc.Wire.Command.{RpuWireCommand, decode}
use daphne_sc.Wire.Reply
use daphne_sc.Wire.Reply.{RpuWireReply}
use daphne_sc.Runtime.Interlock.{ready_for_afe}
use daphne_sc.Runtime.Hardware.{AfeHardware, RpuRuntime}
use daphne_sc.Runtime.Handler.{M, apply_command, handle_command, handle_frame}
use daphne_sc.Runtime.Handler.{applied_reply, status_reply, interlocked_reply, error_reply}

-- The runtime after the heartbeat of a frame.
abbrev pub beat : {H : Type 0} → RpuRuntime H → RpuRuntime H
beat rt = record rt { heartbeat = (rt.heartbeat + 1) % 2 ^ 64 }

pub op_eq_status : (op : RpuWireOp) → op ≢ RpuWireOp.status → op_eq op RpuWireOp.status ≡ false
unfolding op_eq
op_eq_status RpuWireOp.status h = absurd (h refl)
op_eq_status _ h = refl

module _ {H E : Type 0} (hardware : AfeHardware H E) (rt : RpuRuntime H) where
  pub frame_bad :
      (input : List ℕ) {e : RpuWireError}
      → decode input ≡ err e
      → handle_frame hardware rt input ≡ some (beat rt, Reply.encode (error_reply (beat rt) 0))
  unfolding handle_frame
  frame_bad input bad = rw (bad, handle_frame)

  pub frame_good :
      (input : List ℕ) {c : RpuWireCommand} {rt' : RpuRuntime H} {reply : RpuWireReply}
      → decode input ≡ ok c
      → handle_command hardware (beat rt) c ≡ some (rt', reply)
      → handle_frame hardware rt input ≡ some (rt', Reply.encode reply)
  unfolding handle_frame
  frame_good input good h = rw (good, h, handle_frame)

  pub frame_none :
      (input : List ℕ) {c : RpuWireCommand}
      → decode input ≡ ok c
      → handle_command hardware (beat rt) c ≡ none
      → handle_frame hardware rt input ≡ none
  unfolding handle_frame
  frame_none input good h = rw (good, h, handle_frame)

  pub command_status :
      (c : RpuWireCommand)
      → c.op ≡ RpuWireOp.status
      → handle_command hardware rt c ≡ some (rt, status_reply rt c)
  unfolding handle_command
  command_status c h = rw (h, handle_command)

  pub command_blocked :
      (c : RpuWireCommand)
      → c.op ≢ RpuWireOp.status
      → ready_for_afe rt.interlock ≡ false
      → handle_command hardware rt c ≡ some (rt, interlocked_reply rt c)
  unfolding handle_command
  command_blocked c h b = rw (op_eq_status c.op h, b, handle_command)

  pub command_run :
      (c : RpuWireCommand) {run : M H (Option ℕ)}
      → c.op ≢ RpuWireOp.status
      → ready_for_afe rt.interlock ≡ true
      → apply_command hardware c ≡ some run
      → handle_command hardware rt c ≡ some ((run rt).0, applied_reply c (run rt).0 (run rt).1)
  unfolding handle_command
  command_run c h b e = rw (op_eq_status c.op h, b, e, handle_command)

  pub command_none :
      (c : RpuWireCommand)
      → c.op ≢ RpuWireOp.status
      → ready_for_afe rt.interlock ≡ true
      → apply_command hardware c ≡ none
      → handle_command hardware rt c ≡ none
  unfolding handle_command
  command_none c h b e = rw (op_eq_status c.op h, b, e, handle_command)

-- What holds of the body of an arm, where there is one.
abbrev pub OnArm : {H A : Type 0} → (M H A → Type 0) → Option (M H A) → Type 0
OnArm P none = Unit
OnArm P (some run) = P run

pub RpuWireOp-discrete : Discrete RpuWireOp
RpuWireOp-discrete = hlevel

-- The five ways in which a frame is handled, for a property of what `handle_frame` returns.
module _ {H E : Type 0} (hardware : AfeHardware H E) (rt : RpuRuntime H) (input : List ℕ) where
  pub frame_split :
      (P : Option (RpuRuntime H × List ℕ) → Type 0)
      → ((e : RpuWireError)
          → decode input ≡ err e
          → P (some (beat rt, Reply.encode (error_reply (beat rt) 0))))
      → ((c : RpuWireCommand)
          → decode input ≡ ok c
          → c.op ≡ RpuWireOp.status
          → P (some (beat rt, Reply.encode (status_reply (beat rt) c))))
      → ((c : RpuWireCommand)
          → decode input ≡ ok c
          → c.op ≢ RpuWireOp.status
          → ready_for_afe rt.interlock ≡ false
          → P (some (beat rt, Reply.encode (interlocked_reply (beat rt) c))))
      → ((c : RpuWireCommand) (run : M H (Option ℕ))
          → decode input ≡ ok c
          → c.op ≢ RpuWireOp.status
          → ready_for_afe rt.interlock ≡ true
          → apply_command hardware c ≡ some run
          → let (rt', r) = run (beat rt) in P (some (rt', Reply.encode (applied_reply c rt' r))))
      → ((c : RpuWireCommand)
          → decode input ≡ ok c
          → c.op ≢ RpuWireOp.status
          → ready_for_afe rt.interlock ≡ true
          → apply_command hardware c ≡ none
          → P none)
      → P (handle_frame hardware rt input)
  frame_split P bad is_status blocked runs no_arm = elim (Result-cases (decode input)) [
    | inr (e, q) ↦ rw (frame_bad hardware rt input q) (bad e q)
    | inl (c, q) ↦ elim (RpuWireOp-discrete c.op RpuWireOp.status) [
      | yes p ↦
          rw (frame_good hardware rt input q (command_status hardware (beat rt) c p))
            (is_status c q p)
      | no p ↦ elim (Bool-cases (ready_for_afe rt.interlock)) [
        | inr off ↦
            rw (frame_good hardware rt input q (command_blocked hardware (beat rt) c p off))
              (blocked c q p off)
        | inl on ↦ elim (Option-cases (apply_command hardware c)) [
          | inl gap ↦
              rw (frame_none hardware rt input q (command_none hardware (beat rt) c p on gap))
                (no_arm c q p on gap)
          | inr (run, arm) ↦
              rw (frame_good hardware rt input q (command_run hardware (beat rt) c p on arm))
                (runs c run q p on arm)
        ]
      ]
    ]
  ]
