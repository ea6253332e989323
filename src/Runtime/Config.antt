-- ===== src/Runtime/Config.antt =====
-- The configuration session of the RPU runtime against the protocol that it is to enforce: what calls
-- reach the hardware, in which order.
use daphne_sc.Prelude.{ℕ, ◌+◌, ◌^◌, ◌<◌, ◌≡◌, refl, subst, arith, List, [], ◌∷◌}
use daphne_sc.Prelude.{true, false, Option, none, some, Result, ok, err}
use daphne_sc.Wire.Ops.{RpuWireOp}
use daphne_sc.Wire.Error.{RpuWireError, require_op, require_u16}
use daphne_sc.Wire.Command.{RpuWireCommand}
use daphne_sc.Wire.Payload.{RpuWireConfigCounts, RpuWireAfeConfig, RpuWireChannelConfig}
use daphne_sc.Wire.Payload.{configure_counts, unpack_u16_pair}
use daphne_sc.Runtime.Hardware.{AfeHardware, ConfigState, RpuRuntime, idle, begin}
use daphne_sc.Runtime.Hardware.{require_afe_slot, require_channel_slot, require_complete}
use daphne_sc.Runtime.Handler.{new, set_interlock, dispatch, apply_command, handle_frame}
use daphne_sc.Runtime.Interlock.{InterlockState}
use daphne_sc.Runtime.Steps.{OnArm, beat, frame_split}

-- The configuration calls that the hardware has completed.
pub data Event : Type 0 where
  began : RpuWireConfigCounts → Event
  staged_afe : RpuWireAfeConfig → Event
  staged_channel : RpuWireChannelConfig → Event
  applied : Event

-- A hardware state beside the log of completed configuration calls, latest first.
pub record Logged (H : Type 0) : Type 0 where
  pub inner : H
  pub log : List Event

abbrev note :
    {H E : Type 0} → Event → List Event → H × Result E (Unit {0}) → Logged H × Result E (Unit {0})
note e log (h, ok u) = (record { inner = h; log = e ∷ log }, ok u)
note e log (h, err x) = (record { inner = h; log = log }, err x)

abbrev pass : {H E A : Type 0} → List Event → H × Result E A → Logged H × Result E A
pass log (h, r) = (record { inner = h; log = log }, r)

-- Any hardware, with its completed configuration calls logged.
abbrev pub logged : {H E : Type 0} → AfeHardware H E → AfeHardware (Logged H) E
logged hw = record {
  read_register = λ s afe r. pass s.log (hw.read_register s.inner afe r);
  write_register = λ s afe r v. pass s.log (hw.write_register s.inner afe r v);
  read_scalar = λ s op afe. pass s.log (hw.read_scalar s.inner op afe);
  write_scalar = λ s op afe v. pass s.log (hw.write_scalar s.inner op afe v);
  read_channel_scalar = λ s c. pass s.log (hw.read_channel_scalar s.inner c);
  write_channel_scalar = λ s c. pass s.log (hw.write_channel_scalar s.inner c);
  read_vbias_control = λ s. pass s.log (hw.read_vbias_control s.inner);
  write_vbias_control = λ s v e. pass s.log (hw.write_vbias_control s.inner v e);
  set_reset = λ s a. pass s.log (hw.set_reset s.inner a);
  do_reset = λ s. pass s.log (hw.do_reset s.inner);
  set_power_state = λ s e. pass s.log (hw.set_power_state s.inner e);
  align = λ s. pass s.log (hw.align s.inner);
  begin_configure_frontend =
      λ s counts. note (began counts) s.log (hw.begin_configure_frontend s.inner counts);
  configure_afe = λ s config. note (staged_afe config) s.log (hw.configure_afe s.inner config);
  configure_channel =
      λ s config. note (staged_channel config) s.log (hw.configure_channel s.inner config);
  apply_configure_frontend = λ s. note applied s.log (hw.apply_configure_frontend s.inner);
  write_function = λ s afe name v. pass s.log (hw.write_function s.inner afe name v);
}

-- The protocol: the session that a log amounts to, and which call may come next in a session. A session
-- is open from a begin call to the next apply call.
abbrev closed : ConfigState
closed = record {
  active = false;
  expected_afes = 0;
  received_afes = 0;
  expected_channels = 0;
  received_channels = 0;
}

abbrev opened_with : ℕ → ℕ → ConfigState
opened_with afes channels = record {
  active = true;
  expected_afes = afes;
  received_afes = 0;
  expected_channels = channels;
  received_channels = 0;
}

abbrev pub replay : List Event → ConfigState
replay [] = closed
replay (began counts ∷ log) = opened_with counts.afe_count counts.channel_count
replay (staged_afe config ∷ log) =
    let s = replay log in record s { received_afes = s.received_afes + 1 }
replay (staged_channel config ∷ log) =
    let s = replay log in record s { received_channels = s.received_channels + 1 }
replay (applied ∷ log) = closed

abbrev pub Allowed : Event → ConfigState → Type 0
Allowed (began counts) s = Unit
Allowed (staged_afe config) s = (s.active ≡ true) × (s.received_afes < s.expected_afes)
Allowed (staged_channel config) s = (s.active ≡ true) × (s.received_channels < s.expected_channels)
Allowed applied s =
    (s.active ≡ true)
    × (s.received_afes ≡ s.expected_afes)
    × (s.received_channels ≡ s.expected_channels)

abbrev pub Legal : List Event → Type 0
Legal [] = Unit
Legal (e ∷ log) = Allowed e (replay log) × Legal log

pub record IsSession {H : Type 0} (rt : RpuRuntime (Logged H)) : Type 0 where
  pub legal : Legal rt.hardware.log
  pub agrees : rt.config_state ≡ replay rt.hardware.log
  pub afes_lt : rt.config_state.expected_afes < 2 ^ 16
  pub channels_lt : rt.config_state.expected_channels < 2 ^ 16

abbrev CountsFit : Result RpuWireError RpuWireConfigCounts → Type 0
CountsFit (ok counts) = (counts.afe_count < 2 ^ 16) × (counts.channel_count < 2 ^ 16)
CountsFit (err e) = Unit

counts-lt : (c : RpuWireCommand) → CountsFit (configure_counts c)
unfolding configure_counts unpack_u16_pair require_op require_u16
counts-lt c = ground arith

beat-IsSession : {H : Type 0} {rt : RpuRuntime (Logged H)} → IsSession rt → IsSession (beat rt)
beat-IsSession w = record {
  legal = w.legal;
  agrees = w.agrees;
  afes_lt = w.afes_lt;
  channels_lt = w.channels_lt;
}

-- The runtimes that come about from a new one by frames that are answered and by changes of the
-- interlock.
pub data Reach {H E : Type 0} (hw : AfeHardware H E) : RpuRuntime (Logged H) → Type 0 where
  start : (h : H) → Reach hw (new (record { inner = h; log = [] }))
  interlock :
      {rt : RpuRuntime (Logged H)}
      → Reach hw rt
      → (s : InterlockState) → Reach hw (set_interlock rt s)
  frame :
      {rt rt' : RpuRuntime (Logged H)} {output : List ℕ}
      → Reach hw rt
      → (input : List ℕ) → handle_frame (logged hw) rt input ≡ some (rt', output)
      → Reach hw rt'

module _ {H E : Type 0} (hw : AfeHardware H E) where
  dispatch-IsSession :
      (op : RpuWireOp) (c : RpuWireCommand) (rt : RpuRuntime (Logged H))
      → IsSession rt
      → OnArm (λ run. IsSession (run rt).0) (dispatch (logged hw) op c)
  unfolding dispatch require_afe_slot require_channel_slot require_complete idle begin
  dispatch-IsSession RpuWireOp.status c rt w = w
  dispatch-IsSession RpuWireOp.begin_configure_frontend c rt w = ground (arith, counts-lt c)
  dispatch-IsSession RpuWireOp.configure_afe c rt w = ground arith
  dispatch-IsSession RpuWireOp.configure_channel c rt w = ground arith
  dispatch-IsSession RpuWireOp.apply_configure_frontend c rt w = ground arith
  dispatch-IsSession RpuWireOp.read_alignment c rt w = tt
  dispatch-IsSession _ c rt w = ground arith

  IsSessionAfter : Option (RpuRuntime (Logged H) × List ℕ) → Type 0
  IsSessionAfter none = Unit
  IsSessionAfter (some answer) = IsSession answer.0

  frame-IsSession :
      (rt : RpuRuntime (Logged H)) (input : List ℕ)
      → IsSession rt
      → IsSessionAfter (handle_frame (logged hw) rt input)
  unfolding IsSessionAfter apply_command
  frame-IsSession rt input w =
      frame_split (logged hw) rt input IsSessionAfter (λ e q. kept) (λ c q p. kept)
        (λ c q p off. kept)
        (λ c run q p on arm.
          subst (OnArm (λ run. IsSession (run (beat rt)).0)) arm
            (dispatch-IsSession c.op c (beat rt) kept))
        (λ c q p on gap. tt)
    where
      kept : IsSession (beat rt)
      kept = beat-IsSession w

  new-IsSession : (h : H) → IsSession (new (record { inner = h; log = [] }))
  unfolding new idle
  new-IsSession h = record {
    legal = tt;
    agrees = refl;
    afes_lt = omega arith;
    channels_lt = omega arith;
  }

  set_interlock-IsSession :
      (rt : RpuRuntime (Logged H)) (s : InterlockState)
      → IsSession rt
      → IsSession (set_interlock rt s)
  unfolding set_interlock
  set_interlock-IsSession rt s w = record {
    legal = w.legal;
    agrees = w.agrees;
    afes_lt = w.afes_lt;
    channels_lt = w.channels_lt;
  }

  Reach-IsSession : {rt : RpuRuntime (Logged H)} → Reach hw rt → IsSession rt
  unfolding IsSessionAfter
  Reach-IsSession (start h) = new-IsSession h
  Reach-IsSession (interlock r s) = set_interlock-IsSession _ s (Reach-IsSession r)
  Reach-IsSession (frame {rt = before} r input answered) =
      subst IsSessionAfter answered (frame-IsSession before input (Reach-IsSession r))

  -- However frames and interlock changes are interleaved, the configuration calls that the hardware
  -- completes follow the protocol: a record is staged only in an open session that expects more of its
  -- kind, and the staged configuration is applied only in an open session that has received exactly
  -- as many records of each kind as its begin frame announced. The session that the runtime keeps is
  -- the one that these calls amount to.
  pub config_protocol :
      (rt : RpuRuntime (Logged H))
      → Reach hw rt
      → Legal rt.hardware.log × (rt.config_state ≡ replay rt.hardware.log)
  config_protocol rt r = let w = Reach-IsSession r in (w.legal, w.agrees)
