-- ===== src/Runtime/Handler.antt =====
-- The handlers of crates/daphne-sc-rpu/src/lib.rs: `handle_frame`, `handle_command`, `apply_command`.
-- The match of `apply_command` has no arm for `ReadAlignment`; the model answers `none` there.
use daphne_sc.Prelude.{
  ℕ, ◌+◌, ◌%◌, ◌^◌, List, Bool, not, Option, none, some, ltb, ◌==◌, if◌then◌else◌,
}
use daphne_sc.Prelude.{Result, ok, err, map_err}
use daphne_sc.Wire.Ops.{RpuWireOp, RpuWireStatus, op_eq}
use daphne_sc.Wire.Error.{u16_max}
use daphne_sc.Wire.Command.{RpuWireCommand, decode}
use daphne_sc.Wire.Payload.{configure_counts, afe_config, channel_config, function_name}
use daphne_sc.Wire.Reply
use daphne_sc.Wire.Reply.{RpuWireReply}
use daphne_sc.Runtime.Interlock
use daphne_sc.Runtime.Interlock.{InterlockState, ready_for_afe}
use daphne_sc.Runtime.Hardware.{AfeHardware, ApplyError, ConfigState, RpuRuntime, hw, idle, begin}
use daphne_sc.Runtime.Hardware.{
  require_afe, require_afe_slot, require_channel_slot, require_complete,
}

-- `RpuRuntime::new`
unfoldable pub new : {H : Type 0} → H → RpuRuntime H
unfolding Interlock.default idle
new hardware = record {
  hardware = hardware;
  heartbeat = 0;
  interlock = Interlock.default;
  config_state = idle;
}

unfoldable pub set_interlock : {H : Type 0} → RpuRuntime H → InterlockState → RpuRuntime H
set_interlock rt interlock = record rt { interlock = interlock }

-- A method on `&mut self` that may fail: what was changed before the failure stays changed.
abbrev pub M : Type 0 → Type 0 → Type 0
M H A = RpuRuntime H → RpuRuntime H × Result ApplyError A

module _ {H : Type 0} where
  infixl 5 ◌>>=◌ ◌>>◌
  abbrev pub ◌>>=◌ : {A B : Type 0} → M H A → (A → M H B) → M H B
  ◌>>=◌ m f rt = let (rt', r) = m rt in elim r [ ok a ↦ f a rt' | err e ↦ (rt', err e) ]

  abbrev pub ◌>>◌ : {B : Type 0} → M H (Unit {0}) → M H B → M H B
  ◌>>◌ m k rt = let (rt', r) = m rt in elim r [ ok a ↦ k rt' | err e ↦ (rt', err e) ]

  abbrev pub pure : {A : Type 0} → A → M H A
  pure a rt = (rt, ok a)

  -- `?` on a result that leaves the runtime alone.
  abbrev pub lift : {A : Type 0} → Result ApplyError A → M H A
  lift r rt = (rt, r)

  -- A call on `self.config_state`, and an assignment to it.
  abbrev pub check : (ConfigState → Result ApplyError (Unit {0})) → M H (Unit {0})
  check test rt = (rt, test rt.config_state)

  abbrev pub update : (ConfigState → ConfigState) → M H (Unit {0})
  update f rt = (record rt { config_state = f rt.config_state }, ok tt)

  -- `hw(self.hardware.f(...))?`
  abbrev pub call : {E A : Type 0} → (H → H × Result E A) → M H A
  call f rt = let (h, r) = f rt.hardware in (record rt { hardware = h }, hw r)

-- `map_err(|_| ApplyError::Rejected)`
abbrev pub or_reject : {E A : Type 0} → Result E A → Result ApplyError A
or_reject r = map_err (λ _. ApplyError.rejected) r

abbrev pub as_flag : ℕ → Bool
as_flag flags = not (flags == 0)

-- `u16::try_from(command.value).map_err(|_| ApplyError::Rejected)`
unfoldable pub value_u16 : ℕ → Result ApplyError ℕ
value_u16 value = if ltb u16_max value then err ApplyError.rejected else ok value

module _ {H E : Type 0} (hardware : AfeHardware H E) where
  -- The arms of `apply_command`.
  unfoldable pub dispatch : RpuWireOp → RpuWireCommand → Option (M H (Option ℕ))
  dispatch RpuWireOp.status c = some (λ rt. (rt, ok (some (Interlock.code rt.interlock))))
  dispatch RpuWireOp.read_register c = some (do
    afe ← lift (require_afe c)
    v ← call (λ h. hardware.read_register h afe c.register)
    pure (some v))
  dispatch RpuWireOp.write_register c = some (do
    afe ← lift (require_afe c)
    v ← call (λ h. hardware.write_register h afe c.register c.value)
    pure (some v))
  dispatch RpuWireOp.read_attenuation c = some (do
    afe ← lift (require_afe c)
    v ← call (λ h. hardware.read_scalar h c.op afe)
    pure (some v))
  dispatch RpuWireOp.read_bias c = some (do
    afe ← lift (require_afe c)
    v ← call (λ h. hardware.read_scalar h c.op afe)
    pure (some v))
  dispatch RpuWireOp.set_attenuation c = some (do
    afe ← lift (require_afe c)
    v ← call (λ h. hardware.write_scalar h c.op afe c.value)
    pure (some v))
  dispatch RpuWireOp.set_bias c = some (do
    afe ← lift (require_afe c)
    v ← call (λ h. hardware.write_scalar h c.op afe c.value)
    pure (some v))
  dispatch RpuWireOp.read_trim c =
      some (do v ← call (λ h. hardware.read_channel_scalar h c); pure (some v))
  dispatch RpuWireOp.read_offset c =
      some (do v ← call (λ h. hardware.read_channel_scalar h c); pure (some v))
  dispatch RpuWireOp.set_trim c =
      some (do v ← call (λ h. hardware.write_channel_scalar h c); pure (some v))
  dispatch RpuWireOp.set_offset c =
      some (do v ← call (λ h. hardware.write_channel_scalar h c); pure (some v))
  dispatch RpuWireOp.read_vbias_control c =
      some (do v ← call hardware.read_vbias_control; pure (some v))
  dispatch RpuWireOp.set_vbias_control c =
      some
        (do v ← call (λ h. hardware.write_vbias_control h c.value (as_flag c.flags)); pure (some v))
  dispatch RpuWireOp.set_reset c =
      some (do call (λ h. hardware.set_reset h (as_flag c.flags)); pure none)
  dispatch RpuWireOp.do_reset c = some (do call hardware.do_reset; pure none)
  dispatch RpuWireOp.set_power_state c =
      some (do call (λ h. hardware.set_power_state h (as_flag c.flags)); pure none)
  dispatch RpuWireOp.align c = some (do call hardware.align; pure none)
  dispatch RpuWireOp.begin_configure_frontend c = some (do
    counts ← lift (or_reject (configure_counts c))
    call (λ h. hardware.begin_configure_frontend h counts)
    update (λ _. begin counts)
    pure none)
  dispatch RpuWireOp.configure_afe c = some (do
    config ← lift (or_reject (afe_config c))
    check require_afe_slot
    call (λ h. hardware.configure_afe h config)
    update (λ s. record s { received_afes = (s.received_afes + 1) % 2 ^ 16 })
    pure none)
  dispatch RpuWireOp.configure_channel c = some (do
    config ← lift (or_reject (channel_config c))
    check require_channel_slot
    call (λ h. hardware.configure_channel h config)
    update (λ s. record s { received_channels = (s.received_channels + 1) % 2 ^ 16 })
    pure none)
  dispatch RpuWireOp.apply_configure_frontend c = some (do
    check require_complete
    call hardware.apply_configure_frontend
    update (λ _. idle)
    pure none)
  dispatch RpuWireOp.write_function c = some (do
    afe ← lift (require_afe c)
    name ← lift (or_reject (function_name c))
    value ← lift (value_u16 c.value)
    v ← call (λ h. hardware.write_function h afe name value)
    pure (some v))
  dispatch RpuWireOp.read_alignment c = none

  unfoldable pub apply_command : RpuWireCommand → Option (M H (Option ℕ))
  apply_command c = dispatch c.op c

module _ {H : Type 0} where
  -- The reply of `handle_command` to what `apply_command` returned.
  unfoldable pub applied_reply :
      RpuWireCommand → RpuRuntime H → Result ApplyError (Option ℕ) → RpuWireReply
  applied_reply c rt (ok readback) = record {
    sequence = c.sequence;
    status = RpuWireStatus.applied;
    readback = readback;
    heartbeat = rt.heartbeat;
    fault_code = 0;
    interlock_code = 0;
  }
  applied_reply c rt (err ApplyError.rejected) = record {
    sequence = c.sequence;
    status = RpuWireStatus.rejected;
    readback = none;
    heartbeat = rt.heartbeat;
    fault_code = 0;
    interlock_code = 0;
  }
  applied_reply c rt (err ApplyError.hardware_fault) = record {
    sequence = c.sequence;
    status = RpuWireStatus.fault;
    readback = none;
    heartbeat = rt.heartbeat;
    fault_code = 1;
    interlock_code = Interlock.code rt.interlock;
  }

  unfoldable pub status_reply : RpuRuntime H → RpuWireCommand → RpuWireReply
  status_reply rt c = record {
    sequence = c.sequence;
    status = if rt.interlock.fault_code == 0 then RpuWireStatus.applied else RpuWireStatus.fault;
    readback = some (Interlock.code rt.interlock);
    heartbeat = rt.heartbeat;
    fault_code = rt.interlock.fault_code;
    interlock_code = Interlock.code rt.interlock;
  }

  unfoldable pub interlocked_reply : RpuRuntime H → RpuWireCommand → RpuWireReply
  interlocked_reply rt c = record {
    sequence = c.sequence;
    status = RpuWireStatus.interlocked;
    readback = none;
    heartbeat = rt.heartbeat;
    fault_code = rt.interlock.fault_code;
    interlock_code = Interlock.code rt.interlock;
  }

  unfoldable pub error_reply : RpuRuntime H → ℕ → RpuWireReply
  error_reply rt sequence = record {
    sequence = sequence;
    status = RpuWireStatus.rejected;
    readback = none;
    heartbeat = rt.heartbeat;
    fault_code = 0;
    interlock_code = Interlock.code rt.interlock;
  }

module _ {H E : Type 0} (hardware : AfeHardware H E) where
  unfoldable pub handle_command :
      RpuRuntime H → RpuWireCommand → Option (RpuRuntime H × RpuWireReply)
  unfolding op_eq
  handle_command rt c =
      if op_eq c.op RpuWireOp.status
      then some (rt, status_reply rt c)
      else (if not (ready_for_afe rt.interlock)
          then some (rt, interlocked_reply rt c)
          else elim (apply_command hardware c) [
            | none ↦ none
            | some run ↦ let (rt', r) = run rt in some (rt', applied_reply c rt' r)
          ])

  unfoldable pub handle_frame : RpuRuntime H → List ℕ → Option (RpuRuntime H × List ℕ)
  handle_frame rt input =
      let rt = record rt { heartbeat = (rt.heartbeat + 1) % 2 ^ 64 } in
      elim (decode input) [
        | ok c ↦ elim (handle_command rt c) [
          | none ↦ none
          | some (rt', reply) ↦ some (rt', Reply.encode reply)
        ]
        | err e ↦ some (rt, Reply.encode (error_reply rt 0))
      ]
