-- ===== src/Tests/Rpu.antt =====
-- Some of the tests of crates/daphne-sc-rpu/src/lib.rs, and the theorems on the runtime at concrete inputs.
use daphne_sc.Prelude.{◌≡◌, ◌↔◌, refl, arith, [], ◌∷◌, true, false, ok, some, none}
use daphne_sc.Wire.Ops.{RpuWireOp, RpuWireStatus}
use daphne_sc.Wire.Command.{RpuWireCommand, encode, decode}
use daphne_sc.Wire.Error.{require_op, require_u16}
use daphne_sc.Wire.RoundTrip.{decode-encode}
use daphne_sc.Wire.Payload.{RpuWireConfigCounts, configure_counts, unpack_u16_pair}
use daphne_sc.Wire.Reply
use daphne_sc.Wire.Reply.{RpuWireReply}
use daphne_sc.Runtime.Interlock.{InterlockState, ready_for_afe}
use daphne_sc.Runtime.Interlock
use daphne_sc.Runtime.Hardware.{RpuRuntime, idle, begin}
use daphne_sc.Runtime.Handler.{
  new, set_interlock, dispatch, apply_command, applied_reply, handle_frame,
}
use daphne_sc.Runtime.Steps.{beat, frame_good, command_run}
use daphne_sc.Runtime.Safety.{interlock_blocks, unanswered_iff}
use daphne_sc.Runtime.Config.{
  Logged, logged, Legal, began, replay, start, interlock, frame, config_protocol,
}
use daphne_sc.Prelude.{List, map}
use daphne_sc.Wire.FromAfe.{from_afe_command_sequence}
use daphne_sc.Runtime.Session.{Accepting, Succeeds}
use daphne_sc.Runtime.Session.Whole.{Configured, configure_frontend_runs}
use daphne_sc.Tests.Core.{configure-InRange}
use daphne_sc.Tests.Fake.{
  configure, afe_config, channel_config, FakeHardware, fake, untouched, ready, register_write,
  plain, plain-IsCommand,
}

abbrev fresh : RpuRuntime FakeHardware
fresh = new untouched

fresh-blocked : ready_for_afe fresh.interlock ≡ false
unfolding new Interlock.default ready_for_afe
fresh-blocked = refl

interlock_blocks_example :
    (reply : RpuWireReply) × (handle_frame fake fresh (encode register_write)
      ≡ some (beat fresh, Reply.encode reply))
    × (reply.status ≡ RpuWireStatus.applied
        → (c : RpuWireCommand) × (decode (encode register_write) ≡ ok c)
          × (c.op ≡ RpuWireOp.status))
interlock_blocks_example = interlock_blocks fake fresh (encode register_write) fresh-blocked

abbrev pub open_runtime : RpuRuntime FakeHardware
open_runtime = set_interlock fresh ready

unanswered_iff_example : (handle_frame fake open_runtime (encode register_write) ≡ none) ↔ (
    (ready_for_afe open_runtime.interlock ≡ true)
    × ((c : RpuWireCommand) × (decode (encode register_write) ≡ ok c)
        × (c.op ≡ RpuWireOp.read_alignment)))
unanswered_iff_example = unanswered_iff fake open_runtime (encode register_write)

abbrev alignment_read : RpuWireCommand
alignment_read = plain 11 RpuWireOp.read_alignment 0 0

alignment_read_unanswered : handle_frame fake open_runtime (encode alignment_read) ≡ none
unfolding set_interlock ready_for_afe
alignment_read_unanswered = (unanswered_iff fake open_runtime (encode alignment_read)).1 (
  refl,
  (
    alignment_read,
    decode-encode alignment_read
        (plain-IsCommand 11 RpuWireOp.read_alignment 0 0 (omega arith) (omega arith) (omega arith)),
    refl,
  ),
)

-- The register write of the test, answered as applied.
abbrev written : RpuRuntime FakeHardware
written = record {
  hardware = record untouched { writes = (4, 3, 4660) ∷ [] };
  heartbeat = 1;
  interlock = ready;
  config_state = idle;
}

abbrev written_reply : RpuWireReply
written_reply = record {
  sequence = 10;
  status = RpuWireStatus.applied;
  readback = some 4660;
  heartbeat = 1;
  fault_code = 0;
  interlock_code = 0;
}

-- The begin frame of the test on an incomplete configuration.
abbrev begin_one : RpuWireCommand
begin_one = plain 200 RpuWireOp.begin_configure_frontend 600 65537

abbrev one_each : RpuWireConfigCounts
one_each = record { afe_count = 1; channel_count = 1; bias_control = 600 }

abbrev logged_runtime : RpuRuntime (Logged FakeHardware)
logged_runtime = set_interlock (new (record { inner = untouched; log = [] })) ready

abbrev begun : RpuRuntime (Logged FakeHardware)
begun = record {
  hardware = record {
    inner = record untouched { begins = one_each ∷ [] };
    log = began one_each ∷ [];
  };
  heartbeat = 1;
  interlock = ready;
  config_state = begin one_each;
}

begin_runs :
    handle_frame (logged fake) logged_runtime (encode begin_one)
    ≡ some (begun, Reply.encode (applied_reply begin_one begun (ok none)))
unfolding set_interlock new apply_command dispatch configure_counts unpack_u16_pair require_op
    require_u16 ready_for_afe
begin_runs =
    frame_good (logged fake) logged_runtime (encode begin_one)
      (decode-encode begin_one (
        plain-IsCommand 200 RpuWireOp.begin_configure_frontend 600 65537 (omega arith) (omega arith)
          (omega arith)))
      (command_run (logged fake) (beat logged_runtime) begin_one (λ e. cc) refl refl)

config_protocol_example :
    Legal (began one_each ∷ []) × (begun.config_state ≡ replay (began one_each ∷ []))
config_protocol_example =
    config_protocol fake begun
      (frame (interlock (start untouched) ready) (encode begin_one) begin_runs)

pub fake-Accepting : Accepting fake
fake-Accepting = record {
  begin_ok = λ h counts. refl;
  afe_ok = λ h config. refl;
  channel_ok = λ h config. refl;
  apply_ok = λ h. refl;
}

pub open_ready : ready_for_afe open_runtime.interlock ≡ true
unfolding set_interlock ready_for_afe
open_ready = refl

configure_frontend_runs_example :
    (frames : List RpuWireCommand) × (from_afe_command_sequence 100 configure ≡ ok frames)
    × Succeeds fake open_runtime
        (map encode frames)
        (Configured fake fake-Accepting open_runtime (afe_config ∷ []) (channel_config ∷ []) 600)
configure_frontend_runs_example =
    configure_frontend_runs fake fake-Accepting open_runtime 100 (afe_config ∷ [])
      (channel_config ∷ []) 600 open_ready configure-InRange (omega arith) (omega arith)
