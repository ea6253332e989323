-- ===== src/Wire/FromAfe.antt =====
-- From an AFE command to its frames (crates/daphne-sc-core/src/rpu_wire.rs): one frame, or the
-- sequence of a frontend configuration. A method on `&mut self` returns the changed command.
pub mod Frames
pub mod Records
pub mod Numbering
pub mod Names
pub mod Valid
use daphne_sc.Prelude.{ℕ, ◌+◌, ◌%◌, ◌^◌, List, [], ◌∷◌, ◌++◌, length, of_bool}
use daphne_sc.Prelude.{Result, ok, err, ◌>>=◌, ◌>>◌}
use Prim.Native.Nat.{max}
use daphne_sc.Afe.{
  AfeId, ChannelId, ChannelTarget, AfeFrontendConfig, ChannelFrontendConfig, AfeCommand,
}
use daphne_sc.Wire.Ops.{RpuWireOp, RpuWireTarget}
use daphne_sc.Wire.Error.{RpuWireError, ensure_record_count}
use daphne_sc.Wire.Command.{RpuWireCommand, status}
use daphne_sc.Wire.Payload.{pack_u16_pair, pack_afe_payload, set_function_name}

unfoldable pub set_afe : RpuWireCommand → AfeId → RpuWireCommand
set_afe c afe = record c { target = RpuWireTarget.afe; afe_board = afe.board; afe_pl = afe.pl }

unfoldable pub set_channel : RpuWireCommand → ChannelId → RpuWireCommand
set_channel c channel = record c {
  target = RpuWireTarget.channel;
  channel = channel.channel;
  afe_board = channel.afe.board;
  afe_pl = channel.afe.pl;
  afe_channel = channel.afe_channel;
}

unfoldable pub set_channel_target : RpuWireCommand → ChannelTarget → RpuWireCommand
unfolding set_afe set_channel
set_channel_target c (ChannelTarget.one channel) = set_channel c channel
set_channel_target c (ChannelTarget.afe a) = set_afe c a
set_channel_target c ChannelTarget.all = record c { target = RpuWireTarget.all }

-- `from_afe_command` on the blank command `wire`, one clause for each arm of its match.
unfoldable pub fill : RpuWireCommand → AfeCommand → Result RpuWireError RpuWireCommand
unfolding set_channel_target
fill wire (AfeCommand.read_register afe register) =
    ok (record (set_afe (record wire { op = RpuWireOp.read_register }) afe) { register = register })
fill wire (AfeCommand.write_register afe register value) =
    ok (record (set_afe (record wire { op = RpuWireOp.write_register }) afe) {
      register = register;
      value = value;
    })
fill wire (AfeCommand.read_attenuation afe) =
    ok (set_afe (record wire { op = RpuWireOp.read_attenuation }) afe)
fill wire (AfeCommand.set_attenuation afe value) =
    ok (record (set_afe (record wire { op = RpuWireOp.set_attenuation }) afe) { value = value })
fill wire (AfeCommand.read_bias afe) = ok (set_afe (record wire { op = RpuWireOp.read_bias }) afe)
fill wire (AfeCommand.set_bias afe value) =
    ok (record (set_afe (record wire { op = RpuWireOp.set_bias }) afe) { value = value })
fill wire (AfeCommand.read_trim target) =
    ok (set_channel_target (record wire { op = RpuWireOp.read_trim }) target)
fill wire (AfeCommand.set_trim target value gain) =
    ok (record (set_channel_target (record wire { op = RpuWireOp.set_trim }) target) {
      value = value;
      flags = of_bool gain;
    })
fill wire (AfeCommand.read_offset target) =
    ok (set_channel_target (record wire { op = RpuWireOp.read_offset }) target)
fill wire (AfeCommand.set_offset target value gain) =
    ok (record (set_channel_target (record wire { op = RpuWireOp.set_offset }) target) {
      value = value;
      flags = of_bool gain;
    })
fill wire AfeCommand.read_vbias_control = ok (record wire { op = RpuWireOp.read_vbias_control })
fill wire (AfeCommand.set_vbias_control value enable) =
    ok (record wire { op = RpuWireOp.set_vbias_control; value = value; flags = of_bool enable })
fill wire (AfeCommand.set_reset asserted) =
    ok (record wire { op = RpuWireOp.set_reset; flags = of_bool asserted })
fill wire AfeCommand.do_reset = ok (record wire { op = RpuWireOp.do_reset })
fill wire (AfeCommand.set_power_state enabled) =
    ok (record wire { op = RpuWireOp.set_power_state; flags = of_bool enabled })
fill wire AfeCommand.align = ok (record wire { op = RpuWireOp.align })
fill wire (AfeCommand.write_function afe name value) = do
  payload ← set_function_name wire.payload name
  ok (record (set_afe (record wire { op = RpuWireOp.write_function }) afe) {
    value = value;
    payload = payload;
  })
fill wire (AfeCommand.read_alignment afe) =
    ok (set_afe (record wire { op = RpuWireOp.read_alignment }) afe)
fill wire (AfeCommand.configure_frontend _ _ _) = err (
    RpuWireError.unsupported_command
      "configure-frontend requires a multi-frame RPU config sequence")

unfoldable pub from_afe_command : ℕ → AfeCommand → Result RpuWireError RpuWireCommand
unfolding fill status
from_afe_command sequence command = fill (status sequence) command

-- `first_sequence.wrapping_add(offset as u64).max(1)`
unfoldable pub sequence_for_frame : ℕ → ℕ → ℕ
sequence_for_frame first_sequence offset = max ((first_sequence + offset % 2 ^ 64) % 2 ^ 64) 1

abbrev pub as_u16 : ℕ → ℕ
as_u16 n = n % 2 ^ 16

unfoldable pub begin_frame : ℕ → ℕ → ℕ → ℕ → RpuWireCommand
unfolding status
begin_frame sequence afes channels bias_control = record (status sequence) {
  op = RpuWireOp.begin_configure_frontend;
  value = bias_control;
  flags = pack_u16_pair (as_u16 afes) (as_u16 channels);
}

unfoldable pub afe_frame : ℕ → AfeFrontendConfig → RpuWireCommand
unfolding status set_afe pack_afe_payload
afe_frame sequence config =
    record (set_afe (record (status sequence) { op = RpuWireOp.configure_afe }) config.afe) {
      value = config.attenuation;
      flags = config.bias;
      payload = pack_afe_payload (status sequence).payload config;
    }

unfoldable pub channel_frame : ℕ → ChannelFrontendConfig → RpuWireCommand
unfolding status set_channel
channel_frame sequence config =
    record (set_channel (record (status sequence) { op = RpuWireOp.configure_channel })
      config.channel) { value = config.trim; flags = pack_u16_pair config.offset config.gain }

unfoldable pub apply_frame : ℕ → ℕ → ℕ → RpuWireCommand
unfolding status
apply_frame sequence afes channels = record (status sequence) {
  op = RpuWireOp.apply_configure_frontend;
  flags = pack_u16_pair (as_u16 afes) (as_u16 channels);
}

-- The two loops, which push a frame for each record; `frames` is what was pushed so far.
unfoldable pub push_afes : ℕ → List RpuWireCommand → List AfeFrontendConfig → List RpuWireCommand
push_afes first_sequence frames [] = frames
push_afes first_sequence frames (config ∷ afes) =
    push_afes first_sequence
      (frames ++ (afe_frame (sequence_for_frame first_sequence (length frames)) config ∷ [])) afes

unfoldable pub push_channels :
    ℕ → List RpuWireCommand → List ChannelFrontendConfig → List RpuWireCommand
push_channels first_sequence frames [] = frames
push_channels first_sequence frames (config ∷ channels) =
    push_channels first_sequence
      (frames ++ (channel_frame (sequence_for_frame first_sequence (length frames)) config ∷ []))
      channels

unfoldable pub configure_frontend_sequence :
    ℕ
    → List AfeFrontendConfig
    → List ChannelFrontendConfig
    → ℕ
    → Result RpuWireError (List RpuWireCommand)
configure_frontend_sequence first_sequence afes channels bias_control = do
  ensure_record_count "AFE config" (length afes)
  ensure_record_count "channel config" (length channels)
  let begin =
      begin_frame (sequence_for_frame first_sequence 0) (length afes) (length channels) bias_control
  let frames = push_afes first_sequence (begin ∷ []) afes
  let frames = push_channels first_sequence frames channels
  let apply =
      apply_frame (sequence_for_frame first_sequence (length frames)) (length afes)
        (length channels)
  ok (frames ++ (apply ∷ []))

unfoldable pub frame_count_for_afe_command : AfeCommand → Result RpuWireError ℕ
frame_count_for_afe_command (AfeCommand.configure_frontend afes channels _) = do
  ensure_record_count "AFE config" (length afes)
  ensure_record_count "channel config" (length channels)
  ok (2 + length afes + length channels)
frame_count_for_afe_command _ = ok 1

unfoldable pub from_afe_command_sequence :
    ℕ → AfeCommand → Result RpuWireError (List RpuWireCommand)
from_afe_command_sequence first_sequence
      (AfeCommand.configure_frontend afes channels bias_control) =
    configure_frontend_sequence first_sequence afes channels bias_control
from_afe_command_sequence first_sequence command = do
  frame ← from_afe_command first_sequence command
  ok (frame ∷ [])
