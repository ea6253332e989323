-- ===== src/Tests/Core.antt =====
-- Some of the tests of afe.rs, transport.rs and rpu_wire.rs in crates/daphne-sc-core/src, and the theorems on
-- these files at concrete inputs.
use daphne_sc.Prelude.{
  ◌+◌, ◌^◌, ◌≤◌, ◌<◌, ◌≡◌, ◌≢◌, ◌↔◌, refl, arith, List, [], ◌∷◌, true, ok, err, some, length, map,
  All,
}
use daphne_sc.Prelude.Utf8.{is_utf8}
use daphne_sc.Afe.{AfeCommand, ChannelTarget, validate}
use daphne_sc.Afe.Ids.{IsAfe, IsChannel}
use daphne_sc.Afe.InRange.{InRange, IsAfeConfig, IsChannelConfig}
use daphne_sc.Afe.Validation.{dac_values, first_too_large, FitsDac, validate_lem}
use daphne_sc.Transport.{MessageTypeV2, CommandRoute, code, try_from, route_message_type}
use daphne_sc.Transport.Codes.{try_from_iff, is_afe_code, route_message_type_lem}
use daphne_sc.Wire.Ops.{RpuWireTarget, RpuWireStatus}
use daphne_sc.Wire.Error.{RpuWireError}
use daphne_sc.Wire.Command.{RpuWireCommand, encode, decode}
use daphne_sc.Wire.RoundTrip.{decode-encode}
use daphne_sc.Wire.Payload
use daphne_sc.Wire.Payload.{configure_counts, function_name}
use daphne_sc.Wire.FromAfe.{afe_frame, channel_frame, from_afe_command}
use daphne_sc.Wire.FromAfe.{from_afe_command_sequence}
use daphne_sc.Wire.FromAfe.{frame_count_for_afe_command}
use daphne_sc.Wire.FromAfe.Frames.{session_frames, configure_frontend_sequence_lem}
use daphne_sc.Wire.FromAfe.Numbering.{sequence, count_up, frames_numbered}
use daphne_sc.Wire.FromAfe.Names.{write_function_lem}
use daphne_sc.Wire.FromAfe.Records.{afe_view, channel_view}
use daphne_sc.Wire.FromAfe.Records.{afe_config-afe_frame, channel_config-channel_frame}
use daphne_sc.Wire.Reply
use daphne_sc.Wire.Reply.{RpuWireReply, IsReply}
use daphne_sc.Wire.Reply.RoundTrip.{reply_decode-encode}
use daphne_sc.Tests.Fake.{
  afe_config, channel_config, configure, register_write, register_write-IsCommand, adc_reset,
  board_one, channel_ten,
}

abbrev too_large : AfeCommand
too_large = AfeCommand.set_trim (ChannelTarget.one channel_ten) 4096 true

validate_lem_example :
    (validate too_large ≡ first_too_large (dac_values too_large))
    × ((validate too_large ≡ ok tt) ↔ All FitsDac (dac_values too_large))
validate_lem_example = validate_lem too_large

try_from_iff_example :
    (try_from 206 ≡ ok MessageTypeV2.write_afe_vgain_req)
    ↔ (code MessageTypeV2.write_afe_vgain_req ≡ 206)
try_from_iff_example = try_from_iff 206 MessageTypeV2.write_afe_vgain_req

route_message_type_lem_example :
    ((route_message_type MessageTypeV2.align_afe_req ≡ CommandRoute.rpu_afe)
      ↔ (is_afe_code (code MessageTypeV2.align_afe_req) ≡ true))
    × (route_message_type MessageTypeV2.align_afe_req ≢ CommandRoute.unsupported)
route_message_type_lem_example = route_message_type_lem MessageTypeV2.align_afe_req

decode-encode_example : decode (encode register_write) ≡ ok register_write
decode-encode_example = decode-encode register_write register_write-IsCommand

abbrev beef : RpuWireReply
beef = record {
  sequence = 10;
  status = RpuWireStatus.applied;
  readback = some 3735928559;
  heartbeat = 42;
  fault_code = 0;
  interlock_code = 0;
}

reply_decode-encode_example : Reply.decode (Reply.encode beef) ≡ ok beef
reply_decode-encode_example = reply_decode-encode beef (record {
  sequence_lt = omega arith;
  readback_lt = omega arith;
  heartbeat_lt = omega arith;
  fault_code_lt = omega arith;
  interlock_code_lt = omega arith;
})

abbrev frames : List RpuWireCommand
frames = session_frames 20 (afe_config ∷ []) (channel_config ∷ []) 600

frames_made : from_afe_command_sequence 20 configure ≡ ok frames
unfolding from_afe_command_sequence
frames_made =
    configure_frontend_sequence_lem 20 (afe_config ∷ []) (channel_config ∷ []) 600 (omega arith)
      (omega arith)

abbrev board_one-IsAfe : IsAfe board_one
board_one-IsAfe = record {
  board_lt = omega arith;
  pl_lt = omega arith;
  to_pl = refl;
  to_board = refl;
}

abbrev channel_ten-IsChannel : IsChannel channel_ten
channel_ten-IsChannel = record {
  channel_lt = omega arith;
  position = omega arith;
  afe_channel_lt = omega arith;
  afe = board_one-IsAfe;
}

abbrev afe_config-fits : IsAfeConfig afe_config
afe_config-fits = record {
  afe = board_one-IsAfe;
  attenuation_lt = omega arith;
  bias_lt = omega arith;
  lpf_lt = omega arith;
  clamp_lt = omega arith;
  gain_lt = omega arith;
}

abbrev channel_config-fits : IsChannelConfig channel_config
channel_config-fits = record {
  channel = channel_ten-IsChannel;
  trim_lt = omega arith;
  offset_lt = omega arith;
  gain_lt = omega arith;
}

abbrev pub configure-InRange : InRange configure
configure-InRange = ((afe_config-fits, tt), (channel_config-fits, tt), omega arith)

frames_numbered_example :
    (frame_count_for_afe_command configure ≡ ok (length frames))
    × (20 + length frames ≤ 2 ^ 64 → map sequence frames ≡ count_up 20 (length frames))
frames_numbered_example = frames_numbered 20 configure frames (omega arith) frames_made

afe_config-afe_frame_example :
    Payload.afe_config (afe_frame 21 afe_config) ≡ ok (afe_view afe_config)
afe_config-afe_frame_example = afe_config-afe_frame 21 afe_config (omega arith) (omega arith)

channel_config-channel_frame_example :
    Payload.channel_config (channel_frame 22 channel_config) ≡ ok (channel_view channel_config)
channel_config-channel_frame_example =
    channel_config-channel_frame 22 channel_config (omega arith) (omega arith) (omega arith)

name_valid : is_utf8 adc_reset ≡ true
unfolding is_utf8
name_valid = refl

write_function_lem_example :
    (1 ≤ length adc_reset
      → length adc_reset ≤ 31
      → (c : RpuWireCommand) × (from_afe_command 1 (AfeCommand.write_function board_one adc_reset 1)
          ≡ ok c)
        × (function_name c ≡ ok adc_reset)
        × (c.target ≡ RpuWireTarget.afe)
        × (c.afe_pl ≡ 4)
        × (c.value ≡ 1))
    × (length adc_reset ≡ 0
        → from_afe_command 1 (AfeCommand.write_function board_one adc_reset 1)
          ≡ err (RpuWireError.bad_payload "AFE function name is empty"))
    × (31 < length adc_reset
        → from_afe_command 1 (AfeCommand.write_function board_one adc_reset 1)
          ≡ err (RpuWireError.payload_too_long "AFE function name" 31 (length adc_reset)))
write_function_lem_example = write_function_lem 1 board_one adc_reset 1 name_valid
