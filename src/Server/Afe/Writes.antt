-- ===== src/Server/Afe/Writes.antt =====
-- The handlers of crates/daphne-sc-server/src/handlers.rs that write to an AFE.
use daphne_sc.Prelude.{ℕ, List, [], false, ◌>>=◌}
use daphne_sc.Afe.{ChannelTarget}
use daphne_sc.Text.{Text}
use daphne_sc.Rpu.{RpuAfeTransport}
use daphne_sc.Server.Status.{unwrap_or}
use daphne_sc.Server.Messages.{Response, Codec}
use daphne_sc.Server.Commands.{
  afe_id, channel_id, make_write_register, make_set_attenuation, make_set_bias, make_set_trim,
  make_set_offset, make_set_vbias_control, make_write_function, configure_command,
}
use daphne_sc.Server.Submit.{exchange, bad_payload, map_ok}

module _ (c : Codec) {T : Type 0} (rpu : RpuAfeTransport T) where
  unfoldable pub handle_configure_fe : List ℕ → T → T × List ℕ
  handle_configure_fe =
      exchange c rpu c.decode_configure
        (λ e. Response.configure false (bad_payload "ConfigureRequest" e))
        (λ req. configure_command req) (λ req e. Response.configure false e)
        (λ req outcome. Response.configure outcome.success outcome.message)

  abbrev bad_write_afe_reg : Text → Response
  bad_write_afe_reg message = Response.write_afe_reg false message 0 0 0

  unfoldable pub handle_write_afe_reg : List ℕ → T → T × List ℕ
  handle_write_afe_reg =
      exchange c rpu c.decode_write_afe_reg
        (λ e. bad_write_afe_reg (bad_payload "cmd_writeAFEReg" e))
        (λ req. make_write_register req.afe_block req.reg_address req.reg_value)
        (λ req e. bad_write_afe_reg e)
        (λ req outcome.
          Response.write_afe_reg outcome.success outcome.message req.afe_block req.reg_address
            (unwrap_or outcome.readback 0))

  abbrev bad_write_afe_vgain : Text → Response
  bad_write_afe_vgain message = Response.write_afe_vgain false message 0 0

  unfoldable pub handle_write_afe_vgain : List ℕ → T → T × List ℕ
  handle_write_afe_vgain =
      exchange c rpu c.decode_write_afe_vgain
        (λ e. bad_write_afe_vgain (bad_payload "cmd_writeAFEVGAIN" e))
        (λ req. make_set_attenuation req.afe_block req.vgain_value) (λ req e. bad_write_afe_vgain e)
        (λ req outcome.
          Response.write_afe_vgain outcome.success outcome.message req.afe_block
            (unwrap_or outcome.readback 0))

  abbrev bad_write_afe_attenuation : Text → Response
  bad_write_afe_attenuation message = Response.write_afe_attenuation false message 0 0

  unfoldable pub handle_write_afe_attenuation : List ℕ → T → T × List ℕ
  handle_write_afe_attenuation =
      exchange c rpu c.decode_write_afe_attenuation
        (λ e. bad_write_afe_attenuation (bad_payload "cmd_writeAFEAttenuation" e))
        (λ req. make_set_attenuation req.afe_block req.attenuation)
        (λ req e. bad_write_afe_attenuation e)
        (λ req outcome.
          Response.write_afe_attenuation outcome.success outcome.message req.afe_block
            (unwrap_or outcome.readback 0))

  abbrev bad_write_afe_bias : Text → Response
  bad_write_afe_bias message = Response.write_afe_bias_set false message 0 0

  unfoldable pub handle_write_afe_bias : List ℕ → T → T × List ℕ
  handle_write_afe_bias =
      exchange c rpu c.decode_write_afe_bias_set
        (λ e. bad_write_afe_bias (bad_payload "cmd_writeAFEBiasSet" e))
        (λ req. make_set_bias req.afe_block req.bias_value) (λ req e. bad_write_afe_bias e)
        (λ req outcome.
          Response.write_afe_bias_set outcome.success outcome.message req.afe_block
            (unwrap_or outcome.readback 0))

  abbrev bad_write_vbias_control : Text → Response
  bad_write_vbias_control message = Response.write_vbias_control false message 0

  unfoldable pub handle_write_vbias_control : List ℕ → T → T × List ℕ
  handle_write_vbias_control =
      exchange c rpu c.decode_write_vbias_control
        (λ e. bad_write_vbias_control (bad_payload "cmd_writeVbiasControl" e))
        (λ req. make_set_vbias_control req.v_bias_control_value req.enable)
        (λ req e. bad_write_vbias_control e)
        (λ req outcome.
          Response.write_vbias_control outcome.success outcome.message
            (unwrap_or outcome.readback 0))

  unfoldable pub handle_write_afe_function : List ℕ → T → T × List ℕ
  handle_write_afe_function =
      exchange c rpu c.decode_write_afe_function
        (λ e. Response.write_afe_function false (bad_payload "cmd_writeAFEFunction" e) 0 [] 0)
        (λ req. make_write_function req.afe_block req.function req.config_value)
        (λ req e. Response.write_afe_function false e req.afe_block req.function req.config_value)
        (λ req outcome.
          Response.write_afe_function outcome.success outcome.message req.afe_block req.function
            (unwrap_or outcome.readback 0))

  abbrev bad_write_trim_channel : Text → Response
  bad_write_trim_channel message = Response.write_trim_single_channel false message 0 0 false

  unfoldable pub handle_write_trim_channel : List ℕ → T → T × List ℕ
  handle_write_trim_channel =
      exchange c rpu c.decode_write_trim_single_channel
        (λ e. bad_write_trim_channel (bad_payload "cmd_writeTrim_singleChannel" e))
        (λ req. map_ok ChannelTarget.one (channel_id req.trim_channel) >>= λ target.
          make_set_trim target req.trim_value req.trim_gain)
        (λ req e. bad_write_trim_channel e)
        (λ req outcome.
          Response.write_trim_single_channel outcome.success outcome.message req.trim_channel
            (unwrap_or outcome.readback 0) req.trim_gain)

  abbrev bad_write_trim_all_channels : Text → Response
  bad_write_trim_all_channels message = Response.write_trim_all_channels false message 0 false

  unfoldable pub handle_write_trim_all_channels : List ℕ → T → T × List ℕ
  handle_write_trim_all_channels =
      exchange c rpu c.decode_write_trim_all_channels
        (λ e. bad_write_trim_all_channels (bad_payload "cmd_writeTRIM_allChannels" e))
        (λ req. make_set_trim ChannelTarget.all req.trim_value req.trim_gain)
        (λ req e. bad_write_trim_all_channels e)
        (λ req outcome.
          Response.write_trim_all_channels outcome.success outcome.message
            (unwrap_or outcome.readback 0) req.trim_gain)

  abbrev bad_write_trim_all_afe : Text → Response
  bad_write_trim_all_afe message = Response.write_trim_all_afe false message 0 0 false

  unfoldable pub handle_write_trim_all_afe : List ℕ → T → T × List ℕ
  handle_write_trim_all_afe =
      exchange c rpu c.decode_write_trim_all_afe
        (λ e. bad_write_trim_all_afe (bad_payload "cmd_writeTrim_allAFE" e))
        (λ req. map_ok ChannelTarget.afe (afe_id req.afe_block) >>= λ target.
          make_set_trim target req.trim_value req.trim_gain)
        (λ req e. bad_write_trim_all_afe e)
        (λ req outcome.
          Response.write_trim_all_afe outcome.success outcome.message req.afe_block
            (unwrap_or outcome.readback 0) req.trim_gain)

  abbrev bad_write_offset_channel : Text → Response
  bad_write_offset_channel message = Response.write_offset_single_channel false message 0 0 false

  unfoldable pub handle_write_offset_channel : List ℕ → T → T × List ℕ
  handle_write_offset_channel =
      exchange c rpu c.decode_write_offset_single_channel
        (λ e. bad_write_offset_channel (bad_payload "cmd_writeOFFSET_singleChannel" e))
        (λ req. map_ok ChannelTarget.one (channel_id req.offset_channel) >>= λ target.
          make_set_offset target req.offset_value req.offset_gain)
        (λ req e. bad_write_offset_channel e)
        (λ req outcome.
          Response.write_offset_single_channel outcome.success outcome.message req.offset_channel
            (unwrap_or outcome.readback 0) req.offset_gain)

  abbrev bad_write_offset_all_channels : Text → Response
  bad_write_offset_all_channels message = Response.write_offset_all_channels false message 0 false

  unfoldable pub handle_write_offset_all_channels : List ℕ → T → T × List ℕ
  handle_write_offset_all_channels =
      exchange c rpu c.decode_write_offset_all_channels
        (λ e. bad_write_offset_all_channels (bad_payload "cmd_writeOFFSET_allChannels" e))
        (λ req. make_set_offset ChannelTarget.all req.offset_value req.offset_gain)
        (λ req e. bad_write_offset_all_channels e)
        (λ req outcome.
          Response.write_offset_all_channels outcome.success outcome.message
            (unwrap_or outcome.readback 0) req.offset_gain)

  abbrev bad_write_offset_all_afe : Text → Response
  bad_write_offset_all_afe message = Response.write_offset_all_afe false message 0 0 false

  unfoldable pub handle_write_offset_all_afe : List ℕ → T → T × List ℕ
  handle_write_offset_all_afe =
      exchange c rpu c.decode_write_offset_all_afe
        (λ e. bad_write_offset_all_afe (bad_payload "cmd_writeOFFSET_allAFE" e))
        (λ req. map_ok ChannelTarget.afe (afe_id req.afe_block) >>= λ target.
          make_set_offset target req.offset_value req.offset_gain)
        (λ req e. bad_write_offset_all_afe e)
        (λ req outcome.
          Response.write_offset_all_afe outcome.success outcome.message req.afe_block
            (unwrap_or outcome.readback 0) req.offset_gain)
