-- ===== src/Server/Afe/Reads.antt =====
-- The handlers of crates/daphne-sc-server/src/handlers.rs that read from an AFE or control all of them.
use daphne_sc.Prelude.{ℕ, List, [], false, of_bool, ok}
use daphne_sc.Afe.{ChannelTarget, AfeCommand}
use daphne_sc.Text.{Text}
use daphne_sc.Rpu.{RpuAfeTransport}
use daphne_sc.Server.Status.{unwrap_or}
use daphne_sc.Server.Messages.{Response, Codec}
use daphne_sc.Server.Commands.{afe_id, channel_id, make_read_register}
use daphne_sc.Server.Submit.{exchange, bad_payload, map_ok}

module _ (c : Codec) {T : Type 0} (rpu : RpuAfeTransport T) where
  abbrev bad_read_afe_reg : Text → Response
  bad_read_afe_reg message = Response.read_afe_reg false message 0 0 0

  unfoldable pub handle_read_afe_reg : List ℕ → T → T × List ℕ
  handle_read_afe_reg =
      exchange c rpu c.decode_read_afe_reg (λ e. bad_read_afe_reg (bad_payload "cmd_readAFEReg" e))
        (λ req. make_read_register req.afe_block req.reg_address) (λ req e. bad_read_afe_reg e)
        (λ req outcome.
          Response.read_afe_reg outcome.success outcome.message req.afe_block req.reg_address
            (unwrap_or outcome.readback 0))

  abbrev bad_read_afe_vgain : Text → Response
  bad_read_afe_vgain message = Response.read_afe_vgain false message 0 0

  unfoldable pub handle_read_afe_vgain : List ℕ → T → T × List ℕ
  handle_read_afe_vgain =
      exchange c rpu c.decode_read_afe_vgain
        (λ e. bad_read_afe_vgain (bad_payload "cmd_readAFEVgain" e))
        (λ req. map_ok AfeCommand.read_attenuation (afe_id req.afe_block))
        (λ req e. bad_read_afe_vgain e)
        (λ req outcome.
          Response.read_afe_vgain outcome.success outcome.message req.afe_block
            (unwrap_or outcome.readback 0))

  abbrev bad_read_afe_bias : Text → Response
  bad_read_afe_bias message = Response.read_afe_bias_set false message 0 0

  unfoldable pub handle_read_afe_bias : List ℕ → T → T × List ℕ
  handle_read_afe_bias =
      exchange c rpu c.decode_read_afe_bias_set
        (λ e. bad_read_afe_bias (bad_payload "cmd_readAFEBiasSet" e))
        (λ req. map_ok AfeCommand.read_bias (afe_id req.afe_block)) (λ req e. bad_read_afe_bias e)
        (λ req outcome.
          Response.read_afe_bias_set outcome.success outcome.message req.afe_block
            (unwrap_or outcome.readback 0))

  abbrev bad_read_trim_channel : Text → Response
  bad_read_trim_channel message = Response.read_trim_single_channel false message 0 0

  unfoldable pub handle_read_trim_channel : List ℕ → T → T × List ℕ
  handle_read_trim_channel =
      exchange c rpu c.decode_read_trim_single_channel
        (λ e. bad_read_trim_channel (bad_payload "cmd_readTrim_singleChannel" e))
        (λ req.
          map_ok (λ channel. AfeCommand.read_trim (ChannelTarget.one channel))
            (channel_id req.trim_channel))
        (λ req e. bad_read_trim_channel e)
        (λ req outcome.
          Response.read_trim_single_channel outcome.success outcome.message req.trim_channel
            (unwrap_or outcome.readback 0))

  unfoldable pub handle_read_trim_all_channels : List ℕ → T → T × List ℕ
  handle_read_trim_all_channels =
      exchange c rpu c.decode_read_trim_all_channels
        (λ e. Response.read_trim_all_channels false (bad_payload "cmd_readTrim_allChannels" e) [])
        (λ req. ok (AfeCommand.read_trim ChannelTarget.all))
        (λ req e. Response.read_trim_all_channels false e [])
        (λ req outcome. Response.read_trim_all_channels outcome.success outcome.message [])

  unfoldable pub handle_read_trim_all_afe : List ℕ → T → T × List ℕ
  handle_read_trim_all_afe =
      exchange c rpu c.decode_read_trim_all_afe
        (λ e. Response.read_trim_all_afe false (bad_payload "cmd_readTrim_allAFE" e) 0 [])
        (λ req. map_ok (λ afe. AfeCommand.read_trim (ChannelTarget.afe afe)) (afe_id req.afe_block))
        (λ req e. Response.read_trim_all_afe false e req.afe_block [])
        (λ req outcome. Response.read_trim_all_afe outcome.success outcome.message req.afe_block [])

  abbrev bad_read_offset_channel : Text → Response
  bad_read_offset_channel message = Response.read_offset_single_channel false message 0 0

  unfoldable pub handle_read_offset_channel : List ℕ → T → T × List ℕ
  handle_read_offset_channel =
      exchange c rpu c.decode_read_offset_single_channel
        (λ e. bad_read_offset_channel (bad_payload "cmd_readOffset_singleChannel" e))
        (λ req.
          map_ok (λ channel. AfeCommand.read_offset (ChannelTarget.one channel))
            (channel_id req.offset_channel))
        (λ req e. bad_read_offset_channel e)
        (λ req outcome.
          Response.read_offset_single_channel outcome.success outcome.message req.offset_channel
            (unwrap_or outcome.readback 0))

  unfoldable pub handle_read_offset_all_channels : List ℕ → T → T × List ℕ
  handle_read_offset_all_channels =
      exchange c rpu c.decode_read_offset_all_channels
        (λ e.
          Response.read_offset_all_channels false (bad_payload "cmd_readOffset_allChannels" e) [])
        (λ req. ok (AfeCommand.read_offset ChannelTarget.all))
        (λ req e. Response.read_offset_all_channels false e [])
        (λ req outcome. Response.read_offset_all_channels outcome.success outcome.message [])

  unfoldable pub handle_read_offset_all_afe : List ℕ → T → T × List ℕ
  handle_read_offset_all_afe =
      exchange c rpu c.decode_read_offset_all_afe
        (λ e. Response.read_offset_all_afe false (bad_payload "cmd_readOffset_allAFE" e) 0 [])
        (λ req.
          map_ok (λ afe. AfeCommand.read_offset (ChannelTarget.afe afe)) (afe_id req.afe_block))
        (λ req e. Response.read_offset_all_afe false e req.afe_block [])
        (λ req outcome.
          Response.read_offset_all_afe outcome.success outcome.message req.afe_block [])

  unfoldable pub handle_read_vbias_control : List ℕ → T → T × List ℕ
  handle_read_vbias_control =
      exchange c rpu c.decode_read_vbias_control
        (λ e. Response.read_vbias_control false (bad_payload "cmd_readVbiasControl" e) 0)
        (λ req. ok AfeCommand.read_vbias_control) (λ req e. Response.read_vbias_control false e 0)
        (λ req outcome.
          Response.read_vbias_control outcome.success outcome.message
            (unwrap_or outcome.readback 0))

  unfoldable pub handle_set_afe_reset : List ℕ → T → T × List ℕ
  handle_set_afe_reset =
      exchange c rpu c.decode_set_afe_reset
        (λ e. Response.set_afe_reset false (bad_payload "cmd_setAFEReset" e) false)
        (λ req. ok (AfeCommand.set_reset req.reset_value))
        (λ req e. Response.set_afe_reset false e false)
        (λ req outcome. Response.set_afe_reset outcome.success outcome.message req.reset_value)

  unfoldable pub handle_do_afe_reset : List ℕ → T → T × List ℕ
  handle_do_afe_reset =
      exchange c rpu c.decode_do_afe_reset
        (λ e. Response.do_afe_reset false (bad_payload "cmd_doAFEReset" e))
        (λ req. ok AfeCommand.do_reset) (λ req e. Response.do_afe_reset false e)
        (λ req outcome. Response.do_afe_reset outcome.success outcome.message)

  unfoldable pub handle_set_afe_power_state : List ℕ → T → T × List ℕ
  handle_set_afe_power_state =
      exchange c rpu c.decode_set_afe_power_state
        (λ e. Response.set_afe_power_state false (bad_payload "cmd_setAFEPowerState" e) 0)
        (λ req. ok (AfeCommand.set_power_state req.power_state))
        (λ req e. Response.set_afe_power_state false e 0)
        (λ req outcome.
          Response.set_afe_power_state outcome.success outcome.message
            (unwrap_or outcome.readback (of_bool req.power_state)))
