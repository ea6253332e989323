-- ===== src/Wire/FromAfe/Records.antt =====
-- The records that a frontend configuration is sent in, read back by the helpers of the receiver.
use daphne_sc.Prelude.{ℕ, ◌≤◌, ◌≡◌, arith, ok}
use daphne_sc.Afe.{AfeFrontendConfig, ChannelFrontendConfig}
use daphne_sc.Wire.Error.{require_op, require_u16, u16_max}
use daphne_sc.Wire.Payload.{RpuWireConfigCounts, RpuWireAfeConfig, RpuWireChannelConfig}
use daphne_sc.Wire.Payload.{configure_counts, afe_config, channel_config}
use daphne_sc.Wire.Payload.Laws.{unpack_u16_pair-pack_u16_pair, unpack_adc-pack_adc}
use daphne_sc.Wire.Payload.Laws.{unpack_pga-pack_pga_flags, unpack_lna-of_bool}
use daphne_sc.Wire.FromAfe.{begin_frame, afe_frame, channel_frame}

-- What the receiver is to see of each record.
abbrev pub counts_view : ℕ → ℕ → ℕ → RpuWireConfigCounts
counts_view afes channels bias_control = record {
  afe_count = afes;
  channel_count = channels;
  bias_control = bias_control;
}

abbrev pub afe_view : AfeFrontendConfig → RpuWireAfeConfig
afe_view config = record {
  afe_board = config.afe.board;
  afe_pl = config.afe.pl;
  attenuation = config.attenuation;
  bias = config.bias;
  adc = config.adc;
  pga = config.pga;
  lna = config.lna;
}

abbrev pub channel_view : ChannelFrontendConfig → RpuWireChannelConfig
channel_view config = record {
  channel = config.channel.channel;
  afe_board = config.channel.afe.board;
  afe_pl = config.channel.afe.pl;
  afe_channel = config.channel.afe_channel;
  trim = config.trim;
  offset = config.offset;
  gain = config.gain;
}

module _ (sequence : ℕ) where
  -- From a begin frame made with counts and a bias control of at most 65535, under any sequence number,
  -- the receiver reads these numbers back.
  pub configure_counts-begin_frame :
      (afes channels bias_control : ℕ)
      → afes ≤ u16_max
      → channels ≤ u16_max
      → bias_control ≤ u16_max
      → configure_counts (begin_frame sequence afes channels bias_control)
        ≡ ok (counts_view afes channels bias_control)
  unfolding configure_counts begin_frame require_op require_u16
  configure_counts-begin_frame afes channels bias_control ha hc hb =
      ground (arith, unpack_u16_pair-pack_u16_pair afes channels)

  -- From the frame of an AFE configuration whose attenuation and bias are at most 65535, under any
  -- sequence number, the receiver reads the whole configuration back: the board and PL numbers, the two
  -- DAC values, and every ADC, PGA and LNA field.
  pub afe_config-afe_frame :
      (config : AfeFrontendConfig)
      → config.attenuation ≤ u16_max
      → config.bias ≤ u16_max
      → afe_config (afe_frame sequence config) ≡ ok (afe_view config)
  unfolding afe_config afe_frame require_op require_u16
  afe_config-afe_frame config ha hb = ground (
    arith,
    unpack_adc-pack_adc config.adc,
    unpack_pga-pack_pga_flags config.pga,
    unpack_lna-of_bool config.lna,
  )

  -- From the frame of a channel configuration whose trim, offset and gain are at most 65535, under any
  -- sequence number, the receiver reads the whole configuration back, the AFE of the channel included.
  pub channel_config-channel_frame :
      (config : ChannelFrontendConfig)
      → config.trim ≤ u16_max
      → config.offset ≤ u16_max
      → config.gain ≤ u16_max
      → channel_config (channel_frame sequence config) ≡ ok (channel_view config)
  unfolding channel_config channel_frame require_op require_u16
  channel_config-channel_frame config ht ho hg =
      ground (arith, unpack_u16_pair-pack_u16_pair config.offset config.gain)
