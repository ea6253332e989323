-- ===== src/Afe/InRange.antt =====
-- The ranges that the field types of crates/daphne-sc-core/src/afe.rs give to a command.
use daphne_sc.Prelude.{ℕ, ◌<◌, ◌^◌, All}
use daphne_sc.Bytes.{IsByte}
use daphne_sc.Afe.{ChannelTarget, AfeFrontendConfig, ChannelFrontendConfig, AfeCommand}
use daphne_sc.Afe.Ids.{IsAfe, IsChannel}

abbrev pub IsU16 : ℕ → Type 0
IsU16 v = v < 2 ^ 16

abbrev pub IsTarget : ChannelTarget → Type 0
IsTarget (ChannelTarget.one c) = IsChannel c
IsTarget (ChannelTarget.afe a) = IsAfe a
IsTarget ChannelTarget.all = Unit

pub record IsAfeConfig (config : AfeFrontendConfig) : Type 0 where
  pub afe : IsAfe config.afe
  pub attenuation_lt : IsU16 config.attenuation
  pub bias_lt : IsU16 config.bias
  pub lpf_lt : config.pga.lpf_cut_frequency < 256
  pub clamp_lt : config.lna.clamp < 256
  pub gain_lt : config.lna.gain < 256

pub record IsChannelConfig (config : ChannelFrontendConfig) : Type 0 where
  pub channel : IsChannel config.channel
  pub trim_lt : IsU16 config.trim
  pub offset_lt : IsU16 config.offset
  pub gain_lt : IsU16 config.gain

abbrev pub InRange : AfeCommand → Type 0
InRange (AfeCommand.read_register afe register) = IsAfe afe × (register < 256)
InRange (AfeCommand.write_register afe register value) = IsAfe afe × (register < 256) × IsU16 value
InRange (AfeCommand.read_attenuation afe) = IsAfe afe
InRange (AfeCommand.set_attenuation afe value) = IsAfe afe × IsU16 value
InRange (AfeCommand.read_bias afe) = IsAfe afe
InRange (AfeCommand.set_bias afe value) = IsAfe afe × IsU16 value
InRange (AfeCommand.read_trim target) = IsTarget target
InRange (AfeCommand.set_trim target value _) = IsTarget target × IsU16 value
InRange (AfeCommand.read_offset target) = IsTarget target
InRange (AfeCommand.set_offset target value _) = IsTarget target × IsU16 value
InRange (AfeCommand.set_vbias_control value _) = IsU16 value
InRange (AfeCommand.write_function afe name value) = IsAfe afe × All IsByte name × IsU16 value
InRange (AfeCommand.read_alignment afe) = IsAfe afe
InRange (AfeCommand.configure_frontend afes channels bias_control) =
    All IsAfeConfig afes × All IsChannelConfig channels × IsU16 bias_control
InRange _ = Unit
