-- ===== src/Server/Commands.antt =====
-- From the numbers of a request to an AFE command: `configure_command` and the `make_` functions of
-- crates/daphne-sc-server/src/handlers.rs.

pub mod Ranges
use daphne_sc.Prelude.{ℕ, ◌^◌, List, [], ◌∷◌, ◌++◌, Bool, Option, none, some, ltb, if◌then◌else◌}
use daphne_sc.Prelude.{false, Result, ok, err, map_err, ◌>>=◌}
use daphne_sc.Afe.{
  AfeId, ChannelId, ChannelTarget, AfeFrontendConfig, ChannelFrontendConfig, AfeCommand,
}
use daphne_sc.Afe.{from_board, new_channel}
use daphne_sc.Text.{Text, ascii, decimal, validation_error_text}
use daphne_sc.Server.Status.{unwrap_or}
use daphne_sc.Server.Messages.{
  PbAdcConfig, PbPgaConfig, PbLnaConfig, PbAfeConfig, PbChannelConfig, ConfigureRequest,
}

unfoldable pub u8_value : Text → ℕ → Result Text ℕ
u8_value name value =
    if ltb value (2 ^ 8)
    then ok value
    else err (name ++ ascii " out of range for u8: " ++ decimal value)

unfoldable pub u16_value : Text → ℕ → Result Text ℕ
u16_value name value =
    if ltb value (2 ^ 16)
    then ok value
    else err (name ++ ascii " out of range for u16: " ++ decimal value)

unfoldable pub afe_id : ℕ → Result Text AfeId
afe_id value = do
  afe ← u8_value (ascii "afeBlock") value
  map_err validation_error_text (from_board afe)

unfoldable pub channel_id : ℕ → Result Text ChannelId
channel_id value = do
  channel ← u8_value (ascii "channel") value
  map_err validation_error_text (new_channel channel)

unfoldable pub make_read_register : ℕ → ℕ → Result Text AfeCommand
make_read_register afe_block reg_address = do
  afe ← afe_id afe_block
  register ← u8_value (ascii "regAddress") reg_address
  ok (AfeCommand.read_register afe register)

unfoldable pub make_write_register : ℕ → ℕ → ℕ → Result Text AfeCommand
make_write_register afe_block reg_address reg_value = do
  afe ← afe_id afe_block
  register ← u8_value (ascii "regAddress") reg_address
  value ← u16_value (ascii "regValue") reg_value
  ok (AfeCommand.write_register afe register value)

unfoldable pub make_set_attenuation : ℕ → ℕ → Result Text AfeCommand
make_set_attenuation afe_block value = do
  afe ← afe_id afe_block
  value ← u16_value (ascii "attenuation") value
  ok (AfeCommand.set_attenuation afe value)

unfoldable pub make_set_bias : ℕ → ℕ → Result Text AfeCommand
make_set_bias afe_block value = do
  afe ← afe_id afe_block
  value ← u16_value (ascii "biasValue") value
  ok (AfeCommand.set_bias afe value)

unfoldable pub make_set_trim : ChannelTarget → ℕ → Bool → Result Text AfeCommand
make_set_trim target value gain = do
  value ← u16_value (ascii "trimValue") value
  ok (AfeCommand.set_trim target value gain)

unfoldable pub make_set_offset : ChannelTarget → ℕ → Bool → Result Text AfeCommand
make_set_offset target value gain = do
  value ← u16_value (ascii "offsetValue") value
  ok (AfeCommand.set_offset target value gain)

unfoldable pub make_set_vbias_control : ℕ → Bool → Result Text AfeCommand
make_set_vbias_control value enable = do
  value ← u16_value (ascii "vBiasControlValue") value
  ok (AfeCommand.set_vbias_control value enable)

unfoldable pub make_write_function : ℕ → Text → ℕ → Result Text AfeCommand
make_write_function afe_block name value = do
  afe ← afe_id afe_block
  value ← u16_value (ascii "configValue") value
  ok (AfeCommand.write_function afe name value)

-- What `unwrap_or_default` puts for a missing message.
abbrev default_adc : PbAdcConfig
default_adc = record { resolution = false; output_format = false; sb_first = false }

abbrev default_pga : PbPgaConfig
default_pga = record { lpf_cut_frequency = 0; integrator_disable = false; gain = false }

abbrev default_lna : PbLnaConfig
default_lna = record { clamp = 0; gain = 0; integrator_disable = false }

-- A round of the first loop of `configure_command`.
unfoldable pub afe_config : PbAfeConfig → Result Text AfeFrontendConfig
afe_config config = do
  let adc = unwrap_or config.adc default_adc
  let pga = unwrap_or config.pga default_pga
  let lna = unwrap_or config.lna default_lna
  afe ← afe_id config.id
  attenuation ← u16_value (ascii "attenuators") config.attenuators
  bias ← u16_value (ascii "v_bias") config.v_bias
  lpf_cut_frequency ← u8_value (ascii "pga.lpf_cut_frequency") pga.lpf_cut_frequency
  clamp ← u8_value (ascii "lna.clamp") lna.clamp
  gain ← u8_value (ascii "lna.gain") lna.gain
  ok (record {
    afe = afe;
    attenuation = attenuation;
    bias = bias;
    adc = record {
      resolution = adc.resolution;
      output_format = adc.output_format;
      msb_first = adc.sb_first;
    };
    pga = record {
      lpf_cut_frequency = lpf_cut_frequency;
      integrator_disable = pga.integrator_disable;
      gain = pga.gain;
    };
    lna = record { clamp = clamp; gain = gain; integrator_disable = lna.integrator_disable };
  })

-- A round of the second loop.
unfoldable pub channel_config : PbChannelConfig → Result Text ChannelFrontendConfig
channel_config config = do
  channel ← channel_id config.id
  trim ← u16_value (ascii "trim") config.trim
  offset ← u16_value (ascii "offset") config.offset
  gain ← u16_value (ascii "gain") config.gain
  ok (record { channel = channel; trim = trim; offset = offset; gain = gain })

-- The loops, which stop at the first error.
unfoldable pub collect_ok : {A B : Type 0} → (A → Result Text B) → List A → Result Text (List B)
collect_ok f [] = ok []
collect_ok f (x ∷ xs) = do y ← f x; ys ← collect_ok f xs; ok (y ∷ ys)

unfoldable pub configure_command : ConfigureRequest → Result Text AfeCommand
configure_command req = do
  afes ← collect_ok afe_config req.afes
  channels ← collect_ok channel_config req.channels
  bias_control ← u16_value (ascii "biasctrl") req.biasctrl
  ok (AfeCommand.configure_frontend afes channels bias_control)
