-- ===== src/Server/Messages.antt =====
-- The protobuf messages of crates/daphne-sc-server/src/handlers.rs, with the fields of
-- proto/upstream/daphneV3_high_level_confs.proto, daphneV3_low_level_confs.proto and proto/daphne_sc.proto
-- that the handlers use. `u32` and `string` fields are numbers and texts, an `f64` is its 64 bits; what
-- decodes and encodes the bytes is generated and stays a parameter.
use daphne_sc.Prelude.{ℕ, List, Bool, Option, Result}
use daphne_sc.Text.{Text}
use daphne_sc.Server.Status.{SlowControlStatusResponse}

pub record CmdWriteAfeReg : Type 0 where
  pub afe_block : ℕ
  pub reg_address : ℕ
  pub reg_value : ℕ

pub record CmdWriteAfevgain : Type 0 where
  pub afe_block : ℕ
  pub vgain_value : ℕ

pub record CmdWriteAfeAttenuation : Type 0 where
  pub afe_block : ℕ
  pub attenuation : ℕ

pub record CmdWriteAfeBiasSet : Type 0 where
  pub afe_block : ℕ
  pub bias_value : ℕ

pub record CmdWriteTrimAllChannels : Type 0 where
  pub trim_value : ℕ
  pub trim_gain : Bool

pub record CmdWriteTrimAllAfe : Type 0 where
  pub afe_block : ℕ
  pub trim_value : ℕ
  pub trim_gain : Bool

pub record CmdWriteTrimSingleChannel : Type 0 where
  pub trim_channel : ℕ
  pub trim_value : ℕ
  pub trim_gain : Bool

pub record CmdWriteOffsetAllChannels : Type 0 where
  pub offset_value : ℕ
  pub offset_gain : Bool

pub record CmdWriteOffsetAllAfe : Type 0 where
  pub afe_block : ℕ
  pub offset_value : ℕ
  pub offset_gain : Bool

pub record CmdWriteOffsetSingleChannel : Type 0 where
  pub offset_channel : ℕ
  pub offset_value : ℕ
  pub offset_gain : Bool

pub record CmdWriteVbiasControl : Type 0 where
  pub v_bias_control_value : ℕ
  pub enable : Bool

pub record CmdReadAfeReg : Type 0 where
  pub afe_block : ℕ
  pub reg_address : ℕ

pub record CmdReadAfeVgain : Type 0 where
  pub afe_block : ℕ

pub record CmdReadAfeBiasSet : Type 0 where
  pub afe_block : ℕ

pub record CmdReadTrimAllAfe : Type 0 where
  pub afe_block : ℕ

pub record CmdReadTrimSingleChannel : Type 0 where
  pub trim_channel : ℕ

pub record CmdReadOffsetAllAfe : Type 0 where
  pub afe_block : ℕ

pub record CmdReadOffsetSingleChannel : Type 0 where
  pub offset_channel : ℕ

pub record CmdSetAfeReset : Type 0 where
  pub reset_value : Bool

pub record CmdSetAfePowerState : Type 0 where
  pub power_state : Bool

pub record CmdWriteAfeFunction : Type 0 where
  pub afe_block : ℕ
  pub function : Text
  pub config_value : ℕ

pub record CmdReadCurrentMonitor : Type 0 where
  pub current_monitor_channel : ℕ

pub record CmdReadBiasVoltageMonitor : Type 0 where
  pub afe_block : ℕ

pub record PbAdcConfig : Type 0 where
  pub resolution : Bool
  pub output_format : Bool
  pub sb_first : Bool

pub record PbPgaConfig : Type 0 where
  pub lpf_cut_frequency : ℕ
  pub integrator_disable : Bool
  pub gain : Bool

pub record PbLnaConfig : Type 0 where
  pub clamp : ℕ
  pub gain : ℕ
  pub integrator_disable : Bool

-- A message within a message may be missing.
pub record PbAfeConfig : Type 0 where
  pub id : ℕ
  pub attenuators : ℕ
  pub v_bias : ℕ
  pub adc : Option PbAdcConfig
  pub pga : Option PbPgaConfig
  pub lna : Option PbLnaConfig

pub record PbChannelConfig : Type 0 where
  pub id : ℕ
  pub trim : ℕ
  pub offset : ℕ
  pub gain : ℕ

pub record ConfigureRequest : Type 0 where
  pub biasctrl : ℕ
  pub channels : List PbChannelConfig
  pub afes : List PbAfeConfig

-- `ControlEnvelopeV2`; `dir` and `type` are enumerations.
pub record ControlEnvelopeV2 : Type 0 where
  pub version : ℕ
  pub dir : ℕ
  pub kind : ℕ
  pub payload : List ℕ
  pub task_id : ℕ
  pub msg_id : ℕ
  pub correl_id : ℕ
  pub route : Text
  pub timestamp_ns : ℕ

-- The messages of the responses; the arguments of each are its fields in the order of the .proto file.
pub data Response : Type 0 where
  configure : Bool → Text → Response
  write_afe_reg : Bool → Text → ℕ → ℕ → ℕ → Response
  write_afe_vgain : Bool → Text → ℕ → ℕ → Response
  write_afe_attenuation : Bool → Text → ℕ → ℕ → Response
  write_afe_bias_set : Bool → Text → ℕ → ℕ → Response
  write_trim_all_channels : Bool → Text → ℕ → Bool → Response
  write_trim_all_afe : Bool → Text → ℕ → ℕ → Bool → Response
  write_trim_single_channel : Bool → Text → ℕ → ℕ → Bool → Response
  write_offset_all_channels : Bool → Text → ℕ → Bool → Response
  write_offset_all_afe : Bool → Text → ℕ → ℕ → Bool → Response
  write_offset_single_channel : Bool → Text → ℕ → ℕ → Bool → Response
  write_vbias_control : Bool → Text → ℕ → Response
  read_afe_reg : Bool → Text → ℕ → ℕ → ℕ → Response
  read_afe_vgain : Bool → Text → ℕ → ℕ → Response
  read_afe_bias_set : Bool → Text → ℕ → ℕ → Response
  read_trim_all_channels : Bool → Text → List ℕ → Response
  read_trim_all_afe : Bool → Text → ℕ → List ℕ → Response
  read_trim_single_channel : Bool → Text → ℕ → ℕ → Response
  read_offset_all_channels : Bool → Text → List ℕ → Response
  read_offset_all_afe : Bool → Text → ℕ → List ℕ → Response
  read_offset_single_channel : Bool → Text → ℕ → ℕ → Response
  read_vbias_control : Bool → Text → ℕ → Response
  read_current_monitor : Bool → Text → ℕ → ℕ → Response
  read_bias_voltage_monitor : Bool → Text → ℕ → ℕ → Response
  set_afe_reset : Bool → Text → Bool → Response
  do_afe_reset : Bool → Text → Response
  set_afe_power_state : Bool → Text → ℕ → Response
  align_afes : Bool → List ℕ → List ℕ → Text → Response
  write_afe_function : Bool → Text → ℕ → Text → ℕ → Response
  test_reg : ℕ → Text → Response
  -- `GeneralInfo::default()`, the only one that is made
  general_info : Response
  slow_control_status : SlowControlStatusResponse → Response

-- The generated code that decodes a request, with the text of its error, and encodes a response.
pub record Codec : Type 0 where
  pub decode_configure : List ℕ → Result Text ConfigureRequest
  pub decode_write_afe_reg : List ℕ → Result Text CmdWriteAfeReg
  pub decode_write_afe_vgain : List ℕ → Result Text CmdWriteAfevgain
  pub decode_write_afe_attenuation : List ℕ → Result Text CmdWriteAfeAttenuation
  pub decode_write_afe_bias_set : List ℕ → Result Text CmdWriteAfeBiasSet
  pub decode_write_trim_all_channels : List ℕ → Result Text CmdWriteTrimAllChannels
  pub decode_write_trim_all_afe : List ℕ → Result Text CmdWriteTrimAllAfe
  pub decode_write_trim_single_channel : List ℕ → Result Text CmdWriteTrimSingleChannel
  pub decode_write_offset_all_channels : List ℕ → Result Text CmdWriteOffsetAllChannels
  pub decode_write_offset_all_afe : List ℕ → Result Text CmdWriteOffsetAllAfe
  pub decode_write_offset_single_channel : List ℕ → Result Text CmdWriteOffsetSingleChannel
  pub decode_write_vbias_control : List ℕ → Result Text CmdWriteVbiasControl
  pub decode_read_afe_reg : List ℕ → Result Text CmdReadAfeReg
  pub decode_read_afe_vgain : List ℕ → Result Text CmdReadAfeVgain
  pub decode_read_afe_bias_set : List ℕ → Result Text CmdReadAfeBiasSet
  pub decode_read_trim_all_channels : List ℕ → Result Text (Unit {0})
  pub decode_read_trim_all_afe : List ℕ → Result Text CmdReadTrimAllAfe
  pub decode_read_trim_single_channel : List ℕ → Result Text CmdReadTrimSingleChannel
  pub decode_read_offset_all_channels : List ℕ → Result Text (Unit {0})
  pub decode_read_offset_all_afe : List ℕ → Result Text CmdReadOffsetAllAfe
  pub decode_read_offset_single_channel : List ℕ → Result Text CmdReadOffsetSingleChannel
  pub decode_read_vbias_control : List ℕ → Result Text (Unit {0})
  pub decode_set_afe_reset : List ℕ → Result Text CmdSetAfeReset
  pub decode_do_afe_reset : List ℕ → Result Text (Unit {0})
  pub decode_set_afe_power_state : List ℕ → Result Text CmdSetAfePowerState
  pub decode_align_afes : List ℕ → Result Text (Unit {0})
  pub decode_write_afe_function : List ℕ → Result Text CmdWriteAfeFunction
  pub decode_read_current_monitor : List ℕ → Result Text CmdReadCurrentMonitor
  pub decode_read_bias_voltage_monitor : List ℕ → Result Text CmdReadBiasVoltageMonitor
  pub decode_slow_control_status : List ℕ → Result Text (Unit {0})
  pub encode : Response → List ℕ
  pub decode_envelope : List ℕ → Result Text ControlEnvelopeV2
  pub encode_envelope : ControlEnvelopeV2 → List ℕ
