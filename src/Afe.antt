-- ===== src/Afe.antt =====
-- crates/daphne-sc-core/src/afe.rs: AFE and channel identifiers, the AFE commands and their
-- validation. An integer of the source is a number with its range stated where it matters, and a
-- `&str` is the list of its UTF-8 bytes.
pub mod Ids
pub mod InRange
pub mod Validation
use daphne_sc.Prelude.{ℕ, ◌*◌, ◌/◌, ◌%◌, List, [], ◌∷◌, Bool, get_elem?}
use daphne_sc.Prelude.{ltb, leb, if◌then◌else◌, Result, ok, err, ok_or, ◌>>=◌, ◌>>◌}

abbrev pub afe_count : ℕ
afe_count = 5

abbrev pub channels_per_afe : ℕ
channels_per_afe = 8

abbrev pub channel_count : ℕ
channel_count = afe_count * channels_per_afe

abbrev pub dac_12bit_max : ℕ
dac_12bit_max = 4095

abbrev pub afe_board_to_pl : List ℕ
afe_board_to_pl = 0 ∷ 4 ∷ 3 ∷ 2 ∷ 1 ∷ []

abbrev pub afe_pl_to_board : List ℕ
afe_pl_to_board = 0 ∷ 4 ∷ 3 ∷ 2 ∷ 1 ∷ []

pub data AfeValidationError : Type 0 where
  afe_out_of_range : ℕ → AfeValidationError
  channel_out_of_range : ℕ → AfeValidationError
  -- the value and the maximum
  value_out_of_range : ℕ → ℕ → AfeValidationError

pub record AfeId : Type 0 where
  pub board : ℕ
  pub pl : ℕ

unfoldable pub from_board : ℕ → Result AfeValidationError AfeId
from_board board = do
  pl ← ok_or (get_elem? afe_board_to_pl board) (AfeValidationError.afe_out_of_range board)
  ok (record { board = board; pl = pl })

pub record ChannelId : Type 0 where
  pub channel : ℕ
  pub afe : AfeId
  pub afe_channel : ℕ

-- `ChannelId::new`
unfoldable pub new_channel : ℕ → Result AfeValidationError ChannelId
new_channel channel =
    if leb channel_count channel then err (AfeValidationError.channel_out_of_range channel) else do
      let board_afe = channel / channels_per_afe
      let afe_channel = channel % channels_per_afe
      afe ← from_board board_afe
      ok (record { channel = channel; afe = afe; afe_channel = afe_channel })

pub data ChannelTarget : Type 0 where
  one : ChannelId → ChannelTarget
  afe : AfeId → ChannelTarget
  all : ChannelTarget

pub record AdcConfig : Type 0 where
  pub resolution : Bool
  pub output_format : Bool
  pub msb_first : Bool

pub record PgaConfig : Type 0 where
  pub lpf_cut_frequency : ℕ
  pub integrator_disable : Bool
  pub gain : Bool

pub record LnaConfig : Type 0 where
  pub clamp : ℕ
  pub gain : ℕ
  pub integrator_disable : Bool

pub record AfeFrontendConfig : Type 0 where
  pub afe : AfeId
  pub attenuation : ℕ
  pub bias : ℕ
  pub adc : AdcConfig
  pub pga : PgaConfig
  pub lna : LnaConfig

pub record ChannelFrontendConfig : Type 0 where
  pub channel : ChannelId
  pub trim : ℕ
  pub offset : ℕ
  pub gain : ℕ

-- The fields of each variant in the order of the source.
pub data AfeCommand : Type 0 where
  read_register : AfeId → ℕ → AfeCommand
  write_register : AfeId → ℕ → ℕ → AfeCommand
  read_attenuation : AfeId → AfeCommand
  set_attenuation : AfeId → ℕ → AfeCommand
  read_bias : AfeId → AfeCommand
  set_bias : AfeId → ℕ → AfeCommand
  read_trim : ChannelTarget → AfeCommand
  set_trim : ChannelTarget → ℕ → Bool → AfeCommand
  read_offset : ChannelTarget → AfeCommand
  set_offset : ChannelTarget → ℕ → Bool → AfeCommand
  read_vbias_control : AfeCommand
  set_vbias_control : ℕ → Bool → AfeCommand
  set_reset : Bool → AfeCommand
  do_reset : AfeCommand
  set_power_state : Bool → AfeCommand
  write_function : AfeId → List ℕ → ℕ → AfeCommand
  read_alignment : AfeId → AfeCommand
  configure_frontend : List AfeFrontendConfig → List ChannelFrontendConfig → ℕ → AfeCommand
  align : AfeCommand

unfoldable pub validate_12bit : ℕ → Result AfeValidationError (Unit {0})
validate_12bit value =
    if ltb dac_12bit_max value
    then err (AfeValidationError.value_out_of_range value dac_12bit_max)
    else ok tt

-- The two loops of `validate`.
unfoldable pub validate_afes : List AfeFrontendConfig → Result AfeValidationError (Unit {0})
validate_afes [] = ok tt
validate_afes (config ∷ afes) = do
  validate_12bit config.attenuation
  validate_12bit config.bias
  validate_afes afes

unfoldable pub validate_channels : List ChannelFrontendConfig → Result AfeValidationError (Unit {0})
validate_channels [] = ok tt
validate_channels (channel ∷ channels) = do
  validate_12bit channel.trim
  validate_12bit channel.offset
  validate_channels channels

unfoldable pub validate : AfeCommand → Result AfeValidationError (Unit {0})
validate (AfeCommand.set_attenuation _ value) = validate_12bit value
validate (AfeCommand.set_bias _ value) = validate_12bit value
validate (AfeCommand.set_trim _ value _) = validate_12bit value
validate (AfeCommand.set_offset _ value _) = validate_12bit value
validate (AfeCommand.set_vbias_control value _) = validate_12bit value
validate (AfeCommand.configure_frontend afes channels bias_control) = do
  validate_12bit bias_control
  validate_afes afes
  validate_channels channels
validate _ = ok tt
