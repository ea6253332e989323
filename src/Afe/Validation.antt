-- ===== src/Afe/Validation.antt =====
-- `AfeCommand::validate` of crates/daphne-sc-core/src/afe.rs against the DAC values of a command.
use daphne_sc.Prelude.{ℕ, ◌≤◌, ◌≡◌, refl, arith, List, [], ◌∷◌, ◌++◌, ◌↔◌, ok, err, ◌>>◌, All}
use daphne_sc.Prelude.{Result, leb, if◌then◌else◌}
use daphne_sc.Afe.{AfeFrontendConfig, ChannelFrontendConfig, AfeCommand, AfeValidationError}
use daphne_sc.Afe.{dac_12bit_max, validate_12bit, validate_afes, validate_channels, validate}

abbrev pub afe_dac_values : List AfeFrontendConfig → List ℕ
afe_dac_values [] = []
afe_dac_values (config ∷ afes) = config.attenuation ∷ config.bias ∷ afe_dac_values afes

abbrev pub channel_dac_values : List ChannelFrontendConfig → List ℕ
channel_dac_values [] = []
channel_dac_values (config ∷ channels) = config.trim ∷ config.offset ∷ channel_dac_values channels

-- The values that a command would hand to a 12-bit DAC.
abbrev pub dac_values : AfeCommand → List ℕ
dac_values (AfeCommand.set_attenuation _ value) = value ∷ []
dac_values (AfeCommand.set_bias _ value) = value ∷ []
dac_values (AfeCommand.set_trim _ value _) = value ∷ []
dac_values (AfeCommand.set_offset _ value _) = value ∷ []
dac_values (AfeCommand.set_vbias_control value _) = value ∷ []
dac_values (AfeCommand.configure_frontend afes channels bias_control) =
    bias_control ∷ (afe_dac_values afes ++ channel_dac_values channels)
dac_values _ = []

-- The first value above the maximum, as the error that reports it.
abbrev pub first_too_large : List ℕ → Result AfeValidationError (Unit {0})
first_too_large [] = ok tt
first_too_large (v ∷ vs) =
    if leb v dac_12bit_max
    then first_too_large vs
    else err (AfeValidationError.value_out_of_range v dac_12bit_max)

abbrev pub FitsDac : ℕ → Type 0
FitsDac v = v ≤ dac_12bit_max

then_check :
    (v : ℕ) (vs : List ℕ) → (validate_12bit v >> first_too_large vs) ≡ first_too_large (v ∷ vs)
unfolding validate_12bit
then_check v vs = ground arith

first_too_large-append :
    (xs ys : List ℕ) → (first_too_large xs >> first_too_large ys) ≡ first_too_large (xs ++ ys)
first_too_large-append [] ys = refl
first_too_large-append (x ∷ xs) ys = ground (arith, first_too_large-append xs ys)

validate_afes-values :
    (afes : List AfeFrontendConfig) → validate_afes afes ≡ first_too_large (afe_dac_values afes)
unfolding validate_afes
validate_afes-values [] = refl
validate_afes-values (c ∷ afes) =
    rw (validate_afes-values afes, then_check c.bias (afe_dac_values afes))
      (then_check c.attenuation (c.bias ∷ afe_dac_values afes))

validate_channels-values :
    (channels : List ChannelFrontendConfig)
    → validate_channels channels ≡ first_too_large (channel_dac_values channels)
unfolding validate_channels
validate_channels-values [] = refl
validate_channels-values (c ∷ channels) =
    rw (validate_channels-values channels, then_check c.offset (channel_dac_values channels))
      (then_check c.trim (c.offset ∷ channel_dac_values channels))

one_value : (v : ℕ) → validate_12bit v ≡ first_too_large (v ∷ [])
unfolding validate_12bit
one_value v = ground arith

validate-values : (command : AfeCommand) → validate command ≡ first_too_large (dac_values command)
unfolding validate
validate-values (AfeCommand.set_attenuation _ value) = one_value value
validate-values (AfeCommand.set_bias _ value) = one_value value
validate-values (AfeCommand.set_trim _ value _) = one_value value
validate-values (AfeCommand.set_offset _ value _) = one_value value
validate-values (AfeCommand.set_vbias_control value _) = one_value value
validate-values (AfeCommand.configure_frontend afes channels bias_control) =
    rw
      (
        validate_afes-values afes,
        validate_channels-values channels,
        first_too_large-append (afe_dac_values afes) (channel_dac_values channels),
      )
      (then_check bias_control (afe_dac_values afes ++ channel_dac_values channels))
validate-values _ = refl

first_too_large_iff : (vs : List ℕ) → (first_too_large vs ≡ ok tt) ↔ All FitsDac vs
first_too_large_iff [] = (λ _. tt, λ _. refl)
first_too_large_iff (v ∷ vs) = ground (arith, first_too_large_iff vs)

-- `validate` reports the first DAC value of the command above 4095, in the order of the source: the
-- bias control, then the attenuation and bias of each AFE, then the trim and offset of each channel.
-- It accepts a command exactly when all of its DAC values are at most 4095.
pub validate_lem :
    (command : AfeCommand)
    → (validate command ≡ first_too_large (dac_values command))
      × ((validate command ≡ ok tt) ↔ All FitsDac (dac_values command))
validate_lem command = (
  validate-values command,
  rw (validate-values command) (first_too_large_iff (dac_values command)),
)
