-- ===== src/AfeFunctions/Table.antt =====
-- The table AFE_FUNCTIONS of crates/daphne-sc-core/src/afe_functions.rs.
use daphne_sc.Prelude.{List, [], ◌∷◌}
use daphne_sc.AfeFunctions.Spec.{AfeFunctionSpec, AfeFunctionValues, afe_function}

abbrev pub afe_functions : List AfeFunctionSpec
afe_functions =
    afe_function "SOFTWARE_RESET" 0 0 0 (AfeFunctionValues.range 0 1)
    ∷ afe_function "REGISTER_READOUT_ENABLE" 0 1 1 (AfeFunctionValues.range 0 1)
    ∷ afe_function "ADC_COMPLETE_PDN" 1 0 0 (AfeFunctionValues.range 0 1)
    ∷ afe_function "LVDS_OUTPUT_DISABLE" 1 1 1 (AfeFunctionValues.range 0 1)
    ∷ afe_function "ADC_PDN_CH" 1 9 2 (AfeFunctionValues.range 0 255)
    ∷ afe_function "PARTIAL_PDN" 1 10 10 (AfeFunctionValues.range 0 1)
    ∷ afe_function "LOW_FREQUENCY_NOISE_SUPPRESSION" 1 11 11 (AfeFunctionValues.range 0 1)
    ∷ afe_function "EXT_REF" 1 13 13 (AfeFunctionValues.range 0 1)
    ∷ afe_function "LVDS_OUTPUT_RATE_2X" 1 12 14 (AfeFunctionValues.range 0 1)
    ∷ afe_function "SINGLE-ENDED_CLK_MODE" 1 15 15 (AfeFunctionValues.range 0 1)
    ∷ afe_function "POWER-DOWN_LVDS" 2 10 3 (AfeFunctionValues.range 0 1)
    ∷ afe_function "AVERAGING_ENABLE" 2 11 11 (AfeFunctionValues.range 0 1)
    ∷ afe_function "LOW_LATENCY" 2 12 12 (AfeFunctionValues.range 0 1)
    ∷ afe_function "TEST_PATTERN_MODES" 2 15 13 (AfeFunctionValues.range 0 7)
    ∷ afe_function "INVERT_CHANNELS" 3 7 0 (AfeFunctionValues.range 0 255)
    ∷ afe_function "CHANNEL_OFFSET_SUBSTRACTION_ENABLE" 3 8 8 (AfeFunctionValues.range 0 1)
    ∷ afe_function "DIGITAL_GAIN_ENABLE" 3 12 12 (AfeFunctionValues.range 0 1)
    ∷ afe_function "SERIALIZED_DATA_RATE" 3 14 13 (AfeFunctionValues.range 0 3)
    ∷ afe_function "ENABLE_EXTERNAL_REFERENCE_MODE" 3 15 15 (AfeFunctionValues.range 0 1)
    ∷ afe_function "ADC_RESOLUTION_RESET" 4 1 1 (AfeFunctionValues.range 0 1)
    ∷ afe_function "ADC_OUTPUT_FORMAT" 4 3 3 (AfeFunctionValues.range 0 1)
    ∷ afe_function "LSB_MSB_FIRST" 4 4 4 (AfeFunctionValues.range 0 1)
    ∷ afe_function "CUSTOM_PATTERN" 5 13 0 (AfeFunctionValues.range 0 16383)
    ∷ afe_function "SYNC_PATTERN" 10 8 8 (AfeFunctionValues.range 0 1)
    ∷ afe_function "OFFSET_CH1" 13 9 0 (AfeFunctionValues.range 0 1023)
    ∷ afe_function "DIGITAL_GAIN_CH1" 13 15 11 (AfeFunctionValues.range 0 31)
    ∷ afe_function "OFFSET_CH2" 15 9 0 (AfeFunctionValues.range 0 1023)
    ∷ afe_function "DIGITAL_GAIN_CH2" 15 15 11 (AfeFunctionValues.range 0 31)
    ∷ afe_function "OFFSET_CH3" 17 9 0 (AfeFunctionValues.range 0 1023)
    ∷ afe_function "DIGITAL_GAIN_CH3" 17 15 11 (AfeFunctionValues.range 0 31)
    ∷ afe_function "OFFSET_CH4" 19 9 0 (AfeFunctionValues.range 0 1023)
    ∷ afe_function "DIGITAL_GAIN_CH4" 19 15 11 (AfeFunctionValues.range 0 31)
    ∷ afe_function "DIGITAL_HPF_FILTER_ENABLE_CH1-4" 21 0 0 (AfeFunctionValues.range 0 1)
    ∷ afe_function "DIGITAL_HPF_FILTER_K_CH1-4" 21 4 1 (AfeFunctionValues.range 2 10)
    ∷ afe_function "OFFSET_CH8" 25 9 0 (AfeFunctionValues.range 0 1023)
    ∷ afe_function "DIGITAL_GAIN_CH8" 25 15 11 (AfeFunctionValues.range 0 31)
    ∷ afe_function "OFFSET_CH7" 27 9 0 (AfeFunctionValues.range 0 1023)
    ∷ afe_function "DIGITAL_GAIN_CH7" 27 15 11 (AfeFunctionValues.range 0 31)
    ∷ afe_function "OFFSET_CH6" 29 9 0 (AfeFunctionValues.range 0 1023)
    ∷ afe_function "DIGITAL_GAIN_CH6" 29 15 11 (AfeFunctionValues.range 0 31)
    ∷ afe_function "OFFSET_CH5" 31 9 0 (AfeFunctionValues.range 0 1023)
    ∷ afe_function "DIGITAL_GAIN_CH5" 31 15 11 (AfeFunctionValues.range 0 31)
    ∷ afe_function "DIGITAL_HPF_FILTER_ENABLE_CH5-8" 33 0 0 (AfeFunctionValues.range 0 1)
    ∷ afe_function "DIGITAL_HPF_FILTER_K_CH5-8" 33 4 1 (AfeFunctionValues.range 2 10)
    ∷ afe_function "DITHER" 66 15 15 (AfeFunctionValues.range 0 1)
    ∷ afe_function "PGA_CLAMP_-6dB" 50 10 10 (AfeFunctionValues.range 0 1)
    ∷ afe_function "LPF_PROGRAMMABILITY" 51 3 1 (AfeFunctionValues.options (0 ∷ 2 ∷ 3 ∷ 4 ∷ []))
    ∷ afe_function "PGA_INTEGRATOR_DISABLE" 51 4 4 (AfeFunctionValues.range 0 1)
    ∷ afe_function "PGA_CLAMP_LEVEL" 51 7 5 (AfeFunctionValues.range 0 7)
    ∷ afe_function "PGA_GAIN_CONTROL" 51 13 13 (AfeFunctionValues.range 0 1)
    ∷ afe_function "ACTIVE_TERMINATION_INDIVIDUAL_RESISTOR_CNTL" 52 4 0
        (AfeFunctionValues.range 0 31)
    ∷ afe_function "ACTIVE_TERMINATION_INDIVIDUAL_RESISTOR_ENABLE" 52 5 5
        (AfeFunctionValues.range 0 1)
    ∷ afe_function "PRESET_ACTIVE_TERMINATIONS" 52 7 6 (AfeFunctionValues.range 0 3)
    ∷ afe_function "ACTIVE_TERMINATION_ENABLE" 52 8 8 (AfeFunctionValues.range 0 1)
    ∷ afe_function "LNA_INPUT_CLAMP_SETTING" 52 10 9 (AfeFunctionValues.range 0 3)
    ∷ afe_function "LNA_INTEGRATOR_DISABLE" 52 12 12 (AfeFunctionValues.range 0 1)
    ∷ afe_function "LNA_GAIN" 52 14 13 (AfeFunctionValues.range 0 3)
    ∷ afe_function "LNA_INDIVIDUAL_CH_CNTL" 52 15 15 (AfeFunctionValues.range 0 1)
    ∷ afe_function "PDN_CH" 53 7 0 (AfeFunctionValues.range 0 255)
    ∷ afe_function "LOW_POWER" 53 10 10 (AfeFunctionValues.range 0 1)
    ∷ afe_function "MED_POWER" 53 11 11 (AfeFunctionValues.range 0 1)
    ∷ afe_function "PDN_VCAT_PGA" 53 12 12 (AfeFunctionValues.range 0 1)
    ∷ afe_function "PDN_LNA" 53 13 13 (AfeFunctionValues.range 0 1)
    ∷ afe_function "VCA_PARTIAL_PDN" 53 14 14 (AfeFunctionValues.range 0 1)
    ∷ afe_function "VCA_COMPLETE_PDN" 53 15 15 (AfeFunctionValues.range 0 1)
    ∷ afe_function "CW_SUM_AMP_GAIN_CNTL" 54 4 0
        (AfeFunctionValues.options (0 ∷ 1 ∷ 2 ∷ 4 ∷ 8 ∷ 16 ∷ []))
    ∷ afe_function "CW_16X_CLK_SEL" 54 5 5 (AfeFunctionValues.range 0 1)
    ∷ afe_function "CW_1X_CLK_SEL" 54 6 6 (AfeFunctionValues.range 0 1)
    ∷ afe_function "CW_TGC_SEL" 54 8 8 (AfeFunctionValues.range 0 1)
    ∷ afe_function "CW_SUM_AMP_ENABLE" 54 9 9 (AfeFunctionValues.range 0 1)
    ∷ afe_function "CW_CLK_MODE_SEL" 54 11 10 (AfeFunctionValues.range 0 3)
    ∷ afe_function "CH1_CW_MIXER_PHASE" 55 3 0 (AfeFunctionValues.range 0 15)
    ∷ afe_function "CH2_CW_MIXER_PHASE" 55 7 4 (AfeFunctionValues.range 0 15)
    ∷ afe_function "CH3_CW_MIXER_PHASE" 55 11 8 (AfeFunctionValues.range 0 15)
    ∷ afe_function "CH4_CW_MIXER_PHASE" 55 15 12 (AfeFunctionValues.range 0 15)
    ∷ afe_function "CH5_CW_MIXER_PHASE" 56 3 0 (AfeFunctionValues.range 0 15)
    ∷ afe_function "CH6_CW_MIXER_PHASE" 56 7 4 (AfeFunctionValues.range 0 15)
    ∷ afe_function "CH7_CW_MIXER_PHASE" 56 11 8 (AfeFunctionValues.range 0 15)
    ∷ afe_function "CH8_CW_MIXER_PHASE" 56 15 12 (AfeFunctionValues.range 0 15)
    ∷ afe_function "CH1_LNA_GAIN_CNTL" 57 1 0 (AfeFunctionValues.range 0 3)
    ∷ afe_function "CH2_LNA_GAIN_CNTL" 57 3 2 (AfeFunctionValues.range 0 3)
    ∷ afe_function "CH3_LNA_GAIN_CNTL" 57 5 4 (AfeFunctionValues.range 0 3)
    ∷ afe_function "CH4_LNA_GAIN_CNTL" 57 7 6 (AfeFunctionValues.range 0 3)
    ∷ afe_function "CH5_LNA_GAIN_CNTL" 57 9 8 (AfeFunctionValues.range 0 3)
    ∷ afe_function "CH6_LNA_GAIN_CNTL" 57 11 10 (AfeFunctionValues.range 0 3)
    ∷ afe_function "CH7_LNA_GAIN_CNTL" 57 13 12 (AfeFunctionValues.range 0 3)
    ∷ afe_function "CH8_LNA_GAIN_CNTL" 57 15 14 (AfeFunctionValues.range 0 3)
    ∷ afe_function "HPF_LNA" 59 3 2 (AfeFunctionValues.range 0 3)
    ∷ afe_function "DIG_TGC_ATT_GAIN" 59 6 4 (AfeFunctionValues.range 0 7)
    ∷ afe_function "DIG_TGC_ATT" 59 7 7 (AfeFunctionValues.range 0 1)
    ∷ afe_function "CW_SUM_AMP_PDN" 59 8 8 (AfeFunctionValues.range 0 1)
    ∷ afe_function "PGA_TEST_MODE" 59 9 9 (AfeFunctionValues.range 0 1)
    ∷ []
