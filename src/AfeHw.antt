-- ===== src/AfeHw.antt =====
-- The register map of the AFE hardware, crates/daphne-sc-core/src/afe_hw.rs: offsets from the base of
-- the window of the FPGA, and the words that are written there.
pub mod Control
pub mod Offsets
pub mod Words
use daphne_sc.Prelude.{
  ℕ, ◌+◌, ◌-◌, ◌*◌, ◌%◌, ◌^◌, bit_and, bit_or, List, [], ◌∷◌, Bool, true, false,
}
use daphne_sc.Prelude.{Option, none, some, ltb, leb, ◌&&◌, of_bool, if◌then◌else◌}
use daphne_sc.Afe.{afe_count}

abbrev pub afe_control_base_offset : ℕ
afe_control_base_offset = 4

abbrev pub afe_dac_trim_base_offset : ℕ
afe_dac_trim_base_offset = 8

abbrev pub afe_dac_offset_base_offset : ℕ
afe_dac_offset_base_offset = 12

abbrev pub afe_register_stride : ℕ
afe_register_stride = 12

abbrev pub dac_gain_bias_u50_offset : ℕ
dac_gain_bias_u50_offset = 0x0C000004

abbrev pub dac_gain_bias_u53_offset : ℕ
dac_gain_bias_u53_offset = 0x0C000008

abbrev pub dac_gain_bias_u5_offset : ℕ
dac_gain_bias_u5_offset = 0x0C00000C

abbrev pub frontend_delay_base_offset : ℕ
frontend_delay_base_offset = 0x0800000C

abbrev pub frontend_bitslip_base_offset : ℕ
frontend_bitslip_base_offset = 0x08000020

abbrev pub frontend_afe_stride : ℕ
frontend_afe_stride = 4

abbrev pub spy_buffer_base_offset : ℕ
spy_buffer_base_offset = 0x10000000

abbrev pub spy_buffer_afe_stride : ℕ
spy_buffer_afe_stride = 0x9000

abbrev pub spy_buffer_channel_stride : ℕ
spy_buffer_channel_stride = 0x1000

abbrev pub spy_buffer_frame_clock_channel : ℕ
spy_buffer_frame_clock_channel = 8

pub data DacChip : Type 0 where
  u50 u53 u5 : DacChip

pub record DacRoute : Type 0 where
  pub chip : DacChip
  pub channel : ℕ  -- u8
  pub gain : Bool
  pub buffer : Bool

-- `DacRoute::new`
abbrev pub new_route : DacChip → ℕ → DacRoute
new_route chip channel = record { chip = chip; channel = channel; gain = false; buffer = false }

abbrev pub afe_gain_dac_routes : List DacRoute
afe_gain_dac_routes =
    new_route DacChip.u50 0
    ∷ new_route DacChip.u50 1
    ∷ new_route DacChip.u50 2
    ∷ new_route DacChip.u50 3
    ∷ new_route DacChip.u5 1
    ∷ []

abbrev pub afe_bias_dac_routes : List DacRoute
afe_bias_dac_routes =
    new_route DacChip.u53 0
    ∷ new_route DacChip.u53 1
    ∷ new_route DacChip.u53 2
    ∷ new_route DacChip.u53 3
    ∷ new_route DacChip.u5 0
    ∷ []

abbrev pub vbias_dac_route : DacRoute
vbias_dac_route = new_route DacChip.u5 2

unfoldable pub afe_register_offset : ℕ → ℕ → Option ℕ
afe_register_offset base afe_pl =
    if ltb afe_pl afe_count then some (base + afe_register_stride * afe_pl) else none

unfoldable pub frontend_register_offset : ℕ → ℕ → Option ℕ
frontend_register_offset base afe_board =
    if ltb afe_board afe_count then some (base + frontend_afe_stride * afe_board) else none

abbrev pub afe_control_offset : ℕ → Option ℕ
afe_control_offset afe_pl = afe_register_offset afe_control_base_offset afe_pl

abbrev pub afe_dac_trim_offset : ℕ → Option ℕ
afe_dac_trim_offset afe_pl = afe_register_offset afe_dac_trim_base_offset afe_pl

abbrev pub afe_dac_offset_offset : ℕ → Option ℕ
afe_dac_offset_offset afe_pl = afe_register_offset afe_dac_offset_base_offset afe_pl

abbrev pub frontend_delay_offset : ℕ → Option ℕ
frontend_delay_offset afe_board = frontend_register_offset frontend_delay_base_offset afe_board

abbrev pub frontend_bitslip_offset : ℕ → Option ℕ
frontend_bitslip_offset afe_board = frontend_register_offset frontend_bitslip_base_offset afe_board

-- The arithmetic is on u32, with its wrap-around.
unfoldable pub spy_buffer_channel_offset : ℕ → ℕ → ℕ → Option ℕ
spy_buffer_channel_offset afe_board channel sample =
    if ltb afe_board afe_count && leb channel spy_buffer_frame_clock_channel
    then some (
        (spy_buffer_base_offset
          + spy_buffer_afe_stride * afe_board
          + spy_buffer_channel_stride * channel
          + sample * 4 % 2 ^ 32)
        % 2 ^ 32)
    else none

abbrev pub spy_buffer_frame_clock_offset : ℕ → ℕ → Option ℕ
spy_buffer_frame_clock_offset afe_board sample =
    spy_buffer_channel_offset afe_board spy_buffer_frame_clock_channel sample

unfoldable pub dac_gain_bias_offset : DacChip → ℕ
dac_gain_bias_offset DacChip.u50 = dac_gain_bias_u50_offset
dac_gain_bias_offset DacChip.u53 = dac_gain_bias_u53_offset
dac_gain_bias_offset DacChip.u5 = dac_gain_bias_u5_offset

unfoldable pub afe_register_word : ℕ → ℕ → ℕ
afe_register_word register value = bit_or (bit_and register 0xFF * 2 ^ 16) value

unfoldable pub afe_register_address_word : ℕ → ℕ
afe_register_address_word register = bit_and register 0xFF * 2 ^ 16

unfoldable pub dac_gain_bias_word : DacRoute → ℕ → ℕ
dac_gain_bias_word route value =
    bit_or
      (bit_or (bit_or (bit_and route.channel 0x03 * 2 ^ 14) (of_bool route.gain * 2 ^ 13))
        (of_bool route.buffer * 2 ^ 12))
      (bit_and value 0x0FFF)

unfoldable pub dac_trim_offset_half : ℕ → ℕ → Bool → Bool → ℕ
dac_trim_offset_half channel value gain buffer =
    bit_or
      (bit_or (bit_or (bit_and channel 0x03 * 2 ^ 14) (of_bool gain * 2 ^ 13))
        (of_bool buffer * 2 ^ 12))
      (bit_and value 0x0FFF)

unfoldable pub dac_pair_word : ℕ → ℕ → ℕ
dac_pair_word low_half high_half = bit_or (high_half * 2 ^ 16) low_half

unfoldable pub dac_companion_channel : ℕ → Option ℕ
dac_companion_channel channel =
    if ltb channel 4
    then some (channel + 4)
    else (if ltb channel 8 then some (channel - 4) else none)

unfoldable pub dac_channel_is_high_half : ℕ → Bool
dac_channel_is_high_half channel = leb 4 channel
