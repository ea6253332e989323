-- ===== src/AfeHw/Words.antt =====
-- The fields of the words of crates/daphne-sc-core/src/afe_hw.rs.
use daphne_sc.Prelude.{
  ℕ, ◌+◌, ◌*◌, ◌/◌, ◌%◌, ◌^◌, ◌<◌, ◌≡◌, ◌∙◌, refl, ap, ap₂, arith, some, Bool, not, of_bool,
}
use daphne_sc.Prelude.{bit_or}
use daphne_sc.Prelude.Bits.{bit_or_high, bit_and_mask}
use daphne_sc.AfeHw.{DacRoute, dac_gain_bias_word, dac_trim_offset_half, dac_pair_word}
use daphne_sc.AfeHw.{dac_companion_channel, dac_channel_is_high_half}

of_bool-lt : (b : Bool) → of_bool b < 2
of_bool-lt b = ground arith

-- `|` of fields from the top down is a sum.
fields-sum :
    (channel gain buffer value : ℕ)
    → gain < 2
    → buffer < 2
    → value < 2 ^ 12
    → bit_or (bit_or (bit_or (channel * 2 ^ 14) (gain * 2 ^ 13)) (buffer * 2 ^ 12)) value
      ≡ channel * 2 ^ 14 + gain * 2 ^ 13 + buffer * 2 ^ 12 + value
fields-sum channel gain buffer value hg hb hv =
    let with_gain : bit_or (channel * 2 ^ 14) (gain * 2 ^ 13) ≡ (channel * 2 + gain) * 2 ^ 13 =
      omega (arith, bit_or_high 14 channel (gain * 2 ^ 13) (omega arith)) in
    let with_buffer : bit_or ((channel * 2 + gain) * 2 ^ 13) (buffer * 2 ^ 12)
        ≡ ((channel * 2 + gain) * 2 + buffer) * 2 ^ 12 =
      omega (arith, bit_or_high 13 (channel * 2 + gain) (buffer * 2 ^ 12) (omega arith)) in
    let with_value = bit_or_high 12 ((channel * 2 + gain) * 2 + buffer) value hv in
    ap (λ x. bit_or (bit_or x (buffer * 2 ^ 12)) value) with_gain
    ∙ ap (λ x. bit_or x value) with_buffer
    ∙ with_value
    ∙ omega arith

half-sum :
    (channel value : ℕ) (gain buffer : Bool)
    → dac_trim_offset_half channel value gain buffer
      ≡ channel % 4 * 2 ^ 14 + of_bool gain * 2 ^ 13 + of_bool buffer * 2 ^ 12 + value % 4096
unfolding dac_trim_offset_half
half-sum channel value gain buffer =
    ap₂
      (λ c v.
        bit_or (bit_or (bit_or (c * 2 ^ 14) (of_bool gain * 2 ^ 13)) (of_bool buffer * 2 ^ 12)) v)
      (bit_and_mask 2 channel) (bit_and_mask 12 value)
    ∙ fields-sum (channel % 4) (of_bool gain) (of_bool buffer) (value % 4096) (of_bool-lt gain)
        (of_bool-lt buffer) (omega arith)

word-half :
    (route : DacRoute) (value : ℕ)
    → dac_gain_bias_word route value
      ≡ dac_trim_offset_half route.channel value route.gain route.buffer
unfolding dac_gain_bias_word dac_trim_offset_half
word-half route value = refl

-- Every half of a trim or offset word fits 16 bits; the channel modulo 4, the gain flag, the buffer flag
-- and the value modulo 4096 are read back from their bits.
pub dac_trim_offset_half_lem :
    (channel value : ℕ) (gain buffer : Bool)
    → let h = dac_trim_offset_half channel value gain buffer in
      (h < 2 ^ 16)
      × (h / 2 ^ 14 ≡ channel % 4)
      × (h / 2 ^ 13 % 2 ≡ of_bool gain)
      × (h / 2 ^ 12 % 2 ≡ of_bool buffer)
      × (h % 2 ^ 12 ≡ value % 4096)
dac_trim_offset_half_lem channel value gain buffer =
    let hg = of_bool-lt gain in
    let hb = of_bool-lt buffer in
    rw (half-sum channel value gain buffer)
      (omega arith, omega arith, omega arith, omega arith, omega arith)

-- The companion of a channel is the channel of the other half with the same position modulo 4, and its
-- companion is the channel again; the channels below 8 are those that have one.
pub dac_companion_channel_lem :
    (c d : ℕ)
    → dac_companion_channel c ≡ some d
    → (dac_companion_channel d ≡ some c)
      × (dac_channel_is_high_half d ≡ not (dac_channel_is_high_half c))
      × (d % 4 ≡ c % 4)
      × (c < 8)
unfolding dac_companion_channel dac_channel_is_high_half
dac_companion_channel_lem c d h = ground arith

-- The two halves of a pair word are read back from it, where both fit 16 bits.
pub dac_pair_word_lem :
    (low high : ℕ)
    → low < 2 ^ 16
    → high < 2 ^ 16
    → (dac_pair_word low high % 2 ^ 16 ≡ low)
      × (dac_pair_word low high / 2 ^ 16 ≡ high)
      × (dac_pair_word low high < 2 ^ 32)
unfolding dac_pair_word
dac_pair_word_lem low high hl hh =
    rw (bit_or_high 16 high low hl) (omega arith, omega arith, omega arith)

-- Every word for a DAC of a route fits 16 bits; the channel of the route modulo 4, its gain and buffer
-- flags and the value modulo 4096 are read back from their bits.
pub dac_gain_bias_word_lem :
    (route : DacRoute) (value : ℕ)
    → let w = dac_gain_bias_word route value in
      (w < 2 ^ 16)
      × (w / 2 ^ 14 ≡ route.channel % 4)
      × (w / 2 ^ 13 % 2 ≡ of_bool route.gain)
      × (w / 2 ^ 12 % 2 ≡ of_bool route.buffer)
      × (w % 2 ^ 12 ≡ value % 4096)
dac_gain_bias_word_lem route value =
    rw (word-half route value)
      (dac_trim_offset_half_lem route.channel value route.gain route.buffer)
