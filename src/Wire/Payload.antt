-- ===== src/Wire/Payload.antt =====
-- The packed fields and payloads of a command frame (crates/daphne-sc-core/src/rpu_wire.rs): the
-- writers, and the helpers of `RpuWireCommand` that read them back.
pub mod Laws
use daphne_sc.Prelude.{ℕ, ◌*◌, ◌/◌, ◌%◌, ◌^◌, List, Bool, length, set, take, drop, copy_at}
use daphne_sc.Prelude.{bit_or, bit_and, not, ◌||◌, ltb, ◌==◌, of_bool, if◌then◌else◌}
use daphne_sc.Prelude.{Result, ok, err, ◌>>=◌, ◌>>◌}
use daphne_sc.Prelude.Utf8.{is_utf8}
use daphne_sc.Bytes.{index}
use daphne_sc.Afe.{AdcConfig, PgaConfig, LnaConfig, AfeFrontendConfig}
use daphne_sc.Wire.Ops.{RpuWireOp}
use daphne_sc.Wire.Error.{RpuWireError, require_op, require_u16}
use daphne_sc.Wire.Command.{RpuWireCommand, rpu_wire_function_name_max}

unfoldable pub pack_u16_pair : ℕ → ℕ → ℕ
pack_u16_pair low high = bit_or low (high * 2 ^ 16)

-- `as u16` keeps the low 16 bits.
unfoldable pub unpack_u16_pair : ℕ → ℕ × ℕ
unpack_u16_pair value = (bit_and value 0xFFFF % 2 ^ 16, value / 2 ^ 16 % 2 ^ 16)

unfoldable pub pack_adc : AdcConfig → ℕ
pack_adc adc =
    bit_or (bit_or (of_bool adc.resolution) (of_bool adc.output_format * 2 ^ 1))
      (of_bool adc.msb_first * 2 ^ 2)

-- `flags & mask != 0`
abbrev pub has_bit : ℕ → ℕ → Bool
has_bit flags mask = not (bit_and flags mask == 0)

unfoldable pub unpack_adc : ℕ → AdcConfig
unpack_adc flags = record {
  resolution = has_bit flags 0x01;
  output_format = has_bit flags 0x02;
  msb_first = has_bit flags 0x04;
}

unfoldable pub pack_pga_flags : PgaConfig → ℕ
pack_pga_flags pga = bit_or (of_bool pga.integrator_disable) (of_bool pga.gain * 2 ^ 1)

unfoldable pub unpack_pga : ℕ → ℕ → PgaConfig
unpack_pga lpf_cut_frequency flags = record {
  lpf_cut_frequency = lpf_cut_frequency;
  integrator_disable = has_bit flags 0x01;
  gain = has_bit flags 0x02;
}

unfoldable pub unpack_lna : ℕ → ℕ → ℕ → LnaConfig
unpack_lna clamp gain flags = record {
  clamp = clamp;
  gain = gain;
  integrator_disable = has_bit flags 0x01;
}

unfoldable pub pack_afe_payload : List ℕ → AfeFrontendConfig → List ℕ
pack_afe_payload payload config =
    let payload = set payload 0 (pack_adc config.adc) in
    let payload = set payload 1 config.pga.lpf_cut_frequency in
    let payload = set payload 2 (pack_pga_flags config.pga) in
    let payload = set payload 3 config.lna.clamp in
    let payload = set payload 4 config.lna.gain in
    set payload 5 (of_bool config.lna.integrator_disable)

-- `bytes.len() as u8` is at most 31 where it is stored.
unfoldable pub set_function_name : List ℕ → List ℕ → Result RpuWireError (List ℕ)
set_function_name payload name =
    if length name == 0
    then err (RpuWireError.bad_payload "AFE function name is empty")
    else (if ltb rpu_wire_function_name_max (length name)
        then err (
            RpuWireError.payload_too_long "AFE function name" rpu_wire_function_name_max
              (length name))
        else ok (copy_at (set payload 0 (length name % 256)) 1 name))

pub record RpuWireConfigCounts : Type 0 where
  pub afe_count : ℕ
  pub channel_count : ℕ
  pub bias_control : ℕ

pub record RpuWireAfeConfig : Type 0 where
  pub afe_board : ℕ
  pub afe_pl : ℕ
  pub attenuation : ℕ
  pub bias : ℕ
  pub adc : AdcConfig
  pub pga : PgaConfig
  pub lna : LnaConfig

pub record RpuWireChannelConfig : Type 0 where
  pub channel : ℕ
  pub afe_board : ℕ
  pub afe_pl : ℕ
  pub afe_channel : ℕ
  pub trim : ℕ
  pub offset : ℕ
  pub gain : ℕ

unfoldable pub configure_counts : RpuWireCommand → Result RpuWireError RpuWireConfigCounts
configure_counts c = do
  require_op c.op RpuWireOp.begin_configure_frontend
  let (afe_count, channel_count) = unpack_u16_pair c.flags
  bias_control ← require_u16 "bias_control" c.value
  ok (record { afe_count = afe_count; channel_count = channel_count; bias_control = bias_control })

unfoldable pub afe_config : RpuWireCommand → Result RpuWireError RpuWireAfeConfig
afe_config c = do
  require_op c.op RpuWireOp.configure_afe
  attenuation ← require_u16 "attenuation" c.value
  bias ← require_u16 "bias" c.flags
  ok (record {
    afe_board = c.afe_board;
    afe_pl = c.afe_pl;
    attenuation = attenuation;
    bias = bias;
    adc = unpack_adc (index c.payload 0);
    pga = unpack_pga (index c.payload 1) (index c.payload 2);
    lna = unpack_lna (index c.payload 3) (index c.payload 4) (index c.payload 5);
  })

unfoldable pub channel_config : RpuWireCommand → Result RpuWireError RpuWireChannelConfig
channel_config c = do
  require_op c.op RpuWireOp.configure_channel
  let (offset, gain) = unpack_u16_pair c.flags
  trim ← require_u16 "trim" c.value
  ok (record {
    channel = c.channel;
    afe_board = c.afe_board;
    afe_pl = c.afe_pl;
    afe_channel = c.afe_channel;
    trim = trim;
    offset = offset;
    gain = gain;
  })

unfoldable pub function_name : RpuWireCommand → Result RpuWireError (List ℕ)
function_name c = do
  require_op c.op RpuWireOp.write_function
  let length = index c.payload 0
  let name = take length (drop 1 c.payload)
  (if length == 0 || ltb rpu_wire_function_name_max length
      then err (RpuWireError.bad_payload "invalid AFE function name length")
      else (if is_utf8 name
          then ok name
          else err (RpuWireError.bad_payload "AFE function name is not UTF-8")))
