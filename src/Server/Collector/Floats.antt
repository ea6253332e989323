-- ===== src/Server/Collector/Floats.antt =====
-- The numbers of the PMBus in crates/daphne-sc-server/src/status_collector.rs: `sign_extend` and the linear
-- formats, with the arithmetic of `f64` as a parameter on its 64 bits.
use daphne_sc.Prelude.{
  ℕ, ◌+◌, ◌-◌, ◌*◌, ◌/◌, ◌%◌, ◌^◌, ◌<◌, ◌≡◌, ap, ap₂, ◌∙◌, bit_and, ltb, Result, if◌then◌else◌,
  arith,
}
use daphne_sc.Prelude.Bits.{bit_and_mask}
use daphne_sc.Text.{Text}

-- `negsuc n` is -(n + 1).
pub data ℤ : Type 0 where
  pos : ℕ → ℤ
  negsuc : ℕ → ℤ

-- The operations on `f64` that the collector uses.
pub record Floats : Type 0 where
  pub of_i32 : ℤ → ℕ
  pub mul : ℕ → ℕ → ℕ
  pub div : ℕ → ℕ → ℕ
  pub powi_2 : ℤ → ℕ  -- `2.0_f64.powi`
  pub parse : Text → Result Text ℕ

-- A word of `w` bits read as two's complement, `value as i16` with `w` 16.
unfoldable pub as_signed : ℕ → ℕ → ℤ
as_signed w value = if ltb value (2 ^ (w - 1)) then ℤ.pos value else ℤ.negsuc (2 ^ w - 1 - value)

-- `>>` on i32 keeps the sign: it rounds down.
unfoldable pub shift_right : ℤ → ℕ → ℤ
shift_right (ℤ.pos n) shift = ℤ.pos (n / 2 ^ shift)
shift_right (ℤ.negsuc n) shift = ℤ.negsuc (n / 2 ^ shift)

unfoldable pub sign_extend : ℕ → ℕ → ℤ
unfolding shift_right as_signed
sign_extend value bits =
    let shift = 32 - bits in shift_right (as_signed 32 (value * 2 ^ shift % 2 ^ 32)) shift

module _ (floats : Floats) where
  unfoldable pub decode_linear16 : ℕ → ℤ → ℕ
  decode_linear16 raw exponent =
      floats.mul (floats.of_i32 (as_signed 16 raw)) (floats.powi_2 exponent)

  unfoldable pub decode_linear11 : ℕ → ℕ
  decode_linear11 raw =
      let mantissa = sign_extend (bit_and raw 0x07ff) 11 in
      let exponent = sign_extend (raw / 2 ^ 11) 5 in
      floats.mul (floats.of_i32 mantissa) (floats.powi_2 exponent)

-- The two's complement of a number in `w` bits.
unfoldable pub complement : ℕ → ℤ → ℕ
complement w (ℤ.pos n) = n
complement w (ℤ.negsuc n) = 2 ^ w - 1 - n

-- The number fits `w` bits with its sign.
abbrev pub Fits : ℕ → ℤ → Type 0
Fits w (ℤ.pos n) = n < 2 ^ (w - 1)
Fits w (ℤ.negsuc n) = n < 2 ^ (w - 1)

sign_extend_11 : (m : ℤ) → Fits 11 m → sign_extend (complement 11 m) 11 ≡ m
unfolding sign_extend complement
sign_extend_11 (ℤ.pos n) h = ground arith
sign_extend_11 (ℤ.negsuc n) h = ground arith

sign_extend_5 : (e : ℤ) → Fits 5 e → sign_extend (complement 5 e) 5 ≡ e
unfolding sign_extend complement
sign_extend_5 (ℤ.pos n) h = ground arith
sign_extend_5 (ℤ.negsuc n) h = ground arith

complement_11 : (m : ℤ) → Fits 11 m → complement 11 m < 2 ^ 11
unfolding complement
complement_11 (ℤ.pos n) h = omega arith
complement_11 (ℤ.negsuc n) h = omega arith

-- A word of the format LINEAR11, made of an exponent of 5 bits and a mantissa of 11 bits in two's
-- complement, is decoded to the mantissa times 2 to the exponent.
pub decode_linear11_lem :
    (floats : Floats) (mantissa exponent : ℤ)
    → Fits 11 mantissa
    → Fits 5 exponent
    → decode_linear11 floats (complement 5 exponent * 2 ^ 11 + complement 11 mantissa)
      ≡ floats.mul (floats.of_i32 mantissa) (floats.powi_2 exponent)
unfolding decode_linear11
decode_linear11_lem floats mantissa exponent hm he =
    let low = complement_11 mantissa hm in
    let word = complement 5 exponent * 2 ^ 11 + complement 11 mantissa in
    let m : bit_and word 0x07ff ≡ complement 11 mantissa = bit_and_mask 11 word ∙ omega arith in
    let e : word / 2 ^ 11 ≡ complement 5 exponent = omega arith in
    ap₂ (λ a b. floats.mul (floats.of_i32 a) (floats.powi_2 b))
      (ap (λ n. sign_extend n 11) m ∙ sign_extend_11 mantissa hm)
      (ap (λ n. sign_extend n 5) e ∙ sign_extend_5 exponent he)
