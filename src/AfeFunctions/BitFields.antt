-- ===== src/AfeFunctions/BitFields.antt =====
-- Bit fields of a 16-bit register: `replace_afe_function_bits` and `extract_afe_function_bits` of
-- crates/daphne-sc-core/src/afe_functions.rs.
use daphne_sc.Prelude.{
  ℕ, zero, suc, ◌+◌, ◌-◌, ◌*◌, ◌/◌, ◌%◌, ◌^◌, ◌<◌, ◌≤◌, ◌≡◌, refl, sym, ap, ap₂, ◌∙◌, arith, ok,
}
use daphne_sc.Prelude.{bit_and, bit_or, le→ltb_false, lt→leb_false}
use daphne_sc.Prelude.Bits.{
  bit_and_join, bit_or_join, bit_and_ones, bit_and-zero, bit_or-zero, bit_or_high, bit_and_mask,
}
use native.Mathlib.Nat.{
  one-le-pow, pow-suc, mod-eq_of_lt, mul-le-mul_right, mul-div_cancel, zero-add, suc-add,
}
use daphne_sc.AfeFunctions.Spec.{AfeBitField}
use daphne_sc.AfeFunctions.{mask, replace_afe_function_bits, extract_afe_function_bits}

abbrev pub width : AfeBitField → ℕ
width field = field.msb - field.lsb + 1

-- A register with `upper` above the field, `value` in it and `lower` below it.
abbrev pub parts : AfeBitField → ℕ → ℕ → ℕ → ℕ
parts field upper value lower = (upper * 2 ^ width field + value) * 2 ^ field.lsb + lower

pow-positive : (n : ℕ) → 0 < 2 ^ n
pow-positive n = omega (arith, one-le-pow n 2)

pow-add : (a b : ℕ) → 2 ^ (a + b) ≡ 2 ^ a * 2 ^ b
pow-add zero b = rw zero-add (omega arith)
pow-add (suc a) b = rw (suc-add, pow-suc 2 (a + b), pow-suc 2 a, pow-add a b) (grind arith)

below_top : (h w l : ℕ) → 0 < h → 0 < w → 0 < l → (w - 1) * l < h * w * l
below_top (suc h) (suc w) l hh hw hl = grind arith
below_top zero w l hh hw hl = absurd (omega arith)
below_top (suc h) zero l hh hw hl = absurd (omega arith)

complement :
    (h w l : ℕ)
    → 0 < h
    → 0 < w
    → 0 < l
    → h * w * l - 1 - ((w - 1) * l + 0) ≡ ((h - 1) * w + 0) * l + (l - 1)
complement (suc h) (suc w) l hh hw hl = rw (pred h, pred w) (omega (arith, expand))
  where
    pred : (n : ℕ) → suc n - 1 ≡ n
    pred n = omega arith

    expand : suc h * suc w * l ≡ (h * suc w + 0) * l + w * l + l
    expand = grind arith
complement zero w l hh hw hl = absurd (omega arith)
complement (suc h) zero l hh hw hl = absurd (omega arith)

module _ (w l x f y : ℕ) (hf : f < 2 ^ w) (hy : y < 2 ^ l) where
  keep_field : bit_and ((x * 2 ^ w + f) * 2 ^ l + y) ((2 ^ w - 1) * 2 ^ l + 0) ≡ f * 2 ^ l
  keep_field =
      bit_and_join l (x * 2 ^ w + f) (2 ^ w - 1) y 0 hy (pow-positive l)
      ∙ rw (bit_and_ones w x f hf, bit_and-zero y) (omega arith)

  drop_field :
      (h : ℕ)
      → x < 2 ^ h
      → bit_and ((x * 2 ^ w + f) * 2 ^ l + y) (((2 ^ h - 1) * 2 ^ w + 0) * 2 ^ l + (2 ^ l - 1))
        ≡ x * 2 ^ w * 2 ^ l + y
  drop_field h hx =
      bit_and_join l (x * 2 ^ w + f) ((2 ^ h - 1) * 2 ^ w + 0) y (2 ^ l - 1) hy
        (omega (arith, pow-positive l))
      ∙ ap₂ (λ p q. p * 2 ^ l + q) upper (bit_and_mask l y ∙ low)
    where
      low : y % 2 ^ l ≡ y
      low = mod-eq_of_lt hy

      high : x % 2 ^ h * 2 ^ w + 0 ≡ x * 2 ^ w
      high = omega (arith, ap (λ (t : ℕ). t * 2 ^ w) (mod-eq_of_lt hx))

      upper : bit_and (x * 2 ^ w + f) ((2 ^ h - 1) * 2 ^ w + 0) ≡ x * 2 ^ w
      upper =
          bit_and_join w x (2 ^ h - 1) f 0 hf (pow-positive w)
          ∙ rw (bit_and_mask h x, bit_and-zero f) high

  put_field :
      (v : ℕ)
      → v < 2 ^ w
      → bit_or (x * 2 ^ w * 2 ^ l + y) (v * 2 ^ l + 0) ≡ (x * 2 ^ w + v) * 2 ^ l + y
  put_field v hv =
      bit_or_join l (x * 2 ^ w) v y 0 hy (pow-positive l)
      ∙ rw (bit_or_high w x v hv, bit_or-zero y) refl

module _ (field : AfeBitField) (ordered : field.lsb ≤ field.msb) (inside : field.msb < 16) where
  abbrev above : ℕ
  above = 15 - field.msb

  all_bits : 2 ^ above * 2 ^ width field * 2 ^ field.lsb ≡ 2 ^ 16
  all_bits =
      ap (λ (t : ℕ). t * 2 ^ field.lsb) (sym (pow-add above (width field)))
      ∙ sym (pow-add (above + width field) field.lsb)
      ∙ ap (λ (n : ℕ). 2 ^ n) sum
    where
      sum : above + width field + field.lsb ≡ 16
      sum = omega arith

  mask_lem : mask field ≡ ok ((2 ^ width field - 1) * 2 ^ field.lsb + 0)
  unfolding mask
  mask_lem =
      rw (le→ltb_false _ _ ordered, lt→leb_false _ _ inside)
        (ap ok (
          mod-eq_of_lt (
            rw all_bits at (
              below_top (2 ^ above) (2 ^ width field) (2 ^ field.lsb) (pow-positive above)
                (pow-positive (width field)) (pow-positive field.lsb)))
          ∙ omega arith))

  module _ (upper lower v : ℕ) (hu : upper < 2 ^ above) (hl : lower < 2 ^ field.lsb)
      (hv : v < 2 ^ width field) where
    shifted : v * 2 ^ field.lsb % 2 ^ 16 ≡ (0 * 2 ^ width field + v) * 2 ^ field.lsb + 0
    shifted = mod-eq_of_lt (omega (arith, mul-le-mul_right (2 ^ field.lsb) fits, top)) ∙ grind arith
      where
        fits : v ≤ 2 ^ width field - 1
        fits = omega arith

        top : (2 ^ width field - 1) * 2 ^ field.lsb < 2 ^ 16
        top = rw all_bits at (
            below_top (2 ^ above) (2 ^ width field) (2 ^ field.lsb) (pow-positive above)
              (pow-positive (width field)) (pow-positive field.lsb))

    cleared :
        2 ^ 16 - 1 - ((2 ^ width field - 1) * 2 ^ field.lsb + 0)
        ≡ ((2 ^ above - 1) * 2 ^ width field + 0) * 2 ^ field.lsb + (2 ^ field.lsb - 1)
    cleared = rw all_bits at (
        complement (2 ^ above) (2 ^ width field) (2 ^ field.lsb) (pow-positive above)
          (pow-positive (width field)) (pow-positive field.lsb))

    -- A field is replaced, whatever it held, and the bits above and below it stay; reading it gives what
    -- it holds.
    pub replace_afe_function_bits_lem :
        (old : ℕ)
        → old < 2 ^ width field
        → (replace_afe_function_bits (parts field upper old lower) field v
            ≡ ok (parts field upper v lower))
          × (extract_afe_function_bits (parts field upper v lower) field ≡ ok v)
    unfolding replace_afe_function_bits extract_afe_function_bits
    replace_afe_function_bits_lem old ho = (
      rw (mask_lem, cleared, shifted)
          (ap ok (
            ap₂ bit_or (drop_field (width field) field.lsb upper old lower ho hl above hu)
              (keep_field (width field) field.lsb 0 v 0 hv (pow-positive field.lsb) ∙ omega arith)
            ∙ put_field (width field) field.lsb upper old lower ho hl v hv)),
      rw mask_lem (
          ap ok (
            ap (λ (t : ℕ). t / 2 ^ field.lsb)
              (keep_field (width field) field.lsb upper v lower hv hl)
            ∙ mul-div_cancel v (pow-positive field.lsb))),
    )
