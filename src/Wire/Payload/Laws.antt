-- ===== src/Wire/Payload/Laws.antt =====
-- The packed fields of a command frame read back: pairs of 16-bit words, flags and names.
use daphne_sc.Prelude.{ℕ, ◌+◌, ◌*◌, ◌%◌, ◌^◌, ◌≤◌, ◌<◌, ◌≡◌, refl, ap, arith}
use daphne_sc.Prelude.{List, [], ◌∷◌, length, take, drop, copy_at, replicate, false}
use daphne_sc.Prelude.{ok, of_bool, length-copy_at, le→ltb_false, ◌==◌}
use daphne_sc.Prelude.Bits.{bit_or_low, bit_and_mask}
use daphne_sc.Bytes.{index}
use daphne_sc.Afe.{AdcConfig, PgaConfig, LnaConfig}
use daphne_sc.Wire.Payload.{pack_u16_pair, unpack_u16_pair, pack_adc, unpack_adc, pack_pga_flags}
use daphne_sc.Wire.Payload.{unpack_pga, unpack_lna, set_function_name}

-- The packed pair is the sum of its words, and fits 32 bits.
pub pack_u16_pair-sum : (low high : ℕ) → low < 2 ^ 16 → pack_u16_pair low high ≡ low + high * 65536
unfolding pack_u16_pair
pack_u16_pair-sum low high h = bit_or_low 16 low high h

pub unpack_u16_pair-pack_u16_pair :
    (low high : ℕ)
    → low < 2 ^ 16
    → high < 2 ^ 16
    → unpack_u16_pair (pack_u16_pair low high) ≡ (low, high)
unfolding unpack_u16_pair
unpack_u16_pair-pack_u16_pair low high hl hh =
    rw (pack_u16_pair-sum low high hl) (ground (arith, bit_and_mask 16 (low + high * 65536)))

pub unpack_adc-pack_adc : (adc : AdcConfig) → unpack_adc (pack_adc adc) ≡ adc
unfolding unpack_adc pack_adc
unpack_adc-pack_adc adc = ground arith

-- The packed flags of the PGA give back its two bits, beside the frequency that has its own byte.
pub unpack_pga-pack_pga_flags :
    (pga : PgaConfig) → unpack_pga pga.lpf_cut_frequency (pack_pga_flags pga) ≡ pga
unfolding unpack_pga pack_pga_flags
unpack_pga-pack_pga_flags pga = ground arith

pub unpack_lna-of_bool :
    (lna : LnaConfig) → unpack_lna lna.clamp lna.gain (of_bool lna.integrator_disable) ≡ lna
unfolding unpack_lna
unpack_lna-of_bool lna = ground arith

pub pack_adc-lt : (adc : AdcConfig) → pack_adc adc < 256
unfolding pack_adc
pack_adc-lt adc = ground arith

pub pack_pga_flags-lt : (pga : PgaConfig) → pack_pga_flags pga < 256
unfolding pack_pga_flags
pack_pga_flags-lt pga = ground arith

take-copy_at :
    (xs name : List ℕ) → length name ≤ length xs → take (length name) (copy_at xs 0 name) ≡ name
take-copy_at xs [] h = refl
take-copy_at [] (b ∷ name) h = absurd (omega arith)
take-copy_at (x ∷ xs) (b ∷ name) h = ap (λ t. b ∷ t) (take-copy_at xs name (omega arith))

-- A name of 1 to 31 bytes is stored behind its length, and is the slice that the length delimits.
pub set_function_name_ok :
    (name : List ℕ)
    → 1 ≤ length name
    → length name ≤ 31
    → (p : List ℕ) × (set_function_name (replicate 32 0) name ≡ ok p)
      × (length p ≡ 32)
      × (index p 0 ≡ length name)
      × (take (length name) (drop 1 p) ≡ name)
unfolding set_function_name
set_function_name_ok name lo hi = (
  length name % 256 ∷ copy_at (replicate 31 0) 0 name,
  rw (ne, le→ltb_false _ _ hi),
  omega (arith, length-copy_at (replicate 31 0) 0 name),
  omega arith,
  take-copy_at (replicate 31 0) name hi,
)
  where
    ne : (length name == 0) ≡ false
    ne = ground arith
