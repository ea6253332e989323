-- ===== src/Tests/Hw.antt =====
-- Inputs of the tests of crates/daphne-sc-core/src/afe_functions.rs, and the theorems on it and on afe_hw.rs at
-- concrete inputs.
use daphne_sc.Prelude.{ℕ, ◌^◌, ◌<◌, ◌≤◌, ◌≡◌, ◌≢◌, refl, ap, arith, true, false, ok}
use daphne_sc.AfeHw.{DacChip, DacRoute}
use daphne_sc.AfeHw.{afe_register_offset}
use daphne_sc.AfeHw.Offsets.{PerAfe, offset_of-injective}
use daphne_sc.AfeFunctions.Spec.{AfeFunctionSpec, AfeFunctionValues, ascii, afe_function}
use daphne_sc.AfeFunctions.{same_name, find_afe_function, validate_afe_function_value, contains}
use daphne_sc.AfeFunctions.{replace_afe_function_bits, extract_afe_function_bits}
use daphne_sc.AfeFunctions.BitFields.{replace_afe_function_bits_lem}
use daphne_sc.AfeFunctions.Values.{malformed, accepted_value_lem}
use daphne_sc.Prelude.{[], ◌∷◌}

offset_of-injective_example : (PerAfe.dac_trim ≡ PerAfe.dac_trim) × (◌≡◌ {A = ℕ} 4 4)
unfolding afe_register_offset
offset_of-injective_example = offset_of-injective PerAfe.dac_trim PerAfe.dac_trim 4 4 0x38 refl refl

abbrev route : DacRoute
route = record { chip = DacChip.u50; channel = 2; gain = true; buffer = true }

abbrev lpf : AfeFunctionSpec
lpf = afe_function "LPF_PROGRAMMABILITY" 51 3 1 (AfeFunctionValues.options (0 ∷ 2 ∷ 3 ∷ 4 ∷ []))

lpf_accepted : validate_afe_function_value (ascii "LPF_PROGRAMMABILITY") 4 ≡ ok lpf
unfolding validate_afe_function_value find_afe_function contains
lpf_accepted = refl

not_malformed : ascii "LPF_PROGRAMMABILITY" ≢ malformed
not_malformed e = let h : false ≡ true = ap (λ n. same_name n malformed) e in cc

accepted_value_lem_example :
    (lpf.name ≡ ascii "LPF_PROGRAMMABILITY")
    × (1 ≤ 3)
    × (3 < 16)
    × (4 < 2 ^ 3)
    × (replace_afe_function_bits 0xFFFF lpf.field 4 ≡ ok 0xFFF9)
    × (extract_afe_function_bits 0xFFF9 lpf.field ≡ ok 4)
accepted_value_lem_example =
    accepted_value_lem (ascii "LPF_PROGRAMMABILITY") 4 lpf 0xFFF 7 1 lpf_accepted not_malformed
      (omega arith) (omega arith) (omega arith)

replace_afe_function_bits_lem_example :
    (replace_afe_function_bits 0xFFFF lpf.field 4 ≡ ok 0xFFF9)
    × (extract_afe_function_bits 0xFFF9 lpf.field ≡ ok 4)
replace_afe_function_bits_lem_example =
    replace_afe_function_bits_lem lpf.field (omega arith) (omega arith) 0xFFF 1 4 (omega arith)
      (omega arith) (omega arith) 7 (omega arith)
