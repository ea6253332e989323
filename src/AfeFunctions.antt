-- ===== src/AfeFunctions.antt =====
-- The named functions of an AFE and their bit fields, crates/daphne-sc-core/src/afe_functions.rs.
pub mod Spec
pub mod Table
pub mod BitFields
pub mod Values
use daphne_sc.Prelude.{
  ℕ, ◌+◌, ◌-◌, ◌*◌, ◌/◌, ◌%◌, ◌^◌, bit_and, bit_or, List, [], ◌∷◌, Bool, true, false,
}
use daphne_sc.Prelude.{
  Option, none, some, Result, ok, err, ok_or, ◌>>=◌, ltb, leb, ◌==◌, ◌&&◌, ◌||◌, if◌then◌else◌,
}
use daphne_sc.AfeFunctions.Spec.{AfeBitField, AfeFunctionValues, AfeFunctionSpec, AfeFunctionError}
use daphne_sc.AfeFunctions.Table.{afe_functions}

-- `options.contains(&value)`
abbrev pub any_is : List ℕ → ℕ → Bool
any_is [] value = false
any_is (x ∷ xs) value = x == value || any_is xs value

-- `AfeFunctionValues::contains`
unfoldable pub contains : AfeFunctionValues → ℕ → Bool
contains (AfeFunctionValues.range min max) value = leb min value && leb value max
contains (AfeFunctionValues.options options) value = any_is options value

-- `AfeBitField::mask`
unfoldable pub mask : AfeBitField → Result AfeFunctionError ℕ
mask field =
    if ltb field.msb field.lsb || leb 16 field.msb
    then err AfeFunctionError.invalid_bit_field
    else ok ((2 ^ (field.msb - field.lsb + 1) - 1) * 2 ^ field.lsb % 2 ^ 16)

-- `==` on names.
abbrev pub same_name : List ℕ → List ℕ → Bool
same_name [] [] = true
same_name (b ∷ bs) (c ∷ cs) = b == c && same_name bs cs
same_name _ _ = false

-- `iter().find`
abbrev pub find_in : List AfeFunctionSpec → List ℕ → Option AfeFunctionSpec
find_in [] name = none
find_in (spec ∷ specs) name = if same_name spec.name name then some spec else find_in specs name

unfoldable pub find_afe_function : List ℕ → Option AfeFunctionSpec
find_afe_function name = find_in afe_functions name

unfoldable pub validate_afe_function_value : List ℕ → ℕ → Result AfeFunctionError AfeFunctionSpec
validate_afe_function_value name value = do
  spec ← ok_or (find_afe_function name) AfeFunctionError.unknown_name
  (if contains spec.values value then ok spec else err AfeFunctionError.invalid_value)

-- `!mask` is `65535 - mask` on u16.
unfoldable pub replace_afe_function_bits : ℕ → AfeBitField → ℕ → Result AfeFunctionError ℕ
replace_afe_function_bits register_value field value = do
  m ← mask field
  ok (bit_or (bit_and register_value (2 ^ 16 - 1 - m)) (bit_and (value * 2 ^ field.lsb % 2 ^ 16) m))

unfoldable pub extract_afe_function_bits : ℕ → AfeBitField → Result AfeFunctionError ℕ
extract_afe_function_bits register_value field = do
  m ← mask field
  ok (bit_and register_value m / 2 ^ field.lsb)
