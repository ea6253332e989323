-- ===== src/AfeFunctions/Spec.antt =====
-- The types of crates/daphne-sc-core/src/afe_functions.rs and the macro that fills its table. A name is
-- the list of its bytes.
use Prim.Native.Char.{code}
use daphne_sc.Prelude.{ℕ, List, [], ◌∷◌, String}

pub record AfeBitField : Type 0 where
  pub register : ℕ  -- u16
  pub msb : ℕ  -- u8
  pub lsb : ℕ  -- u8

pub data AfeFunctionValues : Type 0 where
  range : ℕ → ℕ → AfeFunctionValues
  options : List ℕ → AfeFunctionValues

pub record AfeFunctionSpec : Type 0 where
  pub name : List ℕ
  pub field : AfeBitField
  pub values : AfeFunctionValues

pub data AfeFunctionError : Type 0 where
  unknown_name invalid_value invalid_bit_field : AfeFunctionError

-- The bytes of an ASCII text.
abbrev pub ascii : String → List ℕ
ascii String.[] = []
ascii (String.◌∷◌ c s) = code c ∷ ascii s

-- `afe_function!`
abbrev pub afe_function : String → ℕ → ℕ → ℕ → AfeFunctionValues → AfeFunctionSpec
afe_function name register msb lsb values = record {
  name = ascii name;
  field = record { register = register; msb = msb; lsb = lsb };
  values = values;
}
