-- ===== src/AfeFunctions/Values.antt =====
-- What the table of functions of crates/daphne-sc-core/src/afe_functions.rs says of their fields.
use daphne_sc.Prelude.{ℕ, ◌-◌, ◌^◌, ◌<◌, ◌≤◌, ◌≡◌, ◌≢◌, refl, sym, ap, ◌∙◌, arith, ok, err}
use daphne_sc.Prelude.{
  inl, inr, Bool-cases, subst, List, [], ◌∷◌, Bool, true, false, ◌&&◌, ◌||◌, leb, ltb, some,
  ok_or-eq-ok, >>=-eq-ok,
}
use daphne_sc.Prelude.{if◌then◌else◌, ok_or, ok-injective}
use Prim.Native.Nat.{max}
use daphne_sc.AfeFunctions.Spec.{AfeFunctionValues, AfeFunctionSpec, AfeFunctionError, ascii}
use daphne_sc.AfeFunctions.Table.{afe_functions}
use daphne_sc.AfeFunctions.{
  any_is, contains, same_name, find_in, find_afe_function, validate_afe_function_value,
}
use daphne_sc.AfeFunctions.{replace_afe_function_bits, extract_afe_function_bits}
use daphne_sc.AfeFunctions.BitFields.{width, parts, replace_afe_function_bits_lem}

abbrev largest_of : List ℕ → ℕ
largest_of [] = 0
largest_of (x ∷ xs) = max x (largest_of xs)

abbrev largest : AfeFunctionValues → ℕ
largest (AfeFunctionValues.range min max) = max
largest (AfeFunctionValues.options options) = largest_of options

any_is-le : (xs : List ℕ) (v : ℕ) → any_is xs v ≡ true → v ≤ largest_of xs
any_is-le [] v h = cc
any_is-le (x ∷ xs) v h = ground (arith, any_is-le xs v)

contains-le : (values : AfeFunctionValues) (v : ℕ) → contains values v ≡ true → v ≤ largest values
unfolding contains
contains-le (AfeFunctionValues.range min max) v h = ground arith
contains-le (AfeFunctionValues.options options) v h = any_is-le options v h

-- The one function whose field the source gives with the bits the wrong way round.
abbrev pub malformed : List ℕ
malformed = ascii "LVDS_OUTPUT_RATE_2X"

abbrev spec_fits : AfeFunctionSpec → Bool
spec_fits spec =
    same_name spec.name malformed
    || leb spec.field.lsb spec.field.msb
      && ltb spec.field.msb 16
      && ltb (largest spec.values) (2 ^ width spec.field)

abbrev all_fit : List AfeFunctionSpec → Bool
all_fit [] = true
all_fit (spec ∷ specs) = spec_fits spec && all_fit specs

table_fits : all_fit afe_functions ≡ true
table_fits = refl

same_name-eq : (a b : List ℕ) → same_name a b ≡ true → a ≡ b
same_name-eq [] [] h = refl
same_name-eq [] (c ∷ b) h = cc
same_name-eq (c ∷ a) [] h = cc
same_name-eq (c ∷ a) (d ∷ b) h = ground (arith, same_name-eq a b)

find_in-fits :
    (specs : List AfeFunctionSpec) (name : List ℕ) (spec : AfeFunctionSpec)
    → all_fit specs ≡ true
    → find_in specs name ≡ some spec
    → (spec_fits spec ≡ true) × (spec.name ≡ name)
find_in-fits [] name spec h e = cc
find_in-fits (s ∷ specs) name spec h e =
    ground (arith, find_in-fits specs name spec, same_name-eq s.name name)

spec_fits-bounds :
    (spec : AfeFunctionSpec)
    → spec_fits spec ≡ true
    → spec.name ≢ malformed
    → (spec.field.lsb ≤ spec.field.msb)
      × (spec.field.msb < 16)
      × (largest spec.values < 2 ^ width spec.field)
spec_fits-bounds spec h other = elim (Bool-cases (same_name spec.name malformed)) [
  | inl same ↦ absurd (other (same_name-eq spec.name malformed same))
  | inr differs ↦ bounds (rw differs at h)
]
  where
    bounds :
        (leb spec.field.lsb spec.field.msb
            && ltb spec.field.msb 16
            && ltb (largest spec.values) (2 ^ width spec.field))
          ≡ true
        → (spec.field.lsb ≤ spec.field.msb)
          × (spec.field.msb < 16)
          × (largest spec.values < 2 ^ width spec.field)
    bounds k = ground arith

accepted_only :
    (b : Bool) (found spec : AfeFunctionSpec) (e : AfeFunctionError)
    → (if b then ok found else err e) ≡ ok spec
    → (b ≡ true) × (found ≡ spec)
accepted_only true found spec e h = (refl, ok-injective h)
accepted_only false found spec e h = cc

accepted_is_listed :
    (name : List ℕ) (v : ℕ) (spec : AfeFunctionSpec)
    → validate_afe_function_value name v ≡ ok spec
    → (find_in afe_functions name ≡ some spec) × (contains spec.values v ≡ true)
unfolding validate_afe_function_value find_afe_function
accepted_is_listed name v spec h =
    let (found, e, tested) =
      >>=-eq-ok (ok_or (find_in afe_functions name) AfeFunctionError.unknown_name) _ h in
    let (inside, same) =
      accepted_only (contains found.values v) found spec AfeFunctionError.invalid_value tested in
    (
      ok_or-eq-ok (find_in afe_functions name) AfeFunctionError.unknown_name found e ∙ ap some same,
      subst (λ (s : AfeFunctionSpec). contains s.values v ≡ true) same inside,
    )

-- A value that is accepted for a function, `LVDS_OUTPUT_RATE_2X` excepted, fits the field of the
-- function, which is a field of a 16-bit register. Written to the field of a register, whatever the
-- field held, it is read back, and the bits above and below the field stay.
pub accepted_value_lem :
    (name : List ℕ) (v : ℕ) (spec : AfeFunctionSpec) (upper old lower : ℕ)
    → validate_afe_function_value name v ≡ ok spec
    → name ≢ malformed
    → upper < 2 ^ (15 - spec.field.msb)
    → old < 2 ^ width spec.field
    → lower < 2 ^ spec.field.lsb
    → (spec.name ≡ name)
      × (spec.field.lsb ≤ spec.field.msb)
      × (spec.field.msb < 16)
      × (v < 2 ^ width spec.field)
      × (replace_afe_function_bits (parts spec.field upper old lower) spec.field v
          ≡ ok (parts spec.field upper v lower))
      × (extract_afe_function_bits (parts spec.field upper v lower) spec.field ≡ ok v)
accepted_value_lem name v spec upper old lower accepted other hu ho hl =
    let (listed, inside) = accepted_is_listed name v spec accepted in
    let (fits, named) = find_in-fits afe_functions name spec table_fits listed in
    let (ordered, in_register, top) = spec_fits-bounds spec fits (λ e. other (sym named ∙ e)) in
    let v_lt : v < 2 ^ width spec.field = omega (arith, contains-le spec.values v inside, top) in
    let (written, read) =
      replace_afe_function_bits_lem spec.field ordered in_register upper lower v hu hl v_lt old
        ho in
    (named, ordered, in_register, v_lt, written, read)
