-- ===== src/Text/Parse.antt =====
-- `parse` and `from_str_radix` of the unsigned integers, on the bytes of a text.
use daphne_sc.Prelude.{
  ℕ, ◌+◌, ◌-◌, ◌*◌, [], ◌∷◌, ◌&&◌, ◌==◌, ltb, leb, Option, none, some, if◌then◌else◌,
}
use daphne_sc.Text.{Text}

-- The value of a byte as a digit; what is no digit has the value 36.
unfoldable pub digit_value : ℕ → ℕ
digit_value b =
    if leb 0x30 b && leb b 0x39
    then b - 0x30
    else if leb 0x41 b && leb b 0x5a
    then b - 0x37
    else if leb 0x61 b && leb b 0x7a
    then b - 0x57
    else 36

-- The digits from `n` on, with `none` for a byte that is no digit and for a value above `max`.
unfoldable pub parse_digits : ℕ → ℕ → ℕ → Text → Option ℕ
unfolding digit_value
parse_digits radix max n [] = some n
parse_digits radix max n (b ∷ bs) =
    let d = digit_value b in
    let rest = parse_digits radix max (n * radix + d) bs in
    if ltb d radix && leb (n * radix + d) max then rest else none

-- An unsigned integer up to `max`; one leading plus is accepted.
unfoldable pub parse_unsigned : ℕ → ℕ → Text → Option ℕ
unfolding parse_digits
parse_unsigned radix max [] = none
parse_unsigned radix max (b ∷ []) = if b == 0x2b then none else parse_digits radix max 0 (b ∷ [])
parse_unsigned radix max (b ∷ c ∷ bs) =
    if b == 0x2b then parse_digits radix max 0 (c ∷ bs) else parse_digits radix max 0 (b ∷ c ∷ bs)
