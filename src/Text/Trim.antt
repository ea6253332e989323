-- ===== src/Text/Trim.antt =====
-- `str::trim` on the bytes of a text in UTF-8: the code points of `White_Space` at both ends go.
use daphne_sc.Prelude.{
  ℕ, zero, suc, ◌≤◌, ◌<◌, ◌≡◌, [], ◌∷◌, Bool, ◌&&◌, ◌||◌, ◌==◌, leb, length, arith,
}
use daphne_sc.Prelude.{Option, none, some, if◌then◌else◌, Option-cases, inl, inr}
use mathlib.Core.List.{reverse}
use daphne_sc.Text.{Text}

-- The code points of one, two and three bytes.
abbrev space_1 : ℕ → Bool
space_1 a = (leb 9 a && leb a 13) || a == 0x20

abbrev space_2 : ℕ → ℕ → Bool
space_2 a b = a == 0xc2 && (b == 0x85 || b == 0xa0)

abbrev space_3 : ℕ → ℕ → ℕ → Bool
space_3 a b c =
    (a == 0xe1 && b == 0x9a && c == 0x80)
    || (a == 0xe2
        && b == 0x80
        && ((leb 0x80 c && leb c 0x8a) || c == 0xa8 || c == 0xa9 || c == 0xaf))
    || (a == 0xe2 && b == 0x81 && c == 0x9f)
    || (a == 0xe3 && b == 0x80 && c == 0x80)

-- One code point that a test accepts, dropped.
drop_by : (ℕ → Bool) → (ℕ → ℕ → Bool) → (ℕ → ℕ → ℕ → Bool) → Text → Option Text
drop_by one two three [] = none
drop_by one two three (a ∷ []) = if one a then some [] else none
drop_by one two three (a ∷ b ∷ []) =
    if one a then some (b ∷ []) else if two a b then some [] else none
drop_by one two three (a ∷ b ∷ c ∷ rest) =
    if one a
    then some (b ∷ c ∷ rest)
    else if two a b
    then some (c ∷ rest)
    else if three a b c
    then some rest
    else none

pub drop_front : Text → Option Text
unfolding drop_by
drop_front = drop_by space_1 space_2 space_3

-- The same on the bytes in reverse.
pub drop_back : Text → Option Text
unfolding drop_by
drop_back = drop_by space_1 (λ b a. space_2 a b) (λ c b a. space_3 a b c)

-- As often as there is one; the length is enough fuel.
pub drop_all : ℕ → (Text → Option Text) → Text → Text
drop_all zero drop text = text
drop_all (suc fuel) drop text = elim (drop text) [
  | none ↦ text
  | some rest ↦ drop_all fuel drop rest
]

unfoldable pub trim : Text → Text
unfolding drop_front drop_back drop_all
trim text =
    let front = drop_all (length text) drop_front text in
    reverse (drop_all (length front) drop_back (reverse front))

drop_by-length :
    (one : ℕ → Bool) (two : ℕ → ℕ → Bool) (three : ℕ → ℕ → ℕ → Bool) (text rest : Text)
    → drop_by one two three text ≡ some rest
    → length rest < length text
unfolding drop_by
drop_by-length one two three [] rest h = ground arith
drop_by-length one two three (a ∷ []) rest h = ground arith
drop_by-length one two three (a ∷ b ∷ []) rest h = ground arith
drop_by-length one two three (a ∷ b ∷ c ∷ more) rest h = ground arith

-- With that fuel no space is left in front.
drop_all_done :
    (drop : Text → Option Text)
    → ((text rest : Text) → drop text ≡ some rest → length rest < length text)
    → (fuel : ℕ) (text : Text) → length text ≤ fuel
    → drop (drop_all fuel drop text) ≡ none
unfolding drop_all
drop_all_done drop shorter zero text h = elim (Option-cases (drop text)) [
  | inl e ↦ e
  | inr (rest, e) ↦ absurd (omega (arith, shorter text rest e))
]
drop_all_done drop shorter (suc fuel) text h = elim (Option-cases (drop text)) [
  | inl e ↦ ground arith
  | inr (rest, e) ↦
      let less = shorter text rest e in
      ground (arith, drop_all_done drop shorter fuel rest (omega arith))
]

pub drop_front_done : (text : Text) → drop_front (drop_all (length text) drop_front text) ≡ none
unfolding drop_front
drop_front_done text =
    drop_all_done drop_front (drop_by-length space_1 space_2 space_3) (length text) text
      (omega arith)
