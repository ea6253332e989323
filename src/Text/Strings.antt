-- ===== src/Text/Strings.antt =====
-- The methods of `str` and `[String]` that crates/daphne-sc-server uses, on the bytes of a text.
use daphne_sc.Prelude.{ℕ, List, [], ◌∷◌, ◌++◌, Bool, true, false, ◌&&◌, ◌||◌, ◌==◌}
use daphne_sc.Prelude.{Option, none, some, if◌then◌else◌}
use mathlib.Core.List.{reverse}
use daphne_sc.Text.{Text}

unfoldable pub text_eq : Text → Text → Bool
text_eq [] [] = true
text_eq [] (b ∷ bs) = false
text_eq (a ∷ as') [] = false
text_eq (a ∷ as') (b ∷ bs) = (a == b) && text_eq as' bs

unfoldable pub is_empty : Text → Bool
is_empty [] = true
is_empty (b ∷ bs) = false

-- `strip_prefix`
unfoldable pub strip_prefix : Text → Text → Option Text
strip_prefix [] text = some text
strip_prefix (p ∷ ps) [] = none
strip_prefix (p ∷ ps) (b ∷ bs) = let rest = strip_prefix ps bs in if p == b then rest else none

unfoldable pub starts_with : Text → Text → Bool
starts_with prefix text = elim (strip_prefix prefix text) [ none ↦ false | some rest ↦ true ]

-- `strip_suffix`
unfoldable pub strip_suffix : Text → Text → Option Text
strip_suffix suffix text = elim (strip_prefix (reverse suffix) (reverse text)) [
  | none ↦ none
  | some rest ↦ some (reverse rest)
]

-- `contains`
unfoldable pub contains : Text → Text → Bool
contains needle [] = is_empty needle
contains needle (b ∷ bs) = starts_with needle (b ∷ bs) || contains needle bs

-- `split_once` at one byte
unfoldable pub split_once : ℕ → Text → Option (Text × Text)
split_once sep [] = none
split_once sep (b ∷ bs) =
    let rest : Option (Text × Text) = elim (split_once sep bs) [
      | none ↦ none
      | some (l, r) ↦ some (b ∷ l, r)
    ] in
    if b == sep then some ([], bs) else rest

-- `split` at the bytes of a test: the first piece, and the pieces after it.
unfoldable pub split_pieces : (ℕ → Bool) → Text → Text × List Text
split_pieces sep [] = ([], [])
split_pieces sep (b ∷ bs) =
    let (piece, pieces) = split_pieces sep bs in
    if sep b then ([], piece ∷ pieces) else (b ∷ piece, pieces)

unfoldable pub split : (ℕ → Bool) → Text → List Text
split sep text = let (piece, pieces) = split_pieces sep text in piece ∷ pieces

-- `join`
unfoldable pub join : Text → List Text → Text
join sep [] = []
join sep (text ∷ []) = text
join sep (text ∷ next ∷ rest) = text ++ sep ++ join sep (next ∷ rest)
