-- ===== src/Server/Collector/Sysfs.antt =====
-- The files that crates/daphne-sc-server/src/status_collector.rs reads, and the values in them.
use daphne_sc.Prelude.{
  ℕ, ◌-◌, ◌^◌, List, [], ◌∷◌, ◌++◌, Bool, true, false, ◌==◌, ltb, leb, if◌then◌else◌,
}
use daphne_sc.Prelude.{Option, none, some, Result, ok, err, ok_or, map_err, ◌>>=◌}
use daphne_sc.Text.{Text, ascii}
use daphne_sc.Text.Strings.{strip_prefix, strip_suffix, starts_with}
use daphne_sc.Text.Trim.{trim}
use daphne_sc.Text.Parse.{parse_unsigned}
use daphne_sc.Board.{Board}
use daphne_sc.Server.Collector.Floats.{Floats}

-- `<=` on texts
unfoldable pub text_leb : Text → Text → Bool
text_leb [] bs = true
text_leb (a ∷ as') [] = false
text_leb (a ∷ as') (b ∷ bs) = let rest = text_leb as' bs in if a == b then rest else ltb a b

-- `sort` and `sort_by_key`, which keep the order of equal items.
module _ {A : Type 0} (le : A → A → Bool) where
  unfoldable pub insert_by : A → List A → List A
  insert_by x [] = x ∷ []
  insert_by x (y ∷ ys) = if le x y then x ∷ y ∷ ys else y ∷ insert_by x ys

  unfoldable pub sort_by : List A → List A
  unfolding insert_by
  sort_by [] = []
  sort_by (x ∷ xs) = insert_by x (sort_by xs)

unfoldable pub keep_prefixed : Text → List Text → List Text
keep_prefixed prefix [] = []
keep_prefixed prefix (name ∷ names) =
    let rest = keep_prefixed prefix names in if starts_with prefix name then name ∷ rest else rest

-- The number of a file `<prefix><n>_input`, a u32.
unfoldable pub input_index : Text → Text → Option ℕ
input_index prefix name = elim (strip_prefix prefix name) [
  | none ↦ none
  | some rest ↦ elim (strip_suffix (ascii "_input") rest) [
    | none ↦ none
    | some number ↦ parse_unsigned 10 (2 ^ 32 - 1) number
  ]
]

pub record IndexedInput : Type 0 where
  pub index : ℕ
  pub path : Text

abbrev by_index : IndexedInput → IndexedInput → Bool
by_index a b = leb a.index b.index

unfoldable pub inputs_of : Text → Text → List Text → List IndexedInput
unfolding input_index
inputs_of dir prefix [] = []
inputs_of dir prefix (name ∷ names) =
    let rest = inputs_of dir prefix names in
    elim (input_index prefix name) [
      | none ↦ rest
      | some index ↦ record { index = index; path = dir ++ ascii "/" ++ name } ∷ rest
    ]

-- A directory under /sys: its path and its name.
pub record Entry : Type 0 where
  pub path : Text
  pub name : Text

unfoldable pub entries_of : Text → List Text → List Entry
entries_of root [] = []
entries_of root (name ∷ names) =
    record { path = root ++ ascii "/" ++ name; name = name } ∷ entries_of root names

module _ {K F : Type 0} (board : Board K F) (floats : Floats) (k : K) where
  unfoldable pub read_trimmed : Text → Option Text
  read_trimmed path = elim (board.read_to_string path k) [
    | ok content ↦ some (trim content)
    | err _ ↦ none
  ]

  unfoldable pub read_scaled : Text → ℕ → Result Text ℕ
  read_scaled path divisor = do
    raw ← ok_or (read_trimmed path) (path ++ ascii ": unreadable")
    value ← map_err (λ e. path ++ ascii ": " ++ e) (floats.parse raw)
    ok (floats.div value divisor)

  -- The names in a directory, of which there are none where it cannot be read.
  abbrev names_in : Text → List Text
  names_in dir = elim (board.read_dir dir k) [ none ↦ [] | some names ↦ names ]

  unfoldable pub glob_paths : Text → Text → List Entry
  glob_paths root prefix = entries_of root (sort_by text_leb (keep_prefixed prefix (names_in root)))

  unfoldable pub indexed_inputs : Text → Text → List IndexedInput
  indexed_inputs dir prefix = sort_by by_index (inputs_of dir prefix (names_in dir))
