-- ===== src/Server/Preflight/Config.antt =====
-- The configuration of the board in crates/daphne-sc-server/src/preflight.rs: its files, the environment
-- and the values in them.
use daphne_sc.Prelude.{
  ℕ, ◌-◌, List, [], ◌∷◌, Bool, true, false, ◌&&◌, ◌||◌, not, ◌==◌, leb, length, take, drop,
}
use daphne_sc.Prelude.{Option, none, some, ok, err, if◌then◌else◌}
use daphne_sc.Text.{Text, ascii}
use daphne_sc.Text.Strings.{
  text_eq, is_empty, strip_prefix, strip_suffix, starts_with, split_once, split,
}
use daphne_sc.Text.Trim.{trim}
use daphne_sc.Text.Parse.{parse_unsigned}
use daphne_sc.Board.{Board}
use daphne_sc.I2c.{i2c_bus_candidates}
use daphne_sc.Server.Status.{unwrap_or}

-- `HashMap<String, String>`: the last insertion of a key stands first.
abbrev pub Config : Type 0
Config = List (Text × Text)

unfoldable pub get : Config → Text → Option Text
get [] key = none
get ((k, v) ∷ rest) key = let more = get rest key in if text_eq k key then some v else more

-- The pieces of a text between line feeds; the last one counts only if it is not empty.
unfoldable pub line_pieces : List Text → List Text
line_pieces [] = []
line_pieces (piece ∷ []) = if is_empty piece then [] else piece ∷ []
line_pieces (piece ∷ next ∷ rest) = piece ∷ line_pieces (next ∷ rest)

-- `lines`, without the carriage returns that `trim` takes away next.
unfoldable pub lines : Text → List Text
unfolding line_pieces
lines content = line_pieces (split (λ b. b == 0x0a) content)

unfoldable pub ends_with : Text → Text → Bool
ends_with suffix text = elim (strip_suffix suffix text) [ none ↦ false | some rest ↦ true ]

abbrev double_quote : Text
double_quote = 0x22 ∷ []

abbrev single_quote : Text
single_quote = 0x27 ∷ []

unfoldable pub unquote : Text → Text
unfolding ends_with
unquote value =
    let quoted =
      (starts_with double_quote value && ends_with double_quote value)
      || (starts_with single_quote value && ends_with single_quote value) in
    if quoted && leb 2 (length value) then take (length value - 2) (drop 1 value) else value

-- A line of a file, put into the map.
unfoldable pub read_line : Text → Config → Config
unfolding unquote
read_line text values =
    let line = trim text in
    if is_empty line || starts_with (ascii "#") line then values else (elim (split_once 0x3d line) [
      | none ↦ values
      | some (key, value) ↦ (trim key, unquote (trim value)) ∷ values
    ])

unfoldable pub read_lines : List Text → Config → Config
unfolding read_line
read_lines [] values = values
read_lines (line ∷ rest) values = read_lines rest (read_line line values)

module _ {K F : Type 0} (board : Board K F) (k : K) where
  unfoldable pub read_files : List Text → Config → Config
  unfolding read_lines lines
  read_files [] values = values
  read_files (path ∷ paths) values = elim (board.read_to_string path k) [
    | err _ ↦ read_files paths values
    | ok content ↦ read_files paths (read_lines (lines content) values)
  ]

  unfoldable pub read_board_config : Config
  unfolding read_files
  read_board_config =
      read_files
        (ascii "/etc/default/firmware"
          ∷ ascii "/etc/daphne-board.env"
          ∷ ascii "/etc/daphne-sc.env"
          ∷ [])
        []

  -- An empty value counts as none.
  abbrev pub non_empty : Option Text → Option Text
  non_empty none = none
  non_empty (some value) = if is_empty value then none else some value

  unfoldable pub env_value : Config → Text → Text → Text
  unfolding get
  env_value config key default = elim (non_empty (board.env_var key k)) [
    | some value ↦ value
    | none ↦ unwrap_or (non_empty (get config key)) default
  ]

unfoldable pub parse_i2c_addr : Text → Option ℕ
parse_i2c_addr addr =
    let trimmed = trim addr in
    elim (strip_prefix (ascii "0x") trimmed) [
      | some hex ↦ parse_unsigned 16 0xffff hex
      | none ↦ elim (strip_prefix (ascii "0X") trimmed) [
        | some hex ↦ parse_unsigned 16 0xffff hex
        | none ↦ parse_unsigned 10 0xffff trimmed
      ]
    ]

unfoldable pub parse_u8_integer : Text → Option ℕ
unfolding parse_i2c_addr
parse_u8_integer value = elim (parse_i2c_addr value) [
  | none ↦ none
  | some n ↦ if leb n 0xff then some n else none
]

-- The states that the tokens name; blank tokens and those that do not parse are left out.
unfoldable pub parse_states : List Text → List ℕ
unfolding parse_u8_integer
parse_states [] = []
parse_states (token ∷ tokens) =
    let rest = parse_states tokens in
    if is_empty (trim token)
    then rest
    else (elim (parse_u8_integer token) [ none ↦ rest | some state ↦ state ∷ rest ])

-- `if states.is_empty() { states.push(0x8) }`
abbrev or_8 : List ℕ → List ℕ
or_8 [] = 0x8 ∷ []
or_8 (state ∷ states) = state ∷ states

module _ {K F : Type 0} (board : Board K F) (k : K) (config : Config) where
  unfoldable pub endpoint_success_states : List ℕ
  unfolding parse_states env_value
  endpoint_success_states =
      let raw = env_value board k config (ascii "ENDPOINT_SUCCESS_STATES") (ascii "0x8") in
      or_8 (parse_states (split (λ b. b == 0x2c || b == 0x20) raw))

  unfoldable pub clockchip_bus_candidates : List ℕ
  unfolding env_value
  clockchip_bus_candidates =
      let configured = env_value board k config (ascii "CLOCKCHIP_BUS") (ascii "auto") in
      if not (is_empty configured) && not (text_eq configured (ascii "auto"))
      then (elim (parse_unsigned 10 0xff configured) [ none ↦ [] | some bus ↦ bus ∷ [] ])
      else i2c_bus_candidates board.kernel none k
