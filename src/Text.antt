-- ===== src/Text.antt =====
-- How numbers are printed in the messages of crates/daphne-sc-core and crates/daphne-sc-server, `{n}` and
-- `{n:08x}`, and the texts of the errors of afe.rs. A text is the list of its bytes.
pub mod Strings
pub mod Trim
pub mod Parse
use daphne_sc.Prelude.{ℕ, zero, suc, ◌+◌, ◌/◌, ◌%◌, List, [], ◌∷◌, ◌++◌, ◌==◌, ltb, if◌then◌else◌}
use daphne_sc.Afe.{AfeValidationError}
pub use daphne_sc.AfeFunctions.Spec.{ascii}

abbrev pub Text : Type 0
Text = List ℕ

-- At most `fuel` digits, the last one first in the recursion.
abbrev decimal_digits : ℕ → ℕ → Text → Text
decimal_digits zero n rest = rest
decimal_digits (suc fuel) n rest =
    let rest = (0x30 + n % 10) ∷ rest in
    let longer = decimal_digits fuel (n / 10) rest in if n / 10 == 0 then rest else longer

-- `{n}`; a u64 has at most 20 digits.
unfoldable pub decimal : ℕ → Text
decimal n = decimal_digits 20 n []

abbrev hex_digit : ℕ → ℕ
hex_digit d = if ltb d 10 then 0x30 + d else 0x57 + d

abbrev hex_digits : ℕ → ℕ → Text → Text
hex_digits zero n rest = rest
hex_digits (suc count) n rest = hex_digits count (n / 16) (hex_digit (n % 16) ∷ rest)

-- `{n:08x}` of a u32
unfoldable pub hex_u32 : ℕ → Text
hex_u32 n = hex_digits 8 n []

-- `AfeValidationError`'s `Display`
unfoldable pub validation_error_text : AfeValidationError → Text
validation_error_text (AfeValidationError.afe_out_of_range afe) =
    ascii "AFE out of range: " ++ decimal afe ++ ascii "; expected 0..4"
validation_error_text (AfeValidationError.channel_out_of_range channel) =
    ascii "channel out of range: " ++ decimal channel ++ ascii "; expected 0..39"
validation_error_text (AfeValidationError.value_out_of_range value max) =
    ascii "value out of range: " ++ decimal value ++ ascii "; expected 0.." ++ decimal max

abbrev upper_hex_digit : ℕ → ℕ
upper_hex_digit d = if ltb d 10 then 0x30 + d else 0x37 + d

abbrev upper_hex_digits : ℕ → ℕ → Text → Text
upper_hex_digits zero n rest = rest
upper_hex_digits (suc count) n rest =
    upper_hex_digits count (n / 16) (upper_hex_digit (n % 16) ∷ rest)

-- `{n:08X}` of a u32
unfoldable pub upper_hex_u32 : ℕ → Text
upper_hex_u32 n = upper_hex_digits 8 n []

-- `{n:X}` of a number of 16 bits, without leading zeros
unfoldable pub upper_hex_u16 : ℕ → Text
upper_hex_u16 n =
    upper_hex_digits
      (if ltb n 0x10 then 1 else if ltb n 0x100 then 2 else if ltb n 0x1000 then 3 else 4) n []

-- `{n:02X}` of a u8
unfoldable pub upper_hex_u8 : ℕ → Text
upper_hex_u8 n = upper_hex_digits 2 n []

-- `{n:02X}` of a number of 16 bits: at least two digits
unfoldable pub upper_hex_wide : ℕ → Text
upper_hex_wide n = upper_hex_digits (if ltb n 0x100 then 2 else if ltb n 0x1000 then 3 else 4) n []

-- `{n:04x}` of a number of 16 bits
unfoldable pub hex_u16 : ℕ → Text
hex_u16 n = hex_digits 4 n []
