-- ===== src/Prelude/Utf8.antt =====
-- `core::str::from_utf8` as a test: the well-formed byte sequences of the Unicode standard (table 3-7).
use Prim.Native.Nat.{ℕ}
use mathlib.Core.Bool.{Bool, true, false, ◌&&◌}
use mathlib.Core.List.{List, [], ◌∷◌}
use daphne_sc.Prelude.Tests.{ltb, leb, ◌==◌, if◌then◌else◌}

within : ℕ → ℕ → ℕ → Bool
within lo hi b = leb lo b && leb b hi

-- The range of the second byte, which rules out overlong forms, surrogates and numbers too large.
second_of_three : ℕ → ℕ → Bool
unfolding within
second_of_three a b =
    if a == 0xe0
    then within 0xa0 0xbf b
    else if a == 0xed
    then within 0x80 0x9f b
    else within 0x80 0xbf b

second_of_four : ℕ → ℕ → Bool
unfolding within
second_of_four a b =
    if a == 0xf0
    then within 0x90 0xbf b
    else if a == 0xf4
    then within 0x80 0x8f b
    else within 0x80 0xbf b

-- What each lead byte still wants.
pub data Lead : Type 0 where
  ascii two three four invalid : Lead

lead : ℕ → Lead
unfolding within
lead a =
    if ltb a 0x80
    then ascii
    else (if within 0xc2 0xdf a
        then two
        else (if within 0xe0 0xef a then three else (if within 0xf0 0xf4 a then four else invalid)))

-- The states of the scan: at a boundary, or with `n` plain continuation bytes to come, or after a
-- lead byte whose second byte is restricted.
pub data Scan : Type 0 where
  boundary last last_two : Scan
  after_three after_four : ℕ → Scan
  bad : Scan

enter : ℕ → Lead → Scan
enter a ascii = boundary
enter a two = last
enter a three = after_three a
enter a four = after_four a
enter a invalid = bad

scan_byte : Scan → ℕ → Scan
unfolding lead enter second_of_three second_of_four
scan_byte boundary a = enter a (lead a)
scan_byte last b = if within 0x80 0xbf b then boundary else bad
scan_byte last_two b = if within 0x80 0xbf b then last else bad
scan_byte (after_three a) b = if second_of_three a b then last else bad
scan_byte (after_four a) b = if second_of_four a b then last_two else bad
scan_byte bad b = bad

scan : Scan → List ℕ → Bool
unfolding scan_byte
scan boundary [] = true
scan last [] = false
scan last_two [] = false
scan (after_three a) [] = false
scan (after_four a) [] = false
scan bad [] = false
scan s (b ∷ bs) = scan (scan_byte s b) bs

unfoldable pub is_utf8 : List ℕ → Bool
unfolding scan
is_utf8 bytes = scan boundary bytes
