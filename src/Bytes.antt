-- ===== src/Bytes.antt =====
-- The little-endian accessors at the foot of crates/daphne-sc-core/src/rpu_wire.rs. A byte array is
-- a list of numbers; every offset that the callers use lies inside the array.
pub mod Laws
use daphne_sc.Prelude.{ℕ, zero, suc, ◌+◌, ◌*◌, ◌/◌, ◌%◌, ◌<◌, List, [], ◌∷◌, copy_at, get_or}

abbrev pub IsByte : ℕ → Type 0
IsByte b = b < 256

-- `to_le_bytes` of a number of `k` bytes, and `from_le_bytes`.
unfoldable pub to_le_bytes : ℕ → ℕ → List ℕ
to_le_bytes zero v = []
to_le_bytes (suc k) v = (v % 256) ∷ to_le_bytes k (v / 256)

unfoldable pub from_le_bytes : List ℕ → ℕ
from_le_bytes [] = 0
from_le_bytes (b ∷ bs) = b + 256 * from_le_bytes bs

unfoldable pub put_u16 : List ℕ → ℕ → ℕ → List ℕ
unfolding to_le_bytes
put_u16 out offset value = copy_at out offset (to_le_bytes 2 value)

unfoldable pub put_u32 : List ℕ → ℕ → ℕ → List ℕ
unfolding to_le_bytes
put_u32 out offset value = copy_at out offset (to_le_bytes 4 value)

unfoldable pub put_u64 : List ℕ → ℕ → ℕ → List ℕ
unfolding to_le_bytes
put_u64 out offset value = copy_at out offset (to_le_bytes 8 value)

-- `input[i]`; the default stands for the panic, which no caller reaches.
abbrev pub index : List ℕ → ℕ → ℕ
index input i = get_or input i 0

unfoldable pub get_u16 : List ℕ → ℕ → ℕ
get_u16 input offset = from_le_bytes (index input offset ∷ index input (offset + 1) ∷ [])

unfoldable pub get_u32 : List ℕ → ℕ → ℕ
get_u32 input offset = from_le_bytes (
    index input offset
    ∷ index input (offset + 1)
    ∷ index input (offset + 2)
    ∷ index input (offset + 3)
    ∷ [])

unfoldable pub get_u64 : List ℕ → ℕ → ℕ
get_u64 input offset = from_le_bytes (
    index input offset
    ∷ index input (offset + 1)
    ∷ index input (offset + 2)
    ∷ index input (offset + 3)
    ∷ index input (offset + 4)
    ∷ index input (offset + 5)
    ∷ index input (offset + 6)
    ∷ index input (offset + 7)
    ∷ [])
