-- ===== src/Rpmsg.antt =====
-- The sequence numbers of the RPMsg transport, crates/daphne-sc-server/src/rpmsg.rs: the field
-- `next_sequence` of `RpmsgAfeTransport`, as it is before and after a call.
pub mod Sequences
pub mod Texts
pub mod Device
pub mod Transact
pub mod OverRuntime
pub mod Configuration
use Prim.Native.Nat.{min, max}
use daphne_sc.Prelude.{ℕ, ◌+◌, ◌-◌, ◌%◌, ◌^◌, ltb, ◌==◌, if◌then◌else◌}

abbrev pub u64_max : ℕ
u64_max = 2 ^ 64 - 1

-- `next_sequence`: the next state and the number.
unfoldable pub next_sequence : ℕ → ℕ × ℕ
next_sequence next = (max ((next + 1) % 2 ^ 64) 1, next)

-- `self.next_sequence = 1` where the count does not fit.
unfoldable pub wrap_sequence : ℕ → ℕ → ℕ
wrap_sequence next count = if ltb (u64_max - count) next then 1 else next

-- `reserve_sequences`: the next state and the first number.
unfoldable pub reserve_sequences : ℕ → ℕ → ℕ × ℕ
unfolding wrap_sequence
reserve_sequences next count =
    let count = min count u64_max in
    if count == 0
    then (next, next)
    else (let first = wrap_sequence next count in (max (min (first + count) u64_max) 1, first))
