-- ===== src/Rpmsg/Sequences.antt =====
-- The numbers that a command is sent under.
use daphne_sc.Prelude.{ℕ, ◌+◌, ◌≤◌, ◌<◌, ◌≡◌, sym, ◌∙◌, arith, List, length, map, ok, ok-injective}
use daphne_sc.Afe.{AfeCommand}
use daphne_sc.Wire.Error.{ensure_record_count}
use daphne_sc.Wire.Command.{RpuWireCommand}
use daphne_sc.Wire.FromAfe.{frame_count_for_afe_command, from_afe_command_sequence}
use daphne_sc.Wire.FromAfe.Numbering.{sequence, count_up, frames_numbered}
use daphne_sc.Rpmsg.{wrap_sequence, reserve_sequences, u64_max}

reserved :
    (next count : ℕ)
    → 1 ≤ next
    → 1 ≤ count
    → count < u64_max
    → let r = reserve_sequences next count in
      (1 ≤ r.1) × (r.1 + count ≤ u64_max) × (r.0 ≡ r.1 + count)
unfolding reserve_sequences wrap_sequence
reserved next count h1 h2 h3 = ground arith

frame_count-bounds :
    (command : AfeCommand) (count : ℕ)
    → frame_count_for_afe_command command ≡ ok count
    → (1 ≤ count) × (count ≤ 131072)
unfolding frame_count_for_afe_command ensure_record_count
frame_count-bounds (AfeCommand.configure_frontend afes channels bias) count h = ground arith
frame_count-bounds _ count h = ground arith

-- From any positive state of `next_sequence`, the frames of a command sent under the numbers reserved
-- for it carry consecutive numbers from the first reserved one on. The first is positive, the number
-- after the last is at most 2^64 - 1, and that number is the state afterwards.
pub reserve_sequences_lem :
    (next count : ℕ) (command : AfeCommand) (frames : List RpuWireCommand)
    → 1 ≤ next
    → frame_count_for_afe_command command ≡ ok count
    → from_afe_command_sequence (reserve_sequences next count).1 command ≡ ok frames
    → let (next', first) = reserve_sequences next count in
      (map sequence frames ≡ count_up first (length frames))
      × (1 ≤ first)
      × (first + length frames ≤ u64_max)
      × (next' ≡ first + length frames)
reserve_sequences_lem next count command frames positive counted made =
    let (least, most) = frame_count-bounds command count counted in
    let (start, room, after) = reserved next count positive least (omega arith) in
    let (same, numbers) =
      frames_numbered (reserve_sequences next count).1 command frames start made in
    let e : count ≡ length frames = ok-injective (sym counted ∙ same) in
    (numbers (omega (arith, room, e)), start, omega (arith, room, e), omega (arith, after, e))
