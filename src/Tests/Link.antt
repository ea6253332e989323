-- ===== src/Tests/Link.antt =====
-- The reservation of sequence numbers of crates/daphne-sc-server/src/rpmsg.rs, at the end of the range.
use daphne_sc.Prelude.{ℕ, ◌+◌, ◌≤◌, ◌≡◌, refl, arith, List, [], ◌∷◌, length, map, ok}
use daphne_sc.Wire.Command.{RpuWireCommand}
use daphne_sc.Wire.Error.{ensure_record_count}
use daphne_sc.Wire.FromAfe.{frame_count_for_afe_command, from_afe_command_sequence}
use daphne_sc.Wire.FromAfe.Frames.{session_frames, configure_frontend_sequence_lem}
use daphne_sc.Wire.FromAfe.Numbering.{sequence, count_up}
use daphne_sc.Rpmsg.{reserve_sequences, wrap_sequence, u64_max}
use daphne_sc.Rpmsg.Sequences.{reserve_sequences_lem}
use daphne_sc.Tests.Fake.{afe_config, channel_config, configure}

-- Two numbers are left, and the configuration takes four.
abbrev near_end : ℕ
near_end = 18446744073709551613

abbrev frames : List RpuWireCommand
frames = session_frames 1 (afe_config ∷ []) (channel_config ∷ []) 600

configure_made : from_afe_command_sequence (reserve_sequences near_end 4).1 configure ≡ ok frames
unfolding from_afe_command_sequence reserve_sequences wrap_sequence
configure_made =
    configure_frontend_sequence_lem 1 (afe_config ∷ []) (channel_config ∷ []) 600 (omega arith)
      (omega arith)

configure_counted : frame_count_for_afe_command configure ≡ ok 4
unfolding frame_count_for_afe_command ensure_record_count
configure_counted = refl

reserve_sequences_lem_example :
    (map sequence frames ≡ count_up (reserve_sequences near_end 4).1 (length frames))
    × (1 ≤ (reserve_sequences near_end 4).1)
    × ((reserve_sequences near_end 4).1 + length frames ≤ u64_max)
    × ((reserve_sequences near_end 4).0 ≡ (reserve_sequences near_end 4).1 + length frames)
reserve_sequences_lem_example =
    reserve_sequences_lem near_end 4 configure frames (omega arith) configure_counted configure_made
