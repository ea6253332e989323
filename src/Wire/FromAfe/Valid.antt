-- ===== src/Wire/FromAfe/Valid.antt =====
-- The frames of a command fit the types of the command record.
use daphne_sc.Prelude.{ℕ, suc, ◌%◌, ◌<◌, ◌^◌, ◌≡◌, refl, subst, arith}
use daphne_sc.Prelude.{List, [], ◌∷◌, length, set, length-set, length-copy_at, replicate}
use daphne_sc.Prelude.{All, All-append, All-set, All-copy_at, Bool, of_bool, ok, ◌>>=◌}
use daphne_sc.Prelude.{>>=-eq-ok, ok-injective}
use daphne_sc.Bytes.{IsByte}
use daphne_sc.Afe.{ChannelTarget, AfeFrontendConfig, ChannelFrontendConfig, AfeCommand}
use daphne_sc.Afe.InRange.{IsU16, IsTarget, IsAfeConfig, IsChannelConfig, InRange}
use daphne_sc.Wire.Command.{RpuWireCommand, IsCommand, status}
use daphne_sc.Wire.Payload.{set_function_name, pack_u16_pair}
use daphne_sc.Wire.Payload.Laws.{pack_u16_pair-sum, pack_adc-lt, pack_pga_flags-lt}
use daphne_sc.Wire.FromAfe.{set_channel_target, fill, sequence_for_frame}
use daphne_sc.Wire.FromAfe.{from_afe_command_sequence, from_afe_command}
use daphne_sc.Wire.FromAfe.Frames.{afe_frames, channel_frames, session_frames}
use daphne_sc.Wire.FromAfe.Frames.{configure_frontend_sequence-eq-ok}
use daphne_sc.Wire.FromAfe.{begin_frame, afe_frame, channel_frame, apply_frame}

of_bool-lt : (b : Bool) → of_bool b < 2
of_bool-lt b = ground arith

-- The blank command.
zeros : All IsByte (replicate 32 0)
zeros = omega arith

status-IsCommand : (s : ℕ) → s < 2 ^ 64 → IsCommand (status s)
unfolding status
status-IsCommand s h = record {
  sequence_lt = h;
  afe_board_lt = omega arith;
  afe_pl_lt = omega arith;
  channel_lt = omega arith;
  afe_channel_lt = omega arith;
  register_lt = omega arith;
  value_lt = omega arith;
  flags_lt = omega arith;
  length-payload = refl;
  payload_bytes = zeros;
}

set_function_name-fits :
    (payload name : List ℕ) {p : List ℕ}
    → length payload ≡ 32
    → All IsByte payload
    → All IsByte name
    → set_function_name payload name ≡ ok p
    → (length p ≡ 32) × All IsByte p
unfolding set_function_name
set_function_name-fits payload name n h k e = ground (
  arith,
  length-copy_at (set payload 0 (length name % 256)) 1 name,
  length-set payload 0 (length name % 256),
  All-copy_at IsByte (set payload 0 (length name % 256)) 1 name,
  All-set IsByte payload 0 (length name % 256) h,
)

set_channel_target-IsCommand :
    (c : RpuWireCommand) (t : ChannelTarget)
    → IsCommand c
    → IsTarget t
    → IsCommand (set_channel_target c t)
unfolding set_channel_target
set_channel_target-IsCommand c (ChannelTarget.one channel) w h = ground arith
set_channel_target-IsCommand c (ChannelTarget.afe a) w h = ground arith
set_channel_target-IsCommand c ChannelTarget.all w h = ground arith

fill-IsCommand :
    (wire : RpuWireCommand) (command : AfeCommand) {c : RpuWireCommand}
    → IsCommand wire
    → InRange command
    → fill wire command ≡ ok c
    → IsCommand c
unfolding fill
fill-IsCommand wire (AfeCommand.read_register afe register) w h e = ground arith
fill-IsCommand wire (AfeCommand.write_function afe name value) w h e =
    let (p, stored, made) = >>=-eq-ok (set_function_name wire.payload name) _ e in
    ground
      (arith, set_function_name-fits wire.payload name w.length-payload w.payload_bytes h.1 stored)
fill-IsCommand wire _ w h e = ground arith

pack_u16_pair-lt : (low high : ℕ) → IsU16 low → IsU16 high → pack_u16_pair low high < 2 ^ 32
pack_u16_pair-lt low high hl hh = omega (arith, pack_u16_pair-sum low high hl)

pub sequence_for_frame-lt : (first k : ℕ) → sequence_for_frame first k < 2 ^ 64
unfolding sequence_for_frame
sequence_for_frame-lt first k = omega arith

module _ (s : ℕ) (h : s < 2 ^ 64) where
  pub begin_frame-IsCommand : (n m bias : ℕ) → IsU16 bias → IsCommand (begin_frame s n m bias)
  unfolding begin_frame
  begin_frame-IsCommand n m bias b =
      ground (arith, status-IsCommand s h, pack_u16_pair-lt (n % 2 ^ 16) (m % 2 ^ 16))

  pub apply_frame-IsCommand : (n m : ℕ) → IsCommand (apply_frame s n m)
  unfolding apply_frame
  apply_frame-IsCommand n m =
      ground (arith, status-IsCommand s h, pack_u16_pair-lt (n % 2 ^ 16) (m % 2 ^ 16))

  pub channel_frame-IsCommand :
      (config : ChannelFrontendConfig) → IsChannelConfig config → IsCommand (channel_frame s config)
  unfolding channel_frame
  channel_frame-IsCommand config v =
      ground (arith, status-IsCommand s h, pack_u16_pair-lt config.offset config.gain)

  pub afe_frame-IsCommand :
      (config : AfeFrontendConfig) → IsAfeConfig config → IsCommand (afe_frame s config)
  unfolding afe_frame
  afe_frame-IsCommand config v =
      ground (arith, status-IsCommand s h, pack_adc-lt config.adc, pack_pga_flags-lt config.pga)

afe_frames-IsCommand :
    (first k : ℕ) (afes : List AfeFrontendConfig)
    → All IsAfeConfig afes
    → All IsCommand (afe_frames first k afes)
afe_frames-IsCommand first k [] h = tt
afe_frames-IsCommand first k (config ∷ afes) (h, hs) = (
  afe_frame-IsCommand (sequence_for_frame first k) (sequence_for_frame-lt first k) config h,
  afe_frames-IsCommand first (suc k) afes hs,
)

channel_frames-IsCommand :
    (first k : ℕ) (channels : List ChannelFrontendConfig)
    → All IsChannelConfig channels
    → All IsCommand (channel_frames first k channels)
channel_frames-IsCommand first k [] h = tt
channel_frames-IsCommand first k (config ∷ channels) (h, hs) = (
  channel_frame-IsCommand (sequence_for_frame first k) (sequence_for_frame-lt first k) config h,
  channel_frames-IsCommand first (suc k) channels hs,
)

session_frames-IsCommand :
    (first : ℕ) (afes : List AfeFrontendConfig) (channels : List ChannelFrontendConfig) (bias : ℕ)
    → All IsAfeConfig afes
    → All IsChannelConfig channels
    → IsU16 bias
    → All IsCommand (session_frames first afes channels bias)
session_frames-IsCommand first afes channels bias ha hc hb = (
  begin_frame-IsCommand _ (sequence_for_frame-lt first 0) _ _ bias hb,
  All-append IsCommand (afe_frames first 1 afes) _ (afe_frames-IsCommand first 1 afes ha) (
      All-append IsCommand (channel_frames first (suc (length afes)) channels) _
        (channel_frames-IsCommand first (suc (length afes)) channels hc)
        (apply_frame-IsCommand _ (sequence_for_frame-lt first _) _ _, tt)),
)

single-IsCommand :
    (first : ℕ) (command : AfeCommand) (frames : List RpuWireCommand)
    → first < 2 ^ 64
    → InRange command
    → (from_afe_command first command >>= λ frame. ok (frame ∷ [])) ≡ ok frames
    → All IsCommand frames
unfolding from_afe_command
single-IsCommand first command frames fits h e =
    let (c, filled, made) = >>=-eq-ok (fill (status first) command) _ e in
    subst (All IsCommand) (ok-injective made)
      (fill-IsCommand (status first) command (status-IsCommand first fits) h filled, tt)

pub frames-IsCommand :
    (first : ℕ) (command : AfeCommand) (frames : List RpuWireCommand)
    → first < 2 ^ 64
    → InRange command
    → from_afe_command_sequence first command ≡ ok frames
    → All IsCommand frames
unfolding from_afe_command_sequence
frames-IsCommand first (AfeCommand.configure_frontend afes channels bias) frames fits h e =
    subst (All IsCommand) (configure_frontend_sequence-eq-ok first afes channels bias frames e)
      (session_frames-IsCommand first afes channels bias h.0 h.1 h.2)
frames-IsCommand first command frames fits h e = single-IsCommand first command frames fits h e
