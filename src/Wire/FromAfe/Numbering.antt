-- ===== src/Wire/FromAfe/Numbering.antt =====
-- The sequence numbers of the frames of one command, and how many frames there are.
use daphne_sc.Prelude.{
  ℕ, zero, suc, ◌+◌, ◌≤◌, ◌<◌, ◌^◌, ◌≡◌, refl, sym, ap, ap₂, ◌∙◌, subst, dec_le, arith,
}
use daphne_sc.Prelude.{>>=-eq-ok, ok-injective, ◌>>=◌}
use native.Mathlib.Nat.{add-zero, zero-add, suc-add, add-suc}
use daphne_sc.Prelude.{List, [], ◌∷◌, ◌++◌, map, length, ok, Result}
use daphne_sc.Prelude.{le→ltb_false}
use daphne_sc.Afe.{AfeFrontendConfig, ChannelFrontendConfig, AfeCommand}
use daphne_sc.Wire.Error.{RpuWireError, ensure_record_count, u16_max}
use daphne_sc.Wire.Command.{RpuWireCommand, status}
use daphne_sc.Wire.Payload.{set_function_name}
use daphne_sc.Wire.FromAfe.{afe_frame, channel_frame, apply_frame, begin_frame, sequence_for_frame}
use daphne_sc.Wire.FromAfe.{from_afe_command_sequence, frame_count_for_afe_command}
use daphne_sc.Wire.FromAfe.{fill, from_afe_command}
use daphne_sc.Wire.FromAfe.Frames.{afe_frames, channel_frames, session_frames}
use daphne_sc.Wire.FromAfe.Frames.{configure_frontend_sequence_lem, configure_frontend_sequence_err}
use daphne_sc.Wire.FromAfe.Frames.{length-session_frames}

-- The sequence number of a frame.
abbrev pub sequence : RpuWireCommand → ℕ
sequence c = c.sequence

-- `n` numbers from `a` on.
abbrev pub count_up : ℕ → ℕ → List ℕ
count_up a zero = []
count_up a (suc n) = a ∷ count_up (suc a) n

-- No wrap and no bump to 1 happens in this range.
sequence_in_range :
    (first k : ℕ) → 1 ≤ first → first + k < 2 ^ 64 → sequence_for_frame first k ≡ first + k
unfolding sequence_for_frame
sequence_in_range first k h1 h2 = omega arith

number_first : {a b : ℕ} {xs ys : List ℕ} → a ≡ b → xs ≡ ys → a ∷ xs ≡ b ∷ ys
number_first p q = ap₂ (λ a xs. a ∷ xs) p q

module _ (first : ℕ) (positive : 1 ≤ first) where
  afe_frames-numbers :
      (afes : List AfeFrontendConfig) (k m : ℕ) (rest : List RpuWireCommand)
      → first + (k + (length afes + m)) ≤ 2 ^ 64
      → map sequence rest ≡ count_up (first + (k + length afes)) m
      → map sequence (afe_frames first k afes ++ rest) ≡ count_up (first + k) (length afes + m)
  unfolding afe_frame
  afe_frames-numbers [] k m rest fits h = rw zero-add (rw add-zero at h)
  afe_frames-numbers (config ∷ afes) k m rest fits h = rw suc-add (
      number_first (sequence_in_range first k positive (omega arith)) (
        rw add-suc at
          (afe_frames-numbers afes (suc k) m rest (omega arith) (rw (add-suc, ← suc-add) at h))))

  channel_frames-numbers :
      (channels : List ChannelFrontendConfig) (k m : ℕ) (rest : List RpuWireCommand)
      → first + (k + (length channels + m)) ≤ 2 ^ 64
      → map sequence rest ≡ count_up (first + (k + length channels)) m
      → map sequence (channel_frames first k channels ++ rest)
        ≡ count_up (first + k) (length channels + m)
  unfolding channel_frame
  channel_frames-numbers [] k m rest fits h = rw zero-add (rw add-zero at h)
  channel_frames-numbers (config ∷ channels) k m rest fits h = rw suc-add (
      number_first (sequence_in_range first k positive (omega arith)) (
        rw add-suc at (
          channel_frames-numbers channels (suc k) m rest (omega arith)
            (rw (add-suc, ← suc-add) at h))))

fill-sequence :
    (wire : RpuWireCommand) (command : AfeCommand) {c : RpuWireCommand}
    → fill wire command ≡ ok c
    → c.sequence ≡ wire.sequence
unfolding fill set_function_name
fill-sequence wire AfeCommand.align h = ground arith
fill-sequence wire _ h = ground arith

begin-sequence : (s n m b : ℕ) → (begin_frame s n m b).sequence ≡ s
unfolding begin_frame
begin-sequence s n m b = refl

apply-sequence : (s n m : ℕ) → (apply_frame s n m).sequence ≡ s
unfolding apply_frame
apply-sequence s n m = refl

session_frames-numbers :
    (first : ℕ) (afes : List AfeFrontendConfig) (channels : List ChannelFrontendConfig) (bias : ℕ)
    → 1 ≤ first
    → first + (2 + length afes + length channels) ≤ 2 ^ 64
    → map sequence (session_frames first afes channels bias)
      ≡ count_up first (2 + length afes + length channels)
session_frames-numbers first afes channels bias positive fits =
    let n = length afes in
    let m = length channels in
    let h1 : map sequence (apply ∷ []) ≡ count_up (first + (suc n + m)) 1 =
      number_first
        (omega (
          arith,
          apply-sequence (sequence_for_frame first (suc (n + m))) n m,
          in_range (suc (n + m)),
        ))
        refl in
    let h2 : map sequence rest ≡ count_up (first + (1 + n)) (m + 1) =
      channel_frames-numbers first positive channels (suc n) 1 (apply ∷ []) (omega arith) h1
      ∙ ap (λ a. count_up a (m + 1)) (omega arith) in
    let h3 = afe_frames-numbers first positive afes 1 (m + 1) rest (omega arith) h2 in
    let e : 2 + n + m ≡ suc (n + (m + 1)) = omega arith in
    rw e (
      number_first (omega (arith, begin-sequence (sequence_for_frame first 0) n m bias, in_range 0))
        (h3 ∙ ap (λ a. count_up a (n + (m + 1))) (omega arith)))
  where
    apply : RpuWireCommand
    apply =
        apply_frame (sequence_for_frame first (suc (length afes + length channels))) (length afes)
          (length channels)

    rest : List RpuWireCommand
    rest = channel_frames first (suc (length afes)) channels ++ (apply ∷ [])

    in_range : (k : ℕ) → first + k < 2 ^ 64 → sequence_for_frame first k ≡ first + k
    in_range k h = sequence_in_range first k positive h

abbrev Numbered : ℕ → Result RpuWireError ℕ → List RpuWireCommand → Type 0
Numbered first count frames =
    (count ≡ ok (length frames))
    × (first + length frames ≤ 2 ^ 64 → map sequence frames ≡ count_up first (length frames))

single-Numbered :
    (first : ℕ) (command : AfeCommand) (frames : List RpuWireCommand)
    → (from_afe_command first command >>= λ frame. ok (frame ∷ [])) ≡ ok frames
    → Numbered first (ok 1) frames
unfolding from_afe_command
single-Numbered first command frames h =
    let (c, e, made) = >>=-eq-ok (fill (status first) command) _ h in
    subst (Numbered first (ok 1)) (ok-injective made)
      (refl, λ _. number_first (fill-sequence (status first) command e) refl)

session-Numbered :
    (first : ℕ) (afes : List AfeFrontendConfig) (channels : List ChannelFrontendConfig) (bias : ℕ)
    → 1 ≤ first
    → Numbered first
        (ok (2 + length afes + length channels))
        (session_frames first afes channels bias)
session-Numbered first afes channels bias positive =
    let e = length-session_frames first afes channels bias in
    (
      ap ok (sym e),
      λ fits.
          session_frames-numbers first afes channels bias positive (omega (arith, e))
          ∙ ap (count_up first) (sym e),
    )

-- Every command that can be sent, from a first number that is at least 1, yields as many frames as were
-- counted for it beforehand, and where that many numbers from the first on stay below 2^64, the frames
-- carry just these, in order.
pub frames_numbered :
    (first : ℕ) (command : AfeCommand) (frames : List RpuWireCommand)
    → 1 ≤ first
    → from_afe_command_sequence first command ≡ ok frames
    → (frame_count_for_afe_command command ≡ ok (length frames))
      × (first + length frames ≤ 2 ^ 64 → map sequence frames ≡ count_up first (length frames))
unfolding from_afe_command_sequence frame_count_for_afe_command
frames_numbered first (AfeCommand.configure_frontend afes channels bias) frames positive h =
    elim (dec_le (length afes) u16_max) [
      | no p ↦ cc (h, (configure_frontend_sequence_err first afes channels bias).0 (omega arith))
      | yes p ↦ elim (dec_le (length channels) u16_max) [
        | no q ↦
            cc (h, (configure_frontend_sequence_err first afes channels bias).1 p (omega arith))
        | yes q ↦
            let made = configure_frontend_sequence_lem first afes channels bias p q in
            subst (Numbered first _) (ok-injective (sym made ∙ h)) (
              unfold ensure_record_count in
              rw (le→ltb_false _ _ p, le→ltb_false _ _ q)
                (session-Numbered first afes channels bias positive))
      ]
    ]
frames_numbered first command frames positive h = single-Numbered first command frames h
