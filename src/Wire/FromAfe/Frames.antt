-- ===== src/Wire/FromAfe/Frames.antt =====
-- The sequence of frames of a frontend configuration: its order, its length and its numbering.
use daphne_sc.Prelude.{ℕ, suc, ◌+◌, ◌≤◌, ◌<◌, ◌≡◌, refl, sym, ap, ◌∙◌, arith}
use daphne_sc.Prelude.{List, [], ◌∷◌, ◌++◌, length, length-append, append_assoc, append-nil}
use daphne_sc.Prelude.{ok, err, le→ltb_false, lt→ltb, dec_le, ok-injective}
use daphne_sc.Afe.{AfeFrontendConfig, ChannelFrontendConfig}
use daphne_sc.Wire.Error.{RpuWireError, ensure_record_count, u16_max}
use daphne_sc.Wire.Command.{RpuWireCommand}
use daphne_sc.Wire.FromAfe.{begin_frame, afe_frame, channel_frame, apply_frame, sequence_for_frame}
use daphne_sc.Wire.FromAfe.{push_afes, push_channels, configure_frontend_sequence}

-- One frame for each record, numbered from the `k`th on.
abbrev pub afe_frames : ℕ → ℕ → List AfeFrontendConfig → List RpuWireCommand
afe_frames first k [] = []
afe_frames first k (config ∷ afes) =
    afe_frame (sequence_for_frame first k) config ∷ afe_frames first (suc k) afes

abbrev pub channel_frames : ℕ → ℕ → List ChannelFrontendConfig → List RpuWireCommand
channel_frames first k [] = []
channel_frames first k (config ∷ channels) =
    channel_frame (sequence_for_frame first k) config ∷ channel_frames first (suc k) channels

-- The whole sequence: begin, the AFEs, the channels, apply.
abbrev pub session_frames :
    ℕ → List AfeFrontendConfig → List ChannelFrontendConfig → ℕ → List RpuWireCommand
session_frames first afes channels bias_control =
    begin_frame (sequence_for_frame first 0) (length afes) (length channels) bias_control
    ∷ (afe_frames first 1 afes
        ++ (channel_frames first (suc (length afes)) channels
            ++ (apply_frame (sequence_for_frame first (suc (length afes + length channels)))
                  (length afes) (length channels)
                ∷ [])))

length-afe_frames :
    (first k : ℕ) (afes : List AfeFrontendConfig) → length (afe_frames first k afes) ≡ length afes
length-afe_frames first k [] = refl
length-afe_frames first k (config ∷ afes) = ap suc (length-afe_frames first (suc k) afes)

length-channel_frames :
    (first k : ℕ) (channels : List ChannelFrontendConfig)
    → length (channel_frames first k channels) ≡ length channels
length-channel_frames first k [] = refl
length-channel_frames first k (config ∷ channels) =
    ap suc (length-channel_frames first (suc k) channels)

length_snoc :
    (frames : List RpuWireCommand) (c : RpuWireCommand)
    → length (frames ++ (c ∷ [])) ≡ suc (length frames)
length_snoc frames c = omega (arith, length-append frames (c ∷ []))

push_afes_lem :
    (first : ℕ) (frames : List RpuWireCommand) (afes : List AfeFrontendConfig)
    → push_afes first frames afes ≡ frames ++ afe_frames first (length frames) afes
unfolding push_afes
push_afes_lem first frames [] = sym (append-nil frames)
push_afes_lem first frames (config ∷ afes) =
    push_afes_lem first
      (frames ++ (afe_frame (sequence_for_frame first (length frames)) config ∷ [])) afes
    ∙ rw (length_snoc, append_assoc)

push_channels_lem :
    (first : ℕ) (frames : List RpuWireCommand) (channels : List ChannelFrontendConfig)
    → push_channels first frames channels ≡ frames ++ channel_frames first (length frames) channels
unfolding push_channels
push_channels_lem first frames [] = sym (append-nil frames)
push_channels_lem first frames (config ∷ channels) =
    push_channels_lem first
      (frames ++ (channel_frame (sequence_for_frame first (length frames)) config ∷ [])) channels
    ∙ rw (length_snoc, append_assoc)

module _ (first : ℕ) (afes : List AfeFrontendConfig) (channels : List ChannelFrontendConfig)
    (begin : RpuWireCommand) where
  record_frames : List RpuWireCommand
  record_frames = afe_frames first 1 afes ++ channel_frames first (suc (length afes)) channels

  pushed : push_channels first (push_afes first (begin ∷ []) afes) channels ≡ begin ∷ record_frames
  unfolding record_frames
  pushed =
      push_channels_lem first _ channels
      ∙ rw (push_afes_lem first (begin ∷ []) afes, length-afe_frames first 1 afes)

  length-pushed : length (begin ∷ record_frames) ≡ suc (length afes + length channels)
  unfolding record_frames
  length-pushed = omega (
    arith,
    length-append (afe_frames first 1 afes) (channel_frames first (suc (length afes)) channels),
    length-afe_frames first 1 afes,
    length-channel_frames first (suc (length afes)) channels,
  )

module _ (first : ℕ) (afes : List AfeFrontendConfig) (channels : List ChannelFrontendConfig)
    (bias_control : ℕ) where
  -- With at most 65535 records of each kind the sequence is the one above.
  pub configure_frontend_sequence_lem :
      length afes ≤ u16_max
      → length channels ≤ u16_max
      → configure_frontend_sequence first afes channels bias_control
        ≡ ok (session_frames first afes channels bias_control)
  unfolding configure_frontend_sequence ensure_record_count record_frames
  configure_frontend_sequence_lem ha hc =
      rw (le→ltb_false _ _ ha, le→ltb_false _ _ hc)
        (rw (pushed first afes channels, length-pushed first afes channels, append_assoc) refl)

  -- More than 65535 AFE records are refused with an error that reports how many there are, whatever the
  -- channels; with at most that many AFE records, so are more than 65535 channel records.
  pub configure_frontend_sequence_err :
      (u16_max < length afes
        → configure_frontend_sequence first afes channels bias_control
          ≡ err (RpuWireError.payload_too_long "AFE config" u16_max (length afes)))
      × (length afes ≤ u16_max
          → u16_max < length channels
          → configure_frontend_sequence first afes channels bias_control
            ≡ err (RpuWireError.payload_too_long "channel config" u16_max (length channels)))
  unfolding configure_frontend_sequence ensure_record_count
  configure_frontend_sequence_err =
      (λ h. rw (lt→ltb _ _ h), λ ha hc. rw (le→ltb_false _ _ ha, lt→ltb _ _ hc))

  -- Whatever the sequence gives is the sequence above.
  pub configure_frontend_sequence-eq-ok :
      (frames : List RpuWireCommand)
      → configure_frontend_sequence first afes channels bias_control ≡ ok frames
      → session_frames first afes channels bias_control ≡ frames
  configure_frontend_sequence-eq-ok frames e = elim (dec_le (length afes) u16_max) [
    | no p ↦ cc (configure_frontend_sequence_err.0 (omega arith))
    | yes p ↦ elim (dec_le (length channels) u16_max) [
      | no q ↦ cc (configure_frontend_sequence_err.1 p (omega arith))
      | yes q ↦ ok-injective (sym (configure_frontend_sequence_lem p q) ∙ e)
    ]
  ]

  pub length-session_frames :
      length (session_frames first afes channels bias_control) ≡ 2 + length afes + length channels
  length-session_frames = omega (
    arith,
    length-append (afe_frames first 1 afes) (
        channel_frames first (suc (length afes)) channels
        ++ (apply_frame (sequence_for_frame first (suc (length afes + length channels)))
              (length afes) (length channels)
            ∷ [])),
    length-append (channel_frames first (suc (length afes)) channels) (
        apply_frame (sequence_for_frame first (suc (length afes + length channels))) (length afes)
          (length channels)
        ∷ []),
    length-afe_frames first 1 afes,
    length-channel_frames first (suc (length afes)) channels,
  )
