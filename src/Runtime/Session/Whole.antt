-- ===== src/Runtime/Session/Whole.antt =====
-- A frontend configuration from the frames of the client to the calls of the hardware.
use daphne_sc.Prelude.{ℕ, suc, ◌+◌, ◌^◌, ◌≤◌, ◌<◌, ◌≡◌, refl, sym, ap, ◌∙◌, subst, arith}
use daphne_sc.Prelude.{map-append, List, [], ◌∷◌, ◌++◌, length, map, All, true, none, ok}
use daphne_sc.Afe.{AfeFrontendConfig, ChannelFrontendConfig, AfeCommand}
use daphne_sc.Afe.InRange.{IsAfeConfig, IsChannelConfig, InRange}
use daphne_sc.Wire.Error.{u16_max}
use daphne_sc.Wire.Command.{RpuWireCommand, encode}
use daphne_sc.Wire.FromAfe.{
  from_afe_command_sequence, begin_frame, afe_frame, channel_frame, apply_frame, sequence_for_frame,
}
use daphne_sc.Wire.FromAfe.Frames.{
  afe_frames, channel_frames, session_frames, configure_frontend_sequence_lem,
}
use daphne_sc.Wire.FromAfe.Records.{counts_view}
use daphne_sc.Wire.FromAfe.Valid.{
  begin_frame-IsCommand, afe_frame-IsCommand, channel_frame-IsCommand, apply_frame-IsCommand,
  sequence_for_frame-lt,
}
use daphne_sc.Runtime.Interlock.{ready_for_afe}
use daphne_sc.Runtime.Hardware.{AfeHardware, ConfigState, RpuRuntime, idle, begin}
use daphne_sc.Runtime.Handler.{dispatch}
use daphne_sc.Runtime.Session.{
  run_frames, Succeeds, frame-IsApplied, then_frames, Accepting, stage_afes, stage_channels,
}
use daphne_sc.Runtime.Session.Arms.{
  one_more_afe, one_more_channel, opened, closed, afe_step, channel_step, begin_step, apply_step,
}

map_sections :
    (a b c : List RpuWireCommand)
    → map encode (a ++ (b ++ c)) ≡ map encode a ++ (map encode b ++ map encode c)
map_sections a b c =
    map-append encode a (b ++ c) ∙ ap (λ t. map encode a ++ t) (map-append encode b c)

module _ {H E : Type 0} (hw : AfeHardware H E) (accepts : Accepting hw) where
  -- The frames of the AFE records, before further frames.
  afes_run :
      (rt : RpuRuntime H) (first k : ℕ) (afes : List AfeFrontendConfig) (rest : List (List ℕ))
      (P : RpuRuntime H → Type 0)
      → All IsAfeConfig afes
      → ready_for_afe rt.interlock ≡ true
      → rt.config_state.active ≡ true
      → rt.config_state.received_afes + length afes ≤ rt.config_state.expected_afes
      → rt.config_state.expected_afes < 2 ^ 16
      → ((last : RpuRuntime H)
          → last.hardware ≡ stage_afes hw rt.hardware afes
          → last.interlock ≡ rt.interlock
          → last.config_state
            ≡ record rt.config_state { received_afes = rt.config_state.received_afes + length afes }
          → Succeeds hw last rest P)
      → Succeeds hw rt (map encode (afe_frames first k afes) ++ rest) P
  unfolding afe_frame dispatch
  afes_run rt first k [] rest P w ready on room fits more =
      more rt refl refl (ap (λ (n : ℕ). record rt.config_state { received_afes = n }) (omega arith))
  afes_run rt first k (config ∷ afes) rest P (w, ws) ready on room fits more =
      then_frames hw rt (one_more_afe hw accepts rt config)
        (encode (afe_frame (sequence_for_frame first k) config))
        (map encode (afe_frames first (suc k) afes) ++ rest) P
        (frame-IsApplied hw rt (one_more_afe hw accepts rt config)
          (afe_frame (sequence_for_frame first k) config) none
          (afe_frame-IsCommand _ (sequence_for_frame-lt first k) config w) (λ e. cc) ready refl
          (afe_step hw accepts rt (sequence_for_frame first k) config w on (omega arith) fits)
          (omega arith))
        (afes_run (one_more_afe hw accepts rt config) first (suc k) afes rest P ws ready on
          (omega arith) fits
          (λ last h l c.
            more last h l (
              c
              ∙ ap (λ (n : ℕ). record rt.config_state { received_afes = n }) (sum (length afes)))))
    where
      sum : (n : ℕ) → rt.config_state.received_afes + 1 + n ≡ rt.config_state.received_afes + suc n
      sum n = omega arith

  channels_run :
      (rt : RpuRuntime H) (first k : ℕ) (channels : List ChannelFrontendConfig)
      (rest : List (List ℕ)) (P : RpuRuntime H → Type 0)
      → All IsChannelConfig channels
      → ready_for_afe rt.interlock ≡ true
      → rt.config_state.active ≡ true
      → rt.config_state.received_channels + length channels ≤ rt.config_state.expected_channels
      → rt.config_state.expected_channels < 2 ^ 16
      → ((last : RpuRuntime H)
          → last.hardware ≡ stage_channels hw rt.hardware channels
          → last.interlock ≡ rt.interlock
          → last.config_state ≡ record rt.config_state {
            received_channels = rt.config_state.received_channels + length channels;
          }
          → Succeeds hw last rest P)
      → Succeeds hw rt (map encode (channel_frames first k channels) ++ rest) P
  unfolding channel_frame dispatch
  channels_run rt first k [] rest P w ready on room fits more =
      more rt refl refl
        (ap (λ (n : ℕ). record rt.config_state { received_channels = n }) (omega arith))
  channels_run rt first k (config ∷ channels) rest P (w, ws) ready on room fits more =
      then_frames hw rt (one_more_channel hw accepts rt config)
        (encode (channel_frame (sequence_for_frame first k) config))
        (map encode (channel_frames first (suc k) channels) ++ rest) P
        (frame-IsApplied hw rt (one_more_channel hw accepts rt config)
          (channel_frame (sequence_for_frame first k) config) none
          (channel_frame-IsCommand _ (sequence_for_frame-lt first k) config w) (λ e. cc) ready refl
          (channel_step hw accepts rt (sequence_for_frame first k) config w on (omega arith) fits)
          (omega arith))
        (channels_run (one_more_channel hw accepts rt config) first (suc k) channels rest P ws ready
          on (omega arith) fits
          (λ last h l c. more last h l (
            c
            ∙ ap (λ (n : ℕ). record rt.config_state { received_channels = n })
                (sum (length channels)))))
    where
      sum :
          (n : ℕ)
          → rt.config_state.received_channels + 1 + n ≡ rt.config_state.received_channels + suc n
      sum n = omega arith

  -- What a whole configuration leaves of a runtime.
  abbrev pub Configured :
      RpuRuntime H → List AfeFrontendConfig → List ChannelFrontendConfig → ℕ → RpuRuntime H → Type 0
  Configured rt afes channels bias last =
      let counts = counts_view (length afes) (length channels) bias in
      let h = (hw.begin_configure_frontend rt.hardware counts).0 in
      let staged = stage_channels hw (stage_afes hw h afes) channels in
      (last.hardware ≡ (hw.apply_configure_frontend staged).0)
      × (last.config_state ≡ idle)
      × (last.interlock ≡ rt.interlock)

  apply_run :
      (rt last : RpuRuntime H) (first k : ℕ) (afes : List AfeFrontendConfig)
      (channels : List ChannelFrontendConfig) (bias : ℕ)
      → ready_for_afe last.interlock ≡ true
      → last.hardware
        ≡ stage_channels hw
            (stage_afes hw
              (hw.begin_configure_frontend rt.hardware
                (counts_view (length afes) (length channels) bias)).0
              afes)
            channels
      → last.interlock ≡ rt.interlock
      → last.config_state.active ≡ true
      → last.config_state.received_afes ≡ last.config_state.expected_afes
      → last.config_state.received_channels ≡ last.config_state.expected_channels
      → Succeeds hw last
          (encode (apply_frame (sequence_for_frame first k) (length afes) (length channels)) ∷ [])
          (Configured rt afes channels bias)
  unfolding apply_frame dispatch run_frames
  apply_run rt last first k afes channels bias ready h l on ha hc =
      then_frames hw last (closed hw accepts last) _ [] (Configured rt afes channels bias)
        (frame-IsApplied hw last (closed hw accepts last) _ none
          (apply_frame-IsCommand _ (sequence_for_frame-lt first k) _ _) (λ e. cc) ready refl
          (apply_step hw accepts last
            (apply_frame (sequence_for_frame first k) (length afes) (length channels)) on ha hc)
          (omega arith))
        (
          closed hw accepts last,
          [],
          refl,
          tt,
          (ap (λ (x : H). (hw.apply_configure_frontend x).0) h, refl, l),
        )

  -- The channels and the apply frame, once the AFEs are staged.
  finish :
      (rt mid : RpuRuntime H) (first : ℕ) (afes : List AfeFrontendConfig)
      (channels : List ChannelFrontendConfig) (bias : ℕ)
      → All IsChannelConfig channels
      → ready_for_afe rt.interlock ≡ true
      → length afes ≤ u16_max
      → length channels ≤ u16_max
      → mid.hardware
        ≡ stage_afes hw
            (hw.begin_configure_frontend rt.hardware
              (counts_view (length afes) (length channels) bias)).0
            afes
      → mid.interlock ≡ rt.interlock
      → mid.config_state ≡ record {
        active = true;
        expected_afes = length afes;
        expected_channels = length channels;
        received_afes = 0 + length afes;
        received_channels = 0;
      }
      → Succeeds hw mid
          (map encode (channel_frames first (suc (length afes)) channels)
            ++ (encode (
                  apply_frame
                    (sequence_for_frame first (suc (length afes + length channels)))
                    (length afes)
                    (length channels))
                ∷ []))
          (Configured rt afes channels bias)
  finish rt mid first afes channels bias wc ready ha hc h l c =
      let on = ap (λ (s : ConfigState). s.active) c in
      let afes_expected = ap (λ (s : ConfigState). s.expected_afes) c in
      let afes_received = ap (λ (s : ConfigState). s.received_afes) c in
      let expected = ap (λ (s : ConfigState). s.expected_channels) c in
      let received = ap (λ (s : ConfigState). s.received_channels) c in
      channels_run mid first (suc (length afes)) channels _ (Configured rt afes channels bias) wc
        (ap ready_for_afe l ∙ ready) on (omega (arith, expected, received))
        (omega (arith, expected))
        (λ last h' l' c'.
          apply_run rt last first (suc (length afes + length channels)) afes channels bias
            (ap ready_for_afe (l' ∙ l) ∙ ready)
            (h' ∙ ap (λ (x : H). stage_channels hw x channels) h) (l' ∙ l)
            (ap (λ (s : ConfigState). s.active) c' ∙ on)
            (omega (
              arith,
              afes_expected,
              afes_received,
              ap (λ (s : ConfigState). s.expected_afes) c',
              ap (λ (s : ConfigState). s.received_afes) c',
            ))
            (omega (
              arith,
              expected,
              received,
              ap (λ (s : ConfigState). s.expected_channels) c',
              ap (λ (s : ConfigState). s.received_channels) c',
            )))

  -- While the interlock is ready, on hardware that accepts every call, a configuration of at most 65535
  -- records of each kind whose fields fit their types is sent in a sequence of frames that the runtime
  -- all answers as applied, whatever session was open before. Hardware sees the begin call with the
  -- counts, the call for each AFE and each channel with the configuration that was sent, in order, and
  -- the apply call; the session is closed and the interlock as before.
  pub configure_frontend_runs :
      (rt : RpuRuntime H) (first : ℕ) (afes : List AfeFrontendConfig)
      (channels : List ChannelFrontendConfig) (bias : ℕ)
      → ready_for_afe rt.interlock ≡ true
      → InRange (AfeCommand.configure_frontend afes channels bias)
      → length afes ≤ u16_max
      → length channels ≤ u16_max
      → (frames : List RpuWireCommand) × (from_afe_command_sequence first
            (AfeCommand.configure_frontend afes channels bias)
          ≡ ok frames)
        × Succeeds hw rt (map encode frames) (Configured rt afes channels bias)
  unfolding from_afe_command_sequence begin_frame dispatch begin
  configure_frontend_runs rt first afes channels bias ready (wa, wc, wb) ha hc = (
    session_frames first afes channels bias,
    configure_frontend_sequence_lem first afes channels bias ha hc,
    then_frames hw rt started _ _ (Configured rt afes channels bias)
        (frame-IsApplied hw rt started
          (begin_frame (sequence_for_frame first 0) (length afes) (length channels) bias) none
          (begin_frame-IsCommand _ (sequence_for_frame-lt first 0) _ _ bias wb) (λ e. cc) ready refl
          (begin_step hw accepts rt (sequence_for_frame first 0) (length afes) (length channels)
            bias ha hc (omega (arith, wb)))
          (omega arith))
        (subst
          (λ (inputs : List (List ℕ)).
            Succeeds hw started inputs (Configured rt afes channels bias))
          (sym (
            map_sections (afe_frames first 1 afes)
              (channel_frames first (suc (length afes)) channels) (last_frame ∷ [])))
          (afes_run started first 1 afes _ (Configured rt afes channels bias) wa ready refl
            (omega arith) (omega arith)
            (λ mid h l c. finish rt mid first afes channels bias wc ready ha hc h l c))),
  )
    where
      started : RpuRuntime H
      started = opened hw accepts rt (counts_view (length afes) (length channels) bias)

      last_frame : RpuWireCommand
      last_frame =
          apply_frame (sequence_for_frame first (suc (length afes + length channels))) (length afes)
            (length channels)
