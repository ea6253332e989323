-- ===== src/Runtime/Session/Arms.antt =====
-- The arms of a frontend configuration in `apply_command` of crates/daphne-sc-rpu/src/lib.rs, each
-- where it succeeds.
use daphne_sc.Prelude.{ℕ, ◌+◌, ◌^◌, ◌≤◌, ◌<◌, ◌≡◌, arith}
use daphne_sc.Prelude.{true, none, ok}
use daphne_sc.Afe.{AfeFrontendConfig, ChannelFrontendConfig}
use daphne_sc.Afe.InRange.{IsAfeConfig, IsChannelConfig}
use daphne_sc.Wire.Ops.{RpuWireOp}
use daphne_sc.Wire.Error.{u16_max}
use daphne_sc.Wire.Command.{RpuWireCommand}
use daphne_sc.Wire.Payload.{RpuWireConfigCounts}
use daphne_sc.Wire.FromAfe.{begin_frame, afe_frame, channel_frame}
use daphne_sc.Wire.FromAfe.Records.{counts_view, afe_view, channel_view}
use daphne_sc.Wire.FromAfe.Records.{
  configure_counts-begin_frame, afe_config-afe_frame, channel_config-channel_frame,
}
use daphne_sc.Runtime.Hardware.{AfeHardware, RpuRuntime, idle, begin}
use daphne_sc.Runtime.Hardware.{require_afe_slot, require_channel_slot, require_complete}
use daphne_sc.Runtime.Handler.{dispatch}
use daphne_sc.Runtime.Steps.{OnArm, beat}
use daphne_sc.Runtime.Session.{Accepting}

module _ {H E : Type 0} (hw : AfeHardware H E) (accepts : Accepting hw) where
  abbrev pub one_more_afe : RpuRuntime H → AfeFrontendConfig → RpuRuntime H
  one_more_afe rt config = record (beat rt) {
    hardware = (hw.configure_afe rt.hardware (afe_view config)).0;
    config_state = record rt.config_state { received_afes = rt.config_state.received_afes + 1 };
  }

  pub afe_step :
      (rt : RpuRuntime H) (s : ℕ) (config : AfeFrontendConfig)
      → IsAfeConfig config
      → rt.config_state.active ≡ true
      → rt.config_state.received_afes < rt.config_state.expected_afes
      → rt.config_state.expected_afes < 2 ^ 16
      → OnArm
          (λ run. run (beat rt) ≡ (one_more_afe rt config, ok none))
          (dispatch hw RpuWireOp.configure_afe (afe_frame s config))
  unfolding dispatch require_afe_slot
  afe_step rt s config w on slot fits =
      let seen =
        afe_config-afe_frame s config (omega (arith, w.attenuation_lt))
          (omega (arith, w.bias_lt)) in
      ground (arith, seen, accepts.afe_ok rt.hardware (afe_view config))

  abbrev pub one_more_channel : RpuRuntime H → ChannelFrontendConfig → RpuRuntime H
  one_more_channel rt config = record (beat rt) {
    hardware = (hw.configure_channel rt.hardware (channel_view config)).0;
    config_state = record rt.config_state {
      received_channels = rt.config_state.received_channels + 1;
    };
  }

  pub channel_step :
      (rt : RpuRuntime H) (s : ℕ) (config : ChannelFrontendConfig)
      → IsChannelConfig config
      → rt.config_state.active ≡ true
      → rt.config_state.received_channels < rt.config_state.expected_channels
      → rt.config_state.expected_channels < 2 ^ 16
      → OnArm
          (λ run. run (beat rt) ≡ (one_more_channel rt config, ok none))
          (dispatch hw RpuWireOp.configure_channel (channel_frame s config))
  unfolding dispatch require_channel_slot
  channel_step rt s config w on slot fits =
      let seen =
        channel_config-channel_frame s config (omega (arith, w.trim_lt))
          (omega (arith, w.offset_lt)) (omega (arith, w.gain_lt)) in
      ground (arith, seen, accepts.channel_ok rt.hardware (channel_view config))

  abbrev pub opened : RpuRuntime H → RpuWireConfigCounts → RpuRuntime H
  opened rt counts = record (beat rt) {
    hardware = (hw.begin_configure_frontend rt.hardware counts).0;
    config_state = begin counts;
  }

  pub begin_step :
      (rt : RpuRuntime H) (s n m bias : ℕ)
      → n ≤ u16_max
      → m ≤ u16_max
      → bias ≤ u16_max
      → OnArm
          (λ run. run (beat rt) ≡ (opened rt (counts_view n m bias), ok none))
          (dispatch hw RpuWireOp.begin_configure_frontend (begin_frame s n m bias))
  unfolding dispatch
  begin_step rt s n m bias hn hm hb = ground (
    arith,
    configure_counts-begin_frame s n m bias hn hm hb,
    accepts.begin_ok rt.hardware (counts_view n m bias),
  )

  abbrev pub closed : RpuRuntime H → RpuRuntime H
  closed rt = record (beat rt) {
    hardware = (hw.apply_configure_frontend rt.hardware).0;
    config_state = idle;
  }

  pub apply_step :
      (rt : RpuRuntime H) (c : RpuWireCommand)
      → rt.config_state.active ≡ true
      → rt.config_state.received_afes ≡ rt.config_state.expected_afes
      → rt.config_state.received_channels ≡ rt.config_state.expected_channels
      → OnArm
          (λ run. run (beat rt) ≡ (closed rt, ok none))
          (dispatch hw RpuWireOp.apply_configure_frontend c)
  unfolding dispatch require_complete
  apply_step rt c on afes channels = ground (arith, accepts.apply_ok rt.hardware)
