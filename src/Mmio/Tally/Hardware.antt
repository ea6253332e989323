-- ===== src/Mmio/Tally/Hardware.antt =====
-- How many register accesses a call of the hardware makes, crates/daphne-sc-rpu/src/mmio.rs.
use daphne_sc.Prelude.{ℕ, ◌+◌, ◌*◌, ◌≡◌, refl, arith, Bool, true, false, not, ◌==◌}
use daphne_sc.Prelude.{List, [], ◌∷◌, length, ok_or}
use daphne_sc.Wire.Ops.{RpuWireOp, RpuWireTarget}
use daphne_sc.Wire.Command.{RpuWireCommand}
use daphne_sc.Wire.Payload.{RpuWireAfeConfig, RpuWireChannelConfig}
use daphne_sc.AfeHw.{dac_companion_channel, dac_trim_offset_half}
use daphne_sc.Mmio.Backend.{
  RegisterIo, MmioAfeError, AfeMmioBackend, M, modify, gets, StagedConfig, present,
}
use daphne_sc.Mmio.Backend.{require_12bit, validate_afe}
use daphne_sc.Mmio.Channels.{
  channel_word, half_at, halves_of, with_halves, channel_dac_offset, write_trim_or_offset_channel,
  write_channels, write_channel_scalar,
}
use daphne_sc.Mmio.Hardware.{
  write_attenuation, write_bias, write_scalar_op, write_scalar, write_vbias_control, set_reset,
  do_reset, set_power_state, apply_staged_channel, apply_staged_bias, staged_functions,
  write_functions, apply_staged_afe, for_all, apply_staged, cache_attenuation, cache_bias,
  cache_vbias, clear_staged,
}
use daphne_sc.Mmio.Tally.{
  Tally, Within, >>=-Within, >>-Within, lift-Within, raise-Within, pure-Within, less-Within,
  write-Within, if-Within, for_each-Within,
}
use daphne_sc.Mmio.Tally.Registers.{
  set_bit-Within, wait_afe_ready-Within, write_dac_route-Within, write_afe_function-Within,
}

module _ {I E : Type 0} {io : RegisterIo I E} {Q : ℕ → AfeMmioBackend I → AfeMmioBackend I → Type 0}
    (t : Tally io Q)
    (cached : (b c : AfeMmioBackend I) → c.bus ≡ b.bus → c.spin_limit ≡ b.spin_limit → Q 0 b c)
    (limit : ℕ) where
  gets-Within : {A : Type 0} (f : AfeMmioBackend I → A) → Within t limit 0 (gets f)
  gets-Within f = record { apply = λ b e. t.stay b }

  modify-Within :
      (f : AfeMmioBackend I → AfeMmioBackend I)
      → ((b : AfeMmioBackend I) → ((f b).bus ≡ b.bus) × ((f b).spin_limit ≡ b.spin_limit))
      → Within t limit 0 (modify f)
  modify-Within f keeps = record { apply = λ b e. cached b (f b) (keeps b).0 (keeps b).1 }

  with_halves-keeps :
      (op : RpuWireOp) (b : AfeMmioBackend I) (h : List (List ℕ))
      → ((with_halves op b h).bus ≡ b.bus) × ((with_halves op b h).spin_limit ≡ b.spin_limit)
  with_halves-keeps RpuWireOp.set_offset b h = (refl, refl)
  with_halves-keeps _ b h = (refl, refl)

  pub write_trim_or_offset_channel-Within :
      (op : RpuWireOp) (afe channel value : ℕ) (gain : Bool)
      → Within t limit (2 * limit + 1) (write_trim_or_offset_channel io op afe channel value gain)
  unfolding write_trim_or_offset_channel
  write_trim_or_offset_channel-Within op afe channel value gain =
      less-Within t limit (omega arith) (
        >>=-Within t limit (lift-Within t limit (channel_dac_offset op afe)) (λ offset.
          >>=-Within t limit
            (lift-Within t limit
              (ok_or (dac_companion_channel channel) (MmioAfeError.invalid_channel channel)))
            (λ companion. >>-Within t limit (modify-Within _ (λ b. with_halves-keeps op b _)) (
              >>=-Within t limit (gets-Within (λ b. half_at (halves_of op b) afe companion))
                (λ other. >>-Within t limit (wait_afe_ready-Within t limit) (
                  >>-Within t limit
                    (write-Within t limit offset
                      (channel_word channel (dac_trim_offset_half channel value gain false) other))
                    (wait_afe_ready-Within t limit)))))))

  write_channels-Within :
      (command : RpuWireCommand) (target : RpuWireTarget) (value : ℕ) (gain : Bool)
      → Within t limit (40 * (2 * limit + 1)) (write_channels io command target value gain)
  unfolding write_channels
  write_channels-Within command RpuWireTarget.channel value gain =
      less-Within t limit (omega arith) (
        write_trim_or_offset_channel-Within command.op command.afe_pl command.afe_channel value
          gain)
  write_channels-Within command RpuWireTarget.afe value gain = less-Within t limit (omega arith) (
      >>-Within t limit (lift-Within t limit (validate_afe command.afe_pl)) (
        for_each-Within t limit _ 0 8
          (λ i. write_trim_or_offset_channel-Within command.op command.afe_pl i value gain)))
  write_channels-Within command RpuWireTarget.all value gain = less-Within t limit (omega arith) (
      for_each-Within t limit _ 0 5 (λ afe.
        for_each-Within t limit _ 0 8
          (λ i. write_trim_or_offset_channel-Within command.op afe i value gain)))
  write_channels-Within command RpuWireTarget.none value gain =
      less-Within t limit (omega arith) (raise-Within t limit _)

  pub write_channel_scalar-Within :
      (command : RpuWireCommand)
      → Within t limit (40 * (2 * limit + 1)) (write_channel_scalar io command)
  unfolding write_channel_scalar
  write_channel_scalar-Within command = less-Within t limit (omega arith) (
      >>=-Within t limit (lift-Within t limit (require_12bit command.value)) (λ value.
        >>-Within t limit (write_channels-Within command command.target value _)
          (pure-Within t limit value)))

  write_attenuation-Within :
      (afe v : ℕ) → Within t limit (4 * limit + 5) (write_attenuation io afe v)
  unfolding write_attenuation
  write_attenuation-Within afe v = less-Within t limit (omega arith) (
      >>-Within t limit (write_dac_route-Within t limit _ _)
        (modify-Within (cache_attenuation afe v) (λ b. (refl, refl))))

  write_bias-Within : (afe v : ℕ) → Within t limit (4 * limit + 5) (write_bias io afe v)
  unfolding write_bias
  write_bias-Within afe v = less-Within t limit (omega arith) (
      >>-Within t limit (write_dac_route-Within t limit _ _)
        (modify-Within (cache_bias afe v) (λ b. (refl, refl))))

  write_scalar_op-Within :
      (op : RpuWireOp) (afe v : ℕ) → Within t limit (4 * limit + 5) (write_scalar_op io op afe v)
  unfolding write_scalar_op
  write_scalar_op-Within RpuWireOp.set_attenuation afe v =
      less-Within t limit (omega arith)
        (>>-Within t limit (write_attenuation-Within afe v) (pure-Within t limit v))
  write_scalar_op-Within RpuWireOp.set_bias afe v =
      less-Within t limit (omega arith)
        (>>-Within t limit (write_bias-Within afe v) (pure-Within t limit v))
  write_scalar_op-Within _ afe v = less-Within t limit (omega arith) (raise-Within t limit _)

  pub write_scalar-Within :
      (op : RpuWireOp) (afe v : ℕ) → Within t limit (4 * limit + 5) (write_scalar io op afe v)
  unfolding write_scalar
  write_scalar-Within op afe v = less-Within t limit (omega arith) (
      >>-Within t limit (lift-Within t limit (validate_afe afe)) (
        >>=-Within t limit (lift-Within t limit (require_12bit v))
          (λ value. write_scalar_op-Within op afe value)))

  pub write_vbias_control-Within :
      (v : ℕ) (enable : Bool) → Within t limit (4 * limit + 6) (write_vbias_control io v enable)
  unfolding write_vbias_control
  write_vbias_control-Within v enable = less-Within t limit (omega arith) (
      >>=-Within t limit (lift-Within t limit (require_12bit v)) (λ value.
        >>-Within t limit (write_dac_route-Within t limit _ value) (
          >>-Within t limit (write-Within t limit _ _) (
            >>-Within t limit (modify-Within (cache_vbias value enable) (λ b. (refl, refl)))
              (pure-Within t limit value)))))

  pub do_reset-Within : Within t limit 4 (do_reset io)
  unfolding do_reset set_reset
  do_reset-Within = >>-Within t limit (set_bit-Within t limit _ _ _) (set_bit-Within t limit _ _ _)

  pub set_power_state-Within : (on : Bool) → Within t limit 2 (set_power_state io on)
  unfolding set_power_state
  set_power_state-Within on = set_bit-Within t limit _ _ _

  apply_staged_channel-Within :
      (c : RpuWireChannelConfig) → Within t limit (4 * limit + 2) (apply_staged_channel io c)
  unfolding apply_staged_channel
  apply_staged_channel-Within c = less-Within t limit (omega arith) (
      >>=-Within t limit (lift-Within t limit (require_12bit c.trim)) (λ trim.
        >>=-Within t limit (lift-Within t limit (require_12bit c.offset)) (λ offset.
          >>-Within t limit (write_trim_or_offset_channel-Within _ _ _ _ _)
            (write_trim_or_offset_channel-Within _ _ _ _ _))))

  write_functions-Within :
      (afe : ℕ) (calls : List (List ℕ × ℕ))
      → Within t limit (length calls * (10 * limit + 13)) (write_functions io afe calls)
  unfolding write_functions
  write_functions-Within afe [] = less-Within t limit (omega arith) (pure-Within t limit tt)
  write_functions-Within afe ((name, value) ∷ calls) = less-Within t limit (grind arith) (
      >>=-Within t limit (write_afe_function-Within t limit afe name value)
        (λ readback. write_functions-Within afe calls))

  apply_staged_bias-Within :
      (c : RpuWireAfeConfig) → Within t limit (4 * limit + 5) (apply_staged_bias io c)
  unfolding apply_staged_bias
  apply_staged_bias-Within c =
      if-Within t limit (not (c.bias == 0))
        (less-Within t limit (omega arith) (
          >>=-Within t limit (lift-Within t limit (require_12bit c.bias))
            (λ bias. write_bias-Within c.afe_pl bias)))
        (less-Within t limit (omega arith) (pure-Within t limit tt))

  apply_staged_afe-Within :
      (c : RpuWireAfeConfig) → Within t limit (128 * limit + 166) (apply_staged_afe io c)
  unfolding apply_staged_afe
  apply_staged_afe-Within c = less-Within t limit (omega arith) (
      >>=-Within t limit (lift-Within t limit (require_12bit c.attenuation)) (λ attenuation.
        >>-Within t limit (write_attenuation-Within c.afe_pl attenuation) (
          >>-Within t limit (apply_staged_bias-Within c)
            (write_functions-Within c.afe_pl (staged_functions io c)))))

  for_all-Within :
      {A : Type 0} (xs : List A) (f : A → M I E (Unit {0})) {n : ℕ}
      → ((x : A) → Within t limit n (f x))
      → Within t limit (length xs * n) (for_all io xs f)
  for_all-Within [] f w = less-Within t limit (omega arith) (pure-Within t limit tt)
  for_all-Within (x ∷ xs) f w =
      less-Within t limit (grind arith) (>>-Within t limit (w x) (for_all-Within xs f w))

  pub apply_staged-Within :
      (s : StagedConfig)
      → Within t limit
          (length (present s.channels) * (4 * limit + 2)
            + length (present s.afes) * (128 * limit + 166)
            + 4 * limit
            + 14)
          (apply_staged io s)
  unfolding apply_staged
  apply_staged-Within s = less-Within t limit (omega arith) (
      >>-Within t limit do_reset-Within (
        >>-Within t limit (set_power_state-Within true) (
          >>-Within t limit (for_all-Within (present s.channels) _ apply_staged_channel-Within) (
            >>=-Within t limit (write_vbias_control-Within s.counts.bias_control true) (λ vbias.
              >>-Within t limit (for_all-Within (present s.afes) _ apply_staged_afe-Within) (
                >>-Within t limit (set_power_state-Within true)
                  (modify-Within clear_staged (λ b. (refl, refl)))))))))
