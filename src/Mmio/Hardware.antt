-- ===== src/Mmio/Hardware.antt =====
-- `impl AfeHardware for AfeMmioBackend` of crates/daphne-sc-rpu/src/mmio.rs.
pub mod Scalars
use daphne_sc.Prelude.{
  ℕ, List, [], ◌∷◌, get_or, set, Bool, true, false, not, ◌==◌, ◌||◌, leb, of_bool,
}
use daphne_sc.Prelude.{some, ok, err, if◌then◌else◌}
use daphne_sc.Afe.{channels_per_afe, channel_count}
use daphne_sc.AfeHw.{DacRoute, afe_gain_dac_routes, afe_bias_dac_routes, vbias_dac_route}
use daphne_sc.AfeHw.Control.{
  afe_global_control_offset, afe_global_reset_bit, afe_global_powerstate_bit,
}
use daphne_sc.AfeHw.Control.{bias_enable_offset}
use daphne_sc.AfeFunctions.Spec.{ascii}
use daphne_sc.Wire.Ops.{RpuWireOp}
use daphne_sc.Wire.Payload.{RpuWireConfigCounts, RpuWireAfeConfig, RpuWireChannelConfig}
use daphne_sc.Runtime.Hardware.{AfeHardware}
use daphne_sc.Mmio.Backend.{
  RegisterIo, MmioAfeError, AfeMmioBackend, M, ◌>>=◌, ◌>>◌, pure, raise, lift, gets, modify,
}
use daphne_sc.Mmio.Backend.{StagedConfig, new_staged, no_staged, present, validate_counts}
use daphne_sc.Mmio.Backend.{validate_afe, require_12bit}
use daphne_sc.Mmio.Access.{write, set_bit, write_dac_route}
use daphne_sc.Mmio.Spi
use daphne_sc.Mmio.Spi.{write_afe_function}
use daphne_sc.Mmio.Channels.{
  write_trim_or_offset_channel, read_channel_scalar, write_channel_scalar,
}
use daphne_sc.Mmio.Alignment.{align_frontend}

-- `AFE_GAIN_DAC_ROUTES[...]` and `AFE_BIAS_DAC_ROUTES[...]`; the default stands for the panic, which no
-- caller reaches.
abbrev pub gain_route : ℕ → DacRoute
gain_route afe_pl = get_or afe_gain_dac_routes afe_pl vbias_dac_route

abbrev pub bias_route : ℕ → DacRoute
bias_route afe_pl = get_or afe_bias_dac_routes afe_pl vbias_dac_route

module _ {I E : Type 0} where
  unfoldable pub read_scalar : RpuWireOp → ℕ → M I E ℕ
  read_scalar RpuWireOp.read_attenuation afe_pl =
      lift (validate_afe afe_pl) >> gets (λ b. get_or b.attenuation afe_pl 0)
  read_scalar RpuWireOp.read_bias afe_pl =
      lift (validate_afe afe_pl) >> gets (λ b. get_or b.bias afe_pl 0)
  read_scalar _ afe_pl = lift (validate_afe afe_pl) >> raise MmioAfeError.unsupported

  unfoldable pub begin_configure_frontend : RpuWireConfigCounts → M I E (Unit {0})
  begin_configure_frontend counts = modify (λ b. record b { staged_config = new_staged counts })

  -- `if !self.staged_config.active { return Err(Unsupported) }`
  abbrev pub require_active : M I E (Unit {0})
  require_active b = (b, if not b.staged_config.active then err MmioAfeError.unsupported else ok tt)

  unfoldable pub configure_afe : RpuWireAfeConfig → M I E (Unit {0})
  configure_afe config = do
    lift (validate_afe config.afe_pl)
    require_active
    modify (λ b. record b {
      staged_config = record b.staged_config {
        afes = set b.staged_config.afes config.afe_pl (some config);
      };
    })

  unfoldable pub configure_channel : RpuWireChannelConfig → M I E (Unit {0})
  configure_channel config = do
    lift (validate_afe config.afe_pl)
    lift (
        if leb channels_per_afe config.afe_channel || leb channel_count config.channel
        then err (MmioAfeError.invalid_channel config.channel)
        else ok tt)
    require_active
    modify (λ b. record b {
      staged_config = record b.staged_config {
        channels = set b.staged_config.channels config.channel (some config);
      };
    })

-- The assignments to the fields of the backend.
module _ {I : Type 0} where
  abbrev pub cache_attenuation : ℕ → ℕ → AfeMmioBackend I → AfeMmioBackend I
  cache_attenuation afe_pl value b = record b { attenuation = set b.attenuation afe_pl value }

  abbrev pub cache_bias : ℕ → ℕ → AfeMmioBackend I → AfeMmioBackend I
  cache_bias afe_pl value b = record b { bias = set b.bias afe_pl value }

  abbrev pub cache_vbias : ℕ → Bool → AfeMmioBackend I → AfeMmioBackend I
  cache_vbias value enable b = record b { vbias_control = value; vbias_enabled = enable }

  abbrev pub clear_staged : AfeMmioBackend I → AfeMmioBackend I
  clear_staged b = record b { staged_config = no_staged }

module _ {I E : Type 0} (io : RegisterIo I E) where
  unfoldable pub write_attenuation : ℕ → ℕ → M I E (Unit {0})
  write_attenuation afe_pl value = do
    write_dac_route io (gain_route afe_pl) value
    modify (cache_attenuation afe_pl value)

  unfoldable pub write_bias : ℕ → ℕ → M I E (Unit {0})
  write_bias afe_pl value = do
    write_dac_route io (bias_route afe_pl) value
    modify (cache_bias afe_pl value)

  -- The match of `write_scalar`.
  unfoldable pub write_scalar_op : RpuWireOp → ℕ → ℕ → M I E ℕ
  write_scalar_op RpuWireOp.set_attenuation afe_pl value =
      write_attenuation afe_pl value >> pure value
  write_scalar_op RpuWireOp.set_bias afe_pl value = write_bias afe_pl value >> pure value
  write_scalar_op _ afe_pl value = raise MmioAfeError.unsupported

  unfoldable pub write_scalar : RpuWireOp → ℕ → ℕ → M I E ℕ
  write_scalar op afe_pl value = do
    lift (validate_afe afe_pl)
    value ← lift (require_12bit value)
    write_scalar_op op afe_pl value

  unfoldable pub write_vbias_control : ℕ → Bool → M I E ℕ
  write_vbias_control value enable = do
    value ← lift (require_12bit value)
    write_dac_route io vbias_dac_route value
    write io bias_enable_offset (of_bool enable)
    modify (cache_vbias value enable)
    pure value

  unfoldable pub set_reset : Bool → M I E (Unit {0})
  set_reset asserted = set_bit io afe_global_control_offset afe_global_reset_bit asserted

  unfoldable pub do_reset : M I E (Unit {0})
  do_reset = set_reset true >> set_reset false

  unfoldable pub set_power_state : Bool → M I E (Unit {0})
  set_power_state enabled = set_bit io afe_global_control_offset afe_global_powerstate_bit enabled

  unfoldable pub apply_staged_channel : RpuWireChannelConfig → M I E (Unit {0})
  apply_staged_channel config = do
    trim ← lift (require_12bit config.trim)
    offset ← lift (require_12bit config.offset)
    write_trim_or_offset_channel io RpuWireOp.set_trim config.afe_pl config.afe_channel trim false
    write_trim_or_offset_channel io RpuWireOp.set_offset config.afe_pl config.afe_channel offset
        false

  -- The bias of `apply_staged_afe`; 0 leaves the DAC alone.
  unfoldable pub apply_staged_bias : RpuWireAfeConfig → M I E (Unit {0})
  apply_staged_bias config =
      if not (config.bias == 0)
      then (do bias ← lift (require_12bit config.bias); write_bias config.afe_pl bias)
      else pure tt

  -- The calls of `write_afe_function` in `apply_staged_afe`, with their values.
  abbrev pub staged_functions : RpuWireAfeConfig → List (List ℕ × ℕ)
  staged_functions config =
      (ascii "SERIALIZED_DATA_RATE", 1)
      ∷ (ascii "ADC_RESOLUTION_RESET", of_bool config.adc.resolution)
      ∷ (ascii "ADC_OUTPUT_FORMAT", of_bool config.adc.output_format)
      ∷ (ascii "LSB_MSB_FIRST", of_bool config.adc.msb_first)
      ∷ (ascii "LPF_PROGRAMMABILITY", config.pga.lpf_cut_frequency)
      ∷ (ascii "PGA_INTEGRATOR_DISABLE", of_bool config.pga.integrator_disable)
      ∷ (ascii "PGA_GAIN_CONTROL", of_bool config.pga.gain)
      ∷ (ascii "PGA_CLAMP_LEVEL", 2)
      ∷ (ascii "ACTIVE_TERMINATION_ENABLE", 0)
      ∷ (ascii "LNA_INPUT_CLAMP_SETTING", config.lna.clamp)
      ∷ (ascii "LNA_GAIN", config.lna.gain)
      ∷ (ascii "LNA_INTEGRATOR_DISABLE", of_bool config.lna.integrator_disable)
      ∷ []

  unfoldable pub write_functions : ℕ → List (List ℕ × ℕ) → M I E (Unit {0})
  write_functions afe_pl [] = pure tt
  write_functions afe_pl ((name, value) ∷ calls) = do
    readback ← write_afe_function io afe_pl name value
    write_functions afe_pl calls

  unfoldable pub apply_staged_afe : RpuWireAfeConfig → M I E (Unit {0})
  apply_staged_afe config = do
    attenuation ← lift (require_12bit config.attenuation)
    write_attenuation config.afe_pl attenuation
    apply_staged_bias config
    write_functions config.afe_pl (staged_functions config)

  -- `for config in ... { f(config)?; }`
  abbrev pub for_all : {A : Type 0} → List A → (A → M I E (Unit {0})) → M I E (Unit {0})
  for_all [] f = pure tt
  for_all (x ∷ xs) f = f x >> for_all xs f

  unfoldable pub apply_staged : StagedConfig → M I E (Unit {0})
  apply_staged staged = do
    do_reset
    set_power_state true
    for_all (present staged.channels) apply_staged_channel
    vbias ← write_vbias_control staged.counts.bias_control true
    for_all (present staged.afes) apply_staged_afe
    set_power_state true
    modify clear_staged

  unfoldable pub apply_configure_frontend : M I E (Unit {0})
  apply_configure_frontend = do
    require_active
    staged ← gets (λ b. b.staged_config)
    lift (validate_counts staged)
    apply_staged staged

  unfoldable pub mmio_hardware : AfeHardware (AfeMmioBackend I) (MmioAfeError E)
  mmio_hardware = record {
    read_register = λ b afe_pl register. Spi.read_register io afe_pl register b;
    write_register = λ b afe_pl register value. Spi.write_register io afe_pl register value b;
    read_scalar = λ b op afe_pl. read_scalar op afe_pl b;
    write_scalar = λ b op afe_pl value. write_scalar op afe_pl value b;
    read_channel_scalar = λ b command. read_channel_scalar io command b;
    write_channel_scalar = λ b command. write_channel_scalar io command b;
    read_vbias_control = λ b. (b, ok b.vbias_control);
    write_vbias_control = λ b value enable. write_vbias_control value enable b;
    set_reset = λ b asserted. set_reset asserted b;
    do_reset = λ b. do_reset b;
    set_power_state = λ b enabled. set_power_state enabled b;
    align = λ b. align_frontend io b;
    begin_configure_frontend = λ b counts. begin_configure_frontend counts b;
    configure_afe = λ b config. configure_afe config b;
    configure_channel = λ b config. configure_channel config b;
    apply_configure_frontend = λ b. apply_configure_frontend b;
    write_function = λ b afe_pl name value. write_afe_function io afe_pl name value b;
  }
