-- ===== src/Mmio/Calls/Bounds.antt =====
-- The number of register accesses that the MMIO backend of crates/daphne-sc-rpu/src/mmio.rs makes for each
-- call.
use daphne_sc.Mmio.Calls.{Call, state_after}
use daphne_sc.Prelude.{ℕ, suc, ◌+◌, ◌*◌, ◌≤◌, ◌≡◌, refl, ap, ◌∙◌, arith}
use daphne_sc.Prelude.{length}
use daphne_sc.Wire.Ops.{RpuWireOp}
use daphne_sc.Wire.Command.{RpuWireCommand}
use daphne_sc.Mmio.Backend.{RegisterIo, AfeMmioBackend, present}
use daphne_sc.Mmio.Access.{read, write}
use daphne_sc.Mmio.Channels.{cached_halves, read_channel_scalar, read_trim_or_offset_channel}
use daphne_sc.Mmio.Hardware.{
  mmio_hardware, read_scalar, begin_configure_frontend, configure_afe, configure_channel,
}
use daphne_sc.Mmio.Hardware.{apply_configure_frontend, set_reset}
use daphne_sc.Mmio.Tally.{Tally}
use daphne_sc.Mmio.Tally.Registers.{
  set_bit-Within, read_register-Within, write_register-Within, write_afe_function-Within,
}
use daphne_sc.Mmio.Tally.Alignment.{align_frontend-Within}
use daphne_sc.Mmio.Tally.Hardware.{
  write_channel_scalar-Within, write_scalar-Within, write_vbias_control-Within, do_reset-Within,
  set_power_state-Within, apply_staged-Within,
}

read_scalar-same :
    {I : Type 0} (E : Type 0) (op : RpuWireOp) (afe : ℕ) (b : AfeMmioBackend I)
    → (read_scalar {E = E} op afe b).0 ≡ b
unfolding read_scalar
read_scalar-same E RpuWireOp.read_attenuation afe b = ground arith
read_scalar-same E _ afe b = ground arith

cached_halves-same :
    {I E : Type 0} (io : RegisterIo I E) (op : RpuWireOp) (b : AfeMmioBackend I)
    → (cached_halves io op b).0 ≡ b
cached_halves-same io RpuWireOp.read_trim b = refl
cached_halves-same io _ b = refl

read_channel_scalar-same :
    {I E : Type 0} (io : RegisterIo I E) (c : RpuWireCommand) (b : AfeMmioBackend I)
    → (read_channel_scalar io c b).0 ≡ b
unfolding read_channel_scalar read_trim_or_offset_channel
read_channel_scalar-same io c b = ground (arith, cached_halves-same io c.op b)

-- A bus that counts its reads and writes.
pub record Counted (I : Type 0) : Type 0 where
  pub inner : I
  pub accesses : ℕ

abbrev pub counted : {I E : Type 0} → RegisterIo I E → RegisterIo (Counted I) E
counted io = record {
  read32 = λ s offset.
      let (i, r) = io.read32 s.inner offset in (record { inner = i; accesses = suc s.accesses }, r);
  write32 = λ s offset value.
      let (i, r) = io.write32 s.inner offset value in
      (record { inner = i; accesses = suc s.accesses }, r);
}

-- How many accesses each call may make, from the spin limit and from what is staged.
abbrev pub allowance : {I : Type 0} → AfeMmioBackend I → Call → ℕ
allowance b (Call.read_register afe r) = 3 * b.spin_limit + 4
allowance b (Call.write_register afe r v) = 4 * b.spin_limit + 5
allowance b (Call.write_scalar op afe v) = 4 * b.spin_limit + 5
allowance b (Call.write_channel_scalar c) = 40 * (2 * b.spin_limit + 1)
allowance b (Call.write_vbias_control v e) = 4 * b.spin_limit + 6
allowance b (Call.set_reset a) = 2
allowance b Call.do_reset = 4
allowance b (Call.set_power_state e) = 2
allowance b Call.align = b.spin_limit + 8007
allowance b Call.apply_configure_frontend =
    length (present b.staged_config.channels) * (4 * b.spin_limit + 2)
    + length (present b.staged_config.afes) * (128 * b.spin_limit + 166)
    + 4 * b.spin_limit
    + 14
allowance b (Call.write_function afe name v) = 10 * b.spin_limit + 13
allowance b _ = 0

abbrev AtMost : {I : Type 0} → ℕ → AfeMmioBackend (Counted I) → AfeMmioBackend (Counted I) → Type 0
AtMost n b c = (c.spin_limit ≡ b.spin_limit) × (c.bus.accesses ≤ b.bus.accesses + n)

module _ {I E : Type 0} (io : RegisterIo I E) where
  counting : Tally (counted io) AtMost
  unfolding read write
  counting = record {
    stay = λ b. (refl, omega arith);
    after = λ p q. (q.0 ∙ p.0, omega (arith, p.1, q.1));
    more = λ h p. (p.0, omega (arith, p.1));
    limit = λ p. p.0;
    reads = λ offset b. (refl, omega arith);
    writes = λ offset value b. (refl, omega arith);
  }

  cached :
      (b c : AfeMmioBackend (Counted I))
      → c.bus ≡ b.bus
      → c.spin_limit ≡ b.spin_limit
      → AtMost 0 b c
  cached b c e l = (l, let h = ap (λ (s : Counted I). s.accesses) e in omega (arith, h))

  applied-AtMost :
      (b : AfeMmioBackend (Counted I))
      → (apply_configure_frontend (counted io) b).0.bus.accesses
        ≤ b.bus.accesses + allowance b Call.apply_configure_frontend
  unfolding apply_configure_frontend
  applied-AtMost b =
      ground
        (arith, ((apply_staged-Within counting cached b.spin_limit b.staged_config).apply b refl).1)

  -- Every call of the hardware interface ends after a number of register accesses that is bounded by the
  -- spin limit and by how many records are staged, whatever the registers answer and however it ends:
  -- an alignment by the limit and 8007, a register write by four limits and 5, a whole configuration by
  -- what its channels and its AFEs take.
  pub accesses_bounded :
      (call : Call) (b : AfeMmioBackend (Counted I))
      → (state_after (mmio_hardware (counted io)) call b).bus.accesses
        ≤ b.bus.accesses + allowance b call
  unfolding mmio_hardware set_reset begin_configure_frontend configure_afe configure_channel
  accesses_bounded (Call.read_register afe r) b =
      ((read_register-Within counting b.spin_limit afe r).apply b refl).1
  accesses_bounded (Call.write_register afe r v) b =
      ((write_register-Within counting b.spin_limit afe r v).apply b refl).1
  accesses_bounded (Call.write_scalar op afe v) b =
      ((write_scalar-Within counting cached b.spin_limit op afe v).apply b refl).1
  accesses_bounded (Call.write_channel_scalar c) b =
      ((write_channel_scalar-Within counting cached b.spin_limit c).apply b refl).1
  accesses_bounded (Call.write_vbias_control v e) b =
      ((write_vbias_control-Within counting cached b.spin_limit v e).apply b refl).1
  accesses_bounded (Call.set_reset a) b =
      ((set_bit-Within counting b.spin_limit _ _ _).apply b refl).1
  accesses_bounded Call.do_reset b = ((do_reset-Within counting cached b.spin_limit).apply b refl).1
  accesses_bounded (Call.set_power_state e) b =
      ((set_power_state-Within counting cached b.spin_limit e).apply b refl).1
  accesses_bounded Call.align b = ((align_frontend-Within counting b.spin_limit).apply b refl).1
  accesses_bounded Call.apply_configure_frontend b = applied-AtMost b
  accesses_bounded (Call.write_function afe name v) b =
      ((write_afe_function-Within counting b.spin_limit afe name v).apply b refl).1
  accesses_bounded (Call.read_scalar op afe) b =
      let same =
        ap (λ (c : AfeMmioBackend (Counted I)). c.bus.accesses) (read_scalar-same E op afe b) in
      omega (arith, same)
  accesses_bounded (Call.read_channel_scalar c) b =
      let same =
        ap (λ (d : AfeMmioBackend (Counted I)). d.bus.accesses)
          (read_channel_scalar-same (counted io) c b) in
      omega (arith, same)
  accesses_bounded _ b = ground arith
