-- ===== src/Mmio/Access.antt =====
-- Access to the registers in crates/daphne-sc-rpu/src/mmio.rs: reads, writes, waits on a status bit and
-- the change of a single bit.
use daphne_sc.Prelude.{ℕ, zero, suc, ◌+◌, ◌-◌, ◌/◌, ◌^◌, bit_and, bit_or, Bool, true, false, not}
use daphne_sc.Prelude.{map_err, ◌==◌, if◌then◌else◌}
use daphne_sc.AfeHw.{dac_gain_bias_offset, dac_gain_bias_word, DacRoute}
use daphne_sc.AfeHw.Control.{afe_global_control_offset, afe_global_busy_bits}
use daphne_sc.AfeHw.Control.{
  dac_gain_bias_control_offset, frontend_status_offset, frontend_delayctrl_ready_bit,
}
use daphne_sc.Mmio.Backend.{RegisterIo, MmioAfeError, M, ◌>>=◌, ◌>>◌, pure, raise}

abbrev pub dac_go_bit : ℕ
dac_go_bit = 1

abbrev pub dac_busy_bit : ℕ
dac_busy_bit = 0

unfoldable pub bit : ℕ → ℕ → ℕ
bit value bit_index = bit_and (value / 2 ^ bit_index) 1

unfoldable pub bits : ℕ → ℕ → ℕ → ℕ
bits value start end = bit_and (value / 2 ^ start) (2 ^ (end - start + 1) - 1)

-- The word that `set_bit` writes for the word that it has read; `!mask` is `2^32 - 1 - mask` on u32.
unfoldable pub with_bit : ℕ → ℕ → Bool → ℕ
with_bit value bit_index asserted =
    if asserted then bit_or value (2 ^ bit_index) else bit_and value (2 ^ 32 - 1 - 2 ^ bit_index)

module _ {I E : Type 0} (io : RegisterIo I E) where
  unfoldable pub read : ℕ → M I E ℕ
  read offset b =
      let (s, r) = io.read32 b.bus offset in (record b { bus = s }, map_err MmioAfeError.io r)

  unfoldable pub write : ℕ → ℕ → M I E (Unit {0})
  write offset value b =
      let (s, r) = io.write32 b.bus offset value in
      (record b { bus = s }, map_err MmioAfeError.io r)

  -- The loop of the three waits: at most `n` reads of a register, until one passes the test.
  abbrev pub poll : ℕ → ℕ → (ℕ → Bool) → M I E (Unit {0})
  poll zero offset done = raise MmioAfeError.timeout
  poll (suc n) offset done = do
    value ← read offset
    (if done value then pure tt else poll n offset done)

  unfoldable pub wait_afe_ready : M I E (Unit {0})
  wait_afe_ready b =
      poll b.spin_limit afe_global_control_offset
        (λ value. bits value afe_global_busy_bits.0 afe_global_busy_bits.1 == 0) b

  unfoldable pub wait_dac_ready : M I E (Unit {0})
  wait_dac_ready b =
      poll b.spin_limit dac_gain_bias_control_offset (λ value. bit value dac_busy_bit == 0) b

  unfoldable pub wait_frontend_delayctrl_ready : M I E (Unit {0})
  wait_frontend_delayctrl_ready b =
      poll b.spin_limit frontend_status_offset
        (λ value. not (bit value frontend_delayctrl_ready_bit == 0)) b

  unfoldable pub set_bit : ℕ → ℕ → Bool → M I E (Unit {0})
  set_bit offset bit_index asserted = do
    value ← read offset
    write offset (with_bit value bit_index asserted)

  unfoldable pub trigger_dac : M I E (Unit {0})
  trigger_dac = do
    wait_dac_ready
    set_bit dac_gain_bias_control_offset dac_go_bit true
    wait_dac_ready
    set_bit dac_gain_bias_control_offset dac_go_bit false
    wait_dac_ready

  unfoldable pub write_dac_route : DacRoute → ℕ → M I E (Unit {0})
  write_dac_route route value = do
    wait_dac_ready
    write (dac_gain_bias_offset route.chip) (dac_gain_bias_word route value)
    trigger_dac
