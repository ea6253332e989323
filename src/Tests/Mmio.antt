-- ===== src/Tests/Mmio.antt =====
-- The fake bus and one of the tests of crates/daphne-sc-rpu/src/mmio.rs, and the theorems on it at concrete
-- inputs.
use daphne_sc.Prelude.{ℕ, ◌+◌, ◌≤◌, ◌≡◌, refl, List, [], ◌∷◌, ◌++◌, ◌==◌, Result, ok, if◌then◌else◌}
use daphne_sc.AfeHw.{afe_register_offset, afe_register_word, afe_register_address_word}
use daphne_sc.Mmio.Backend.{RegisterIo, AfeMmioBackend, with_config}
use daphne_sc.Mmio.Access.{read, write, bits, wait_afe_ready}
use daphne_sc.Mmio.Spi
use daphne_sc.Mmio.Backend.{require_u16}
use daphne_sc.Mmio.Hardware.{mmio_hardware}
use daphne_sc.Prelude.{replicate, ◌-◌, ◌/◌}
use daphne_sc.AfeHw.{frontend_register_offset, spy_buffer_channel_offset}
use daphne_sc.AfeHw.Control.{frontend_delay_taps}
use daphne_sc.Mmio.Alignment.{
  set_frontend_delay, scan_frontend_word_after_write, trigger_frontend_snapshot, read_frame_clock,
  set_best_frontend_delay,
}
use daphne_sc.Mmio.Alignment.Runs.{IsFirstLongest}
use daphne_sc.Mmio.Alignment.Delay.{record_words, word_at, best_delay_lem}
use daphne_sc.Prelude.{◌⊎◌, ◌<◌, ◌≢◌, get_or, err}
use daphne_sc.Afe.{afe_count}
use daphne_sc.Mmio.Backend.{MmioAfeError}
use daphne_sc.Mmio.Hardware.{read_scalar, write_scalar}
use daphne_sc.Mmio.Hardware.Scalars.{Scalar, set_op, read_op, values, write_scalar_lem}
use daphne_sc.Mmio.Calls.{Call, state_after}
use daphne_sc.Mmio.Calls.Bounds.{Counted, counted, allowance, accesses_bounded}

-- The queue of expected reads comes before the registers.
record FakeIo : Type 0 where
  registers : List (ℕ × ℕ)
  reads : List (ℕ × ℕ)
  writes : List (ℕ × ℕ)

abbrev lookup : List (ℕ × ℕ) → ℕ → ℕ
lookup [] offset = 0
lookup ((o, value) ∷ rest) offset = if o == offset then value else lookup rest offset

abbrev take_read : FakeIo → List (ℕ × ℕ) → ℕ → FakeIo × Result (Unit {0}) ℕ
take_read s [] offset = (s, ok (lookup s.registers offset))
take_read s ((o, value) ∷ rest) offset =
    if o == offset
    then (record s { reads = rest }, ok value)
    else (s, ok (lookup s.registers offset))

abbrev fake_io : RegisterIo FakeIo (Unit {0})
fake_io = record {
  read32 = λ s offset. take_read s s.reads offset;
  write32 = λ s offset value. (
    record s {
      registers = (offset, value) ∷ s.registers;
      writes = s.writes ++ ((offset, value) ∷ []);
    },
    ok tt,
  );
}

-- The bus of `write_register_follows_cpp_spi_sequence`.
abbrev spi_bus : FakeIo
spi_bus = record { registers = []; reads = (0x34, 0x1234) ∷ []; writes = [] }

abbrev spi_backend : AfeMmioBackend FakeIo
unfolding with_config
spi_backend = with_config spi_bus 10

write_register_follows_cpp_spi_sequence :
    let (b, readback) = Spi.write_register fake_io 4 3 0x1234 spi_backend in
    (readback ≡ ok 0x1234)
    × (b.bus.writes ≡ (0x34, 0x00031234) ∷ (0x34, 2) ∷ (0x34, 0x00030000) ∷ (0x34, 0) ∷ [])
unfolding Spi.write_register wait_afe_ready read write require_u16 bits afe_register_offset
    spi_backend afe_register_word afe_register_address_word
write_register_follows_cpp_spi_sequence = (refl, refl)

abbrev counted_backend : AfeMmioBackend (Counted FakeIo)
unfolding with_config
counted_backend = with_config (record { inner = spi_bus; accesses = 0 }) 10

accesses_bounded_example :
    (state_after
      (mmio_hardware (counted fake_io))
      (Call.write_register 4 3 0x1234)
      counted_backend).bus.accesses
    ≤ counted_backend.bus.accesses + allowance counted_backend (Call.write_register 4 3 0x1234)
accesses_bounded_example = accesses_bounded fake_io (Call.write_register 4 3 0x1234) counted_backend

-- A bus whose registers all read 7.
abbrev steady_io : RegisterIo (Unit {0}) (Unit {0})
steady_io = record { read32 = λ s offset. (s, ok 7); write32 = λ s offset value. (s, ok tt) }

abbrev steady : AfeMmioBackend (Unit {0})
unfolding with_config
steady = with_config tt 10

steady_words :
    record_words steady_io 0 frontend_delay_taps 0 steady
    ≡ (steady, ok (replicate frontend_delay_taps 7))
unfolding record_words set_frontend_delay scan_frontend_word_after_write trigger_frontend_snapshot
    read_frame_clock read write steady frontend_register_offset spy_buffer_channel_offset
steady_words = refl

best_delay_lem_example :
    (start : ℕ) × (len : ℕ) × IsFirstLongest
      (word_at (replicate frontend_delay_taps 7))
      frontend_delay_taps
      start
      len
    × (set_best_frontend_delay steady_io 0 steady
        ≡ set_frontend_delay steady_io 0 (start + (len - 1) / 2) steady)
best_delay_lem_example =
    best_delay_lem steady_io 0 steady steady (replicate frontend_delay_taps 7) steady_words

write_scalar_lem_example :
    let r = write_scalar steady_io (set_op Scalar.bias) 3 0x555 steady in
    ((e : MmioAfeError (Unit {0})) × (r.1 ≡ err e)
      × (values Scalar.bias r.0 ≡ values Scalar.bias steady))
    ⊎ ((r.1 ≡ ok 0x555)
        × (3 < afe_count)
        × (0x555 ≤ 0x0FFF)
        × ((read_scalar {E = Unit {0}} (read_op Scalar.bias) 3 r.0).1 ≡ ok 0x555)
        × ((k : ℕ)
            → k ≢ 3
            → get_or (values Scalar.bias r.0) k 0 ≡ get_or (values Scalar.bias steady) k 0))
unfolding steady
write_scalar_lem_example = write_scalar_lem steady_io Scalar.bias 3 0x555 steady refl
