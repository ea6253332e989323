-- ===== src/Tests/ClockChip.antt =====
-- Tests of crates/daphne-sc-core/src/clockchip.rs, and the theorems on it, on a chip in memory.
use daphne_sc.Prelude.{ℕ, ◌≡◌, refl, [], ◌∷◌, true, false, ◌&&◌, ◌==◌, ok, err, if◌then◌else◌}
use daphne_sc.Prelude.{List, none}
use daphne_sc.Text.{Text}
use daphne_sc.I2c.{I2cKernel, LinuxI2cDevice, device_bus}
use daphne_sc.I2c.Chip.{IsChip, device_program_lem}
use daphne_sc.Prelude.Actions.{Action, ◌>>=◌}
use daphne_sc.ClockChip.Registers.{any_range, clockchip_registers, clockchip_reset_register}
use daphne_sc.ClockChip.Program.{
  ClockChipProgramOptions, ClockChipBus, ClockChipError, includes, no_report, default_options,
  program_clock_chip, verify_clock_chip, verify_options,
}
use daphne_sc.ClockChip.Program
use daphne_sc.ClockChip.RegisterFile.{Contents, set_register, IsRegisterFile, table_value}
use daphne_sc.ClockChip.Refinement.{full_report, program_refines}
use daphne_sc.ClockChip.Verification.{verdict, verify_finds}
use daphne_sc.ClockChip.Image.{verify-program}

-- `FakeBus`, which never fails.
abbrev memory_chip : ClockChipBus Contents (Unit {0})
memory_chip = record {
  write_register = λ register value file. (set_register file register value, ok tt);
  read_register = λ register file. (file, ok (file register));
  reset_delay = λ file. file;
}

abbrev zeros : Contents
zeros k = 0

memory_chip-IsRegisterFile : IsRegisterFile memory_chip (λ file. file)
memory_chip-IsRegisterFile = record {
  write_lem = λ file register value. (set_register file register value, refl, refl);
  read_lem = λ file register. (file, refl, refl);
  delay_lem = λ file. refl;
}

abbrev three_registers : ClockChipProgramOptions
three_registers = record {
  verify = true;
  reset = false;
  ranges = record { start = 0x1c; end = 0x1e } ∷ [];
}

-- programs_and_verifies_selected_range
selected_range :
    (program_clock_chip memory_chip three_registers zeros).1
    ≡ ok (record { written = 3; verified = 3; reset_pulses = 0 })
unfolding program_clock_chip Program.for_entries Program.program_entry Program.write_checked
    Program.verify_written Program.verify_register Program.read_checked Program.compare_register
    Program.reset_chip Program.includes any_range clockchip_registers
selected_range = refl

-- reset_writes_are_explicit
explicit_reset :
    (program_clock_chip memory_chip
      (record default_options { ranges = record { start = 0xe6; end = 0xe6 } ∷ [] })
      zeros).1
    ≡ ok (record { written = 1; verified = 0; reset_pulses = 2 })
unfolding program_clock_chip Program.for_entries Program.program_entry Program.write_checked
    Program.verify_written Program.reset_chip Program.reset_pulses Program.pulse Program.includes
    any_range clockchip_registers
explicit_reset = refl

-- verify_detects_mismatch
detected_mismatch :
    (verify_clock_chip memory_chip (record { start = 0xe6; end = 0xe6 } ∷ []) zeros).1
    ≡ err (ClockChipError.verify_mismatch 0xe6 0x06 0x00)
unfolding verify_clock_chip Program.for_entries Program.verify_entry Program.verify_register
    Program.read_checked Program.compare_register Program.includes any_range clockchip_registers
detected_mismatch = refl

program_refines_example :
    (file : Contents) × (program_clock_chip memory_chip default_options zeros
      ≡ (file, ok (full_report default_options)))
    × ((k : ℕ)
        → file k ≡ (
            if true && k == clockchip_reset_register
            then 0
            else if includes default_options k
            then table_value clockchip_registers k 0
            else 0))
program_refines_example =
    program_refines memory_chip (λ file. file) memory_chip-IsRegisterFile default_options zeros

verify_finds_example :
    (file : Contents) × (verify_clock_chip memory_chip
        (record { start = 0xe6; end = 0xe6 } ∷ [])
        zeros
      ≡ (
        file,
        verdict
            (verify_options (record { start = 0xe6; end = 0xe6 } ∷ []))
            clockchip_registers
            zeros
            no_report,
      ))
    × (file ≡ zeros)
verify_finds_example =
    verify_finds memory_chip (λ file. file) memory_chip-IsRegisterFile
      (record { start = 0xe6; end = 0xe6 } ∷ []) zeros

verify-program_example :
    (file : Contents) × ((program_clock_chip memory_chip three_registers >>= λ _.
    verify_clock_chip memory_chip three_registers.ranges)
        zeros
      ≡ (
        file,
        ok (record {
          written = 0;
          verified = (full_report three_registers).written;
          reset_pulses = 0;
        }),
      ))
verify-program_example =
    verify-program memory_chip (λ file. file) memory_chip-IsRegisterFile three_registers zeros

-- A chip that keeps the register that was selected last.
abbrev chip_write : List ℕ → Action (Contents × ℕ) Text (Unit {0})
chip_write (register ∷ []) (contents, selected) = ((contents, register), ok tt)
chip_write (register ∷ value ∷ []) (contents, selected) =
    ((set_register contents register value, selected), ok tt)
chip_write bytes state = (state, err [])

abbrev chip_kernel : I2cKernel (Contents × ℕ) (Unit {0})
chip_kernel = record {
  open_node = λ path state. (state, ok tt);
  ioctl = λ file request value state. (state, ok tt);
  smbus_read_word = λ file register state. (state, ok 0);
  write_all = λ file bytes. chip_write bytes;
  read_exact = λ file count state. (state, ok (state.0 state.1 ∷ []));
  sleep = λ ms state. state;
  dev_names = λ state. none;
}

abbrev chip_device : LinuxI2cDevice (Unit {0})
chip_device = record { file = tt; bus = 2; address = 0x70 }

chip_kernel-IsChip : IsChip chip_kernel tt (λ state. state.0)
chip_kernel-IsChip = record {
  set_lem = λ state register value. ((set_register state.0 register value, state.1), refl, refl);
  select_lem = λ state register. ((state.0, register), (state.0, register), refl, refl, refl);
  sleep_lem = λ state ms. refl;
}

device_program_lem_example :
    (state : Contents × ℕ) × (program_clock_chip
        (device_bus chip_kernel chip_device)
        default_options
        (zeros, 0)
      ≡ (state, ok (full_report default_options)))
    × ((register : ℕ)
        → state.0 register ≡ (
            if true && register == clockchip_reset_register
            then 0
            else if includes default_options register
            then table_value clockchip_registers register 0
            else 0))
device_program_lem_example =
    device_program_lem chip_kernel chip_device (λ state. state.0) chip_kernel-IsChip default_options
      (zeros, 0)
