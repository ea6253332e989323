-- ===== src/ClockChip/Program.antt =====
-- `program_clock_chip` and `verify_clock_chip` of crates/daphne-sc-core/src/clockchip.rs.
use daphne_sc.Prelude.{ℕ, ◌+◌, List, [], ◌∷◌, Bool, true, false, ◌||◌, not, ◌==◌}
use daphne_sc.Prelude.{ok, if◌then◌else◌}
use daphne_sc.Prelude.Actions.{Action, ◌>>=◌, ◌>>◌, pure, fail, wrap_err}
use daphne_sc.ClockChip.Registers.{
  ClockChipRegister, ClockChipRange, any_range, clockchip_registers, clockchip_reset_register,
  clockchip_reset_sequence,
}

pub record ClockChipProgramOptions : Type 0 where
  pub verify : Bool
  pub reset : Bool
  pub ranges : List ClockChipRange

abbrev pub default_options : ClockChipProgramOptions
default_options = record { verify = false; reset = true; ranges = [] }

-- `is_empty`
abbrev pub no_ranges : List ClockChipRange → Bool
no_ranges [] = true
no_ranges (range ∷ ranges) = false

unfoldable pub includes : ClockChipProgramOptions → ℕ → Bool
includes options register = no_ranges options.ranges || any_range options.ranges register

pub record ClockChipReport : Type 0 where
  pub written : ℕ
  pub verified : ℕ
  pub reset_pulses : ℕ

abbrev pub no_report : ClockChipReport
no_report = record { written = 0; verified = 0; reset_pulses = 0 }

pub record ClockChipBus (B E : Type 0) : Type 0 where
  pub write_register : ℕ → ℕ → Action B E (Unit {0})
  pub read_register : ℕ → Action B E ℕ
  pub reset_delay : B → B

pub data ClockChipOperation : Type 0 where
  read write : ClockChipOperation

pub data ClockChipError (E : Type 0) : Type 0 where
  bus : ℕ → ClockChipOperation → E → ClockChipError E
  verify_mismatch : ℕ → ℕ → ℕ → ClockChipError E  -- register, expected, actual

-- The options of `verify_clock_chip`.
abbrev pub verify_options : List ClockChipRange → ClockChipProgramOptions
verify_options ranges = record { verify = true; reset = false; ranges = ranges }

module _ {B E : Type 0} (chip : ClockChipBus B E) where
  -- `bus.write_register(..).map_err(..)`
  unfoldable pub write_checked : ℕ → ℕ → Action B (ClockChipError E) (Unit {0})
  write_checked register value =
      wrap_err (ClockChipError.bus register ClockChipOperation.write)
        (chip.write_register register value)

  unfoldable pub read_checked : ℕ → Action B (ClockChipError E) ℕ
  read_checked register =
      wrap_err (ClockChipError.bus register ClockChipOperation.read) (chip.read_register register)

  unfoldable pub compare_register : ClockChipRegister → ℕ → Action B (ClockChipError E) (Unit {0})
  compare_register entry actual =
      if not (actual == entry.value)
      then fail (ClockChipError.verify_mismatch entry.register entry.value actual)
      else pure tt

  unfoldable pub verify_register : ClockChipRegister → Action B (ClockChipError E) (Unit {0})
  verify_register entry = read_checked entry.register >>= compare_register entry

  -- One round of the loop of `verify_clock_chip`.
  unfoldable pub verify_entry :
      ClockChipProgramOptions
      → ClockChipRegister
      → ClockChipReport
      → Action B (ClockChipError E) ClockChipReport
  verify_entry options entry report =
      if not (includes options entry.register)
      then pure report
      else (verify_register entry >> pure (record report { verified = report.verified + 1 }))

  -- The end of a round of the loop of `program_clock_chip`.
  unfoldable pub verify_written :
      ClockChipProgramOptions
      → ClockChipRegister
      → ClockChipReport
      → Action B (ClockChipError E) ClockChipReport
  verify_written options entry report =
      if options.verify
      then (verify_register entry >> pure (record report { verified = report.verified + 1 }))
      else pure report

  unfoldable pub program_entry :
      ClockChipProgramOptions
      → ClockChipRegister
      → ClockChipReport
      → Action B (ClockChipError E) ClockChipReport
  program_entry options entry report =
      if not (includes options entry.register)
      then pure report
      else (write_checked entry.register entry.value
          >> verify_written options entry (record report { written = report.written + 1 }))

  -- `for entry in CLOCKCHIP_REGISTERS`, with the round of the loop.
  unfoldable pub for_entries :
      (ClockChipRegister → ClockChipReport → Action B (ClockChipError E) ClockChipReport)
      → List ClockChipRegister
      → ClockChipReport
      → Action B (ClockChipError E) ClockChipReport
  for_entries round [] report = pure report
  for_entries round (entry ∷ entries) report = round entry report >>= for_entries round entries

  unfoldable pub pulse : ℕ → ClockChipReport → Action B (ClockChipError E) ClockChipReport
  pulse value report = write_checked clockchip_reset_register value >> λ b.
      (chip.reset_delay b, ok (record report { reset_pulses = report.reset_pulses + 1 }))

  unfoldable pub reset_pulses :
      List ℕ → ClockChipReport → Action B (ClockChipError E) ClockChipReport
  reset_pulses [] report = pure report
  reset_pulses (value ∷ values) report = pulse value report >>= reset_pulses values

  unfoldable pub reset_chip :
      ClockChipProgramOptions → ClockChipReport → Action B (ClockChipError E) ClockChipReport
  reset_chip options report =
      if options.reset then reset_pulses clockchip_reset_sequence report else pure report

  unfoldable pub program_clock_chip :
      ClockChipProgramOptions → Action B (ClockChipError E) ClockChipReport
  program_clock_chip options =
      for_entries (program_entry options) clockchip_registers no_report >>= reset_chip options

  unfoldable pub verify_clock_chip :
      List ClockChipRange → Action B (ClockChipError E) ClockChipReport
  verify_clock_chip ranges =
      for_entries (verify_entry (verify_options ranges)) clockchip_registers no_report
