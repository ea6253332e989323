-- ===== src/ClockChip/Refinement.antt =====
-- The programming of the clock chip refines the writing of its image into a file of registers.
use daphne_sc.Prelude.{ℕ, ◌+◌, ◌≡◌, refl, ap, ◌∙◌, List, [], ◌∷◌, ◌&&◌, ◌==◌, arith}
use daphne_sc.Prelude.{ok, if◌then◌else◌, Bool-cases, fun_ext, inl, inr}
use daphne_sc.ClockChip.Registers.{
  ClockChipRegister, clockchip_registers, clockchip_reset_register, clockchip_reset_sequence,
}
use daphne_sc.ClockChip.Program.{
  ClockChipProgramOptions, ClockChipReport, ClockChipBus, includes, no_report, program_entry,
  for_entries, pulse, reset_pulses, reset_chip, program_clock_chip,
}
use daphne_sc.ClockChip.RegisterFile.{
  Contents, set_register, IsRegisterFile, selected, programmed, programmed_step_at, IsTable,
  clockchip_registers-IsTable, entry_programmed, table_value,
}
use daphne_sc.ClockChip.Steps.{counted, Leaves, then-Leaves, write_checked-Leaves, program_round}

-- What the reset leaves.
abbrev pub reset_contents : ClockChipProgramOptions → Contents → Contents
reset_contents options contents =
    if options.reset then set_register contents clockchip_reset_register 0 else contents

-- The report of a program that succeeds.
abbrev pub full_report : ClockChipProgramOptions → ClockChipReport
full_report options = record {
  written = selected options clockchip_registers;
  verified = if options.verify then selected options clockchip_registers else 0;
  reset_pulses = if options.reset then 2 else 0;
}

module _ {B E : Type 0} (chip : ClockChipBus B E) (view : B → Contents)
    (file : IsRegisterFile chip view) where
  entries_leave :
      (options : ClockChipProgramOptions) (entries : List ClockChipRegister)
      (report : ClockChipReport) (b : B)
      → IsTable entries
      → Leaves chip view file
          (for_entries chip (program_entry chip options) entries report)
          b
          (counted options (selected options entries) report)
          (programmed options entries (view b))
  unfolding for_entries selected programmed table_value
  entries_leave options [] report b h = (b, ground arith, fun_ext (λ k. ground arith))
  entries_leave options (entry ∷ entries) report b (absent, distinct) =
      let n : ℕ = if includes options entry.register then 1 else 0 in
      let after = counted options n report in
      then-Leaves chip view file (program_entry chip options entry report)
        (for_entries chip (program_entry chip options) entries) b after
        (counted options (selected options (entry ∷ entries)) report)
        (entry_programmed options entry (view b)) (programmed options (entry ∷ entries) (view b))
        (program_round chip view file options entry report b)
        (λ b' v.
          let (b'', e, v') = entries_leave options entries after b' distinct in
          let sums : counted options (selected options entries) after
              ≡ counted options (selected options (entry ∷ entries)) report =
            ground arith in
          (
            b'',
            e ∙ ap (λ r. (b'', ok r)) sums,
            v'
                ∙ ap (programmed options entries) v
                ∙ fun_ext (λ k. programmed_step_at options entry entries (view b) k absent),
          ))

  pulse-Leaves :
      (b : B) (value : ℕ) (report : ClockChipReport)
      → Leaves chip view file
          (pulse chip value report)
          b
          (record report { reset_pulses = report.reset_pulses + 1 })
          (set_register (view b) clockchip_reset_register value)
  unfolding pulse
  pulse-Leaves b value report =
      let (b', e, v) = write_checked-Leaves chip view file b clockchip_reset_register value in
      (chip.reset_delay b', rw e refl, file.delay_lem b' ∙ v)

  reset_pulses_leave :
      (report : ClockChipReport) (b : B)
      → Leaves chip view file
          (reset_pulses chip clockchip_reset_sequence report)
          b
          (record report { reset_pulses = report.reset_pulses + 1 + 1 })
          (set_register (view b) clockchip_reset_register 0)
  unfolding reset_pulses
  reset_pulses_leave report b =
      let (b', e, v) = pulse-Leaves b 2 report in
      let (b'', e', v') =
        pulse-Leaves b' 0 (record report { reset_pulses = report.reset_pulses + 1 }) in
      (b'', rw (e, e') refl, v' ∙ rw v (fun_ext (λ k. ground arith)))

  reset_chip-Leaves :
      (options : ClockChipProgramOptions) (report : ClockChipReport) (b : B)
      → Leaves chip view file
          (reset_chip chip options report)
          b
          (record report { reset_pulses = report.reset_pulses + (if options.reset then 2 else 0) })
          (reset_contents options (view b))
  unfolding reset_chip
  reset_chip-Leaves options report b = elim (Bool-cases options.reset) [
    | inl resets ↦
        let (b', e, v) = reset_pulses_leave report b in
        (b', rw resets (e ∙ ap (λ r. (b', ok r)) (ground arith)), rw resets v)
    | inr none_wanted ↦ (b, rw none_wanted (ground arith), rw none_wanted refl)
  ]

  pub program-Leaves :
      (options : ClockChipProgramOptions) (b : B)
      → Leaves chip view file
          (program_clock_chip chip options)
          b
          (full_report options)
          (reset_contents options (programmed options clockchip_registers (view b)))
  unfolding program_clock_chip
  program-Leaves options b =
      let middle = counted options (selected options clockchip_registers) no_report in
      then-Leaves chip view file
        (for_entries chip (program_entry chip options) clockchip_registers no_report)
        (reset_chip chip options) b middle (full_report options)
        (programmed options clockchip_registers (view b))
        (reset_contents options (programmed options clockchip_registers (view b)))
        (entries_leave options clockchip_registers no_report b clockchip_registers-IsTable)
        (λ b' v.
          let (b'', e, v') = reset_chip-Leaves options middle b' in
          (b'', e ∙ ap (λ r. (b'', ok r)) (ground arith), v' ∙ ap (reset_contents options) v))

-- On a bus that is a file of registers, `program_clock_chip` succeeds with a report that counts the
-- selected registers, as verified too where that is asked for, and the two pulses of a reset; the
-- reset register then holds 0 if a reset is asked for, each other register that the options select
-- holds its value of the table, if it has one, and the rest hold what they held.
pub program_refines :
    {B E : Type 0} (chip : ClockChipBus B E) (view : B → Contents)
    → IsRegisterFile chip view
    → (options : ClockChipProgramOptions) (b : B)
    → (b' : B) × (program_clock_chip chip options b ≡ (b', ok (full_report options)))
      × ((k : ℕ)
          → view b' k ≡ (
              if options.reset && k == clockchip_reset_register
              then 0
              else if includes options k
              then table_value clockchip_registers k (view b k)
              else view b k))
unfolding programmed
program_refines chip view file options b =
    let (b', e, v) = program-Leaves chip view file options b in
    (b', e, λ k. ap (λ (c : Contents). c k) v ∙ ground arith)
