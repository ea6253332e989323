-- ===== src/ClockChip/Image.antt =====
-- The verification of the clock chip after its programming.
use daphne_sc.Prelude.{
  ◌≡◌, refl, sym, ap, ◌∙◌, subst, List, [], ◌∷◌, Bool, true, false, ◌==◌, ==_self, none, arith,
}
use daphne_sc.Prelude.{ok, if◌then◌else◌, Bool-cases, fun_ext, inl, inr}
use daphne_sc.Prelude.Actions.{continue, ◌>>=◌}
use daphne_sc.ClockChip.Registers.{ClockChipRegister, clockchip_registers, clockchip_reset_register}
use daphne_sc.ClockChip.Program.{
  ClockChipProgramOptions, ClockChipBus, includes, program_clock_chip, verify_options,
  verify_clock_chip,
}
use daphne_sc.ClockChip.RegisterFile.{
  Contents, set_register, IsRegisterFile, selected, programmed, programmed_step_at, Absent, IsTable,
  entry_programmed, table_value, clockchip_registers-IsTable, reset_register-Absent,
}
use daphne_sc.ClockChip.Refinement.{reset_contents, program-Leaves, full_report}
use daphne_sc.ClockChip.Verification.{first_mismatch, verdict_none, verify_finds}

-- Each selected entry has its value in these contents.
abbrev Holds : ClockChipProgramOptions → List ClockChipRegister → Contents → Type 0
Holds options [] contents = Unit {0}
Holds options (entry ∷ entries) contents =
    (includes options entry.register ≡ true → (contents entry.register == entry.value) ≡ true)
    × Holds options entries contents

Holds-none :
    (options : ClockChipProgramOptions) (entries : List ClockChipRegister) (contents : Contents)
    → Holds options entries contents
    → first_mismatch options entries contents ≡ none
unfolding first_mismatch
Holds-none options [] contents h = refl
Holds-none options (entry ∷ entries) contents (held, rest) =
    elim (Bool-cases (includes options entry.register)) [
      | inl chosen ↦ rw (chosen, held chosen) (Holds-none options entries contents rest)
      | inr passed ↦ rw passed (Holds-none options entries contents rest)
    ]

programmed-Holds :
    (options : ClockChipProgramOptions) (entries : List ClockChipRegister) (contents : Contents)
    → IsTable entries
    → Holds options entries (programmed options entries contents)
programmed-Holds options [] contents h = tt
programmed-Holds options (entry ∷ entries) contents (absent, distinct) = (
  λ chosen.
      unfold programmed table_value in
      rw (chosen, ==_self entry.register, ==_self entry.value) refl,
  subst (Holds options entries)
      (fun_ext (λ k. programmed_step_at options entry entries contents k absent))
      (programmed-Holds options entries (entry_programmed options entry contents) distinct),
)

reset-Holds :
    (options : ClockChipProgramOptions) (entries : List ClockChipRegister) (contents : Contents)
    → Absent clockchip_reset_register entries
    → Holds options entries contents
    → Holds options entries (set_register contents clockchip_reset_register 0)
reset-Holds options [] contents absent h = tt
reset-Holds options (entry ∷ entries) contents (ne, absent) (held, rest) =
    (λ chosen. ground (arith, held chosen), reset-Holds options entries contents absent rest)

program-Holds :
    (options : ClockChipProgramOptions) (contents : Contents)
    → Holds options clockchip_registers
        (reset_contents options (programmed options clockchip_registers contents))
program-Holds options contents = with_reset options.reset
  where
    image : Contents
    image = programmed options clockchip_registers contents

    held : Holds options clockchip_registers image
    held = programmed-Holds options clockchip_registers contents clockchip_registers-IsTable

    with_reset :
        (reset : Bool)
        → Holds options clockchip_registers
            (if reset then set_register image clockchip_reset_register 0 else image)
    with_reset true = reset-Holds options clockchip_registers image reset_register-Absent held
    with_reset false = held

-- The options of `verify_clock_chip` select what options with the same ranges select.
module _ (options : ClockChipProgramOptions) where
  verified_as :
      (entries : List ClockChipRegister) (contents : Contents)
      → first_mismatch options entries contents
        ≡ first_mismatch (verify_options options.ranges) entries contents
  unfolding first_mismatch includes
  verified_as [] contents = refl
  verified_as (entry ∷ entries) contents = rw (verified_as entries contents) refl

  selected_as :
      (entries : List ClockChipRegister)
      → selected options entries ≡ selected (verify_options options.ranges) entries
  unfolding selected includes
  selected_as [] = refl
  selected_as (entry ∷ entries) = rw (selected_as entries) refl

module _ {B E : Type 0} (chip : ClockChipBus B E) (view : B → Contents)
    (file : IsRegisterFile chip view) where
  -- On a bus that is a file of registers, the verification of the ranges that were programmed succeeds, with or without a
  -- reset, and counts the registers that the program wrote.
  pub verify-program :
      (options : ClockChipProgramOptions) (b : B)
      → (b' : B) × ((program_clock_chip chip options >>= λ _. verify_clock_chip chip options.ranges)
            b
          ≡ (
            b',
            ok (record { written = 0; verified = (full_report options).written; reset_pulses = 0 }),
          ))
  verify-program options b =
      let (b', e, v) = program-Leaves chip view file options b in
      let (b'', e', v') = verify_finds chip view file options.ranges b' in
      let found : first_mismatch (verify_options options.ranges) clockchip_registers (view b')
          ≡ none =
        sym (verified_as options clockchip_registers (view b'))
        ∙ Holds-none options clockchip_registers (view b')
            (rw v (program-Holds options (view b))) in
      (
        b'',
        ap (continue (λ _. verify_clock_chip chip options.ranges)) e
            ∙ e'
            ∙ ap (λ r. (b'', r))
                (verdict_none (verify_options options.ranges) clockchip_registers (view b') found
                  ∙ ap (λ n. ok (record { written = 0; verified = n; reset_pulses = 0 }))
                      (sym (selected_as options clockchip_registers))),
      )
