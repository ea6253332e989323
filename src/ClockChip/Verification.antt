-- ===== src/ClockChip/Verification.antt =====
-- The verification of the clock chip against its table.
use daphne_sc.Prelude.{
  ◌+◌, ◌≡◌, refl, sym, ap, ◌∙◌, List, [], ◌∷◌, true, false, not, ◌==◌, Option, none, some, arith,
}
use daphne_sc.Prelude.{Result, ok, err, if◌then◌else◌, Bool-cases, inl, inr}
use daphne_sc.ClockChip.Registers.{ClockChipRegister, ClockChipRange, clockchip_registers}
use daphne_sc.ClockChip.Program.{
  ClockChipProgramOptions, ClockChipReport, ClockChipBus, ClockChipError, includes, no_report,
  read_checked, compare_register, verify_register, verify_entry, for_entries, verify_options,
  verify_clock_chip,
}
use daphne_sc.ClockChip.RegisterFile.{Contents, IsRegisterFile, selected}

-- The first selected entry whose register holds another value.
unfoldable pub first_mismatch :
    ClockChipProgramOptions → List ClockChipRegister → Contents → Option ClockChipRegister
first_mismatch options [] contents = none
first_mismatch options (entry ∷ entries) contents =
    let rest = first_mismatch options entries contents in
    if not (includes options entry.register)
    then rest
    else if contents entry.register == entry.value
    then rest
    else some entry

-- What the verification reports on these contents.
unfoldable pub verdict :
    {E : Type 0}
    → ClockChipProgramOptions
    → List ClockChipRegister
    → Contents
    → ClockChipReport
    → Result (ClockChipError E) ClockChipReport
verdict options entries contents report = elim (first_mismatch options entries contents) [
  | none ↦ ok (record report { verified = report.verified + selected options entries })
  | some entry ↦
      err (ClockChipError.verify_mismatch entry.register entry.value (contents entry.register))
]

module _ {E : Type 0} where
  pub verdict_none :
      (options : ClockChipProgramOptions) (entries : List ClockChipRegister) (contents : Contents)
      → first_mismatch options entries contents ≡ none
      → verdict {E = E} options entries contents no_report
        ≡ ok (record { written = 0; verified = selected options entries; reset_pulses = 0 })
  unfolding verdict
  verdict_none options entries contents h = ground arith

  verdict_end :
      (options : ClockChipProgramOptions) (contents : Contents) (report : ClockChipReport)
      → verdict {E = E} options [] contents report ≡ ok report
  unfolding verdict first_mismatch selected
  verdict_end options contents report = ground arith

module _ {E : Type 0} (options : ClockChipProgramOptions) (entry : ClockChipRegister)
    (entries : List ClockChipRegister) (contents : Contents) (report : ClockChipReport) where
  verdict_passed :
      includes options entry.register ≡ false
      → verdict {E = E} options (entry ∷ entries) contents report
        ≡ verdict options entries contents report
  unfolding verdict first_mismatch selected
  verdict_passed passed = ground arith

  module _ (chosen : includes options entry.register ≡ true) where
    verdict_same :
        (contents entry.register == entry.value) ≡ true
        → verdict {E = E} options (entry ∷ entries) contents report
          ≡ verdict options entries contents (record report { verified = report.verified + 1 })
    unfolding verdict first_mismatch selected
    verdict_same same = ground arith

    verdict_differs :
        (contents entry.register == entry.value) ≡ false
        → verdict {E = E} options (entry ∷ entries) contents report
          ≡ err
              (ClockChipError.verify_mismatch entry.register entry.value (contents entry.register))
    unfolding verdict first_mismatch selected
    verdict_differs differs = ground arith

module _ {B E : Type 0} (chip : ClockChipBus B E) (view : B → Contents)
    (file : IsRegisterFile chip view) where
  verify_entries :
      (options : ClockChipProgramOptions) (entries : List ClockChipRegister)
      (report : ClockChipReport) (b : B)
      → (b' : B) × (for_entries chip (verify_entry chip options) entries report b
          ≡ (b', verdict options entries (view b) report))
        × (view b' ≡ view b)
  unfolding for_entries verify_entry verify_register read_checked compare_register
  verify_entries options [] report b =
      (b, ap (λ r. (b, r)) (sym (verdict_end options (view b) report)), refl)
  verify_entries options (entry ∷ entries) report b =
      elim (Bool-cases (includes options entry.register)) [
        | inr passed ↦
            let (b', e, v) = verify_entries options entries report b in
            (b', rw (passed, verdict_passed options entry entries (view b) report passed) e, v)
        | inl chosen ↦
            let (b', e, v) = file.read_lem b entry.register in
            elim (Bool-cases (view b entry.register == entry.value)) [
              | inl same ↦
                  let (b'', e', v') =
                    verify_entries options entries
                      (record report { verified = report.verified + 1 }) b' in
                  (
                    b'',
                    rw
                        (
                          chosen,
                          e,
                          same,
                          verdict_same options entry entries (view b) report chosen same,
                        )
                        (e'
                          ∙ ap
                              (λ c. (
                                b'',
                                verdict options entries c
                                    (record report { verified = report.verified + 1 }),
                              ))
                              v),
                    v' ∙ v,
                  )
              | inr differs ↦ (
                b',
                rw
                    (
                      chosen,
                      e,
                      differs,
                      verdict_differs options entry entries (view b) report chosen differs,
                    )
                    refl,
                v,
              )
            ]
      ]

  -- On a bus that is a file of registers, `verify_clock_chip` changes no register; it reports the
  -- number of the registers in the ranges as verified if each of them holds its value of the table,
  -- and otherwise the first one that does not, with the value expected and the one read.
  pub verify_finds :
      (ranges : List ClockChipRange) (b : B)
      → (b' : B) × (verify_clock_chip chip ranges b
          ≡ (b', verdict (verify_options ranges) clockchip_registers (view b) no_report))
        × (view b' ≡ view b)
  unfolding verify_clock_chip
  verify_finds ranges b = verify_entries (verify_options ranges) clockchip_registers no_report b
