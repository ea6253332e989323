-- ===== src/ClockChip/Steps.antt =====
-- The parts of a round of the programming of the clock chip on a file of registers.
use daphne_sc.Prelude.{ℕ, ◌+◌, ◌≡◌, refl, ap, ◌∙◌, true, false, ==_self, arith}
use daphne_sc.Prelude.{ok, if◌then◌else◌, Bool-cases, inl, inr}
use daphne_sc.Prelude.Actions.{Action, continue, ◌>>=◌}
use daphne_sc.ClockChip.Registers.{ClockChipRegister}
use daphne_sc.ClockChip.Program.{
  ClockChipProgramOptions, ClockChipReport, ClockChipBus, ClockChipError, includes, write_checked,
  read_checked, compare_register, verify_register, verify_written, program_entry,
}
use daphne_sc.ClockChip.RegisterFile.{Contents, set_register, IsRegisterFile, entry_programmed}

-- The report after the entries, from the one before.
abbrev pub counted : ClockChipProgramOptions → ℕ → ClockChipReport → ClockChipReport
counted options n report = record report {
  written = report.written + n;
  verified = report.verified + (if options.verify then n else 0);
}

module _ {B E : Type 0} (chip : ClockChipBus B E) (view : B → Contents)
    (file : IsRegisterFile chip view) where
  -- The action succeeds with this value and leaves these contents.
  abbrev pub Leaves : {A : Type 0} → Action B (ClockChipError E) A → B → A → Contents → Type 0
  Leaves m b a contents = (b' : B) × (m b ≡ (b', ok a)) × (view b' ≡ contents)

  pub then-Leaves :
      {A C : Type 0} (m : Action B (ClockChipError E) A) (f : A → Action B (ClockChipError E) C)
      (b : B) (a : A) (c : C) (middle contents : Contents)
      → Leaves m b a middle
      → ((b' : B) → view b' ≡ middle → Leaves (f a) b' c contents)
      → Leaves (m >>= f) b c contents
  then-Leaves m f b a c middle contents (b', e, v) next =
      let (b'', e', v') = next b' v in (b'', ap (continue f) e ∙ e', v')

  pub write_checked-Leaves :
      (b : B) (register value : ℕ)
      → Leaves (write_checked chip register value) b tt (set_register (view b) register value)
  unfolding write_checked
  write_checked-Leaves b register value =
      let (b', e, v) = file.write_lem b register value in (b', rw e refl, v)

  pub verify_register-Leaves :
      (b : B) (entry : ClockChipRegister)
      → view b entry.register ≡ entry.value
      → Leaves (verify_register chip entry) b tt (view b)
  unfolding verify_register read_checked compare_register
  verify_register-Leaves b entry h =
      let (b', e, v) = file.read_lem b entry.register in
      (b', rw (e, h, ==_self entry.value) refl, v)

  verify_written-Leaves :
      (options : ClockChipProgramOptions) (entry : ClockChipRegister) (report : ClockChipReport)
      (b : B)
      → view b entry.register ≡ entry.value
      → Leaves
          (verify_written chip options entry (record report { written = report.written + 1 }))
          b
          (counted options 1 report)
          (view b)
  unfolding verify_written
  verify_written-Leaves options entry report b h = elim (Bool-cases options.verify) [
    | inl yes_verify ↦
        let (b', e, v) = verify_register-Leaves b entry h in (b', rw (yes_verify, e) refl, v)
    | inr no_verify ↦ (b, rw no_verify (ground arith), refl)
  ]

  program_entry-Leaves :
      (options : ClockChipProgramOptions) (entry : ClockChipRegister) (report : ClockChipReport)
      (b : B)
      → includes options entry.register ≡ true
      → Leaves
          (program_entry chip options entry report)
          b
          (counted options 1 report)
          (set_register (view b) entry.register entry.value)
  unfolding program_entry
  program_entry-Leaves options entry report b chosen =
      let next : ClockChipReport = record report { written = report.written + 1 } in
      rw chosen (
        then-Leaves (write_checked chip entry.register entry.value)
          (λ _. verify_written chip options entry next) b tt (counted options 1 report)
          (set_register (view b) entry.register entry.value)
          (set_register (view b) entry.register entry.value)
          (write_checked-Leaves b entry.register entry.value)
          (λ b' v.
            let held : view b' entry.register ≡ entry.value =
              ap (λ (c : Contents). c entry.register) v ∙ rw (==_self entry.register) refl in
            let (b'', e, v') = verify_written-Leaves options entry report b' held in
            (b'', e, v' ∙ v)))

  program_entry_passes :
      (options : ClockChipProgramOptions) (entry : ClockChipRegister) (report : ClockChipReport)
      (b : B)
      → includes options entry.register ≡ false
      → Leaves (program_entry chip options entry report) b (counted options 0 report) (view b)
  unfolding program_entry
  program_entry_passes options entry report b passed = (b, rw passed (ground arith), refl)

  pub program_round :
      (options : ClockChipProgramOptions) (entry : ClockChipRegister) (report : ClockChipReport)
      (b : B)
      → Leaves
          (program_entry chip options entry report)
          b
          (counted options (if includes options entry.register then 1 else 0) report)
          (entry_programmed options entry (view b))
  program_round options entry report b = elim (Bool-cases (includes options entry.register)) [
    | inl chosen ↦ rw chosen (program_entry-Leaves options entry report b chosen)
    | inr passed ↦ rw passed (program_entry_passes options entry report b passed)
  ]
