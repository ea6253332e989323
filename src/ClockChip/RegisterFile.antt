-- ===== src/ClockChip/RegisterFile.antt =====
-- The programming of the clock chip on a bus that is a file of registers.
use daphne_sc.Prelude.{
  ltb, ◌≤◌, ℕ, ◌+◌, ◌≡◌, refl, List, [], ◌∷◌, Bool, true, false, ◌&&◌, not, ◌==◌, ==_iff, ==_self,
  arith,
}
use daphne_sc.Prelude.{ok, if◌then◌else◌, Bool-cases, inl, inr}
use daphne_sc.ClockChip.Registers.{ClockChipRegister, clockchip_registers, clockchip_reset_register}
use daphne_sc.ClockChip.Program.{ClockChipProgramOptions, ClockChipBus, includes}

abbrev pub Contents : Type 0
Contents = ℕ → ℕ

abbrev pub set_register : Contents → ℕ → ℕ → Contents
set_register file register value k = if k == register then value else file k

-- A bus on which every call succeeds, writes are kept and reads return what the register holds.
pub record IsRegisterFile {B E : Type 0} (chip : ClockChipBus B E) (view : B → Contents)
    : Type 0 where
  pub write_lem :
      (b : B) (register value : ℕ)
      → (b' : B) × (chip.write_register register value b ≡ (b', ok tt))
        × (view b' ≡ set_register (view b) register value)
  pub read_lem :
      (b : B) (register : ℕ)
      → (b' : B) × (chip.read_register register b ≡ (b', ok (view b register))) × (view b' ≡ view b)
  pub delay_lem : (b : B) → view (chip.reset_delay b) ≡ view b

-- How many entries the options select.
unfoldable pub selected : ClockChipProgramOptions → List ClockChipRegister → ℕ
selected options [] = 0
selected options (entry ∷ entries) =
    let rest = selected options entries in
    if includes options entry.register then rest + 1 else rest

-- The value that a table has for a register, or else the one given.
unfoldable pub table_value : List ClockChipRegister → ℕ → ℕ → ℕ
table_value [] k otherwise = otherwise
table_value (entry ∷ entries) k otherwise =
    if k == entry.register then entry.value else table_value entries k otherwise

-- What the file holds once the selected entries are written.
unfoldable pub programmed : ClockChipProgramOptions → List ClockChipRegister → Contents → Contents
programmed options entries file k =
    if includes options k then table_value entries k (file k) else file k

abbrev pub Absent : ℕ → List ClockChipRegister → Type 0
Absent k [] = Unit {0}
Absent k (entry ∷ entries) = ((k == entry.register) ≡ false) × Absent k entries

-- No register stands twice in the table.
abbrev pub IsTable : List ClockChipRegister → Type 0
IsTable [] = Unit {0}
IsTable (entry ∷ entries) = Absent entry.register entries × IsTable entries

-- The same as tests, for the table of the program.
absent : ℕ → List ClockChipRegister → Bool
absent k [] = true
absent k (entry ∷ entries) = not (k == entry.register) && absent k entries

ascending : ℕ → List ClockChipRegister → Bool
ascending below [] = true
ascending below (entry ∷ entries) = ltb below entry.register && ascending entry.register entries

absent-Absent :
    (k : ℕ) (entries : List ClockChipRegister) → absent k entries ≡ true → Absent k entries
unfolding absent
absent-Absent k [] h = tt
absent-Absent k (entry ∷ entries) h = (ground arith, absent-Absent k entries (ground arith))

ascending-Absent :
    (k below : ℕ) (entries : List ClockChipRegister)
    → k ≤ below
    → ascending below entries ≡ true
    → Absent k entries
unfolding ascending
ascending-Absent k below [] le h = tt
ascending-Absent k below (entry ∷ entries) le h =
    (ground arith, ascending-Absent k entry.register entries (ground arith) (ground arith))

ascending-IsTable :
    (below : ℕ) (entries : List ClockChipRegister)
    → ascending below entries ≡ true
    → IsTable entries
unfolding ascending
ascending-IsTable below [] h = tt
ascending-IsTable below (entry ∷ entries) h =
    let rest : ascending entry.register entries ≡ true = ground arith in
    (
      ascending-Absent entry.register entry.register entries (omega arith) rest,
      ascending-IsTable entry.register entries rest,
    )

clockchip_registers_ascend : ascending 0 clockchip_registers ≡ true
unfolding ascending clockchip_registers
clockchip_registers_ascend = refl

reset_register_absent : absent clockchip_reset_register clockchip_registers ≡ true
unfolding absent clockchip_registers
reset_register_absent = refl

pub clockchip_registers-IsTable : IsTable clockchip_registers
clockchip_registers-IsTable = ascending-IsTable 0 clockchip_registers clockchip_registers_ascend

pub reset_register-Absent : Absent clockchip_reset_register clockchip_registers
reset_register-Absent =
    absent-Absent clockchip_reset_register clockchip_registers reset_register_absent

table_value-Absent :
    (k : ℕ) (entries : List ClockChipRegister) (otherwise : ℕ)
    → Absent k entries
    → table_value entries k otherwise ≡ otherwise
unfolding table_value
table_value-Absent k [] otherwise h = refl
table_value-Absent k (entry ∷ entries) otherwise (ne, rest) =
    rw ne (table_value-Absent k entries otherwise rest)

abbrev pub entry_programmed : ClockChipProgramOptions → ClockChipRegister → Contents → Contents
entry_programmed options entry file =
    if includes options entry.register then set_register file entry.register entry.value else file

pub programmed_step_at :
    (options : ClockChipProgramOptions) (entry : ClockChipRegister)
    (entries : List ClockChipRegister) (file : Contents) (k : ℕ)
    → Absent entry.register entries
    → programmed options entries (entry_programmed options entry file) k
      ≡ programmed options (entry ∷ entries) file k
unfolding programmed table_value
programmed_step_at options entry entries file k absent = elim (Bool-cases (k == entry.register)) [
  | inl same ↦
      let e : k ≡ entry.register = (==_iff k entry.register).0 same in
      rw e (
        ground (
          arith,
          table_value-Absent entry.register entries entry.value absent,
          ==_self entry.register,
        ))
  | inr differs ↦ ground (arith)
]
