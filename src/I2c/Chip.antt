-- ===== src/I2c/Chip.antt =====
-- The clock chip behind a device of crates/daphne-sc-server/src/i2c.rs.
use daphne_sc.Prelude.{ℕ, ◌≡◌, refl, [], ◌∷◌, ◌&&◌, ◌==◌, ok, if◌then◌else◌}
use daphne_sc.ClockChip.Registers.{clockchip_registers, clockchip_reset_register}
use daphne_sc.ClockChip.Program.{ClockChipProgramOptions, includes, program_clock_chip}
use daphne_sc.ClockChip.RegisterFile.{Contents, set_register, IsRegisterFile, table_value}
use daphne_sc.ClockChip.Refinement.{full_report, program_refines}
use daphne_sc.I2c.{I2cKernel, LinuxI2cDevice, write_register, read_register, device_bus}

-- What is written to the file sets a register of the chip or selects one, which is read next.
pub record IsChip {K F : Type 0} (kernel : I2cKernel K F) (file : F) (view : K → Contents)
    : Type 0 where
  pub set_lem :
      (k : K) (register value : ℕ)
      → (k' : K) × (kernel.write_all file (register ∷ value ∷ []) k ≡ (k', ok tt))
        × (view k' ≡ set_register (view k) register value)
  pub select_lem :
      (k : K) (register : ℕ)
      → (selected : K) × (k' : K) × (kernel.write_all file (register ∷ []) k ≡ (selected, ok tt))
        × (kernel.read_exact file 1 selected ≡ (k', ok (view k register ∷ [])))
        × (view k' ≡ view k)
  pub sleep_lem : (k : K) (ms : ℕ) → view (kernel.sleep ms k) ≡ view k

module _ {K F : Type 0} (kernel : I2cKernel K F) (device : LinuxI2cDevice F)
    (view : K → Contents) where
  device_bus-IsRegisterFile :
      IsChip kernel device.file view → IsRegisterFile (device_bus kernel device) view
  unfolding write_register read_register
  device_bus-IsRegisterFile chip = record {
    write_lem =
        λ k register value. let (k', e, v) = chip.set_lem k register value in (k', rw e refl, v);
    read_lem = λ k register.
        let (selected, k', e, e', v) = chip.select_lem k register in (k', rw (e, e') refl, v);
    delay_lem = λ k. chip.sleep_lem k 20;
  }

  -- On a chip that is reached through an open I2C device, `program_clock_chip` succeeds and leaves the
  -- reset register at 0 if a reset is asked for, each other selected register that the table has at
  -- its value there, and the rest as it was.
  pub device_program_lem :
      IsChip kernel device.file view
      → (options : ClockChipProgramOptions) (k : K)
      → (k' : K) × (program_clock_chip (device_bus kernel device) options k
          ≡ (k', ok (full_report options)))
        × ((register : ℕ)
            → view k' register ≡ (
                if options.reset && register == clockchip_reset_register
                then 0
                else if includes options register
                then table_value clockchip_registers register (view k register)
                else view k register))
  device_program_lem chip options k =
      program_refines (device_bus kernel device) view (device_bus-IsRegisterFile chip) options k
