-- ===== src/Mmio/Spi.antt =====
-- The SPI transactions and the named functions of crates/daphne-sc-rpu/src/mmio.rs: `read_register`,
-- `write_register` and `write_afe_function`.
use daphne_sc.Prelude.{ℕ, ◌%◌, ◌^◌, bit_and, List, ok_or, map_err}
use daphne_sc.AfeHw.{afe_control_offset, afe_register_word, afe_register_address_word}
use daphne_sc.AfeHw.Control.{afe_spi_trigger_word, afe_spi_idle_word}
use daphne_sc.AfeFunctions.Spec.{AfeFunctionError}
use daphne_sc.AfeFunctions.{validate_afe_function_value, mask, replace_afe_function_bits}
use daphne_sc.AfeFunctions.{extract_afe_function_bits}
use daphne_sc.Mmio.Backend.{RegisterIo, MmioAfeError, M, ◌>>=◌, ◌>>◌, pure, lift}
use daphne_sc.Mmio.Backend.{validate_afe, require_u16}
use daphne_sc.Mmio.Access.{read, write, wait_afe_ready}

unfoldable pub function_error : {E : Type 0} → AfeFunctionError → ℕ → MmioAfeError E
function_error AfeFunctionError.unknown_name value = MmioAfeError.invalid_function
function_error AfeFunctionError.invalid_value value = MmioAfeError.invalid_value value
function_error AfeFunctionError.invalid_bit_field value = MmioAfeError.invalid_function_field

module _ {I E : Type 0} (io : RegisterIo I E) where
  -- The end of both transactions: the address, the word that comes back, the idle word.
  abbrev pub read_back : ℕ → ℕ → M I E ℕ
  read_back offset register = do
    write io offset afe_spi_trigger_word
    wait_afe_ready io
    write io offset (afe_register_address_word register)
    wait_afe_ready io
    value ← read io offset
    write io offset afe_spi_idle_word
    pure (bit_and value 0xFFFF)

  unfoldable pub read_register : ℕ → ℕ → M I E ℕ
  read_register afe_pl register = do
    offset ← lift (ok_or (afe_control_offset afe_pl) (MmioAfeError.invalid_afe afe_pl))
    wait_afe_ready io
    read_back offset register

  unfoldable pub write_register : ℕ → ℕ → ℕ → M I E ℕ
  write_register afe_pl register value = do
    value ← lift (require_u16 value)
    offset ← lift (ok_or (afe_control_offset afe_pl) (MmioAfeError.invalid_afe afe_pl))
    wait_afe_ready io
    write io offset (afe_register_word register value)
    wait_afe_ready io
    read_back offset register

  unfoldable pub write_afe_function : ℕ → List ℕ → ℕ → M I E ℕ
  write_afe_function afe_pl name value = do
    lift (validate_afe afe_pl)
    spec ← lift (map_err (λ e. function_error e value) (validate_afe_function_value name value))
    m ← lift (map_err (λ e. function_error e value) (mask spec.field))
    current ← read_register afe_pl spec.field.register
    updated ← lift (
        map_err (λ e. function_error e value)
          (replace_afe_function_bits (current % 2 ^ 16) spec.field value))
    written ← write_register afe_pl spec.field.register updated
    readback ← read_register afe_pl spec.field.register
    lift (
        map_err (λ e. function_error e value)
          (extract_afe_function_bits (readback % 2 ^ 16) spec.field))
