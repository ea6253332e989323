-- ===== src/ClockChip/Texts.antt =====
-- `Display` of `ClockChipError` and `ClockChipOperation`, crates/daphne-sc-core/src/clockchip.rs.
use daphne_sc.Prelude.{◌++◌}
use daphne_sc.Text.{Text, ascii, upper_hex_u8}
use daphne_sc.ClockChip.Program.{ClockChipError, ClockChipOperation}

unfoldable pub operation_text : ClockChipOperation → Text
operation_text ClockChipOperation.read = ascii "read"
operation_text ClockChipOperation.write = ascii "write"

unfoldable pub clockchip_error_text : {E : Type 0} → (E → Text) → ClockChipError E → Text
clockchip_error_text source_text (ClockChipError.bus register operation source) =
    ascii "clock-chip "
    ++ operation_text operation
    ++ ascii " failed at register 0x"
    ++ upper_hex_u8 register
    ++ ascii ": "
    ++ source_text source
clockchip_error_text source_text (ClockChipError.verify_mismatch register expected actual) =
    ascii "clock-chip verify mismatch at register 0x"
    ++ upper_hex_u8 register
    ++ ascii ": expected 0x"
    ++ upper_hex_u8 expected
    ++ ascii ", got 0x"
    ++ upper_hex_u8 actual
