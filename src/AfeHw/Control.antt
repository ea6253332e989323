-- ===== src/AfeHw/Control.antt =====
-- The control registers of crates/daphne-sc-core/src/afe_hw.rs, their bits, and the words of the SPI
-- transactions.
use daphne_sc.Prelude.{ℕ}

abbrev pub afe_global_control_offset : ℕ
afe_global_control_offset = 0

abbrev pub dac_gain_bias_control_offset : ℕ
dac_gain_bias_control_offset = 0x0C000000

abbrev pub bias_enable_offset : ℕ
bias_enable_offset = 0x1400000C

abbrev pub frontend_control_offset : ℕ
frontend_control_offset = 0x08000000

abbrev pub frontend_status_offset : ℕ
frontend_status_offset = 0x08000004

abbrev pub frontend_trigger_offset : ℕ
frontend_trigger_offset = 0x08000008

abbrev pub afe_global_reset_bit : ℕ
afe_global_reset_bit = 0

abbrev pub afe_global_powerstate_bit : ℕ
afe_global_powerstate_bit = 1

-- AFE_GLOBAL_BUSY_BITS, its start and its end.
abbrev pub afe_global_busy_bits : ℕ × ℕ
afe_global_busy_bits = (2, 4)

abbrev pub frontend_delayctrl_reset_bit : ℕ
frontend_delayctrl_reset_bit = 0

abbrev pub frontend_serdes_reset_bit : ℕ
frontend_serdes_reset_bit = 1

abbrev pub frontend_delay_en_vtc_bit : ℕ
frontend_delay_en_vtc_bit = 2

abbrev pub frontend_delayctrl_ready_bit : ℕ
frontend_delayctrl_ready_bit = 0

abbrev pub frontend_trigger_word : ℕ
frontend_trigger_word = 0x0000BABA

abbrev pub frontend_delay_taps : ℕ
frontend_delay_taps = 512

abbrev pub frontend_bitslip_taps : ℕ
frontend_bitslip_taps = 16

abbrev pub frontend_verify_reads : ℕ
frontend_verify_reads = 4

abbrev pub frontend_expected_fclk_word : ℕ
frontend_expected_fclk_word = 0x00FF00FF

abbrev pub afe_spi_trigger_word : ℕ
afe_spi_trigger_word = 2

abbrev pub afe_spi_idle_word : ℕ
afe_spi_idle_word = 0
