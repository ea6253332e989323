-- ===== src/Mmio/Alignment.antt =====
-- The alignment of the front end in crates/daphne-sc-rpu/src/mmio.rs: the scans over the delay and bitslip
-- taps of an AFE.
pub mod Runs
pub mod Delay
use daphne_sc.Prelude.{ℕ, suc, ◌+◌, ◌-◌, ◌/◌, bit_and, Bool, true, false, not, ◌&&◌, ◌==◌, ltb, leb}
use daphne_sc.Prelude.{Option, none, some, Result, ok, err, ok_or, if◌then◌else◌}
use daphne_sc.Afe.{afe_count}
use daphne_sc.AfeHw.{frontend_delay_offset, frontend_bitslip_offset, spy_buffer_frame_clock_offset}
use daphne_sc.AfeHw.Control.{
  frontend_control_offset, frontend_trigger_offset, frontend_trigger_word,
}
use daphne_sc.AfeHw.Control.{
  frontend_delayctrl_reset_bit, frontend_serdes_reset_bit, frontend_delay_en_vtc_bit,
}
use daphne_sc.AfeHw.Control.{frontend_delay_taps, frontend_bitslip_taps, frontend_verify_reads}
use daphne_sc.AfeHw.Control.{frontend_expected_fclk_word}
use daphne_sc.Mmio.Backend.{RegisterIo, MmioAfeError, M, ◌>>=◌, ◌>>◌, pure, raise, lift, for_each}
use daphne_sc.Mmio.Access.{read, write, set_bit, wait_frontend_delayctrl_ready}

-- The local variables of `set_best_frontend_delay`.
pub record DelayScan : Type 0 where
  pub best_start : ℕ
  pub best_len : ℕ
  pub current_start : ℕ
  pub current_len : ℕ
  pub previous_word : ℕ
  pub have_previous : Bool

abbrev pub no_taps : DelayScan
no_taps = record {
  best_start = 0;
  best_len = 0;
  current_start = 0;
  current_len = 0;
  previous_word = 0;
  have_previous = false;
}

-- `if current_len > best_len { ... }`
unfoldable pub keep_longest : DelayScan → DelayScan
keep_longest s =
    if ltb s.best_len s.current_len
    then record s { best_start = s.current_start; best_len = s.current_len }
    else s

-- One round of the loop, once the word is read.
unfoldable pub scan_tap : DelayScan → ℕ → ℕ → DelayScan
unfolding keep_longest
scan_tap s tap word =
    if s.have_previous && word == s.previous_word
    then record s { current_len = s.current_len + 1 }
    else record (keep_longest s) {
      current_start = tap;
      current_len = 1;
      previous_word = word;
      have_previous = true;
    }

module _ {I E : Type 0} (io : RegisterIo I E) where
  unfoldable pub pulse_frontend_control_bit : ℕ → M I E (Unit {0})
  pulse_frontend_control_bit bit_index = do
    set_bit io frontend_control_offset bit_index true
    set_bit io frontend_control_offset bit_index false

  unfoldable pub set_frontend_delay_vtc : Bool → M I E (Unit {0})
  set_frontend_delay_vtc enabled =
      set_bit io frontend_control_offset frontend_delay_en_vtc_bit enabled

  unfoldable pub set_frontend_delay : ℕ → ℕ → M I E (Unit {0})
  set_frontend_delay afe_board value = do
    offset ← lift (ok_or (frontend_delay_offset afe_board) (MmioAfeError.invalid_afe afe_board))
    (if leb frontend_delay_taps value
        then raise (MmioAfeError.invalid_value value)
        else write io offset value)

  unfoldable pub set_frontend_bitslip : ℕ → ℕ → M I E (Unit {0})
  set_frontend_bitslip afe_board value = do
    offset ← lift (ok_or (frontend_bitslip_offset afe_board) (MmioAfeError.invalid_afe afe_board))
    (if leb frontend_bitslip_taps value
        then raise (MmioAfeError.invalid_value value)
        else write io offset value)

  unfoldable pub reset_frontend_delay_values : M I E (Unit {0})
  reset_frontend_delay_values =
      for_each 0 afe_count
        (λ afe_board. do set_frontend_bitslip afe_board 0; set_frontend_delay afe_board 0)

  unfoldable pub read_frontend_bitslip : ℕ → M I E ℕ
  read_frontend_bitslip afe_board = do
    offset ← lift (ok_or (frontend_bitslip_offset afe_board) (MmioAfeError.invalid_afe afe_board))
    value ← read io offset
    pure (bit_and value 0x0F)

  unfoldable pub trigger_frontend_snapshot : M I E (Unit {0})
  trigger_frontend_snapshot = write io frontend_trigger_offset frontend_trigger_word

  unfoldable pub read_frame_clock : ℕ → M I E ℕ
  read_frame_clock afe_board = do
    offset ←
        lift
          (ok_or (spy_buffer_frame_clock_offset afe_board 0) (MmioAfeError.invalid_afe afe_board))
    read io offset

  unfoldable pub scan_frontend_word_after_write : ℕ → M I E ℕ
  scan_frontend_word_after_write afe_board = do
    trigger_frontend_snapshot
    read_frame_clock afe_board

  -- The loop over the delay taps, from `tap` on, `n` taps.
  unfoldable pub scan_delay_taps : ℕ → ℕ → ℕ → DelayScan → M I E DelayScan
  scan_delay_taps afe_board ℕ.zero tap s = pure s
  scan_delay_taps afe_board (suc n) tap s = do
    set_frontend_delay afe_board tap
    word ← scan_frontend_word_after_write afe_board
    scan_delay_taps afe_board n (tap + 1) (scan_tap s tap word)

  -- `set_best_frontend_delay` after the loop.
  unfoldable pub settle_delay : ℕ → DelayScan → M I E (Unit {0})
  settle_delay afe_board scanned =
      let s = keep_longest scanned in
      if s.best_len == 0
      then raise MmioAfeError.alignment_failed
      else set_frontend_delay afe_board (s.best_start + (s.best_len - 1) / 2)

  unfoldable pub set_best_frontend_delay : ℕ → M I E (Unit {0})
  set_best_frontend_delay afe_board =
      scan_delay_taps afe_board frontend_delay_taps 0 no_taps >>= settle_delay afe_board

  -- `matched_bitslip` after a tap.
  abbrev pub match_tap : Option ℕ → ℕ → ℕ → Option ℕ
  match_tap (some matched) tap word = some matched
  match_tap none tap word = if word == frontend_expected_fclk_word then some tap else none

  -- The loop over the bitslip taps.
  unfoldable pub scan_bitslip_taps : ℕ → ℕ → ℕ → Option ℕ → M I E (Option ℕ)
  scan_bitslip_taps afe_board ℕ.zero tap matched = pure matched
  scan_bitslip_taps afe_board (suc n) tap matched = do
    set_frontend_bitslip afe_board tap
    word ← scan_frontend_word_after_write afe_board
    scan_bitslip_taps afe_board n (tap + 1) (match_tap matched tap word)

  -- A read of the frame clock that fails unless it is aligned.
  unfoldable pub expect_aligned : ℕ → M I E (Unit {0})
  expect_aligned afe_board = do
    word ← scan_frontend_word_after_write afe_board
    (if not (word == frontend_expected_fclk_word)
        then raise MmioAfeError.alignment_failed
        else pure tt)

  -- What follows the scan, with the bitslip that matched.
  unfoldable pub finish_bitslip : ℕ → ℕ → Option ℕ → M I E (Unit {0})
  finish_bitslip afe_board initial_bitslip none = do
    set_frontend_bitslip afe_board initial_bitslip
    raise MmioAfeError.alignment_failed
  finish_bitslip afe_board initial_bitslip (some final_bitslip) = do
    set_frontend_bitslip afe_board final_bitslip
    expect_aligned afe_board
    for_each 0 frontend_verify_reads (λ _. expect_aligned afe_board)

  unfoldable pub set_best_frontend_bitslip : ℕ → M I E (Unit {0})
  set_best_frontend_bitslip afe_board = do
    initial_bitslip ← read_frontend_bitslip afe_board
    matched_bitslip ← scan_bitslip_taps afe_board frontend_bitslip_taps 0 none
    finish_bitslip afe_board initial_bitslip matched_bitslip

  -- The loop over the AFEs; it stops at the first error.
  unfoldable pub align_afes : M I E (Unit {0})
  align_afes =
      for_each 0 afe_count
        (λ afe_board. do set_best_frontend_delay afe_board; set_best_frontend_bitslip afe_board)

  unfoldable pub prepare_alignment : M I E (Unit {0})
  prepare_alignment = do
    reset_frontend_delay_values
    pulse_frontend_control_bit frontend_delayctrl_reset_bit
    pulse_frontend_control_bit frontend_serdes_reset_bit
    set_frontend_delay_vtc false
    wait_frontend_delayctrl_ready io

  -- `result?; vtc_result`
  abbrev pub first_error :
      {A : Type 0}
      → Result (MmioAfeError E) A
      → Result (MmioAfeError E) A
      → Result (MmioAfeError E) A
  first_error (ok _) vtc_result = vtc_result
  first_error (err e) vtc_result = err e

  -- The rest of `align_frontend`: the temperature compensation is switched on again also after an error.
  unfoldable pub align_then_restore : M I E (Unit {0})
  align_then_restore b =
      let (b', result) = align_afes b in
      let (b'', vtc_result) = set_frontend_delay_vtc true b' in (b'', first_error result vtc_result)

  unfoldable pub align_frontend : M I E (Unit {0})
  align_frontend = prepare_alignment >> align_then_restore
