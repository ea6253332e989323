-- ===== src/Mmio/Tally/Alignment.antt =====
-- How many register accesses the alignment of crates/daphne-sc-rpu/src/mmio.rs makes.
use daphne_sc.Prelude.{ℕ, zero, suc, ◌+◌, ◌*◌, ◌∙◌, arith, Bool, true, false, Option, none, some}
use daphne_sc.Mmio.Backend.{RegisterIo, MmioAfeError, AfeMmioBackend}
use daphne_sc.AfeHw.{frontend_delay_offset, frontend_bitslip_offset}
use daphne_sc.AfeHw.Control.{frontend_delay_taps, frontend_bitslip_taps}
use daphne_sc.Prelude.{leb, ok_or, ◌==◌, ◌-◌, ◌/◌}
use daphne_sc.Mmio.Alignment.{
  DelayScan, scan_tap, pulse_frontend_control_bit, set_frontend_delay_vtc, set_frontend_delay,
  set_frontend_bitslip, reset_frontend_delay_values, read_frontend_bitslip,
  trigger_frontend_snapshot, read_frame_clock, scan_frontend_word_after_write, scan_delay_taps,
  keep_longest, no_taps, settle_delay, set_best_frontend_delay, scan_bitslip_taps, expect_aligned,
  finish_bitslip, set_best_frontend_bitslip, align_afes, prepare_alignment, align_then_restore,
  align_frontend,
}
use daphne_sc.Mmio.Tally.{
  Tally, Within, >>=-Within, >>-Within, lift-Within, raise-Within, pure-Within, less-Within,
  read-Within, write-Within, if-Within, for_each-Within,
}
use daphne_sc.Mmio.Tally.Registers.{set_bit-Within, wait_frontend_delayctrl_ready-Within}

module _ {I E : Type 0} {io : RegisterIo I E} {Q : ℕ → AfeMmioBackend I → AfeMmioBackend I → Type 0}
    (t : Tally io Q) (limit : ℕ) where
  pulse-Within : (i : ℕ) → Within t limit 4 (pulse_frontend_control_bit io i)
  unfolding pulse_frontend_control_bit
  pulse-Within i = >>-Within t limit (set_bit-Within t limit _ _ _) (set_bit-Within t limit _ _ _)

  pub set_frontend_delay_vtc-Within : (on : Bool) → Within t limit 2 (set_frontend_delay_vtc io on)
  unfolding set_frontend_delay_vtc
  set_frontend_delay_vtc-Within on = set_bit-Within t limit _ _ _

  pub set_frontend_delay-Within :
      (afe value : ℕ) → Within t limit 1 (set_frontend_delay io afe value)
  unfolding set_frontend_delay
  set_frontend_delay-Within afe value =
      >>=-Within t limit
        (lift-Within t limit (ok_or (frontend_delay_offset afe) (MmioAfeError.invalid_afe afe)))
        (λ offset.
          if-Within t limit (leb frontend_delay_taps value)
            (less-Within t limit (omega arith)
              (raise-Within t limit (MmioAfeError.invalid_value value)))
            (write-Within t limit offset value))

  pub set_frontend_bitslip-Within :
      (afe value : ℕ) → Within t limit 1 (set_frontend_bitslip io afe value)
  unfolding set_frontend_bitslip
  set_frontend_bitslip-Within afe value =
      >>=-Within t limit
        (lift-Within t limit (ok_or (frontend_bitslip_offset afe) (MmioAfeError.invalid_afe afe)))
        (λ offset.
          if-Within t limit (leb frontend_bitslip_taps value)
            (less-Within t limit (omega arith)
              (raise-Within t limit (MmioAfeError.invalid_value value)))
            (write-Within t limit offset value))

  reset-Within : Within t limit 10 (reset_frontend_delay_values io)
  unfolding reset_frontend_delay_values
  reset-Within = for_each-Within t limit _ 0 5 (λ afe.
      >>-Within t limit (set_frontend_bitslip-Within afe 0) (set_frontend_delay-Within afe 0))

  read_frontend_bitslip-Within : (afe : ℕ) → Within t limit 1 (read_frontend_bitslip io afe)
  unfolding read_frontend_bitslip
  read_frontend_bitslip-Within afe =
      >>=-Within t limit (lift-Within t limit _)
        (λ offset. >>=-Within t limit (read-Within t limit offset) (λ value. pure-Within t limit _))

  read_frame_clock-Within : (afe : ℕ) → Within t limit 1 (read_frame_clock io afe)
  unfolding read_frame_clock
  read_frame_clock-Within afe =
      >>=-Within t limit (lift-Within t limit _) (λ offset. read-Within t limit offset)

  pub scan_word-Within : (afe : ℕ) → Within t limit 2 (scan_frontend_word_after_write io afe)
  unfolding scan_frontend_word_after_write trigger_frontend_snapshot
  scan_word-Within afe = >>-Within t limit (write-Within t limit _ _) (read_frame_clock-Within afe)

  scan_delay_taps-Within :
      (afe n tap : ℕ) (s : DelayScan) → Within t limit (n * 3) (scan_delay_taps io afe n tap s)
  unfolding scan_delay_taps
  scan_delay_taps-Within afe zero tap s = less-Within t limit (omega arith) (pure-Within t limit s)
  scan_delay_taps-Within afe (suc n) tap s = less-Within t limit (omega arith) (
      >>-Within t limit (set_frontend_delay-Within afe tap) (
        >>=-Within t limit (scan_word-Within afe)
          (λ word. scan_delay_taps-Within afe n (tap + 1) (scan_tap s tap word))))

  settle_delay-Within : (afe : ℕ) (s : DelayScan) → Within t limit 1 (settle_delay io afe s)
  unfolding settle_delay
  settle_delay-Within afe s =
      if-Within t limit ((keep_longest s).best_len == 0)
        (less-Within t limit (omega arith) (raise-Within t limit MmioAfeError.alignment_failed))
        (set_frontend_delay-Within afe
          ((keep_longest s).best_start + ((keep_longest s).best_len - 1) / 2))

  pub set_best_frontend_delay-Within :
      (afe : ℕ) → Within t limit 1537 (set_best_frontend_delay io afe)
  unfolding set_best_frontend_delay
  set_best_frontend_delay-Within afe =
      >>=-Within t limit (scan_delay_taps-Within afe 512 0 no_taps) (settle_delay-Within afe)

  scan_bitslip_taps-Within :
      (afe n tap : ℕ) (m : Option ℕ) → Within t limit (n * 3) (scan_bitslip_taps io afe n tap m)
  unfolding scan_bitslip_taps
  scan_bitslip_taps-Within afe zero tap m =
      less-Within t limit (omega arith) (pure-Within t limit m)
  scan_bitslip_taps-Within afe (suc n) tap m = less-Within t limit (omega arith) (
      >>-Within t limit (set_frontend_bitslip-Within afe tap) (
        >>=-Within t limit (scan_word-Within afe)
          (λ word. scan_bitslip_taps-Within afe n (tap + 1) _)))

  expect_aligned-Within : (afe : ℕ) → Within t limit 2 (expect_aligned io afe)
  unfolding expect_aligned
  expect_aligned-Within afe =
      >>=-Within t limit (scan_word-Within afe)
        (λ word. if-Within t limit _ (raise-Within t limit _) (pure-Within t limit tt))

  finish_bitslip-Within :
      (afe initial : ℕ) (m : Option ℕ) → Within t limit 11 (finish_bitslip io afe initial m)
  unfolding finish_bitslip
  finish_bitslip-Within afe initial none =
      less-Within t limit (omega arith)
        (>>-Within t limit (set_frontend_bitslip-Within afe initial) (raise-Within t limit _))
  finish_bitslip-Within afe initial (some tap) =
      >>-Within t limit (set_frontend_bitslip-Within afe tap) (
        >>-Within t limit (expect_aligned-Within afe)
          (for_each-Within t limit _ 0 4 (λ _. expect_aligned-Within afe)))

  pub set_best_frontend_bitslip-Within :
      (afe : ℕ) → Within t limit 60 (set_best_frontend_bitslip io afe)
  unfolding set_best_frontend_bitslip
  set_best_frontend_bitslip-Within afe =
      >>=-Within t limit (read_frontend_bitslip-Within afe) (λ initial.
        >>=-Within t limit (scan_bitslip_taps-Within afe 16 0 none)
          (λ m. finish_bitslip-Within afe initial m))

  align_afes-Within : Within t limit 7985 (align_afes io)
  unfolding align_afes
  align_afes-Within = for_each-Within t limit _ 0 5 (λ afe.
      >>-Within t limit (set_best_frontend_delay-Within afe) (set_best_frontend_bitslip-Within afe))

  prepare-Within : Within t limit (limit + 20) (prepare_alignment io)
  unfolding prepare_alignment
  prepare-Within = less-Within t limit (omega arith) (
      >>-Within t limit reset-Within (
        >>-Within t limit (pulse-Within _) (
          >>-Within t limit (pulse-Within _) (
            >>-Within t limit (set_frontend_delay_vtc-Within false)
              (wait_frontend_delayctrl_ready-Within t limit)))))

  restore-Within : Within t limit 7987 (align_then_restore io)
  unfolding align_then_restore
  restore-Within = record {
    apply = λ b e.
        let aligned = align_afes-Within.apply b e in
        t.after aligned ((set_frontend_delay_vtc-Within true).apply _ (t.limit aligned ∙ e));
  }

  pub align_frontend-Within : Within t limit (limit + 8007) (align_frontend io)
  unfolding align_frontend
  align_frontend-Within =
      less-Within t limit (omega arith) (>>-Within t limit prepare-Within restore-Within)
