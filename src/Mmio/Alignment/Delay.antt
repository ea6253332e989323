-- ===== src/Mmio/Alignment/Delay.antt =====
-- `set_best_frontend_delay` of crates/daphne-sc-rpu/src/mmio.rs against the words that it reads.
use daphne_sc.Mmio.Alignment.{
  DelayScan, no_taps, keep_longest, scan_tap, set_frontend_delay, scan_frontend_word_after_write,
  scan_delay_taps, settle_delay, set_best_frontend_delay,
}
use daphne_sc.Mmio.Steps.{>>-ok, >>=-ok, >>-split, >>=-split}
use daphne_sc.Mmio.Alignment.Runs.{IsFirstLongest, scan, scan-IsFirstLongest}
use daphne_sc.Prelude.{
  ℕ, zero, suc, ◌+◌, ◌-◌, ◌/◌, ◌≤◌, ◌<◌, ◌≡◌, sym, ap, ◌∙◌, arith, List, [], ◌∷◌, length, get_or,
}
use daphne_sc.Prelude.{Result, ok, ok-injective, false, ◌==◌}
use daphne_sc.AfeHw.Control.{frontend_delay_taps}
use daphne_sc.Mmio.Backend.{RegisterIo, MmioAfeError, AfeMmioBackend, M, ◌>>=◌, ◌>>◌, pure}

-- The scan of the words of the taps from `tap` on.
abbrev scan_words : DelayScan → ℕ → List ℕ → DelayScan
scan_words s tap [] = s
scan_words s tap (word ∷ words) = scan_words (scan_tap s tap word) (tap + 1) words

abbrev pub word_at : List ℕ → ℕ → ℕ
word_at words i = get_or words i 0

module _ {I E : Type 0} (io : RegisterIo I E) (afe : ℕ) where
  -- Adds a word in front of those that a method records.
  abbrev with_word : M I E (List ℕ) → ℕ → M I E (List ℕ)
  with_word more word = more >>= λ words. pure (word ∷ words)

  abbrev look : M I E ℕ
  look = scan_frontend_word_after_write io afe

  -- Sets each of `n` taps from `tap` on and reads the frame clock at it.
  unfoldable pub record_words : ℕ → ℕ → M I E (List ℕ)
  record_words zero tap = pure []
  record_words (suc n) tap =
      set_frontend_delay io afe tap >> (look >>= with_word (record_words n (tap + 1)))

  scan_delay_taps-words :
      (n tap : ℕ) (s : DelayScan) (b b' : AfeMmioBackend I) (words : List ℕ)
      → record_words n tap b ≡ (b', ok words)
      → (scan_delay_taps io afe n tap s b ≡ (b', ok (scan_words s tap words))) × (length words ≡ n)
  unfolding record_words scan_delay_taps
  scan_delay_taps-words zero tap s b b' words h =
      let none_read =
        ok-injective (ap (λ (p : AfeMmioBackend I × Result (MmioAfeError E) (List ℕ)). p.1) h) in
      (
        ap (λ (p : AfeMmioBackend I × Result (MmioAfeError E) (List ℕ)). (p.0, ok s)) h
            ∙ ap (λ (ws : List ℕ). (b', ok (scan_words s tap ws))) none_read,
        ap (λ (ws : List ℕ). length ws) (sym none_read),
      )
  scan_delay_taps-words (suc n) tap s b b' words h =
      let more = record_words n (tap + 1) in
      let (c, e1, h1) =
        >>-split (set_frontend_delay io afe tap) (look >>= with_word more) b b' words h in
      let (d, word, e2, h2) = >>=-split look (with_word more) c b' words h1 in
      let (d', rest, e3, h3) = >>=-split more (λ words. pure (word ∷ words)) d b' words h2 in
      let all =
        ok-injective (ap (λ (p : AfeMmioBackend I × Result (MmioAfeError E) (List ℕ)). p.1) h3) in
      let at = ap (λ (p : AfeMmioBackend I × Result (MmioAfeError E) (List ℕ)). p.0) h3 in
      let (scanned, counted) =
        scan_delay_taps-words n (tap + 1) (scan_tap s tap word) d d' rest e3 in
      (
        >>-ok (set_frontend_delay io afe tap)
              (look >>= λ word. scan_delay_taps io afe n (tap + 1) (scan_tap s tap word)) e1
            ∙ >>=-ok look (λ word. scan_delay_taps io afe n (tap + 1) (scan_tap s tap word)) e2
            ∙ scanned
            ∙ ap
                (λ (x : AfeMmioBackend I).
                  (x, ok (scan_words (scan_tap s tap word) (tap + 1) rest)))
                at
            ∙ ap (λ (ws : List ℕ). (b', ok (scan_words s tap ws))) all,
        ap (λ (ws : List ℕ). length ws) (sym all) ∙ ap suc counted,
      )

not_zero : (n : ℕ) → 1 ≤ n → (n == 0) ≡ false
not_zero n h = ground arith

-- The words from tap `k` on, as values of a function.
scan_words-scan :
    (w : ℕ → ℕ) (k : ℕ) (words : List ℕ)
    → ((i : ℕ) → i < length words → word_at words i ≡ w (k + i))
    → scan_words (scan w k) k words ≡ scan w (k + length words)
scan_words-scan w k [] h = let e : k ≡ k + 0 = omega arith in ap (λ n. scan w n) e
scan_words-scan w k (word ∷ words) h =
    let here : k + 0 ≡ k = omega arith in
    let next : k + 1 ≡ suc k = omega arith in
    let there : suc k + length words ≡ k + suc (length words) = omega arith in
    ap (λ x. scan_words (scan_tap (scan w k) k x) (k + 1) words) (h 0 (omega arith) ∙ ap w here)
    ∙ ap (λ n. scan_words (scan w (suc k)) n words) next
    ∙ scan_words-scan w (suc k) words (λ i l.
      let shift : k + suc i ≡ suc k + i = omega arith in h (suc i) (omega (arith, l)) ∙ ap w shift)
    ∙ ap (λ n. scan w n) there

module _ {I E : Type 0} (io : RegisterIo I E) (afe : ℕ) where
  -- If the frame clock of an AFE can be read at every delay tap, the delay is set to the middle of the first
  -- of the longest runs of taps that read the same word.
  pub best_delay_lem :
      (b b' : AfeMmioBackend I) (words : List ℕ)
      → record_words io afe frontend_delay_taps 0 b ≡ (b', ok words)
      → (start : ℕ) × (len : ℕ) × IsFirstLongest (word_at words) frontend_delay_taps start len
        × (set_best_frontend_delay io afe b ≡ set_frontend_delay io afe (start + (len - 1) / 2) b')
  unfolding set_best_frontend_delay settle_delay
  best_delay_lem b b' words h =
      let (scanned, counted) =
        scan_delay_taps-words io afe frontend_delay_taps 0 no_taps b b' words h in
      let whole : 0 + length words ≡ frontend_delay_taps = omega (arith, counted) in
      let same =
        scan_words-scan (word_at words) 0 words
          (λ i l. let z : i ≡ 0 + i = omega arith in ap (word_at words) z)
        ∙ ap (λ n. scan (word_at words) n) whole in
      let found = scan-IsFirstLongest (word_at words) frontend_delay_taps (omega arith) in
      (
        _,
        _,
        found,
        >>=-ok (scan_delay_taps io afe frontend_delay_taps 0 no_taps) (settle_delay io afe)
              (scanned ∙ ap (λ (s : DelayScan). (b', ok s)) same)
            ∙ settled (scan (word_at words) frontend_delay_taps) found.positive,
      )
    where
      settled :
          (s : DelayScan)
          → 1 ≤ (keep_longest s).best_len
          → settle_delay io afe s b'
            ≡ set_frontend_delay io afe
                ((keep_longest s).best_start + ((keep_longest s).best_len - 1) / 2)
                b'
      settled s h = rw (not_zero (keep_longest s).best_len h, settle_delay)
