-- ===== src/Mmio/Alignment/Runs.antt =====
-- The longest run of equal words, which `set_best_frontend_delay` of crates/daphne-sc-rpu/src/mmio.rs looks for.
use daphne_sc.Mmio.Alignment.{DelayScan, no_taps, keep_longest, scan_tap}
use daphne_sc.Prelude.{
  ℕ, zero, suc, ◌+◌, ◌-◌, ◌≤◌, ◌<◌, ◌≡◌, ◌≢◌, refl, sym, ◌∙◌, subst, arith, ◌⊎◌, le→ltb_false,
  lt→ltb, true, false, ◌&&◌, ◌==◌, inl, inr, dec_le, ℕ_discrete,
}

-- The words at `l` taps from `i` on are equal.
abbrev pub Same : (ℕ → ℕ) → ℕ → ℕ → Type 0
Same w i l = (j : ℕ) → i ≤ j → j + 1 < i + l → w (j + 1) ≡ w j

-- The same below tap `n`.
abbrev pub IsRun : (ℕ → ℕ) → ℕ → ℕ → ℕ → Type 0
IsRun w n i l = (i + l ≤ n) × Same w i l

-- No run is longer, and none as long starts earlier.
pub record IsFirstLongest (w : ℕ → ℕ) (n start len : ℕ) : Type 0 where
  pub run : IsRun w n start len
  pub positive : 1 ≤ len
  pub longest : (i l : ℕ) → IsRun w n i l → l ≤ len
  pub first : (i : ℕ) → IsRun w n i len → start ≤ i

-- The scan of the first `n` words.
abbrev pub scan : (ℕ → ℕ) → ℕ → DelayScan
scan w zero = no_taps
scan w (suc n) = scan_tap (scan w n) n (w n)

-- The scan after the words up to tap `m`.
record Scanned (w : ℕ → ℕ) (m : ℕ) (s : DelayScan) : Type 0 where
  have : s.have_previous ≡ true
  previous : s.previous_word ≡ w m
  end : s.current_start + s.current_len ≡ suc m
  some_taps : 1 ≤ s.current_len
  current : Same w s.current_start s.current_len
  boundary : (j : ℕ) → j + 1 ≡ s.current_start → w (j + 1) ≢ w j
  best : Same w s.best_start s.best_len
  best_end : s.best_start + s.best_len ≤ s.current_start
  longest : (i l : ℕ) → IsRun w s.current_start i l → l ≤ s.best_len
  first : (i : ℕ) → IsRun w s.current_start i s.best_len → s.best_start ≤ i

module _ (w : ℕ → ℕ) (m : ℕ) (s : DelayScan) (k : Scanned w m s) where
  -- A run does not cross the start of the current one.
  before_or_after : (i l : ℕ) → Same w i l → (i + l ≤ s.current_start) ⊎ (s.current_start ≤ i)
  before_or_after i l same = elim (dec_le (i + l) s.current_start) [
    | yes p ↦ inl p
    | no p ↦ elim (dec_le s.current_start i) [
      | yes q ↦ inr q
      | no q ↦ absurd (
          k.boundary (s.current_start - 1) (omega (arith, q))
            (same (s.current_start - 1) (omega (arith, q)) (omega (arith, p, q))))
    ]
  ]

  best_longest : s.current_len ≤ s.best_len → IsFirstLongest w (suc m) s.best_start s.best_len
  best_longest p = record {
    run = (omega (arith, k.best_end, k.end), k.best);
    positive = omega (arith, k.some_taps, p);
    longest = λ i l h. elim (before_or_after i l h.1) [
      | inl q ↦ k.longest i l (q, h.1)
      | inr q ↦ let e = h.0 in omega (arith, e, q, k.end, p)
    ];
    first = λ i h. elim (before_or_after i s.best_len h.1) [
      | inl q ↦ k.first i (q, h.1)
      | inr q ↦ omega (arith, q, k.best_end)
    ];
  }

  current_longest :
      s.best_len < s.current_len → IsFirstLongest w (suc m) s.current_start s.current_len
  current_longest p = record {
    run = (omega (arith, k.end), k.current);
    positive = k.some_taps;
    longest = λ i l h. elim (before_or_after i l h.1) [
      | inl q ↦ let e = k.longest i l (q, h.1) in omega (arith, e, p)
      | inr q ↦ let e = h.0 in omega (arith, e, q, k.end)
    ];
    first = λ i h. elim (before_or_after i s.current_len h.1) [
      | inl q ↦ let e = k.longest i s.current_len (q, h.1) in absurd (omega (arith, e, p))
      | inr q ↦ q
    ];
  }

  kept : let r = keep_longest s in IsFirstLongest w (suc m) r.best_start r.best_len
  unfolding keep_longest
  kept = elim (dec_le s.current_len s.best_len) [
    | yes p ↦ rw (le→ltb_false _ _ p, keep_longest) (best_longest p)
    | no p ↦
        rw (lt→ltb s.best_len s.current_len (omega (arith, p)), keep_longest)
          (current_longest (omega (arith, p)))
  ]

  -- A word like the last one makes the current run longer.
  equal-Scanned : w (suc m) ≡ w m → Scanned w (suc m) (record s { current_len = s.current_len + 1 })
  equal-Scanned e = record {
    have = k.have;
    previous = k.previous ∙ sym e;
    end = omega (arith, k.end);
    some_taps = omega arith;
    current = λ j h l. elim (dec_le (j + 1) m) [
      | yes p ↦ k.current j h (omega (arith, p, k.end))
      | no p ↦ let q : j ≡ m = omega (arith, p, l, k.end) in rw q (last_word e)
    ];
    boundary = k.boundary;
    best = k.best;
    best_end = k.best_end;
    longest = k.longest;
    first = k.first;
  }
    where
      last_word : w (suc m) ≡ w m → w (m + 1) ≡ w m
      last_word e = subst (λ n. w n ≡ w m) (omega arith) e

  -- Another word starts a new run.
  other-Scanned :
      w (suc m) ≢ w m
      → Scanned w (suc m) (record (keep_longest s) {
        current_start = suc m;
        current_len = 1;
        previous_word = w (suc m);
        have_previous = true;
      })
  other-Scanned e = record {
    have = refl;
    previous = refl;
    end = omega arith;
    some_taps = omega arith;
    current = λ j h l. absurd (omega (arith, h, l));
    boundary = λ j h same.
        e (subst (λ n. w n ≡ w m) h (subst (λ n. w (j + 1) ≡ w n) (omega (arith, h)) same));
    best = kept.run.1;
    best_end = kept.run.0;
    longest = kept.longest;
    first = kept.first;
  }

  tap-Scanned : Scanned w (suc m) (scan_tap s (suc m) (w (suc m)))
  unfolding scan_tap
  tap-Scanned = elim (ℕ_discrete (w (suc m)) (w m)) [
    | yes e ↦ rw (like e, scan_tap) (equal-Scanned e)
    | no e ↦ rw (unlike e, scan_tap) (other-Scanned e)
  ]
    where
      like : w (suc m) ≡ w m → (s.have_previous && w (suc m) == s.previous_word) ≡ true
      like e = ground (arith, k.have, k.previous, e)

      unlike : w (suc m) ≢ w m → (s.have_previous && w (suc m) == s.previous_word) ≡ false
      unlike e = ground (arith, k.have, k.previous, e)

scan-Scanned : (w : ℕ → ℕ) (m : ℕ) → Scanned w m (scan w (suc m))
unfolding scan_tap
scan-Scanned w zero = record {
  have = refl;
  previous = refl;
  end = refl;
  some_taps = omega arith;
  current = λ j h l. absurd (omega (arith, l));
  boundary = λ j h. absurd (omega (arith, h));
  best = λ j h l. absurd (omega (arith, l));
  best_end = omega arith;
  longest = λ i l h. let e = h.0 in omega (arith, e);
  first = λ i h. omega arith;
}
scan-Scanned w (suc m) = tap-Scanned w m (scan w (suc m)) (scan-Scanned w m)

-- The scan finds the first of the longest runs.
pub scan-IsFirstLongest :
    (w : ℕ → ℕ) (n : ℕ)
    → 1 ≤ n
    → let s = keep_longest (scan w n) in IsFirstLongest w n s.best_start s.best_len
scan-IsFirstLongest w zero h = absurd (omega (arith, h))
scan-IsFirstLongest w (suc m) h = kept w m (scan w (suc m)) (scan-Scanned w m)
