-- ===== src/Mmio/Tally.antt =====
-- Relations between the backend before and after a method that add up along its register accesses, and
-- the methods of the register level under them.
pub mod Registers
pub mod Alignment
pub mod Hardware
use daphne_sc.Prelude.{
  ℕ, zero, suc, ◌+◌, ◌*◌, ◌≤◌, ◌≡◌, refl, sym, ap, ◌∙◌, subst, arith, Bool, true, false,
}
use daphne_sc.Prelude.{Result, ok, err, Result-cases, inl, inr, if◌then◌else◌}
use daphne_sc.Mmio.Backend.{
  RegisterIo, MmioAfeError, AfeMmioBackend, M, ◌>>=◌, ◌>>◌, pure, raise, lift, for_each,
}
use daphne_sc.Mmio.Access.{read, write, poll}

-- `Q n b c`: from `b` to `c` with at most `n` register accesses.
pub record Tally {I E : Type 0} (io : RegisterIo I E)
    (Q : ℕ → AfeMmioBackend I → AfeMmioBackend I → Type 0) : Type 0 where
  pub stay : (b : AfeMmioBackend I) → Q 0 b b
  pub after : {n k : ℕ} {b c d : AfeMmioBackend I} → Q n b c → Q k c d → Q (n + k) b d
  pub more : {n k : ℕ} {b c : AfeMmioBackend I} → n ≤ k → Q n b c → Q k b c
  pub limit : {n : ℕ} {b c : AfeMmioBackend I} → Q n b c → c.spin_limit ≡ b.spin_limit
  pub reads : (offset : ℕ) (b : AfeMmioBackend I) → Q 1 b (read io offset b).0
  pub writes : (offset value : ℕ) (b : AfeMmioBackend I) → Q 1 b (write io offset value b).0

module _ {I E : Type 0} {io : RegisterIo I E} {Q : ℕ → AfeMmioBackend I → AfeMmioBackend I → Type 0}
    (t : Tally io Q) (limit : ℕ) where
  -- At most `n` accesses where the spin limit is `limit`, however the method ends.
  pub record Within {A : Type 0} (n : ℕ) (m : M I E A) : Type 0 where
    pub apply : (b : AfeMmioBackend I) → b.spin_limit ≡ limit → Q n b (m b).0

  pub >>=-Within :
      {A B : Type 0} {m : M I E A} {f : A → M I E B} {n k : ℕ}
      → Within n m
      → ((a : A) → Within k (f a))
      → Within (n + k) (m >>= f)
  >>=-Within {m = m} {f = f} wm wf = record {
    apply = λ b e. elim (Result-cases (m b).1) [
      | inl (a, q) ↦
          rw (q, ◌>>=◌) (t.after (wm.apply b e) ((wf a).apply (m b).0 (t.limit (wm.apply b e) ∙ e)))
      | inr (x, q) ↦ rw (q, ◌>>=◌) (t.more (omega arith) (wm.apply b e))
    ];
  }

  pub >>-Within :
      {B : Type 0} {m : M I E (Unit {0})} {k : M I E B} {n l : ℕ}
      → Within n m
      → Within l k
      → Within (n + l) (m >> k)
  >>-Within {m = m} {k = k} wm wk = record {
    apply = λ b e. elim (Result-cases (m b).1) [
      | inl (a, q) ↦
          rw (q, ◌>>◌) (t.after (wm.apply b e) (wk.apply (m b).0 (t.limit (wm.apply b e) ∙ e)))
      | inr (x, q) ↦ rw (q, ◌>>◌) (t.more (omega arith) (wm.apply b e))
    ];
  }

  -- A result that leaves the backend alone.
  pub lift-Within : {A : Type 0} (r : Result (MmioAfeError E) A) → Within 0 (lift r)
  lift-Within r = record { apply = λ b e. t.stay b }

  pub raise-Within : {A : Type 0} (x : MmioAfeError E) → Within 0 (raise {A = A} x)
  raise-Within x = record { apply = λ b e. t.stay b }

  pub pure-Within : {A : Type 0} (a : A) → Within 0 (pure a)
  pure-Within a = record { apply = λ b e. t.stay b }

  pub less-Within : {A : Type 0} {m : M I E A} {n k : ℕ} → n ≤ k → Within n m → Within k m
  less-Within h w = record { apply = λ b e. t.more h (w.apply b e) }

  pub read-Within : (offset : ℕ) → Within 1 (read io offset)
  read-Within offset = record { apply = λ b e. t.reads offset b }

  pub write-Within : (offset value : ℕ) → Within 1 (write io offset value)
  write-Within offset value = record { apply = λ b e. t.writes offset value b }

  pub if-Within :
      {A : Type 0} (c : Bool) {m k : M I E A} {n : ℕ}
      → Within n m
      → Within n k
      → Within n (if c then m else k)
  if-Within true wm wk = wm
  if-Within false wm wk = wk

  pub for_each-Within :
      (body : ℕ → M I E (Unit {0})) (first n : ℕ) {k : ℕ}
      → ((i : ℕ) → Within k (body i))
      → Within (n * k) (for_each first n body)
  for_each-Within body first zero w = less-Within (omega arith) (pure-Within tt)
  for_each-Within body first (suc n) w =
      less-Within (grind arith) (>>-Within (w first) (for_each-Within body (suc first) n w))

  pub poll-Within : (n offset : ℕ) (done : ℕ → Bool) → Within n (poll io n offset done)
  poll-Within zero offset done = raise-Within MmioAfeError.timeout
  poll-Within (suc n) offset done = less-Within (omega arith) (
      >>=-Within (read-Within offset) (λ value.
        if-Within (done value) (less-Within (omega arith) (pure-Within tt))
          (poll-Within n offset done)))
