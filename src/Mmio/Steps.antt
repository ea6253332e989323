-- ===== src/Mmio/Steps.antt =====
-- How a method of the backend, crates/daphne-sc-rpu/src/mmio.rs, ends by how its first step ends.
use daphne_sc.Prelude.{◌≡◌, ap, arith, Result, ok, err, Result-cases, inl, inr}
use daphne_sc.Mmio.Backend.{MmioAfeError, AfeMmioBackend, M, ◌>>=◌, ◌>>◌}

module _ {I E A : Type 0} where
  -- A step of a method that succeeds, and what the success of a method says of its steps.
  pub >>-ok :
      (m : M I E (Unit {0})) (k : M I E A) {b b' : AfeMmioBackend I}
      → m b ≡ (b', ok tt)
      → (m >> k) b ≡ k b'
  >>-ok m k e =
      ap
        (λ (p : AfeMmioBackend I × Result (MmioAfeError E) (Unit {0})). elim (p.1) [
          | ok _ ↦ k p.0
          | err x ↦ (p.0, err x)
        ])
        e

  pub >>=-ok :
      {B : Type 0} (m : M I E B) (f : B → M I E A) {b b' : AfeMmioBackend I} {x : B}
      → m b ≡ (b', ok x)
      → (m >>= f) b ≡ f x b'
  >>=-ok {B} m f e =
      ap
        (λ (p : AfeMmioBackend I × Result (MmioAfeError E) B). elim (p.1) [
          | ok b ↦ f b p.0
          | err x ↦ (p.0, err x)
        ])
        e

  pub >>-err :
      (m : M I E (Unit {0})) (k : M I E A) {b b' : AfeMmioBackend I} {x : MmioAfeError E}
      → m b ≡ (b', err x)
      → (m >> k) b ≡ (b', err x)
  >>-err m k e =
      ap
        (λ (p : AfeMmioBackend I × Result (MmioAfeError E) (Unit {0})). elim (p.1) [
          | ok _ ↦ k p.0
          | err x ↦ (p.0, err x)
        ])
        e

  pub >>-split :
      (m : M I E (Unit {0})) (k : M I E A) (b b' : AfeMmioBackend I) (a : A)
      → (m >> k) b ≡ (b', ok a)
      → (c : AfeMmioBackend I) × (m b ≡ (c, ok tt)) × (k c ≡ (b', ok a))
  >>-split m k b b' a h = elim (Result-cases (m b).1) [
    | inl (x, q) ↦ (
      (m b).0,
      ap (λ (r : Result (MmioAfeError E) (Unit {0})). ((m b).0, r)) q,
      rw (q, ◌>>◌) at h,
    )
    | inr (x, q) ↦ absurd (
        grind (
          arith,
          ap (λ (p : AfeMmioBackend I × Result (MmioAfeError E) A). p.1) (rw (q, ◌>>◌) at h),
        ))
  ]

  pub >>=-split :
      {B : Type 0} (m : M I E B) (f : B → M I E A) (b b' : AfeMmioBackend I) (a : A)
      → (m >>= f) b ≡ (b', ok a)
      → (c : AfeMmioBackend I) × (x : B) × (m b ≡ (c, ok x)) × (f x c ≡ (b', ok a))
  >>=-split {B} m f b b' a h = elim (Result-cases (m b).1) [
    | inl (x, q) ↦
        ((m b).0, x, ap (λ (r : Result (MmioAfeError E) B). ((m b).0, r)) q, rw (q, ◌>>=◌) at h)
    | inr (x, q) ↦ absurd (
        grind (
          arith,
          ap (λ (p : AfeMmioBackend I × Result (MmioAfeError E) A). p.1) (rw (q, ◌>>=◌) at h),
        ))
  ]
