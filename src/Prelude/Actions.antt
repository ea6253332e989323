-- ===== src/Prelude/Actions.antt =====
-- Methods on a mutable state that may fail: what was changed before the failure stays changed.
use mathlib.Core.Path.{◌≡◌, refl, ap}
use daphne_sc.Prelude.Results.{Result, ok, err, map_err}

abbrev pub Action : Type 0 → Type 0 → Type 0 → Type 0
Action S E A = S → S × Result E A

module _ {S E : Type 0} where
  -- What follows a call, from the state and the result that it leaves.
  abbrev pub continue : {A B : Type 0} → (A → Action S E B) → S × Result E A → S × Result E B
  continue f (s, ok a) = f a s
  continue f (s, err e) = (s, err e)

  infixl 5 ◌>>=◌ ◌>>◌
  abbrev pub ◌>>=◌ : {A B : Type 0} → Action S E A → (A → Action S E B) → Action S E B
  ◌>>=◌ m f s = continue f (m s)

  abbrev pub ◌>>◌ : {B : Type 0} → Action S E (Unit {0}) → Action S E B → Action S E B
  ◌>>◌ m k = m >>= λ _. k

  abbrev pub pure : {A : Type 0} → A → Action S E A
  pure a s = (s, ok a)

  abbrev pub fail : {A : Type 0} → E → Action S E A
  fail e s = (s, err e)

  -- A call whose error `map_err` wraps.
  abbrev pub wrap_err : {A F : Type 0} → (F → E) → Action S F A → Action S E A
  wrap_err f m s = let (s', r) = m s in (s', map_err f r)

  -- The step of a chain whose first part succeeds.
  pub >>=-ok :
      {A B : Type 0} (m : Action S E A) (f : A → Action S E B) {s s' : S} {a : A}
      → m s ≡ (s', ok a)
      → (m >>= f) s ≡ f a s'
  >>=-ok m f h = ap (continue f) h

  -- A chain that succeeds, taken apart.
  pub >>=-eq-ok :
      {A B : Type 0} (m : Action S E A) (f : A → Action S E B) (s : S) {s' : S} {b : B}
      → (m >>= f) s ≡ (s', ok b)
      → (t : S) × (a : A) × (m s ≡ (t, ok a)) × (f a t ≡ (s', ok b))
  >>=-eq-ok {A} {B} m f s {s'} {b} h = split (m s) refl h
    where
      split :
          (p : S × Result E A)
          → m s ≡ p
          → continue f p ≡ (s', ok b)
          → (t : S) × (a : A) × (m s ≡ (t, ok a)) × (f a t ≡ (s', ok b))
      split (t, ok a) e h = (t, a, e, h)
      split (t, err x) e h = cc
