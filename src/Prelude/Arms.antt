-- ===== src/Prelude/Arms.antt =====
-- A `match` of a number on literal arms, as the list of its arms in order.
use Prim.Native.Nat.{ℕ}
use mathlib.Core.Path.{◌≡◌}
use mathlib.Core.List.{List, [], ◌∷◌}
use mathlib.Core.Option.{Option, none, some}
use native.Mathlib.Omega.{arith}
use daphne_sc.Prelude.Tests.{◌==◌, if◌then◌else◌}
use daphne_sc.Prelude.Lists.{All}

module _ {ℓ} {A : Type ℓ} where
  -- The first arm whose literal is `n`.
  abbrev pub first_arm : ℕ → List (ℕ × A) → Option A
  first_arm n [] = none
  first_arm n ((k, a) ∷ arms) = if n == k then some a else first_arm n arms

  -- What holds of every arm holds of the arm that is taken.
  pub first_arm-All :
      (code : A → ℕ) (n : ℕ) (arms : List (ℕ × A)) (a : A)
      → All (λ p. code p.1 ≡ p.0) arms
      → first_arm n arms ≡ some a
      → code a ≡ n
  first_arm-All code n [] a all h = cc
  first_arm-All code n ((k, b) ∷ arms) a (p, all) h =
      ground (arith, first_arm-All code n arms a all)
