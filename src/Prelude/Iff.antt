-- ===== src/Prelude/Iff.antt =====
-- Equivalences, chained and joined.
use mathlib.Core.Logic.{◌↔◌, ◌⊎◌, inl, inr}

pub trans_iff {ℓ} : {A B C : Type ℓ} → A ↔ B → B ↔ C → A ↔ C
trans_iff f g = (λ x. g.0 (f.0 x), λ z. f.1 (g.1 z))

pub sym_iff {ℓ} : {A B : Type ℓ} → A ↔ B → B ↔ A
sym_iff f = (f.1, f.0)

pub or_iff {ℓ} : {A B C D : Type ℓ} → A ↔ B → C ↔ D → (A ⊎ C) ↔ (B ⊎ D)
or_iff f g = (
  λ h. elim h [ inl x ↦ inl (f.0 x) | inr y ↦ inr (g.0 y) ],
  λ h. elim h [ inl x ↦ inl (f.1 x) | inr y ↦ inr (g.1 y) ],
)

pub or_nothing {ℓ} : {A B : Type ℓ} → (A → ⊥) → B ↔ (A ⊎ B)
or_nothing none_of = (λ y. inr y, λ h. elim h [ inl x ↦ absurd (none_of x) | inr y ↦ y ])

pub nothing_or {ℓ} : {A B : Type ℓ} → (B → ⊥) → (A ⊎ B) ↔ A
nothing_or none_of = (λ h. elim h [ inl x ↦ x | inr y ↦ absurd (none_of y) ], λ x. inl x)
