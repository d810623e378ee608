-- ===== src/Temporal/Classical.antt =====
-- Laws of classical logic on propositions, from excluded middle.
use Prim.Axiom.{lem}
use inquint.Prelude.{ℕ, ◌↔◌}
use mathlib.Core.Logic.{◌∨₁◌, ∨₁_prop, ∥∥₁_prop, ∥∥₁_elim}
use mathlib.Core.Logic.Or
use mathlib.Core.HLevel.{⊥_prop}

pub or_assoc : (A B C : Type 0) → ((A ∨₁ B) ∨₁ C) ↔ (A ∨₁ (B ∨₁ C))
or_assoc A B C = (
  λ h.
      Or.elim ∨₁_prop h (λ ab. Or.elim ∨₁_prop ab Or.inl (λ b. Or.inr (Or.inl b)))
        (λ c. Or.inr (Or.inr c)),
  λ h.
      Or.elim ∨₁_prop h (λ a. Or.inl (Or.inl a))
        (λ bc. Or.elim ∨₁_prop bc (λ b. Or.inl (Or.inr b)) Or.inr),
)

pub by_contradiction : (P : Type 0) → IsProp P → ¬ (¬ P) → P
by_contradiction P prop h = elim (lem P prop) [ yes p ↦ p | no n ↦ absurd (h n) ]

pub not-and : (A B : Type 0) → IsProp A → (¬ A ∨₁ ¬ B) ↔ (¬ (A × B))
not-and A B prop = (
  λ h ab. Or.elim ⊥_prop h (λ na. na ab.0) (λ nb. nb ab.1),
  λ h. elim (lem A prop) [ yes a ↦ Or.inr (λ b. h (a, b)) | no na ↦ Or.inl na ],
)

pub not-forall :
    (P : ℕ → Type 0) → ((j : ℕ) → IsProp (P j)) → ∥ ((j : ℕ) × ¬ P j) ∥₁ ↔ (¬ ((j : ℕ) → P j))
not-forall P prop = (
  λ h all. ∥∥₁_elim h ⊥_prop (λ t. t.1 (all t.0)),
  λ h.
      by_contradiction _ ∥∥₁_prop
        (λ none_. h (λ j. by_contradiction (P j) (prop j) (λ nj. none_ ∣ (j, nj) ∣₁))),
)

pub not-exists : (P : ℕ → Type 0) → ((j : ℕ) → ¬ P j) ↔ (¬ ∥ ((j : ℕ) × P j) ∥₁)
not-exists P = (λ h t. ∥∥₁_elim t ⊥_prop (λ p. h p.0 p.1), λ h j p. h ∣ (j, p) ∣₁)
