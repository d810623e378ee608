-- ===== src/Temporal/Expansion.antt =====
-- The expansion laws of until and release on an infinite word.
use inquint.Prelude.{ℕ, zero, suc, ◌+◌, ◌<◌, ◌≡◌, subst, arith}
use mathlib.Core.Logic.{◌∨₁◌, ∨₁_prop, ∥∥₁_prop, ∥∥₁_elim, ∥∥₁_map}
use mathlib.Core.Logic.Or
use mathlib.Core.HLevel.{×_prop, ⊥_prop}
use inquint.Temporal.Ltl.{Nnf}
use inquint.Temporal.Semantics.{Word, Models}
use inquint.Temporal.NnfMeaning.{Models-prop}

module _ (w : Word) (a c : Nnf) where
  at_same : (f : Nnf) (i j : ℕ) → i ≡ j → Models w f i → Models w f j
  at_same f i j e = subst (Models w f) e

  pub until_here : (i : ℕ) → Models w c i → Models w (Nnf.until a c) i
  until_here i m = ∣ (0, at_same c i (i + 0) (omega arith) m, λ k h. absurd (omega arith)) ∣₁

  pub until_step :
      (i : ℕ) → Models w a i → Models w (Nnf.until a c) (suc i) → Models w (Nnf.until a c) i
  until_step i m u = ∥∥₁_map u (λ (j, n, h).
      (suc j, at_same c (suc i + j) (i + suc j) (omega arith) n, λ k lt. before j h k lt))
    where
      before :
          (j : ℕ)
          → ((k : ℕ) → k < j → Models w a (suc i + k))
          → (k : ℕ) → k < suc j
          → Models w a (i + k)
      before j h zero lt = at_same a i (i + 0) (omega arith) m
      before j h (suc k) lt = at_same a (suc i + k) (i + suc k) (omega arith) (h k (omega arith))

  pub until_later :
      (i : ℕ)
      → Models w (Nnf.until a c) i
      → ¬ Models w c i
      → Models w a i × Models w (Nnf.until a c) (suc i)
  until_later i u n = ∥∥₁_elim u (×_prop (Models-prop w a i) ∥∥₁_prop) (λ (j, m, h). split j m h)
    where
      split :
          (j : ℕ)
          → Models w c (i + j)
          → ((k : ℕ) → k < j → Models w a (i + k))
          → Models w a i × Models w (Nnf.until a c) (suc i)
      split zero m h = absurd (n (at_same c (i + 0) i (omega arith) m))
      split (suc j) m h = (
        at_same a (i + 0) i (omega arith) (h 0 (omega arith)),
        ∣ (
          j,
          at_same c (i + suc j) (suc i + j) (omega arith) m,
          λ k lt. at_same a (i + suc k) (suc i + k) (omega arith) (h (suc k) (omega arith)),
        ) ∣₁,
      )

  -- The release at `i`, seen for `j` steps.
  abbrev pub Released : ℕ → ℕ → Type 0
  Released i j = Models w c (i + j) ∨₁ ∥ ((k : ℕ) × (k < j) × Models w a (i + k)) ∥₁

  pub Released-here : (i : ℕ) → Models w c i → Released i 0
  Released-here i m = Or.inl (at_same c i (i + 0) (omega arith) m)

  pub Released-done : (i j : ℕ) → Models w a i → Released i (suc j)
  Released-done i j m = Or.inr ∣ (0, omega arith, at_same a i (i + 0) (omega arith) m) ∣₁

  pub Released-step : (i j : ℕ) → Released (suc i) j → Released i (suc j)
  Released-step i j r =
      Or.elim ∨₁_prop r (λ m. Or.inl (at_same c (suc i + j) (i + suc j) (omega arith) m))
        (λ t. Or.inr (
          ∥∥₁_map t (λ (k, lt, m).
            (suc k, omega arith, at_same a (suc i + k) (i + suc k) (omega arith) m))))

  pub release_now : (i : ℕ) → Models w (Nnf.release a c) i → Models w c i
  release_now i r =
      Or.elim (Models-prop w c i) (r 0) (at_same c (i + 0) i (omega arith))
        (λ t. absurd (∥∥₁_elim t ⊥_prop (λ (k, lt, m). omega arith)))

  pub release_later :
      (i : ℕ) → Models w (Nnf.release a c) i → ¬ Models w a i → Models w (Nnf.release a c) (suc i)
  release_later i r n j =
      Or.elim ∨₁_prop (r (suc j)) (λ m. Or.inl (at_same c (i + suc j) (suc i + j) (omega arith) m))
        (λ t. Or.inr (∥∥₁_map t (λ (k, lt, m). earlier k lt m)))
    where
      earlier :
          (k : ℕ) → k < suc j → Models w a (i + k) → (k' : ℕ) × (k' < j) × Models w a (suc i + k')
      earlier zero lt m = absurd (n (at_same a (i + 0) i (omega arith) m))
      earlier (suc k) lt m = (k, omega arith, at_same a (i + suc k) (suc i + k) (omega arith) m)
