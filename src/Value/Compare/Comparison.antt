-- ===== src/Value/Compare/Comparison.antt =====
-- The three cases of the structural order.
use inquint.Prelude.{◌≡◌, refl, sym, subst, ◌∙◌, ◌⊎◌, inl, inr, true, Ordering, arith}
use inquint.Order.Canonical.{Lt}
use inquint.Value.{ValueData}
use inquint.Value.Compare.{value_cmp}
use inquint.Value.Compare.Instance.{value_ordered, value_le, value_le_total}
use inquint.Value.Compare.Laws.{value_cmp-eq, value_cmp_refl}

-- The order of two values, with the equation that a match on it gives.
pub data Comparison (x y : ValueData) : Type 0 where
  before : value_cmp x y ≡ Ordering.lt → Lt x y → Comparison x y
  after : value_cmp x y ≡ Ordering.gt → Lt y x → Comparison x y
  equal : value_cmp x y ≡ Ordering.eq → x ≡ y → Comparison x y

Ordering-cases : (o : Ordering) → (o ≡ Ordering.lt) ⊎ ((o ≡ Ordering.gt) ⊎ (o ≡ Ordering.eq))
Ordering-cases Ordering.lt = inl refl
Ordering-cases Ordering.gt = inr (inl refl)
Ordering-cases Ordering.eq = inr (inr refl)

not_eq : (x y : ValueData) (o : Ordering) → value_cmp x y ≡ o → ¬ (o ≡ Ordering.eq) → ¬ (x ≡ y)
not_eq x y o h n e = n (sym h ∙ subst (λ z. value_cmp x z ≡ Ordering.eq) e (value_cmp_refl x))

pub comparison : (x y : ValueData) → Comparison x y
comparison x y = elim (Ordering-cases (value_cmp x y)) [
  | inl h ↦ before h (rw h refl, not_eq x y Ordering.lt h (λ e. ground arith))
  | inr (inl h) ↦
      let le : value_le y x ≡ true = ground (arith, value_le_total x y) in
      after h (le, λ e. not_eq x y Ordering.gt h (λ f. ground arith) (sym e))
  | inr (inr h) ↦ equal h (value_cmp-eq x y h)
]
