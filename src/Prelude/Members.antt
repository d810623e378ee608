-- ===== src/Prelude/Members.antt =====
-- Membership as a predicate by recursion, which computes to a disjunction.
use mathlib.Core.Path.{◌≡◌}
use mathlib.Core.Logic.{◌⊎◌, inl, inr, ◌↔◌}
use native.Mathlib.Omega.{arith}
use mathlib.Core.List.{List, [], ◌∷◌, ◌++◌}

infix 40 ◌∈◌
abbrev pub ◌∈◌ : {A : Type 0} → A → List A → Type 0
a ∈ [] = ⊥
a ∈ x ∷ xs = (a ≡ x) ⊎ (a ∈ xs)

module _ {A : Type 0} where
  pub mem_append_left : (a : A) (xs ys : List A) → a ∈ xs → a ∈ xs ++ ys
  mem_append_left a [] ys m = absurd m
  mem_append_left a (x ∷ xs) ys (inl e) = inl e
  mem_append_left a (x ∷ xs) ys (inr m) = inr (mem_append_left a xs ys m)

  pub mem_append_right : (a : A) (xs ys : List A) → a ∈ ys → a ∈ xs ++ ys
  mem_append_right a [] ys m = m
  mem_append_right a (x ∷ xs) ys m = inr (mem_append_right a xs ys m)

  pub mem_append_cases : (a : A) (xs ys : List A) → a ∈ xs ++ ys → (a ∈ xs) ⊎ (a ∈ ys)
  mem_append_cases a [] ys m = inr m
  mem_append_cases a (x ∷ xs) ys (inl e) = inl (inl e)
  mem_append_cases a (x ∷ xs) ys (inr m) = elim (mem_append_cases a xs ys m) [
    | inl l ↦ inl (inr l)
    | inr r ↦ inr r
  ]

  pub mem-snoc : (a : A) (xs : List A) (x : A) → (a ∈ xs ++ x ∷ []) ↔ ((a ∈ xs) ⊎ (a ≡ x))
  mem-snoc a [] x = ground arith
  mem-snoc a (y ∷ xs) x = ground (arith, mem-snoc a xs x)
