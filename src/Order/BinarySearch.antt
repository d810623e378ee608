-- ===== src/Order/BinarySearch.antt =====
-- `binary_search_by` of a slice, as the standard library runs it.
pub mod Answers
use inquint.Prelude.{
  ℕ, zero, suc, ◌+◌, ◌-◌, ◌/◌, ◌<◌, ◌≤◌, ◌≡◌, ◌≢◌, refl, sym, ◌⊎◌, inl, inr, Bool, true, false,
  Option, none, some, subst, Bool-cases, Option-cases, List, [], ◌∷◌, length, get_elem?, Ordering,
  leb, if◌then◌else◌, arith,
}
use inquint.Prelude.{Result, ok, err}
use native.Mathlib.Decide.{dec_lt}

module _ {A : Type 0} (cmp : A → Ordering) where
  -- The new base after a look at `mid`.
  unfoldable pub next_base : List A → (base mid : ℕ) → ℕ
  next_base xs base mid = elim (get_elem? xs mid) [
    | none ↦ base
    | some x ↦ elim (cmp x) [ Ordering.gt ↦ base | _ ↦ mid ]
  ]

  -- The `while` loop: the base of the range of one element that is left. `cmp` compares an element
  -- with what is searched. A unit of fuel for each element is enough.
  unfoldable pub narrow : (fuel base size : ℕ) → List A → ℕ
  narrow zero base size xs = base
  narrow (suc fuel) base size xs =
      let half = size / 2 in
      let rest = narrow fuel (next_base xs base (base + half)) (size - half) xs in
      if leb size 1 then base else rest

  -- The position of the element that is searched, or else where it is to be inserted.
  unfoldable pub binary_search : List A → Result ℕ ℕ
  binary_search xs =
      let base = narrow (length xs) 0 (length xs) xs in
      elim (get_elem? xs base) [
        | none ↦ err 0
        | some x ↦ elim (cmp x) [
          | Ordering.eq ↦ ok base
          | Ordering.lt ↦ err (base + 1)
          | Ordering.gt ↦ err base
        ]
      ]
