-- ===== src/Prelude/Pigeonhole.antt =====
-- Distinct members of a list are no more than its length.
use Prim.Native.Nat.{ℕ, zero, suc, ◌≤◌, ◌<◌}
use mathlib.Core.Path.{◌≡◌, refl, ap, ◌∙◌, sym}
use mathlib.Core.Logic.{◌≢◌, inl, inr}
use mathlib.Core.List.{List, [], ◌∷◌}
use native.Mathlib.Omega.{arith}
use package.inquint.Prelude.Lists.{length}
use package.inquint.Prelude.Members.{◌∈◌}

module _ {A : Type 0} where
  remove : (a : A) (xs : List A) → a ∈ xs → List A
  remove a [] m = []
  remove a (x ∷ xs) (inl e) = xs
  remove a (x ∷ xs) (inr m) = x ∷ remove a xs m

  length-remove : (a : A) (xs : List A) (m : a ∈ xs) → length xs ≡ suc (length (remove a xs m))
  unfolding remove
  length-remove a [] m = absurd m
  length-remove a (x ∷ xs) (inl e) = refl
  length-remove a (x ∷ xs) (inr m) = ap suc (length-remove a xs m)

  mem-remove : (a b : A) (xs : List A) (m : a ∈ xs) → b ∈ xs → b ≢ a → b ∈ remove a xs m
  unfolding remove
  mem-remove a b [] m k ne = absurd m
  mem-remove a b (x ∷ xs) (inl e) (inl e') ne = absurd (ne (e' ∙ sym e))
  mem-remove a b (x ∷ xs) (inl e) (inr k) ne = k
  mem-remove a b (x ∷ xs) (inr m) (inl e') ne = inl e'
  mem-remove a b (x ∷ xs) (inr m) (inr k) ne = inr (mem-remove a b xs m k ne)

  pub pigeonhole :
      (n : ℕ) (f : ℕ → A) (xs : List A)
      → ((i : ℕ) → i < n → f i ∈ xs)
      → ((i j : ℕ) → i < j → j < n → f i ≢ f j)
      → n ≤ length xs
  pigeonhole zero f xs within distinct = omega arith
  pigeonhole (suc n) f xs within distinct =
      let m : f n ∈ xs = within n (omega arith) in
      omega (
        arith,
        length-remove (f n) xs m,
        pigeonhole n f (remove (f n) xs m)
            (λ i h.
              mem-remove (f n) (f i) xs m (within i (omega arith)) (distinct i n h (omega arith)))
            (λ i j h k. distinct i j h (omega arith)),
      )
