-- ===== src/Reference/Agrees.antt =====
-- The two oracles behave the same.
use inquint.Prelude.{ℕ, zero, suc, ◌+◌, ◌≡◌, refl, ◌∙◌, sym, ap, min, some, inl, inr}
use inquint.Prelude.{List, [], ◌∷◌, ◌++◌, length, length-append, take, ltb, Bool-cases, arith}
use inquint.Choice
use inquint.Choice.{ChoicePoint, ChoiceCtl, bump}
use inquint.Choice.Advance.{next, next-snoc, outcome, advance_lem}
use inquint.Reference
use inquint.Reference.{last, pop, set_last, pop_loop}

-- A list is empty, or ends in an element.
data Ends : List ChoicePoint → Type 0 where
  nothing : Ends []
  ends_in : (xs : List ChoicePoint) (p : ChoicePoint) → Ends (xs ++ p ∷ [])

ends : (xs : List ChoicePoint) → Ends xs
ends [] = nothing
ends (x ∷ xs) = longer (ends xs)
  where
    longer : {ys : List ChoicePoint} → Ends ys → Ends (x ∷ ys)
    longer nothing = ends_in [] x
    longer (ends_in ys p) = ends_in (x ∷ ys) p

last-snoc : (xs : List ChoicePoint) (p : ChoicePoint) → last (xs ++ p ∷ []) ≡ some p
unfolding last
last-snoc [] p = refl
last-snoc (x ∷ xs) p = rw (last-snoc xs p)

pop-snoc : (xs : List ChoicePoint) (p : ChoicePoint) → pop (xs ++ p ∷ []) ≡ xs
unfolding pop
pop-snoc [] p = refl
pop-snoc (x ∷ []) p = refl
pop-snoc (x ∷ y ∷ xs) p = ap (λ t. x ∷ t) (pop-snoc (y ∷ xs) p)

pop_loop-next :
    (n : ℕ) (xs : List ChoicePoint) (cursor : ℕ)
    → length xs ≡ n
    → pop_loop n xs cursor ≡ outcome (next xs) cursor
unfolding pop_loop last
pop_loop-next n xs cursor h = go n (ends xs) h
  where
    go :
        (n : ℕ) {xs : List ChoicePoint}
        → Ends xs
        → length xs ≡ n
        → pop_loop n xs cursor ≡ outcome (next xs) cursor
    go zero nothing h = refl
    go (suc n) nothing h = absurd (omega arith)
    go zero (ends_in xs p) h = absurd (omega (arith, length-append xs (p ∷ [])))
    go (suc n) (ends_in xs p) h =
        let size : length xs ≡ n = omega (arith, length-append xs (p ∷ [])) in
        rw (pop_loop, last-snoc xs p, pop-snoc xs p, next-snoc xs p)
          (elim (Bool-cases (ltb (p.chosen + 1) p.bound)) [
            | inl e ↦ rw e
            | inr e ↦ rw e (go n (ends xs) size)
          ])

take-min : (n : ℕ) (xs : List ChoicePoint) → take (min (length xs) n) xs ≡ take n xs
take-min zero [] = refl
take-min zero (x ∷ xs) = let e : min (length (x ∷ xs)) 0 ≡ 0 = omega arith in rw e
take-min (suc n) [] = let e : min 0 (suc n) ≡ 0 = omega arith in rw e
take-min (suc n) (x ∷ xs) =
    let e : min (length (x ∷ xs)) (suc n) ≡ suc (min (length xs) n) = omega arith in
    rw e (ap (λ t. x ∷ t) (take-min n xs))

-- The reference's `advance`, which cuts the trail and pops its entries, and the one in use, which
-- counts down an index and cuts once at the end, return the same trail, cursor and Boolean.
pub reference_advance-eq-advance : (c : ChoiceCtl) → Reference.advance c ≡ Choice.advance c
unfolding Reference.advance
reference_advance-eq-advance c =
    pop_loop-next _ (take c.cursor c.trail) c.cursor refl
    ∙ (rw (take-min c.cursor c.trail) at (sym (advance_lem c)))
