-- ===== src/Choice/Advance.antt =====
-- `advance` as the increment of a mixed-radix numeral whose last digit stands at the end.
use inquint.Prelude.{
  ℕ, zero, suc, ◌+◌, ◌≤◌, ◌<◌, min, ◌≡◌, refl, ◌∙◌, ap, Bool, true, false, inl, inr,
}
use inquint.Prelude.{Option, none, some, List, [], ◌∷◌, ◌++◌, length, get_or, set, take, ltb}
use inquint.Prelude.{if◌then◌else◌, Bool-cases, length-append, take-length, arith}
use inquint.Choice.{ChoicePoint, ChoiceCtl, Advanced, no_point, bump, advance_loop}
use inquint.Choice.{advance, advance_trail}

-- The next numeral, or `none` behind the last.
abbrev pub next : List ChoicePoint → Option (List ChoicePoint)
next [] = none
next (p ∷ ps) = elim (next ps) [
  | some ps' ↦ some (p ∷ ps')
  | none ↦ if ltb (p.chosen + 1) p.bound then some (bump p ∷ []) else none
]

pub next-snoc :
    (xs : List ChoicePoint) (p : ChoicePoint)
    → next (xs ++ p ∷ [])
      ≡ (if ltb (p.chosen + 1) p.bound then some (xs ++ bump p ∷ []) else next xs)
next-snoc [] p = refl
next-snoc (x ∷ xs) p = ground (arith, next-snoc xs p)

-- What is seen of the outcome: the trail cut to `len`, and the Boolean.
abbrev pub outcome : Option (List ChoicePoint) → ℕ → ChoiceCtl × Bool
outcome none cursor = (record { trail = []; cursor = cursor }, false)
outcome (some ys) cursor = (record { trail = ys; cursor = 0 }, true)

abbrev cut : Advanced → ChoiceCtl × Bool
cut r = (record { trail = take r.len r.trail; cursor = r.cursor }, r.advanced)

take-snoc :
    (n : ℕ) (tr : List ChoicePoint)
    → n < length tr
    → take (suc n) tr ≡ take n tr ++ get_or tr n no_point ∷ []
take-snoc zero [] h = absurd (omega arith)
take-snoc zero (x ∷ tr) h = refl
take-snoc (suc n) [] h = absurd (omega arith)
take-snoc (suc n) (x ∷ tr) h = ap (λ t. x ∷ t) (take-snoc n tr (omega arith))

take-set :
    (n : ℕ) (tr : List ChoicePoint) (v : ChoicePoint)
    → n < length tr
    → take (suc n) (set tr n v) ≡ take n tr ++ v ∷ []
take-set zero [] v h = absurd (omega arith)
take-set zero (x ∷ tr) v h = refl
take-set (suc n) [] v h = absurd (omega arith)
take-set (suc n) (x ∷ tr) v h = ap (λ t. x ∷ t) (take-set n tr v (omega arith))

advance_loop-next :
    (tr : List ChoicePoint) (n cursor : ℕ)
    → n ≤ length tr
    → cut (advance_loop tr n cursor) ≡ outcome (next (take n tr)) cursor
unfolding advance_loop
advance_loop-next tr zero cursor h = refl
advance_loop-next tr (suc n) cursor h =
    let last = get_or tr n no_point in
    rw (take-snoc n tr h, next-snoc (take n tr) last)
      (elim (Bool-cases (ltb (last.chosen + 1) last.bound)) [
        | inl e ↦ rw (e, take-set n tr (bump last) h)
        | inr e ↦ rw e (advance_loop-next tr n cursor (omega arith))
      ])

-- One call of `advance`: the digits that the last run visited are incremented.
pub advance_lem :
    (c : ChoiceCtl)
    → advance c ≡ outcome (next (take (min (length c.trail) c.cursor) c.trail)) c.cursor
unfolding advance advance_trail
advance_lem c = advance_loop-next c.trail (min (length c.trail) c.cursor) c.cursor (omega arith)

take-append : (xs ys : List ChoicePoint) → take (length xs) (xs ++ ys) ≡ xs
take-append [] ys = refl
take-append (x ∷ xs) ys = ap (λ t. x ∷ t) (take-append xs ys)

-- Entries behind the ones that the last run visited have no influence on `advance`.
pub advance-append :
    (xs ys : List ChoicePoint)
    → advance (record { trail = xs ++ ys; cursor = length xs }) ≡ outcome (next xs) (length xs)
advance-append xs ys =
    let e : min (length (xs ++ ys)) (length xs) ≡ length xs = omega (arith, length-append xs ys) in
    advance_lem _ ∙ rw (e, take-append xs ys)

-- After a run that visited the whole trail.
pub advance_visited :
    (xs : List ChoicePoint)
    → advance (record { trail = xs; cursor = length xs }) ≡ outcome (next xs) (length xs)
advance_visited xs =
    let e : min (length xs) (length xs) ≡ length xs = omega arith in
    advance_lem _ ∙ rw (e, take-length xs)
