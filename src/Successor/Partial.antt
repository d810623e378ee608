-- ===== src/Successor/Partial.antt =====
-- The transition predicate of a sub-action: `enumerate_partial`, `matches` and `framed`.
use inquint.Prelude.{ℕ, zero, suc, ◌≡◌, refl, ap, ◌↔◌, ◌⊎◌, inl, inr, true, ◌||◌}
use inquint.Prelude.{
  Option, none, some, List, [], ◌∷◌, map, ◌∈◌, get_elem?, ok, ◌>>=◌, Result-cases,
}
use inquint.Prelude.{if◌then◌else◌, Bool-cases, arith}
use inquint.Choice.Tree.{Tree, leaves, for_each_leaf}
use inquint.Choice.Complete.{for_each_run-eq-for_each_leaf}
use inquint.Order.Sort.{same, set_insert}
use inquint.Order.SortLaws.{same→≡, ≡→same}
use inquint.Order.Instances.{nat_ordered, option_ordered, list_ordered}
use inquint.State.Arena.{Value, State}
use inquint.Successor.{Run, take_partial, insert_partial, max_runs_per_state}
use inquint.Errors.{qnt501}
use inquint.Successor.{enumerate_partial, SubActionRuns, agrees, any_agrees, matches, frame, framed}

agrees-same : (p q : List (Option Value)) (to : State) → same p q ≡ true → agrees p to ≡ agrees q to
agrees-same p q to h = ap (λ r. agrees r to) (same→≡ p q h)

any_agrees-set_insert :
    (p : List (Option Value)) (ps : List (List (Option Value))) (to : State)
    → any_agrees (set_insert p ps) to ≡ (agrees p to || any_agrees ps to)
unfolding any_agrees set_insert
any_agrees-set_insert p [] to = refl
any_agrees-set_insert p (q ∷ ps) to = elim (Bool-cases (same p q)) [
  | inl e ↦ rw e (rw (agrees-same p q to e) (ground arith))
  | inr e ↦ rw e (ground (arith, any_agrees-set_insert p ps to))
]

-- Each value that the slots assign is the one that the state has at the same place, where the
-- state has one.
abbrev pub Agrees : List (Option Value) → State → Type 0
Agrees p to =
    (i : ℕ) (w v : Value) → get_elem? p i ≡ some (some w) → get_elem? to i ≡ some v → w ≡ v

agrees-at :
    (p : List (Option Value)) (to : State) (i : ℕ) (w v : Value)
    → agrees p to ≡ true
    → get_elem? p i ≡ some (some w)
    → get_elem? to i ≡ some v
    → w ≡ v
unfolding agrees
agrees-at [] to i w v h e f = absurd (ground arith)
agrees-at (x ∷ p) [] i w v h e f = absurd (ground arith)
agrees-at (none ∷ p) (y ∷ to) zero w v h e f = absurd (ground arith)
agrees-at (some x ∷ p) (y ∷ to) zero w v h e f = ground (arith, same→≡ x y)
agrees-at (none ∷ p) (y ∷ to) (suc i) w v h e f = agrees-at p to i w v h e f
agrees-at (some x ∷ p) (y ∷ to) (suc i) w v h e f = agrees-at p to i w v (ground arith) e f

agrees-all : (p : List (Option Value)) (to : State) → Agrees p to → agrees p to ≡ true
unfolding agrees
agrees-all [] to h = refl
agrees-all (none ∷ p) [] h = refl
agrees-all (some x ∷ p) [] h = refl
agrees-all (none ∷ p) (y ∷ to) h = agrees-all p to (λ i. h (suc i))
agrees-all (some x ∷ p) (y ∷ to) h =
    ground (arith, ≡→same x y (h zero x y refl refl), agrees-all p to (λ i. h (suc i)))

agrees-Agrees : (p : List (Option Value)) (to : State) → (agrees p to ≡ true) ↔ Agrees p to
agrees-Agrees p to = (λ h i w v e f. agrees-at p to i w v h e f, agrees-all p to)

-- Some successful run of the list assigns only values that `to` has.
abbrev pub SomeAgrees : List Run → State → Type 0
SomeAgrees [] to = ⊥
SomeAgrees (r ∷ rs) to = (r.value ≡ ok true) × Agrees (take_partial r) to ⊎ SomeAgrees rs to

for_each_leaf-agrees :
    (left : ℕ) (rs : List Run) (ps ps' : List (List (Option Value))) (to : State)
    → for_each_leaf qnt501 insert_partial left rs ps ≡ ok ps'
    → (any_agrees ps' to ≡ true) ↔ ((any_agrees ps to ≡ true) ⊎ SomeAgrees rs to)
unfolding for_each_leaf insert_partial
for_each_leaf-agrees left [] ps ps' to h = ground arith
for_each_leaf-agrees zero (r ∷ rs) ps ps' to h = absurd (ground arith)
for_each_leaf-agrees (suc left) (r ∷ rs) ps ps' to h = elim (Result-cases r.value) [
  | inl (b, e) ↦ ground (
    arith,
    any_agrees-set_insert (take_partial r) ps to,
    agrees-Agrees (take_partial r) to,
    for_each_leaf-agrees left rs (if b then set_insert (take_partial r) ps else ps) ps' to,
  )
  | inr (x, e) ↦ absurd (ground arith)
]

enumerate_partial-leaves :
    (t : Tree Run)
    → enumerate_partial t ≡ (
        for_each_leaf qnt501 insert_partial max_runs_per_state (leaves t) [] >>= λ ps.
        ok (record { partials = ps }))
unfolding enumerate_partial
enumerate_partial-leaves t =
    rw (for_each_run-eq-for_each_leaf qnt501 insert_partial max_runs_per_state t [])

-- When the runs of a sub-action are enumerated, an edge satisfies the sub-action just if some
-- successful run of it assigns only values that the target has.
pub matches_complete :
    (t : Tree Run) (runs : SubActionRuns) (to : State)
    → enumerate_partial t ≡ ok runs
    → (matches runs to ≡ true) ↔ SomeAgrees (leaves t) to
unfolding matches any_agrees
matches_complete t runs to h =
    elim (Result-cases (for_each_leaf qnt501 insert_partial max_runs_per_state (leaves t) [])) [
      | inl (ps, e) ↦
          let h' = rw (enumerate_partial-leaves t, e) at h in
          ground (arith, for_each_leaf-agrees max_runs_per_state (leaves t) [] ps to e)
      | inr (x, e) ↦ let h' = rw (enumerate_partial-leaves t, e) at h in absurd (cc h')
    ]

agrees-frame : (p : List (Option Value)) (from : State) → agrees p (frame p from) ≡ true
unfolding agrees frame
agrees-frame [] from = refl
agrees-frame (none ∷ p) [] = refl
agrees-frame (some w ∷ p) [] = refl
agrees-frame (none ∷ p) (v ∷ from) = agrees-frame p from
agrees-frame (some w ∷ p) (v ∷ from) = ground (arith, ≡→same w w refl, agrees-frame p from)

any_agrees-framed :
    (ps : List (List (Option Value))) (from s : State)
    → s ∈ map (λ p. frame p from) ps
    → any_agrees ps s ≡ true
unfolding any_agrees
any_agrees-framed [] from s m = absurd m
any_agrees-framed (p ∷ ps) from s m =
    ground (arith, agrees-frame p from, any_agrees-framed ps from s)

-- Every frame-filled successor satisfies the sub-action that it was filled from.
pub framed-matches :
    (runs : SubActionRuns) (from s : State) → s ∈ framed runs from → matches runs s ≡ true
unfolding framed matches
framed-matches runs from s m = any_agrees-framed runs.partials from s m
