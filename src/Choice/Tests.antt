-- ===== src/Choice/Tests.antt =====
-- The trees of the tests of inquint/src/choice.rs.
use inquint.Prelude.{
  ℕ, zero, suc, ◌≡◌, refl, false, none, some, List, [], ◌∷◌, ◌++◌, Result, ok, err,
}
use inquint.Choice.{ChoicePoint, new, choose, advance}
use inquint.Choice.Tree.{Tree, leaf, node, run, leaves, for_each_run, for_each_leaf}
use inquint.Choice.Complete.{for_each_run-eq-for_each_leaf}

-- The second choice only exists on branch 1.
abbrev dependent : Tree (List ℕ)
dependent = node 2 (λ a. elim a [
  | none ↦ leaf []
  | some zero ↦ leaf (0 ∷ [])
  | some (suc i) ↦ node 2 (λ b. elim b [ none ↦ leaf [] | some j ↦ leaf (1 ∷ j ∷ []) ])
])

abbrev collect : List ℕ → List (List ℕ) → Result ℕ (List (List ℕ))
collect a s = ok (s ++ a ∷ [])

enumerates_dependent_tree :
    for_each_run 501 collect 9 dependent new [] ≡ ok ((0 ∷ []) ∷ (1 ∷ 0 ∷ []) ∷ (1 ∷ 1 ∷ []) ∷ [])
unfolding for_each_run run advance new
enumerates_dependent_tree = refl

-- Three paths need three runs.
stops_at_limit : for_each_run 501 collect 2 dependent new [] ≡ err 501
unfolding for_each_run run advance new
stops_at_limit = refl

empty_bound_is_none : (choose new 0 ≡ (none, new)) × ((advance new).1 ≡ false)
unfolding choose advance new
empty_bound_is_none = (refl, refl)

for_each_run-eq-for_each_leaf_example :
    for_each_run 501 collect 9 dependent new [] ≡ for_each_leaf 501 collect 9 (leaves dependent) []
for_each_run-eq-for_each_leaf_example = for_each_run-eq-for_each_leaf 501 collect 9 dependent []

abbrev point : ℕ → ℕ → ChoicePoint
point chosen bound = record { bound = bound; chosen = chosen }
