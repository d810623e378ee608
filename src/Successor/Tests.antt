-- ===== src/Successor/Tests.antt =====
-- An action of one variable that chooses among two values, one of them disabled on the first path.
use inquint.Prelude.{
  ℕ, ◌-◌, ◌*◌, zero, suc, ◌≤◌, ◌≡◌, refl, ◌↔◌, inl, inr, true, false, Option, none, some,
}
use inquint.Prelude.{List, [], ◌∷◌, ◌∈◌, length, ok, arith}
use inquint.Choice
use inquint.Choice.{advance}
use inquint.Choice.Tree.{Tree, leaf, node, run, leaves, for_each_run}
use inquint.Order.Sort.{sort, dedup, set_insert}
use inquint.Order.SortLaws.{Distinct}
use inquint.State.Arena.{State}
use inquint.Successor.{Run, SubActionRuns, enumerate, push_successor, take_next_state}
use inquint.Successor.{
  max_runs_per_state, enumerate_partial, insert_partial, take_partial, matches, framed, frame,
}
use inquint.Successor.Complete.{Yields, AllReturn, enumerate_complete, enumerate_returns}
use inquint.Successor.Partial.{SomeAgrees, matches_complete, framed-matches}

abbrev assigns : Option ℕ → Run
assigns o = record { value = ok true; vars_next = o ∷ some 5 ∷ [] }

-- The paths assign 8, 3 and 8 again to the first variable; one more is disabled.
abbrev action : Tree Run
action = node 2 (λ o. elim o [
  | none ↦ leaf (assigns none)
  | some i ↦ node 2 (λ u. elim u [
    | none ↦ leaf (assigns none)
    | some j ↦ elim i [
      | zero ↦ leaf (assigns (some (8 - 5 * j)))
      | suc k ↦ elim j [
        | zero ↦ leaf (assigns (some 8))
        | suc l ↦ leaf (record { value = ok false; vars_next = none ∷ none ∷ [] })
      ]
    ]
  ])
])

-- One path assigns the first variable and leaves the other, one assigns only the other.
abbrev sub_action : Tree Run
sub_action = node 2 (λ o. elim o [
  | none ↦ leaf (record { value = ok false; vars_next = none ∷ none ∷ [] })
  | some zero ↦ leaf (record { value = ok true; vars_next = some 4 ∷ none ∷ [] })
  | some (suc i) ↦ leaf (record { value = ok true; vars_next = none ∷ some 6 ∷ [] })
])

abbrev two_states : List State
two_states = (3 ∷ 5 ∷ []) ∷ (8 ∷ 5 ∷ []) ∷ []

abbrev sub_runs : SubActionRuns
sub_runs = record { partials = (none ∷ some 6 ∷ []) ∷ (some 4 ∷ none ∷ []) ∷ [] }

enumerated : enumerate action ≡ ok two_states
unfolding enumerate for_each_run max_runs_per_state push_successor run take_next_state advance
    Choice.new dedup sort
enumerated = refl

sub_enumerated : enumerate_partial sub_action ≡ ok sub_runs
unfolding enumerate_partial for_each_run max_runs_per_state insert_partial run take_partial advance
    Choice.new set_insert
sub_enumerated = refl

few_paths : length (leaves action) ≤ max_runs_per_state
unfolding leaves max_runs_per_state
few_paths = omega arith

filled : framed sub_runs (1 ∷ 2 ∷ []) ≡ (1 ∷ 6 ∷ []) ∷ (4 ∷ 2 ∷ []) ∷ []
unfolding framed frame
filled = refl

enumerate_complete_example :
    ((s : State) → (s ∈ two_states) ↔ Yields (leaves action) s) × Distinct two_states
enumerate_complete_example = enumerate_complete action two_states enumerated

all_return : AllReturn (leaves action)
unfolding leaves take_next_state
all_return =
    (inr (_, (refl, refl)), (inr (_, (refl, refl)), (inr (_, (refl, refl)), (inl refl, tt))))

enumerate_returns_example : (out : List State) × (enumerate action ≡ ok out)
enumerate_returns_example = enumerate_returns action all_return few_paths

matches_complete_example :
    (matches sub_runs (4 ∷ 9 ∷ []) ≡ true) ↔ SomeAgrees (leaves sub_action) (4 ∷ 9 ∷ [])
matches_complete_example = matches_complete sub_action sub_runs (4 ∷ 9 ∷ []) sub_enumerated

framed-matches_example : matches sub_runs (4 ∷ 2 ∷ []) ≡ true
unfolding framed frame
framed-matches_example = framed-matches sub_runs (1 ∷ 2 ∷ []) (4 ∷ 2 ∷ []) (inr (inl refl))
