-- ===== src/Reference/Tests.antt =====
-- A trail with a stale entry, advanced by both oracles, and an action enumerated by both programs.
use inquint.Prelude.{ℕ, ◌≡◌, refl, true, [], ◌∷◌}
use inquint.Choice
use inquint.Choice.{ChoicePoint, ChoiceCtl}
use inquint.Reference
use inquint.Reference.Agrees.{reference_advance-eq-advance}
use inquint.Prelude.{List, ◌∈◌, ◌↔◌, ◌-◌, ◌*◌, ◌/◌, none, some, ok, false}
use inquint.Choice.Tree
use inquint.Choice.Tree.{Tree, leaf, node, for_each_run}
use inquint.Order.Sort.{sort, dedup, set_insert}
use inquint.State.Arena.{State}
use inquint.Successor
use inquint.Successor.{Run, push_successor, take_next_state, max_runs_per_state}
use inquint.Reference.Successor.{run, insert_successor, collect_runs, enumerate}
use inquint.Reference.Equivalence.{reference_enumerate-enumerate}

abbrev point : ℕ → ℕ → ChoicePoint
point chosen bound = record { bound = bound; chosen = chosen }

abbrev stale : ChoiceCtl
stale = record { trail = point 0 2 ∷ point 2 3 ∷ point 1 4 ∷ []; cursor = 2 }

advanced : Reference.advance stale ≡ (record { trail = point 1 2 ∷ []; cursor = 0 }, true)
unfolding Reference.advance Reference.pop_loop
advanced = refl

reference_advance-eq-advance_example : Reference.advance stale ≡ Choice.advance stale
reference_advance-eq-advance_example = reference_advance-eq-advance stale

-- Two of the three values are chosen twice.
abbrev action : Tree Run
action = node 4 (λ o. elim o [
  | none ↦ leaf (record { value = ok false; vars_next = none ∷ [] })
  | some i ↦ leaf (record { value = ok true; vars_next = some (8 - i / 2 * 3) ∷ [] })
])

abbrev found : List State
found = (5 ∷ []) ∷ (8 ∷ []) ∷ []

both_found : (enumerate action ≡ ok found) × (Successor.enumerate action ≡ ok found)
unfolding enumerate collect_runs run insert_successor Reference.choose Reference.advance
    Reference.pop_loop set_insert Successor.enumerate for_each_run Tree.run push_successor
    take_next_state max_runs_per_state Choice.choose Choice.advance Choice.new sort dedup
both_found = (refl, refl)

reference_enumerate-enumerate_example : ((8 ∷ []) ∈ found) ↔ ((8 ∷ []) ∈ found)
reference_enumerate-enumerate_example =
    reference_enumerate-enumerate action found found (8 ∷ []) both_found.0 both_found.1
