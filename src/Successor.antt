-- ===== src/Successor.antt =====
-- inquint/src/successor.rs: all next states of an action, by one run for each path of choices.
mod Tests
pub mod Complete
pub mod Partial
use inquint.Prelude.{ℕ, suc, ◌^◌, Bool, true, false, ◌&&◌, not, Option, none, some, List, [], ◌∷◌}
use inquint.Prelude.{if◌then◌else◌, ◌||◌, ◌++◌, map, Result, ok, err, ◌>>=◌}
use inquint.Choice
use inquint.Choice.Tree.{Tree, for_each_run}
use inquint.Order.Sort.{Ordered, same, sort, dedup, set_insert}
use inquint.Order.Instances.{nat_ordered, option_ordered, list_ordered}
use inquint.State.Arena.{Value, State}
use inquint.Errors.{QuintError, qnt501, qnt502}

-- What one evaluation of an action leaves: its value, and the bank of next-state variables.
pub record Run : Type 0 where
  pub value : Result QuintError Bool
  pub vars_next : List (Option Value)

-- `Vm::take_partial` and `Vm::take_next_state` of inquint/src/vm/mod.rs.
unfoldable pub take_partial : Run → List (Option Value)
take_partial r = r.vars_next

unfoldable pub all_assigned : List (Option Value) → Result QuintError State
all_assigned [] = ok []
all_assigned (none ∷ slots) = err qnt502
all_assigned (some v ∷ slots) = all_assigned slots >>= λ vs. ok (v ∷ vs)

unfoldable pub take_next_state : Run → Result QuintError State
unfolding all_assigned
take_next_state r = all_assigned r.vars_next

-- `MAX_RUNS_PER_STATE`
unfoldable pub max_runs_per_state : ℕ
max_runs_per_state = 2 ^ 24

-- What one round of the loop in `enumerate` does with its run.
unfoldable pub push_successor : Run → List State → Result QuintError (List State)
push_successor r out = do
  enabled ← r.value
  if enabled then take_next_state r >>= (λ s. ok (out ++ s ∷ [])) else ok out

unfoldable pub enumerate : Tree Run → Result QuintError (List State)
enumerate t = do
  out ← for_each_run qnt501 push_successor max_runs_per_state t Choice.new []
  ok (dedup (sort out))

-- The transition predicate of a sub-action: an ascending set of partial assignments.
pub record SubActionRuns : Type 0 where
  pub partials : List (List (Option Value))

unfoldable pub insert_partial :
    Run → List (List (Option Value)) → Result QuintError (List (List (Option Value)))
insert_partial r partials = do
  enabled ← r.value
  ok (if enabled then set_insert (take_partial r) partials else partials)

unfoldable pub enumerate_partial : Tree Run → Result QuintError SubActionRuns
enumerate_partial t = do
  partials ← for_each_run qnt501 insert_partial max_runs_per_state t Choice.new []
  ok (record { partials = partials })

-- `zip` stops at the shorter vector, so `all` sees no further.
unfoldable pub agrees : List (Option Value) → State → Bool
agrees (none ∷ p) (v ∷ to) = agrees p to
agrees (some w ∷ p) (v ∷ to) = same w v && agrees p to
agrees p to = true

unfoldable pub any_agrees : List (List (Option Value)) → State → Bool
any_agrees [] to = false
any_agrees (p ∷ ps) to = agrees p to || any_agrees ps to

unfoldable pub matches : SubActionRuns → State → Bool
matches runs to = any_agrees runs.partials to

unfoldable pub frame : List (Option Value) → State → State
frame (none ∷ p) (v ∷ from) = v ∷ frame p from
frame (some w ∷ p) (v ∷ from) = w ∷ frame p from
frame p from = []

unfoldable pub framed : SubActionRuns → State → List State
framed runs from = map (λ p. frame p from) runs.partials

unfoldable pub is_enabled : SubActionRuns → Bool
is_enabled runs = elim runs.partials [ [] ↦ false | _ ∷ _ ↦ true ]
