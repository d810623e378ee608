-- ===== src/Reference/Successor.antt =====
-- `enumerate` of inquint-reference/src/successor.rs, on the reference's oracle and with a
-- `BTreeSet` for the result. A value is its place in the order of the values.
use inquint.Prelude.{ℕ, zero, suc, List, [], if◌then◌else◌, Result, ok, err, ◌>>=◌}
use inquint.Choice
use inquint.Choice.{ChoiceCtl}
use inquint.Choice.Tree.{Tree, leaf, node}
use inquint.Order.Sort.{set_insert}
use inquint.Order.Instances.{nat_ordered, list_ordered}
use inquint.State.Arena.{State}
use inquint.Successor.{Run, take_next_state, max_runs_per_state}
use inquint.Errors.{QuintError, qnt501}
use inquint.Reference

module _ {ℓ} {A : Type ℓ} where
  unfoldable pub run : Tree A → ChoiceCtl → A × ChoiceCtl
  run (leaf a) c = (a, c)
  run (node bound k) c = let (o, c') = Reference.choose c bound in run (k o) c'

-- What one round of the loop does with its run.
unfoldable pub insert_successor : Run → List State → Result QuintError (List State)
insert_successor r out = do
  enabled ← r.value
  if enabled then take_next_state r >>= (λ s. ok (set_insert s out)) else ok out

-- The loop. `left` is the limit less the runs made.
unfoldable pub collect_runs : ℕ → Tree Run → ChoiceCtl → List State → Result QuintError (List State)
collect_runs zero t c out = err qnt501
collect_runs (suc left) t c out = do
  let (r, c') = run t c
  out' ← insert_successor r out
  let (c'', more) = Reference.advance c'
  let again = collect_runs left t c'' out'
  if more then again else ok out'

unfoldable pub enumerate : Tree Run → Result QuintError (List State)
enumerate t = collect_runs max_runs_per_state t Choice.new []
