-- ===== src/Explorer/Exact.antt =====
-- `check_exact` of inquint/src/explorer.rs: breadth-first search with full states in the arena.
pub mod Invariant
pub mod Grow
pub mod Traces
pub mod Promise
pub mod Admit
pub mod Successors
pub mod Initials
pub mod Rounds
pub mod Total
pub mod Correct
use inquint.Prelude.{ℕ, zero, suc, ◌+◌, ◌%◌, max, Bool, true, false, ◌&&◌, Option, none, some, List}
use inquint.Prelude.{[], ◌∷◌, ◌++◌, if◌then◌else◌, Result, ok, err, ◌>>=◌}
use inquint.State.Arena
use inquint.State.Arena.{State, StateArena, u32_mod}
use inquint.State.Table.{HashTable}
use inquint.State.Seen.{insert_or_get}
use inquint.Successor.{enumerate}
use inquint.Errors.{QuintError}
use inquint.Explorer.{CompiledSpec, CheckConfig, CheckOutcome, CheckError, Return, Steps, pass}
use inquint.Explorer.{invariant_violation, deadlocked, incomplete, success_scope, assurance}
use inquint.Explorer.{check_invs, reached}

-- `err_with`: the error and the way to the state at which it occurred.
abbrev pub err_with : Steps → QuintError → Return
err_with trace error = err (record { error = error; trace = trace })

abbrev pub no_successors : List State → Bool
no_successors [] = true
no_successors (s ∷ ss) = false

-- A loop that returns from the function leaves with `err`.
unfoldable pub fold_states {ℓ} :
    {S : Type ℓ} {R : Type 0} → (State → S → Result R S) → List State → S → Result R S
fold_states f [] st = ok st
fold_states f (s ∷ ss) st = f s st >>= fold_states f ss

module _ (H : HashTable) (hash_state : State → ℕ) (spec : CompiledSpec) (cfg : CheckConfig) where
  open H use {Table, empty}

  pub record Search : Type 0 where
    pub arena : StateArena
    pub seen : Table
    pub frontier : List ℕ

  -- What both loops do with a state that got the id `id`.
  unfoldable pub visit : Search → State → ℕ → Result Return Search
  visit st s id = elim (check_invs spec s) [
    | ok (some name) ↦ err (ok (invariant_violation name (Arena.trace st.arena id)))
    | err e ↦ err (err_with (Arena.trace st.arena id) e)
    | ok none ↦
        if reached cfg.max_states (Arena.len st.arena)
        then err (ok (incomplete (Arena.len st.arena)))
        else ok (record st { frontier = st.frontier ++ id ∷ [] })
  ]

  -- One round of the loop over the initial states.
  unfoldable pub admit_initial : State → Search → Result Return Search
  admit_initial s st =
      let r = insert_or_get H hash_state st.seen st.arena s none 0 in
      visit (record st { arena = r.0.1; seen = r.0.0 }) s r.1.0

  -- One round of the loop over the successors of the state `id` at depth `d`.
  unfoldable pub admit_successor : ℕ → ℕ → State → Search → Result Return Search
  admit_successor id d s st =
      let r = insert_or_get H hash_state st.seen st.arena s (some id) ((d + 1) % u32_mod) in
      let st' = record st { arena = r.0.1; seen = r.0.0 } in
      if r.1.1 then visit st' s r.1.0 else ok st'

  -- The body of the `while` loop, after `id` left the queue.
  unfoldable pub expand : ℕ → Search → Result Return Search
  expand id st =
      let d = Arena.depth st.arena id in
      elim (enumerate (spec.step (Arena.get st.arena id))) [
        | err e ↦ err (err_with (Arena.trace st.arena id) e)
        | ok ss ↦
            if no_successors ss && cfg.deadlock
            then err (ok (deadlocked (Arena.trace st.arena id)))
            else if reached cfg.max_steps d
            then ok st
            else fold_states (admit_successor id d) ss st
      ]

  -- What the function returns when the queue is empty.
  abbrev pub finished : Search → ℕ → Return
  finished st max_depth =
      ok (pass (Arena.len st.arena) max_depth (success_scope cfg) (assurance cfg))

  -- The `while` loop, with fuel: one unit for each state that leaves the queue.
  unfoldable pub bfs : ℕ → Search → ℕ → Option Return
  bfs zero st max_depth = elim st.frontier [ [] ↦ some (finished st max_depth) | _ ∷ _ ↦ none ]
  bfs (suc fuel) st max_depth = elim st.frontier [
    | [] ↦ some (finished st max_depth)
    | id ∷ rest ↦ elim (expand id (record st { frontier = rest })) [
      | err r ↦ some r
      | ok st' ↦ bfs fuel st' (max max_depth (Arena.depth st.arena id))
    ]
  ]

  abbrev pub blank : Search
  blank = record { arena = Arena.new spec.n_vars; seen = empty; frontier = [] }

  -- `none` is a search that did not end within the fuel.
  unfoldable pub check_exact : ℕ → Option Return
  check_exact fuel = elim (enumerate spec.init) [
    | err e ↦ some (err_with (some []) e)
    | ok ss ↦ elim (fold_states admit_initial ss blank) [ err r ↦ some r | ok st ↦ bfs fuel st 0 ]
  ]
