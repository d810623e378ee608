-- ===== src/Explorer/Tests.antt =====
-- A counter modulo 3 that may stand still, searched with a list for the hash table.
use inquint.Prelude.{ℕ, ◌+◌, ◌%◌, ◌≤◌, ◌≡◌, ◌≢◌, ◌⊎◌, refl, subst, ap, inl, inr, Bool, true, false}
use inquint.Prelude.{
  none, some, length, List, [], ◌∷◌, ◌∈◌, Result, ok, err, ◌==◌, if◌then◌else◌, arith,
}
use inquint.Choice
use inquint.Choice.{advance}
use inquint.Choice.Tree.{Tree, leaf, node, run, for_each_run}
use inquint.Order.Sort.{sort, dedup}
use inquint.State.Arena.{State}
use inquint.State.ListTable.{list_table, hash}
use inquint.Errors.{QuintError, qnt502, evaluation}
use inquint.Successor.{Run, enumerate, push_successor, take_next_state, max_runs_per_state}
use inquint.Explorer.{
  CompiledSpec, CheckConfig, Return, Steps, pass, exhaustive, exact, invariant_violation,
}
use inquint.State.Arena
use inquint.State.Seen.{insert_or_get}
use inquint.Explorer.{deadlocked, check_invs, success_scope, assurance}
use inquint.Explorer.Invariants.{AllHold, FirstFails, FirstErrs}
use inquint.Explorer.Relations.{Next, Reach, start}
use inquint.Explorer.Exact.{
  check_exact, fold_states, admit_initial, visit, bfs, expand, admit_successor,
}
use inquint.Explorer.Exact.Promise.{LeadsTo}
use inquint.Explorer.Exact.Correct.{check_exact_ends, check_exact_pass, check_exact_pass_moves}
use inquint.Explorer.Exact.Correct.{check_exact_violation, check_exact_shortest}
use inquint.Explorer.Exact.Correct.{check_exact_deadlock, check_exact_error}
use inquint.Explorer.Exact.Invariant.{IsClosed}

abbrev assigns : ℕ → Tree Run
assigns v = leaf (record { value = ok true; vars_next = some v ∷ [] })

abbrev counter_step : State → Tree Run
counter_step [] = leaf (record { value = err (evaluation 0); vars_next = [] })
counter_step (v ∷ s) = node 2 (λ o. elim o [
  | none ↦ leaf (record { value = ok false; vars_next = [] })
  | some i ↦ assigns ((v + i) % 3)
])

-- Invariant 7 forbids the value `bad`.
abbrev avoids : ℕ → State → Result QuintError Bool
avoids bad [] = ok true
avoids bad (v ∷ s) = ok (if v == bad then false else true)

abbrev counter : ℕ → CompiledSpec
counter bad = record {
  n_vars = 1;
  init = assigns 0;
  step = counter_step;
  invariants = (7, avoids bad) ∷ [];
}

-- Its step is never enabled.
abbrev stuck : CompiledSpec
stuck = record (counter 9) { step = λ s. leaf (record { value = ok false; vars_next = [] }) }

-- Its step leaves the variable unassigned.
abbrev broken : CompiledSpec
broken = record (counter 9) { step = λ s. leaf (record { value = ok true; vars_next = none ∷ [] }) }

abbrev cfg : CheckConfig
cfg = record {
  max_steps = none;
  deadlock = true;
  max_states = none;
  exact_states = true;
  threads = 1;
}

abbrev universe : List State
universe = (0 ∷ []) ∷ (1 ∷ []) ∷ (2 ∷ []) ∷ []

abbrev at_zero : Steps
at_zero = some ((0 ∷ []) ∷ [])

step_zero : enumerate (counter_step (0 ∷ [])) ≡ ok ((0 ∷ []) ∷ (1 ∷ []) ∷ [])
unfolding enumerate for_each_run max_runs_per_state push_successor run take_next_state advance
    Choice.new dedup sort
step_zero = refl

step_one : enumerate (counter_step (1 ∷ [])) ≡ ok ((1 ∷ []) ∷ (2 ∷ []) ∷ [])
unfolding enumerate for_each_run max_runs_per_state push_successor run take_next_state advance
    Choice.new dedup sort
step_one = refl

step_two : enumerate (counter_step (2 ∷ [])) ≡ ok ((0 ∷ []) ∷ (2 ∷ []) ∷ [])
unfolding enumerate for_each_run max_runs_per_state push_successor run take_next_state advance
    Choice.new dedup sort
step_two = refl

init_zero : enumerate (assigns 0) ≡ ok ((0 ∷ []) ∷ [])
unfolding enumerate for_each_run max_runs_per_state push_successor run take_next_state advance
    Choice.new dedup sort
init_zero = refl

-- What is known of one call holds of what any proof says that it returned.
returned :
    (t : Tree Run) (out ss : List State) (s : State)
    → enumerate t ≡ ok out
    → enumerate t ≡ ok ss
    → s ∈ ss
    → s ∈ out
returned t out ss s e e' m = let same : ss ≡ out = cc in subst (λ l. s ∈ l) same m

counter_moves : (s t : State) → s ∈ universe → Next (counter 9) s t → t ∈ universe
counter_moves s t (inl at0) (ss, e, m) =
    let m' =
      returned _ _ ss t step_zero (subst (λ s. enumerate (counter_step s) ≡ ok ss) at0 e) m in
    ground (arith, m')
counter_moves s t (inr (inl at1)) (ss, e, m) =
    let m' = returned _ _ ss t step_one (subst (λ s. enumerate (counter_step s) ≡ ok ss) at1 e) m in
    ground (arith, m')
counter_moves s t (inr (inr (inl at2))) (ss, e, m) =
    let m' = returned _ _ ss t step_two (subst (λ s. enumerate (counter_step s) ≡ ok ss) at2 e) m in
    ground (arith, m')
counter_moves s t (inr (inr (inr none_left))) next = absurd none_left

counter_size : (s : State) → s ∈ universe → length s ≡ 1
counter_size s (inl at0) = ap length at0
counter_size s (inr (inl at1)) = ap length at1
counter_size s (inr (inr (inl at2))) = ap length at2
counter_size s (inr (inr (inr none_left))) = absurd none_left

counter-IsClosed : (bad : ℕ) → IsClosed (counter bad) universe
counter-IsClosed bad = record {
  initial = λ s i. let m = returned _ _ i.0 s init_zero i.1 i.2 in ground (arith, m);
  next = counter_moves;
  size = counter_size;
  few = omega arith;
}

-- A pass, a violation at depth 2, a deadlock, and an evaluation error.
runs :
    (check_exact list_table hash (counter 9) cfg 3 ≡ some (ok (pass 3 2 exhaustive exact)))
    × (check_exact list_table hash (counter 2) cfg 3
        ≡ some (ok (invariant_violation 7 (some universe))))
    × (check_exact list_table hash stuck cfg 1 ≡ some (ok (deadlocked at_zero)))
    × (check_exact list_table hash broken cfg 1
        ≡ some (err (record { error = qnt502; trace = at_zero })))
unfolding enumerate for_each_run max_runs_per_state push_successor run take_next_state advance
    Choice.new dedup sort check_exact check_invs success_scope assurance fold_states admit_initial
    visit bfs expand admit_successor insert_or_get Arena.new Arena.get Arena.push Arena.depth
    Arena.trace Arena.parent
runs = (refl, refl, refl, refl)

still_step :
    (enumerate (stuck.step (0 ∷ [])) ≡ ok []) × (enumerate (broken.step (0 ∷ [])) ≡ err qnt502)
unfolding enumerate for_each_run max_runs_per_state push_successor run take_next_state advance
    Choice.new dedup sort
still_step = (refl, refl)

stuck-IsClosed : IsClosed stuck ((0 ∷ []) ∷ [])
stuck-IsClosed = record {
  initial = λ s i. returned _ _ i.0 s init_zero i.1 i.2;
  next = λ s t m n. absurd (returned _ _ n.0 t still_step.0 n.1 n.2);
  size = λ s m. elim m [ inl e ↦ ap length e | inr none_left ↦ absurd none_left ];
  few = omega arith;
}

broken-IsClosed : IsClosed broken ((0 ∷ []) ∷ [])
broken-IsClosed = record {
  initial = λ s i. returned _ _ i.0 s init_zero i.1 i.2;
  next = λ s t m (ss, e, n). let no = still_step.1 in absurd (cc (no, e));
  size = λ s m. elim m [ inl e ↦ ap length e | inr none_left ↦ absurd none_left ];
  few = omega arith;
}

two_reached : (bad : ℕ) → Reach (counter bad) 2 (2 ∷ [])
two_reached bad =
    Reach.next (Reach.next (start (_, init_zero, inl refl)) (_, step_zero, inr (inl refl)))
      (_, step_one, inr (inl refl))

check_exact_ends_example : (r : Return) × (check_exact list_table hash (counter 2) cfg 3 ≡ some r)
check_exact_ends_example =
    check_exact_ends list_table hash (counter 2) cfg universe (counter-IsClosed 2)

check_exact_pass_example :
    AllHold (counter 9) (2 ∷ []) × ((ss : List State) × (enumerate (counter_step (2 ∷ [])) ≡ ok ss))
check_exact_pass_example =
    check_exact_pass list_table hash (counter 9) cfg universe (counter-IsClosed 9) runs.0
      (two_reached 9) tt

check_exact_pass_moves_example : enumerate (counter_step (2 ∷ [])) ≢ ok []
check_exact_pass_moves_example =
    check_exact_pass_moves list_table hash (counter 9) cfg universe (counter-IsClosed 9) runs.0 refl
      (two_reached 9) tt

check_exact_violation_example :
    (n : ℕ) × (s : State) × LeadsTo (counter 2) cfg (some universe) n s × FirstFails (counter 2) 7 s
check_exact_violation_example =
    check_exact_violation list_table hash (counter 2) cfg universe (counter-IsClosed 2) runs.1

two_violates : avoids 2 (2 ∷ []) ≢ ok true
two_violates e = ground arith

check_exact_shortest_example : length universe ≤ 3
check_exact_shortest_example =
    check_exact_shortest list_table hash (counter 2) cfg universe (counter-IsClosed 2) runs.1
      (two_reached 2) (7, avoids 2) (inl refl) two_violates

check_exact_deadlock_example :
    (n : ℕ) × (s : State) × LeadsTo stuck cfg at_zero n s
    × (enumerate (stuck.step s) ≡ ok [])
    × (cfg.deadlock ≡ true)
check_exact_deadlock_example =
    check_exact_deadlock list_table hash stuck cfg ((0 ∷ []) ∷ []) stuck-IsClosed runs.2

check_exact_error_example :
    (enumerate broken.init ≡ err qnt502) × (at_zero ≡ some [])
    ⊎ ((n : ℕ) × (s : State) × LeadsTo broken cfg at_zero n s
        × (FirstErrs broken qnt502 s ⊎ (enumerate (broken.step s) ≡ err qnt502)))
check_exact_error_example =
    check_exact_error list_table hash broken cfg ((0 ∷ []) ∷ []) broken-IsClosed runs.3
