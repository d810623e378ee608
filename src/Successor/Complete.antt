-- ===== src/Successor/Complete.antt =====
-- `enumerate` returns exactly the states that some path of choices leads to, each once.
use inquint.Prelude.{ℕ, zero, suc, ◌≤◌, ◌<◌, ◌≡◌, refl, subst, ◌↔◌, ◌⊎◌, inl, inr, true, false}
use inquint.Prelude.{
  List, [], ◌∷◌, ◌++◌, ◌∈◌, mem-snoc, length, ok, err, ◌>>=◌, Result-cases, arith,
}
use inquint.Choice.Tree.{Tree, leaves, for_each_leaf}
use inquint.Choice.Complete.{for_each_run-eq-for_each_leaf}
use inquint.Order.Sort.{sort, dedup}
use inquint.Order.SortLaws.{Distinct, mem-sort, mem-dedup, dedup-sort-Distinct}
use inquint.Order.Instances.{nat_ordered, list_ordered}
use inquint.State.Arena.{State}
use inquint.Successor.{Run, take_next_state, push_successor, max_runs_per_state}
use inquint.Errors.{qnt501}
use inquint.Successor.{enumerate}

-- The run succeeds and assigns `s`.
abbrev pub LeadsTo : Run → State → Type 0
LeadsTo r s = (r.value ≡ ok true) × (take_next_state r ≡ ok s)

-- Some run of the list does.
abbrev pub Yields : List Run → State → Type 0
Yields [] s = ⊥
Yields (r ∷ rs) s = LeadsTo r s ⊎ Yields rs s

-- The run returns a Boolean and, if that is true, assigns every variable.
abbrev pub Returns : Run → Type 0
Returns r = (r.value ≡ ok false) ⊎ ((s : State) × LeadsTo r s)

abbrev pub AllReturn : List Run → Type 0
AllReturn [] = Unit {0}
AllReturn (r ∷ rs) = Returns r × AllReturn rs

push_successor-mem :
    (r : Run) (out out' : List State) (s : State)
    → push_successor r out ≡ ok out'
    → (s ∈ out') ↔ ((s ∈ out) ⊎ LeadsTo r s)
unfolding push_successor
push_successor-mem r out out' s h = elim (Result-cases (take_next_state r)) [
  | inl (next, e) ↦ ground (arith, mem-snoc s out next)
  | inr (x, e) ↦ ground arith
]

for_each_leaf-mem :
    (left : ℕ) (rs : List Run) (out out' : List State) (s : State)
    → for_each_leaf qnt501 push_successor left rs out ≡ ok out'
    → (s ∈ out') ↔ ((s ∈ out) ⊎ Yields rs s)
unfolding for_each_leaf
for_each_leaf-mem left [] out out' s h = ground arith
for_each_leaf-mem zero (r ∷ rs) out out' s h = absurd (ground arith)
for_each_leaf-mem (suc left) (r ∷ rs) out out' s h = elim (Result-cases (push_successor r out)) [
  | inl (mid, e) ↦
      ground
        (arith, push_successor-mem r out mid s e, for_each_leaf-mem left rs mid out' s (rw e at h))
  | inr (x, e) ↦ absurd (ground arith)
]

enumerate-leaves :
    (t : Tree Run)
    → enumerate t ≡ (
        for_each_leaf qnt501 push_successor max_runs_per_state (leaves t) [] >>= λ out.
        ok (dedup (sort out)))
unfolding enumerate
enumerate-leaves t =
    rw (for_each_run-eq-for_each_leaf qnt501 push_successor max_runs_per_state t [])

-- When `enumerate` returns, its states are exactly those that a successful run of the action
-- assigns, and no state stands twice.
pub enumerate_complete :
    (t : Tree Run) (out : List State)
    → enumerate t ≡ ok out
    → ((s : State) → (s ∈ out) ↔ Yields (leaves t) s) × Distinct out
enumerate_complete t out h =
    elim (Result-cases (for_each_leaf qnt501 push_successor max_runs_per_state (leaves t) [])) [
      | inl (raw, e) ↦
          let h' = rw (enumerate-leaves t, e) at h in
          let kept : dedup (sort raw) ≡ out = cc h' in
          (
            λ s. rw (← kept) (
                ground (
                  arith,
                  mem-dedup s (sort raw),
                  mem-sort s raw,
                  for_each_leaf-mem max_runs_per_state (leaves t) [] raw s e,
                )),
            subst Distinct kept (dedup-sort-Distinct raw),
          )
      | inr (x, e) ↦ let h' = rw (enumerate-leaves t, e) at h in absurd (cc h')
    ]

for_each_leaf_returns :
    (left : ℕ) (rs : List Run) (out : List State)
    → AllReturn rs
    → length rs ≤ left
    → (out' : List State) × (for_each_leaf qnt501 push_successor left rs out ≡ ok out')
unfolding for_each_leaf push_successor
for_each_leaf_returns left [] out all h = (out, refl)
for_each_leaf_returns zero (r ∷ rs) out all h = absurd (omega arith)
for_each_leaf_returns (suc left) (r ∷ rs) out (inl no_step, all) h =
    rw no_step (for_each_leaf_returns left rs out all (omega arith))
for_each_leaf_returns (suc left) (r ∷ rs) out (inr (s, leads), all) h =
    simp (leads.0, leads.1) (for_each_leaf_returns left rs (out ++ s ∷ []) all (omega arith))

for_each_leaf_stops :
    (left : ℕ) (rs : List Run) (out : List State)
    → AllReturn rs
    → left < length rs
    → for_each_leaf qnt501 push_successor left rs out ≡ err qnt501
unfolding for_each_leaf push_successor
for_each_leaf_stops left [] out all h = absurd (omega arith)
for_each_leaf_stops zero (r ∷ rs) out all h = refl
for_each_leaf_stops (suc left) (r ∷ rs) out (inl no_step, all) h =
    rw no_step (for_each_leaf_stops left rs out all (omega arith))
for_each_leaf_stops (suc left) (r ∷ rs) out (inr (s, leads), all) h =
    simp (leads.0, leads.1) (for_each_leaf_stops left rs (out ++ s ∷ []) all (omega arith))

-- If no run of the action fails and the choices have at most `MAX_RUNS_PER_STATE` combinations,
-- `enumerate` returns.
pub enumerate_returns :
    (t : Tree Run)
    → AllReturn (leaves t)
    → length (leaves t) ≤ max_runs_per_state
    → (out : List State) × (enumerate t ≡ ok out)
enumerate_returns t all few =
    let (raw, e) = for_each_leaf_returns max_runs_per_state (leaves t) [] all few in
    (dedup (sort raw), rw (enumerate-leaves t, e))

-- If no run of the action fails and the choices have more combinations than
-- `MAX_RUNS_PER_STATE`, `enumerate` reports QNT501.
pub enumerate_overflow :
    (t : Tree Run)
    → AllReturn (leaves t)
    → max_runs_per_state < length (leaves t)
    → enumerate t ≡ err qnt501
enumerate_overflow t all many =
    rw (enumerate-leaves t, for_each_leaf_stops max_runs_per_state (leaves t) [] all many)
