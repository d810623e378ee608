-- ===== src/Reference/Equivalence.antt =====
-- The two enumerations find the same states.
use inquint.Prelude.{
  ℕ, zero, suc, ◌≡◌, refl, ap, ◌∙◌, sym, ◌↔◌, ◌⊎◌, inl, inr, fun_ext, List, [], ◌∷◌, ◌∈◌,
}
use inquint.Prelude.{ok, ◌>>=◌, Result-cases, arith}
use inquint.Choice
use inquint.Choice.{ChoiceCtl}
use inquint.Choice.Tree
use inquint.Choice.Tree.{Tree, leaf, node, leaves, for_each_run, for_each_leaf}
use inquint.Choice.Complete.{for_each_run-eq-for_each_leaf}
use inquint.Order.Sort.{set_insert}
use inquint.Order.SortLaws.{same→≡}
use inquint.Order.Instances.{nat_ordered, list_ordered}
use inquint.State.Arena.{State}
use inquint.Successor
use inquint.Successor.{Run, take_next_state, max_runs_per_state}
use inquint.Errors.{qnt501}
use inquint.Successor.Complete.{Yields, LeadsTo, enumerate_complete}
use inquint.Reference
use inquint.Reference.Agrees.{reference_advance-eq-advance}
use inquint.Reference.Successor.{run, insert_successor, collect_runs, enumerate}

choose-eq : (c : ChoiceCtl) (bound : ℕ) → Reference.choose c bound ≡ Choice.choose c bound
unfolding Reference.choose Choice.choose
choose-eq c bound = refl

run-eq : (t : Tree Run) (c : ChoiceCtl) → run t c ≡ Tree.run t c
unfolding run Tree.run
run-eq (leaf a) c = refl
run-eq (node bound k) c =
    rw (choose-eq c bound) (run-eq (k (Choice.choose c bound).0) (Choice.choose c bound).1)

collect_runs-eq-for_each_run :
    (left : ℕ) (t : Tree Run) (c : ChoiceCtl) (out : List State)
    → collect_runs left t c out ≡ for_each_run qnt501 insert_successor left t c out
unfolding collect_runs for_each_run
collect_runs-eq-for_each_run zero t c out = refl
collect_runs-eq-for_each_run (suc left) t c out =
    simp (run-eq t c, reference_advance-eq-advance)
      (ap (λ f. insert_successor (Tree.run t c).0 out >>= f)
        (fun_ext (λ out'.
          rw (collect_runs-eq-for_each_run left t (Choice.advance (Tree.run t c).1).0 out'))))

mem-set_insert : (b a : State) (xs : List State) → (b ∈ set_insert a xs) ↔ ((b ≡ a) ⊎ (b ∈ xs))
unfolding set_insert
mem-set_insert b a [] = (λ m. m, λ m. m)
mem-set_insert b a (x ∷ xs) = ground (arith, same→≡ a x, mem-set_insert b a xs)

insert_successor-mem :
    (r : Run) (out out' : List State) (s : State)
    → insert_successor r out ≡ ok out'
    → (s ∈ out') ↔ ((s ∈ out) ⊎ LeadsTo r s)
unfolding insert_successor
insert_successor-mem r out out' s h = elim (Result-cases (take_next_state r)) [
  | inl (next, e) ↦ ground (arith, mem-set_insert s next out)
  | inr (x, e) ↦ ground arith
]

for_each_leaf-inserts :
    (left : ℕ) (rs : List Run) (out out' : List State) (s : State)
    → for_each_leaf qnt501 insert_successor left rs out ≡ ok out'
    → (s ∈ out') ↔ ((s ∈ out) ⊎ Yields rs s)
unfolding for_each_leaf
for_each_leaf-inserts left [] out out' s h = ground arith
for_each_leaf-inserts zero (r ∷ rs) out out' s h = absurd (ground arith)
for_each_leaf-inserts (suc left) (r ∷ rs) out out' s h =
    elim (Result-cases (insert_successor r out)) [
      | inl (mid, e) ↦ ground (
        arith,
        insert_successor-mem r out mid s e,
        for_each_leaf-inserts left rs mid out' s (rw e at h),
      )
      | inr (x, e) ↦ absurd (ground arith)
    ]

-- When both enumerations of an action return, they return the same states.
pub reference_enumerate-enumerate :
    (t : Tree Run) (out out' : List State) (s : State)
    → enumerate t ≡ ok out
    → Successor.enumerate t ≡ ok out'
    → (s ∈ out) ↔ (s ∈ out')
unfolding enumerate
reference_enumerate-enumerate t out out' s h h' =
    let e =
      collect_runs-eq-for_each_run max_runs_per_state t Choice.new []
      ∙ for_each_run-eq-for_each_leaf qnt501 insert_successor max_runs_per_state t [] in
    ground (
      arith,
      for_each_leaf-inserts max_runs_per_state (leaves t) [] out s (sym e ∙ h),
      (enumerate_complete t out' h').0 s,
    )
