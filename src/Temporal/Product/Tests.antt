-- ===== src/Temporal/Product/Tests.antt =====
-- The product of a graph of two states with the automaton of a formula.
use inquint.Prelude.{
  ℕ, zero, suc, ◌<◌, ◌≤◌, ◌≡◌, ◌↔◌, inl, inr, refl, sym, ap, ◌∙◌, subst, some, ok, List, [], ◌∷◌,
  ◌∈◌, get_or, true, false, arith,
}
use inquint.State.Arena
use inquint.Order.Sort.{set_insert}
use inquint.Temporal.Ltl.{Ltl, AtomRef, negated, nnf}
use inquint.Temporal.NnfMeaning.{NoEmptyOr}
use inquint.Temporal.Graph.{StateGraph, edges_from, edges_of, state_bit}
use inquint.Temporal.Buchi.{
  Gba, arm, contradicts, expand, expand_fuel, extend_incoming, find_done, find_id, finish, has_id,
  ids_eq, insert_all, insert_unless, intern, nnf_eq, or_all, all_true, push_edges, connect,
  run_calls, size, state_lits_of, edge_lits_of, tableau, acc_set, acc_sets_from, build_gba, n_nodes,
  init_id,
}
use inquint.Temporal.Product.{
  Product, build_product, work, product_fuel, seed_all, seed, sat_state, intern_pair, find_pair,
  pair_edges, sat_edge, pair_up, push_adj,
}
use inquint.Temporal.Product.Interned.{FewPairs}
use inquint.Temporal.Product.Violations.{
  IsGraph, HasAcceptingPath, HasViolation, accepting_path_iff,
}

-- The first state leads to itself and to the second one, which leads to itself. Only the second
-- one has the atom.
abbrev graph : StateGraph
graph = record {
  arena = record {
    n_vars = 1;
    data_ = 7 ∷ 8 ∷ [];
    parents = Arena.no_parent ∷ 0 ∷ [];
    depths = 0 ∷ 1 ∷ [];
  };
  init_count = 1;
  offsets = 0 ∷ 2 ∷ 3 ∷ [];
  targets = 0 ∷ 1 ∷ 1 ∷ [];
  state_bits = (false ∷ true ∷ []) ∷ [];
  edge_bits = [];
}

-- The atom never holds.
abbrev never : Ltl
never = Ltl.always (Ltl.negation (Ltl.state_atom 0))

abbrev automaton : Gba
automaton = record {
  init = 0 ∷ 1 ∷ [];
  edges = (0 ∷ 1 ∷ []) ∷ (2 ∷ []) ∷ (2 ∷ []) ∷ [];
  state_lits = [] ∷ (record { atom = AtomRef.state 0; pos = true } ∷ []) ∷ [] ∷ [];
  edge_lits = [] ∷ [] ∷ [] ∷ [];
  acc_sets = (false ∷ true ∷ true ∷ []) ∷ [];
}

negated_automaton : build_gba (nnf never true) ≡ ok automaton
unfolding build_gba arm contradicts expand expand_fuel extend_incoming find_done find_id finish
    has_id ids_eq insert_all insert_unless intern nnf_eq or_all all_true push_edges connect
    run_calls size state_lits_of edge_lits_of tableau acc_set acc_sets_from init_id set_insert
    negated nnf
negated_automaton = refl

-- The second state with the two nodes in which the atom has held.
product_nodes :
    build_product graph automaton
    ≡ some (record {
      nodes = (0, 0) ∷ (1, 0) ∷ (1, 1) ∷ (1, 2) ∷ [];
      adj =
          ((0, 0) ∷ (1, 1) ∷ (2, 1) ∷ [])
          ∷ ((1, 2) ∷ (2, 2) ∷ [])
          ∷ ((3, 2) ∷ [])
          ∷ ((3, 2) ∷ [])
          ∷ [];
      init = 0 ∷ [];
    })
unfolding build_product n_nodes state_bit edges_of work product_fuel seed_all seed sat_state
    intern_pair find_pair pair_edges sat_edge pair_up push_adj
product_nodes = refl

never-NoEmptyOr : NoEmptyOr never
unfolding NoEmptyOr
never-NoEmptyOr = tt

few_pairs : FewPairs graph automaton
unfolding n_nodes
few_pairs = omega arith

few : n_nodes automaton ≤ init_id
unfolding n_nodes init_id
few = omega arith

target_of : (ts : List ℕ) (lo n e t : ℕ) → (e, t) ∈ edges_from ts lo n → t ≡ get_or ts e 0
target_of ts lo zero e t m = absurd m
target_of ts lo (suc n) e t (inl same) =
    ap (λ x. x.1) same ∙ ap (λ z. get_or ts z 0) (sym (ap (λ x. x.0) same))
target_of ts lo (suc n) e t (inr m) = target_of ts (suc lo) n e t m

below_two : (k : ℕ) → get_or (0 ∷ 1 ∷ 1 ∷ []) k 0 < 2
below_two zero = omega arith
below_two (suc zero) = omega arith
below_two (suc (suc zero)) = omega arith
below_two (suc (suc (suc k))) = omega arith

graph-IsGraph : IsGraph graph
unfolding edges_of
graph-IsGraph = record {
  inits = omega arith;
  targets =
      λ s e t m. subst (λ z. z < 2) (sym (target_of (0 ∷ 1 ∷ 1 ∷ []) _ _ e t m)) (below_two e);
}

accepting_path_iff_example :
    (p : Product) × ((build_product graph automaton ≡ some p)
      × (HasAcceptingPath automaton p ↔ HasViolation graph never))
accepting_path_iff_example =
    accepting_path_iff never automaton graph never-NoEmptyOr graph-IsGraph negated_automaton few
      few_pairs
