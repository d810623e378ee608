-- ===== src/Temporal/Buchi/Tests.antt =====
-- The automata of some formulas.
use inquint.Prelude.{ℕ, ◌≤◌, ◌≡◌, ◌↔◌, ◌==◌, refl, [], ◌∷◌, true, false, ok, err, arith}
use inquint.Order.Sort.{set_insert}
use inquint.Temporal.Ltl.{AtomRef, Nnf, negated}
use inquint.Temporal.Buchi.{
  Gba, arm, contradicts, expand, expand_fuel, extend_incoming, find_done, find_id, finish, has_id,
  ids_eq, insert_all, insert_unless, intern, nnf_eq, or_all, all_true, push_edges, connect,
  run_calls, size, state_lits_of, edge_lits_of, tableau, acc_set, acc_sets_from, not_interned,
  init_id, n_nodes, build_gba,
}
use inquint.Temporal.Buchi.Accepting.{Accepts}
use inquint.Temporal.Buchi.Language.{gba_language}
use inquint.Temporal.Buchi.Ends.{Ends, build_gba-Ends}
use inquint.Temporal.Semantics.{Word, Models}

abbrev atom : ℕ → Nnf
atom j = Nnf.lit (record { atom = AtomRef.state j; pos = true })

abbrev no_atom : ℕ → Nnf
no_atom j = Nnf.lit (record { atom = AtomRef.state j; pos = false })

abbrev eventually_p : Nnf
eventually_p = Nnf.until Nnf.truth (atom 0)

abbrev automaton : Gba
automaton = record {
  init = 0 ∷ 1 ∷ [];
  edges = (0 ∷ 1 ∷ []) ∷ (2 ∷ []) ∷ (2 ∷ []) ∷ [];
  state_lits = [] ∷ (record { atom = AtomRef.state 0; pos = true } ∷ []) ∷ [] ∷ [];
  edge_lits = [] ∷ [] ∷ [] ∷ [];
  acc_sets = (false ∷ true ∷ true ∷ []) ∷ [];
}

automaton_of_eventually_p : build_gba eventually_p ≡ ok automaton
unfolding build_gba arm contradicts expand expand_fuel extend_incoming find_done find_id finish
    has_id ids_eq insert_all insert_unless intern nnf_eq or_all all_true push_edges connect
    run_calls size state_lits_of edge_lits_of tableau acc_set acc_sets_from init_id set_insert
    negated
automaton_of_eventually_p = refl

-- The atom holds at the third position only.
abbrev word : Word
word = record { state_at = λ a i. i == 2; edge_at = λ a i. false }

few : n_nodes automaton ≤ init_id
unfolding n_nodes init_id
few = omega arith

gba_language_example : Accepts automaton word ↔ Models word eventually_p 0
gba_language_example = gba_language eventually_p automaton word automaton_of_eventually_p few

-- The until of a branch that a contradiction drops is interned, its right side is not.
abbrev dropped : Nnf
dropped = Nnf.both (atom 0) (Nnf.both (no_atom 0) (Nnf.until (atom 1) (atom 2)))

dropped_until : build_gba dropped ≡ err not_interned
unfolding build_gba arm contradicts expand expand_fuel extend_incoming find_done find_id finish
    has_id ids_eq insert_all insert_unless intern nnf_eq or_all all_true push_edges connect
    run_calls size state_lits_of edge_lits_of tableau acc_set acc_sets_from init_id set_insert
    negated
dropped_until = refl

build_gba-Ends_example : Ends (build_gba dropped)
build_gba-Ends_example = build_gba-Ends dropped
