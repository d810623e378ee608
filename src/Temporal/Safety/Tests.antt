-- ===== src/Temporal/Safety/Tests.antt =====
-- A graph of two states, of which the second is never left.
use inquint.Prelude.{
  ℕ, zero, suc, ◌+◌, ◌<◌, ◌≡◌, refl, ◌↔◌, inl, inr, Bool, true, false, some, List, [], ◌∷◌, ◌∈◌,
  arith,
}
use native.Mathlib.Numerals.{unary_clauses}
use inquint.State.Arena
use inquint.State.Arena.{StateArena}
use inquint.Temporal.Ltl.{Ltl, Ltls, Prop, SafetyConjunct, initial, always_prop, safety_fragment}
use inquint.Temporal.Graph
use inquint.Temporal.Graph.{StateGraph, edges_of}
use inquint.Temporal.Semantics.{Holds}
use inquint.Temporal.Safety.{pass, violation, check_safety}
use inquint.Temporal.Safety.Correct.{ConjunctsHold, check_safety_iff}
use inquint.Temporal.Safety.Behaviours.{Behaviour, word_of, check_safety_sound}
use inquint.Temporal.Graph.{edge_bit, state_bit, trace_to}
use inquint.Temporal.Ltl.{conjuncts, has_edge_atoms, safety_conjunct, safety_conjuncts}
use inquint.Temporal.Safety.{
  check_always, check_edges, check_initial, check_initials, check_state, eval_prop, for_states,
  violation_edge,
}

-- The edges: the first state to itself, to the second one, and that to itself.
abbrev graph : List Bool → StateGraph
graph moved = record {
  arena = record {
    n_vars = 1;
    data_ = 7 ∷ 8 ∷ [];
    parents = Arena.no_parent ∷ 0 ∷ [];
    depths = 0 ∷ 1 ∷ [];
  };
  init_count = 1;
  offsets = 0 ∷ 2 ∷ 3 ∷ [];
  targets = 0 ∷ 1 ∷ 1 ∷ [];
  state_bits = (true ∷ false ∷ []) ∷ [];
  edge_bits = moved ∷ [];
}

-- The state atom at first, and the edge atom always.
abbrev property : Ltl
property =
    Ltl.conjunction
      (Ltls.cons (Ltl.state_atom 0) (Ltls.cons (Ltl.always (Ltl.edge_atom 0)) Ltls.nil))

abbrev parts : List SafetyConjunct
parts = initial (Prop.state_atom 0) ∷ always_prop (Prop.edge_atom 0) ∷ []

is_safety : safety_fragment property ≡ some parts
unfolding safety_fragment safety_conjuncts conjuncts safety_conjunct
is_safety = refl

all_edges : check_safety parts (graph (true ∷ true ∷ true ∷ [])) ≡ pass
unfolding check_safety check_initials check_initial has_edge_atoms for_states check_state eval_prop
    state_bit check_always check_edges edges_of edge_bit
all_edges = refl

-- The second edge does not have the atom.
one_edge :
    check_safety parts (graph (true ∷ false ∷ true ∷ []))
    ≡ violation (some ((7 ∷ []) ∷ (8 ∷ []) ∷ []))
unfolding check_safety check_initials check_initial has_edge_atoms for_states check_state eval_prop
    state_bit check_always check_edges edges_of edge_bit violation_edge trace_to Arena.trace
    Arena.parent Arena.get Graph.state
one_edge = refl

abbrev at : ℕ → ℕ
at zero = 0
at (suc k) = 1

abbrev taken : ℕ → ℕ
taken zero = 1
taken (suc k) = 2

at_stays : (i : ℕ) → at i < 2
at_stays zero = omega arith
at_stays (suc k) = omega arith

at_steps : (i : ℕ) → (taken i, at (i + 1)) ∈ edges_of (graph (true ∷ true ∷ true ∷ [])) (at i)
unfolding edges_of
at_steps zero = inr (inl refl)
at_steps (suc k) = simp unary_clauses (inl refl)

leaves_once : Behaviour (graph (true ∷ true ∷ true ∷ []))
leaves_once = record {
  at = at;
  edge = taken;
  starts = omega arith;
  stays = at_stays;
  steps = at_steps;
}

check_safety_iff_example :
    (check_safety parts (graph (true ∷ true ∷ true ∷ [])) ≡ pass)
    ↔ ConjunctsHold (graph (true ∷ true ∷ true ∷ [])) parts
check_safety_iff_example = check_safety_iff (graph (true ∷ true ∷ true ∷ [])) parts

check_safety_sound_example :
    Holds (word_of (graph (true ∷ true ∷ true ∷ [])) leaves_once) property 0
check_safety_sound_example =
    check_safety_sound (graph (true ∷ true ∷ true ∷ [])) leaves_once property parts is_safety
      all_edges
