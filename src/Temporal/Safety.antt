-- ===== src/Temporal/Safety.antt =====
-- inquint/src/temporal/safety.rs: the check of the safety fragment on the state graph.
mod Tests
pub mod Correct
pub mod Behaviours
use inquint.Prelude.{
  ℕ, zero, suc, ◌+◌, Bool, true, false, not, ◌&&◌, ◌||◌, Option, none, some, List, [], ◌∷◌,
}
use inquint.Prelude.{◌++◌, get_or, if◌then◌else◌}
use inquint.Temporal.Ltl.{Prop, Props, has_edge_atoms, SafetyConjunct, initial, always_prop}
use inquint.Temporal.Graph
use inquint.Temporal.Graph.{StateGraph, edges_of, trace_to, state_bit, edge_bit}
use inquint.State.Arena.{State}

-- The trace is `none` if the loop that collects it does not end.
pub data SafetyOutcome : Type 0 where
  pass : SafetyOutcome
  violation : (trace : Option (List State)) → SafetyOutcome

-- An edge atom outside an edge panics in the code. `check_safety` asks for none there.
abbrev pub edge_atom : StateGraph → ℕ → Option ℕ → Bool
edge_atom g a none = false
edge_atom g a (some e) = edge_bit g a e

unfoldable mutual
  pub eval_prop : Prop → StateGraph → ℕ → Option ℕ → Bool
  eval_prop Prop.truth g s edge = true
  eval_prop Prop.falsity g s edge = false
  eval_prop (Prop.state_atom i) g s edge = state_bit g i s
  eval_prop (Prop.edge_atom i) g s edge = edge_atom g i edge
  eval_prop (Prop.negation p) g s edge = not (eval_prop p g s edge)
  eval_prop (Prop.conjunction ps) g s edge = eval_all ps g s edge
  eval_prop (Prop.disjunction ps) g s edge = eval_any ps g s edge

  pub eval_all : Props → StateGraph → ℕ → Option ℕ → Bool
  eval_all Props.nil g s edge = true
  eval_all (Props.cons p ps) g s edge = eval_prop p g s edge && eval_all ps g s edge

  pub eval_any : Props → StateGraph → ℕ → Option ℕ → Bool
  eval_any Props.nil g s edge = false
  eval_any (Props.cons p ps) g s edge = eval_prop p g s edge || eval_any ps g s edge

-- A violation returns from the function, and a pass goes on.
infixr 5 ◌and_then◌
abbrev pub ◌and_then◌ : SafetyOutcome → SafetyOutcome → SafetyOutcome
pass and_then r = r
violation t and_then r = violation t

-- The target of edge `e` is pushed behind the trace to its source.
unfoldable pub violation_edge : StateGraph → ℕ → ℕ → SafetyOutcome
violation_edge g s e =
    let t = get_or g.targets e 0 in
    violation
      (elim (trace_to g s) [ none ↦ none | some trace ↦ some (trace ++ Graph.state g t ∷ []) ])

-- `for (e, _) in g.edges_of(s)`
unfoldable pub check_edges : Prop → StateGraph → ℕ → List (ℕ × ℕ) → SafetyOutcome
check_edges p g s [] = pass
check_edges p g s ((e, t) ∷ es) =
    (if eval_prop p g s (some e) then pass else violation_edge g s e) and_then check_edges p g s es

unfoldable pub check_state : Prop → StateGraph → ℕ → SafetyOutcome
check_state p g s = if eval_prop p g s none then pass else violation (trace_to g s)

-- `for s in k..k + n`
unfoldable pub for_states : (ℕ → SafetyOutcome) → ℕ → ℕ → SafetyOutcome
for_states f k zero = pass
for_states f k (suc n) = f k and_then for_states f (suc k) n

unfoldable pub check_initial : SafetyConjunct → StateGraph → SafetyOutcome
check_initial (initial p) g =
    if has_edge_atoms p
    then for_states (λ s. check_edges p g s (edges_of g s)) 0 g.init_count
    else for_states (check_state p g) 0 g.init_count
check_initial (always_prop p) g = pass

unfoldable pub check_initials : List SafetyConjunct → StateGraph → SafetyOutcome
check_initials [] g = pass
check_initials (c ∷ cs) g = check_initial c g and_then check_initials cs g

unfoldable pub check_always : List SafetyConjunct → StateGraph → ℕ → SafetyOutcome
check_always [] g s = pass
check_always (initial p ∷ cs) g s = check_always cs g s
check_always (always_prop p ∷ cs) g s =
    (if has_edge_atoms p then check_edges p g s (edges_of g s) else check_state p g s)
    and_then check_always cs g s

unfoldable pub check_safety : List SafetyConjunct → StateGraph → SafetyOutcome
check_safety cs g = check_initials cs g and_then for_states (check_always cs g) 0 (Graph.len g)
