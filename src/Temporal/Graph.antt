-- ===== src/Temporal/Graph.antt =====
-- `StateGraph` of inquint/src/temporal/graph.rs: the explored states, the edges of each, and the
-- values of the atoms.
use inquint.Prelude.{ℕ, zero, suc, ◌+◌, ◌-◌, Bool, false, Option, List, [], ◌∷◌, get_or}
use inquint.State.Arena
use inquint.State.Arena.{State, StateArena}

pub record StateGraph : Type 0 where
  pub arena : StateArena
  pub init_count : ℕ
  pub offsets : List ℕ
  pub targets : List ℕ
  pub state_bits : List (List Bool)
  pub edge_bits : List (List Bool)

abbrev pub len : StateGraph → ℕ
len g = Arena.len g.arena

unfoldable pub is_empty : StateGraph → Bool
is_empty g = Arena.is_empty g.arena

unfoldable pub state : StateGraph → ℕ → State
state g id = Arena.get g.arena id

-- `(lo..hi).map(|i| (i, targets[i]))`, `n` of them. An index behind the end panics in the code.
abbrev pub edges_from : List ℕ → ℕ → ℕ → List (ℕ × ℕ)
edges_from targets lo zero = []
edges_from targets lo (suc n) = (lo, get_or targets lo 0) ∷ edges_from targets (suc lo) n

-- The pairs of an edge's index and its target.
unfoldable pub edges_of : StateGraph → ℕ → List (ℕ × ℕ)
edges_of g s =
    let lo = get_or g.offsets s 0 in
    let hi = get_or g.offsets (s + 1) 0 in edges_from g.targets lo (hi - lo)

unfoldable pub trace_to : StateGraph → ℕ → Option (List State)
trace_to g id = Arena.trace g.arena id

-- `state_bits[atom][state]` and `edge_bits[atom][edge]`
unfoldable pub state_bit : StateGraph → ℕ → ℕ → Bool
state_bit g atom s = get_or (get_or g.state_bits atom []) s false

unfoldable pub edge_bit : StateGraph → ℕ → ℕ → Bool
edge_bit g atom e = get_or (get_or g.edge_bits atom []) e false
