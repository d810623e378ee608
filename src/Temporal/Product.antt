-- ===== src/Temporal/Product.antt =====
-- inquint/src/temporal/product.rs: the product of the state graph with an automaton.
pub mod Interned
pub mod Adds
pub mod Bounds
pub mod Ids
pub mod Loop
pub mod Seeds
pub mod Paths
pub mod Violations
mod Tests
use inquint.Prelude.{
  ℕ, zero, suc, ◌+◌, ◌*◌, ◌%◌, Bool, true, false, ◌&&◌, Option, none, some, List, [], ◌∷◌, ◌++◌,
  length, get_or, set, ◌==◌, if◌then◌else◌,
}
use inquint.State.Arena.{u32_mod}
use inquint.Temporal.Ltl.{AtomRef, Lit}
use inquint.Temporal.Graph
use inquint.Temporal.Graph.{StateGraph, edges_of, state_bit, edge_bit}
use inquint.Temporal.Buchi.{Gba, n_nodes, bool_eq}

pub record Product : Type 0 where
  pub nodes : List (ℕ × ℕ)
  pub adj : List (List (ℕ × ℕ))
  pub init : List ℕ

unfoldable pub sat_state : StateGraph → ℕ → List Lit → Bool
sat_state g s [] = true
sat_state g s (l ∷ ls) =
    (elim l.atom [ AtomRef.state i ↦ bool_eq (state_bit g i s) l.pos | AtomRef.edge i ↦ true ])
    && sat_state g s ls

unfoldable pub sat_edge : StateGraph → ℕ → List Lit → Bool
sat_edge g e [] = true
sat_edge g e (l ∷ ls) =
    (elim l.atom [ AtomRef.edge i ↦ bool_eq (edge_bit g i e) l.pos | AtomRef.state i ↦ true ])
    && sat_edge g e ls

-- The variables of `build_product`, but for `init`. The map `index` is the inverse of `nodes`, and
-- the end of the vector `worklist` is the front of the list.
pub record Build : Type 0 where
  pub nodes : List (ℕ × ℕ)
  pub adj : List (List (ℕ × ℕ))
  pub worklist : List ℕ

-- `index.get(&(s, q))`
unfoldable pub find_pair : List (ℕ × ℕ) → ℕ → ℕ → Option ℕ
find_pair [] s q = none
find_pair (n ∷ ns) s q =
    let rest = find_pair ns s q in
    if n.0 == s && n.1 == q then some 0 else elim rest [ none ↦ none | some i ↦ some (suc i) ]

-- The closure `intern` of `build_product`, which cuts the id to 32 bits.
unfoldable pub intern_pair : Build → ℕ → ℕ → Build × ℕ
intern_pair b s q = elim (find_pair b.nodes s q) [
  | some id ↦ (b, id)
  | none ↦
      let id = length b.nodes % u32_mod in
      (
        record {
          nodes = b.nodes ++ (s, q) ∷ [];
          adj = b.adj ++ [] ∷ [];
          worklist = id ∷ b.worklist;
        },
        id,
      )
]

-- The loop over the initial nodes of the automaton, for one initial state.
unfoldable pub seed : StateGraph → Gba → ℕ → List ℕ → Build → List ℕ → Build × List ℕ
seed g a s [] b init = (b, init)
seed g a s (q ∷ qs) b init =
    let r = intern_pair b s q in
    if sat_state g s (get_or a.state_lits q [])
    then seed g a s qs r.0 (init ++ r.1 ∷ [])
    else seed g a s qs b init

-- The loop over `n` initial states, from `s` on.
unfoldable pub seed_all : StateGraph → Gba → ℕ → ℕ → Build → List ℕ → Build × List ℕ
seed_all g a s zero b init = (b, init)
seed_all g a s (suc n) b init = let r = seed g a s a.init b init in seed_all g a (s + 1) n r.0 r.1

-- `adj[p].push((tid, e))`
unfoldable pub push_adj : Build → ℕ → ℕ → ℕ → Build
push_adj b p tid e = record b { adj = set b.adj p (get_or b.adj p [] ++ (tid, e) ∷ []) }

-- The loop over the successors of the automaton's node, for one edge of the graph.
unfoldable pub pair_up : StateGraph → Gba → ℕ → ℕ → ℕ → List ℕ → Build → Build
pair_up g a p e t [] b = b
pair_up g a p e t (q ∷ qs) b =
    let r = intern_pair b t q in
    if sat_state g t (get_or a.state_lits q [])
    then pair_up g a p e t qs (push_adj r.0 p r.1 e)
    else pair_up g a p e t qs b

-- The loop over the edges of the graph's state, for the product node `p` with the automaton's `q`.
unfoldable pub pair_edges : StateGraph → Gba → ℕ → ℕ → List (ℕ × ℕ) → Build → Build
pair_edges g a p q [] b = b
pair_edges g a p q ((e, t) ∷ es) b =
    if sat_edge g e (get_or a.edge_lits q [])
    then pair_edges g a p q es (pair_up g a p e t (get_or a.edges q []) b)
    else pair_edges g a p q es b

-- One pop of the worklist is one unit of fuel.
unfoldable pub work : ℕ → StateGraph → Gba → Build → Option Build
work zero g a b = elim b.worklist [ [] ↦ some b | ◌∷◌ p ps ↦ none ]
work (suc fuel) g a b = elim b.worklist [
  | [] ↦ some b
  | ◌∷◌ p ps ↦
      let n = get_or b.nodes p (0, 0) in
      work fuel g a (pair_edges g a p n.1 (edges_of g n.0) (record b { worklist = ps }))
]

-- A pair of a state and a node of the automaton is popped once.
unfoldable pub product_fuel : StateGraph → Gba → ℕ
product_fuel g a = Graph.len g * n_nodes a

unfoldable pub build_product : StateGraph → Gba → Option Product
build_product g a =
    let r = seed_all g a 0 g.init_count (record { nodes = []; adj = []; worklist = [] }) [] in
    elim (work (product_fuel g a) g a r.0) [
      | none ↦ none
      | some b ↦ some (record { nodes = b.nodes; adj = b.adj; init = r.1 })
    ]
