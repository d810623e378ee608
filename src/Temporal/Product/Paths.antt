-- ===== src/Temporal/Product/Paths.antt =====
-- The infinite paths of the product of inquint/src/temporal/product.rs.
use inquint.Prelude.{
  ℕ, zero, suc, ◌+◌, ◌<◌, ◌≡◌, ◌↔◌, refl, sym, ap, subst, List, [], ◌∷◌, ◌∈◌, length, get_or, Bool,
  true, false, ◌&&◌, arith,
}
use mathlib.Core.Logic.{∥∥₁_map}
use inquint.Temporal.Ltl.{AtomRef, Lit}
use inquint.Temporal.Semantics.{LitsHold, atom_at}
use inquint.Temporal.Graph
use inquint.Temporal.Graph.{StateGraph, edges_of, state_bit, edge_bit}
use inquint.Temporal.Safety.Behaviours.{Behaviour, word_of}
use inquint.Temporal.Buchi.{Gba, bool_eq}
use inquint.Temporal.Buchi.Accepting.{Accepting}
use inquint.Temporal.Buchi.Shape.{Shape, IsState, IsEdge, AllAtoms}
use inquint.Temporal.Product.{Product, sat_state, sat_edge}
use inquint.Temporal.Product.Interned.{Pair, Fits, Step}
use inquint.Temporal.Product.Loop.{Complete}
use inquint.Temporal.Product.Seeds.{Whole}

-- An infinite path through the product, with the edge of the graph at each step, that is in each
-- acceptance set of the automaton again and again.
pub record AcceptingPath (a : Gba) (p : Product) (at edge : ℕ → ℕ) : Type 0 where
  pub starts : at 0 ∈ p.init
  pub steps : (i : ℕ) → (at (suc i), edge i) ∈ get_or p.adj (at i) []
  pub accepts :
      (s : List Bool)
      → s ∈ a.acc_sets
      → (i : ℕ) → ∥ ((k : ℕ) × (get_or s (get_or p.nodes (at (i + k)) (0, 0)).1 false ≡ true)) ∥₁

module _ (g : StateGraph) (b : Behaviour g) (i : ℕ) where
  bool_eq_iff : (x y : Bool) → (bool_eq x y ≡ true) ↔ (x ≡ y)
  bool_eq_iff true y = (sym, sym)
  bool_eq_iff false true = ground arith
  bool_eq_iff false false = ground arith

  and_iff : (x y : Bool) → (x && y ≡ true) ↔ ((x ≡ true) × (y ≡ true))
  and_iff x y = ground arith

  state_lit :
      (l : Lit) (x : AtomRef)
      → IsState x
      → ((elim x [
        | AtomRef.state j ↦ bool_eq (state_bit g j (b.at i)) l.pos
        | AtomRef.edge j ↦ true
      ])
          ≡ true)
        ↔ (atom_at (word_of g b) x i ≡ l.pos)
  unfolding atom_at
  state_lit l (AtomRef.state j) h = bool_eq_iff (state_bit g j (b.at i)) l.pos
  state_lit l (AtomRef.edge j) h = absurd h

  edge_lit :
      (l : Lit) (x : AtomRef)
      → IsEdge x
      → ((elim x [
        | AtomRef.edge j ↦ bool_eq (edge_bit g j (b.edge i)) l.pos
        | AtomRef.state j ↦ true
      ])
          ≡ true)
        ↔ (atom_at (word_of g b) x i ≡ l.pos)
  unfolding atom_at
  edge_lit l (AtomRef.state j) h = absurd h
  edge_lit l (AtomRef.edge j) h = bool_eq_iff (edge_bit g j (b.edge i)) l.pos

  pub sat_state_iff :
      (ls : List Lit)
      → AllAtoms IsState ls
      → (sat_state g (b.at i) ls ≡ true) ↔ LitsHold (word_of g b) i ls
  unfolding sat_state
  sat_state_iff [] h = (λ e. tt, λ t. refl)
  sat_state_iff (l ∷ ls) (h, hs) =
      let (f, k) = state_lit l l.atom h in
      let (f', k') = sat_state_iff ls hs in
      let (u, v) =
        and_iff
          (elim l.atom [
            | AtomRef.state j ↦ bool_eq (state_bit g j (b.at i)) l.pos
            | AtomRef.edge j ↦ true
          ])
          (sat_state g (b.at i) ls) in
      (λ e. let (x, y) = u e in (f x, f' y), λ (x, y). v (k x, k' y))

  pub sat_edge_iff :
      (ls : List Lit)
      → AllAtoms IsEdge ls
      → (sat_edge g (b.edge i) ls ≡ true) ↔ LitsHold (word_of g b) i ls
  unfolding sat_edge
  sat_edge_iff [] h = (λ e. tt, λ t. refl)
  sat_edge_iff (l ∷ ls) (h, hs) =
      let (f, k) = edge_lit l l.atom h in
      let (f', k') = sat_edge_iff ls hs in
      let (u, v) =
        and_iff
          (elim l.atom [
            | AtomRef.edge j ↦ bool_eq (edge_bit g j (b.edge i)) l.pos
            | AtomRef.state j ↦ true
          ])
          (sat_edge g (b.edge i) ls) in
      (λ e. let (x, y) = u e in (f x, f' y), λ (x, y). v (k x, k' y))

module _ (g : StateGraph) (a : Gba) (cp : Complete g a) (sh : Shape a) (p : Product)
    (wh : Whole g a cp p) where
  abbrev pub node_of : ℕ → Pair
  node_of k = get_or p.nodes k (0, 0)

  plus_one : (i : ℕ) → suc i ≡ i + 1
  plus_one i = omega arith

  -- The path in the graph and the run of the automaton that a path in the product is made of.
  module _ (at edge : ℕ → ℕ) (path : AcceptingPath a p at edge) where
    inside : (i : ℕ) → at i < length p.nodes
    inside zero = (wh.starts_at (at 0) path.starts).0
    inside (suc i) = (wh.edges (at i) (at (suc i)) (edge i) (inside i) (path.steps i)).0

    step_at : (i : ℕ) → Step g a (node_of (at i)) (edge i) (node_of (at (suc i)))
    step_at i = (wh.edges (at i) (at (suc i)) (edge i) (inside i) (path.steps i)).1

    Fits-at : (i : ℕ) → Fits g a (node_of (at i))
    Fits-at zero = (wh.starts_at (at 0) path.starts).1.1.1
    Fits-at (suc i) = (step_at i).1.1.1

    stays_at : (i : ℕ) → (node_of (at i)).0 < Graph.len g
    stays_at zero =
        let lt = (wh.starts_at (at 0) path.starts).1.0 in let l = cp.inits in omega arith
    stays_at (suc i) = cp.targets (node_of (at i)).0 (edge i) (node_of (at (suc i))).0 (step_at i).0

    pub path-Behaviour : Behaviour g
    path-Behaviour = record {
      at = λ i. (node_of (at i)).0;
      edge = edge;
      starts = (wh.starts_at (at 0) path.starts).1.0;
      stays = stays_at;
      steps = λ i.
          subst (λ j. (edge i, (node_of (at j)).0) ∈ edges_of g (node_of (at i)).0) (plus_one i)
            (step_at i).0;
    }

    pub path-Accepting : Accepting a (word_of g path-Behaviour) (λ i. (node_of (at i)).1)
    unfolding path-Behaviour
    path-Accepting = record {
      starts = (wh.starts_at (at 0) path.starts).1.1.0;
      steps = λ i. (step_at i).1.1.0;
      states = λ i.
          (sat_state_iff g path-Behaviour i (get_or a.state_lits (node_of (at i)).1 [])
              (sh.state_only (node_of (at i)).1)).0
            (Fits-at i);
      leaves = λ i.
          (sat_edge_iff g path-Behaviour i (get_or a.edge_lits (node_of (at i)).1 [])
              (sh.edge_only (node_of (at i)).1)).0
            (step_at i).1.0;
      accepts = path.accepts;
    }

  -- The path in the product of a path in the graph with a run of the automaton.
  module _ (b : Behaviour g) (r : ℕ → ℕ) (run : Accepting a (word_of g b) r) where
    fits : (i : ℕ) → Fits g a (b.at i, r i)
    fits i =
        (sat_state_iff g b i (get_or a.state_lits (r i) []) (sh.state_only (r i))).1 (run.states i)

    steps : (i : ℕ) → Step g a (b.at i, r i) (b.edge i) (b.at (suc i), r (suc i))
    steps i = (
      subst (λ j. (b.edge i, b.at j) ∈ edges_of g (b.at i)) (sym (plus_one i)) (b.steps i),
      (
        (sat_edge_iff g b i (get_or a.edge_lits (r i) []) (sh.edge_only (r i))).1 (run.leaves i),
        (run.steps i, fits (suc i)),
      ),
    )

    abbrev Stop : ℕ → Type 0
    Stop i = (k : ℕ) × ((k < length p.nodes) × (node_of k ≡ (b.at i, r i)))

    next_stop :
        (i : ℕ) (s : Stop i)
        → (k : ℕ) × ((k < length p.nodes)
            × ((node_of k ≡ (b.at (suc i), r (suc i))) × ((k, b.edge i) ∈ get_or p.adj s.0 [])))
    next_stop i (k, (lt, e)) =
        wh.all_edges k (b.edge i) (b.at (suc i), r (suc i)) lt
          (subst (λ x. Step g a x (b.edge i) (b.at (suc i), r (suc i))) (sym e) (steps i))

    first_stop : (k : ℕ) × ((k ∈ p.init) × ((k < length p.nodes) × (node_of k ≡ (b.at 0, r 0))))
    first_stop = wh.all_starts (b.at 0, r 0) (b.starts, (run.starts, fits 0))

    stop : (i : ℕ) → Stop i
    stop zero = let (k, (m, s)) = first_stop in (k, s)
    stop (suc i) = let (k, (lt, (e, m))) = next_stop i (stop i) in (k, (lt, e))

    pub run-AcceptingPath : (at : ℕ → ℕ) × AcceptingPath a p at b.edge
    unfolding stop
    run-AcceptingPath = (
      λ i. (stop i).0,
      record {
        starts = first_stop.1.0;
        steps = λ i. (next_stop i (stop i)).1.1.1;
        accepts = λ s m i. ∥∥₁_map (run.accepts s m i) (λ (k, e).
            (k, subst (λ x. get_or s x false ≡ true) (sym (ap (λ x. x.1) (stop (i + k)).1.1)) e));
      },
    )
