-- ===== src/Temporal/Product/Violations.antt =====
-- The infinite paths of the product of inquint/src/temporal/product.rs, against the property.
use inquint.Prelude.{ℕ, ◌<◌, ◌≤◌, ◌≡◌, ◌↔◌, ◌∈◌, true, some, ok}
use mathlib.Core.Logic.{∥∥₁_prop, ∥∥₁_elim, ∥∥₁_map}
use inquint.Temporal.Ltl.{Ltl, nnf}
use inquint.Temporal.Semantics.{Holds}
use inquint.Temporal.NnfMeaning.{NoEmptyOr}
use inquint.Temporal.Graph
use inquint.Temporal.Graph.{StateGraph, edges_of}
use inquint.Temporal.Safety.Behaviours.{Behaviour, word_of}
use inquint.Temporal.Buchi.{Gba, n_nodes, init_id, build_gba}
use inquint.Temporal.Buchi.Shape.{Shape, build_gba-Shape}
use inquint.Temporal.Buchi.Violations.{violation_language}
use inquint.Temporal.Product.{Product, build_product}
use inquint.Temporal.Product.Interned.{FewPairs}
use inquint.Temporal.Product.Loop.{Complete}
use inquint.Temporal.Product.Seeds.{build_product-Whole}
use inquint.Temporal.Product.Paths.{
  AcceptingPath, path-Behaviour, path-Accepting, run-AcceptingPath,
}

-- The initial states are in the graph, and edges lead to states of the graph.
pub record IsGraph (g : StateGraph) : Type 0 where
  pub inits : g.init_count ≤ Graph.len g
  pub targets : (s e t : ℕ) → (e, t) ∈ edges_of g s → t < Graph.len g

-- The product has an accepting path.
abbrev pub HasAcceptingPath : Gba → Product → Type 0
HasAcceptingPath a p = ∥ ((at : ℕ → ℕ) × ((edge : ℕ → ℕ) × AcceptingPath a p at edge)) ∥₁

-- A path of the graph violates the property.
abbrev pub HasViolation : StateGraph → Ltl → Type 0
HasViolation g f = ∥ ((b : Behaviour g) × (¬ Holds (word_of g b) f 0)) ∥₁

complete : (g : StateGraph) (a : Gba) → IsGraph g → Shape a → FewPairs g a → Complete g a
complete g a ig sh few_pairs = record {
  few = few_pairs;
  inits = ig.inits;
  targets = ig.targets;
  starts = sh.starts;
  nodes = sh.nodes;
}

-- Where no disjunction of a property is empty, the initial states and the targets of the edges are
-- states of the graph, `build_gba` gives an automaton, with at most 2^32 - 1 nodes, for the
-- negated normal form, and there are at most 2^32 pairs of a state and a node, `build_product`
-- ends, and its product has an accepting infinite path iff an infinite path of the graph violates
-- the property.
pub accepting_path_iff :
    (f : Ltl) (a : Gba) (g : StateGraph)
    → NoEmptyOr f
    → IsGraph g
    → build_gba (nnf f true) ≡ ok a
    → n_nodes a ≤ init_id
    → FewPairs g a
    → (p : Product) × ((build_product g a ≡ some p) × (HasAcceptingPath a p ↔ HasViolation g f))
accepting_path_iff f a g h ig built few few_pairs =
    let sh = build_gba-Shape (nnf f true) a built few in
    let cp = complete g a ig sh few_pairs in
    let (p, (e, wh)) = build_product-Whole g a cp in
    (
      p,
      (
        e,
        (
          λ t. ∥∥₁_map t (λ (at, (edge, path)).
              let b = path-Behaviour g a cp sh p wh at edge path in
              (
                b,
                (violation_language f a g b h built few).0
                    ∣ (_, path-Accepting g a cp sh p wh at edge path) ∣₁,
              )),
          λ t. ∥∥₁_elim t ∥∥₁_prop (λ (b, n).
              ∥∥₁_map ((violation_language f a g b h built few).1 n) (λ (r, run).
                let (at, path) = run-AcceptingPath g a cp sh p wh b r run in (at, (b.edge, path)))),
        ),
      ),
    )
