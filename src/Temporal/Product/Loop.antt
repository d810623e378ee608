-- ===== src/Temporal/Product/Loop.antt =====
-- The loops of `build_product` in inquint/src/temporal/product.rs.
use inquint.Prelude.{
  ℕ, zero, suc, ◌+◌, ◌*◌, ◌<◌, ◌≤◌, ◌≡◌, refl, sym, ap, ◌∙◌, subst, inl, inr, ◌⊎◌, List, [], ◌∷◌,
  ◌∈◌, length, get_or, Option, some, arith,
}
use inquint.Temporal.Graph
use inquint.Temporal.Graph.{StateGraph, edges_of}
use inquint.Temporal.Buchi.{Gba, n_nodes}
use inquint.Temporal.Product.{Build, pair_edges, work}
use inquint.Temporal.Product.Interned.{FewPairs, Pair, node, Step, Sound, Grows}
use inquint.Temporal.Product.Adds.{Edge, Edge-mono, pair_edges-Paired}
use inquint.Temporal.Product.Bounds.{length-Sound}

-- The states and the nodes that the graph and the automaton name are there, and their pairs can
-- have ids of 32 bits.
pub record Complete (g : StateGraph) (a : Gba) : Type 0 where
  pub inits : g.init_count ≤ Graph.len g
  pub targets : (s e t : ℕ) → (e, t) ∈ edges_of g s → t < Graph.len g
  pub starts : (q : ℕ) → q ∈ a.init → q < n_nodes a
  pub few : FewPairs g a
  pub nodes : (q q' : ℕ) → q < n_nodes a → q' ∈ get_or a.edges q [] → q' < n_nodes a

module _ (g : StateGraph) (a : Gba) (cp : Complete g a) where
  -- All edges of the node are in the product.
  abbrev pub Done : Build → ℕ → Type 0
  Done b p = (e : ℕ) (m : Pair) → Step g a (node b p) e m → Edge g a b p e m

  abbrev pub Covered : Build → Type 0
  Covered b = (p : ℕ) → p < length b.nodes → (p ∈ b.worklist) ⊎ Done b p

  Done-mono : (b b' : Build) (p : ℕ) → p < length b.nodes → Grows b b' → Done b p → Done b' p
  Done-mono b b' p h gr d e m st =
      Edge-mono g a b b' p e m h gr (d e m (subst (λ x. Step g a x e m) (gr.same_nodes p h) st))

  pub Covered-mono : (b b' : Build) → Grows b b' → Covered b → Covered b'
  Covered-mono b b' gr c p h = elim (gr.listed_or_old p h) [
    | inr m ↦ inl m
    | inl h' ↦ elim (c p h') [
      | inl m ↦ inl (gr.keeps_listed p m)
      | inr d ↦ inr (Done-mono b b' p h' gr d)
    ]
  ]

  -- The nodes stay.
  abbrev pub Stays : Build → Build → Type 0
  Stays b b' =
      (length b.nodes ≤ length b'.nodes) × ((p : ℕ) → p < length b.nodes → node b' p ≡ node b p)

  worklist_cases : (l : List ℕ) → (l ≡ []) ⊎ ((p : ℕ) × ((ps : List ℕ) × (l ≡ p ∷ ps)))
  worklist_cases [] = inl refl
  worklist_cases (p ∷ ps) = inr (p, (ps, refl))

  abbrev pub Finishes : Build → Option Build → Type 0
  Finishes b r =
      (b' : Build) × ((r ≡ some b')
        × (Sound g a b' × (((p : ℕ) → p < length b'.nodes → Done b' p) × Stays b b')))

  -- The node is popped, and its edges are added.
  popped : Build → List ℕ → Build
  popped b ps = record b { worklist = ps }

  popped-Sound :
      (b : Build) (p : ℕ) (ps : List ℕ)
      → b.worklist ≡ p ∷ ps
      → Sound g a b
      → Sound g a (popped b ps)
  unfolding popped
  popped-Sound b p ps e ok_ = record {
    even = ok_.even;
    listed = λ q m. ok_.listed q (subst (λ l. q ∈ l) (sym e) (inr m));
    steps = ok_.steps;
    bounded = ok_.bounded;
    distinct = ok_.distinct;
  }

  abbrev after : Build → ℕ → List ℕ → Build
  after b p ps =
      let n = node b p in pair_edges g a p n.1 (edges_of g n.0) (record b { worklist = ps })

  abbrev Popped : Build → List ℕ → Build → Type 0
  Popped b ps b1 =
      Sound g a b1
      × (Covered b1
          × (Stays b b1 × (length b1.nodes + length ps ≡ length b.nodes + length b1.worklist)))

  after-Popped :
      (b : Build) (p : ℕ) (ps : List ℕ)
      → b.worklist ≡ p ∷ ps
      → Sound g a b
      → Covered b
      → Popped b ps (after b p ps)
  unfolding popped
  after-Popped b p ps e ok_ c =
      let n = node b p in
      let b0 = popped b ps in
      let h : p < length b.nodes = ok_.listed p (subst (λ l. p ∈ l) (sym e) (inl refl)) in
      let (s1, (gr, f)) =
        pair_edges-Paired g a cp.few p n (edges_of g n.0) b0 (popped-Sound b p ps e ok_) h refl
          (λ x m. m)
          (λ q e' t m k. (cp.targets n.0 e' t m, cp.nodes n.1 q (ok_.bounded p h).1 k)) in
      let b1 = after b p ps in
      (
        s1,
        (
          λ p' h'. elim (gr.listed_or_old p' h') [
            | inr m ↦ inl m
            | inl lt ↦ elim (c p' lt) [
              | inl m ↦ elim (subst (λ l. p' ∈ l) e m) [
                | inl same ↦ inr (λ e' m st.
                    subst (λ z. Edge g a b1 z e' m) (sym same)
                      (f e' m
                        (subst (λ x. Step g a x e' m) (gr.same_nodes p' lt ∙ ap (node b) same) st).0
                        (subst (λ x. Step g a x e' m) (gr.same_nodes p' lt ∙ ap (node b) same) st)))
                | inr k ↦ inl (gr.keeps_listed p' k)
              ]
              | inr d ↦ inr (Done-mono b0 b1 p' lt gr d)
            ]
          ],
          ((gr.longer, gr.same_nodes), gr.balance),
        ),
      )

  pub work-Finishes :
      (fuel : ℕ) (b : Build)
      → Sound g a b
      → Covered b
      → Graph.len g * n_nodes a + length b.worklist ≤ fuel + length b.nodes
      → Finishes b (work fuel g a b)
  unfolding work
  work-Finishes zero b ok_ c k = elim (worklist_cases b.worklist) [
    | inl e ↦
        rw (work, e)
          (
            b,
            (
              refl,
              (
                ok_,
                (
                  λ p h. elim (c p h) [ inl m ↦ absurd (subst (λ l. p ∈ l) e m) | inr d ↦ d ],
                  (omega arith, λ p h. refl),
                ),
              ),
            ),
          )
    | inr (p, (ps, e)) ↦ absurd (omega (arith, length-Sound g a b ok_, ap (λ l. length l) e))
  ]
  work-Finishes (suc fuel) b ok_ c k = elim (worklist_cases b.worklist) [
    | inl e ↦
        rw (work, e)
          (
            b,
            (
              refl,
              (
                ok_,
                (
                  λ p h. elim (c p h) [ inl m ↦ absurd (subst (λ l. p ∈ l) e m) | inr d ↦ d ],
                  (omega arith, λ p h. refl),
                ),
              ),
            ),
          )
    | inr (p, (ps, e)) ↦
        let (s1, (c1, ((l1, n1), bal))) = after-Popped b p ps e ok_ c in
        let (b', (e', (s', (d', (l', n'))))) =
          work-Finishes fuel (after b p ps) s1 c1 (omega (arith, bal, ap (λ l. length l) e)) in
        rw (work, e) (b', (e', (s', (d', (omega arith, λ q h. n' q (omega arith) ∙ n1 q h)))))
  ]
