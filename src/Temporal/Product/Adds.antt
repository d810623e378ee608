-- ===== src/Temporal/Product/Adds.antt =====
-- What a popped node of the product of inquint/src/temporal/product.rs adds.
use inquint.Prelude.{
  ℕ, ◌<◌, ◌≡◌, ◌≢◌, refl, sym, ap, ◌∙◌, subst, inl, inr, ◌⊎◌, List, [], ◌∷◌, ◌++◌, ◌∈◌,
  mem_append_left, mem-snoc, length, get_or, Bool, Bool-cases, true, false, arith,
}
use inquint.Temporal.Graph.{StateGraph, edges_of}
use inquint.Temporal.Buchi.{Gba}
use inquint.Temporal.Buchi.Edges.{length-set, get_or-set}
use inquint.Temporal.Product.{
  Build, sat_state, sat_edge, intern_pair, push_adj, pair_up, pair_edges,
}
use inquint.Temporal.Product.Ids.{intern_pair-Interns}
use inquint.Temporal.Product.Interned.{
  FewPairs, Pair, node, adj_of, Fits, Step, Bounded, Sound, Grows, Grows-refl, Grows-trans,
}

module _ (g : StateGraph) (a : Gba) where
  -- The edge is in the product, to the pair.
  abbrev pub Edge : Build → ℕ → ℕ → Pair → Type 0
  Edge b p e m = (k : ℕ) × ((k < length b.nodes) × ((node b k ≡ m) × ((k, e) ∈ adj_of b p)))

  pub Edge-mono :
      (b b' : Build) (p e : ℕ) (m : Pair)
      → p < length b.nodes
      → Grows b b'
      → Edge b p e m
      → Edge b' p e m
  Edge-mono b b' p e m h gr (k, (l, (eq, i))) =
      let longer = gr.longer in (k, (omega arith, (gr.same_nodes k l ∙ eq, gr.keeps p (k, e) h i)))

  module _ (b : Build) (p tid e : ℕ) (ok_ : Sound g a b) (h : p < length b.nodes)
      (h' : tid < length b.nodes) where
    adj_after :
        (p' : ℕ)
        → p' < length b.nodes
        → ((p' ≡ p) × (adj_of (push_adj b p tid e) p' ≡ adj_of b p ++ (tid, e) ∷ []))
          ⊎ ((p' ≢ p) × (adj_of (push_adj b p tid e) p' ≡ adj_of b p'))
    unfolding push_adj
    adj_after p' lt =
        let ev = ok_.even in get_or-set b.adj p p' (adj_of b p ++ (tid, e) ∷ []) (omega arith)

    push_adj-Grows : Grows b (push_adj b p tid e)
    unfolding push_adj
    push_adj-Grows = record {
      longer = omega arith;
      same_nodes = λ p' lt. refl;
      keeps = λ p' x lt m. elim (adj_after p' lt) [
        | inl (eq, ad) ↦
            subst (λ l. x ∈ l) (sym ad)
              (mem_append_left x (adj_of b p) ((tid, e) ∷ []) (subst (λ k. x ∈ adj_of b k) eq m))
        | inr (ne, ad) ↦ subst (λ l. x ∈ l) (sym ad) m
      ];
      listed_or_old = λ p' lt. inl lt;
      keeps_listed = λ p' m. m;
      balance = refl;
    }

    push_adj-Sound : Step g a (node b p) e (node b tid) → Sound g a (push_adj b p tid e)
    unfolding push_adj
    push_adj-Sound st = record {
      even = length-set b.adj p (adj_of b p ++ (tid, e) ∷ []) ∙ ok_.even;
      listed = ok_.listed;
      steps = λ p' t e' lt m. elim (adj_after p' lt) [
        | inl (eq, ad) ↦
            elim ((mem-snoc (t, e') (adj_of b p) (tid, e)).0 (subst (λ l. (t, e') ∈ l) ad m)) [
              | inl m' ↦ ok_.steps p' t e' lt (subst (λ k. (t, e') ∈ adj_of b k) (sym eq) m')
              | inr same ↦ (
                subst (λ k. k < length b.nodes) (sym (ap (λ x. x.0) same)) h',
                subst (λ (x : Pair). Step g a (node b p') x.1 (node b x.0)) (sym same)
                    (subst (λ k. Step g a (node b k) e (node b tid)) (sym eq) st),
              )
            ]
        | inr (ne, ad) ↦ ok_.steps p' t e' lt (subst (λ l. (t, e') ∈ l) ad m)
      ];
      bounded = ok_.bounded;
      distinct = ok_.distinct;
    }

    push_adj-Edge : Edge (push_adj b p tid e) p e (node b tid)
    unfolding push_adj
    push_adj-Edge = elim (adj_after p h) [
      | inl (eq, ad) ↦ (
        tid,
        (
          h',
          (
            refl,
            subst (λ l. (tid, e) ∈ l) (sym ad)
                ((mem-snoc (tid, e) (adj_of b p) (tid, e)).1 (inr refl)),
          ),
        ),
      )
      | inr (ne, ad) ↦ absurd (ne refl)
    ]

  -- The node `p` has edges for the successors in `qs`, with the edge of the graph.
  abbrev pub Paired : ℕ → ℕ → ℕ → List ℕ → Build → Build → Type 0
  Paired p e t qs b b' =
      Sound g a b' × (Grows b b' × ((q : ℕ) → q ∈ qs → Fits g a (t, q) → Edge b' p e (t, q)))

  pub pair_up-Paired :
      FewPairs g a
      → (p e t : ℕ) (qs : List ℕ) (b : Build) (n : Pair) → Sound g a b
      → p < length b.nodes
      → node b p ≡ n
      → (e, t) ∈ edges_of g n.0
      → sat_edge g e (get_or a.edge_lits n.1 []) ≡ true
      → ((q : ℕ) → q ∈ qs → (q ∈ get_or a.edges n.1 []) × Bounded g a (t, q))
      → Paired p e t qs b (pair_up g a p e t qs b)
  unfolding pair_up
  pair_up-Paired few p e t [] b n ok_ h eq m sat from = (ok_, (Grows-refl b, λ q k. absurd k))
  pair_up-Paired few p e t (q ∷ qs) b n ok_ h eq m sat from =
      elim (Bool-cases (sat_state g t (get_or a.state_lits q []))) [
        | inr no_ ↦
            let (s', (gr, f)) =
              pair_up-Paired few p e t qs b n ok_ h eq m sat (λ q' k. from q' (inr k)) in
            rw (pair_up, no_)
              (
                s',
                (
                  gr,
                  λ q' k fits. elim k [
                    | inl same ↦ absurd (clash (subst (λ z. Fits g a (t, z)) same fits) no_)
                    | inr k' ↦ f q' k' fits
                  ],
                ),
              )
        | inl yes_ ↦
            let (edge, bd) = from q (inl refl) in
            let r = intern_pair b t q in
            let (s1, (g1, (l1, n1))) = intern_pair-Interns g a few b t q ok_ bd in
            let longer = g1.longer in
            let h1 : p < length r.0.nodes = omega arith in
            let same : node r.0 p ≡ n = g1.same_nodes p h ∙ eq in
            let st : Step g a (node r.0 p) e (node r.0 r.1) =
              subst (λ x. Step g a x e (node r.0 r.1)) (sym same)
                (subst (Step g a n e) (sym n1) (m, (sat, (edge, yes_)))) in
            let b2 = push_adj r.0 p r.1 e in
            let g2 = push_adj-Grows r.0 p r.1 e s1 h1 l1 in
            let longer2 = g2.longer in
            let (s', (gr, f)) =
              pair_up-Paired few p e t qs b2 n (push_adj-Sound r.0 p r.1 e s1 h1 l1 st)
                (omega arith) (g2.same_nodes p h1 ∙ same) m sat (λ q' k. from q' (inr k)) in
            rw (pair_up, yes_)
              (
                s',
                (
                  Grows-trans b r.0 _ g1 (Grows-trans r.0 b2 _ g2 gr),
                  λ q' k fits. elim k [
                    | inl same' ↦
                        subst (λ z. Edge (pair_up g a p e t qs b2) p e (t, z)) (sym same')
                          (subst (Edge (pair_up g a p e t qs b2) p e) n1 (
                            Edge-mono b2 (pair_up g a p e t qs b2) p e (node r.0 r.1) (omega arith)
                              gr (push_adj-Edge r.0 p r.1 e s1 h1 l1)))
                    | inr k' ↦ f q' k' fits
                  ],
                ),
              )
      ]
    where
      clash : {x : Bool} → x ≡ true → x ≡ false → ⊥
      clash h k = ground arith

  pub pair_edges-Paired :
      FewPairs g a
      → (p : ℕ) (n : Pair) (es : List (ℕ × ℕ)) (b : Build) → Sound g a b
      → p < length b.nodes
      → node b p ≡ n
      → ((x : Pair) → x ∈ es → x ∈ edges_of g n.0)
      → ((q e t : ℕ) → (e, t) ∈ edges_of g n.0 → q ∈ get_or a.edges n.1 [] → Bounded g a (t, q))
      → let b' = pair_edges g a p n.1 es b in
        Sound g a b'
        × (Grows b b' × ((e : ℕ) (m : Pair) → (e, m.0) ∈ es → Step g a n e m → Edge b' p e m))
  unfolding pair_edges
  pair_edges-Paired few p n [] b ok_ h eq from bd = (ok_, (Grows-refl b, λ e m k. absurd k))
  pair_edges-Paired few p n ((e, t) ∷ es) b ok_ h eq from bd =
      elim (Bool-cases (sat_edge g e (get_or a.edge_lits n.1 []))) [
        | inr no_ ↦
            let (s', (gr, f)) =
              pair_edges-Paired few p n es b ok_ h eq (λ x k. from x (inr k)) bd in
            rw (pair_edges, no_)
              (
                s',
                (
                  gr,
                  λ e' m k st. elim k [
                    | inl same ↦ absurd (
                        clash
                          (subst (λ z. sat_edge g z (get_or a.edge_lits n.1 []) ≡ true)
                            (ap (λ x. x.0) same) st.1.0)
                          no_)
                    | inr k' ↦ f e' m k' st
                  ],
                ),
              )
        | inl yes_ ↦
            let qs = get_or a.edges n.1 [] in
            let b1 = pair_up g a p e t qs b in
            let (s1, (g1, f1)) =
              pair_up-Paired few p e t qs b n ok_ h eq (from (e, t) (inl refl)) yes_
                (λ q k. (k, bd q e t (from (e, t) (inl refl)) k)) in
            let longer = g1.longer in
            let (s', (gr, f)) =
              pair_edges-Paired few p n es b1 s1 (omega arith) (g1.same_nodes p h ∙ eq)
                (λ x k. from x (inr k)) bd in
            rw (pair_edges, yes_)
              (
                s',
                (
                  Grows-trans b b1 _ g1 gr,
                  λ e' m k st. elim k [
                    | inl same ↦
                        let here =
                          f1 m.1 st.1.1.0
                            (subst (λ z. Fits g a (z, m.1)) (ap (λ x. x.1) same) st.1.1.1) in
                        subst (λ (x : Pair). Edge (pair_edges g a p n.1 es b1) p x.0 (x.1, m.1))
                          (sym same)
                          (Edge-mono b1 (pair_edges g a p n.1 es b1) p e (t, m.1) (omega arith) gr
                            here)
                    | inr k' ↦ f e' m k' st
                  ],
                ),
              )
      ]
    where
      clash : {x : Bool} → x ≡ true → x ≡ false → ⊥
      clash h k = ground arith
