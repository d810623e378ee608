-- ===== src/Temporal/Product/Seeds.antt =====
-- The initial nodes of the product of inquint/src/temporal/product.rs, and the whole product.
use inquint.Prelude.{
  ℕ, zero, suc, ◌+◌, ◌*◌, ◌<◌, ◌≤◌, ◌≡◌, ◌==◌, ==_iff, refl, sym, ◌∙◌, subst, inl, inr, ◌⊎◌, List,
  [], ◌∷◌, ◌++◌, ◌∈◌, mem-snoc, length, get_or, Bool, Bool-cases, true, false, some, arith,
}
use inquint.Temporal.Graph
use inquint.Temporal.Graph.{StateGraph}
use inquint.Temporal.Buchi.{Gba, n_nodes}
use inquint.Temporal.Product.{
  Build, Product, sat_state, intern_pair, seed, seed_all, work, product_fuel, build_product,
}
use inquint.Temporal.Product.Ids.{intern_pair-Interns}
use inquint.Temporal.Product.Interned.{
  Pair, node, Fits, Step, Sound, Grows, Grows-refl, Grows-trans,
}
use inquint.Temporal.Product.Loop.{Complete, Covered-mono, work-Finishes}

module _ (g : StateGraph) (a : Gba) (cp : Complete g a) where
  -- A pair that the product starts at.
  abbrev pub Begins : Pair → Type 0
  Begins n = (n.0 < g.init_count) × ((n.1 ∈ a.init) × Fits g a n)

  abbrev InitOk : Build → List ℕ → Type 0
  InitOk b init = (p : ℕ) → p ∈ init → (p < length b.nodes) × Begins (node b p)

  abbrev Starting : Build → List ℕ → Pair → Type 0
  Starting b init n = (p : ℕ) × ((p ∈ init) × ((p < length b.nodes) × (node b p ≡ n)))

  InitOk-mono : (b b' : Build) (init : List ℕ) → Grows b b' → InitOk b init → InitOk b' init
  InitOk-mono b b' init gr h p m =
      let (lt, s) = h p m in
      let l = gr.longer in (omega arith, subst Begins (sym (gr.same_nodes p lt)) s)

  Starting-mono :
      (b b' : Build) (init init' : List ℕ) (n : Pair)
      → Grows b b'
      → ((p : ℕ) → p ∈ init → p ∈ init')
      → Starting b init n
      → Starting b' init' n
  Starting-mono b b' init init' n gr k (p, (m, (lt, e))) =
      let l = gr.longer in (p, (k p m, (omega arith, gr.same_nodes p lt ∙ e)))

  -- What the loop over nodes of the automaton gives for a state.
  abbrev Seeded : Build → List ℕ → Build × List ℕ → (Pair → Type 0) → Type 0
  Seeded b init r Wanted =
      Sound g a r.0
      × (Grows b r.0
          × (InitOk r.0 r.1
              × (((p : ℕ) → p ∈ init → p ∈ r.1)
                  × ((n : Pair) → Wanted n → Fits g a n → Starting r.0 r.1 n))))

  seed-Seeded :
      (s : ℕ) (qs : List ℕ) (b : Build) (init : List ℕ)
      → s < g.init_count
      → ((q : ℕ) → q ∈ qs → q ∈ a.init)
      → Sound g a b
      → InitOk b init
      → Seeded b init (seed g a s qs b init) (λ n. (n.0 ≡ s) × (n.1 ∈ qs))
  unfolding seed
  seed-Seeded s [] b init lt from ok_ i =
      (ok_, (Grows-refl b, (i, (λ p m. m, λ n (e, k) fits. absurd k))))
  seed-Seeded s (q ∷ qs) b init lt from ok_ i =
      elim (Bool-cases (sat_state g s (get_or a.state_lits q []))) [
        | inr no_ ↦
            let (s', (gr, (i', (k', f)))) =
              seed-Seeded s qs b init lt (λ q' m. from q' (inr m)) ok_ i in
            rw (seed, no_)
              (
                s',
                (
                  gr,
                  (
                    i',
                    (
                      k',
                      λ n (e, k) fits. elim k [
                        | inl same ↦ absurd (
                            clash
                              (subst (λ z. Fits g a (z, q)) e
                                (subst (λ z. Fits g a (n.0, z)) same fits))
                              no_)
                        | inr m ↦ f n (e, m) fits
                      ],
                    ),
                  ),
                ),
              )
        | inl yes_ ↦
            let il = cp.inits in
            let r = intern_pair b s q in
            let (s1, (g1, (l1, n1))) =
              intern_pair-Interns g a cp.few b s q ok_
                (omega arith, cp.starts q (from q (inl refl))) in
            let init1 = init ++ r.1 ∷ [] in
            let i1 : InitOk r.0 init1 = λ p m. elim ((mem-snoc p init r.1).0 m) [
              | inl m' ↦ InitOk-mono b r.0 init g1 i p m'
              | inr e ↦
                  subst (λ z. (z < length r.0.nodes) × Begins (node r.0 z)) (sym e)
                    (l1, subst Begins (sym n1) (lt, (from q (inl refl), yes_)))
            ] in
            let (s', (gr, (i', (k', f)))) =
              seed-Seeded s qs r.0 init1 lt (λ q' m. from q' (inr m)) s1 i1 in
            let r' = seed g a s qs r.0 init1 in
            rw (seed, yes_)
              (
                s',
                (
                  Grows-trans b r.0 r'.0 g1 gr,
                  (
                    i',
                    (
                      λ p m. k' p ((mem-snoc p init r.1).1 (inl m)),
                      λ n (e, k) fits. elim k [
                        | inl same ↦
                            let here : Starting r'.0 r'.1 (s, q) =
                              Starting-mono r.0 r'.0 init1 r'.1 (s, q) gr k'
                                (r.1, ((mem-snoc r.1 init r.1).1 (inr refl), (l1, n1))) in
                            subst (λ z. Starting r'.0 r'.1 (z, n.1)) (sym e)
                              (subst (λ z. Starting r'.0 r'.1 (s, z)) (sym same) here)
                        | inr m ↦ f n (e, m) fits
                      ],
                    ),
                  ),
                ),
              )
      ]
    where
      clash : {x : Bool} → x ≡ true → x ≡ false → ⊥
      clash h k = ground arith

  seed_all-Seeded :
      (n s : ℕ) (b : Build) (init : List ℕ)
      → s + n ≤ g.init_count
      → Sound g a b
      → InitOk b init
      → Seeded b init (seed_all g a s n b init) (λ x. (s ≤ x.0) × ((x.0 < s + n) × (x.1 ∈ a.init)))
  unfolding seed_all
  seed_all-Seeded zero s b init h ok_ i =
      (ok_, (Grows-refl b, (i, (λ p m. m, λ x (l, (l', k)) fits. absurd (omega arith)))))
  seed_all-Seeded (suc n) s b init h ok_ i =
      let r = seed g a s a.init b init in
      let (s1, (g1, (i1, (k1, f1)))) = seed-Seeded s a.init b init (omega arith) (λ q m. m) ok_ i in
      let (s', (gr, (i', (k', f)))) = seed_all-Seeded n (s + 1) r.0 r.1 (omega arith) s1 i1 in
      let r' = seed_all g a (s + 1) n r.0 r.1 in
      (
        s',
        (
          Grows-trans b r.0 r'.0 g1 gr,
          (
            i',
            (
              λ p m. k' p (k1 p m),
              λ x (l, (l', k)) fits. elim (split s x.0 n l l') [
                | inl e ↦ Starting-mono r.0 r'.0 r.1 r'.1 x gr k' (f1 x (e, k) fits)
                | inr above ↦ f x (above, (omega arith, k)) fits
              ],
            ),
          ),
        ),
      )
    where
      split : (s x n : ℕ) → s ≤ x → x < s + suc n → (x ≡ s) ⊎ (s + 1 ≤ x)
      split s x n l h = elim (Bool-cases (x == s)) [
        | inl e ↦ inl ((==_iff x s).0 e)
        | inr e ↦ inr (ground (arith, ==_iff x s))
      ]

  -- The product has the nodes that it starts at, and all edges of its nodes, and no others.
  pub record Whole (p : Product) : Type 0 where
    pub starts_at : (k : ℕ) → k ∈ p.init → (k < length p.nodes) × Begins (get_or p.nodes k (0, 0))
    pub all_starts :
        (n : Pair)
        → Begins n
        → (k : ℕ) × ((k ∈ p.init) × ((k < length p.nodes) × (get_or p.nodes k (0, 0) ≡ n)))
    pub edges :
        (k t e : ℕ)
        → k < length p.nodes
        → (t, e) ∈ get_or p.adj k []
        → (t < length p.nodes) × Step g a (get_or p.nodes k (0, 0)) e (get_or p.nodes t (0, 0))
    pub all_edges :
        (k e : ℕ) (n : Pair)
        → k < length p.nodes
        → Step g a (get_or p.nodes k (0, 0)) e n
        → (t : ℕ) × ((t < length p.nodes)
            × ((get_or p.nodes t (0, 0) ≡ n) × ((t, e) ∈ get_or p.adj k [])))

  pub build_product-Whole : (p : Product) × ((build_product g a ≡ some p) × Whole p)
  unfolding build_product product_fuel
  build_product-Whole =
      let b0 : Build = record { nodes = []; adj = []; worklist = [] } in
      let none_ : Sound g a b0 = record {
        even = refl;
        listed = λ p m. absurd m;
        steps = λ p t e h m. absurd (omega arith);
        bounded = λ p h. absurd (omega arith);
        distinct = λ p q lt h e. omega arith;
      } in
      let r = seed_all g a 0 g.init_count b0 [] in
      let (s1, (g1, (i1, (k1, f1)))) =
        seed_all-Seeded g.init_count 0 b0 [] (omega arith) none_ (λ p m. absurd m) in
      let bal = g1.balance in
      let (b, (e, (s2, (d, (l, n))))) =
        work-Finishes g a cp (Graph.len g * n_nodes a) r.0 s1
          (Covered-mono g a cp b0 r.0 g1 (λ p h. absurd (omega arith))) (omega arith) in
      (
        record { nodes = b.nodes; adj = b.adj; init = r.1 },
        (
          built b e,
          record {
            starts_at =
                λ k m. let (lt, bg) = i1 k m in (omega arith, subst Begins (sym (n k lt)) bg);
            all_starts = λ x (lt, (k, fits)).
                let (p, (m, (lt', eq))) = f1 x (omega arith, (omega arith, k)) fits in
                (p, (m, (omega arith, n p lt' ∙ eq)));
            edges = s2.steps;
            all_edges =
                λ k e' m lt st. let (t, (lt', (eq, i))) = d k lt e' m st in (t, (lt', (eq, i)));
          },
        ),
      )
    where
      empty : Build
      empty = record { nodes = []; adj = []; worklist = [] }

      seeded : Build × List ℕ
      seeded = seed_all g a 0 g.init_count empty []

      whole : Build → Product
      whole b = record { nodes = b.nodes; adj = b.adj; init = seeded.1 }

      built :
          (b : Build)
          → work (Graph.len g * n_nodes a) g a seeded.0 ≡ some b
          → build_product g a ≡ some (whole b)
      built b e = rw (build_product, e) refl
