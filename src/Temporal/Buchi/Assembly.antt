-- ===== src/Temporal/Buchi/Assembly.antt =====
-- The runs of the automaton that `build_gba` in inquint/src/temporal/buchi.rs assembles are those of
-- the nodes.
use inquint.Prelude.{
  ℕ, zero, suc, ◌+◌, ◌<◌, ◌≤◌, ◌≡◌, ◌↔◌, refl, sym, ap, ◌∙◌, subst, inl, inr, ◌⊎◌, List, [], ◌∷◌,
  ◌∈◌, map, length, get_or, Bool, true, false, some, arith,
}
use mathlib.Core.Logic.{∥∥₁_map}
use inquint.Temporal.Ltl.{Nnf}
use inquint.Temporal.Semantics.{Word, LitsHold}
use inquint.Temporal.Buchi.{
  Node, Builder, Gba, find_id, init_id, connect, acc_set, all_true, or_all, state_lits_of,
  edge_lits_of,
}
use inquint.Temporal.Buchi.Growth.{node_at}
use inquint.Temporal.Buchi.Runs.{NodeRun}
use inquint.Temporal.Buchi.Edges.{Into, connect-init, connect-edge}
use inquint.Temporal.Buchi.Labels.{length-map, get_or-map, lits_iff, acc_set_iff, SetsOk}
use inquint.Temporal.Buchi.Accepting.{Accepting}

abbrev pub gba_of : Builder → List (List Bool) → Gba
gba_of b sets =
    let r = connect 0 b.nodes [] (map (λ d. []) b.nodes) in
    record {
      init = r.0;
      edges = r.1;
      state_lits = map (λ d. state_lits_of b.formulas d.old) b.nodes;
      edge_lits = map (λ d. edge_lits_of b.formulas d.old) b.nodes;
      acc_sets = or_all (length b.nodes) sets;
    }

-- No edge before the first node is treated.
no_edges-get :
    (ns : List Node) (s : ℕ) → get_or (map {A = Node} {B = List ℕ} (λ d. []) ns) s [] ≡ []
no_edges-get [] s = refl
no_edges-get (d ∷ ns) zero = refl
no_edges-get (d ∷ ns) (suc s) = no_edges-get ns s

all_true-get : (n q : ℕ) → q < n → get_or (all_true n) q false ≡ true
unfolding all_true
all_true-get zero q h = absurd (omega arith)
all_true-get (suc n) zero h = refl
all_true-get (suc n) (suc q) h = all_true-get n q (omega arith)

in_or_all : (n : ℕ) (sets : List (List Bool)) (s : List Bool) → s ∈ sets → s ∈ or_all n sets
unfolding or_all
in_or_all n [] s m = absurd m
in_or_all n (t ∷ sets) s m = m

of_or_all :
    (n : ℕ) (sets : List (List Bool)) (s : List Bool)
    → s ∈ or_all n sets
    → (s ≡ all_true n) ⊎ (s ∈ sets)
unfolding or_all
of_or_all n [] s (inl e) = inl e
of_or_all n [] s (inr m) = absurd m
of_or_all n (t ∷ sets) s m = inr m

zero_plus : (x : ℕ) → 0 + x ≡ x
zero_plus x = omega arith

module _ (b : Builder) (sets : List (List Bool)) (sets_ok : SetsOk b 0 b.formulas sets)
    (few : length b.nodes ≤ init_id) where
  same_id :
      (c : Nnf) (p q : ℕ) → find_id b.formulas c ≡ some p → find_id b.formulas c ≡ some q → p ≡ q
  same_id c p q e f = ground arith

  abbrev pub Source : ℕ → ℕ → Type 0
  Source s x = (x < length b.nodes) × (s ∈ (node_at b.nodes x).incoming)

  Into-iff : (s x : ℕ) → Into 0 b.nodes s x ↔ Source s x
  Into-iff s x = (
    λ (k, (h, (e, m))).
        let e' : k ≡ x = omega (arith, e) in
        (omega (arith, e), subst (λ z. s ∈ (node_at b.nodes z).incoming) e' m),
    λ (h, m). (x, (h, (omega arith, m))),
  )

  pub init_iff : (x : ℕ) → (x ∈ (gba_of b sets).init) ↔ Source init_id x
  init_iff x =
      let (f, g) = connect-init 0 b.nodes [] (map (λ d. []) b.nodes) x in
      (
        λ m. elim (f m) [ inl n ↦ absurd n | inr i ↦ (Into-iff init_id x).0 i ],
        λ i. g (inr ((Into-iff init_id x).1 i)),
      )

  pub edge_iff :
      (s x : ℕ) → s < length b.nodes → (x ∈ get_or (gba_of b sets).edges s []) ↔ Source s x
  edge_iff s x h =
      let (f, g) =
        connect-edge 0 b.nodes [] (map (λ d. []) b.nodes) s x
          (omega (arith, length-map {B = List ℕ} (λ d. []) b.nodes)) (λ e. omega (arith, e)) in
      (
        λ m. elim (f m) [
          | inl n ↦ absurd (subst (λ l. x ∈ l) (no_edges-get b.nodes s) n)
          | inr i ↦ (Into-iff s x).0 i
        ],
        λ i. g (inr ((Into-iff s x).1 i)),
      )

  module _ (w : Word) (r : ℕ → ℕ) where
    visits : Accepting (gba_of b sets) w r → (i : ℕ) → r i < length b.nodes
    visits a zero = ((init_iff (r 0)).0 a.starts).0
    visits a (suc i) = ((edge_iff (r i) (r (suc i)) (visits a i)).0 (a.steps i)).0

    state_lits_at :
        (q : ℕ)
        → q < length b.nodes
        → get_or (gba_of b sets).state_lits q [] ≡ state_lits_of b.formulas (node_at b.nodes q).old
    state_lits_at q h = get_or-map (λ d. state_lits_of b.formulas d.old) b.nodes q [] h

    edge_lits_at :
        (q : ℕ)
        → q < length b.nodes
        → get_or (gba_of b sets).edge_lits q [] ≡ edge_lits_of b.formulas (node_at b.nodes q).old
    edge_lits_at q h = get_or-map (λ d. edge_lits_of b.formulas d.old) b.nodes q [] h

    mem-or_all : (s : List Bool) → s ∈ sets → s ∈ (gba_of b sets).acc_sets
    mem-or_all s m = in_or_all (length b.nodes) sets s m

    pub Accepting-NodeRun : Accepting (gba_of b sets) w r → NodeRun b w r
    Accepting-NodeRun a = record {
      within = visits a;
      starts = ((init_iff (r 0)).0 a.starts).1;
      steps = λ i. ((edge_iff (r i) (r (suc i)) (visits a i)).0 (a.steps i)).1;
      reads = λ i x l m e.
          (lits_iff w i b.formulas (node_at b.nodes (r i)).old).0
            (
              subst (LitsHold w i) (state_lits_at (r i) (visits a i)) (a.states i),
              subst (LitsHold w i) (edge_lits_at (r i) (visits a i)) (a.leaves i),
            )
            x l m e;
      accepts = λ x p y c s e i.
          let (p', (e', m)) = sets_ok.1 x y c s.0 s.1 in
          ∥∥₁_map (a.accepts (acc_set b.nodes (0 + x) p') (mem-or_all _ m) i) (λ (k, h). (
            k,
            subst
                (λ z.
                  (¬ (x ∈ (node_at b.nodes (r (i + k))).old))
                  ⊎ (z ∈ (node_at b.nodes (r (i + k))).old))
                (same_id c p' p e' e)
                ((acc_set_iff b.nodes x p' (r (i + k)) (visits a (i + k))).0 (
                  subst (λ z. get_or (acc_set b.nodes z p') (r (i + k)) false ≡ true) (zero_plus x)
                    h)),
          ));
    }

    pub NodeRun-Accepting : NodeRun b w r → Accepting (gba_of b sets) w r
    NodeRun-Accepting n = record {
      starts = (init_iff (r 0)).1 (n.within 0, n.starts);
      steps = λ i. (edge_iff (r i) (r (suc i)) (n.within i)).1 (n.within (suc i), n.steps i);
      states = λ i.
          subst (LitsHold w i) (sym (state_lits_at (r i) (n.within i)))
            ((lits_iff w i b.formulas (node_at b.nodes (r i)).old).1 (n.reads i)).0;
      leaves = λ i.
          subst (LitsHold w i) (sym (edge_lits_at (r i) (n.within i)))
            ((lits_iff w i b.formulas (node_at b.nodes (r i)).old).1 (n.reads i)).1;
      accepts = λ s m i. elim (of_or_all (length b.nodes) sets s m) [
        | inl e ↦ ∣ (
          0,
          subst (λ l. get_or l (r (i + 0)) false ≡ true) (sym e)
              (all_true-get (length b.nodes) (r (i + 0)) (n.within (i + 0))),
        ) ∣₁
        | inr m' ↦
            let (x, (y, (c, (p, ((h, (u, e)), eq))))) = sets_ok.0 s m' in
            ∥∥₁_map (n.accepts x p y c (h, u) e i) (λ (k, t). (
              k,
              subst (λ l. get_or l (r (i + k)) false ≡ true)
                  (sym (eq ∙ ap (λ z. acc_set b.nodes z p) (zero_plus x)))
                  ((acc_set_iff b.nodes x p (r (i + k)) (n.within (i + k))).1 t),
            ))
      ];
    }
