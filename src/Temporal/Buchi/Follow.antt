-- ===== src/Temporal/Buchi/Follow.antt =====
-- The run through the nodes of inquint/src/temporal/buchi.rs that follows a word.
use inquint.Prelude.{
  ℕ, zero, suc, ◌+◌, ◌<◌, ◌≡◌, refl, sym, ◌∙◌, subst, inl, inr, ◌⊎◌, [], ◌∷◌, ◌∈◌, length, Option,
  some, Bool-cases, false, arith,
}
use mathlib.Core.Logic.{∥∥₁_map}
use inquint.Temporal.Ltl.{Nnf}
use inquint.Temporal.Semantics.{Word, Models}
use inquint.Temporal.Buchi.{Builder, find_id, has_id, init_id}
use inquint.Temporal.Buchi.Formulas.{Stands, has_id_iff}
use inquint.Temporal.Buchi.Growth.{node_at}
use inquint.Temporal.Buchi.Sound.{In}
use inquint.Temporal.Buchi.Distinct.{Indexed, Stands-find_id}
use inquint.Temporal.Buchi.Runs.{NodeRun}
use inquint.Temporal.Buchi.ArmsComplete.{FulfilledBy}
use inquint.Temporal.Buchi.Complete.{Good, Caught, Closed}

module _ (b : Builder) (w : Word) (ix : Indexed b.formulas)
    (start : Caught w b.formulas 0 (init_id ∷ []) b.nodes)
    (closed : (q : ℕ) → q < length b.nodes → Closed w b.formulas b.nodes q) where
  abbrev Visit : ℕ → Type 0
  Visit i = (q : ℕ) × ((q < length b.nodes) × Good w b.formulas i (node_at b.nodes q))

  go_on : (i : ℕ) (v : Visit i) → Caught w b.formulas (suc i) (v.0 ∷ []) b.nodes
  go_on i (q, (h, good)) = closed q h (suc i) good.1.0

  stop_of : (i : ℕ) → Visit i
  stop_of zero = (start.0, (start.1.0, start.1.1.0))
  stop_of (suc i) = let c = go_on i (stop_of i) in (c.0, (c.1.0, c.1.1.0))

  abbrev follow : ℕ → ℕ
  follow i = (stop_of i).0

  again :
      (x p : ℕ) (a c : Nnf)
      → Stands b.formulas x (Nnf.until a c)
      → find_id b.formulas c ≡ some p
      → (j : ℕ) → Models w c j
      → (¬ (x ∈ (node_at b.nodes (follow j)).old)) ⊎ (p ∈ (node_at b.nodes (follow j)).old)
  again x p a c s e j m = elim (Bool-cases (has_id (node_at b.nodes (follow j)).old x)) [
    | inr n ↦ inl (λ k. ground (arith, has_id_iff (node_at b.nodes (follow j)).old x))
    | inl y ↦
        let k = (has_id_iff (node_at b.nodes (follow j)).old x).0 y in
        let d = node_at b.nodes (follow j) in
        let (z, (sz, mz)) =
          subst (FulfilledBy w b.formulas j (In d.old)) s.1 ((stop_of j).1.1.1.1 x k) m in
        inr (
          subst (λ t. t ∈ d.old) (some_injective (sym (Stands-find_id b.formulas z c ix sz) ∙ e))
            mz)
  ]
    where
      some_injective : {m n : ℕ} → ◌≡◌ {A = Option ℕ} (some m) (some n) → m ≡ n
      some_injective h = ground arith

  plus_zero : (i : ℕ) → i + 0 ≡ i
  plus_zero i = omega arith

  left_out :
      (i x : ℕ)
      → has_id (node_at b.nodes (follow i)).old x ≡ false
      → ¬ (x ∈ (node_at b.nodes (follow i)).old)
  left_out i x n k = ground (arith, has_id_iff (node_at b.nodes (follow i)).old x)

  follow-NodeRun : NodeRun b w follow
  unfolding stop_of
  follow-NodeRun = record {
    within = λ i. (stop_of i).1.0;
    starts = start.1.1.1 init_id (inl refl);
    steps = λ i. (go_on i (stop_of i)).1.1.1 (follow i) (inl refl);
    reads = λ i x l m e. subst (λ f. Models w f i) e ((stop_of i).1.1.0 x m);
    accepts = λ x p a c s e i. elim (Bool-cases (has_id (node_at b.nodes (follow i)).old x)) [
      | inr n ↦ ∣ (
        0,
        inl (λ k.
            absurd
              (left_out i x n (subst (λ j. x ∈ (node_at b.nodes (follow j)).old) (plus_zero i) k))),
      ) ∣₁
      | inl y ↦
          let k = (has_id_iff (node_at b.nodes (follow i)).old x).0 y in
          ∥∥₁_map (subst (λ f. Models w f i) s.1 ((stop_of i).1.1.0 x k))
            (λ (j, m, h). (j, again x p a c s e (i + j) m))
    ];
  }

  pub some_run : (r : ℕ → ℕ) × NodeRun b w r
  some_run = (follow, follow-NodeRun)
