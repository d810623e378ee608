-- ===== src/Temporal/Buchi/Runs.antt =====
-- An accepting run through the nodes of inquint/src/temporal/buchi.rs models their formulas.
use inquint.Prelude.{
  ℕ, zero, suc, ◌+◌, ◌<◌, ◌≤◌, ◌≡◌, sym, subst, inl, inr, ◌⊎◌, List, ◌∈◌, length, get_or, some,
  arith,
}
use mathlib.Core.Logic.{∥∥₁_prop, ∥∥₁_elim, ◌∨₁◌}
use mathlib.Core.Logic.Or
use inquint.Temporal.Ltl.{Lit, Nnf}
use inquint.Temporal.Semantics.{Word, Models, atom_at}
use inquint.Temporal.Expansion.{until_here, until_step, Released-here, Released-done, Released-step}
use inquint.Temporal.Buchi.{Ids, Builder, find_id, init_id}
use inquint.Temporal.Buchi.Formulas.{Stands, find_id-Stands}
use inquint.Temporal.Buchi.Arms.{Has, Demands}
use inquint.Temporal.Buchi.Growth.{node_at}
use inquint.Temporal.Buchi.Sound.{In, NodesOk}

-- An infinite path through the nodes, on a word, that visits each acceptance set again and again.
pub record NodeRun (b : Builder) (w : Word) (r : ℕ → ℕ) : Type 0 where
  pub within : (i : ℕ) → r i < length b.nodes
  pub starts : init_id ∈ (node_at b.nodes (r 0)).incoming
  pub steps : (i : ℕ) → r i ∈ (node_at b.nodes (r (suc i))).incoming
  pub reads :
      (i x : ℕ) (l : Lit)
      → x ∈ (node_at b.nodes (r i)).old
      → get_or b.formulas x Nnf.falsity ≡ Nnf.lit l
      → atom_at w l.atom i ≡ l.pos
  pub accepts :
      (x p : ℕ) (a c : Nnf)
      → Stands b.formulas x (Nnf.until a c)
      → find_id b.formulas c ≡ some p
      → (i : ℕ)
      → ∥ (
          (k : ℕ) × ((¬ (x ∈ (node_at b.nodes (r (i + k))).old))
            ⊎ (p ∈ (node_at b.nodes (r (i + k))).old))) ∥₁

-- The fulfilling formula of each until has an id.
abbrev pub UntilsKnown : List Nnf → Type 0
UntilsKnown fs =
    (x : ℕ) (a c : Nnf) → Stands fs x (Nnf.until a c) → (p : ℕ) × (find_id fs c ≡ some p)

module _ (b : Builder) (w : Word) (r : ℕ → ℕ) (run : NodeRun b w r) (ok_ : NodesOk b)
    (known : UntilsKnown b.formulas) (few : length b.nodes ≤ init_id) where
  abbrev old_at : ℕ → Ids
  old_at i = (node_at b.nodes (r i)).old

  abbrev next_at : ℕ → Ids
  next_at i = (node_at b.nodes (r i)).next

  -- What is in `next` is in `old` of the next node of the run.
  carried : (i x : ℕ) → x ∈ next_at i → x ∈ old_at (suc i)
  carried i x m = elim ((ok_ (r (suc i)) (run.within (suc i))).1.1 (r i) (run.steps i)) [
    | inl (e, z) ↦ let lt = run.within i in absurd (omega arith)
    | inr (h, n) ↦ n x m
  ]

  root_first : 0 ∈ old_at 0
  root_first = elim ((ok_ (r 0) (run.within 0)).1.1 init_id run.starts) [
    | inl (e, z) ↦ z
    | inr (h, n) ↦ absurd (omega arith)
  ]

  meets :
      (i x : ℕ) (f : Nnf)
      → x ∈ old_at i
      → Stands b.formulas x f
      → Demands b.formulas (In (old_at i)) (In (next_at i)) x f
  meets i x f m (h, e) =
      subst (Demands b.formulas (In (old_at i)) (In (next_at i)) x) e
        ((ok_ (r i) (run.within i)).0 x m).1

  abbrev True : Nnf → Type 0
  True f = (i x : ℕ) → x ∈ old_at i → Stands b.formulas x f → Models w f i

  Has-True : (f : Nnf) (i : ℕ) → True f → Has b.formulas (In (old_at i)) f → Models w f i
  Has-True f i t (x, (s, m)) = t i x m s

  -- An until holds where the run is at an accepting node after `d` steps.
  until-True :
      (a c : Nnf) (x : ℕ)
      → True a
      → True c
      → Stands b.formulas x (Nnf.until a c)
      → (d i p : ℕ) → find_id b.formulas c ≡ some p
      → (¬ (x ∈ old_at (i + d))) ⊎ (p ∈ old_at (i + d))
      → x ∈ old_at i
      → Models w (Nnf.until a c) i
  until-True a c x ta tc s zero i p e acc m = elim acc [
    | inl n ↦ absurd (n (subst (λ k. x ∈ old_at k) (plus_zero i) m))
    | inr n ↦
        until_here w a c i (
          tc i p (subst (λ k. p ∈ old_at k) (sym (plus_zero i)) n)
            (find_id-Stands b.formulas c p e))
  ]
    where
      plus_zero : (i : ℕ) → i ≡ i + 0
      plus_zero i = omega arith
  until-True a c x ta tc s (suc d) i p e acc m = elim (meets i x (Nnf.until a c) m s) [
    | inr q ↦ until_here w a c i (Has-True c i tc q)
    | inl (q, n) ↦ until_step w a c i (Has-True a i ta q) (
        until-True a c x ta tc s d (suc i) p e
          (subst (λ k. (¬ (x ∈ old_at k)) ⊎ (p ∈ old_at k)) (plus_suc i d) acc) (carried i x n))
  ]
    where
      plus_suc : (i d : ℕ) → i + suc d ≡ suc i + d
      plus_suc i d = omega arith

  release-True :
      (a c : Nnf) (x : ℕ)
      → True a
      → True c
      → Stands b.formulas x (Nnf.release a c)
      → (j i : ℕ) → x ∈ old_at i
      → Models w c (i + j) ∨₁ ∥ ((k : ℕ) × (k < j) × Models w a (i + k)) ∥₁
  release-True a c x ta tc s zero i m = elim (meets i x (Nnf.release a c) m s) [
    | inl (q, n) ↦ Released-here w a c i (Has-True c i tc q)
    | inr (q, q') ↦ Released-here w a c i (Has-True c i tc q')
  ]
  release-True a c x ta tc s (suc j) i m = elim (meets i x (Nnf.release a c) m s) [
    | inl (q, n) ↦ Released-step w a c i j (release-True a c x ta tc s j (suc i) (carried i x n))
    | inr (q, q') ↦ Released-done w a c i j (Has-True a i ta q)
  ]

  truth_lemma : (f : Nnf) → True f
  truth_lemma Nnf.truth i x m s = tt
  truth_lemma Nnf.falsity i x m s = meets i x Nnf.falsity m s
  truth_lemma (Nnf.lit l) i x m s = run.reads i x l m s.1
  truth_lemma (Nnf.both a c) i x m s =
      let (p, q) = meets i x (Nnf.both a c) m s in
      (Has-True a i (truth_lemma a) p, Has-True c i (truth_lemma c) q)
  truth_lemma (Nnf.either a c) i x m s = elim (meets i x (Nnf.either a c) m s) [
    | inl p ↦ Or.inl (Has-True a i (truth_lemma a) p)
    | inr q ↦ Or.inr (Has-True c i (truth_lemma c) q)
  ]
  truth_lemma (Nnf.until a c) i x m s =
      let (p, e) = known x a c s in
      ∥∥₁_elim (run.accepts x p a c s e i) ∥∥₁_prop
        (λ (d, acc). until-True a c x (truth_lemma a) (truth_lemma c) s d i p e acc m)
  truth_lemma (Nnf.release a c) i x m s =
      λ j. release-True a c x (truth_lemma a) (truth_lemma c) s j i m

  pub run-Models : (f : Nnf) → Stands b.formulas 0 f → Models w f 0
  run-Models f s = truth_lemma f 0 0 root_first s
