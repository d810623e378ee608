-- ===== src/Temporal/NnfMeaning.antt =====
-- The negation normal form of a formula means what the formula means.
use inquint.Prelude.{ℕ, ◌+◌, ◌≡◌, ◌↔◌, Bool, true, false, Bool-cases, inl, inr}
use mathlib.Core.Bool.{So-prop, Bool-set}
use mathlib.Core.Logic.{◌∨₁◌, ∨₁_prop, ∥∥₁_prop, ∥∥₁_elim, ∥∥₁_map, not-or}
use mathlib.Core.Logic.Or
use mathlib.Core.Logic.Iff
use mathlib.Core.HLevel.{Π_prop, ×_prop, ⊥_prop, ¬_prop, Unit-prop}
use inquint.Temporal.Ltl.{Ltl, Ltls, Nnf, nnf, fold_binary, fold_rest, join_and, join_or}
use inquint.Temporal.Semantics.{Word, Holds, AllHold, SomeHolds, Models, atom_at}
use inquint.Temporal.Classical.{or_assoc, not-and, not-forall, not-exists, by_contradiction}

abbrev pub IsCons : Ltls → Type 0
IsCons Ltls.nil = ⊥
IsCons (Ltls.cons p ps) = Unit {0}

-- No disjunction of the formula is empty.
unfoldable mutual
  pub NoEmptyOr : Ltl → Type 0
  NoEmptyOr Ltl.truth = Unit {0}
  NoEmptyOr Ltl.falsity = Unit {0}
  NoEmptyOr (Ltl.state_atom a) = Unit {0}
  NoEmptyOr (Ltl.edge_atom a) = Unit {0}
  NoEmptyOr (Ltl.negation p) = NoEmptyOr p
  NoEmptyOr (Ltl.conjunction ps) = NoEmptyOrs ps
  NoEmptyOr (Ltl.disjunction ps) = IsCons ps × NoEmptyOrs ps
  NoEmptyOr (Ltl.always p) = NoEmptyOr p
  NoEmptyOr (Ltl.eventually p) = NoEmptyOr p

  pub NoEmptyOrs : Ltls → Type 0
  NoEmptyOrs Ltls.nil = Unit {0}
  NoEmptyOrs (Ltls.cons p ps) = NoEmptyOr p × NoEmptyOrs ps

module _ (w : Word) where
  mutual
    unfolding Holds AllHold SomeHolds

    Holds-prop : (f : Ltl) (i : ℕ) → IsProp (Holds w f i)
    Holds-prop Ltl.truth i = Unit-prop
    Holds-prop Ltl.falsity i = ⊥_prop
    Holds-prop (Ltl.state_atom a) i = So-prop _
    Holds-prop (Ltl.edge_atom a) i = So-prop _
    Holds-prop (Ltl.negation p) i = ¬_prop
    Holds-prop (Ltl.conjunction ps) i = AllHold-prop ps i
    Holds-prop (Ltl.disjunction ps) i = SomeHolds-prop ps i
    Holds-prop (Ltl.always p) i = Π_prop (λ j. Holds-prop p (i + j))
    Holds-prop (Ltl.eventually p) i = ∥∥₁_prop

    AllHold-prop : (ps : Ltls) (i : ℕ) → IsProp (AllHold w ps i)
    AllHold-prop Ltls.nil i = Unit-prop
    AllHold-prop (Ltls.cons p ps) i = ×_prop (Holds-prop p i) (AllHold-prop ps i)

    SomeHolds-prop : (ps : Ltls) (i : ℕ) → IsProp (SomeHolds w ps i)
    SomeHolds-prop Ltls.nil i = ⊥_prop
    SomeHolds-prop (Ltls.cons p ps) i = ∨₁_prop

  pub Models-prop : (a : Nnf) (i : ℕ) → IsProp (Models w a i)
  Models-prop Nnf.truth i = Unit-prop
  Models-prop Nnf.falsity i = ⊥_prop
  Models-prop (Nnf.lit l) i = Bool-set _ _
  Models-prop (Nnf.both a b) i = ×_prop (Models-prop a i) (Models-prop b i)
  Models-prop (Nnf.either a b) i = ∨₁_prop
  Models-prop (Nnf.until a b) i = ∥∥₁_prop
  Models-prop (Nnf.release a b) i = Π_prop (λ j. ∨₁_prop)

  until_truth :
      (a : Nnf) (i : ℕ) → Models w (Nnf.until Nnf.truth a) i ↔ ∥ ((j : ℕ) × Models w a (i + j)) ∥₁
  until_truth a i = (λ h. ∥∥₁_map h (λ t. (t.0, t.1)), λ h. ∥∥₁_map h (λ t. (t.0, t.1, λ k l. tt)))

  release_falsity :
      (a : Nnf) (i : ℕ) → Models w (Nnf.release Nnf.falsity a) i ↔ ((j : ℕ) → Models w a (i + j))
  release_falsity a i = (
    λ h j.
        Or.elim (Models-prop a (i + j)) (h j) (λ m. m) (λ t. absurd (∥∥₁_elim t ⊥_prop (λ p. p.2))),
    λ h j. Or.inl (h j),
  )

  atom_pos : (b : Bool) → (b ≡ true) ↔ (b ≡ true)
  atom_pos b = (λ e. e, λ e. e)

  atom_neg : (b : Bool) → (b ≡ false) ↔ (¬ (b ≡ true))
  atom_neg b = (λ e h. cc, λ n. elim (Bool-cases b) [ inl e ↦ absurd (n e) | inr e ↦ e ])

  -- Both polarities of a normal form.
  abbrev Means : Ltl → Type 0
  Means f =
      (i : ℕ)
      → (Models w (nnf f false) i ↔ Holds w f i) × (Models w (nnf f true) i ↔ (¬ Holds w f i))

  -- The two polarities of a conjunction, and of a disjunction, that go on from `acc`.
  abbrev MeansAll : Ltls → Type 0
  MeansAll ps =
      (acc : Nnf) (i : ℕ)
      → (Models w (fold_rest ps false (join_and false) acc) i ↔ (Models w acc i × AllHold w ps i))
        × (Models w (fold_rest ps true (join_and true) acc) i
            ↔ (Models w acc i ∨₁ ¬ AllHold w ps i))

  abbrev MeansSome : Ltls → Type 0
  MeansSome ps =
      (acc : Nnf) (i : ℕ)
      → (Models w (fold_rest ps false (join_or false) acc) i ↔ (Models w acc i ∨₁ SomeHolds w ps i))
        × (Models w (fold_rest ps true (join_or true) acc) i
            ↔ (Models w acc i × ¬ SomeHolds w ps i))

  mutual
    unfolding nnf fold_binary fold_rest Holds AllHold SomeHolds NoEmptyOr NoEmptyOrs atom_at

    nnf-Means : (f : Ltl) → NoEmptyOr f → Means f
    nnf-Means Ltl.truth h i = ((λ t. t, λ t. t), (λ e n. e, λ n. n tt))
    nnf-Means Ltl.falsity h i = ((λ t. t, λ t. t), (λ e n. n, λ n. tt))
    nnf-Means (Ltl.state_atom a) h i = (atom_pos (w.state_at a i), atom_neg (w.state_at a i))
    nnf-Means (Ltl.edge_atom a) h i = (atom_pos (w.edge_at a i), atom_neg (w.edge_at a i))
    nnf-Means (Ltl.negation p) h i =
        let (pos, neg) = nnf-Means p h i in
        (neg, (λ m n. n (pos.0 m), λ n. pos.1 (by_contradiction _ (Holds-prop p i) n)))
    nnf-Means (Ltl.conjunction Ltls.nil) h i = ((λ t. t, λ t. t), (λ e n. e, λ n. n tt))
    nnf-Means (Ltl.conjunction (Ltls.cons p ps)) h i =
        let (pos, neg) = nnf-Means p h.0 i in
        (
          Iff.trans (nnfs-MeansAll ps h.1 (nnf p false) i).0 (Iff.and pos Iff.rfl),
          Iff.trans (nnfs-MeansAll ps h.1 (nnf p true) i).1
              (Iff.trans (Iff.or neg Iff.rfl) (not-and _ _ (Holds-prop p i))),
        )
    nnf-Means (Ltl.disjunction Ltls.nil) h i = absurd h.0
    nnf-Means (Ltl.disjunction (Ltls.cons p ps)) h i =
        let (pos, neg) = nnf-Means p h.1.0 i in
        (
          Iff.trans (nnfs-MeansSome ps h.1.1 (nnf p false) i).0 (Iff.or pos Iff.rfl),
          Iff.trans (nnfs-MeansSome ps h.1.1 (nnf p true) i).1
              (Iff.trans (Iff.and neg Iff.rfl) (Iff.symm not-or)),
        )
    nnf-Means (Ltl.always p) h i = (
      Iff.trans (release_falsity (nnf p false) i)
          (λ m j. (nnf-Means p h (i + j)).0.0 (m j), λ m j. (nnf-Means p h (i + j)).0.1 (m j)),
      Iff.trans (until_truth (nnf p true) i) (
          Iff.trans
            (Iff.trunc (
              λ t. (t.0, (nnf-Means p h (i + t.0)).1.0 t.1),
              λ t. (t.0, (nnf-Means p h (i + t.0)).1.1 t.1),
            ))
            (not-forall (λ j. Holds w p (i + j)) (λ j. Holds-prop p (i + j)))),
    )
    nnf-Means (Ltl.eventually p) h i = (
      Iff.trans (until_truth (nnf p false) i) (
          Iff.trunc (
            λ t. (t.0, (nnf-Means p h (i + t.0)).0.0 t.1),
            λ t. (t.0, (nnf-Means p h (i + t.0)).0.1 t.1),
          )),
      Iff.trans (release_falsity (nnf p true) i) (
          Iff.trans
            (λ m j. (nnf-Means p h (i + j)).1.0 (m j), λ m j. (nnf-Means p h (i + j)).1.1 (m j))
            (not-exists (λ j. Holds w p (i + j)))),
    )

    nnfs-MeansAll : (ps : Ltls) → NoEmptyOrs ps → MeansAll ps
    nnfs-MeansAll Ltls.nil h acc i = (
      (λ m. (m, tt), λ t. t.0),
      (Or.inl, λ t. Or.elim (Models-prop acc i) t (λ m. m) (λ n. absurd (n tt))),
    )
    nnfs-MeansAll (Ltls.cons p ps) h acc i =
        let (pos, neg) = nnf-Means p h.0 i in
        (
          Iff.trans (nnfs-MeansAll ps h.1 (Nnf.both acc (nnf p false)) i).0
              (λ t. (t.0.0, (pos.0 t.0.1, t.1)), λ t. ((t.0, pos.1 t.1.0), t.1.1)),
          Iff.trans (nnfs-MeansAll ps h.1 (Nnf.either acc (nnf p true)) i).1 (
              Iff.trans (or_assoc _ _ _)
                (Iff.or Iff.rfl (Iff.trans (Iff.or neg Iff.rfl) (not-and _ _ (Holds-prop p i))))),
        )

    nnfs-MeansSome : (ps : Ltls) → NoEmptyOrs ps → MeansSome ps
    nnfs-MeansSome Ltls.nil h acc i = (
      (Or.inl, λ t. Or.elim (Models-prop acc i) t (λ m. m) (λ n. absurd n)),
      (λ m. (m, λ n. n), λ t. t.0),
    )
    nnfs-MeansSome (Ltls.cons p ps) h acc i =
        let (pos, neg) = nnf-Means p h.0 i in
        (
          Iff.trans (nnfs-MeansSome ps h.1 (Nnf.either acc (nnf p false)) i).0
              (Iff.trans (or_assoc _ _ _) (Iff.or Iff.rfl (Iff.or pos Iff.rfl))),
          Iff.trans (nnfs-MeansSome ps h.1 (Nnf.both acc (nnf p true)) i).1 (
            λ t. (t.0.0, not-or.1 (neg.0 t.0.1, t.1)),
            λ t. let u = not-or.0 t.1 in ((t.0, neg.1 u.0), u.1),
          ),
        )

-- Where no disjunction of a formula is empty, its normal form with `negate` false holds at a
-- position of a word iff the formula does, and with `negate` true iff the formula does not.
pub nnf_meaning :
    (w : Word) (f : Ltl) (i : ℕ)
    → NoEmptyOr f
    → (Models w (nnf f false) i ↔ Holds w f i) × (Models w (nnf f true) i ↔ (¬ Holds w f i))
nnf_meaning w f i h = nnf-Means w f h i
