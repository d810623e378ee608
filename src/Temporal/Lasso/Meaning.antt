-- ===== src/Temporal/Lasso/Meaning.antt =====
-- The oracle of inquint/src/temporal/validate.rs gives the meaning of a formula on the infinite word
-- that a lasso stands for.
use mathlib.Core.Bool.{Bool-set}
use mathlib.Core.Logic.{◌∨₁◌, ∥∥₁_elim}
use mathlib.Core.Logic.Or
use inquint.Prelude.{
  ℕ, zero, suc, ◌+◌, ◌<◌, ◌≡◌, ◌↔◌, refl, sym, ap, subst, ◌∙◌, inl, inr, Bool, true, false, not,
  ◌&&◌, ◌||◌, Bool-cases, some, List, [], ◌∷◌, length, map, arith,
}
use inquint.Temporal.Ltl.{Ltl, Ltls}
use inquint.Temporal.Semantics.{Word, Holds, AllHold, SomeHolds}
use inquint.Temporal.Lasso.{LassoAtoms, at_position, all_at, any_at, tabulate, succ, eval, evals}
use inquint.Temporal.Lasso.Rounds.{steps, Kept, iterate-Reaches, succ_inside}

length-tabulate : (f : ℕ → Bool) (i n : ℕ) → length (tabulate f i n) ≡ n
unfolding tabulate
length-tabulate f i zero = refl
length-tabulate f i (suc n) = ap suc (length-tabulate f (i + 1) n)

at-tabulate : (f : ℕ → Bool) (i n j : ℕ) → j < n → at_position (tabulate f i n) j ≡ f (i + j)
unfolding tabulate
at-tabulate f i zero j h = absurd (omega arith)
at-tabulate f i (suc n) zero h = ap f (omega arith)
at-tabulate f i (suc n) (suc j) h = at-tabulate f (i + 1) n j (omega arith) ∙ ap f (omega arith)

at-tabulate_from_zero : (f : ℕ → Bool) (n j : ℕ) → j < n → at_position (tabulate f 0 n) j ≡ f j
at-tabulate_from_zero f n j h = at-tabulate f 0 n j h ∙ ap f (omega arith)

at-map_not :
    (v : List Bool) (i : ℕ) → i < length v → at_position (map not v) i ≡ not (at_position v i)
at-map_not [] i h = absurd (omega arith)
at-map_not (x ∷ v) zero h = refl
at-map_not (x ∷ v) (suc i) h = at-map_not v i (omega arith)

length-map_not : (v : List Bool) → length (map not v) ≡ length v
length-map_not [] = refl
length-map_not (x ∷ v) = ap suc (length-map_not v)

not_iff : (x : Bool) (P : Type 0) → (x ≡ true) ↔ P → (not x ≡ true) ↔ (¬ P)
not_iff true P h = (λ e p. ground arith, λ n. absurd (n (h.0 refl)))
not_iff false P h = (λ e p. ground (arith, h.1 p), λ n. refl)

and_iff :
    (x y : Bool) (P Q : Type 0) → (x ≡ true) ↔ P → (y ≡ true) ↔ Q → ((x && y) ≡ true) ↔ (P × Q)
and_iff true y P Q h k = (λ e. (h.0 refl, k.0 e), λ p. k.1 p.1)
and_iff false y P Q h k = (λ e. absurd (ground arith), λ p. h.1 p.0)

or_iff :
    (x y : Bool) (P Q : Type 0) → (x ≡ true) ↔ P → (y ≡ true) ↔ Q → ((x || y) ≡ true) ↔ (P ∨₁ Q)
or_iff true y P Q h k = (λ e. Or.inl (h.0 refl), λ p. refl)
or_iff false y P Q h k =
    (λ e. Or.inr (k.0 e), λ p. Or.elim (Bool-set _ _) p (λ a. absurd (ground (arith, h.1 a))) k.1)

module _ (w : LassoAtoms) where
  -- The position of the lasso at a time.
  abbrev pub position : ℕ → ℕ
  position zero = 0
  position (suc t) = succ w (position t)

  -- The word that goes along the lasso and round its loop for ever.
  abbrev pub unrolled : Word
  unrolled = record {
    state_at = λ a t. w.state_atom a (position t);
    edge_at = λ a t. w.edge_atom a (position t);
  }

  steps-position : (k t : ℕ) → steps w k (position t) ≡ position (t + k)
  steps-position zero t = ap position (omega arith)
  steps-position (suc k) t = steps-position k (suc t) ∙ ap position (omega arith)

  module _ (inside : w.loop_index < w.n) where
    position_inside : (t : ℕ) → position t < w.n
    position_inside zero = omega arith
    position_inside (suc t) = succ_inside w true [] inside (position t)

    -- The vector has the meaning of the formula at each position.
    abbrev pub Means : Ltl → List Bool → Type 0
    Means f v =
        (length v ≡ w.n) × ((t : ℕ) → (at_position v (position t) ≡ true) ↔ Holds unrolled f t)

    abbrev MeansAll : Ltls → List (List Bool) → Type 0
    MeansAll ps vs =
        (t : ℕ)
        → ((all_at vs (position t) ≡ true) ↔ AllHold unrolled ps t)
          × ((any_at vs (position t) ≡ true) ↔ SomeHolds unrolled ps t)

    tabulate-Means :
        (f : Ltl) (g : ℕ → Bool)
        → ((t : ℕ) → (g (position t) ≡ true) ↔ Holds unrolled f t)
        → Means f (tabulate g 0 w.n)
    tabulate-Means f g h = (
      length-tabulate g 0 w.n,
      λ t. rw (at-tabulate_from_zero g w.n (position t) (position_inside t)) (h t),
    )

    -- A vector of the value that does not spread.
    start-Kept :
        (b : Bool) (inner : List Bool) → Kept w b inner inside (tabulate (λ i. not b) 0 w.n)
    start-Kept b inner = (
      length-tabulate (λ i. not b) 0 w.n,
      (
        λ i l e. absurd (not_b b (sym (at-tabulate_from_zero (λ j. not b) w.n i l) ∙ e)),
        λ i l e. absurd (not_b b (sym (at-tabulate_from_zero (λ j. not b) w.n i l) ∙ e)),
      ),
    )
      where
        not_b : (b : Bool) → not b ≡ b → ⊥
        not_b true e = ground arith
        not_b false e = ground arith

    -- The positions that a vector gives the value `b` are those from which it is reached.
    abbrev Spread : Bool → List Bool → List Bool → Type 0
    Spread b v u =
        (length u ≡ w.n)
        × ((i : ℕ)
            → i < w.n
            → (at_position u i ≡ b) ↔ ((k : ℕ) × (at_position v (steps w k i) ≡ b)))

    always-Means :
        (p : Ltl) (v u : List Bool) → Means p v → Spread false v u → Means (Ltl.always p) u
    unfolding Holds
    always-Means p v u m s = (
      s.0,
      λ t.
          let reach = s.1 (position t) (position_inside t) in
          (
            λ e j. elim (Bool-cases (at_position v (position (t + j)))) [
              | inl x ↦ (m.1 (t + j)).0 x
              | inr x ↦
                  let back : at_position v (steps w j (position t)) ≡ false =
                    rw (steps-position j t) x in
                  absurd (true_false (sym e ∙ reach.1 (j, back)))
            ],
            λ h. elim (Bool-cases (at_position u (position t))) [
              | inl x ↦ x
              | inr x ↦
                  let (j, r) = reach.0 x in
                  let there : at_position v (position (t + j)) ≡ false =
                    rw (sym (steps-position j t)) r in
                  absurd (true_false (sym ((m.1 (t + j)).1 (h j)) ∙ there))
            ],
          ),
    )
      where
        true_false : true ≡ false → ⊥
        true_false e = ground arith

    eventually-Means :
        (p : Ltl) (v u : List Bool) → Means p v → Spread true v u → Means (Ltl.eventually p) u
    unfolding Holds
    eventually-Means p v u m s = (
      s.0,
      λ t.
          let reach = s.1 (position t) (position_inside t) in
          (
            λ e.
                let (j, r) = reach.0 e in
                let there : at_position v (position (t + j)) ≡ true =
                  rw (sym (steps-position j t)) r in
                ∣ (j, (m.1 (t + j)).0 there) ∣₁,
            λ h. ∥∥₁_elim h (Bool-set _ _) (λ (j, x).
                let back : at_position v (steps w j (position t)) ≡ true =
                  rw (steps-position j t) ((m.1 (t + j)).1 x) in
                reach.1 (j, back)),
          ),
    )

    negation-Means : (p : Ltl) (v : List Bool) → Means p v → Means (Ltl.negation p) (map not v)
    unfolding Holds
    negation-Means p v m = (
      length-map_not v ∙ m.0,
      λ t.
          let bound : position t < length v =
            subst (λ n. position t < n) (sym m.0) (position_inside t) in
          rw (at-map_not v (position t) bound)
            (not_iff (at_position v (position t)) (Holds unrolled p t) (m.1 t)),
    )

    mutual
      unfolding eval evals Holds AllHold SomeHolds

      meaning_of : (f : Ltl) → (v : List Bool) × ((eval w f ≡ some v) × Means f v)
      meaning_of Ltl.truth = (
        tabulate (λ i. true) 0 w.n,
        (refl, tabulate-Means Ltl.truth (λ i. true) (λ t. (λ e. tt, λ e. refl))),
      )
      meaning_of Ltl.falsity = (
        tabulate (λ i. false) 0 w.n,
        (refl, tabulate-Means Ltl.falsity (λ i. false) (λ t. (λ e. ground arith, λ e. absurd e))),
      )
      meaning_of (Ltl.state_atom a) = (
        tabulate (w.state_atom a) 0 w.n,
        (refl, tabulate-Means (Ltl.state_atom a) (w.state_atom a) (λ t. (λ e. e, λ e. e))),
      )
      meaning_of (Ltl.edge_atom a) = (
        tabulate (w.edge_atom a) 0 w.n,
        (refl, tabulate-Means (Ltl.edge_atom a) (w.edge_atom a) (λ t. (λ e. e, λ e. e))),
      )
      meaning_of (Ltl.negation p) =
          let (v, (e, m)) = meaning_of p in (map not v, (rw e refl, negation-Means p v m))
      meaning_of (Ltl.conjunction ps) =
          let (vs, (e, m)) = meanings_of ps in
          (
            tabulate (all_at vs) 0 w.n,
            (rw e refl, tabulate-Means (Ltl.conjunction ps) (all_at vs) (λ t. (m t).0)),
          )
      meaning_of (Ltl.disjunction ps) =
          let (vs, (e, m)) = meanings_of ps in
          (
            tabulate (any_at vs) 0 w.n,
            (rw e refl, tabulate-Means (Ltl.disjunction ps) (any_at vs) (λ t. (m t).1)),
          )
      meaning_of (Ltl.always p) =
          let (v, (e, m)) = meaning_of p in
          let (u, (f, s)) = iterate-Reaches w false v inside _ (start-Kept false v) in
          (u, (rw e f, always-Means p v u m s))
      meaning_of (Ltl.eventually p) =
          let (v, (e, m)) = meaning_of p in
          let (u, (f, s)) = iterate-Reaches w true v inside _ (start-Kept true v) in
          (u, (rw e f, eventually-Means p v u m s))

      meanings_of :
          (ps : Ltls) → (vs : List (List Bool)) × ((evals w ps ≡ some vs) × MeansAll ps vs)
      meanings_of Ltls.nil =
          ([], (refl, λ t. ((λ e. tt, λ e. refl), (λ e. ground arith, λ e. absurd e))))
      meanings_of (Ltls.cons p ps) =
          let (v, (e, m)) = meaning_of p in
          let (vs, (f, k)) = meanings_of ps in
          (
            v ∷ vs,
            (
              rw (e, f) refl,
              λ t. (
                and_iff (at_position v (position t)) (all_at vs (position t)) _ _ (m.1 t) (k t).0,
                or_iff (at_position v (position t)) (any_at vs (position t)) _ _ (m.1 t) (k t).1,
              ),
            ),
          )

    -- For every formula the evaluation of a lasso ends, and its value at each position is the
    -- meaning of the formula there, on the word that goes along the lasso and round its loop.
    pub eval_meaning : (f : Ltl) → (v : List Bool) × ((eval w f ≡ some v) × Means f v)
    eval_meaning f = meaning_of f
