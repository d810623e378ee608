-- ===== src/Temporal/Safety/Behaviours.antt =====
-- What a pass of the safety check says about the infinite paths of the graph.
use inquint.Prelude.{
  ℕ, ◌+◌, ◌<◌, ◌≡◌, refl, ap, subst, ◌∙◌, sym, ◌↔◌, inl, inr, Bool, true, false, not, ◌&&◌, ◌||◌,
}
use inquint.Prelude.{Option, none, some, List, ◌∷◌, ◌∈◌, Bool-cases, Option-cases, arith}
use mathlib.Core.Logic.{◌∨₁◌}
use mathlib.Core.Logic.Or
use mathlib.Core.Logic.Iff
use mathlib.Core.Bool.{Bool-set}
use inquint.Temporal.Ltl.{
  Ltl, Ltls, Prop, Props, has_edge_atoms, any_has_edge_atoms, as_prop, as_props, ◌>>=?◌,
}
use inquint.Temporal.Ltl.{
  SafetyConjunct, initial, always_prop, safety_conjunct, safety_conjuncts, conjuncts,
  safety_fragment,
}
use inquint.Temporal.Graph
use inquint.Temporal.Graph.{StateGraph, edges_of, state_bit, edge_bit}
use inquint.Temporal.Semantics.{Word, Holds, AllHold, SomeHolds}
use inquint.Temporal.Safety.{pass, eval_prop, eval_all, eval_any, check_safety}
use inquint.Temporal.Safety.Correct.{HoldsAt, ConjunctHolds, ConjunctsHold, check_safety_iff}

-- An infinite path from an initial state: the state and the edge taken at each position.
pub record Behaviour (g : StateGraph) : Type 0 where
  pub at : ℕ → ℕ
  pub edge : ℕ → ℕ
  pub starts : at 0 < g.init_count
  pub stays : (i : ℕ) → at i < Graph.len g
  pub steps : (i : ℕ) → (edge i, at (i + 1)) ∈ edges_of g (at i)

-- A proposition without edge atoms does not look at the edge.
mutual
  unfolding eval_prop eval_all eval_any has_edge_atoms any_has_edge_atoms

  eval_prop_no_edge :
      (p : Prop) (g : StateGraph) (s e : ℕ)
      → has_edge_atoms p ≡ false
      → eval_prop p g s none ≡ eval_prop p g s (some e)
  eval_prop_no_edge Prop.truth g s e h = refl
  eval_prop_no_edge Prop.falsity g s e h = refl
  eval_prop_no_edge (Prop.state_atom i) g s e h = refl
  eval_prop_no_edge (Prop.edge_atom i) g s e h = absurd (cc h)
  eval_prop_no_edge (Prop.negation p) g s e h = ap not (eval_prop_no_edge p g s e h)
  eval_prop_no_edge (Prop.conjunction ps) g s e h = (eval_no_edge ps g s e h).0
  eval_prop_no_edge (Prop.disjunction ps) g s e h = (eval_no_edge ps g s e h).1

  eval_no_edge :
      (ps : Props) (g : StateGraph) (s e : ℕ)
      → any_has_edge_atoms ps ≡ false
      → (eval_all ps g s none ≡ eval_all ps g s (some e))
        × (eval_any ps g s none ≡ eval_any ps g s (some e))
  eval_no_edge Props.nil g s e h = (refl, refl)
  eval_no_edge (Props.cons p ps) g s e h =
      let first : has_edge_atoms p ≡ false = ground arith in
      let rest : any_has_edge_atoms ps ≡ false = ground arith in
      let (all, any) = eval_no_edge ps g s e rest in
      rw (eval_prop_no_edge p g s e first, all, any) (refl, refl)

module _ (g : StateGraph) (b : Behaviour g) where
  abbrev pub word_of : Word
  word_of = record {
    state_at = λ a i. state_bit g a (b.at i);
    edge_at = λ a i. edge_bit g a (b.edge i);
  }

  -- The value of a proposition at a position.
  abbrev value : Prop → ℕ → Bool
  value p i = eval_prop p g (b.at i) (some (b.edge i))

  abbrev all_value : Props → ℕ → Bool
  all_value ps i = eval_all ps g (b.at i) (some (b.edge i))

  abbrev any_value : Props → ℕ → Bool
  any_value ps i = eval_any ps g (b.at i) (some (b.edge i))

  and_iff : (x y : Bool) → ((x && y) ≡ true) ↔ ((x ≡ true) × (y ≡ true))
  and_iff x y = ground arith

  or_iff : (x y : Bool) → ((x || y) ≡ true) ↔ ((x ≡ true) ∨₁ (y ≡ true))
  or_iff true y = (λ h. Or.inl refl, λ h. refl)
  or_iff false y = (Or.inr, λ h. Or.elim (Bool-set _ _) h (λ e. absurd (cc e)) (λ e. e))

  not_iff : (x : Bool) → (not x ≡ true) ↔ (¬ (x ≡ true))
  not_iff x = ground arith

  translated :
      {X : Type 0} (p q : Prop) (i : ℕ)
      → Option.some q ≡ some p
      → X ↔ (value q i ≡ true)
      → X ↔ (value p i ≡ true)
  translated {X} p q i e h = let same : q ≡ p = cc in subst (λ r. X ↔ (value r i ≡ true)) same h

  both_translated :
      {X Y : Type 0} (p q : Props) (i : ℕ)
      → Option.some q ≡ some p
      → (X ↔ (all_value q i ≡ true)) × (Y ↔ (any_value q i ≡ true))
      → (X ↔ (all_value p i ≡ true)) × (Y ↔ (any_value p i ≡ true))
  both_translated {X} {Y} p q i e h =
      let same : q ≡ p = cc in
      subst (λ r. (X ↔ (all_value r i ≡ true)) × (Y ↔ (any_value r i ≡ true))) same h

  mutual
    unfolding as_prop as_props Holds AllHold SomeHolds eval_prop eval_all eval_any

    as_prop-Holds :
        (f : Ltl) (p : Prop) (i : ℕ) → as_prop f ≡ some p → Holds word_of f i ↔ (value p i ≡ true)
    as_prop-Holds Ltl.truth p i h = translated p Prop.truth i h (λ t. refl, λ e. tt)
    as_prop-Holds Ltl.falsity p i h =
        translated p Prop.falsity i h (λ t. absurd t, λ e. absurd (cc e))
    as_prop-Holds (Ltl.state_atom a) p i h = translated p (Prop.state_atom a) i h (λ e. e, λ e. e)
    as_prop-Holds (Ltl.edge_atom a) p i h = translated p (Prop.edge_atom a) i h (λ e. e, λ e. e)
    as_prop-Holds (Ltl.negation f) p i h = elim (Option-cases (as_prop f)) [
      | inl e ↦ absurd (cc (rw e at h))
      | inr (q, e) ↦
          translated p (Prop.negation q) i (rw e at h)
            (Iff.trans (Iff.not (as_prop-Holds f q i e)) (Iff.symm (not_iff (value q i))))
    ]
    as_prop-Holds (Ltl.conjunction fs) p i h = elim (Option-cases (as_props fs)) [
      | inl e ↦ absurd (cc (rw e at h))
      | inr (qs, e) ↦ translated p (Prop.conjunction qs) i (rw e at h) (as_props-Holds fs qs i e).0
    ]
    as_prop-Holds (Ltl.disjunction fs) p i h = elim (Option-cases (as_props fs)) [
      | inl e ↦ absurd (cc (rw e at h))
      | inr (qs, e) ↦ translated p (Prop.disjunction qs) i (rw e at h) (as_props-Holds fs qs i e).1
    ]
    as_prop-Holds (Ltl.always f) p i h = absurd (cc h)
    as_prop-Holds (Ltl.eventually f) p i h = absurd (cc h)

    as_props-Holds :
        (fs : Ltls) (ps : Props) (i : ℕ)
        → as_props fs ≡ some ps
        → (AllHold word_of fs i ↔ (all_value ps i ≡ true))
          × (SomeHolds word_of fs i ↔ (any_value ps i ≡ true))
    as_props-Holds Ltls.nil ps i h =
        both_translated ps Props.nil i h ((λ t. refl, λ e. tt), (λ t. absurd t, λ e. absurd (cc e)))
    as_props-Holds (Ltls.cons f fs) ps i h = elim (Option-cases (as_prop f)) [
      | inl e ↦ absurd (cc (rw e at h))
      | inr (q, e) ↦ elim (Option-cases (as_props fs)) [
        | inl e' ↦ absurd (cc (rw (e, e') at h))
        | inr (qs, e') ↦
            let first = as_prop-Holds f q i e in
            let (all, any) = as_props-Holds fs qs i e' in
            both_translated ps (Props.cons q qs) i (rw (e, e') at h) (
              Iff.trans (Iff.and first all) (Iff.symm (and_iff (value q i) (all_value qs i))),
              Iff.trans (Iff.or first any) (Iff.symm (or_iff (value q i) (any_value qs i))),
            )
      ]
    ]

  HoldsAt-value : (p : Prop) (i : ℕ) → HoldsAt g p (b.at i) → value p i ≡ true
  HoldsAt-value p i h = elim (Bool-cases (has_edge_atoms p)) [
    | inl e ↦ (rw e at h) (b.edge i) (b.at (i + 1)) (b.steps i)
    | inr e ↦ sym (eval_prop_no_edge p g (b.at i) (b.edge i) e) ∙ (rw e at h)
  ]

  HoldsAt-Holds :
      (f : Ltl) (p : Prop) (i : ℕ) → as_prop f ≡ some p → HoldsAt g p (b.at i) → Holds word_of f i
  HoldsAt-Holds f p i e h = (as_prop-Holds f p i e).1 (HoldsAt-value p i h)

  initial-Holds :
      (f : Ltl) (c : SafetyConjunct)
      → (as_prop f >>=? λ q. some (initial q)) ≡ some c
      → ConjunctHolds g c
      → Holds word_of f 0
  initial-Holds f c e h = elim (Option-cases (as_prop f)) [
    | inl none_ ↦ absurd (cc (rw none_ at e))
    | inr (q, e') ↦
        let same : initial q ≡ c = cc (rw e' at e) in
        HoldsAt-Holds f q 0 e' ((subst (ConjunctHolds g) (sym same) h) (b.at 0) b.starts)
  ]

  conjunct-Holds :
      (f : Ltl) (c : SafetyConjunct)
      → safety_conjunct f ≡ some c
      → ConjunctHolds g c
      → Holds word_of f 0
  unfolding safety_conjunct Holds
  conjunct-Holds (Ltl.always f) c e h = elim (Option-cases (as_prop f)) [
    | inl none_ ↦ absurd (cc (rw none_ at e))
    | inr (q, e') ↦
        let same : always_prop q ≡ c = cc (rw e' at e) in
        λ j.
          HoldsAt-Holds f q (0 + j) e'
            ((subst (ConjunctHolds g) (sym same) h) (b.at (0 + j)) (b.stays (0 + j)))
  ]
  conjunct-Holds Ltl.truth c e h = initial-Holds Ltl.truth c e h
  conjunct-Holds Ltl.falsity c e h = initial-Holds Ltl.falsity c e h
  conjunct-Holds (Ltl.state_atom a) c e h = initial-Holds (Ltl.state_atom a) c e h
  conjunct-Holds (Ltl.edge_atom a) c e h = initial-Holds (Ltl.edge_atom a) c e h
  conjunct-Holds (Ltl.negation f) c e h = initial-Holds (Ltl.negation f) c e h
  conjunct-Holds (Ltl.conjunction fs) c e h = initial-Holds (Ltl.conjunction fs) c e h
  conjunct-Holds (Ltl.disjunction fs) c e h = initial-Holds (Ltl.disjunction fs) c e h
  conjunct-Holds (Ltl.eventually f) c e h = initial-Holds (Ltl.eventually f) c e h

  conjuncts-AllHold :
      (fs : Ltls) (cs : List SafetyConjunct)
      → safety_conjuncts fs ≡ some cs
      → ConjunctsHold g cs
      → AllHold word_of fs 0
  unfolding safety_conjuncts AllHold
  conjuncts-AllHold Ltls.nil cs e h = tt
  conjuncts-AllHold (Ltls.cons f fs) cs e h = elim (Option-cases (safety_conjunct f)) [
    | inl none_ ↦ absurd (cc (rw none_ at e))
    | inr (q, e') ↦ elim (Option-cases (safety_conjuncts fs)) [
      | inl none_ ↦ absurd (cc (rw (e', none_) at e))
      | inr (qs, e'') ↦
          let same : q ∷ qs ≡ cs = cc (rw (e', e'') at e) in
          let h' = subst (ConjunctsHold g) (sym same) h in
          (conjunct-Holds f q e' h'.0, conjuncts-AllHold fs qs e'' h'.1)
    ]
  ]

  conjuncts-Holds : (f : Ltl) → AllHold word_of (conjuncts f) 0 → Holds word_of f 0
  unfolding conjuncts Holds AllHold
  conjuncts-Holds Ltl.truth h = h.0
  conjuncts-Holds Ltl.falsity h = h.0
  conjuncts-Holds (Ltl.state_atom a) h = h.0
  conjuncts-Holds (Ltl.edge_atom a) h = h.0
  conjuncts-Holds (Ltl.negation f) h = h.0
  conjuncts-Holds (Ltl.conjunction fs) h = h
  conjuncts-Holds (Ltl.disjunction fs) h = h.0
  conjuncts-Holds (Ltl.always f) h = h.0
  conjuncts-Holds (Ltl.eventually f) h = h.0

  -- If a formula is in the safety fragment and the check of its conjuncts passes, the formula
  -- holds on every infinite path of the graph from an initial state.
  pub check_safety_sound :
      (f : Ltl) (cs : List SafetyConjunct)
      → safety_fragment f ≡ some cs
      → check_safety cs g ≡ pass
      → Holds word_of f 0
  unfolding safety_fragment
  check_safety_sound f cs e h =
      conjuncts-Holds f (conjuncts-AllHold (conjuncts f) cs e ((check_safety_iff g cs).0 h))
