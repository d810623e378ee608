-- ===== src/Temporal/Safety/Correct.antt =====
-- The safety check decides its conjuncts on the graph, and a pass settles all paths of it.
use inquint.Prelude.{ℕ, zero, suc, ◌+◌, ◌≤◌, ◌<◌, ◌≡◌, refl, sym, subst, ◌↔◌, inl, inr, true}
use inquint.Prelude.{none, some, List, [], ◌∷◌, ◌∈◌, if◌then◌else◌, Bool-cases, arith}
use mathlib.Core.Logic.Iff
use native.Mathlib.Decide.{dec_lt}
use inquint.Temporal.Ltl.{Prop, has_edge_atoms}
use inquint.Temporal.Ltl.{SafetyConjunct, initial, always_prop}
use inquint.Temporal.Graph
use inquint.Temporal.Graph.{StateGraph, edges_of, state_bit, edge_bit}
use inquint.Temporal.Safety.{SafetyOutcome, pass, violation, ◌and_then◌, eval_prop}
use inquint.Temporal.Safety.{
  violation_edge, check_edges, check_state, for_states, check_initial, check_initials,
}
use inquint.Temporal.Safety.{check_always, check_safety}

module _ (g : StateGraph) where
  -- A proposition with edge atoms holds at a state if it holds on all edges out of it.
  abbrev pub HoldsAt : Prop → ℕ → Type 0
  HoldsAt p s =
      if has_edge_atoms p
      then ((e t : ℕ) → (e, t) ∈ edges_of g s → eval_prop p g s (some e) ≡ true)
      else eval_prop p g s none ≡ true

  abbrev pub ConjunctHolds : SafetyConjunct → Type 0
  ConjunctHolds (initial p) = (s : ℕ) → s < g.init_count → HoldsAt p s
  ConjunctHolds (always_prop p) = (s : ℕ) → s < Graph.len g → HoldsAt p s

  abbrev pub ConjunctsHold : List SafetyConjunct → Type 0
  ConjunctsHold [] = Unit {0}
  ConjunctsHold (c ∷ cs) = ConjunctHolds c × ConjunctsHold cs

  and_then_iff : (a b : SafetyOutcome) → ((a and_then b) ≡ pass) ↔ ((a ≡ pass) × (b ≡ pass))
  and_then_iff pass b = ground arith
  and_then_iff (violation t) b = ground arith

  check_edges_iff :
      (p : Prop) (s : ℕ) (es : List (ℕ × ℕ))
      → (check_edges p g s es ≡ pass) ↔ ((e t : ℕ) → (e, t) ∈ es → eval_prop p g s (some e) ≡ true)
  unfolding check_edges violation_edge
  check_edges_iff p s [] = (λ h e t m. absurd m, λ h. refl)
  check_edges_iff p s ((e, t) ∷ es) = elim (Bool-cases (eval_prop p g s (some e))) [
    | inl true_ ↦ rw true_ (
      λ h e' t' m. elim m [
        | inl same ↦ subst (λ x. eval_prop p g s (some x.0) ≡ true) (sym same) true_
        | inr later ↦ (check_edges_iff p s es).0 h e' t' later
      ],
      λ h. (check_edges_iff p s es).1 (λ e' t' m. h e' t' (inr m)),
    )
    | inr false_ ↦
        rw false_
          (λ h. absurd (cc h), λ h. let yes_ = h e t (inl refl) in absurd (cc (yes_, false_)))
  ]

  for_states_iff :
      (f : ℕ → SafetyOutcome) (k n : ℕ)
      → (for_states f k n ≡ pass) ↔ ((s : ℕ) → k ≤ s → s < k + n → f s ≡ pass)
  unfolding for_states
  for_states_iff f k zero = (λ h s a b. absurd (omega arith), λ h. refl)
  for_states_iff f k (suc n) = Iff.trans (and_then_iff (f k) (for_states f (suc k) n)) (
    λ h s a b. elim (dec_lt k s) [
      | yes later ↦ (for_states_iff f (suc k) n).0 h.1 s (omega arith) (omega arith)
      | no first ↦ let same : k ≡ s = omega arith in subst (λ x. f x ≡ pass) same h.0
    ],
    λ h. (
      h k (omega arith) (omega arith),
      (for_states_iff f (suc k) n).1 (λ s a b. h s (omega arith) (omega arith)),
    ),
  )

  check_state_iff : (p : Prop) (s : ℕ) → (check_state p g s ≡ pass) ↔ (eval_prop p g s none ≡ true)
  unfolding check_state
  check_state_iff p s = elim (Bool-cases (eval_prop p g s none)) [
    | inl e ↦ rw e (λ h. refl, λ h. refl)
    | inr e ↦ rw e (λ h. absurd (cc h), λ h. absurd (cc h))
  ]

  -- What both loops do with a proposition at one state.
  check_at_iff :
      (p : Prop) (s : ℕ)
      → ((if has_edge_atoms p then check_edges p g s (edges_of g s) else check_state p g s) ≡ pass)
        ↔ HoldsAt p s
  check_at_iff p s = elim (Bool-cases (has_edge_atoms p)) [
    | inl e ↦ rw e (check_edges_iff p s (edges_of g s))
    | inr e ↦ rw e (check_state_iff p s)
  ]

  check_initial_iff :
      (p : Prop) → (check_initial (initial p) g ≡ pass) ↔ ((s : ℕ) → s < g.init_count → HoldsAt p s)
  unfolding check_initial
  check_initial_iff p = elim (Bool-cases (has_edge_atoms p)) [
    | inl e ↦ rw e (
      λ h s b.
          (check_edges_iff p s (edges_of g s)).0
            ((for_states_iff _ 0 g.init_count).0 h s (omega arith) (omega arith)),
      λ h.
          (for_states_iff _ 0 g.init_count).1
            (λ s a b. (check_edges_iff p s (edges_of g s)).1 (h s (omega arith))),
    )
    | inr e ↦ rw e (
      λ h s b.
          (check_state_iff p s).0
            ((for_states_iff _ 0 g.init_count).0 h s (omega arith) (omega arith)),
      λ h.
          (for_states_iff _ 0 g.init_count).1
            (λ s a b. (check_state_iff p s).1 (h s (omega arith))),
    )
  ]

  abbrev InitialsHold : List SafetyConjunct → Type 0
  InitialsHold [] = Unit {0}
  InitialsHold (initial p ∷ cs) = ((s : ℕ) → s < g.init_count → HoldsAt p s) × InitialsHold cs
  InitialsHold (always_prop p ∷ cs) = InitialsHold cs

  abbrev AlwaysAt : List SafetyConjunct → ℕ → Type 0
  AlwaysAt [] s = Unit {0}
  AlwaysAt (initial p ∷ cs) s = AlwaysAt cs s
  AlwaysAt (always_prop p ∷ cs) s = HoldsAt p s × AlwaysAt cs s

  check_initials_iff : (cs : List SafetyConjunct) → (check_initials cs g ≡ pass) ↔ InitialsHold cs
  unfolding check_initials check_initial
  check_initials_iff [] = (λ h. tt, λ h. refl)
  check_initials_iff (initial p ∷ cs) =
      Iff.trans (and_then_iff (check_initial (initial p) g) (check_initials cs g))
        (Iff.and (check_initial_iff p) (check_initials_iff cs))
  check_initials_iff (always_prop p ∷ cs) = check_initials_iff cs

  check_always_iff :
      (cs : List SafetyConjunct) (s : ℕ) → (check_always cs g s ≡ pass) ↔ AlwaysAt cs s
  unfolding check_always
  check_always_iff [] s = (λ h. tt, λ h. refl)
  check_always_iff (initial p ∷ cs) s = check_always_iff cs s
  check_always_iff (always_prop p ∷ cs) s =
      Iff.trans (and_then_iff _ (check_always cs g s))
        (Iff.and (check_at_iff p s) (check_always_iff cs s))

  split_conjuncts :
      (cs : List SafetyConjunct)
      → (InitialsHold cs × ((s : ℕ) → s < Graph.len g → AlwaysAt cs s)) ↔ ConjunctsHold cs
  split_conjuncts [] = (λ h. tt, λ h. (tt, λ s b. tt))
  split_conjuncts (initial p ∷ cs) = (
    λ h. (h.0.0, (split_conjuncts cs).0 (h.0.1, h.1)),
    λ h. let r = (split_conjuncts cs).1 h.1 in ((h.0, r.0), r.1),
  )
  split_conjuncts (always_prop p ∷ cs) = (
    λ h. (λ s b. (h.1 s b).0, (split_conjuncts cs).0 (h.0, λ s b. (h.1 s b).1)),
    λ h. let r = (split_conjuncts cs).1 h.1 in (r.0, λ s b. (h.0 s b, r.1 s b)),
  )

  -- The check passes just if each conjunct holds: one that must hold initially at all initial
  -- states, and one that must always hold at all states; one with edge atoms on all edges out of
  -- the state.
  pub check_safety_iff : (cs : List SafetyConjunct) → (check_safety cs g ≡ pass) ↔ ConjunctsHold cs
  unfolding check_safety
  check_safety_iff cs =
      Iff.trans
        (and_then_iff (check_initials cs g) (for_states (check_always cs g) 0 (Graph.len g)))
        (Iff.trans
          (Iff.and (check_initials_iff cs) (
            λ h s b.
                (check_always_iff cs s).0
                  ((for_states_iff _ 0 (Graph.len g)).0 h s (omega arith) (omega arith)),
            λ h.
                (for_states_iff _ 0 (Graph.len g)).1
                  (λ s a b. (check_always_iff cs s).1 (h s (omega arith))),
          ))
          (split_conjuncts cs))
