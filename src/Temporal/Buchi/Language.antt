-- ===== src/Temporal/Buchi/Language.antt =====
-- The automaton of inquint/src/temporal/buchi.rs accepts the words that the formula holds on.
use inquint.Prelude.{
  ℕ, zero, suc, ◌<◌, ◌≤◌, ◌≡◌, ◌↔◌, refl, sym, ap, subst, inl, inr, List, [], ◌∷◌, map, length,
  get_or, Bool, ok, bind-ok, ok_injective, arith,
}
use mathlib.Core.Logic.{∥∥₁_elim}
use inquint.Temporal.Ltl.{Nnf}
use inquint.Temporal.Semantics.{Word, Models}
use inquint.Temporal.NnfMeaning.{Models-prop}
use inquint.Temporal.Buchi.{
  Builder, Gba, n_nodes, find_id, init_id, acc_sets_from, expand_fuel, tableau, finish, build_gba,
}
use inquint.Temporal.Buchi.Formulas.{nnf_eq_refl, Stands, Stands-Extends, Extends-refl}
use inquint.Temporal.Buchi.Growth.{expand-Grown}
use inquint.Temporal.Buchi.Sound.{NodesOk, expand-NodesOk}
use inquint.Temporal.Buchi.Distinct.{Indexed, expand-Indexed}
use inquint.Temporal.Buchi.Runs.{UntilsKnown, run-Models}
use inquint.Temporal.Buchi.Complete.{Caught, Closed, expand-Complete}
use inquint.Temporal.Buchi.Follow.{some_run}
use inquint.Temporal.Buchi.Edges.{connect-length}
use inquint.Temporal.Buchi.Labels.{length-map, SetsOk, acc_sets_from-SetsOk}
use inquint.Temporal.Buchi.Accepting.{Accepts}
use inquint.Temporal.Buchi.Assembly.{gba_of, Accepting-NodeRun, NodeRun-Accepting}

-- A finished tableau.
module _ (f : Nnf) (b : Builder) (done : tableau f ≡ ok b) where
  root : Stands b.formulas 0 f
  unfolding tableau
  root =
      Stands-Extends (f ∷ []) b.formulas 0 f
        (expand-Grown (expand_fuel f) (record { formulas = f ∷ []; nodes = [] }) (0 ∷ []) [] []
          (init_id ∷ []) b done).0
        (omega arith, refl)

  nodes_ok : NodesOk b
  unfolding tableau
  nodes_ok = expand-NodesOk (expand_fuel f) f b done

  indexed : Indexed b.formulas
  unfolding tableau find_id
  indexed =
      expand-Indexed (expand_fuel f) (record { formulas = f ∷ []; nodes = [] }) (0 ∷ []) [] []
        (init_id ∷ []) b done first
    where
      first : Indexed (f ∷ [])
      first zero h = rw (nnf_eq_refl f) refl
      first (suc i) h = absurd (omega arith)

  module _ (w : Word) where
    complete :
        (Models w f 0 → Caught w b.formulas 0 (init_id ∷ []) b.nodes)
        × ((q : ℕ) → q < length b.nodes → Closed w b.formulas b.nodes q)
    unfolding tableau
    complete =
        let (caught, closed) =
          expand-Complete w b.formulas (expand_fuel f) (record { formulas = f ∷ []; nodes = [] })
            (0 ∷ []) [] [] (init_id ∷ []) b done (Extends-refl b.formulas)
            (λ x m. elim m [ inl e ↦ omega arith | inr n ↦ absurd n ], λ x m. absurd m) in
        (
          λ m. caught 0 (
            λ x c. elim c [
              | inl (inl e) ↦
                  subst (λ z. Models w (get_or b.formulas z Nnf.falsity) 0) (sym e)
                    (subst (λ g. Models w g 0) (sym root.1) m)
              | inl (inr n) ↦ absurd n
              | inr n ↦ absurd n
            ],
            (λ x n. absurd n, λ x n. absurd n),
          ),
          λ q h. closed q (omega arith) h,
        )

    language :
        (sets : List (List Bool))
        → SetsOk b 0 b.formulas sets
        → length b.nodes ≤ init_id
        → Accepts (gba_of b sets) w ↔ Models w f 0
    language sets sets_ok few = (
      λ a. ∥∥₁_elim a (Models-prop w f 0) (λ (r, run).
          run-Models b w r (Accepting-NodeRun b sets sets_ok few w r run) nodes_ok known few f
            root),
      λ m.
          let (r, run) = some_run b w indexed (complete.0 m) complete.1 in
          ∣ (r, NodeRun-Accepting b sets sets_ok few w r run) ∣₁,
    )
      where
        known : UntilsKnown b.formulas
        known x a c s = let (p, (e, m)) = sets_ok.1 x a c s.0 s.1 in (p, e)

-- Where `build_gba` gives an automaton for a formula in normal form, with at most 2^32 - 1 nodes,
-- the automaton accepts a word iff the formula holds at the word's first position.
pub gba_language :
    (f : Nnf) (g : Gba) (w : Word)
    → build_gba f ≡ ok g
    → n_nodes g ≤ init_id
    → Accepts g w ↔ Models w f 0
unfolding build_gba finish n_nodes
gba_language f g w built few =
    let (b, (done, fin)) = bind-ok (tableau f) finish g built in
    let (sets, (sets_done, e)) =
      bind-ok (acc_sets_from b 0 b.formulas) (λ sets. ok (gba_of b sets)) g fin in
    let e' : gba_of b sets ≡ g = ok_injective e in
    let few' : length b.nodes ≤ init_id = omega (
      arith,
      ap (λ g. length g.edges) e',
      connect-length 0 b.nodes [] (map (λ d. []) b.nodes),
      length-map {B = List ℕ} (λ d. []) b.nodes,
    ) in
    subst (λ g. Accepts g w ↔ Models w f 0) e'
      (language f b done w sets (acc_sets_from-SetsOk b 0 b.formulas sets sets_done) few')
