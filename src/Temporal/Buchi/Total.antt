-- ===== src/Temporal/Buchi/Total.antt =====
-- The expansion of inquint/src/temporal/buchi.rs ends: the fuel of the model is enough.
use inquint.Prelude.{
  ℕ, zero, suc, ◌+◌, ◌*◌, ◌^◌, ◌≤◌, ◌≡◌, refl, sym, ◌∙◌, subst, inl, inr, List, [], ◌∷◌, length,
  length-append, get_or, Option-cases, ok, arith,
}
use inquint.Temporal.Ltl.{Nnf}
use inquint.Temporal.Buchi.{
  Ids, Builder, Call, find_id, find_done, extend_incoming, run_calls, arm, expand, size,
  expand_fuel, tableau, init_id,
}
use inquint.Temporal.Buchi.Formulas.{nnf_eq_refl}
use inquint.Temporal.Buchi.Arms.{AllCalls}
use inquint.Temporal.Buchi.Induction.{with_node, with_formulas, expand_fresh, expand_found}
use inquint.Temporal.Buchi.Growth.{expand-Grown}
use inquint.Temporal.Buchi.Distinct.{Indexed}
use inquint.Temporal.Buchi.Ascending.{Ascending-length}
use inquint.Temporal.Buchi.Subformulas.{
  Formulas, root-Formulas, length-Formulas, size_positive, arm-Formulas,
}
use inquint.Temporal.Buchi.NodesReady.{
  NodesReady, length-NodesReady, with_node-NodesReady, extended-NodesReady,
}
use inquint.Temporal.Buchi.ArmsReady.{Ready, OneMore, arm-OneMore}

module _ (root : Nnf) where
  abbrev most : ℕ
  most = 2 ^ size root * 2 ^ size root

  abbrev BuilderReady : Builder → Type 0
  BuilderReady b = Formulas root b.formulas × NodesReady (size root) b.nodes

  abbrev Ends : ℕ → Type 0
  Ends fuel =
      (b : Builder) (new old next incoming : Ids) (m : ℕ)
      → BuilderReady b
      → Ready (size root) (record { new = new; old = old; next = next })
      → most ≤ length b.nodes + m
      → m * (size root + 2) + (size root + 1) ≤ fuel + length old
      → (b' : Builder) × ((expand fuel b new old next incoming ≡ ok b') × BuilderReady b')

  one_less : (l m : ℕ) → most ≤ l + m → suc l ≤ most → (m' : ℕ) × (m ≡ suc m')
  one_less l zero h k = absurd (omega arith)
  one_less l (suc m') h k = (m', refl)

  less_fuel :
      (m m' fuel l : ℕ)
      → m ≡ suc m'
      → l ≤ size root
      → m * (size root + 2) + (size root + 1) ≤ suc fuel + l
      → m' * (size root + 2) + (size root + 1) ≤ fuel + 0
  less_fuel m m' fuel l e s k =
      let step : suc m' * (size root + 2) ≡ (size root + 2) + m' * (size root + 2) = grind arith in
      let k' = subst (λ z. z * (size root + 2) + (size root + 1) ≤ suc fuel + l) e k in
      omega (arith, step)

  calls_end :
      (fuel : ℕ) (incoming old : Ids) (cs : List Call) (b : Builder) (m : ℕ)
      → Ends fuel
      → BuilderReady b
      → AllCalls (OneMore (size root) old) cs
      → most ≤ length b.nodes + m
      → m * (size root + 2) + (size root + 1) ≤ fuel + suc (length old)
      → (b' : Builder) × ((run_calls (λ b1 c. expand fuel b1 c.new c.old c.next incoming) b cs
            ≡ ok b')
          × BuilderReady b')
  unfolding run_calls
  calls_end fuel incoming old [] b m ends br all h k = (b, (refl, br))
  calls_end fuel incoming old (c ∷ cs) b m ends br ((r, l), all) h k =
      let (b1, (e, br1)) =
        ends b c.new c.old c.next incoming m br r h
          (subst (λ z. m * (size root + 2) + (size root + 1) ≤ fuel + z) (sym l) k) in
      let grown = (expand-Grown fuel b c.new c.old c.next incoming b1 e).1.0 in
      let (b', (e', br')) = calls_end fuel incoming old cs b1 m ends br1 all (omega arith) k in
      (b', (rw e e', br'))

  ends : (fuel : ℕ) → Ends fuel
  unfolding expand
  ends zero b new old next incoming m br r h k =
      let short = Ascending-length 0 (size root) old (omega arith) r.olds in absurd (omega arith)
  ends (suc fuel) b [] old next incoming m (fm, nr) r h k =
      elim (Option-cases (find_done b.nodes old next)) [
        | inr (id, e) ↦ (
          record b { nodes = extend_incoming b.nodes id incoming },
          (
            expand_found fuel b old next incoming id e,
            (fm, extended-NodesReady (size root) b.nodes id incoming nr),
          ),
        )
        | inl e ↦
            let nr' =
              with_node-NodesReady (size root) b.nodes
                (record { old = old; next = next; incoming = incoming }) r.olds r.nexts e nr in
            let room = length-NodesReady (size root) (with_node b old next incoming).nodes nr' in
            let long =
              length-append b.nodes
                ((record { old = old; next = next; incoming = incoming }) ∷ []) in
            let short = Ascending-length 0 (size root) old (omega arith) r.olds in
            let (m', eq) = one_less (length b.nodes) m h (omega (arith, long, room)) in
            let (b', (e', br')) =
              ends fuel (with_node b old next incoming) next [] [] (length b.nodes ∷ []) m'
                (fm, nr') (record { news = r.nexts; olds = tt; nexts = tt; apart = λ x i n. n })
                (omega (arith, long, eq))
                (less_fuel m m' fuel (length old) eq (omega (arith, short)) k) in
            (b', (expand_fresh fuel b old next incoming e ∙ e', br'))
      ]
  ends (suc fuel) b (eta ∷ new) old next incoming m (fm, nr) r h k =
      let fm' = arm-Formulas root b.formulas eta new old next fm in
      let a = arm b.formulas eta (get_or b.formulas eta Nnf.falsity) new old next in
      calls_end fuel incoming old a.1 (with_formulas b a.0) m (ends fuel) (fm', nr)
        (arm-OneMore (size root) b.formulas eta new old next r (get_or b.formulas eta Nnf.falsity)
          refl (length-Formulas root a.0 fm'))
        h (omega arith)

-- For every formula the expansion ends within the fuel that it is given.
pub tableau_total : (f : Nnf) → (b : Builder) × (tableau f ≡ ok b)
unfolding tableau expand_fuel find_id
tableau_total f =
    let (b, (e, br)) =
      ends f (expand_fuel f) (record { formulas = f ∷ []; nodes = [] }) (0 ∷ []) [] []
        (init_id ∷ []) (2 ^ size f * 2 ^ size f)
        (root-Formulas f first, (λ q h. absurd (omega arith), λ p q lt h. absurd (omega arith)))
        (record {
          news = (omega arith, (size_positive f, tt));
          olds = tt;
          nexts = tt;
          apart = λ x i n. n;
        })
        (omega arith) (omega arith) in
    (b, e)
  where
    first : Indexed (f ∷ [])
    first zero h = rw (nnf_eq_refl f) refl
    first (suc i) h = absurd (omega arith)
