-- ===== src/Temporal/Buchi/Complete.antt =====
-- `expand` in inquint/src/temporal/buchi.rs leaves a node for each way a word goes on.
use inquint.Prelude.{
  ℕ, suc, ◌<◌, ◌≤◌, ◌≡◌, refl, sym, ap, ◌∙◌, subst, inl, inr, List, [], ◌∷◌, ◌++◌, ◌∈◌, length,
  length-append, get_or, get_or-snoc, ok, Bool-cases, ◌==◌, ==_iff, arith,
}
use inquint.Temporal.Ltl.{Nnf}
use inquint.Temporal.Semantics.{Word}
use inquint.Temporal.Buchi.{Ids, Node, Builder, Call, arm, extend_incoming, expand}
use inquint.Temporal.Buchi.Formulas.{Extends, Extends-trans, Stands, Stands-Extends}
use inquint.Temporal.Buchi.Arms.{AllCalls, Current, GoesOn, arm-ArmOk}
use inquint.Temporal.Buchi.Induction.{OfCall, Chain, with_formulas, Found}
use inquint.Temporal.Buchi.Formulas.{lt_or_ge}
use inquint.Temporal.Buchi.Growth.{
  no_node, node_at, GrownNodes, Growing, FreshGrown, TreatsGrown, expand-grown_induct,
  growing-Grown, find_done-sets, incoming_extended, extend_incoming-GrownNode,
  length-extend_incoming,
}
use inquint.Temporal.Buchi.Sound.{In, length-Extends}
use inquint.Temporal.Buchi.ArmsComplete.{
  SomeCall, Sat, Fulfilled, Fulfilled-mono, CallSat, arm-ArmSat,
}

module _ (w : Word) (fin : List Nnf) where
  -- The sets of the node hold at the position and the next one.
  abbrev pub Good : ℕ → Node → Type 0
  Good i d =
      ((x : ℕ) → x ∈ d.old → Sat w fin i x)
      × (((x : ℕ) → x ∈ d.next → Sat w fin (suc i) x)
          × ((x : ℕ) → x ∈ d.old → Fulfilled w fin i (In d.old) x))

  -- A node that the word may be in at the position, which all the sources lead to.
  abbrev pub Caught : ℕ → Ids → List Node → Type 0
  Caught i incoming ns =
      (q : ℕ) × ((q < length ns)
        × (Good i (node_at ns q) × ((s : ℕ) → s ∈ incoming → s ∈ (node_at ns q).incoming)))

  -- The node leads on as long as the word has what it asks for next.
  abbrev pub Closed : List Node → ℕ → Type 0
  Closed ns q = (i : ℕ) → ((x : ℕ) → x ∈ (node_at ns q).next → Sat w fin i x) → Caught i (q ∷ []) ns

  Good-same : (i : ℕ) (d e : Node) → e.old ≡ d.old → e.next ≡ d.next → Good i d → Good i e
  Good-same i d e eo en (o, (n, f)) = (
    λ x m. o x (subst (λ t. x ∈ t) eo m),
    (
      λ x m. n x (subst (λ t. x ∈ t) en m),
      λ x m. subst (λ t. Fulfilled w fin i (In t) x) (sym eo) (f x (subst (λ t. x ∈ t) eo m)),
    ),
  )

  Caught-mono :
      (i : ℕ) (incoming : Ids) (ns ms : List Node)
      → GrownNodes ns ms
      → Caught i incoming ns
      → Caught i incoming ms
  Caught-mono i incoming ns ms (l, g) (q, (h, (good, inc))) =
      let (eo, (en, gi)) = g q h in
      (
        q,
        (
          omega arith,
          (Good-same i (node_at ns q) (node_at ms q) eo en good, λ s m. gi s (inc s m)),
        ),
      )

  Closed-mono :
      (ns ms : List Node) (q : ℕ) → GrownNodes ns ms → q < length ns → Closed ns q → Closed ms q
  Closed-mono ns ms q g h closed i later =
      Caught-mono i (q ∷ []) ns ms g
        (closed i (λ x m. later x (subst (λ t. x ∈ t) (sym ((g.1 q h).1.0)) m)))

  abbrev pub InRange : List Nnf → Call → Type 0
  InRange fs c = ((x : ℕ) → x ∈ c.new → x < length fs) × ((x : ℕ) → x ∈ c.next → x < length fs)

  InRange-mono : (fs gs : List Nnf) (c : Call) → Extends fs gs → InRange fs c → InRange gs c
  InRange-mono fs gs c e (n, t) = (
    λ x m. let lt = n x m in omega (arith, length-Extends fs gs e),
    λ x m. let lt = t x m in omega (arith, length-Extends fs gs e),
  )

  abbrev pub CompleteCall : OfCall
  CompleteCall b new old next incoming b' =
      Extends b'.formulas fin
      → InRange b.formulas (record { new = new; old = old; next = next })
      → ((i : ℕ)
          → CallSat w fin i (record { new = new; old = old; next = next })
          → Caught i incoming b'.nodes)
        × ((q : ℕ) → length b.nodes ≤ q → q < length b'.nodes → Closed b'.nodes q)

  call-Good :
      (i : ℕ) (old next : Ids) (d : Node)
      → d.old ≡ old
      → d.next ≡ next
      → CallSat w fin i (record { new = []; old = old; next = next })
      → Good i d
  call-Good i old next d eo en (now, (later, done)) =
      Good-same i (record { old = old; next = next; incoming = [] }) d eo en
        (
          λ x m. now x (inr m),
          (
            later,
            λ x m.
                Fulfilled-mono w fin i (Current [] old) (In old) (get_or fin x Nnf.falsity)
                  (λ y c. elim c [ inl n ↦ absurd n | inr n ↦ n ]) (done x m),
          ),
        )

  found : Found CompleteCall
  found b old next incoming id e ext range =
      let (l, (so, sn)) = find_done-sets b.nodes old next id e in
      let (eo, (en, gi)) = extend_incoming-GrownNode b.nodes id incoming id in
      (
        λ i sat. (
          id,
          (
            omega (arith, length-extend_incoming b.nodes id incoming),
            (
              call-Good i old next (node_at (extend_incoming b.nodes id incoming) id) (eo ∙ so)
                  (en ∙ sn) sat,
              λ s m. incoming_extended b.nodes id incoming s l m,
            ),
          ),
        ),
        λ q h h'. absurd (omega (arith, length-extend_incoming b.nodes id incoming)),
      )

  fresh : FreshGrown CompleteCall
  fresh b old next incoming b' g rec ext range =
      let (l, gn) = g.1 in
      let long = length-append b.nodes (d1 ∷ []) in
      let (caught, closed) = rec ext (λ x m. let lt = range.1 x m in lt, λ x m. absurd m) in
      let (eo, (en, gi)) = gn (length b.nodes) (omega (arith, length-append b.nodes (d1 ∷ []))) in
      (
        λ i sat. (
          length b.nodes,
          (
            omega (arith, length-append b.nodes (d1 ∷ [])),
            (
              call-Good i old next (node_at b'.nodes (length b.nodes))
                  (eo ∙ ap (λ d. d.old) last_node) (en ∙ ap (λ d. d.next) last_node) sat,
              λ s m. gi s (subst (λ d. s ∈ d.incoming) (sym last_node) m),
            ),
          ),
        ),
        λ q h h'. elim (Bool-cases (q == length b.nodes)) [
          | inl e ↦ subst (Closed b'.nodes) (sym ((==_iff q (length b.nodes)).0 e)) (λ i later.
              caught i (
                λ x m. elim m [
                  | inl n ↦ later x (subst (λ t. x ∈ t) (sym (en ∙ ap (λ d. d.next) last_node)) n)
                  | inr n ↦ absurd n
                ],
                (λ x m. absurd m, λ x m. absurd m),
              ))
          | inr e ↦
              closed q (ground (arith, ==_iff q (length b.nodes), length-append b.nodes (d1 ∷ [])))
                h'
        ],
      )
    where
      d1 : Node
      d1 = record { old = old; next = next; incoming = incoming }

      last_node : node_at (b.nodes ++ d1 ∷ []) (length b.nodes) ≡ d1
      last_node = get_or-snoc b.nodes d1 no_node

  ranges_mono :
      (fs gs : List Nnf) (cs : List Call)
      → Extends fs gs
      → AllCalls (InRange fs) cs
      → AllCalls (InRange gs) cs
  ranges_mono fs gs [] e all = tt
  ranges_mono fs gs (c ∷ cs) e (r, all) = (InRange-mono fs gs c e r, ranges_mono fs gs cs e all)

  calls-Caught :
      (incoming : Ids) (cs : List Call) (b b' : Builder) (i : ℕ)
      → Chain (Growing CompleteCall) incoming b cs b'
      → Extends b'.formulas fin
      → AllCalls (InRange b.formulas) cs
      → SomeCall (CallSat w fin i) cs
      → Caught i incoming b'.nodes
  calls-Caught incoming [] b b' i e ext all some_ = absurd some_
  calls-Caught incoming (c ∷ cs) b b' i (b1, ((g, k), rest)) ext (r, all) some_ =
      let g' = growing-Grown CompleteCall incoming cs b1 b' rest in
      let ext1 = Extends-trans b1.formulas b'.formulas fin g'.0 ext in
      elim some_ [
        | inl s ↦ Caught-mono i incoming b1.nodes b'.nodes g'.1 ((k ext1 r).0 i s)
        | inr s ↦
            calls-Caught incoming cs b1 b' i rest ext
              (ranges_mono b.formulas b1.formulas cs g.0 all) s
      ]

  calls-Closed :
      (incoming : Ids) (cs : List Call) (b b' : Builder)
      → Chain (Growing CompleteCall) incoming b cs b'
      → Extends b'.formulas fin
      → AllCalls (InRange b.formulas) cs
      → (q : ℕ) → length b.nodes ≤ q
      → q < length b'.nodes
      → Closed b'.nodes q
  calls-Closed incoming [] b b' e ext all q h h' =
      absurd (omega (arith, ap (λ c. length c.nodes) e))
  calls-Closed incoming (c ∷ cs) b b' (b1, ((g, k), rest)) ext (r, all) q h h' =
      let g' = growing-Grown CompleteCall incoming cs b1 b' rest in
      let ext1 = Extends-trans b1.formulas b'.formulas fin g'.0 ext in
      elim (lt_or_ge q (length b1.nodes)) [
        | inl lt ↦ Closed-mono b1.nodes b'.nodes q g'.1 lt ((k ext1 r).1 q h lt)
        | inr ge ↦
            calls-Closed incoming cs b1 b' rest ext (ranges_mono b.formulas b1.formulas cs g.0 all)
              q ge h'
      ]

  GoesOn-InRange :
      (b : Builder) (fs : List Nnf) (eta : ℕ) (f : Nnf) (new old next : Ids) (cs : List Call)
      → InRange b.formulas (record { new = eta ∷ new; old = old; next = next })
      → Extends b.formulas fs
      → AllCalls (GoesOn fs eta f new old next) cs
      → AllCalls (InRange fs) cs
  GoesOn-InRange b fs eta f new old next [] r e all = tt
  GoesOn-InRange b fs eta f new old next (c ∷ cs) (n, t) e (go, all) = (
    (
      λ x m. elim (go.adds x m) [
        | inl m' ↦ let lt = n x (inr m') in omega (arith, length-Extends b.formulas fs e)
        | inr lt ↦ lt
      ],
      λ x m. elim (go.defers x m) [
        | inl eq ↦ let lt = n eta (inl refl) in omega (arith, eq, length-Extends b.formulas fs e)
        | inr m' ↦ let lt = t x m' in omega (arith, length-Extends b.formulas fs e)
      ],
    ),
    GoesOn-InRange b fs eta f new old next cs (n, t) e all,
  )

  treats : TreatsGrown CompleteCall
  treats b eta new old next incoming b' chain ext range =
      let f = get_or b.formulas eta Nnf.falsity in
      let (e, all) = arm-ArmOk b.formulas eta new old next f in
      let r = arm b.formulas eta f new old next in
      let ranges = GoesOn-InRange b r.0 eta f new old next r.1 range e all in
      let g = growing-Grown CompleteCall incoming r.1 (with_formulas b r.0) b' chain in
      let ext1 : Extends r.0 fin = Extends-trans r.0 b'.formulas fin g.0 ext in
      let lt : eta < length b.formulas = range.0 eta (inl refl) in
      let ext0 : Extends b.formulas fin = Extends-trans b.formulas r.0 fin e ext1 in
      let s : Stands fin eta f = Stands-Extends b.formulas fin eta f ext0 (lt, refl) in
      (
        λ i sat.
            calls-Caught incoming r.1 (with_formulas b r.0) b' i chain ext ranges
              (arm-ArmSat w fin b.formulas eta new old next i f ext1 s sat),
        λ q h h'. calls-Closed incoming r.1 (with_formulas b r.0) b' chain ext ranges q h h',
      )

  pub expand-Complete :
      (fuel : ℕ) (b : Builder) (new old next incoming : Ids) (b' : Builder)
      → expand fuel b new old next incoming ≡ ok b'
      → CompleteCall b new old next incoming b'
  expand-Complete fuel = expand-grown_induct CompleteCall found fresh treats fuel
