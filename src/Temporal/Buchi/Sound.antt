-- ===== src/Temporal/Buchi/Sound.antt =====
-- The nodes of inquint/src/temporal/buchi.rs meet what their formulas demand, now and next.
use inquint.Prelude.{
  ℕ, ◌<◌, ◌≤◌, ◌≡◌, refl, sym, ap, ◌∙◌, subst, inl, inr, ◌⊎◌, List, [], ◌∷◌, ◌∈◌, length,
  length-append, get_or, get_or-append_left, get_or-snoc, ok, Bool-cases, ◌==◌, ==_iff, arith,
}
use inquint.Order.Instances.{nat_ordered}
use inquint.Temporal.Ltl.{Nnf}
use inquint.Temporal.Buchi.{Ids, Node, Builder, Call, init_id, extend_incoming, expand}
use inquint.Temporal.Buchi.Formulas.{Extends, Extends-refl, mem-set_insert, Stands-Extends}
use inquint.Temporal.Buchi.Arms.{AllCalls, Demands, Demands-mono, Current, GoesOn, arm-ArmOk}
use inquint.Temporal.Buchi.Induction.{OfCall, Chain, with_node, with_formulas, Found}
use inquint.Temporal.Buchi.Growth.{
  no_node, node_at, GrownNodes, Grown, Grown-refl, with_node-Grown, extended-Grown,
  mem-extend_incoming, extend_incoming-GrownNode, length-extend_incoming, find_done-sets, Growing,
  FreshGrown, TreatsGrown, expand-grown_induct,
}

abbrev pub In : Ids → ℕ → Type 0
In s i = i ∈ s

-- The id has a formula, whose demands the sets meet.
abbrev pub Meets : List Nnf → (ℕ → Type 0) → (ℕ → Type 0) → ℕ → Type 0
Meets fs U N x = (x < length fs) × Demands fs U N x (get_or fs x Nnf.falsity)

-- The set has what the source of an edge asks for next.
abbrev pub Leads : List Node → (ℕ → Type 0) → ℕ → Type 0
Leads ns U s = ((s ≡ init_id) × U 0) ⊎ ((s < length ns) × ((x : ℕ) → x ∈ (node_at ns s).next → U x))

abbrev pub NodeOk : Builder → Node → Type 0
NodeOk b d =
    ((x : ℕ) → x ∈ d.old → Meets b.formulas (In d.old) (In d.next) x)
    × (((x : ℕ) → x ∈ d.next → x < length b.formulas)
        × ((s : ℕ) → s ∈ d.incoming → Leads b.nodes (In d.old) s))

abbrev pub NodesOk : Builder → Type 0
NodesOk b = (q : ℕ) → q < length b.nodes → NodeOk b (node_at b.nodes q)

record CallOk (b : Builder) (incoming : Ids) (c : Call) : Type 0 where
  news : (x : ℕ) → x ∈ c.new → x < length b.formulas
  olds : (x : ℕ) → x ∈ c.old → Meets b.formulas (Current c.new c.old) (In c.next) x
  nexts : (x : ℕ) → x ∈ c.next → x < length b.formulas
  leads : (s : ℕ) → s ∈ incoming → Leads b.nodes (Current c.new c.old) s

pub length-Extends : (fs gs : List Nnf) → Extends fs gs → length fs ≤ length gs
length-Extends fs gs (hs, e) = omega (arith, ap length e, length-append fs hs)

pub get_or-Extends :
    (fs gs : List Nnf) (x : ℕ)
    → Extends fs gs
    → x < length fs
    → get_or gs x Nnf.falsity ≡ get_or fs x Nnf.falsity
get_or-Extends fs gs x e h = (Stands-Extends fs gs x (get_or fs x Nnf.falsity) e (h, refl)).1

Meets-mono :
    (fs gs : List Nnf) (U V N M : ℕ → Type 0) (x : ℕ)
    → Extends fs gs
    → ((i : ℕ) → U i → V i)
    → ((i : ℕ) → N i → M i)
    → Meets fs U N x
    → Meets gs V M x
Meets-mono fs gs U V N M x e u n (h, d) = (
  omega (arith, length-Extends fs gs e),
  subst (Demands gs V M x) (sym (get_or-Extends fs gs x e h))
      (Demands-mono fs gs U V N M x (get_or fs x Nnf.falsity) e u n d),
)

Leads-mono :
    (ns ms : List Node) (U V : ℕ → Type 0) (s : ℕ)
    → GrownNodes ns ms
    → ((i : ℕ) → U i → V i)
    → Leads ns U s
    → Leads ms V s
Leads-mono ns ms U V s g u (inl (e, z)) = inl (e, u 0 z)
Leads-mono ns ms U V s (l, g) u (inr (h, n)) =
    inr (omega arith, λ x m. u x (n x (subst (λ k. x ∈ k) ((g s h).1.0) m)))

NodeOk-mono : (b b' : Builder) (d : Node) → Grown b b' → NodeOk b d → NodeOk b' d
NodeOk-mono b b' d (e, g) (o, (n, l)) = (
  λ x m.
      Meets-mono b.formulas b'.formulas (In d.old) (In d.old) (In d.next) (In d.next) x e (λ i k. k)
        (λ i k. k) (o x m),
  (
    λ x m. let lt = n x m in omega (arith, length-Extends b.formulas b'.formulas e),
    λ s m. Leads-mono b.nodes b'.nodes (In d.old) (In d.old) s g (λ i k. k) (l s m),
  ),
)

CallOk-mono :
    (b b' : Builder) (incoming : Ids) (c : Call)
    → Grown b b'
    → CallOk b incoming c
    → CallOk b' incoming c
CallOk-mono b b' incoming c (e, g) k = record {
  news = λ x m. let lt = k.news x m in omega (arith, length-Extends b.formulas b'.formulas e);
  olds = λ x m.
      Meets-mono b.formulas b'.formulas (Current c.new c.old) (Current c.new c.old) (In c.next)
        (In c.next) x e (λ i k. k) (λ i k. k) (k.olds x m);
  nexts = λ x m. let lt = k.nexts x m in omega (arith, length-Extends b.formulas b'.formulas e);
  leads = λ s m.
      Leads-mono b.nodes b'.nodes (Current c.new c.old) (Current c.new c.old) s g (λ i k. k)
        (k.leads s m);
}

SoundCall : OfCall
SoundCall b new old next incoming b' =
    CallOk b incoming (record { new = new; old = old; next = next }) → NodesOk b → NodesOk b'

in_old : {old old' : Ids} (i : ℕ) → old ≡ old' → Current [] old i → i ∈ old'
in_old i e (inl m) = absurd m
in_old i e (inr m) = subst (λ t. i ∈ t) e m

found : Found SoundCall
unfolding SoundCall
found b old next incoming id e k ok_ q h =
    let (l, (so, sn)) = find_done-sets b.nodes old next id e in
    let b' : Builder = record b { nodes = extend_incoming b.nodes id incoming } in
    let g = extended-Grown b id incoming in
    let (o, (n, i)) =
      NodeOk-mono b b' (node_at b.nodes q) g
        (ok_ q (omega (arith, length-extend_incoming b.nodes id incoming))) in
    let (eo, (en, gi)) = extend_incoming-GrownNode b.nodes id incoming q in
    let d = node_at b.nodes q in
    let d' = node_at (extend_incoming b.nodes id incoming) q in
    (
      λ x m.
          Meets-mono b.formulas b.formulas (In d.old) (In d'.old) (In d.next) (In d'.next) x g.0
            (λ i. subst (λ t. i ∈ t) (sym eo)) (λ i. subst (λ t. i ∈ t) (sym en))
            (o x (subst (λ t. x ∈ t) eo m)),
      (
        λ x m. n x (subst (λ t. x ∈ t) en m),
        λ s m. elim (mem-extend_incoming b.nodes id incoming q s m) [
          | inl m' ↦
              Leads-mono b'.nodes b'.nodes (In d.old) (In d'.old) s
                (omega arith, λ q h. (refl, (refl, λ s m. m))) (λ i. subst (λ t. i ∈ t) (sym eo))
                (i s m')
          | inr (eq, m') ↦
              Leads-mono b.nodes b'.nodes (Current [] old) (In d'.old) s g.1
                (λ i. in_old i (sym so ∙ (ap (λ z. (node_at b.nodes z).old) (sym eq) ∙ sym eo)))
                (k.leads s m')
        ],
      ),
    )

fresh : FreshGrown SoundCall
unfolding SoundCall
fresh b old next incoming b' g0 sound k ok_ = sound start_ok nodes_ok
  where
    b1 : Builder
    b1 = with_node b old next incoming

    d1 : Node
    d1 = record { old = old; next = next; incoming = incoming }

    g : Grown b b1
    g = with_node-Grown b old next incoming

    last_node : node_at b1.nodes (length b.nodes) ≡ d1
    last_node = get_or-snoc b.nodes d1 no_node

    new_ok : NodeOk b d1
    new_ok = (
      λ x m.
          Meets-mono b.formulas b.formulas (Current [] old) (In old) (In next) (In next) x
            (Extends-refl b.formulas) (λ i. in_old i refl) (λ i n. n) (k.olds x m),
      (
        k.nexts,
        λ s m.
            Leads-mono b.nodes b.nodes (Current [] old) (In old) s (Grown-refl b).1
              (λ i. in_old i refl) (k.leads s m),
      ),
    )

    start_ok : CallOk b1 (length b.nodes ∷ []) (record { new = next; old = []; next = [] })
    start_ok = record {
      news = k.nexts;
      olds = λ x m. absurd m;
      nexts = λ x m. absurd m;
      leads = λ s m. elim m [
        | inl e ↦ inr (
          omega (arith, length-append b.nodes (d1 ∷ [])),
          λ x n.
              inl (
                subst (λ d. x ∈ d.next) last_node (subst (λ z. x ∈ (node_at b1.nodes z).next) e n)),
        )
        | inr m' ↦ absurd m'
      ];
    }

    nodes_ok : NodesOk b1
    nodes_ok q h = elim (Bool-cases (q == length b.nodes)) [
      | inl e ↦
          subst (NodeOk b1)
            (sym last_node ∙ ap (node_at b1.nodes) (sym ((==_iff q (length b.nodes)).0 e)))
            (NodeOk-mono b b1 d1 g new_ok)
      | inr e ↦
          let lt : q < length b.nodes =
            ground (arith, ==_iff q (length b.nodes), length-append b.nodes (d1 ∷ [])) in
          subst (NodeOk b1) (sym (get_or-append_left q b.nodes (d1 ∷ []) no_node lt))
            (NodeOk-mono b b1 (node_at b.nodes q) g (ok_ q lt))
    ]

-- The calls of an arm are ok where the arm is.
module _ (b : Builder) (eta : ℕ) (new old next incoming : Ids) where
  f : Nnf
  f = get_or b.formulas eta Nnf.falsity

  Current-on :
      (fs : List Nnf) (c : Call)
      → GoesOn fs eta f new old next c
      → (i : ℕ) → Current (eta ∷ new) old i
      → Current c.new c.old i
  Current-on fs c go i (inl (inl e)) =
      inr (subst (λ t. i ∈ t) (sym go.treats) ((mem-set_insert i eta old).1 (inl e)))
  Current-on fs c go i (inl (inr m)) = inl (go.keeps i m)
  Current-on fs c go i (inr m) =
      inr (subst (λ t. i ∈ t) (sym go.treats) ((mem-set_insert i eta old).1 (inr m)))

  GoesOn-CallOk :
      (fs : List Nnf) (c : Call)
      → CallOk b incoming (record { new = eta ∷ new; old = old; next = next })
      → Extends b.formulas fs
      → GoesOn fs eta f new old next c
      → CallOk (with_formulas b fs) incoming c
  unfolding f
  GoesOn-CallOk fs c k e go = record {
    news = λ x m. elim (go.adds x m) [
      | inl m' ↦ let lt = k.news x (inr m') in omega (arith, length-Extends b.formulas fs e)
      | inr lt ↦ lt
    ];
    olds = λ x m. elim ((mem-set_insert x eta old).0 (subst (λ t. x ∈ t) go.treats m)) [
      | inl eq ↦ subst (Meets fs (Current c.new c.old) (In c.next)) (sym eq) (
          let lt = k.news eta (inl refl) in
          (
            omega (arith, length-Extends b.formulas fs e),
            subst (Demands fs (Current c.new c.old) (In c.next) eta)
                (sym (get_or-Extends b.formulas fs eta e lt)) go.demands,
          ))
      | inr m' ↦
          Meets-mono b.formulas fs (Current (eta ∷ new) old) (Current c.new c.old) (In next)
            (In c.next) x e (Current-on fs c go) go.carries (k.olds x m')
    ];
    nexts = λ x m.
        let lt : x < length b.formulas = elim (go.defers x m) [
          | inl eq ↦ rw eq (k.news eta (inl refl))
          | inr m' ↦ k.nexts x m'
        ] in
        omega (arith, length-Extends b.formulas fs e);
    leads = λ s m.
        Leads-mono b.nodes b.nodes (Current (eta ∷ new) old) (Current c.new c.old) s
          (Grown-refl b).1 (Current-on fs c go) (k.leads s m);
  }

  GoesOn-all :
      (fs : List Nnf) (cs : List Call)
      → CallOk b incoming (record { new = eta ∷ new; old = old; next = next })
      → Extends b.formulas fs
      → AllCalls (GoesOn fs eta f new old next) cs
      → AllCalls (CallOk (with_formulas b fs) incoming) cs
  GoesOn-all fs [] k e all = tt
  GoesOn-all fs (c ∷ cs) k e (go, all) = (GoesOn-CallOk fs c k e go, GoesOn-all fs cs k e all)

all_mono :
    (incoming : Ids) (b b' : Builder) (cs : List Call)
    → Grown b b'
    → AllCalls (CallOk b incoming) cs
    → AllCalls (CallOk b' incoming) cs
all_mono incoming b b' [] g all = tt
all_mono incoming b b' (c ∷ cs) g (k, all) =
    (CallOk-mono b b' incoming c g k, all_mono incoming b b' cs g all)

calls-NodesOk :
    (incoming : Ids) (cs : List Call) (b b' : Builder)
    → Chain (Growing SoundCall) incoming b cs b'
    → AllCalls (CallOk b incoming) cs
    → NodesOk b
    → NodesOk b'
unfolding SoundCall
calls-NodesOk incoming [] b b' e all ok_ = subst NodesOk e ok_
calls-NodesOk incoming (c ∷ cs) b b' (b1, ((g, sound), rest)) (k, all) ok_ =
    calls-NodesOk incoming cs b1 b' rest (all_mono incoming b b1 cs g all) (sound k ok_)

treats : TreatsGrown SoundCall
unfolding SoundCall f
treats b eta new old next incoming b' chain k ok_ =
    let (e, all) = arm-ArmOk b.formulas eta new old next (get_or b.formulas eta Nnf.falsity) in
    calls-NodesOk incoming _ (with_formulas b _) b' chain
      (GoesOn-all b eta new old next incoming _ _ k e all)
      (λ q h. NodeOk-mono b (with_formulas b _) (node_at b.nodes q) (e, (Grown-refl b).1) (ok_ q h))

pub expand-NodesOk :
    (fuel : ℕ) (f : Nnf) (b' : Builder)
    → expand fuel (record { formulas = f ∷ []; nodes = [] }) (0 ∷ []) [] [] (init_id ∷ []) ≡ ok b'
    → NodesOk b'
unfolding SoundCall
expand-NodesOk fuel f b' h =
    expand-grown_induct SoundCall found fresh treats fuel _ _ _ _ _ b' h
      (record {
        news = λ x m. elim m [ inl e ↦ omega arith | inr m' ↦ absurd m' ];
        olds = λ x m. absurd m;
        nexts = λ x m. absurd m;
        leads = λ s m. elim m [ inl e ↦ inl (e, inl (inl refl)) | inr m' ↦ absurd m' ];
      })
      (λ q h. absurd (omega arith))
