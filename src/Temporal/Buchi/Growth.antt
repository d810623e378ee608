-- ===== src/Temporal/Buchi/Growth.antt =====
-- `expand` in inquint/src/temporal/buchi.rs only adds: formulas, nodes and sources of nodes.
use inquint.Prelude.{
  ℕ, zero, suc, ◌<◌, ◌≤◌, ◌≡◌, refl, sym, ap, ◌∙◌, subst, inl, inr, ◌⊎◌, ◌↔◌, List, [], ◌∷◌, ◌∈◌,
  true, ==_iff, length, length-append, get_or, get_or-append_left, some, arith,
}
use inquint.Order.Sort.{set_insert}
use inquint.Order.Instances.{nat_ordered}
use inquint.Temporal.Ltl.{Nnf}
use inquint.Temporal.Buchi.{
  Ids, Node, Builder, Call, arm, insert_all, ids_eq, find_done, extend_incoming, expand,
}
use inquint.Temporal.Buchi.Formulas.{Extends, Extends-refl, Extends-trans, mem-set_insert}
use inquint.Temporal.Buchi.Arms.{arm-ArmOk}
use inquint.Temporal.Buchi.Induction.{
  OfCall, Chain, with_node, with_formulas, Found, Runs, expand-induct,
}
use inquint.Prelude.{ok}

abbrev pub no_node : Node
no_node = record { old = []; next = []; incoming = [] }

abbrev pub node_at : List Node → ℕ → Node
node_at ns q = get_or ns q no_node

-- The nodes `ms` have those of `ns` at their ids, with at least their sources.
abbrev pub GrownNode : Node → Node → Type 0
GrownNode d e = (e.old ≡ d.old) × ((e.next ≡ d.next) × ((s : ℕ) → s ∈ d.incoming → s ∈ e.incoming))

abbrev pub GrownNodes : List Node → List Node → Type 0
GrownNodes ns ms =
    (length ns ≤ length ms) × ((q : ℕ) → q < length ns → GrownNode (node_at ns q) (node_at ms q))

abbrev pub Grown : Builder → Builder → Type 0
Grown b b' = Extends b.formulas b'.formulas × GrownNodes b.nodes b'.nodes

pub Grown-refl : (b : Builder) → Grown b b
Grown-refl b = (Extends-refl b.formulas, (omega arith, λ q h. (refl, (refl, λ s m. m))))

pub Grown-trans : (a b c : Builder) → Grown a b → Grown b c → Grown a c
Grown-trans a b c (e, (l, g)) (e', (l', g')) = (
  Extends-trans a.formulas b.formulas c.formulas e e',
  (
    omega arith,
    λ q h.
        let (o, (n, i)) = g q h in
        let (o', (n', i')) = g' q (omega arith) in (o' ∙ o, (n' ∙ n, λ s m. i' s (i s m))),
  ),
)

pub mem-insert_all : (i : ℕ) (is s : Ids) → (i ∈ insert_all is s) ↔ ((i ∈ is) ⊎ (i ∈ s))
unfolding insert_all
mem-insert_all i [] s = ground arith
mem-insert_all i (j ∷ is) s =
    ground (arith, mem-insert_all i is (set_insert j s), mem-set_insert i j s)

pub length-extend_incoming :
    (ns : List Node) (id : ℕ) (incoming : Ids) → length (extend_incoming ns id incoming) ≡ length ns
unfolding extend_incoming
length-extend_incoming [] id incoming = refl
length-extend_incoming (d ∷ ns) zero incoming = refl
length-extend_incoming (d ∷ ns) (suc id) incoming = ap suc (length-extend_incoming ns id incoming)

pub extend_incoming-GrownNode :
    (ns : List Node) (id : ℕ) (incoming : Ids) (q : ℕ)
    → GrownNode (node_at ns q) (node_at (extend_incoming ns id incoming) q)
unfolding extend_incoming
extend_incoming-GrownNode [] id incoming q = (refl, (refl, λ s m. m))
extend_incoming-GrownNode (d ∷ ns) zero incoming zero =
    (refl, (refl, λ s m. (mem-insert_all s incoming d.incoming).1 (inr m)))
extend_incoming-GrownNode (d ∷ ns) zero incoming (suc q) = (refl, (refl, λ s m. m))
extend_incoming-GrownNode (d ∷ ns) (suc id) incoming zero = (refl, (refl, λ s m. m))
extend_incoming-GrownNode (d ∷ ns) (suc id) incoming (suc q) =
    extend_incoming-GrownNode ns id incoming q

-- The sources of the node with the id are those it had and the new ones; of other nodes, theirs.
pub mem-extend_incoming :
    (ns : List Node) (id : ℕ) (incoming : Ids) (q s : ℕ)
    → s ∈ (node_at (extend_incoming ns id incoming) q).incoming
    → (s ∈ (node_at ns q).incoming) ⊎ ((q ≡ id) × (s ∈ incoming))
unfolding extend_incoming
mem-extend_incoming [] id incoming q s m = inl m
mem-extend_incoming (d ∷ ns) zero incoming zero s m =
    elim ((mem-insert_all s incoming d.incoming).0 m) [ inl k ↦ inr (refl, k) | inr k ↦ inl k ]
mem-extend_incoming (d ∷ ns) zero incoming (suc q) s m = inl m
mem-extend_incoming (d ∷ ns) (suc id) incoming zero s m = inl m
mem-extend_incoming (d ∷ ns) (suc id) incoming (suc q) s m =
    elim (mem-extend_incoming ns id incoming q s m) [
      | inl k ↦ inl k
      | inr (e, k) ↦ inr (ap suc e, k)
    ]

pub incoming_extended :
    (ns : List Node) (id : ℕ) (incoming : Ids) (s : ℕ)
    → id < length ns
    → s ∈ incoming
    → s ∈ (node_at (extend_incoming ns id incoming) id).incoming
unfolding extend_incoming
incoming_extended [] id incoming s h m = absurd (omega arith)
incoming_extended (d ∷ ns) zero incoming s h m = (mem-insert_all s incoming d.incoming).1 (inl m)
incoming_extended (d ∷ ns) (suc id) incoming s h m =
    incoming_extended ns id incoming s (omega arith) m

pub ids_eq→≡ : (s t : Ids) → ids_eq s t ≡ true → s ≡ t
unfolding ids_eq
ids_eq→≡ [] [] h = refl
ids_eq→≡ (i ∷ s) (j ∷ t) h = ground (arith, ==_iff i j, ids_eq→≡ s t)
ids_eq→≡ s t h = absurd (ground arith)

-- A node that is found has the sets that were looked for.
pub find_done-sets :
    (ns : List Node) (old next : Ids) (id : ℕ)
    → find_done ns old next ≡ some id
    → (id < length ns) × (((node_at ns id).old ≡ old) × ((node_at ns id).next ≡ next))
unfolding find_done
find_done-sets [] old next id h = absurd (ground arith)
find_done-sets (d ∷ ns) old next zero h =
    (omega arith, (ground (arith, ids_eq→≡ d.old old), ground (arith, ids_eq→≡ d.next next)))
find_done-sets (d ∷ ns) old next (suc id) h =
    let (l, s) = find_done-sets ns old next id (ground arith) in (omega arith, s)

GrownCall : OfCall
GrownCall b new old next incoming b' = Grown b b'

pub with_node-Grown :
    (b : Builder) (old next incoming : Ids) → Grown b (with_node b old next incoming)
with_node-Grown b old next incoming = (
  Extends-refl b.formulas,
  (
    omega (arith, length-append b.nodes _),
    λ q h.
        subst (GrownNode (node_at b.nodes q)) (sym (get_or-append_left q b.nodes _ no_node h))
          (refl, (refl, λ s m. m)),
  ),
)

calls-Grown :
    (incoming : Ids) (cs : List Call) (b b' : Builder)
    → Chain GrownCall incoming b cs b'
    → Grown b b'
unfolding GrownCall
calls-Grown incoming [] b b' e = subst (Grown b) e (Grown-refl b)
calls-Grown incoming (c ∷ cs) b b' (b1, (g, rest)) =
    Grown-trans b b1 b' g (calls-Grown incoming cs b1 b' rest)

pub extended-Grown :
    (b : Builder) (id : ℕ) (incoming : Ids)
    → Grown b (record b { nodes = extend_incoming b.nodes id incoming })
extended-Grown b id incoming = (
  Extends-refl b.formulas,
  (
    omega (arith, length-extend_incoming b.nodes id incoming),
    λ q h. extend_incoming-GrownNode b.nodes id incoming q,
  ),
)

treated-Grown :
    (b : Builder) (eta : ℕ) (new old next incoming : Ids) (b' : Builder)
    → let r = arm b.formulas eta (get_or b.formulas eta Nnf.falsity) new old next in
      Chain GrownCall incoming (with_formulas b r.0) r.1 b' → Grown b b'
treated-Grown b eta new old next incoming b' chain =
    Grown-trans b (with_formulas b _) b'
      (
        (arm-ArmOk b.formulas eta new old next (get_or b.formulas eta Nnf.falsity)).0,
        (omega arith, λ q h. (refl, (refl, λ s m. m))),
      )
      (calls-Grown incoming _ _ b' chain)

pub expand-Grown :
    (fuel : ℕ) (b : Builder) (new old next incoming : Ids) (b' : Builder)
    → expand fuel b new old next incoming ≡ ok b'
    → Grown b b'
unfolding GrownCall
expand-Grown =
    expand-induct GrownCall (λ b old next incoming id e. extended-Grown b id incoming)
      (λ b old next incoming b' e g.
        Grown-trans b (with_node b old next incoming) b' (with_node-Grown b old next incoming) g)
      treated-Grown

-- Induction along `expand` where the builders are known to grow.
abbrev pub Growing : OfCall → OfCall
Growing P b new old next incoming b' = Grown b b' × P b new old next incoming b'

module _ (P : OfCall) where
  abbrev pub FreshGrown : Type 0
  FreshGrown =
      (b : Builder) (old next incoming : Ids) (b' : Builder)
      → Grown (with_node b old next incoming) b'
      → P (with_node b old next incoming) next [] [] (length b.nodes ∷ []) b'
      → P b [] old next incoming b'

  abbrev pub TreatsGrown : Type 0
  TreatsGrown =
      (b : Builder) (eta : ℕ) (new old next incoming : Ids) (b' : Builder)
      → let r = arm b.formulas eta (get_or b.formulas eta Nnf.falsity) new old next in
        Chain (Growing P) incoming (with_formulas b r.0) r.1 b'
        → P b (eta ∷ new) old next incoming b'

  growing_calls :
      (incoming : Ids) (cs : List Call) (b b' : Builder)
      → Chain (Growing P) incoming b cs b'
      → Chain GrownCall incoming b cs b'
  unfolding GrownCall
  growing_calls incoming [] b b' e = e
  growing_calls incoming (c ∷ cs) b b' (b1, (g, rest)) =
      (b1, (g.0, growing_calls incoming cs b1 b' rest))

  pub growing-Grown :
      (incoming : Ids) (cs : List Call) (b b' : Builder)
      → Chain (Growing P) incoming b cs b'
      → Grown b b'
  growing-Grown incoming cs b b' chain =
      calls-Grown incoming cs b b' (growing_calls incoming cs b b' chain)

  pub expand-grown_induct : Found P → FreshGrown → TreatsGrown → (fuel : ℕ) → Runs P fuel
  expand-grown_induct found fresh treats fuel b new old next incoming b' h =
      (expand-induct (Growing P)
        (λ b old next incoming id e. (extended-Grown b id incoming, found b old next incoming id e))
        (λ b old next incoming b' e g. (
          Grown-trans b (with_node b old next incoming) b' (with_node-Grown b old next incoming)
              g.0,
          fresh b old next incoming b' g.0 g.1,
        ))
        (λ b eta new old next incoming b' chain. (
          treated-Grown b eta new old next incoming b' (growing_calls incoming _ _ b' chain),
          treats b eta new old next incoming b' chain,
        ))
        fuel b new old next incoming b' h).1
