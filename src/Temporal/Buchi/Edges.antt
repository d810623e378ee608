-- ===== src/Temporal/Buchi/Edges.antt =====
-- The edges that `build_gba` in inquint/src/temporal/buchi.rs gathers from the sources of the nodes.
use inquint.Prelude.{
  ℕ, zero, suc, ◌+◌, ◌<◌, ◌≡◌, ◌≢◌, ◌↔◌, refl, sym, ap, ◌∙◌, subst, inl, inr, ◌⊎◌, List, [], ◌∷◌,
  ◌++◌, ◌∈◌, mem-snoc, length, get_or, set, Bool-cases, ◌==◌, ==_iff, arith,
}
use inquint.Temporal.Buchi.{Ids, Node, init_id, push_edges, connect}
use inquint.Temporal.Buchi.Growth.{node_at}

pub length-set :
    {A : Type 0} (xs : List (List A)) (j : ℕ) (v : List A) → length (set xs j v) ≡ length xs
length-set [] j v = refl
length-set (x ∷ xs) zero v = refl
length-set (x ∷ xs) (suc j) v = ap suc (length-set xs j v)

pub get_or-set :
    {A : Type 0} (xs : List (List A)) (j s : ℕ) (v : List A)
    → s < length xs
    → ((s ≡ j) × (get_or (set xs j v) s [] ≡ v))
      ⊎ ((s ≢ j) × (get_or (set xs j v) s [] ≡ get_or xs s []))
get_or-set [] j s v h = absurd (omega arith)
get_or-set (x ∷ xs) zero zero v h = inl (refl, refl)
get_or-set (x ∷ xs) zero (suc s) v h = inr (λ e. omega (arith, e), refl)
get_or-set (x ∷ xs) (suc j) zero v h = inr (λ e. omega (arith, e), refl)
get_or-set (x ∷ xs) (suc j) (suc s) v h = elim (get_or-set xs j s v (omega arith)) [
  | inl (e, g) ↦ inl (ap suc e, g)
  | inr (n, g) ↦ inr (λ e. n (omega (arith, e)), g)
]

pub push_edges-length :
    (id : ℕ) (srcs : Ids) (init : List ℕ) (edges : List (List ℕ))
    → length (push_edges id srcs init edges).1 ≡ length edges
unfolding push_edges
push_edges-length id [] init edges = refl
push_edges-length id (src ∷ srcs) init edges = elim (Bool-cases (src == init_id)) [
  | inl e ↦ rw (push_edges, e) (push_edges-length id srcs (init ++ id ∷ []) edges)
  | inr e ↦
      rw (push_edges, e)
        (push_edges-length id srcs init (set edges src (get_or edges src [] ++ id ∷ []))
          ∙ length-set edges src (get_or edges src [] ++ id ∷ []))
]

-- The node is initial iff `INIT` is one of its sources.
pub push_edges-init :
    (id : ℕ) (srcs : Ids) (init : List ℕ) (edges : List (List ℕ)) (x : ℕ)
    → (x ∈ (push_edges id srcs init edges).0) ↔ ((x ∈ init) ⊎ ((x ≡ id) × (init_id ∈ srcs)))
unfolding push_edges
push_edges-init id [] init edges x = ground arith
push_edges-init id (src ∷ srcs) init edges x = elim (Bool-cases (src == init_id)) [
  | inl e ↦
      rw (push_edges, e)
        (ground (
          arith,
          (==_iff src init_id).0 e,
          mem-snoc x init id,
          push_edges-init id srcs (init ++ id ∷ []) edges x,
        ))
  | inr e ↦
      rw (push_edges, e)
        (ground (
          arith,
          ==_iff src init_id,
          push_edges-init id srcs init (set edges src (get_or edges src [] ++ id ∷ [])) x,
        ))
]

set_edge :
    (id src : ℕ) (edges : List (List ℕ)) (s x : ℕ)
    → s < length edges
    → (x ∈ get_or (set edges src (get_or edges src [] ++ id ∷ [])) s [])
      ↔ ((x ∈ get_or edges s []) ⊎ ((x ≡ id) × (s ≡ src)))
set_edge id src edges s x h = elim (get_or-set edges src s (get_or edges src [] ++ id ∷ []) h) [
  | inl (e, g) ↦
      let m = mem-snoc x (get_or edges s []) id in
      let g' : get_or (set edges src (get_or edges src [] ++ id ∷ [])) s []
          ≡ get_or edges s [] ++ id ∷ [] =
        g ∙ ap (λ z. get_or edges z [] ++ id ∷ []) (sym e) in
      subst (λ l. (x ∈ l) ↔ ((x ∈ get_or edges s []) ⊎ ((x ≡ id) × (s ≡ src)))) (sym g')
        (ground (arith, m))
  | inr (n, g) ↦
      subst (λ l. (x ∈ l) ↔ ((x ∈ get_or edges s []) ⊎ ((x ≡ id) × (s ≡ src)))) (sym g)
        (inl, λ t. elim t [ inl m ↦ m | inr (u, v) ↦ absurd (n v) ])
]

pub push_edges-edge :
    (id : ℕ) (srcs : Ids) (init : List ℕ) (edges : List (List ℕ)) (s x : ℕ)
    → s < length edges
    → s ≢ init_id
    → (x ∈ get_or (push_edges id srcs init edges).1 s [])
      ↔ ((x ∈ get_or edges s []) ⊎ ((x ≡ id) × (s ∈ srcs)))
unfolding push_edges
push_edges-edge id [] init edges s x h n = ground arith
push_edges-edge id (src ∷ srcs) init edges s x h n = elim (Bool-cases (src == init_id)) [
  | inl e ↦
      rw (push_edges, e)
        (ground (
          arith,
          (==_iff src init_id).0 e,
          push_edges-edge id srcs (init ++ id ∷ []) edges s x h n,
        ))
  | inr e ↦
      let v = get_or edges src [] ++ id ∷ [] in
      rw (push_edges, e)
        (ground (
          arith,
          set_edge id src edges s x h,
          push_edges-edge id srcs init (set edges src v) s x (omega (arith, length-set edges src v))
              n,
        ))
]

pub connect-length :
    (id : ℕ) (ns : List Node) (init : List ℕ) (edges : List (List ℕ))
    → length (connect id ns init edges).1 ≡ length edges
unfolding connect
connect-length id [] init edges = refl
connect-length id (d ∷ ns) init edges =
    let r = push_edges id d.incoming init edges in
    connect-length (id + 1) ns r.0 r.1 ∙ push_edges-length id d.incoming init edges

or_shift : {A B C D E F : Type 0} → A ↔ (B ⊎ C) → B ↔ (D ⊎ E) → F ↔ (E ⊎ C) → A ↔ (D ⊎ F)
or_shift (f, g) (h, k) (l, m) = (
  λ a. elim (f a) [
    | inl b ↦ elim (h b) [ inl d ↦ inl d | inr e ↦ inr (m (inl e)) ]
    | inr c ↦ inr (m (inr c))
  ],
  λ t. elim t [
    | inl d ↦ g (inl (k (inl d)))
    | inr u ↦ elim (l u) [ inl e ↦ g (inl (k (inr e))) | inr c ↦ g (inr c) ]
  ],
)

-- A node from the id on has the source.
abbrev pub Into : ℕ → List Node → ℕ → ℕ → Type 0
Into id ns s x = (k : ℕ) × ((k < length ns) × ((x ≡ id + k) × (s ∈ (node_at ns k).incoming)))

Into-cons :
    (id : ℕ) (d : Node) (ns : List Node) (s x : ℕ)
    → Into id (d ∷ ns) s x ↔ (((x ≡ id) × (s ∈ d.incoming)) ⊎ Into (id + 1) ns s x)
Into-cons id d ns s x = (split, join)
  where
    split : Into id (d ∷ ns) s x → ((x ≡ id) × (s ∈ d.incoming)) ⊎ Into (id + 1) ns s x
    split (zero, (h, (e, m))) = inl (omega (arith, e), m)
    split (suc k, (h, (e, m))) = inr (k, (omega arith, (omega (arith, e), m)))

    join : ((x ≡ id) × (s ∈ d.incoming)) ⊎ Into (id + 1) ns s x → Into id (d ∷ ns) s x
    join (inl (e, m)) = (0, (omega arith, (omega (arith, e), m)))
    join (inr (k, (h, (e, m)))) = (suc k, (omega arith, (omega (arith, e), m)))

pub connect-init :
    (id : ℕ) (ns : List Node) (init : List ℕ) (edges : List (List ℕ)) (x : ℕ)
    → (x ∈ (connect id ns init edges).0) ↔ ((x ∈ init) ⊎ Into id ns init_id x)
unfolding connect
connect-init id [] init edges x =
    (inl, λ t. elim t [ inl m ↦ m | inr (k, (h, m)) ↦ absurd (omega arith) ])
connect-init id (d ∷ ns) init edges x =
    let r = push_edges id d.incoming init edges in
    or_shift (connect-init (id + 1) ns r.0 r.1 x) (push_edges-init id d.incoming init edges x)
      (Into-cons id d ns init_id x)

pub connect-edge :
    (id : ℕ) (ns : List Node) (init : List ℕ) (edges : List (List ℕ)) (s x : ℕ)
    → s < length edges
    → s ≢ init_id
    → (x ∈ get_or (connect id ns init edges).1 s []) ↔ ((x ∈ get_or edges s []) ⊎ Into id ns s x)
unfolding connect
connect-edge id [] init edges s x h n =
    (inl, λ t. elim t [ inl m ↦ m | inr (k, (h, m)) ↦ absurd (omega arith) ])
connect-edge id (d ∷ ns) init edges s x h n =
    let r = push_edges id d.incoming init edges in
    or_shift
      (connect-edge (id + 1) ns r.0 r.1 s x
        (omega (arith, push_edges-length id d.incoming init edges)) n)
      (push_edges-edge id d.incoming init edges s x h n) (Into-cons id d ns s x)
