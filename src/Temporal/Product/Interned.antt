-- ===== src/Temporal/Product/Interned.antt =====
-- The pairs that `build_product` of inquint/src/temporal/product.rs interns.
use inquint.Prelude.{
  ℕ, zero, suc, ◌+◌, ◌*◌, ◌<◌, ◌≤◌, ◌≡◌, ◌≢◌, refl, sym, ap, ◌∙◌, subst, inl, inr, ◌⊎◌, List, [],
  ◌∷◌, ◌++◌, ◌∈◌, length, length-append, get_or, get_or-append_left, get_or-snoc, Bool-cases, true,
  ◌==◌, ==_iff, none, some, arith,
}
use inquint.State.Arena.{u32_mod}
use inquint.Temporal.Graph
use inquint.Temporal.Graph.{StateGraph, edges_of}
use inquint.Temporal.Buchi.{Gba, n_nodes}
use inquint.Temporal.Product.{Build, sat_state, sat_edge, find_pair}

abbrev pub Pair : Type 0
Pair = ℕ × ℕ

abbrev pub node : Build → ℕ → Pair
node b p = get_or b.nodes p (0, 0)

abbrev pub adj_of : Build → ℕ → List Pair
adj_of b p = get_or b.adj p []

-- The automaton may be in its node with the state, and leave it by the edge for the other pair.
abbrev pub Fits : StateGraph → Gba → Pair → Type 0
Fits g a n = sat_state g n.0 (get_or a.state_lits n.1 []) ≡ true

abbrev pub Step : StateGraph → Gba → Pair → ℕ → Pair → Type 0
Step g a n e m =
    ((e, m.0) ∈ edges_of g n.0)
    × ((sat_edge g e (get_or a.edge_lits n.1 []) ≡ true)
        × ((m.1 ∈ get_or a.edges n.1 []) × Fits g a m))

abbrev pub Bounded : StateGraph → Gba → Pair → Type 0
Bounded g a n = (n.0 < Graph.len g) × (n.1 < n_nodes a)

pub record Sound (g : StateGraph) (a : Gba) (b : Build) : Type 0 where
  pub even : length b.adj ≡ length b.nodes
  pub listed : (p : ℕ) → p ∈ b.worklist → p < length b.nodes
  pub steps :
      (p t e : ℕ)
      → p < length b.nodes
      → (t, e) ∈ adj_of b p
      → (t < length b.nodes) × Step g a (node b p) e (node b t)
  pub bounded : (p : ℕ) → p < length b.nodes → Bounded g a (node b p)
  pub distinct : (p q : ℕ) → p < q → q < length b.nodes → node b p ≢ node b q

pub record Grows (b b' : Build) : Type 0 where
  pub longer : length b.nodes ≤ length b'.nodes
  pub same_nodes : (p : ℕ) → p < length b.nodes → node b' p ≡ node b p
  pub keeps : (p : ℕ) (x : Pair) → p < length b.nodes → x ∈ adj_of b p → x ∈ adj_of b' p
  pub listed_or_old : (p : ℕ) → p < length b'.nodes → (p < length b.nodes) ⊎ (p ∈ b'.worklist)
  pub keeps_listed : (p : ℕ) → p ∈ b.worklist → p ∈ b'.worklist
  pub balance : length b'.nodes + length b.worklist ≡ length b.nodes + length b'.worklist

pub Grows-refl : (b : Build) → Grows b b
Grows-refl b = record {
  longer = omega arith;
  same_nodes = λ p h. refl;
  keeps = λ p x h m. m;
  listed_or_old = λ p h. inl h;
  keeps_listed = λ p m. m;
  balance = refl;
}

pub Grows-trans : (b c d : Build) → Grows b c → Grows c d → Grows b d
Grows-trans b c d x y =
    let l = x.longer in
    let l' = y.longer in
    let e = x.balance in
    let e' = y.balance in
    record {
      longer = omega arith;
      same_nodes = λ p h. y.same_nodes p (omega arith) ∙ x.same_nodes p h;
      keeps = λ p z h m. y.keeps p z (omega arith) (x.keeps p z h m);
      listed_or_old = λ p h. elim (y.listed_or_old p h) [
        | inl h' ↦ elim (x.listed_or_old p h') [ inl o ↦ inl o | inr m ↦ inr (y.keeps_listed p m) ]
        | inr m ↦ inr m
      ];
      keeps_listed = λ p m. y.keeps_listed p (x.keeps_listed p m);
      balance = omega arith;
    }

pub find_pair-some :
    (ns : List Pair) (s q id : ℕ)
    → find_pair ns s q ≡ some id
    → (id < length ns) × (get_or ns id (0, 0) ≡ (s, q))
unfolding find_pair
find_pair-some [] s q id h = absurd (ground arith)
find_pair-some ((s', q') ∷ ns) s q zero h = (
  omega arith,
  both (ground (arith, ==_iff s' s, ==_iff q' q)) (ground (arith, ==_iff s' s, ==_iff q' q)),
)
  where
    both : s' ≡ s → q' ≡ q → ◌≡◌ {A = Pair} (s', q') (s, q)
    both e f = λ i. (e i, f i)
find_pair-some ((s', q') ∷ ns) s q (suc id) h =
    let (l, e) = find_pair-some ns s q id (ground arith) in (omega arith, e)

find_pair-none :
    (ns : List Pair) (s q p : ℕ)
    → find_pair ns s q ≡ none
    → p < length ns
    → get_or ns p (0, 0) ≢ (s, q)
unfolding find_pair
find_pair-none [] s q p h lt e = absurd (omega arith)
find_pair-none ((s', q') ∷ ns) s q zero h lt e =
    let x : (s' == s) ≡ true = (==_iff s' s).1 (ap (λ t. t.0) e) in
    let y : (q' == q) ≡ true = (==_iff q' q).1 (ap (λ t. t.1) e) in ground arith
find_pair-none (n ∷ ns) s q (suc p) h lt e = find_pair-none ns s q p (ground arith) (omega arith) e

-- Every pair of a state and a node of the automaton can have an id of 32 bits.
abbrev pub FewPairs : StateGraph → Gba → Type 0
FewPairs g a = Graph.len g * n_nodes a ≤ u32_mod

-- What interning the pair gives.
abbrev pub Interns : StateGraph → Gba → Build → Pair → Build × ℕ → Type 0
Interns g a b n r = Sound g a r.0 × (Grows b r.0 × ((r.1 < length r.0.nodes) × (node r.0 r.1 ≡ n)))

pub last_or : (p n : ℕ) → p < suc n → (p ≡ n) ⊎ (p < n)
last_or p n h = elim (Bool-cases (p == n)) [
  | inl e ↦ inl ((==_iff p n).0 e)
  | inr e ↦ inr (ground (arith, ==_iff p n))
]

module _ (g : StateGraph) (a : Gba) (b : Build) (s q : ℕ) (ok_ : Sound g a b)
    (bd : Bounded g a (s, q)) (out : find_pair b.nodes s q ≡ none) where
  abbrev pub more : Build
  more = record {
    nodes = b.nodes ++ (s, q) ∷ [];
    adj = b.adj ++ [] ∷ [];
    worklist = length b.nodes ∷ b.worklist;
  }

  pub len_more : length (b.nodes ++ (s, q) ∷ []) ≡ suc (length b.nodes)
  len_more = omega (arith, length-append b.nodes ((s, q) ∷ []))

  old_node : (p : ℕ) → p < length b.nodes → get_or (b.nodes ++ (s, q) ∷ []) p (0, 0) ≡ node b p
  old_node p h = get_or-append_left p b.nodes ((s, q) ∷ []) (0, 0) h

  pub new_node : get_or (b.nodes ++ (s, q) ∷ []) (length b.nodes) (0, 0) ≡ (s, q)
  new_node = get_or-snoc b.nodes (s, q) (0, 0)

  old_adj : (p : ℕ) → p < length b.nodes → get_or (b.adj ++ [] ∷ []) p [] ≡ adj_of b p
  old_adj p h = let e = ok_.even in get_or-append_left p b.adj ([] ∷ []) [] (omega arith)

  new_adj : get_or (b.adj ++ [] ∷ []) (length b.nodes) [] ≡ []
  new_adj = subst (λ k. get_or (b.adj ++ [] ∷ []) k [] ≡ []) ok_.even (get_or-snoc b.adj [] [])

  pub more-Grows : Grows b more
  more-Grows = record {
    longer = omega (arith, len_more);
    same_nodes = old_node;
    keeps = λ p x h m. subst (λ l. x ∈ l) (sym (old_adj p h)) m;
    listed_or_old = λ p h. elim (last_or p (length b.nodes) (omega (arith, len_more))) [
      | inl e ↦ inr (inl e)
      | inr lt ↦ inl lt
    ];
    keeps_listed = λ p m. inr m;
    balance = omega (arith, len_more);
  }

  pub more-Sound : Sound g a more
  more-Sound = record {
    even = let e = ok_.even in omega (arith, len_more, length-append b.adj ([] ∷ []));
    listed = λ p m. elim m [
      | inl e ↦ omega (arith, len_more)
      | inr m' ↦ let l = ok_.listed p m' in omega (arith, len_more)
    ];
    steps = λ p t e h m. elim (last_or p (length b.nodes) (omega (arith, len_more))) [
      | inl eq ↦
          absurd (subst (λ l. (t, e) ∈ l) (ap (λ k. get_or (b.adj ++ [] ∷ []) k []) eq ∙ new_adj) m)
      | inr lt ↦
          let (lt', st) = ok_.steps p t e lt (subst (λ l. (t, e) ∈ l) (old_adj p lt) m) in
          (
            omega (arith, len_more),
            subst (λ x. Step g a x e (get_or (b.nodes ++ (s, q) ∷ []) t (0, 0)))
                (sym (old_node p lt)) (subst (Step g a (node b p) e) (sym (old_node t lt')) st),
          )
    ];
    bounded = λ p h. elim (last_or p (length b.nodes) (omega (arith, len_more))) [
      | inl eq ↦
          subst (Bounded g a)
            (sym (ap (λ k. get_or (b.nodes ++ (s, q) ∷ []) k (0, 0)) eq ∙ new_node)) bd
      | inr lt ↦ subst (Bounded g a) (sym (old_node p lt)) (ok_.bounded p lt)
    ];
    distinct = λ p p' lt h e. elim (last_or p' (length b.nodes) (omega (arith, len_more))) [
      | inl eq ↦ find_pair-none b.nodes s q p out (omega arith) (
          sym (old_node p (omega arith))
          ∙ (e ∙ (ap (λ k. get_or (b.nodes ++ (s, q) ∷ []) k (0, 0)) eq ∙ new_node)))
      | inr lt' ↦ ok_.distinct p p' lt lt' (sym (old_node p (omega arith)) ∙ (e ∙ old_node p' lt'))
    ];
  }
