-- ===== src/Temporal/Buchi/Labels.antt =====
-- The literals and the acceptance sets that `build_gba` in inquint/src/temporal/buchi.rs gathers.
use inquint.Prelude.{
  ℕ, zero, suc, ◌+◌, ◌<◌, ◌≡◌, ◌↔◌, refl, sym, ap, ◌∙◌, subst, inl, inr, ◌⊎◌, List, [], ◌∷◌, ◌∈◌,
  map, length, get_or, Bool, not, ◌||◌, true, false, some, Option-cases, ok, ◌>>=◌, bind-ok,
  ok_injective, arith,
}
use inquint.Temporal.Ltl.{AtomRef, Lit, Nnf}
use inquint.Temporal.Semantics.{Word, atom_at, LitsHold}
use inquint.Temporal.Buchi.{
  Ids, Node, Builder, has_id, find_id, state_lits_of, edge_lits_of, acc_set, acc_sets_from,
}
use inquint.Temporal.Buchi.Formulas.{has_id_iff}
use inquint.Temporal.Buchi.Growth.{node_at}

pub length-map : {B : Type 0} (f : Node → B) (ns : List Node) → length (map f ns) ≡ length ns
length-map f [] = refl
length-map f (d ∷ ns) = ap suc (length-map f ns)

pub get_or-map :
    {B : Type 0} (f : Node → B) (ns : List Node) (q : ℕ) (z : B)
    → q < length ns
    → get_or (map f ns) q z ≡ f (node_at ns q)
get_or-map f [] q z h = absurd (omega arith)
get_or-map f (d ∷ ns) zero z h = refl
get_or-map f (d ∷ ns) (suc q) z h = get_or-map f ns q z (omega arith)

abbrev pub SetHolds : Word → ℕ → List Nnf → Ids → Type 0
SetHolds w i fs is =
    (x : ℕ) (l : Lit) → x ∈ is → get_or fs x Nnf.falsity ≡ Nnf.lit l → atom_at w l.atom i ≡ l.pos

-- The formula is true at the position if it is a literal.
abbrev LitTrue : Word → ℕ → Nnf → Type 0
LitTrue w i (Nnf.lit l) = atom_at w l.atom i ≡ l.pos
LitTrue w i f = Unit {0}

atom_cases : (a : AtomRef) → ((j : ℕ) × (a ≡ AtomRef.state j)) ⊎ ((j : ℕ) × (a ≡ AtomRef.edge j))
atom_cases (AtomRef.state j) = inl (j, refl)
atom_cases (AtomRef.edge j) = inr (j, refl)

module _ (w : Word) (i : ℕ) (fs : List Nnf) where
  abbrev pub AllTrue : Ids → Type 0
  AllTrue is = LitsHold w i (state_lits_of fs is) × LitsHold w i (edge_lits_of fs is)

  with_state :
      (x : ℕ) (is : Ids) (l : Lit)
      → state_lits_of fs (x ∷ is) ≡ l ∷ state_lits_of fs is
      → edge_lits_of fs (x ∷ is) ≡ edge_lits_of fs is
      → AllTrue (x ∷ is) ↔ ((atom_at w l.atom i ≡ l.pos) × AllTrue is)
  with_state x is l es ee = (
    λ (t, u). let (t0, t1) = subst (LitsHold w i) es t in (t0, (t1, subst (LitsHold w i) ee u)),
    λ (t, (u, v)). (subst (LitsHold w i) (sym es) (t, u), subst (LitsHold w i) (sym ee) v),
  )

  with_edge :
      (x : ℕ) (is : Ids) (l : Lit)
      → state_lits_of fs (x ∷ is) ≡ state_lits_of fs is
      → edge_lits_of fs (x ∷ is) ≡ l ∷ edge_lits_of fs is
      → AllTrue (x ∷ is) ↔ ((atom_at w l.atom i ≡ l.pos) × AllTrue is)
  with_edge x is l es ee = (
    λ (t, u). let (u0, u1) = subst (LitsHold w i) ee u in (u0, (subst (LitsHold w i) es t, u1)),
    λ (t, (u, v)). (subst (LitsHold w i) (sym es) u, subst (LitsHold w i) (sym ee) (t, v)),
  )

  lits-cons :
      (x : ℕ) (is : Ids) (f : Nnf)
      → get_or fs x Nnf.falsity ≡ f
      → AllTrue (x ∷ is) ↔ (LitTrue w i f × AllTrue is)
  unfolding state_lits_of edge_lits_of
  lits-cons x is Nnf.truth e = rw (state_lits_of, edge_lits_of, e) (λ t. (tt, t), λ t. t.1)
  lits-cons x is Nnf.falsity e = rw (state_lits_of, edge_lits_of, e) (λ t. (tt, t), λ t. t.1)
  lits-cons x is (Nnf.both a c) e = rw (state_lits_of, edge_lits_of, e) (λ t. (tt, t), λ t. t.1)
  lits-cons x is (Nnf.either a c) e = rw (state_lits_of, edge_lits_of, e) (λ t. (tt, t), λ t. t.1)
  lits-cons x is (Nnf.until a c) e = rw (state_lits_of, edge_lits_of, e) (λ t. (tt, t), λ t. t.1)
  lits-cons x is (Nnf.release a c) e = rw (state_lits_of, edge_lits_of, e) (λ t. (tt, t), λ t. t.1)
  lits-cons x is (Nnf.lit l) e = elim (atom_cases l.atom) [
    | inl (j, a) ↦ with_state x is l (simp (state_lits_of, e, a)) (simp (edge_lits_of, e, a))
    | inr (j, a) ↦ with_edge x is l (simp (state_lits_of, e, a)) (simp (edge_lits_of, e, a))
  ]

  LitTrue-as : (f : Nnf) (l : Lit) → LitTrue w i f → f ≡ Nnf.lit l → atom_at w l.atom i ≡ l.pos
  LitTrue-as f l t e = subst (LitTrue w i) e t

  as-LitTrue : (f : Nnf) → ((l : Lit) → f ≡ Nnf.lit l → atom_at w l.atom i ≡ l.pos) → LitTrue w i f
  as-LitTrue Nnf.truth h = tt
  as-LitTrue Nnf.falsity h = tt
  as-LitTrue (Nnf.both a c) h = tt
  as-LitTrue (Nnf.either a c) h = tt
  as-LitTrue (Nnf.until a c) h = tt
  as-LitTrue (Nnf.release a c) h = tt
  as-LitTrue (Nnf.lit l) h = h l refl

  pub lits_iff : (is : Ids) → AllTrue is ↔ SetHolds w i fs is
  unfolding state_lits_of edge_lits_of
  lits_iff [] = (λ t x l m. absurd m, λ h. (tt, tt))
  lits_iff (x ∷ is) =
      let (f, g) = lits-cons x is (get_or fs x Nnf.falsity) refl in
      (
        λ t y l m e. elim m [
          | inl eq ↦
              LitTrue-as (get_or fs x Nnf.falsity) l (f t).0
                (ap (λ z. get_or fs z Nnf.falsity) (sym eq) ∙ e)
          | inr n ↦ (lits_iff is).0 (f t).1 y l n e
        ],
        λ h. g (
          as-LitTrue (get_or fs x Nnf.falsity) (λ l e. h x l (inl refl) e),
          (lits_iff is).1 (λ y l m e. h y l (inr m) e),
        ),
      )

pub acc_set_iff :
    (ns : List Node) (x p q : ℕ)
    → q < length ns
    → (get_or (acc_set ns x p) q false ≡ true)
      ↔ ((¬ (x ∈ (node_at ns q).old)) ⊎ (p ∈ (node_at ns q).old))
unfolding acc_set
acc_set_iff ns x p q h =
    let d = node_at ns q in
    subst (λ v. (v ≡ true) ↔ ((¬ (x ∈ d.old)) ⊎ (p ∈ d.old)))
      (sym (get_or-map (λ d. not (has_id d.old x) || has_id d.old p) ns q false h))
      (ground (arith, has_id_iff d.old x, has_id_iff d.old p))

-- The until at the place `k` of the formulas, and its acceptance set.
abbrev pub UntilAt : Builder → ℕ → List Nnf → ℕ → Nnf → Nnf → ℕ → Type 0
UntilAt b fid fs k a c p =
    (k < length fs) × ((get_or fs k Nnf.falsity ≡ Nnf.until a c) × (find_id b.formulas c ≡ some p))

-- Each set is that of an until, and each until has its set.
abbrev pub SetsOk : Builder → ℕ → List Nnf → List (List Bool) → Type 0
SetsOk b fid fs sets =
    ((s : List Bool)
      → s ∈ sets
      → (k : ℕ) × ((a : Nnf) × ((c : Nnf) × ((p : ℕ) × (UntilAt b fid fs k a c p
                × (s ≡ acc_set b.nodes (fid + k) p))))))
    × ((k : ℕ) (a c : Nnf)
        → k < length fs
        → get_or fs k Nnf.falsity ≡ Nnf.until a c
        → (p : ℕ) × ((find_id b.formulas c ≡ some p) × (acc_set b.nodes (fid + k) p ∈ sets)))

skip :
    (b : Builder) (fid : ℕ) (f : Nnf) (fs : List Nnf) (sets : List (List Bool))
    → ((a c : Nnf) → ¬ (f ≡ Nnf.until a c))
    → SetsOk b (fid + 1) fs sets
    → SetsOk b fid (f ∷ fs) sets
skip b fid f fs sets n (h, g) = (
  λ s m.
      let (k, (a, (c, (p, ((lt, u), e))))) = h s m in
      (suc k, (a, (c, (p, ((omega arith, u), e ∙ ap (λ z. acc_set b.nodes z p) (shift k)))))),
  from,
)
  where
    shift : (k : ℕ) → (fid + 1) + k ≡ fid + suc k
    shift k = omega arith

    from :
        (k : ℕ) (a c : Nnf)
        → k < length (f ∷ fs)
        → get_or (f ∷ fs) k Nnf.falsity ≡ Nnf.until a c
        → (p : ℕ) × ((find_id b.formulas c ≡ some p) × (acc_set b.nodes (fid + k) p ∈ sets))
    from zero a c lt e = absurd (n a c e)
    from (suc k) a c lt e =
        let (p, (i, m)) = g k a c (omega arith) e in
        (p, (i, subst (λ z. acc_set b.nodes z p ∈ sets) (shift k) m))

until_right : (a c a' c' : Nnf) → Nnf.until a c ≡ Nnf.until a' c' → c ≡ c'
until_right a c a' c' e = ground arith

-- An until in front, with its set.
add :
    (b : Builder) (fid : ℕ) (a c : Nnf) (fs : List Nnf) (sets : List (List Bool)) (p : ℕ)
    → find_id b.formulas c ≡ some p
    → SetsOk b (fid + 1) fs sets
    → SetsOk b fid (Nnf.until a c ∷ fs) (acc_set b.nodes fid p ∷ sets)
add b fid a c fs sets p i (h, g) = (of_set, from)
  where
    shift : (k : ℕ) → (fid + 1) + k ≡ fid + suc k
    shift k = omega arith

    here : fid ≡ fid + 0
    here = omega arith

    of_set :
        (s : List Bool)
        → s ∈ acc_set b.nodes fid p ∷ sets
        → (k : ℕ) × ((a' : Nnf) × ((c' : Nnf) × ((p' : ℕ) × (UntilAt b fid
                    (Nnf.until a c ∷ fs)
                    k
                    a'
                    c'
                    p'
                  × (s ≡ acc_set b.nodes (fid + k) p')))))
    of_set s (inl e) =
        (0, (a, (c, (p, ((omega arith, (refl, i)), e ∙ ap (λ z. acc_set b.nodes z p) here)))))
    of_set s (inr m) =
        let (k, (a', (c', (p', ((lt, u), e))))) = h s m in
        (suc k, (a', (c', (p', ((omega arith, u), e ∙ ap (λ z. acc_set b.nodes z p') (shift k))))))

    from :
        (k : ℕ) (a' c' : Nnf)
        → k < length (Nnf.until a c ∷ fs)
        → get_or (Nnf.until a c ∷ fs) k Nnf.falsity ≡ Nnf.until a' c'
        → (p' : ℕ) × ((find_id b.formulas c' ≡ some p')
            × (acc_set b.nodes (fid + k) p' ∈ acc_set b.nodes fid p ∷ sets))
    from zero a' c' lt e = (
      p,
      (
        subst (λ f. find_id b.formulas f ≡ some p) (until_right a c a' c' e) i,
        inl (ap (λ z. acc_set b.nodes z p) (sym here)),
      ),
    )
    from (suc k) a' c' lt e =
        let (p', (i', m)) = g k a' c' (omega arith) e in
        (p', (i', inr (subst (λ z. acc_set b.nodes z p' ∈ sets) (shift k) m)))

pub acc_sets_from-SetsOk :
    (b : Builder) (fid : ℕ) (fs : List Nnf) (sets : List (List Bool))
    → acc_sets_from b fid fs ≡ ok sets
    → SetsOk b fid fs sets
unfolding acc_sets_from
acc_sets_from-SetsOk b fid [] sets h =
    (λ s m. absurd (subst (λ l. s ∈ l) (ok_injective (sym h)) m), λ k a c lt. absurd (omega arith))
acc_sets_from-SetsOk b fid (Nnf.until a c ∷ fs) sets h =
    elim (Option-cases (find_id b.formulas c)) [
      | inl e ↦ absurd (ground arith)
      | inr (p, e) ↦
          let (rest, (h', e')) =
            bind-ok (acc_sets_from b (fid + 1) fs) (λ sets. ok (acc_set b.nodes fid p ∷ sets)) sets
              (sym (chain p e) ∙ h) in
          subst (SetsOk b fid (Nnf.until a c ∷ fs)) (ok_injective e')
            (add b fid a c fs rest p e (acc_sets_from-SetsOk b (fid + 1) fs rest h'))
    ]
  where
    chain :
        (p : ℕ)
        → find_id b.formulas c ≡ some p
        → acc_sets_from b fid (Nnf.until a c ∷ fs)
          ≡ acc_sets_from b (fid + 1) fs >>= (λ sets. ok (acc_set b.nodes fid p ∷ sets))
    chain p e = rw (acc_sets_from, e) refl
acc_sets_from-SetsOk b fid (Nnf.truth ∷ fs) sets h =
    skip b fid Nnf.truth fs sets (λ a c e. ground arith)
      (acc_sets_from-SetsOk b (fid + 1) fs sets h)
acc_sets_from-SetsOk b fid (Nnf.falsity ∷ fs) sets h =
    skip b fid Nnf.falsity fs sets (λ a c e. ground arith)
      (acc_sets_from-SetsOk b (fid + 1) fs sets h)
acc_sets_from-SetsOk b fid (Nnf.lit l ∷ fs) sets h =
    skip b fid (Nnf.lit l) fs sets (λ a c e. ground arith)
      (acc_sets_from-SetsOk b (fid + 1) fs sets h)
acc_sets_from-SetsOk b fid (Nnf.both f g ∷ fs) sets h =
    skip b fid (Nnf.both f g) fs sets (λ a c e. ground arith)
      (acc_sets_from-SetsOk b (fid + 1) fs sets h)
acc_sets_from-SetsOk b fid (Nnf.either f g ∷ fs) sets h =
    skip b fid (Nnf.either f g) fs sets (λ a c e. ground arith)
      (acc_sets_from-SetsOk b (fid + 1) fs sets h)
acc_sets_from-SetsOk b fid (Nnf.release f g ∷ fs) sets h =
    skip b fid (Nnf.release f g) fs sets (λ a c e. ground arith)
      (acc_sets_from-SetsOk b (fid + 1) fs sets h)
