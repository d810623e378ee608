-- ===== src/Temporal/Buchi/Subformulas.antt =====
-- The tableau of inquint/src/temporal/buchi.rs interns no formula but subformulas of the root.
use inquint.Prelude.{
  ℕ, zero, suc, ◌<◌, ◌≤◌, ◌≡◌, ◌≢◌, refl, sym, ap, ◌∙◌, subst, inl, inr, List, [], ◌∷◌, ◌++◌, ◌∈◌,
  mem_append_left, mem_append_right, mem_append_cases, length, length-append, get_or,
  get_or-append_left, get_or-snoc, pigeonhole, Option, some, Option-cases, Bool-cases, ◌==◌, ==_iff,
  arith,
}
use inquint.Temporal.Ltl.{Nnf}
use inquint.Temporal.Buchi.{Ids, find_id, intern, arm, size}
use inquint.Temporal.Buchi.Formulas.{lt_or_ge}
use inquint.Temporal.Buchi.Distinct.{Indexed, arm-Indexed}

-- A formula and all that it is made of.
pub subformulas : Nnf → List Nnf
subformulas Nnf.truth = Nnf.truth ∷ []
subformulas Nnf.falsity = Nnf.falsity ∷ []
subformulas (Nnf.lit l) = Nnf.lit l ∷ []
subformulas (Nnf.both a b) = Nnf.both a b ∷ (subformulas a ++ subformulas b)
subformulas (Nnf.either a b) = Nnf.either a b ∷ (subformulas a ++ subformulas b)
subformulas (Nnf.until a b) = Nnf.until a b ∷ (subformulas a ++ subformulas b)
subformulas (Nnf.release a b) = Nnf.release a b ∷ (subformulas a ++ subformulas b)

length-subformulas : (f : Nnf) → length (subformulas f) ≡ size f
unfolding subformulas size
length-subformulas Nnf.truth = refl
length-subformulas Nnf.falsity = refl
length-subformulas (Nnf.lit l) = refl
length-subformulas (Nnf.both a b) = omega (
  arith,
  length-append (subformulas a) (subformulas b),
  length-subformulas a,
  length-subformulas b,
)
length-subformulas (Nnf.either a b) = omega (
  arith,
  length-append (subformulas a) (subformulas b),
  length-subformulas a,
  length-subformulas b,
)
length-subformulas (Nnf.until a b) = omega (
  arith,
  length-append (subformulas a) (subformulas b),
  length-subformulas a,
  length-subformulas b,
)
length-subformulas (Nnf.release a b) = omega (
  arith,
  length-append (subformulas a) (subformulas b),
  length-subformulas a,
  length-subformulas b,
)

-- The parts of a formula are in the list.
abbrev pub PartsIn : List Nnf → Nnf → Type 0
PartsIn gs (Nnf.both a b) = (a ∈ gs) × (b ∈ gs)
PartsIn gs (Nnf.either a b) = (a ∈ gs) × (b ∈ gs)
PartsIn gs (Nnf.until a b) = (a ∈ gs) × (b ∈ gs)
PartsIn gs (Nnf.release a b) = (a ∈ gs) × (b ∈ gs)
PartsIn gs f = Unit {0}

PartsIn-mono :
    (gs hs : List Nnf) (f : Nnf) → ((g : Nnf) → g ∈ gs → g ∈ hs) → PartsIn gs f → PartsIn hs f
PartsIn-mono gs hs Nnf.truth m p = tt
PartsIn-mono gs hs Nnf.falsity m p = tt
PartsIn-mono gs hs (Nnf.lit l) m p = tt
PartsIn-mono gs hs (Nnf.both a b) m (p, q) = (m a p, m b q)
PartsIn-mono gs hs (Nnf.either a b) m (p, q) = (m a p, m b q)
PartsIn-mono gs hs (Nnf.until a b) m (p, q) = (m a p, m b q)
PartsIn-mono gs hs (Nnf.release a b) m (p, q) = (m a p, m b q)

mem-self : (f : Nnf) → f ∈ subformulas f
unfolding subformulas
mem-self Nnf.truth = inl refl
mem-self Nnf.falsity = inl refl
mem-self (Nnf.lit l) = inl refl
mem-self (Nnf.both a b) = inl refl
mem-self (Nnf.either a b) = inl refl
mem-self (Nnf.until a b) = inl refl
mem-self (Nnf.release a b) = inl refl

-- The subformulas of the two parts, with the formula itself.
module _ (top a b : Nnf) (gs : List Nnf) (e : gs ≡ top ∷ (subformulas a ++ subformulas b)) where
  left_in : (g : Nnf) → g ∈ subformulas a → g ∈ gs
  left_in g m =
      subst (λ l. g ∈ l) (sym e) (inr (mem_append_left g (subformulas a) (subformulas b) m))

  right_in : (g : Nnf) → g ∈ subformulas b → g ∈ gs
  right_in g m =
      subst (λ l. g ∈ l) (sym e) (inr (mem_append_right g (subformulas a) (subformulas b) m))

  parts_step :
      ((a ∈ gs) × (b ∈ gs) → PartsIn gs top)
      → ((g : Nnf) → g ∈ subformulas a → PartsIn (subformulas a) g)
      → ((g : Nnf) → g ∈ subformulas b → PartsIn (subformulas b) g)
      → (g : Nnf) → g ∈ gs
      → PartsIn gs g
  parts_step own ha hb g m = elim (subst (λ l. g ∈ l) e m) [
    | inl eq ↦ subst (PartsIn gs) (sym eq) (own (left_in a (mem-self a), right_in b (mem-self b)))
    | inr m' ↦ elim (mem_append_cases g (subformulas a) (subformulas b) m') [
      | inl l ↦ PartsIn-mono (subformulas a) gs g left_in (ha g l)
      | inr r ↦ PartsIn-mono (subformulas b) gs g right_in (hb g r)
    ]
  ]

parts : (f g : Nnf) → g ∈ subformulas f → PartsIn (subformulas f) g
unfolding subformulas
parts Nnf.truth g m = elim m [
  | inl e ↦ subst (PartsIn (Nnf.truth ∷ [])) (sym e) tt
  | inr n ↦ absurd n
]
parts Nnf.falsity g m = elim m [
  | inl e ↦ subst (PartsIn (Nnf.falsity ∷ [])) (sym e) tt
  | inr n ↦ absurd n
]
parts (Nnf.lit l) g m = elim m [
  | inl e ↦ subst (PartsIn (Nnf.lit l ∷ [])) (sym e) tt
  | inr n ↦ absurd n
]
parts (Nnf.both a b) g m =
    parts_step (Nnf.both a b) a b (subformulas (Nnf.both a b)) refl (λ p. p) (parts a) (parts b) g m
parts (Nnf.either a b) g m =
    parts_step (Nnf.either a b) a b (subformulas (Nnf.either a b)) refl (λ p. p) (parts a) (parts b)
      g m
parts (Nnf.until a b) g m =
    parts_step (Nnf.until a b) a b (subformulas (Nnf.until a b)) refl (λ p. p) (parts a) (parts b) g
      m
parts (Nnf.release a b) g m =
    parts_step (Nnf.release a b) a b (subformulas (Nnf.release a b)) refl (λ p. p) (parts a)
      (parts b) g m

-- All formulas are in the list.
abbrev pub Within : List Nnf → List Nnf → Type 0
Within gs fs = (x : ℕ) → x < length fs → get_or fs x Nnf.falsity ∈ gs

intern-Within : (gs fs : List Nnf) (f : Nnf) → f ∈ gs → Within gs fs → Within gs (intern fs f).0
unfolding intern
intern-Within gs fs f m h = elim (Option-cases (find_id fs f)) [
  | inr (i, e) ↦ rw (intern, e) h
  | inl e ↦
      rw (intern, e)
        (λ x lt. elim (Bool-cases (x == length fs)) [
          | inl eq ↦
              subst (λ g. g ∈ gs)
                (sym (
                  ap (λ z. get_or (fs ++ f ∷ []) z Nnf.falsity) ((==_iff x (length fs)).0 eq)
                  ∙ get_or-snoc fs f Nnf.falsity))
                m
          | inr ne ↦
              let lt' : x < length fs =
                ground (arith, ==_iff x (length fs), length-append fs (f ∷ [])) in
              subst (λ g. g ∈ gs) (sym (get_or-append_left x fs (f ∷ []) Nnf.falsity lt')) (h x lt')
        ])
]

arm-Within :
    (gs fs : List Nnf) (eta : ℕ) (f : Nnf) (new old next : Ids)
    → PartsIn gs f
    → Within gs fs
    → Within gs (arm fs eta f new old next).0
unfolding arm intern
arm-Within gs fs eta Nnf.truth new old next p h = h
arm-Within gs fs eta Nnf.falsity new old next p h = h
arm-Within gs fs eta (Nnf.lit l) new old next p h = h
arm-Within gs fs eta (Nnf.both a b) new old next (p, q) h =
    intern-Within gs (intern fs a).0 b q (intern-Within gs fs a p h)
arm-Within gs fs eta (Nnf.either a b) new old next (p, q) h =
    intern-Within gs (intern fs a).0 b q (intern-Within gs fs a p h)
arm-Within gs fs eta (Nnf.until a b) new old next (p, q) h =
    intern-Within gs (intern fs a).0 b q (intern-Within gs fs a p h)
arm-Within gs fs eta (Nnf.release a b) new old next (p, q) h =
    intern-Within gs (intern fs a).0 b q (intern-Within gs fs a p h)

pub beyond : (fs : List Nnf) (x : ℕ) → length fs ≤ x → get_or fs x Nnf.falsity ≡ Nnf.falsity
beyond [] x h = refl
beyond (f ∷ fs) zero h = absurd (omega arith)
beyond (f ∷ fs) (suc x) h = beyond fs x (omega arith)

-- The formulas are subformulas of the root, one id each.
abbrev pub Formulas : Nnf → List Nnf → Type 0
Formulas root fs = Indexed fs × Within (subformulas root) fs

pub root-Formulas : (root : Nnf) → Indexed (root ∷ []) → Formulas root (root ∷ [])
root-Formulas root ix = (ix, first)
  where
    first : Within (subformulas root) (root ∷ [])
    first zero h = mem-self root
    first (suc x) h = absurd (omega arith)

pub length-Formulas : (root : Nnf) (fs : List Nnf) → Formulas root fs → length fs ≤ size root
length-Formulas root fs (ix, h) = omega (
  arith,
  length-subformulas root,
  pigeonhole (length fs) (λ x. get_or fs x Nnf.falsity) (subformulas root) h
      (λ i j lt lt' e. absurd (clash i j lt lt' e)),
)
  where
    clash : (i j : ℕ) → i < j → j < length fs → get_or fs i Nnf.falsity ≢ get_or fs j Nnf.falsity
    clash i j lt lt' e =
        let two : ◌≡◌ {A = Option ℕ} (some i) (some j) =
          sym (ix i (omega arith)) ∙ (ap (find_id fs) e ∙ ix j lt') in
        ground arith

pub arm-Formulas :
    (root : Nnf) (fs : List Nnf) (eta : ℕ) (new old next : Ids)
    → Formulas root fs
    → Formulas root (arm fs eta (get_or fs eta Nnf.falsity) new old next).0
arm-Formulas root fs eta new old next (ix, h) =
    let f = get_or fs eta Nnf.falsity in
    (
      arm-Indexed fs eta f new old next ix,
      arm-Within (subformulas root) fs eta f new old next (own eta) h,
    )
  where
    own : (eta : ℕ) → PartsIn (subformulas root) (get_or fs eta Nnf.falsity)
    own eta = elim (lt_or_ge eta (length fs)) [
      | inl lt ↦ parts root (get_or fs eta Nnf.falsity) (h eta lt)
      | inr ge ↦ subst (PartsIn (subformulas root)) (sym (beyond fs eta ge)) tt
    ]

pub size_positive : (f : Nnf) → 0 < size f
unfolding size
size_positive Nnf.truth = omega arith
size_positive Nnf.falsity = omega arith
size_positive (Nnf.lit l) = omega arith
size_positive (Nnf.both a b) = omega arith
size_positive (Nnf.either a b) = omega arith
size_positive (Nnf.until a b) = omega arith
size_positive (Nnf.release a b) = omega arith
