-- ===== src/Temporal/Buchi/Formulas.antt =====
-- The interned formulas of inquint/src/temporal/buchi.rs: ids keep their formulas.
use inquint.Prelude.{
  ℕ, zero, suc, ◌<◌, ◌≤◌, ◌≡◌, ◌↔◌, ◌⊎◌, inl, inr, refl, sym, ap, ◌∙◌, Bool, true, false, ◌&&◌,
  none, some, Option-cases, List, [], ◌∷◌, ◌++◌, ◌∈◌, length, length-append, get_or,
  get_or-append_left, get_or-snoc, ==_iff, append_assoc, append-nil, arith,
}
use inquint.Order.Sort.{set_insert}
use inquint.Order.Instances.{nat_ordered}
use inquint.Temporal.Ltl.{AtomRef, Lit, Nnf}
use inquint.Temporal.Buchi.{Ids, atom_eq, bool_eq, nnf_eq, find_id, intern, has_id, insert_unless}

atom_eq→≡ : (a b : AtomRef) → atom_eq a b ≡ true → a ≡ b
atom_eq→≡ (AtomRef.state i) (AtomRef.state j) h = ap AtomRef.state ((==_iff i j).0 h)
atom_eq→≡ (AtomRef.edge i) (AtomRef.edge j) h = ap AtomRef.edge ((==_iff i j).0 h)
atom_eq→≡ a b h = absurd (ground arith)

bool_eq→≡ : (a b : Bool) → bool_eq a b ≡ true → a ≡ b
bool_eq→≡ true b h = sym h
bool_eq→≡ false true h = absurd (ground arith)
bool_eq→≡ false false h = refl

and_split : (a b : Bool) → (a && b) ≡ true → (a ≡ true) × (b ≡ true)
and_split true b h = (refl, h)
and_split false b h = absurd (ground arith)

pub nnf_eq→≡ : (f g : Nnf) → nnf_eq f g ≡ true → f ≡ g
unfolding nnf_eq
nnf_eq→≡ Nnf.truth Nnf.truth h = refl
nnf_eq→≡ Nnf.falsity Nnf.falsity h = refl
nnf_eq→≡ (Nnf.lit l) (Nnf.lit m) h =
    let (a, b) = and_split (atom_eq l.atom m.atom) (bool_eq l.pos m.pos) h in
    ap Nnf.lit (rec_eq (atom_eq→≡ l.atom m.atom a) (bool_eq→≡ l.pos m.pos b))
  where
    rec_eq : {l m : Lit} → l.atom ≡ m.atom → l.pos ≡ m.pos → l ≡ m
    rec_eq {l} {m} e f = λ i. record { atom = e i; pos = f i }
nnf_eq→≡ (Nnf.both a b) (Nnf.both c d) h =
    let (x, y) = and_split (nnf_eq a c) (nnf_eq b d) h in rw (nnf_eq→≡ a c x, nnf_eq→≡ b d y) refl
nnf_eq→≡ (Nnf.either a b) (Nnf.either c d) h =
    let (x, y) = and_split (nnf_eq a c) (nnf_eq b d) h in rw (nnf_eq→≡ a c x, nnf_eq→≡ b d y) refl
nnf_eq→≡ (Nnf.until a b) (Nnf.until c d) h =
    let (x, y) = and_split (nnf_eq a c) (nnf_eq b d) h in rw (nnf_eq→≡ a c x, nnf_eq→≡ b d y) refl
nnf_eq→≡ (Nnf.release a b) (Nnf.release c d) h =
    let (x, y) = and_split (nnf_eq a c) (nnf_eq b d) h in rw (nnf_eq→≡ a c x, nnf_eq→≡ b d y) refl
nnf_eq→≡ f g h = absurd (ground arith)

atom_eq_refl : (a : AtomRef) → atom_eq a a ≡ true
atom_eq_refl (AtomRef.state i) = (==_iff i i).1 refl
atom_eq_refl (AtomRef.edge i) = (==_iff i i).1 refl

bool_eq_refl : (b : Bool) → bool_eq b b ≡ true
bool_eq_refl true = refl
bool_eq_refl false = refl

pub nnf_eq_refl : (f : Nnf) → nnf_eq f f ≡ true
unfolding nnf_eq
nnf_eq_refl Nnf.truth = refl
nnf_eq_refl Nnf.falsity = refl
nnf_eq_refl (Nnf.lit l) = rw (atom_eq_refl l.atom, bool_eq_refl l.pos) refl
nnf_eq_refl (Nnf.both a b) = rw (nnf_eq_refl a, nnf_eq_refl b) refl
nnf_eq_refl (Nnf.either a b) = rw (nnf_eq_refl a, nnf_eq_refl b) refl
nnf_eq_refl (Nnf.until a b) = rw (nnf_eq_refl a, nnf_eq_refl b) refl
nnf_eq_refl (Nnf.release a b) = rw (nnf_eq_refl a, nnf_eq_refl b) refl

-- The id stands for the formula.
abbrev pub Stands : List Nnf → ℕ → Nnf → Type 0
Stands fs i f = (i < length fs) × (get_or fs i Nnf.falsity ≡ f)

-- The formulas go on from `fs`.
abbrev pub Extends : List Nnf → List Nnf → Type 0
Extends fs gs = (hs : List Nnf) × (gs ≡ fs ++ hs)

pub Extends-refl : (fs : List Nnf) → Extends fs fs
Extends-refl fs = ([], sym (append-nil fs))

pub Extends-trans : (fs gs hs : List Nnf) → Extends fs gs → Extends gs hs → Extends fs hs
Extends-trans fs gs hs (xs, e) (ys, f) =
    (xs ++ ys, f ∙ (ap (λ l. l ++ ys) e ∙ append_assoc fs xs ys))

pub Stands-Extends :
    (fs gs : List Nnf) (i : ℕ) (f : Nnf) → Extends fs gs → Stands fs i f → Stands gs i f
Stands-Extends fs gs i f (hs, e) (h, s) = (
  omega (arith, ap length e, length-append fs hs),
  rw e (get_or-append_left i fs hs Nnf.falsity h ∙ s),
)

pub find_id-Stands : (fs : List Nnf) (f : Nnf) (i : ℕ) → find_id fs f ≡ some i → Stands fs i f
unfolding find_id
find_id-Stands [] f i h = absurd (ground arith)
find_id-Stands (g ∷ fs) f zero h = (omega arith, ground (arith, nnf_eq→≡ g f))
find_id-Stands (g ∷ fs) f (suc i) h =
    let (a, b) = find_id-Stands fs f i (ground arith) in (omega arith, b)

pub find_id-none : (fs : List Nnf) (f : Nnf) → find_id fs f ≡ none → ¬ (f ∈ fs)
unfolding find_id
find_id-none [] f h m = m
find_id-none (g ∷ fs) f h (inl e) =
    let same : nnf_eq g f ≡ true = rw e (nnf_eq_refl g) in ground arith
find_id-none (g ∷ fs) f h (inr m) = find_id-none fs f (ground arith) m

-- What interning gives.
abbrev pub Interned : List Nnf → Nnf → List Nnf × ℕ → Type 0
Interned fs f r = Extends fs r.0 × Stands r.0 r.1 f

pub intern-Interned : (fs : List Nnf) (f : Nnf) → Interned fs f (intern fs f)
unfolding intern
intern-Interned fs f = elim (Option-cases (find_id fs f)) [
  | inl n ↦
      rw (intern, n)
        ((f ∷ [], refl), (omega (arith, length-append fs (f ∷ [])), get_or-snoc fs f Nnf.falsity))
  | inr (i, e) ↦ rw (intern, e) (Extends-refl fs, find_id-Stands fs f i e)
]

pub has_id_iff : (s : Ids) (i : ℕ) → (has_id s i ≡ true) ↔ (i ∈ s)
unfolding has_id
has_id_iff [] i = ground arith
has_id_iff (j ∷ s) i = ground (arith, ==_iff j i, has_id_iff s i)

pub mem-set_insert : (i j : ℕ) (s : Ids) → (i ∈ set_insert j s) ↔ ((i ≡ j) ⊎ (i ∈ s))
unfolding set_insert
mem-set_insert i j [] = (λ m. m, λ m. m)
mem-set_insert i j (x ∷ s) = ground (arith, mem-set_insert i j s)

pub mem-insert_unless :
    (i j : ℕ) (old new : Ids) → (i ∈ insert_unless old j new → (i ≡ j) ⊎ (i ∈ new))
unfolding insert_unless
mem-insert_unless i j old new m = ground (arith, mem-set_insert i j new)

pub insert_unless-new : (i j : ℕ) (old new : Ids) → i ∈ new → i ∈ insert_unless old j new
unfolding insert_unless
insert_unless-new i j old new m = ground (arith, mem-set_insert i j new)

pub insert_unless_self : (j : ℕ) (old new : Ids) → (j ∈ insert_unless old j new) ⊎ (j ∈ old)
unfolding insert_unless
insert_unless_self j old new = ground (arith, mem-set_insert j j new, has_id_iff old j)

pub lt_or_ge : (m n : ℕ) → (m < n) ⊎ (n ≤ m)
lt_or_ge m zero = inr (omega arith)
lt_or_ge zero (suc n) = inl (omega arith)
lt_or_ge (suc m) (suc n) = elim (lt_or_ge m n) [
  | inl h ↦ inl (omega arith)
  | inr h ↦ inr (omega arith)
]
