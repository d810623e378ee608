-- ===== src/Temporal/Buchi/Arms.antt =====
-- The arms of `expand` in inquint/src/temporal/buchi.rs: what the recursive calls take on.
use inquint.Prelude.{ℕ, ◌<◌, ◌≡◌, ◌⊎◌, inl, inr, refl, Bool-cases, List, [], ◌∷◌, ◌∈◌, length}
use inquint.Order.Sort.{set_insert}
use inquint.Order.Instances.{nat_ordered}
use inquint.Temporal.Ltl.{Nnf}
use inquint.Temporal.Buchi.{Ids, Call, intern, insert_unless, arm, contradicts}
use inquint.Temporal.Buchi.Formulas.{
  Stands, Extends, Extends-refl, Extends-trans, Stands-Extends, intern-Interned, mem-set_insert,
  mem-insert_unless, insert_unless-new, insert_unless_self,
}

abbrev pub AllCalls : (Call → Type 0) → List Call → Type 0
AllCalls P [] = Unit {0}
AllCalls P (c ∷ cs) = P c × AllCalls P cs

-- An id of the formula is in the set.
abbrev pub Has : List Nnf → (ℕ → Type 0) → Nnf → Type 0
Has fs U f = (i : ℕ) × (Stands fs i f × U i)

-- What the formula with the id `x` demands of the sets of formulas now, `U`, and next, `N`.
abbrev pub Demands : List Nnf → (ℕ → Type 0) → (ℕ → Type 0) → ℕ → Nnf → Type 0
Demands fs U N x Nnf.truth = Unit {0}
Demands fs U N x Nnf.falsity = ⊥
Demands fs U N x (Nnf.lit l) = Unit {0}
Demands fs U N x (Nnf.both a b) = Has fs U a × Has fs U b
Demands fs U N x (Nnf.either a b) = Has fs U a ⊎ Has fs U b
Demands fs U N x (Nnf.until a b) = (Has fs U a × N x) ⊎ Has fs U b
Demands fs U N x (Nnf.release a b) = (Has fs U b × N x) ⊎ (Has fs U a × Has fs U b)

-- The formulas that a call still has to treat or has treated.
abbrev pub Current : Ids → Ids → ℕ → Type 0
Current new old i = (i ∈ new) ⊎ (i ∈ old)

pub Has-Extends :
    (fs gs : List Nnf) (U V : ℕ → Type 0) (f : Nnf)
    → Extends fs gs
    → ((i : ℕ) → U i → V i)
    → Has fs U f
    → Has gs V f
Has-Extends fs gs U V f e m (i, (s, u)) = (i, (Stands-Extends fs gs i f e s, m i u))

pub Demands-mono :
    (fs gs : List Nnf) (U V N M : ℕ → Type 0) (x : ℕ) (f : Nnf)
    → Extends fs gs
    → ((i : ℕ) → U i → V i)
    → ((i : ℕ) → N i → M i)
    → Demands fs U N x f
    → Demands gs V M x f
Demands-mono fs gs U V N M x Nnf.truth e u n d = tt
Demands-mono fs gs U V N M x Nnf.falsity e u n d = d
Demands-mono fs gs U V N M x (Nnf.lit l) e u n d = tt
Demands-mono fs gs U V N M x (Nnf.both a b) e u n (p, q) =
    (Has-Extends fs gs U V a e u p, Has-Extends fs gs U V b e u q)
Demands-mono fs gs U V N M x (Nnf.either a b) e u n (inl p) = inl (Has-Extends fs gs U V a e u p)
Demands-mono fs gs U V N M x (Nnf.either a b) e u n (inr q) = inr (Has-Extends fs gs U V b e u q)
Demands-mono fs gs U V N M x (Nnf.until a b) e u n (inl (p, k)) =
    inl (Has-Extends fs gs U V a e u p, n x k)
Demands-mono fs gs U V N M x (Nnf.until a b) e u n (inr q) = inr (Has-Extends fs gs U V b e u q)
Demands-mono fs gs U V N M x (Nnf.release a b) e u n (inl (p, k)) =
    inl (Has-Extends fs gs U V b e u p, n x k)
Demands-mono fs gs U V N M x (Nnf.release a b) e u n (inr (p, q)) =
    inr (Has-Extends fs gs U V a e u p, Has-Extends fs gs U V b e u q)

-- How a call goes on from the sets of the arm, with the formulas `fs` behind it.
pub record GoesOn (fs : List Nnf) (eta : ℕ) (f : Nnf) (new old next : Ids) (c : Call) : Type 0 where
  pub treats : c.old ≡ set_insert eta old
  pub keeps : (i : ℕ) → i ∈ new → i ∈ c.new
  pub adds : (i : ℕ) → i ∈ c.new → (i ∈ new) ⊎ (i < length fs)
  pub carries : (i : ℕ) → i ∈ next → i ∈ c.next
  pub defers : (i : ℕ) → i ∈ c.next → (i ≡ eta) ⊎ (i ∈ next)
  pub demands : Demands fs (Current c.new c.old) (λ i. i ∈ c.next) eta f

-- An id that is added to `new` unless it is in a part of `old`.
module _ (old new : Ids) (j : ℕ) where
  Current-insert_unless :
      (old2 : Ids) → ((i : ℕ) → i ∈ old → i ∈ old2) → Current (insert_unless old j new) old2 j
  Current-insert_unless old2 h = elim (insert_unless_self j old new) [
    | inl m ↦ inl m
    | inr m ↦ inr (h j m)
  ]

  adds-insert_unless : (n : ℕ) → j < n → (i : ℕ) → i ∈ insert_unless old j new → (i ∈ new) ⊎ (i < n)
  adds-insert_unless n h i m = elim (mem-insert_unless i j old new m) [
    | inl e ↦ inr (rw e h)
    | inr k ↦ inl k
  ]

old_kept : (eta : ℕ) (old : Ids) (i : ℕ) → i ∈ old → i ∈ set_insert eta old
old_kept eta old i m = (mem-set_insert i eta old).1 (inr m)

deferred : (eta : ℕ) (next : Ids) → eta ∈ set_insert eta next
deferred eta next = (mem-set_insert eta eta next).1 (inl refl)

module _ (fs : List Nnf) (eta : ℕ) (new old next : Ids) where
  abbrev pub ArmOk : Nnf → Type 0
  ArmOk f =
      let r = arm fs eta f new old next in
      Extends fs r.0 × AllCalls (GoesOn r.0 eta f new old next) r.1

  simple :
      (f : Nnf) (gs : List Nnf)
      → Demands gs (Current new (set_insert eta old)) (λ i. i ∈ next) eta f
      → GoesOn gs eta f new old next (record { new = new; old = set_insert eta old; next = next })
  simple f gs d = record {
    treats = refl;
    keeps = λ i m. m;
    adds = λ i m. inl m;
    carries = λ i m. m;
    defers = λ i m. inr m;
    demands = d;
  }

  one_more :
      (f : Nnf) (gs : List Nnf) (j : ℕ) (a : Nnf) (o : Ids)
      → ((i : ℕ) → i ∈ o → i ∈ set_insert eta old)
      → Stands gs j a
      → (Has gs (Current (insert_unless o j new) (set_insert eta old)) a
          → Demands gs (Current (insert_unless o j new) (set_insert eta old)) (λ i. i ∈ next) eta f)
      → GoesOn gs eta f new old next
          (record { new = insert_unless o j new; old = set_insert eta old; next = next })
  one_more f gs j a o h s d = record {
    treats = refl;
    keeps = λ i m. insert_unless-new i j o new m;
    adds = adds-insert_unless o new j (length gs) s.0;
    carries = λ i m. m;
    defers = λ i m. inr m;
    demands = d (j, (s, Current-insert_unless o new j (set_insert eta old) h));
  }

  one_more_deferred :
      (f : Nnf) (gs : List Nnf) (j : ℕ) (a : Nnf)
      → Stands gs j a
      → (Has gs (Current (insert_unless (set_insert eta old) j new) (set_insert eta old)) a
          → Demands gs
              (Current (insert_unless (set_insert eta old) j new) (set_insert eta old))
              (λ i. i ∈ set_insert eta next)
              eta
              f)
      → GoesOn gs eta f new old next (record {
        new = insert_unless (set_insert eta old) j new;
        old = set_insert eta old;
        next = set_insert eta next;
      })
  one_more_deferred f gs j a s d = record {
    treats = refl;
    keeps = λ i m. insert_unless-new i j (set_insert eta old) new m;
    adds = adds-insert_unless (set_insert eta old) new j (length gs) s.0;
    carries = λ i m. old_kept eta next i m;
    defers = λ i m. (mem-set_insert i eta next).0 m;
    demands =
        d (
          j,
          (s, Current-insert_unless (set_insert eta old) new j (set_insert eta old) (λ i m. m)),
        );
  }

  two_more :
      (f : Nnf) (gs : List Nnf) (j k : ℕ) (a b : Nnf) (o : Ids)
      → ((i : ℕ) → i ∈ o → i ∈ set_insert eta old)
      → Stands gs j a
      → Stands gs k b
      → (Has gs (Current (insert_unless o k (insert_unless o j new)) (set_insert eta old)) a
          → Has gs (Current (insert_unless o k (insert_unless o j new)) (set_insert eta old)) b
          → Demands gs
              (Current (insert_unless o k (insert_unless o j new)) (set_insert eta old))
              (λ i. i ∈ next)
              eta
              f)
      → GoesOn gs eta f new old next (record {
        new = insert_unless o k (insert_unless o j new);
        old = set_insert eta old;
        next = next;
      })
  two_more f gs j k a b o h s t d = record {
    treats = refl;
    keeps = λ i m. insert_unless-new i k o _ (insert_unless-new i j o new m);
    adds = λ i m. elim (adds-insert_unless o (insert_unless o j new) k (length gs) t.0 i m) [
      | inl n ↦ adds-insert_unless o new j (length gs) s.0 i n
      | inr l ↦ inr l
    ];
    carries = λ i m. m;
    defers = λ i m. inr m;
    demands =
        d
          (
            j,
            (
              s,
              elim (Current-insert_unless o new j (set_insert eta old) h) [
                | inl m ↦ inl (insert_unless-new j k o _ m)
                | inr m ↦ inr m
              ],
            ),
          )
          (k, (t, Current-insert_unless o (insert_unless o j new) k (set_insert eta old) h));
  }

  -- The two formulas of an arm, interned one after the other.
  abbrev pub Both : Nnf → Nnf → Type 0
  Both a b =
      let r = intern fs a in
      let q = intern r.0 b in Extends fs q.0 × (Stands q.0 r.1 a × Stands q.0 q.1 b)

  pub Both-interned : (a b : Nnf) → Both a b
  Both-interned a b =
      let r = intern fs a in
      let (e, s) = intern-Interned fs a in
      let (e', s') = intern-Interned r.0 b in
      (
        Extends-trans fs r.0 (intern r.0 b).0 e e',
        (Stands-Extends r.0 (intern r.0 b).0 r.1 a e' s, s'),
      )

  pub arm-ArmOk : (f : Nnf) → ArmOk f
  unfolding arm
  arm-ArmOk Nnf.truth = (Extends-refl fs, (simple Nnf.truth fs tt, tt))
  arm-ArmOk Nnf.falsity = (Extends-refl fs, tt)
  arm-ArmOk (Nnf.lit l) = elim (Bool-cases (contradicts fs old l)) [
    | inl e ↦ rw (arm, e) (Extends-refl fs, tt)
    | inr e ↦ rw (arm, e) (Extends-refl fs, (simple (Nnf.lit l) fs tt, tt))
  ]
  arm-ArmOk (Nnf.both a b) =
      let (e, (s, t)) = Both-interned a b in
      (e, (two_more (Nnf.both a b) _ _ _ a b old (old_kept eta old) s t (λ p q. (p, q)), tt))
  arm-ArmOk (Nnf.either a b) =
      let (e, (s, t)) = Both-interned a b in
      (
        e,
        (
          one_more (Nnf.either a b) _ _ a (set_insert eta old) (λ i m. m) s (λ p. inl p),
          (one_more (Nnf.either a b) _ _ b (set_insert eta old) (λ i m. m) t (λ q. inr q), tt),
        ),
      )
  arm-ArmOk (Nnf.until a b) =
      let (e, (s, t)) = Both-interned a b in
      (
        e,
        (
          one_more_deferred (Nnf.until a b) _ _ a s (λ p. inl (p, deferred eta next)),
          (one_more (Nnf.until a b) _ _ b (set_insert eta old) (λ i m. m) t (λ q. inr q), tt),
        ),
      )
  arm-ArmOk (Nnf.release a b) =
      let (e, (s, t)) = Both-interned a b in
      (
        e,
        (
          one_more_deferred (Nnf.release a b) _ _ b t (λ p. inl (p, deferred eta next)),
          (
            two_more (Nnf.release a b) _ _ _ a b (set_insert eta old) (λ i m. m) s t
                (λ p q. inr (p, q)),
            tt,
          ),
        ),
      )
