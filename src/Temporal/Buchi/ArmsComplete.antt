-- ===== src/Temporal/Buchi/ArmsComplete.antt =====
-- On a word, one of the calls of an arm of `expand` in inquint/src/temporal/buchi.rs goes on.
use Prim.Axiom.{lem}
use inquint.Prelude.{
  ℕ, suc, ◌≡◌, refl, sym, subst, inl, inr, ◌⊎◌, List, [], ◌∷◌, ◌∈◌, get_or, Option-cases,
  Bool-cases, true, arith,
}
use mathlib.Core.Logic.Or
use inquint.Order.Sort.{set_insert}
use inquint.Order.Instances.{nat_ordered}
use inquint.Temporal.Ltl.{Lit, Nnf, negated}
use inquint.Temporal.Semantics.{Word, Models}
use inquint.Temporal.NnfMeaning.{Models-prop}
use inquint.Temporal.Expansion.{until_later, release_now, release_later}
use inquint.Temporal.Buchi.{Ids, Call, arm, intern, find_id, contradicts, insert_unless}
use inquint.Temporal.Buchi.Formulas.{
  Stands, Extends, Stands-Extends, find_id-Stands, has_id_iff, mem-set_insert, mem-insert_unless,
  insert_unless-new, insert_unless_self,
}
use inquint.Temporal.Buchi.Arms.{Has, Current, Both-interned}

abbrev pub SomeCall : (Call → Type 0) → List Call → Type 0
SomeCall P [] = ⊥
SomeCall P (c ∷ cs) = P c ⊎ SomeCall P cs

module _ (w : Word) (fin : List Nnf) where
  -- The formula with the id holds at the position.
  abbrev pub Sat : ℕ → ℕ → Type 0
  Sat i x = Models w (get_or fin x Nnf.falsity) i

  -- An until whose fulfilling formula holds has that formula in the set.
  abbrev pub FulfilledBy : ℕ → (ℕ → Type 0) → Nnf → Type 0
  FulfilledBy i U (Nnf.until a c) = Models w c i → Has fin U c
  FulfilledBy i U f = Unit {0}

  abbrev pub Fulfilled : ℕ → (ℕ → Type 0) → ℕ → Type 0
  Fulfilled i U x = FulfilledBy i U (get_or fin x Nnf.falsity)

  pub Fulfilled-mono :
      (i : ℕ) (U V : ℕ → Type 0) (f : Nnf)
      → ((x : ℕ) → U x → V x)
      → FulfilledBy i U f
      → FulfilledBy i V f
  Fulfilled-mono i U V Nnf.truth m h = tt
  Fulfilled-mono i U V Nnf.falsity m h = tt
  Fulfilled-mono i U V (Nnf.lit l) m h = tt
  Fulfilled-mono i U V (Nnf.both a c) m h = tt
  Fulfilled-mono i U V (Nnf.either a c) m h = tt
  Fulfilled-mono i U V (Nnf.release a c) m h = tt
  Fulfilled-mono i U V (Nnf.until a c) m h = λ n. let (x, (s, u)) = h n in (x, (s, m x u))

  -- The sets of a call hold at the position, and at the next one.
  abbrev pub CallSat : ℕ → Call → Type 0
  CallSat i c =
      ((x : ℕ) → Current c.new c.old x → Sat i x)
      × (((x : ℕ) → x ∈ c.next → Sat (suc i) x)
          × ((x : ℕ) → x ∈ c.old → Fulfilled i (Current c.new c.old) x))

  Sat-as : (i x : ℕ) (f : Nnf) → Stands fin x f → Models w f i → Sat i x
  Sat-as i x f s m = subst (λ g. Models w g i) (sym s.1) m

  module _ (fs : List Nnf) (eta : ℕ) (new old next : Ids) (i : ℕ) where
    abbrev pub Start : Type 0
    Start = CallSat i (record { new = eta ∷ new; old = old; next = next })

    -- A call whose new formulas hold goes on.
    call-CallSat :
        (new' next' : Ids)
        → Start
        → ((x : ℕ) → x ∈ new → x ∈ new')
        → ((x : ℕ) → x ∈ new' → (x ∈ new) ⊎ Sat i x)
        → ((x : ℕ) → x ∈ next' → (x ∈ next) ⊎ Sat (suc i) x)
        → Fulfilled i (Current new' (set_insert eta old)) eta
        → CallSat i (record { new = new'; old = set_insert eta old; next = next' })
    call-CallSat new' next' (now, (later, done)) keeps adds defers ful = (
      λ x m. elim m [
        | inl n ↦ elim (adds x n) [ inl n' ↦ now x (inl (inr n')) | inr s ↦ s ]
        | inr o ↦ elim ((mem-set_insert x eta old).0 o) [
          | inl e ↦ now x (inl (inl e))
          | inr o' ↦ now x (inr o')
        ]
      ],
      (
        λ x m. elim (defers x m) [ inl n ↦ later x n | inr s ↦ s ],
        λ x m. elim ((mem-set_insert x eta old).0 m) [
          | inl e ↦ subst (Fulfilled i (Current new' (set_insert eta old))) (sym e) ful
          | inr o ↦
              Fulfilled-mono i (Current (eta ∷ new) old) (Current new' (set_insert eta old))
                (get_or fin x Nnf.falsity) keep (done x o)
        ],
      ),
    )
      where
        keep : (x : ℕ) → Current (eta ∷ new) old x → Current new' (set_insert eta old) x
        keep x (inl (inl e)) = inr ((mem-set_insert x eta old).1 (inl e))
        keep x (inl (inr m)) = inl (keeps x m)
        keep x (inr m) = inr ((mem-set_insert x eta old).1 (inr m))

    adds_one :
        (o : Ids) (j : ℕ) → Sat i j → (x : ℕ) → x ∈ insert_unless o j new → (x ∈ new) ⊎ Sat i x
    adds_one o j s x m = elim (mem-insert_unless x j o new m) [
      | inl e ↦ inr (subst (Sat i) (sym e) s)
      | inr n ↦ inl n
    ]

    adds_two :
        (o : Ids) (j k : ℕ)
        → Sat i j
        → Sat i k
        → (x : ℕ) → x ∈ insert_unless o k (insert_unless o j new)
        → (x ∈ new) ⊎ Sat i x
    adds_two o j k s t x m = elim (mem-insert_unless x k o (insert_unless o j new) m) [
      | inl e ↦ inr (subst (Sat i) (sym e) t)
      | inr n ↦ adds_one o j s x n
    ]

    keeps_two :
        (o : Ids) (j k : ℕ) (x : ℕ) → x ∈ new → x ∈ insert_unless o k (insert_unless o j new)
    keeps_two o j k x m = insert_unless-new x k o _ (insert_unless-new x j o new m)

    defers_eta : Sat (suc i) eta → (x : ℕ) → x ∈ set_insert eta next → (x ∈ next) ⊎ Sat (suc i) x
    defers_eta s x m = elim ((mem-set_insert x eta next).0 m) [
      | inl e ↦ inr (subst (Sat (suc i)) (sym e) s)
      | inr n ↦ inl n
    ]

    -- A word has no two literals that contradict each other.
    no_contradiction :
        (l : Lit)
        → Extends fs fin
        → Start
        → Models w (Nnf.lit l) i
        → contradicts fs old l ≡ true
        → ⊥
    unfolding contradicts negated
    no_contradiction l ext sat m h = elim (Option-cases (find_id fs (Nnf.lit (negated l)))) [
      | inl e ↦ absurd (ground (arith))
      | inr (j, e) ↦
          let s = Stands-Extends fs fin j _ ext (find_id-Stands fs (Nnf.lit (negated l)) j e) in
          let o : j ∈ old = ground (arith, has_id_iff old j) in
          let n : Models w (Nnf.lit (negated l)) i =
            subst (λ g. Models w g i) s.1 (sat.0 j (inr o)) in
          elim (Bool-cases l.pos) [ inl p ↦ ground arith | inr p ↦ ground arith ]
    ]

    holds_now : (f : Nnf) → Stands fin eta f → Start → Models w f i
    holds_now f s sat = subst (λ g. Models w g i) s.1 (sat.0 eta (inl (inl refl)))

    Fulfilled-as :
        (f : Nnf) (U : ℕ → Type 0) → Stands fin eta f → FulfilledBy i U f → Fulfilled i U eta
    Fulfilled-as f U s h = subst (FulfilledBy i U) (sym s.1) h

    -- The calls with no new formula, with one, with one and the formula put off, and with two.
    simple :
        (f : Nnf)
        → Stands fin eta f
        → Start
        → FulfilledBy i (Current new (set_insert eta old)) f
        → CallSat i (record { new = new; old = set_insert eta old; next = next })
    simple f s sat h =
        call-CallSat new next sat (λ x m. m) (λ x m. inl m) (λ x m. inl m) (Fulfilled-as f _ s h)

    one_more :
        (f : Nnf) (o : Ids) (j : ℕ)
        → Stands fin eta f
        → Start
        → Sat i j
        → FulfilledBy i (Current (insert_unless o j new) (set_insert eta old)) f
        → CallSat i (record { new = insert_unless o j new; old = set_insert eta old; next = next })
    one_more f o j s sat sj h =
        call-CallSat (insert_unless o j new) next sat (λ x m. insert_unless-new x j o new m)
          (adds_one o j sj) (λ x m. inl m) (Fulfilled-as f _ s h)

    one_deferred :
        (f : Nnf) (o : Ids) (j : ℕ)
        → Stands fin eta f
        → Start
        → Sat i j
        → Models w f (suc i)
        → FulfilledBy i (Current (insert_unless o j new) (set_insert eta old)) f
        → CallSat i (record {
          new = insert_unless o j new;
          old = set_insert eta old;
          next = set_insert eta next;
        })
    one_deferred f o j s sat sj n h =
        call-CallSat (insert_unless o j new) (set_insert eta next) sat
          (λ x m. insert_unless-new x j o new m) (adds_one o j sj)
          (defers_eta (Sat-as (suc i) eta f s n)) (Fulfilled-as f _ s h)

    two_more :
        (f : Nnf) (o : Ids) (j k : ℕ)
        → Stands fin eta f
        → Start
        → Sat i j
        → Sat i k
        → FulfilledBy i (Current (insert_unless o k (insert_unless o j new)) (set_insert eta old)) f
        → CallSat i (record {
          new = insert_unless o k (insert_unless o j new);
          old = set_insert eta old;
          next = next;
        })
    two_more f o j k s sat sj sk h =
        call-CallSat (insert_unless o k (insert_unless o j new)) next sat (keeps_two o j k)
          (adds_two o j k sj sk) (λ x m. inl m) (Fulfilled-as f _ s h)

    abbrev pub ArmSat : Nnf → Type 0
    ArmSat f =
        let r = arm fs eta f new old next in
        Extends r.0 fin → Stands fin eta f → Start → SomeCall (CallSat i) r.1

    -- The ids of the two formulas of an arm, in the formulas behind the expansion.
    two_ids :
        (a c : Nnf)
        → Extends (intern (intern fs a).0 c).0 fin
        → Stands fin (intern fs a).1 a × Stands fin (intern (intern fs a).0 c).1 c
    two_ids a c ext =
        let (e, (s, t)) = Both-interned fs eta new old next a c in
        (Stands-Extends _ fin _ a ext s, Stands-Extends _ fin _ c ext t)

    pub arm-ArmSat : (f : Nnf) → ArmSat f
    unfolding arm
    arm-ArmSat Nnf.truth ext s sat = inl (simple Nnf.truth s sat tt)
    arm-ArmSat Nnf.falsity ext s sat = absurd (holds_now Nnf.falsity s sat)
    arm-ArmSat (Nnf.lit l) ext s sat = elim (Bool-cases (contradicts fs old l)) [
      | inl e ↦ absurd (no_contradiction l ext sat (holds_now (Nnf.lit l) s sat) e)
      | inr e ↦ rw (arm, e) (inl (simple (Nnf.lit l) s sat tt))
    ]
    arm-ArmSat (Nnf.both a c) ext s sat =
        let (sa, sc) = two_ids a c ext in
        let (ma, mc) = holds_now (Nnf.both a c) s sat in
        inl (two_more (Nnf.both a c) old _ _ s sat (Sat-as i _ a sa ma) (Sat-as i _ c sc mc) tt)
    arm-ArmSat (Nnf.either a c) ext s sat =
        let (sa, sc) = two_ids a c ext in
        let m = holds_now (Nnf.either a c) s sat in
        elim (lem (Models w a i) (Models-prop w a i)) [
          | yes ma ↦
              inl (one_more (Nnf.either a c) (set_insert eta old) _ s sat (Sat-as i _ a sa ma) tt)
          | no na ↦
              let mc : Models w c i =
                Or.elim (Models-prop w c i) m (λ ma. absurd (na ma)) (λ mc. mc) in
              inr (
                inl
                  (one_more (Nnf.either a c) (set_insert eta old) _ s sat (Sat-as i _ c sc mc) tt))
        ]
    arm-ArmSat (Nnf.until a c) ext s sat =
        let (sa, sc) = two_ids a c ext in
        let m = holds_now (Nnf.until a c) s sat in
        elim (lem (Models w c i) (Models-prop w c i)) [
          | yes mc ↦ inr (
              inl (
                one_more (Nnf.until a c) (set_insert eta old) _ s sat (Sat-as i _ c sc mc)
                  (λ _. (_, (sc, insert_unless_self _ (set_insert eta old) new)))))
          | no nc ↦
              let (ma, mu) = until_later w a c i m nc in
              inl (
                one_deferred (Nnf.until a c) (set_insert eta old) _ s sat (Sat-as i _ a sa ma) mu
                  (λ mc. absurd (nc mc)))
        ]
    arm-ArmSat (Nnf.release a c) ext s sat =
        let (sa, sc) = two_ids a c ext in
        let m = holds_now (Nnf.release a c) s sat in
        let mc = release_now w a c i m in
        elim (lem (Models w a i) (Models-prop w a i)) [
          | yes ma ↦ inr (
              inl (
                two_more (Nnf.release a c) (set_insert eta old) _ _ s sat (Sat-as i _ a sa ma)
                  (Sat-as i _ c sc mc) tt))
          | no na ↦ inl (
              one_deferred (Nnf.release a c) (set_insert eta old) _ s sat (Sat-as i _ c sc mc)
                (release_later w a c i m na) tt)
        ]
