-- ===== src/Temporal/Buchi/ArmsReady.antt =====
-- The calls of an arm of `expand` in inquint/src/temporal/buchi.rs treat no formula twice.
use inquint.Prelude.{
  ℕ, suc, ◌+◌, ◌<◌, ◌≤◌, ◌≡◌, ◌≢◌, refl, sym, ap, ◌∙◌, subst, inl, inr, ◌⊎◌, List, ◌∷◌, ◌∈◌, length,
  get_or, Bool-cases, true, false, arith,
}
use inquint.Order.Sort.{set_insert}
use inquint.Order.Instances.{nat_ordered}
use inquint.Temporal.Ltl.{Nnf}
use inquint.Temporal.Buchi.{Ids, Call, has_id, insert_unless, contradicts, intern, arm, size}
use inquint.Temporal.Buchi.Formulas.{
  Stands, Extends, Stands-Extends, has_id_iff, mem-set_insert, lt_or_ge,
}
use inquint.Temporal.Buchi.Arms.{AllCalls, Both-interned}
use inquint.Temporal.Buchi.Ascending.{
  Ascending, Ascending-weaken, Ascending-mem, Ascending-set_insert, length-set_insert,
}
use inquint.Temporal.Buchi.Subformulas.{beyond, size_positive}

-- The sets of a call are ascending, and no formula is both treated and to be treated.
pub record Ready (n : ℕ) (c : Call) : Type 0 where
  pub news : Ascending 0 n c.new
  pub olds : Ascending 0 n c.old
  pub nexts : Ascending 0 n c.next
  pub apart : (x : ℕ) → x ∈ c.new → ¬ (x ∈ c.old)

-- A call of an arm, which has treated one formula more.
abbrev pub OneMore : ℕ → Ids → Call → Type 0
OneMore n old c = Ready n c × (length c.old ≡ suc (length old))

mem-insert_unless_new :
    (x j : ℕ) (o new : Ids) → x ∈ insert_unless o j new → ((x ≡ j) × (¬ (j ∈ o))) ⊎ (x ∈ new)
unfolding insert_unless
mem-insert_unless_new x j o new m = elim (Bool-cases (has_id o j)) [
  | inl e ↦ inr (same e m)
  | inr e ↦ elim ((mem-set_insert x j new).0 (inserted e m)) [
    | inl eq ↦ inl (eq, λ k. ground (arith, has_id_iff o j))
    | inr m' ↦ inr m'
  ]
]
  where
    same : has_id o j ≡ true → x ∈ insert_unless o j new → x ∈ new
    same e m = ground arith

    inserted : has_id o j ≡ false → x ∈ insert_unless o j new → x ∈ set_insert j new
    inserted e m = ground arith

Ascending-insert_unless :
    (n j : ℕ) (o new : Ids) → j < n → Ascending 0 n new → Ascending 0 n (insert_unless o j new)
unfolding insert_unless
Ascending-insert_unless n j o new h a =
    ground (arith, Ascending-set_insert 0 n j new (omega arith) h a)

module _ (n : ℕ) (fs : List Nnf) (eta : ℕ) (new old next : Ids)
    (ready : Ready n (record { new = eta ∷ new; old = old; next = next })) where
  -- What is to be treated after the formula is.
  abbrev Unseen : Ids → Type 0
  Unseen new' = Ascending 0 n new' × ((x : ℕ) → x ∈ new' → ¬ (x ∈ set_insert eta old))

  new-Unseen : Unseen new
  new-Unseen = (
    Ascending-weaken (suc eta) 0 n new (omega arith) ready.news.1.1,
    λ x m k. elim ((mem-set_insert x eta old).0 k) [
      | inl e ↦ let above = (Ascending-mem (suc eta) n x new ready.news.1.1 m).0 in omega (arith, e)
      | inr k' ↦ ready.apart x (inr m) k'
    ],
  )

  add-Unseen :
      (o new' : Ids) (j : ℕ)
      → ((x : ℕ) → x ∈ old → x ∈ o)
      → j ≢ eta
      → j < n
      → Unseen new'
      → Unseen (insert_unless o j new')
  add-Unseen o new' j h ne lt (a, u) = (
    Ascending-insert_unless n j o new' lt a,
    λ x m k. elim (mem-insert_unless_new x j o new' m) [
      | inl (e, out) ↦ elim ((mem-set_insert x eta old).0 k) [
        | inl e' ↦ ne (sym e ∙ e')
        | inr k' ↦ out (h j (subst (λ z. z ∈ old) e k'))
      ]
      | inr m' ↦ u x m' k
    ],
  )

  call-OneMore :
      (new' next' : Ids)
      → Unseen new'
      → Ascending 0 n next'
      → OneMore n old (record { new = new'; old = set_insert eta old; next = next' })
  call-OneMore new' next' (a, u) an = (
    record {
      news = a;
      olds = Ascending-set_insert 0 n eta old (omega arith) ready.news.1.0 ready.olds;
      nexts = an;
      apart = u;
    },
    length-set_insert eta old (ready.apart eta (inl refl)),
  )

  deferred : Ascending 0 n (set_insert eta next)
  deferred = Ascending-set_insert 0 n eta next (omega arith) ready.news.1.0 ready.nexts

  in_old2 : (x : ℕ) → x ∈ old → x ∈ set_insert eta old
  in_old2 x m = (mem-set_insert x eta old).1 (inr m)

  -- A part of the formula has another id.
  part_differs :
      (f a : Nnf) (gs : List Nnf) (j : ℕ)
      → get_or fs eta Nnf.falsity ≡ f
      → size a < size f
      → 1 < size f
      → Extends fs gs
      → Stands gs j a
      → j ≢ eta
  unfolding size
  part_differs f a gs j e lt two ext (h, s) eq = elim (lt_or_ge eta (length fs)) [
    | inl within ↦
        let (h', s') = Stands-Extends fs gs eta f ext (within, e) in
        let same : a ≡ f = sym s ∙ (ap (λ z. get_or gs z Nnf.falsity) eq ∙ s') in
        omega (arith, ap size same)
    | inr ge ↦
        let same : Nnf.falsity ≡ f = sym (beyond fs eta ge) ∙ e in omega (arith, ap size same)
  ]

  -- The ids of the two parts, which are not the formula's.
  abbrev Parts : Nnf → Nnf → Type 0
  Parts a b =
      let j = (intern fs a).1 in
      let r = intern (intern fs a).0 b in ((j ≢ eta) × (j < n)) × ((r.1 ≢ eta) × (r.1 < n))

  Parts-differ :
      (f a b : Nnf)
      → get_or fs eta Nnf.falsity ≡ f
      → size f ≡ suc (size a + size b)
      → length (intern (intern fs a).0 b).0 ≤ n
      → Parts a b
  Parts-differ f a b e sz h =
      let (ext, (s, t)) = Both-interned fs eta new old next a b in
      (
        (
          part_differs f a _ _ e (omega (arith, sz)) (omega (arith, sz, size_positive a)) ext s,
          omega (arith, s.0),
        ),
        (
          part_differs f b _ _ e (omega (arith, sz)) (omega (arith, sz, size_positive a)) ext t,
          omega (arith, t.0),
        ),
      )

  pub arm-OneMore :
      (f : Nnf)
      → get_or fs eta Nnf.falsity ≡ f
      → let r = arm fs eta f new old next in length r.0 ≤ n → AllCalls (OneMore n old) r.1
  unfolding arm size
  arm-OneMore Nnf.truth e h = (call-OneMore new next new-Unseen ready.nexts, tt)
  arm-OneMore Nnf.falsity e h = tt
  arm-OneMore (Nnf.lit l) e h = elim (Bool-cases (contradicts fs old l)) [
    | inl c ↦ rw (arm, c) tt
    | inr c ↦ rw (arm, c) (call-OneMore new next new-Unseen ready.nexts, tt)
  ]
  arm-OneMore (Nnf.both a b) e h =
      let ((na, la), (nb, lb)) = Parts-differ (Nnf.both a b) a b e refl h in
      (
        call-OneMore _ next
            (add-Unseen old _ _ (λ x m. m) nb lb (add-Unseen old new _ (λ x m. m) na la new-Unseen))
            ready.nexts,
        tt,
      )
  arm-OneMore (Nnf.either a b) e h =
      let ((na, la), (nb, lb)) = Parts-differ (Nnf.either a b) a b e refl h in
      (
        call-OneMore _ next (add-Unseen (set_insert eta old) new _ in_old2 na la new-Unseen)
            ready.nexts,
        (
          call-OneMore _ next (add-Unseen (set_insert eta old) new _ in_old2 nb lb new-Unseen)
              ready.nexts,
          tt,
        ),
      )
  arm-OneMore (Nnf.until a b) e h =
      let ((na, la), (nb, lb)) = Parts-differ (Nnf.until a b) a b e refl h in
      (
        call-OneMore _ (set_insert eta next)
            (add-Unseen (set_insert eta old) new _ in_old2 na la new-Unseen) deferred,
        (
          call-OneMore _ next (add-Unseen (set_insert eta old) new _ in_old2 nb lb new-Unseen)
              ready.nexts,
          tt,
        ),
      )
  arm-OneMore (Nnf.release a b) e h =
      let ((na, la), (nb, lb)) = Parts-differ (Nnf.release a b) a b e refl h in
      (
        call-OneMore _ (set_insert eta next)
            (add-Unseen (set_insert eta old) new _ in_old2 nb lb new-Unseen) deferred,
        (
          call-OneMore _ next
              (add-Unseen (set_insert eta old) _ _ in_old2 nb lb
                (add-Unseen (set_insert eta old) new _ in_old2 na la new-Unseen))
              ready.nexts,
          tt,
        ),
      )
