-- ===== src/Temporal/Lasso/Rounds.antt =====
-- The loops of `Always` and `Eventually` in inquint/src/temporal/validate.rs spread one value
-- backwards, and end.
use inquint.Prelude.{
  ℕ, zero, suc, ◌<◌, ◌≤◌, ◌≡◌, ◌↔◌, refl, sym, ap, subst, ◌∙◌, ◌⊎◌, inl, inr, Bool, true, false,
  ◌||◌, Bool-cases, some, List, [], ◌∷◌, length, set, ◌==◌, ==_iff, if◌then◌else◌, arith,
}
use inquint.Temporal.Lasso.{LassoAtoms, at_position, combine, differs, succ, round, iterate}

length-set : (v : List Bool) (j : ℕ) (x : Bool) → length (set v j x) ≡ length v
length-set [] j x = refl
length-set (y ∷ v) zero x = refl
length-set (y ∷ v) (suc j) x = ap suc (length-set v j x)

at-set_same : (v : List Bool) (j : ℕ) (x : Bool) → j < length v → at_position (set v j x) j ≡ x
at-set_same [] j x h = absurd (omega arith)
at-set_same (y ∷ v) zero x h = refl
at-set_same (y ∷ v) (suc j) x h = at-set_same v j x (omega arith)

at-set_other :
    (v : List Bool) (j i : ℕ) (x : Bool) → ¬ (i ≡ j) → at_position (set v j x) i ≡ at_position v i
at-set_other [] j i x h = refl
at-set_other (y ∷ v) zero zero x h = absurd (h refl)
at-set_other (y ∷ v) zero (suc i) x h = refl
at-set_other (y ∷ v) (suc j) zero x h = refl
at-set_other (y ∷ v) (suc j) (suc i) x h = at-set_other v j i x (λ e. h (ap suc e))

set-same : (v : List Bool) (j : ℕ) → set v j (at_position v j) ≡ v
set-same [] j = refl
set-same (y ∷ v) zero = refl
set-same (y ∷ v) (suc j) = ap (λ l. y ∷ l) (set-same v j)

-- How many entries have not got the value that spreads.
abbrev pub left : Bool → List Bool → ℕ
left b [] = 0
left b (y ∷ v) = if differs b y then suc (left b v) else left b v

pub left-length : (b : Bool) (v : List Bool) → left b v ≤ length v
left-length b [] = omega arith
left-length b (y ∷ v) = ground (arith, left-length b v)

left-set :
    (b : Bool) (v : List Bool) (j : ℕ)
    → j < length v
    → differs b (at_position v j) ≡ true
    → left b (set v j b) < left b v
left-set b [] j h d = absurd (omega arith)
left-set true (true ∷ v) zero h d = ground arith
left-set true (false ∷ v) zero h d = ground arith
left-set false (true ∷ v) zero h d = ground arith
left-set false (false ∷ v) zero h d = ground arith
left-set b (y ∷ v) (suc j) h d = ground (arith, left-set b v j)

-- The value that spreads decides the step.
combine-left : (b y : Bool) → combine b b y ≡ b
unfolding combine
combine-left true y = refl
combine-left false y = refl

combine-right : (b x : Bool) → combine b x b ≡ b
unfolding combine
combine-right true x = ground arith
combine-right false x = ground arith

combine-cases : (b x y : Bool) → combine b x y ≡ b → (x ≡ b) ⊎ (y ≡ b)
unfolding combine
combine-cases true true y h = inl refl
combine-cases true false y h = inr h
combine-cases false false y h = inl refl
combine-cases false true y h = inr h

differs-cases : (x y : Bool) → (x ≡ y) ⊎ (differs x y ≡ true)
differs-cases true true = inl refl
differs-cases true false = inr refl
differs-cases false true = inr refl
differs-cases false false = inl refl

differs_self : (x : Bool) → differs x x ≡ false
differs_self true = refl
differs_self false = refl

differs-other :
    (b x y : Bool) → differs x y ≡ true → (y ≡ b → x ≡ b) → (x ≡ b) × (differs b y ≡ true)
differs-other true true true d h = ground arith
differs-other true true false d h = (refl, refl)
differs-other true false true d h = absurd (ground (arith, h refl))
differs-other true false false d h = ground arith
differs-other false true true d h = ground arith
differs-other false true false d h = absurd (ground (arith, h refl))
differs-other false false true d h = (refl, refl)
differs-other false false false d h = ground arith

ℕ-eq_cases : (i j : ℕ) → (i ≡ j) ⊎ ¬ (i ≡ j)
ℕ-eq_cases i j = elim (Bool-cases (i == j)) [
  | inl e ↦ inl ((==_iff i j).0 e)
  | inr e ↦ inr (λ h. ground (arith, ==_iff i j))
]

-- `k` steps from a position on.
abbrev pub steps : LassoAtoms → ℕ → ℕ → ℕ
steps w zero i = i
steps w (suc k) i = steps w k (succ w i)

module _ (w : LassoAtoms) (b : Bool) (inner : List Bool) (inside : w.loop_index < w.n) where
  pub succ_inside : (i : ℕ) → succ w i < w.n
  unfolding succ
  succ_inside i = ground arith

  abbrev pub Reaches : ℕ → Type 0
  Reaches i = (k : ℕ) × (at_position inner (steps w k i) ≡ b)

  -- What the step at a position gives.
  abbrev pub next_value : List Bool → ℕ → Bool
  next_value v i = combine b (at_position inner i) (at_position v (succ w i))

  abbrev pub Spreads : List Bool → Type 0
  Spreads v = (i : ℕ) → i < w.n → at_position v i ≡ b → next_value v i ≡ b

  abbrev pub IsSound : List Bool → Type 0
  IsSound v = (i : ℕ) → i < w.n → at_position v i ≡ b → Reaches i

  abbrev pub Kept : List Bool → Type 0
  Kept v = (length v ≡ w.n) × (Spreads v × IsSound v)

  abbrev pub IsStable : ℕ → List Bool → Type 0
  IsStable k v = (i : ℕ) → i < k → next_value v i ≡ at_position v i

  -- Setting a position to the value that spreads, where the step gives it.
  set-Spreads :
      (v : List Bool) (j : ℕ) → j < length v → Spreads v → next_value v j ≡ b → Spreads (set v j b)
  set-Spreads v j l s e i h g = elim (ℕ-eq_cases (succ w i) j) [
    | inl f ↦ rw (f, at-set_same v j b l) (combine-right b (at_position inner i))
    | inr f ↦ rw (at-set_other v j (succ w i) b f) (elim (ℕ-eq_cases i j) [
      | inl same ↦ rw same e
      | inr other ↦ s i h (sym (at-set_other v j i b other) ∙ g)
    ])
  ]

  Reaches-next : (v : List Bool) (j : ℕ) → IsSound v → next_value v j ≡ b → Reaches j
  Reaches-next v j s e = elim (combine-cases b (at_position inner j) (at_position v (succ w j)) e) [
    | inl x ↦ (zero, x)
    | inr y ↦ let (k, r) = s (succ w j) (succ_inside j) y in (suc k, r)
  ]

  set-IsSound : (v : List Bool) (j : ℕ) → IsSound v → next_value v j ≡ b → IsSound (set v j b)
  set-IsSound v j s e i h g = elim (ℕ-eq_cases i j) [
    | inl same ↦ rw same (Reaches-next v j s e)
    | inr other ↦ s i h (sym (at-set_other v j i b other) ∙ g)
  ]

  set-Kept : (v : List Bool) (j : ℕ) → j < w.n → Kept v → next_value v j ≡ b → Kept (set v j b)
  set-Kept v j l k e = (
    length-set v j b ∙ k.0,
    (set-Spreads v j (omega (arith, k.0)) k.1.0 e, set-IsSound v j k.1.1 e),
  )

  -- A round over the positions below `k` leaves everything, or it decreases the entries left.
  data Outcome (k : ℕ) (v : List Bool) (changed : Bool) (r : List Bool × Bool) : Type 0 where
    stayed : r.1 ≡ changed → r.0 ≡ v → IsStable k v → Outcome k v changed r
    spread : r.1 ≡ true → left b r.0 < left b v → Outcome k v changed r

  abbrev RoundOk : ℕ → List Bool → Bool → List Bool × Bool → Type 0
  RoundOk k v changed r = Kept r.0 × Outcome k v changed r

  IsStable-suc :
      (i : ℕ) (v : List Bool) → next_value v i ≡ at_position v i → IsStable i v → IsStable (suc i) v
  IsStable-suc i v e s j h = elim (ℕ-eq_cases j i) [
    | inl same ↦ rw same e
    | inr other ↦ s j (ground arith)
  ]

  after_same :
      (i : ℕ) (v : List Bool) (changed : Bool) (r : List Bool × Bool)
      → next_value v i ≡ at_position v i
      → RoundOk i v changed r
      → RoundOk (suc i) v changed r
  after_same i v changed r e (k, stayed f g s) = (k, stayed f g (IsStable-suc i v e s))
  after_same i v changed r e (k, spread f l) = (k, spread f l)

  after_change :
      (i : ℕ) (v v' : List Bool) (changed : Bool) (r : List Bool × Bool)
      → left b v' < left b v
      → RoundOk i v' true r
      → RoundOk (suc i) v changed r
  after_change i v v' changed r l (k, stayed f g s) =
      (k, spread f (subst (λ x. left b x < left b v) (sym g) l))
  after_change i v v' changed r l (k, spread f m) = (k, spread f (omega arith))

  round-RoundOk :
      (k : ℕ) (v : List Bool) (changed : Bool)
      → k ≤ w.n
      → Kept v
      → RoundOk k v changed (round w b inner k v changed)
  unfolding round
  round-RoundOk zero v changed h k = (k, stayed refl refl (λ i l. absurd (omega arith)))
  round-RoundOk (suc i) v changed h k =
      let l : i < w.n = omega arith in
      elim (differs-cases (next_value v i) (at_position v i)) [
        | inl same ↦
            let written : set v i (next_value v i) ≡ v = ap (λ x. set v i x) same ∙ set-same v i in
            let unchanged : (differs (next_value v i) (at_position v i) || changed) ≡ changed =
              rw (same, differs_self (at_position v i)) refl in
            let round_eq : round w b inner (suc i) v changed ≡ round w b inner i v changed =
              ap (λ x. round w b inner i x (differs (next_value v i) (at_position v i) || changed))
                written
              ∙ ap (λ c. round w b inner i v c) unchanged in
            subst (λ r. RoundOk (suc i) v changed r) (sym round_eq)
              (after_same i v changed (round w b inner i v changed) same
                (round-RoundOk i v changed (omega arith) k))
        | inr d ↦
            let (e, g) = differs-other b (next_value v i) (at_position v i) d (k.1.0 i l) in
            let fewer = left-set b v i (omega (arith, k.0)) g in
            let kept = set-Kept v i l k e in
            let changes : (differs (next_value v i) (at_position v i) || changed) ≡ true =
              rw d refl in
            let round_eq : round w b inner (suc i) v changed ≡ round w b inner i (set v i b) true =
              ap
                (λ x.
                  round w b inner i (set v i x)
                    (differs (next_value v i) (at_position v i) || changed))
                e
              ∙ ap (λ c. round w b inner i (set v i b) c) changes in
            subst (λ r. RoundOk (suc i) v changed r) (sym round_eq)
              (after_change i v (set v i b) changed (round w b inner i (set v i b) true) fewer
                (round-RoundOk i (set v i b) true (omega arith) kept))
      ]

  -- The loop ends, in a vector that no step changes.
  abbrev Ends : ℕ → List Bool → Type 0
  Ends fuel v = (u : List Bool) × ((iterate w b inner fuel v ≡ some u) × (Kept u × IsStable w.n u))

  iterate_round :
      (fuel : ℕ) (v : List Bool) (r : List Bool × Bool)
      → ((u : List Bool) → left b u < left b v → Kept u → Ends fuel u)
      → round w b inner w.n v false ≡ r
      → RoundOk w.n v false r
      → Ends (suc fuel) v
  unfolding iterate
  iterate_round fuel v r again e (kept, stayed f g s) =
      (r.0, (rw (iterate, e, f) refl, (kept, subst (λ x. IsStable w.n x) (sym g) s)))
  iterate_round fuel v r again e (kept, spread f l) =
      let (u, (i, rest)) = again r.0 l kept in (u, (rw (iterate, e, f) i, rest))

  -- More fuel than entries are left is enough.
  pub iterate-Ends : (fuel : ℕ) (v : List Bool) → left b v < fuel → Kept v → Ends fuel v
  iterate-Ends zero v h k = absurd (omega arith)
  iterate-Ends (suc fuel) v h k =
      iterate_round fuel v (round w b inner w.n v false)
        (λ u l kept. iterate-Ends fuel u (omega arith) kept) refl
        (round-RoundOk w.n v false (omega arith) k)

  -- In a vector that no step changes, the value has spread to where it reaches.
  reaches-value :
      (v : List Bool)
      → IsStable w.n v
      → (k i : ℕ) → i < w.n
      → at_position inner (steps w k i) ≡ b
      → at_position v i ≡ b
  reaches-value v s zero i h e = sym (s i h) ∙ rw e (combine-left b (at_position v (succ w i)))
  reaches-value v s (suc k) i h e =
      sym (s i h)
      ∙ rw (reaches-value v s k (succ w i) (succ_inside i) e)
          (combine-right b (at_position inner i))

  -- The loop gives each position the value that spreads just if a position that it leads to has it.
  pub iterate-Reaches :
      (v : List Bool)
      → Kept v
      → (u : List Bool) × ((iterate w b inner (suc w.n) v ≡ some u)
          × ((length u ≡ w.n) × ((i : ℕ) → i < w.n → (at_position u i ≡ b) ↔ Reaches i)))
  iterate-Reaches v k =
      let few = left-length b v in
      let (u, (e, (kept, s))) = iterate-Ends (suc w.n) v (omega (arith, k.0)) k in
      (u, (e, (kept.0, λ i h. (kept.1.1 i h, λ (j, r). reaches-value u s j i h r))))
