-- ===== src/Order/BinarySearch/Answers.antt =====
-- What `binary_search_by` answers on a slice that the comparison splits.
use inquint.Prelude.{
  ℕ, zero, suc, ◌+◌, ◌-◌, ◌/◌, ◌<◌, ◌≤◌, ◌≡◌, ◌≢◌, refl, sym, ◌⊎◌, inl, inr, none, some, subst,
  Bool-cases, List, [], ◌∷◌, length, get_elem?, Ordering, leb, arith,
}
use inquint.Prelude.{Result, ok, err}
use native.Mathlib.Decide.{dec_lt}
use inquint.Order.BinarySearch.{next_base, narrow, binary_search}

module _ {A : Type 0} (cmp : A → Ordering) where
  -- The elements before `n` are smaller than what is searched, those behind it are greater, and
  -- that at `n` is not smaller.
  pub record Splits (xs : List A) (n : ℕ) : Type 0 where
    pub below : (i : ℕ) (x : A) → i < n → get_elem? xs i ≡ some x → cmp x ≡ Ordering.lt
    pub here : (x : A) → get_elem? xs n ≡ some x → cmp x ≢ Ordering.lt
    pub above : (i : ℕ) (x : A) → n < i → get_elem? xs i ≡ some x → cmp x ≡ Ordering.gt
    pub fits : n ≤ length xs

  -- What the search answers then.
  abbrev pub Answers : List A → ℕ → Result ℕ ℕ → Type 0
  Answers xs n (ok i) = (i ≡ n) × ((x : A) × ((get_elem? xs n ≡ some x) × (cmp x ≡ Ordering.eq)))
  Answers xs n (err i) = (i ≡ n) × ((x : A) → get_elem? xs n ≡ some x → cmp x ≡ Ordering.gt)

  Ordering-cases : (o : Ordering) → (o ≡ Ordering.lt) ⊎ ((o ≡ Ordering.gt) ⊎ (o ≡ Ordering.eq))
  Ordering-cases Ordering.lt = inl refl
  Ordering-cases Ordering.gt = inr (inl refl)
  Ordering-cases Ordering.eq = inr (inr refl)

  element : (xs : List A) (i : ℕ) → i < length xs → (x : A) × (get_elem? xs i ≡ some x)
  element [] i h = absurd (omega arith)
  element (x ∷ xs) zero h = (x, refl)
  element (x ∷ xs) (suc i) h = element xs i (omega arith)

  in_range : (xs : List A) (i : ℕ) (x : A) → get_elem? xs i ≡ some x → i < length xs
  in_range [] i x e = absurd (ground arith)
  in_range (y ∷ xs) zero x e = omega arith
  in_range (y ∷ xs) (suc i) x e = let h = in_range xs i x e in omega arith

  nothing_at : (xs : List A) (i : ℕ) → length xs ≤ i → get_elem? xs i ≡ none
  nothing_at [] i h = refl
  nothing_at (x ∷ xs) zero h = absurd (omega arith)
  nothing_at (x ∷ xs) (suc i) h = nothing_at xs i (omega arith)

  module _ (xs : List A) (n : ℕ) (sp : Splits xs n) where
    -- The range from `base` on has the position, unless the element at the position is greater.
    record Within (base size : ℕ) : Type 0 where
      nonempty : 1 ≤ size
      inside : base + size ≤ length xs
      from : base ≤ n
      upto : n ≤ base + size
      beyond : (n < base + size) ⊎ ((x : A) → get_elem? xs n ≡ some x → cmp x ≡ Ordering.gt)

    before_greater : (i : ℕ) (x : A) → get_elem? xs i ≡ some x → cmp x ≡ Ordering.gt → n ≤ i
    before_greater i x e gt = elim (dec_lt i n) [
      | yes l ↦ absurd (let lt = sp.below i x l e in ground arith)
      | no k ↦ omega arith
    ]

    behind_others : (i : ℕ) (x : A) → get_elem? xs i ≡ some x → cmp x ≢ Ordering.gt → i ≤ n
    behind_others i x e other = elim (dec_lt n i) [
      | yes l ↦ absurd (other (sp.above i x l e))
      | no k ↦ omega arith
    ]

    module _ (base size : ℕ) (h : 2 ≤ size) (w : Within base size) where
      upper-Within : base + size / 2 ≤ n → Within (base + size / 2) (size - size / 2)
      upper-Within l =
          let i = w.inside in
          let t = w.upto in
          let e : base + size / 2 + (size - size / 2) ≡ base + size = omega arith in
          record {
            nonempty = omega arith;
            inside = omega arith;
            from = l;
            upto = omega arith;
            beyond = elim w.beyond [ inl b ↦ inl (omega arith) | inr g ↦ inr g ];
          }

      lower-Within :
          (x : A)
          → get_elem? xs (base + size / 2) ≡ some x
          → cmp x ≡ Ordering.gt
          → Within base (size - size / 2)
      lower-Within x e gt =
          let i = w.inside in
          let l = before_greater (base + size / 2) x e gt in
          record {
            nonempty = omega arith;
            inside = omega arith;
            from = w.from;
            upto = omega arith;
            beyond = elim (dec_lt n (base + (size - size / 2))) [
              | yes b ↦ inl b
              | no k ↦ inr (λ y e'.
                  let at : n ≡ base + size / 2 = omega arith in
                  let e'' = subst (λ j. get_elem? xs j ≡ some y) at e' in
                  let same : x ≡ y = ground arith in subst (λ z. cmp z ≡ Ordering.gt) same gt)
            ];
          }

      next-Within : Within (next_base cmp xs base (base + size / 2)) (size - size / 2)
      unfolding next_base
      next-Within =
          let (x, e) = element xs (base + size / 2) (let i = w.inside in omega arith) in
          elim (Ordering-cases (cmp x)) [
            | inl lt ↦
                rw (next_base, e, lt)
                  (upper-Within (behind_others _ x e (λ gt. absurd (ground arith))))
            | inr (inl gt) ↦ rw (next_base, e, gt) (lower-Within x e gt)
            | inr (inr eq) ↦
                rw (next_base, e, eq)
                  (upper-Within (behind_others _ x e (λ gt. absurd (ground arith))))
          ]

    narrow-Within :
        (fuel base size : ℕ)
        → size ≤ suc fuel
        → Within base size
        → Within (narrow cmp fuel base size xs) 1
    unfolding narrow
    narrow-Within zero base size h w =
        let k : size ≡ 1 = (let p = w.nonempty in omega arith) in subst (Within base) k w
    narrow-Within (suc fuel) base size h w = elim (Bool-cases (leb size 1)) [
      | inl one ↦
          let k : size ≡ 1 = (let p = w.nonempty in ground arith) in
          rw one (subst (Within base) k w)
      | inr more ↦ rw more (
          narrow-Within fuel (next_base cmp xs base (base + size / 2)) (size - size / 2)
            (ground arith) (next-Within base size (ground arith) w))
    ]

    whole-Within : 1 ≤ length xs → Within 0 (length xs)
    whole-Within h = record {
      nonempty = h;
      inside = omega arith;
      from = omega arith;
      upto = (let t = sp.fits in omega arith);
      beyond = elim (dec_lt n (length xs)) [
        | yes b ↦ inl (omega arith)
        | no k ↦ inr (λ x e. absurd (k (in_range xs n x e)))
      ];
    }

    base : ℕ
    base = narrow cmp (length xs) 0 (length xs) xs

    module _ (w : Within base 1) (x : A) (e : get_elem? xs base ≡ some x) where
      answer_less : cmp x ≡ Ordering.lt → Answers xs n (err (base + 1))
      answer_less lt =
          let f = w.from in
          let t = w.upto in
          let apart : n ≢ base =
            λ same. sp.here x (subst (λ j. get_elem? xs j ≡ some x) (sym same) e) lt in
          (
            omega (arith, apart),
            elim w.beyond [ inl b ↦ absurd (omega (arith, apart)) | inr g ↦ g ],
          )

      answer_greater : cmp x ≡ Ordering.gt → Answers xs n (err base)
      answer_greater gt =
          let f = w.from in
          let l = before_greater base x e gt in
          let at : n ≡ base = omega arith in
          (
            sym at,
            λ y e'.
                let e'' = subst (λ j. get_elem? xs j ≡ some y) at e' in
                let same : x ≡ y = ground arith in subst (λ z. cmp z ≡ Ordering.gt) same gt,
          )

      answer_equal : cmp x ≡ Ordering.eq → Answers xs n (ok base)
      answer_equal eq =
          let f = w.from in
          let t = w.upto in
          let at : n ≡ base = elim (dec_lt base n) [
            | yes l ↦ absurd (let lt = sp.below base x l e in ground arith)
            | no k ↦ omega arith
          ] in
          (sym at, (x, (subst (λ j. get_elem? xs j ≡ some x) (sym at) e, eq)))

    -- The search finds what the position has, and else answers the position.
    pub binary_search-Answers : Answers xs n (binary_search cmp xs)
    unfolding binary_search base
    binary_search-Answers = elim (dec_lt 0 (length xs)) [
      | yes h ↦
          let w : Within base 1 =
            narrow-Within (length xs) 0 (length xs) (omega arith) (whole-Within h) in
          let (x, e) = element xs base (let i = w.inside in omega arith) in
          elim (Ordering-cases (cmp x)) [
            | inl lt ↦ rw (binary_search, e, lt) (answer_less w x e lt)
            | inr (inl gt) ↦ rw (binary_search, e, gt) (answer_greater w x e gt)
            | inr (inr eq) ↦ rw (binary_search, e, eq) (answer_equal w x e eq)
          ]
      | no k ↦
          let t = sp.fits in
          rw (binary_search, nothing_at xs base (omega arith))
            (omega arith, λ x e. absurd (k (let l = in_range xs n x e in omega arith)))
    ]
