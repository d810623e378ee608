-- ===== src/Value/Search.antt =====
-- The binary search of sorted values and map entries in inquint/src/value.rs, against scans.
use inquint.Prelude.{
  ℕ, zero, suc, ◌<◌, ◌≡◌, ◌≢◌, refl, sym, ap, subst, ◌∙◌, ◌⊎◌, inl, inr, true, ◌↔◌, none, some,
  List, [], ◌∷◌, ◌∈◌, map, length, get_elem?, Ordering, arith,
}
use inquint.Prelude.{ok, err, Result-cases, Bool-cases, leb}
use native.Mathlib.Decide.{dec_lt}
use inquint.Order.BinarySearch.{binary_search}
use inquint.Order.BinarySearch.Answers.{Splits, Answers, binary_search-Answers}
use inquint.Order.Canonical.{IsCanonical, IsCanonical-head, IsCanonical-tail, Lt, Lt-trans}
use inquint.Value.{ValueData}
use inquint.Value.Build.{Position, as_found, map_find, map_find_by_id, scan, set_find, is_ok}
use inquint.Value.Compare.{value_cmp}
use inquint.Value.Compare.Comparison.{before, after, equal, comparison}
use inquint.Value.Compare.Instance.{value_ordered}
use inquint.Value.Compare.Laws.{same_value_iff, value_cmp-eq, value_cmp_refl}

abbrev pub Pairs : Type 0
Pairs = List (ValueData × ValueData)

abbrev pub keys : Pairs → List ValueData
keys es = map (λ e. e.0) es

Lt-greater : (a b : ValueData) → Lt a b → value_cmp b a ≡ Ordering.gt
Lt-greater a b h = elim (comparison b a) [
  | before e l ↦ absurd (h.1 (value_ordered.le_antisymm a b h.0 l.0))
  | after e l ↦ e
  | equal e same ↦ absurd (h.1 (sym same))
]

module _ {A : Type 0} (value : A → ValueData) (needle : ValueData) where
  abbrev cmp : A → Ordering
  cmp x = value_cmp (value x) needle

  -- The number of the elements before the first one that is not smaller.
  abbrev pub smaller : List A → ℕ
  smaller [] = 0
  smaller (x ∷ xs) = elim (cmp x) [ Ordering.lt ↦ suc (smaller xs) | _ ↦ 0 ]

  mem-get_elem? : (xs : List A) (i : ℕ) (x : A) → get_elem? xs i ≡ some x → value x ∈ map value xs
  mem-get_elem? [] i x e = absurd (ground arith)
  mem-get_elem? (y ∷ xs) zero x e = inl (let same : y ≡ x = ground arith in ap value (sym same))
  mem-get_elem? (y ∷ xs) (suc i) x e = inr (mem-get_elem? xs i x e)

  module _ (x : A) (xs : List A) (n : ℕ) (lt : cmp x ≡ Ordering.lt) (sp : Splits cmp xs n) where
    cons-below : (i : ℕ) (y : A) → i < suc n → get_elem? (x ∷ xs) i ≡ some y → cmp y ≡ Ordering.lt
    cons-below zero y l e =
        let same : x ≡ y = ground arith in subst (λ z. cmp z ≡ Ordering.lt) same lt
    cons-below (suc i) y l e = sp.below i y (omega arith) e

    cons-above : (i : ℕ) (y : A) → suc n < i → get_elem? (x ∷ xs) i ≡ some y → cmp y ≡ Ordering.gt
    cons-above zero y l e = absurd (omega arith)
    cons-above (suc i) y l e = sp.above i y (omega arith) e

    cons-Splits : Splits cmp (x ∷ xs) (suc n)
    cons-Splits = record {
      below = cons-below;
      here = sp.here;
      above = cons-above;
      fits = let f = sp.fits in omega arith;
    }

  module _ (x : A) (xs : List A) (c : IsCanonical (map value (x ∷ xs)))
      (other : cmp x ≢ Ordering.lt) where
    -- All elements behind one that is not smaller are greater.
    first-above : (i : ℕ) (y : A) → 0 < i → get_elem? (x ∷ xs) i ≡ some y → cmp y ≡ Ordering.gt
    first-above zero y l e = absurd (omega arith)
    first-above (suc i) y l e =
        let behind =
          IsCanonical-head (value x) (value y) (map value xs) c (mem-get_elem? xs i y e) in
        elim (comparison (value x) needle) [
          | before lt k ↦ absurd (other lt)
          | after gt k ↦ Lt-greater needle (value y) (Lt-trans needle (value x) (value y) k behind)
          | equal eq same ↦ Lt-greater needle (value y) (subst (λ z. Lt z (value y)) same behind)
        ]

    first-Splits : Splits cmp (x ∷ xs) 0
    first-Splits = record {
      below = λ i y l e. absurd (omega arith);
      here = λ y e lt.
          other (let same : x ≡ y = ground arith in subst (λ z. cmp z ≡ Ordering.lt) (sym same) lt);
      above = first-above;
      fits = omega arith;
    }

  pub smaller-Splits : (xs : List A) → IsCanonical (map value xs) → Splits cmp xs (smaller xs)
  smaller-Splits [] c = record {
    below = λ i y l e. absurd (ground arith);
    here = λ y e. absurd (ground arith);
    above = λ i y l e. absurd (ground arith);
    fits = omega arith;
  }
  smaller-Splits (x ∷ xs) c = elim (comparison (value x) needle) [
    | before e l ↦
        rw (smaller, e)
          (cons-Splits x xs (smaller xs) e
            (smaller-Splits xs (IsCanonical-tail (value x) (map value xs) c)))
    | after e l ↦ rw (smaller, e) (first-Splits x xs c (λ lt. absurd (ground arith)))
    | equal e l ↦ rw (smaller, e) (first-Splits x xs c (λ lt. absurd (ground arith)))
  ]

  pub search-Answers :
      (xs : List A)
      → IsCanonical (map value xs)
      → Answers cmp xs (smaller xs) (binary_search cmp xs)
  search-Answers xs c = binary_search-Answers cmp xs (smaller xs) (smaller-Splits xs c)

differs : (a b : ValueData) → value_cmp a b ≢ Ordering.eq → a ≢ b
differs a b h e = h (subst (λ z. value_cmp a z ≡ Ordering.eq) e (value_cmp_refl a))

-- A scan finds the first entry with the key.
scan-at :
    (es : Pairs) (key : ValueData) (n : ℕ) (e : ValueData × ValueData)
    → ((i : ℕ) (e : ValueData × ValueData) → i < n → get_elem? es i ≡ some e → e.0 ≢ key)
    → get_elem? es n ≡ some e
    → e.0 ≡ key
    → scan es key ≡ some n
unfolding scan
scan-at [] key n e before_ at same = absurd (ground arith)
scan-at ((k, v) ∷ es) key zero e before_ at same =
    let first : (k, v) ≡ e = ground arith in
    rw (scan, (same_value_iff k key).1 (ap (λ p. p.0) first ∙ same)) refl
scan-at ((k, v) ∷ es) key (suc n) e before_ at same = ground (
  arith,
  same_value_iff k key,
  before_ 0 (k, v) (omega arith) refl,
  scan-at es key n e (λ i e' l. before_ (suc i) e' (omega arith)) at same,
)

scan-absent :
    (es : Pairs) (key : ValueData)
    → ((i : ℕ) (e : ValueData × ValueData) → get_elem? es i ≡ some e → e.0 ≢ key)
    → scan es key ≡ none
unfolding scan
scan-absent [] key out = refl
scan-absent ((k, v) ∷ es) key out =
    ground (arith, same_value_iff k key, out 0 (k, v) refl, scan-absent es key (λ i. out (suc i)))

side : (i n : ℕ) → (i < n) ⊎ ((n < i) ⊎ (i ≡ n))
side i n = elim (dec_lt i n) [
  | yes l ↦ inl l
  | no k ↦ elim (dec_lt n i) [ yes l ↦ inr (inl l) | no k' ↦ inr (inr (omega arith)) ]
]

module _ (es : Pairs) (key : ValueData) (c : IsCanonical (keys es)) where
  splits : Splits (λ e. value_cmp e.0 key) es (smaller (λ e. e.0) key es)
  splits = smaller-Splits (λ e. e.0) key es c

  answer-scan :
      (r : Position)
      → Answers (λ e. value_cmp e.0 key) es (smaller (λ e. e.0) key es) r
      → as_found r ≡ scan es key
  answer-scan (ok i) (at, (e, (here, same))) =
      ap some at
      ∙ sym (
          scan-at es key (smaller (λ e. e.0) key es) e
            (λ j e' l at'.
              differs e'.0 key (let lt = splits.below j e' l at' in λ eq. absurd (ground arith)))
            here (value_cmp-eq e.0 key same))
  answer-scan (err i) (at, greater) = sym (
      scan-absent es key (λ j e at'. differs e.0 key (λ eq.
        elim (side j (smaller (λ e. e.0) key es)) [
          | inl l ↦ absurd (let lt = splits.below j e l at' in ground arith)
          | inr (inl l) ↦ absurd (let gt = splits.above j e l at' in ground arith)
          | inr (inr same) ↦
              absurd
                (let gt = greater e (subst (λ z. get_elem? es z ≡ some e) same at') in ground arith)
        ])))

  pub map_find-scan : as_found (map_find es key) ≡ scan es key
  unfolding map_find
  map_find-scan = answer-scan _ (search-Answers (λ e. e.0) key es c)

  -- On a sorted map the search answers as the scan.
  pub map_find_by_id-scan : map_find_by_id es key ≡ scan es key
  unfolding map_find_by_id
  map_find_by_id-scan = elim (Bool-cases (leb (length es) 32)) [
    | inl small ↦ rw small refl
    | inr large ↦ rw large map_find-scan
  ]

  -- Where the key is missing, the search answers the place behind the smaller keys.
  pub map_find-absent :
      map_find_by_id es key ≡ none → map_find es key ≡ err (smaller (λ e. e.0) key es)
  unfolding map_find
  map_find-absent h = elim (Result-cases (map_find es key)) [
    | inl (i, e) ↦ absurd (
        let f = ap as_found (sym e) ∙ (map_find-scan ∙ (sym map_find_by_id-scan ∙ h)) in
        ground arith)
    | inr (i, e) ↦
        let a =
          subst (Answers (λ e. value_cmp e.0 key) es (smaller (λ e. e.0) key es)) e
            (search-Answers (λ e. e.0) key es c) in
        e ∙ ap err a.0
  ]

map_same : (vs : List ValueData) → map (λ v. v) vs ≡ vs
map_same [] = refl
map_same (v ∷ vs) = ap (λ l. v ∷ l) (map_same vs)

get_elem?-mem : (vs : List ValueData) (v : ValueData) → v ∈ vs → (i : ℕ) × (get_elem? vs i ≡ some v)
get_elem?-mem [] v m = absurd m
get_elem?-mem (x ∷ vs) v (inl e) = (0, ap some (sym e))
get_elem?-mem (x ∷ vs) v (inr m) = let (i, e) = get_elem?-mem vs v m in (suc i, e)

module _ (vs : List ValueData) (v : ValueData) (c : IsCanonical vs) where
  abbrev place : ℕ
  place = smaller (λ v. v) v vs

  canonical : IsCanonical (map (λ v. v) vs)
  canonical = subst IsCanonical (sym (map_same vs)) c

  answer-mem :
      (r : Position) → Answers (λ e. value_cmp e v) vs place r → (is_ok r ≡ true) ↔ (v ∈ vs)
  answer-mem (ok i) (at, (e, (here, same))) = (
    λ h.
        let m = mem-get_elem? (λ v. v) v vs place e here in
        subst (λ z. z ∈ vs) (value_cmp-eq e v same) (subst (λ l. e ∈ l) (map_same vs) m),
    λ m. refl,
  )
  answer-mem (err i) (at, greater) = (
    λ h. absurd (ground arith),
    λ m.
        let (j, at') = get_elem?-mem vs v m in
        let sp = smaller-Splits (λ v. v) v vs canonical in
        let eq = value_cmp_refl v in
        elim (side j place) [
          | inl l ↦ absurd (let lt = sp.below j v l at' in ground arith)
          | inr (inl l) ↦ absurd (let gt = sp.above j v l at' in ground arith)
          | inr (inr same) ↦
              absurd
                (let gt = greater v (subst (λ z. get_elem? vs z ≡ some v) same at') in ground arith)
        ],
  )

  pub mem-set_find : (is_ok (set_find vs v) ≡ true) ↔ (v ∈ vs)
  unfolding set_find
  mem-set_find = answer-mem _ (search-Answers (λ v. v) v vs canonical)
