-- ===== src/Value/Pick/Enumerate.antt =====
-- What `enumerate` of inquint/src/value.rs gives for a set whose index vectors all pick a value, and
-- for an interval.
use native.Mathlib.Nat.{mod-eq_of_lt, mul-one}
use inquint.Prelude.{
  ℕ, zero, suc, ◌+◌, ◌-◌, ◌<◌, ◌≤◌, ◌≡◌, refl, sym, ap, subst, ◌∙◌, ◌↔◌, ◌⊎◌, inl, inr, true, false,
  List, [], ◌∷◌, ◌∈◌, length, ltb, Bool-cases, arith,
}
use inquint.Prelude.{
  ℤ, pos, pos_part, neg_part, ◌+ℤ◌, ◌-ℤ◌, compare_ℤ-eq, ok, bind-ok, ok_injective,
}
use inquint.Order.Sort.{sort, dedup}
use inquint.Value.{ValueData, is_symbolic}
use inquint.Value.Build.{sort_values_structural, dedup_values}
use inquint.Value.Canonical.{mem-dedup_values}
use inquint.Value.Compare.Instance.{value_ordered}
use inquint.Value.Member.{contains}
use inquint.Value.Pick.{
  Picked, pick_loop, zeros, take_index, pick, settled, max_enum, enumerate, enumerate_by,
  enumerate_symbolic,
}
use inquint.Value.Pick.Indices.{Picks, values_from, pick_loop-counts}
use inquint.Value.Sets.{cardinality, bounds, interval_cardinality}
use inquint.Value.Sets.Product.{product, product-bounds}

values_from-nil :
    (f : ℕ → ValueData)
    → ◌≡◌ {A = List ValueData} [] (dedup_values (sort_values_structural (values_from f 0 0)))
unfolding dedup_values sort_values_structural sort dedup
values_from-nil f = refl

module _ (from : List ℕ → Picked) (s : ValueData) (bs : List ℕ) (f : ℕ → ValueData)
    (left : ℕ → List ℕ) where
  -- If every index vector within the bounds picks a value, and there are at most the limit of them,
  -- then enumerating gives just these values, sorted and without repetitions.
  pub enumerate_symbolic-counts :
      (n : ℕ)
      → cardinality s ≡ ok n
      → ltb max_enum n ≡ false
      → bounds s ≡ ok bs
      → Picks from bs f left
      → enumerate_symbolic from s ≡ ok (dedup_values (sort_values_structural (values_from f 0 n)))
  unfolding enumerate_symbolic
  enumerate_symbolic-counts zero c l b p = rw (enumerate_symbolic, c) (ap ok (values_from-nil f))
  enumerate_symbolic-counts (suc n) c l b p =
      let count : product bs ≡ suc n = product-bounds s bs (suc n) b c in
      let loop : pick_loop from bs (suc n) (zeros (length bs)) [] ≡ ok (values_from f 0 (suc n)) =
        subst (λ m. pick_loop from bs m (zeros (length bs)) [] ≡ ok (values_from f 0 m)) count
          (pick_loop-counts from bs f left n p count) in
      rw (enumerate_symbolic, c, l, b, loop) (ground arith)

mem-values_from :
    (v : ValueData) (f : ℕ → ValueData) (k n : ℕ)
    → (v ∈ values_from f k n) ↔ ((j : ℕ) × ((k ≤ j) × ((j < k + n) × (v ≡ f j))))
mem-values_from v f k zero = (λ m. absurd m, λ (j, (a, (b, e))). absurd (omega arith))
mem-values_from v f k (suc n) = (
  λ m. elim m [
    | inl e ↦ (k, (omega arith, (omega arith, e)))
    | inr r ↦
        let (j, (a, (b, e))) = (mem-values_from v f (k + 1) n).0 r in
        (j, (omega arith, (omega arith, e)))
  ],
  λ (j, (a, (b, e))).
      let cases : (k ≡ j) ⊎ (k + 1 ≤ j) = omega arith in
      elim cases [
        | inl same ↦ inl (e ∙ ap f (sym same))
        | inr more ↦ inr ((mem-values_from v f (k + 1) n).1 (j, (more, (omega arith, e))))
      ],
)

-- The least and the greatest element of an interval that has `n` elements.
interval_cardinality-ok :
    (a b : ℤ) (n : ℕ)
    → interval_cardinality a b ≡ ok n
    → pos_part b + neg_part a + 1 ≡ n + pos_part a + neg_part b
unfolding interval_cardinality ◌+ℤ◌ ◌-ℤ◌
interval_cardinality-ok a b n h = ground arith

abbrev pub nth_int : ℤ → ℕ → ValueData
nth_int a k = ValueData.int (a +ℤ pos k)

pub interval-Picks :
    (a b : ℤ) (n : ℕ) → Picks (pick (ValueData.interval a b)) (n ∷ []) (nth_int a) (λ k. [])
unfolding pick take_index settled is_symbolic
interval-Picks a b n k h =
    let bound : k < n = omega (arith, mul-one n) in (rw (mod-eq_of_lt bound) refl, refl)

-- `a +ℤ pos j` stands `j` above `a`.
add_pos_parts :
    (a : ℤ) (j : ℕ) → pos_part (a +ℤ pos j) + neg_part a ≡ pos_part a + j + neg_part (a +ℤ pos j)
unfolding ◌+ℤ◌
add_pos_parts a j = ground arith

int_value : ValueData → ℤ
int_value (ValueData.int m) = m
int_value v = pos 0

-- What the elements of an interval are.
within_iff :
    (a b m : ℤ) (n : ℕ)
    → pos_part b + neg_part a + 1 ≡ n + pos_part a + neg_part b
    → (contains (ValueData.interval a b) (ValueData.int m) ≡ ok true)
      ↔ ((j : ℕ) × ((0 ≤ j) × ((j < 0 + n) × (ValueData.int m ≡ nth_int a j))))
unfolding contains int_value
within_iff a b m n h = (
  λ c.
      let lower : pos_part a + neg_part m ≤ pos_part m + neg_part a = ground arith in
      let upper : pos_part m + neg_part b ≤ pos_part b + neg_part m = ground arith in
      let j = pos_part m + neg_part a - (pos_part a + neg_part m) in
      let sum = add_pos_parts a j in
      (
        j,
        (omega arith, (omega arith, ap ValueData.int (compare_ℤ-eq m (a +ℤ pos j) (ground arith)))),
      ),
  λ (j, (l, (u, e))).
      let same : m ≡ a +ℤ pos j = ap int_value e in
      let parts : pos_part m + neg_part a ≡ pos_part a + j + neg_part m =
        rw same (add_pos_parts a j) in
      ground arith,
)

contains-interval :
    (a b : ℤ) (v : ValueData) (n : ℕ)
    → pos_part b + neg_part a + 1 ≡ n + pos_part a + neg_part b
    → (contains (ValueData.interval a b) v ≡ ok true)
      ↔ ((j : ℕ) × ((0 ≤ j) × ((j < 0 + n) × (v ≡ nth_int a j))))
unfolding contains
contains-interval a b (ValueData.int m) n h = within_iff a b m n h
contains-interval a b v n h =
    (λ c. absurd (ground arith), λ (j, (l, (u, e))). absurd (ground arith))

-- Enumerating an interval gives the values that it contains and no others.
pub enumerate-interval :
    (a b : ℤ) (v : ValueData) (vs : List ValueData)
    → enumerate (ValueData.interval a b) ≡ ok vs
    → (v ∈ vs) ↔ (contains (ValueData.interval a b) v ≡ ok true)
unfolding enumerate enumerate_by enumerate_symbolic cardinality bounds
enumerate-interval a b v vs h =
    let s = ValueData.interval a b in
    let (n, (c, more)) = bind-ok (cardinality s) _ vs h in
    let small : ltb max_enum n ≡ false = elim (Bool-cases (ltb max_enum n)) [
      | inl e ↦ absurd (ground arith)
      | inr e ↦ e
    ] in
    let bounded : bounds s ≡ ok (n ∷ []) = rw (bounds, c) refl in
    let all =
      enumerate_symbolic-counts (pick s) s (n ∷ []) (nth_int a) (λ k. []) n c small bounded
        (interval-Picks a b n) in
    let same : vs ≡ dedup_values (sort_values_structural (values_from (nth_int a) 0 n)) =
      ok_injective (sym h ∙ all) in
    let listed = mem-dedup_values v (values_from (nth_int a) 0 n) in
    let described = mem-values_from v (nth_int a) 0 n in
    let contained = contains-interval a b v n (interval_cardinality-ok a b n c) in
    let into : (v ∈ vs) ↔ (v ∈ values_from (nth_int a) 0 n) = rw same listed in
    ((λ m. contained.1 (described.0 (into.0 m))), (λ m. into.1 (described.1 (contained.0 m))))
