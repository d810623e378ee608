-- ===== src/Value/Compare/Laws.antt =====
-- Values compare `eq` just if they are the same.
use inquint.Prelude.{◌≡◌, refl, ap, subst, ◌↔◌, true, compare, compare_ℤ, Ordering, arith}
use inquint.Prelude.{compare_ℤ-eq, compare_ℤ_refl}
use inquint.Value.{ValueData, Values, Fields, Entries, discriminant_rank}
use inquint.Value.Compare.{value_cmp, cmp_slices, cmp_fields, cmp_entries, ◌then_with◌, same_value}

then_with_eq :
    (a b : Ordering) → (a then_with b) ≡ Ordering.eq → (a ≡ Ordering.eq) × (b ≡ Ordering.eq)
then_with_eq Ordering.lt b h = ground arith
then_with_eq Ordering.eq b h = (refl, h)
then_with_eq Ordering.gt b h = ground arith

mutual
  unfolding value_cmp cmp_slices cmp_fields cmp_entries discriminant_rank

  pub value_cmp-eq : (a b : ValueData) → value_cmp a b ≡ Ordering.eq → a ≡ b
  value_cmp-eq (ValueData.bool x) (ValueData.bool y) h = ground arith
  value_cmp-eq (ValueData.int x) (ValueData.int y) h = ap ValueData.int (compare_ℤ-eq x y h)
  value_cmp-eq (ValueData.str x) (ValueData.str y) h = ground arith
  value_cmp-eq (ValueData.set x) (ValueData.set y) h = ap ValueData.set (cmp_slices-eq x y h)
  value_cmp-eq (ValueData.tuple x) (ValueData.tuple y) h = ap ValueData.tuple (cmp_slices-eq x y h)
  value_cmp-eq (ValueData.list x) (ValueData.list y) h = ap ValueData.list (cmp_slices-eq x y h)
  value_cmp-eq (ValueData.rec x) (ValueData.rec y) h = ap ValueData.rec (cmp_fields-eq x y h)
  value_cmp-eq (ValueData.map x) (ValueData.map y) h = ap ValueData.map (cmp_entries-eq x y h)
  value_cmp-eq (ValueData.variant lx vx) (ValueData.variant ly vy) h =
      let (l, v) = then_with_eq (compare lx ly) (value_cmp vx vy) h in
      let v' = value_cmp-eq vx vy v in ground arith
  value_cmp-eq (ValueData.lambda x) (ValueData.lambda y) h = ground arith
  value_cmp-eq (ValueData.interval a b) (ValueData.interval c d) h =
      let (l, v) = then_with_eq (compare_ℤ a c) (compare_ℤ b d) h in
      rw (compare_ℤ-eq a c l, compare_ℤ-eq b d v) refl
  value_cmp-eq (ValueData.cross_product x) (ValueData.cross_product y) h =
      ap ValueData.cross_product (cmp_slices-eq x y h)
  value_cmp-eq (ValueData.power_set x) (ValueData.power_set y) h =
      ap ValueData.power_set (value_cmp-eq x y h)
  value_cmp-eq (ValueData.map_set a b) (ValueData.map_set c d) h =
      let (l, v) = then_with_eq (value_cmp a c) (value_cmp b d) h in
      rw (value_cmp-eq a c l, value_cmp-eq b d v) refl
  value_cmp-eq ValueData.infinite_int ValueData.infinite_int h = refl
  value_cmp-eq ValueData.infinite_nat ValueData.infinite_nat h = refl
  value_cmp-eq a b h = absurd (ground arith)

  cmp_slices-eq : (a b : Values) → cmp_slices a b ≡ Ordering.eq → a ≡ b
  cmp_slices-eq Values.nil Values.nil h = refl
  cmp_slices-eq Values.nil (Values.cons y ys) h = absurd (ground arith)
  cmp_slices-eq (Values.cons x xs) Values.nil h = absurd (ground arith)
  cmp_slices-eq (Values.cons x xs) (Values.cons y ys) h =
      let (l, v) = then_with_eq (value_cmp x y) (cmp_slices xs ys) h in
      rw (value_cmp-eq x y l, cmp_slices-eq xs ys v) refl

  cmp_fields-eq : (a b : Fields) → cmp_fields a b ≡ Ordering.eq → a ≡ b
  cmp_fields-eq Fields.no_fields Fields.no_fields h = refl
  cmp_fields-eq Fields.no_fields (Fields.field l y ys) h = absurd (ground arith)
  cmp_fields-eq (Fields.field k x xs) Fields.no_fields h = absurd (ground arith)
  cmp_fields-eq (Fields.field k x xs) (Fields.field l y ys) h =
      let (e, rest) = then_with_eq (compare k l) _ h in
      let (v, rest') = then_with_eq (value_cmp x y) (cmp_fields xs ys) rest in
      let e' : k ≡ l = ground arith in rw (e', value_cmp-eq x y v, cmp_fields-eq xs ys rest') refl

  cmp_entries-eq : (a b : Entries) → cmp_entries a b ≡ Ordering.eq → a ≡ b
  cmp_entries-eq Entries.empty Entries.empty h = refl
  cmp_entries-eq Entries.empty (Entries.entry l y ys) h = absurd (ground arith)
  cmp_entries-eq (Entries.entry k x xs) Entries.empty h = absurd (ground arith)
  cmp_entries-eq (Entries.entry k x xs) (Entries.entry l y ys) h =
      let (e, rest) = then_with_eq (value_cmp k l) _ h in
      let (v, rest') = then_with_eq (value_cmp x y) (cmp_entries xs ys) rest in
      rw (value_cmp-eq k l e, value_cmp-eq x y v, cmp_entries-eq xs ys rest') refl

mutual
  unfolding value_cmp cmp_slices cmp_fields cmp_entries discriminant_rank

  pub value_cmp_refl : (a : ValueData) → value_cmp a a ≡ Ordering.eq
  value_cmp_refl (ValueData.bool x) = ground arith
  value_cmp_refl (ValueData.int x) = compare_ℤ_refl x
  value_cmp_refl (ValueData.str x) = ground arith
  value_cmp_refl (ValueData.set x) = cmp_slices_refl x
  value_cmp_refl (ValueData.tuple x) = cmp_slices_refl x
  value_cmp_refl (ValueData.list x) = cmp_slices_refl x
  value_cmp_refl (ValueData.rec x) = cmp_fields_refl x
  value_cmp_refl (ValueData.map x) = cmp_entries_refl x
  value_cmp_refl (ValueData.variant l v) = ground (arith, value_cmp_refl v)
  value_cmp_refl (ValueData.lambda x) = ground arith
  value_cmp_refl (ValueData.interval a b) = rw (compare_ℤ_refl a, compare_ℤ_refl b) refl
  value_cmp_refl (ValueData.cross_product x) = cmp_slices_refl x
  value_cmp_refl (ValueData.power_set x) = value_cmp_refl x
  value_cmp_refl (ValueData.map_set a b) = rw (value_cmp_refl a, value_cmp_refl b) refl
  value_cmp_refl ValueData.infinite_int = refl
  value_cmp_refl ValueData.infinite_nat = refl

  cmp_slices_refl : (a : Values) → cmp_slices a a ≡ Ordering.eq
  cmp_slices_refl Values.nil = refl
  cmp_slices_refl (Values.cons x xs) = rw (value_cmp_refl x, cmp_slices_refl xs) refl

  cmp_fields_refl : (a : Fields) → cmp_fields a a ≡ Ordering.eq
  cmp_fields_refl Fields.no_fields = refl
  cmp_fields_refl (Fields.field k x xs) = ground (arith, value_cmp_refl x, cmp_fields_refl xs)

  cmp_entries_refl : (a : Entries) → cmp_entries a a ≡ Ordering.eq
  cmp_entries_refl Entries.empty = refl
  cmp_entries_refl (Entries.entry k x xs) =
      rw (value_cmp_refl k, value_cmp_refl x, cmp_entries_refl xs) refl

-- The order tells values apart: two values compare as equal just if they are the same.
pub value_cmp_iff : (a b : ValueData) → (value_cmp a b ≡ Ordering.eq) ↔ (a ≡ b)
value_cmp_iff a b =
    (value_cmp-eq a b, λ e. subst (λ x. value_cmp a x ≡ Ordering.eq) e (value_cmp_refl a))

pub same_value_iff : (a b : ValueData) → (same_value a b ≡ true) ↔ (a ≡ b)
unfolding same_value
same_value_iff a b = ground (arith, value_cmp_iff a b)
