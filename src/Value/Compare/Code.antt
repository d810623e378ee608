-- ===== src/Value/Compare/Code.antt =====
-- The structural order is the lexicographic order of a code: the tokens of a value in the order in
-- which `value_cmp` looks at them, with a mark before each element and one at the end of a slice.
use inquint.Prelude.{
  ℕ, ◌≡◌, refl, ◌∙◌, ap, Bool, true, false, List, [], ◌∷◌, compare, Ordering, arith,
}
use inquint.Prelude.{ℤ, pos, compare_ℤ}
use inquint.Value.{ValueData, Values, Fields, Entries, discriminant_rank}
use inquint.Value.Compare.{
  value_cmp, cmp_slices, cmp_fields, cmp_entries, ◌then_with◌, compare_bool,
}

abbrev bit : Bool → ℤ
bit false = pos 0
bit true = pos 1

-- The tokens of a value, before those of `s`.
unfoldable mutual
  pub code : ValueData → List ℤ → List ℤ
  code (ValueData.bool b) s = pos 0 ∷ bit b ∷ s
  code (ValueData.int n) s = pos 1 ∷ n ∷ s
  code (ValueData.str k) s = pos 2 ∷ pos k ∷ s
  code (ValueData.set vs) s = pos 3 ∷ codes vs s
  code (ValueData.tuple vs) s = pos 4 ∷ codes vs s
  code (ValueData.list vs) s = pos 5 ∷ codes vs s
  code (ValueData.rec fs) s = pos 6 ∷ field_codes fs s
  code (ValueData.map es) s = pos 7 ∷ entry_codes es s
  code (ValueData.variant l v) s = pos 8 ∷ pos l ∷ code v s
  code (ValueData.lambda i) s = pos 9 ∷ pos i ∷ s
  code (ValueData.interval a b) s = pos 10 ∷ a ∷ b ∷ s
  code (ValueData.cross_product sets) s = pos 11 ∷ codes sets s
  code (ValueData.power_set base) s = pos 12 ∷ code base s
  code (ValueData.map_set d r) s = pos 13 ∷ code d (code r s)
  code ValueData.infinite_int s = pos 14 ∷ s
  code ValueData.infinite_nat s = pos 15 ∷ s

  pub codes : Values → List ℤ → List ℤ
  codes Values.nil s = pos 0 ∷ s
  codes (Values.cons v vs) s = pos 1 ∷ code v (codes vs s)

  pub field_codes : Fields → List ℤ → List ℤ
  field_codes Fields.no_fields s = pos 0 ∷ s
  field_codes (Fields.field k v fs) s = pos 1 ∷ pos k ∷ code v (field_codes fs s)

  pub entry_codes : Entries → List ℤ → List ℤ
  entry_codes Entries.empty s = pos 0 ∷ s
  entry_codes (Entries.entry k v es) s = pos 1 ∷ code k (code v (entry_codes es s))

unfoldable pub cmp_list : List ℤ → List ℤ → Ordering
cmp_list [] [] = Ordering.eq
cmp_list [] (y ∷ t) = Ordering.lt
cmp_list (x ∷ s) [] = Ordering.gt
cmp_list (x ∷ s) (y ∷ t) = compare_ℤ x y then_with cmp_list s t

compare_pos : (a b : ℕ) → compare_ℤ (pos a) (pos b) ≡ compare a b
compare_pos a b = ground arith

compare_bit : (a b : Bool) → compare_ℤ (bit a) (bit b) ≡ compare_bool a b
compare_bit true true = refl
compare_bit true false = refl
compare_bit false true = refl
compare_bit false false = refl

then_with_assoc : (a b o : Ordering) → (a then_with (b then_with o)) ≡ ((a then_with b) then_with o)
then_with_assoc Ordering.eq b o = refl
then_with_assoc Ordering.lt b o = refl
then_with_assoc Ordering.gt b o = refl

-- Two parts that are compared one after the other.
then_with_two :
    (a b o : Ordering) {x y : Ordering}
    → x ≡ (a then_with y)
    → y ≡ (b then_with o)
    → x ≡ ((a then_with b) then_with o)
then_with_two a b o e f = e ∙ (ap (λ z. a then_with z) f ∙ then_with_assoc a b o)

mutual
  unfolding code codes field_codes entry_codes cmp_list value_cmp cmp_slices cmp_fields cmp_entries
      discriminant_rank

  pub cmp_list-code :
      (a b : ValueData) (s t : List ℤ)
      → cmp_list (code a s) (code b t) ≡ (value_cmp a b then_with cmp_list s t)
  cmp_list-code (ValueData.bool x) (ValueData.bool y) s t =
      ap (λ o. o then_with cmp_list s t) (compare_bit x y)
  cmp_list-code (ValueData.int x) (ValueData.int y) s t = refl
  cmp_list-code (ValueData.str x) (ValueData.str y) s t =
      ap (λ o. o then_with cmp_list s t) (compare_pos x y)
  cmp_list-code (ValueData.set x) (ValueData.set y) s t = cmp_list-codes x y s t
  cmp_list-code (ValueData.tuple x) (ValueData.tuple y) s t = cmp_list-codes x y s t
  cmp_list-code (ValueData.list x) (ValueData.list y) s t = cmp_list-codes x y s t
  cmp_list-code (ValueData.rec x) (ValueData.rec y) s t = cmp_list-field_codes x y s t
  cmp_list-code (ValueData.map x) (ValueData.map y) s t = cmp_list-entry_codes x y s t
  cmp_list-code (ValueData.variant k x) (ValueData.variant l y) s t =
      then_with_two (compare k l) (value_cmp x y) (cmp_list s t)
        (ap (λ o. o then_with cmp_list (code x s) (code y t)) (compare_pos k l))
        (cmp_list-code x y s t)
  cmp_list-code (ValueData.lambda x) (ValueData.lambda y) s t =
      ap (λ o. o then_with cmp_list s t) (compare_pos x y)
  cmp_list-code (ValueData.interval a b) (ValueData.interval c d) s t =
      then_with_assoc (compare_ℤ a c) (compare_ℤ b d) (cmp_list s t)
  cmp_list-code (ValueData.cross_product x) (ValueData.cross_product y) s t = cmp_list-codes x y s t
  cmp_list-code (ValueData.power_set x) (ValueData.power_set y) s t = cmp_list-code x y s t
  cmp_list-code (ValueData.map_set a b) (ValueData.map_set c d) s t =
      then_with_two (value_cmp a c) (value_cmp b d) (cmp_list s t)
        (cmp_list-code a c (code b s) (code d t)) (cmp_list-code b d s t)
  cmp_list-code ValueData.infinite_int ValueData.infinite_int s t = refl
  cmp_list-code ValueData.infinite_nat ValueData.infinite_nat s t = refl
  cmp_list-code a b s t = refl

  cmp_list-codes :
      (a b : Values) (s t : List ℤ)
      → cmp_list (codes a s) (codes b t) ≡ (cmp_slices a b then_with cmp_list s t)
  cmp_list-codes Values.nil Values.nil s t = refl
  cmp_list-codes Values.nil (Values.cons y ys) s t = refl
  cmp_list-codes (Values.cons x xs) Values.nil s t = refl
  cmp_list-codes (Values.cons x xs) (Values.cons y ys) s t =
      then_with_two (value_cmp x y) (cmp_slices xs ys) (cmp_list s t)
        (cmp_list-code x y (codes xs s) (codes ys t)) (cmp_list-codes xs ys s t)

  cmp_list-field_codes :
      (a b : Fields) (s t : List ℤ)
      → cmp_list (field_codes a s) (field_codes b t) ≡ (cmp_fields a b then_with cmp_list s t)
  cmp_list-field_codes Fields.no_fields Fields.no_fields s t = refl
  cmp_list-field_codes Fields.no_fields (Fields.field l y ys) s t = refl
  cmp_list-field_codes (Fields.field k x xs) Fields.no_fields s t = refl
  cmp_list-field_codes (Fields.field k x xs) (Fields.field l y ys) s t =
      then_with_two (compare k l) (value_cmp x y then_with cmp_fields xs ys) (cmp_list s t)
        (ap (λ o. o then_with cmp_list (code x (field_codes xs s)) (code y (field_codes ys t)))
          (compare_pos k l))
        (then_with_two (value_cmp x y) (cmp_fields xs ys) (cmp_list s t)
          (cmp_list-code x y (field_codes xs s) (field_codes ys t))
          (cmp_list-field_codes xs ys s t))

  cmp_list-entry_codes :
      (a b : Entries) (s t : List ℤ)
      → cmp_list (entry_codes a s) (entry_codes b t) ≡ (cmp_entries a b then_with cmp_list s t)
  cmp_list-entry_codes Entries.empty Entries.empty s t = refl
  cmp_list-entry_codes Entries.empty (Entries.entry l y ys) s t = refl
  cmp_list-entry_codes (Entries.entry k x xs) Entries.empty s t = refl
  cmp_list-entry_codes (Entries.entry k x xs) (Entries.entry l y ys) s t =
      then_with_two (value_cmp k l) (value_cmp x y then_with cmp_entries xs ys) (cmp_list s t)
        (cmp_list-code k l (code x (entry_codes xs s)) (code y (entry_codes ys t)))
        (then_with_two (value_cmp x y) (cmp_entries xs ys) (cmp_list s t)
          (cmp_list-code x y (entry_codes xs s) (entry_codes ys t))
          (cmp_list-entry_codes xs ys s t))
