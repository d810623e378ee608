-- ===== src/Value/Compare.antt =====
-- The structural order of inquint/src/value.rs: `value_cmp`, `value_cmp_deep` and `cmp_slices`.
pub mod Laws
pub mod Code
pub mod Instance
pub mod Comparison
use inquint.Prelude.{ℕ, Bool, true, false, List, [], ◌∷◌, ℤ, compare, compare_ℤ, Ordering}
use inquint.Value.{ValueData, Values, Fields, Entries, discriminant_rank}

infixr 5 ◌then_with◌
abbrev pub ◌then_with◌ : Ordering → Ordering → Ordering
Ordering.eq then_with o = o
Ordering.lt then_with o = Ordering.lt
Ordering.gt then_with o = Ordering.gt

-- `false` comes first.
abbrev pub compare_bool : Bool → Bool → Ordering
compare_bool false false = Ordering.eq
compare_bool false true = Ordering.lt
compare_bool true false = Ordering.gt
compare_bool true true = Ordering.eq

-- Lambdas and symbolic forms make the code panic. The order goes on structurally there, so that
-- two values are `eq` just if they are the same.
unfoldable mutual
  pub value_cmp : ValueData → ValueData → Ordering
  value_cmp (ValueData.bool x) (ValueData.bool y) = compare_bool x y
  value_cmp (ValueData.int x) (ValueData.int y) = compare_ℤ x y
  value_cmp (ValueData.str x) (ValueData.str y) = compare x y
  value_cmp (ValueData.set x) (ValueData.set y) = cmp_slices x y
  value_cmp (ValueData.tuple x) (ValueData.tuple y) = cmp_slices x y
  value_cmp (ValueData.list x) (ValueData.list y) = cmp_slices x y
  value_cmp (ValueData.rec x) (ValueData.rec y) = cmp_fields x y
  value_cmp (ValueData.map x) (ValueData.map y) = cmp_entries x y
  value_cmp (ValueData.variant lx vx) (ValueData.variant ly vy) =
      compare lx ly then_with value_cmp vx vy
  value_cmp (ValueData.lambda x) (ValueData.lambda y) = compare x y
  value_cmp (ValueData.interval a b) (ValueData.interval c d) =
      compare_ℤ a c then_with compare_ℤ b d
  value_cmp (ValueData.cross_product x) (ValueData.cross_product y) = cmp_slices x y
  value_cmp (ValueData.power_set x) (ValueData.power_set y) = value_cmp x y
  value_cmp (ValueData.map_set a b) (ValueData.map_set c d) = value_cmp a c then_with value_cmp b d
  value_cmp a b = compare (discriminant_rank a) (discriminant_rank b)

  -- The first difference decides, and then the length.
  pub cmp_slices : Values → Values → Ordering
  cmp_slices Values.nil Values.nil = Ordering.eq
  cmp_slices Values.nil (Values.cons y ys) = Ordering.lt
  cmp_slices (Values.cons x xs) Values.nil = Ordering.gt
  cmp_slices (Values.cons x xs) (Values.cons y ys) = value_cmp x y then_with cmp_slices xs ys

  -- The field names and the values interleaved.
  pub cmp_fields : Fields → Fields → Ordering
  cmp_fields Fields.no_fields Fields.no_fields = Ordering.eq
  cmp_fields Fields.no_fields (Fields.field l y ys) = Ordering.lt
  cmp_fields (Fields.field k x xs) Fields.no_fields = Ordering.gt
  cmp_fields (Fields.field k x xs) (Fields.field l y ys) =
      compare k l then_with (value_cmp x y then_with cmp_fields xs ys)

  pub cmp_entries : Entries → Entries → Ordering
  cmp_entries Entries.empty Entries.empty = Ordering.eq
  cmp_entries Entries.empty (Entries.entry l y ys) = Ordering.lt
  cmp_entries (Entries.entry k x xs) Entries.empty = Ordering.gt
  cmp_entries (Entries.entry k x xs) (Entries.entry l y ys) =
      value_cmp k l then_with (value_cmp x y then_with cmp_entries xs ys)

-- `==` of two ids.
abbrev pub is_eq : Ordering → Bool
is_eq Ordering.eq = true
is_eq Ordering.lt = false
is_eq Ordering.gt = false

unfoldable pub same_value : ValueData → ValueData → Bool
same_value a b = is_eq (value_cmp a b)
