-- ===== src/Value/Compare/Instance.antt =====
-- The structural order of values as an instance of the interface of ordered types.
use inquint.Prelude.{
  ◌≡◌, refl, sym, ◌∙◌, subst, ◌⊎◌, Bool, true, false, List, [], ◌∷◌, Ordering, arith,
}
use inquint.Prelude.{ℤ, leb_ℤ, compare_ℤ-eq}
use inquint.Order.Sort.{Ordered}
use inquint.Order.Instances.{list_le, list_le_total, list_le_antisymm, list_le_trans}
use inquint.Value.{ValueData}
use inquint.Value.Compare.{value_cmp, ◌then_with◌}
use inquint.Value.Compare.Code.{code, cmp_list, cmp_list-code}
use inquint.Value.Compare.Laws.{value_cmp-eq, value_cmp_refl}

leb_ℤ_refl : (a : ℤ) → leb_ℤ a a ≡ true
leb_ℤ_refl a = ground arith

leb_ℤ_total : (a b : ℤ) → (leb_ℤ a b ≡ true) ⊎ (leb_ℤ b a ≡ true)
leb_ℤ_total a b = ground arith

leb_ℤ_antisymm : (a b : ℤ) → leb_ℤ a b ≡ true → leb_ℤ b a ≡ true → a ≡ b
leb_ℤ_antisymm a b h k = compare_ℤ-eq a b (ground arith)

leb_ℤ_trans : (a b c : ℤ) → leb_ℤ a b ≡ true → leb_ℤ b c ≡ true → leb_ℤ a c ≡ true
leb_ℤ_trans a b c h k = ground arith

instance abbrev int_ordered : Ordered ℤ
int_ordered = record {
  le = leb_ℤ;
  le_refl = leb_ℤ_refl;
  le_total = leb_ℤ_total;
  le_antisymm = leb_ℤ_antisymm;
  le_trans = leb_ℤ_trans;
}

abbrev is_le : Ordering → Bool
is_le Ordering.gt = false
is_le Ordering.lt = true
is_le Ordering.eq = true

abbrev pub value_le : ValueData → ValueData → Bool
value_le a b = is_le (value_cmp a b)

list_le-cmp_list : (s t : List ℤ) → list_le s t ≡ is_le (cmp_list s t)
unfolding cmp_list
list_le-cmp_list [] [] = refl
list_le-cmp_list [] (y ∷ t) = refl
list_le-cmp_list (x ∷ s) [] = refl
list_le-cmp_list (x ∷ s) (y ∷ t) = ground (arith, list_le-cmp_list s t)

then_with-eq : (o : Ordering) → (o then_with Ordering.eq) ≡ o
then_with-eq Ordering.eq = refl
then_with-eq Ordering.lt = refl
then_with-eq Ordering.gt = refl

-- The code of a value alone.
abbrev code_of : ValueData → List ℤ
code_of a = code a []

value_cmp-code : (a b : ValueData) → cmp_list (code_of a) (code_of b) ≡ value_cmp a b
unfolding cmp_list
value_cmp-code a b = cmp_list-code a b [] [] ∙ then_with-eq (value_cmp a b)

value_le-code : (a b : ValueData) → list_le (code_of a) (code_of b) ≡ value_le a b
value_le-code a b = rw (list_le-cmp_list (code_of a) (code_of b), value_cmp-code a b) refl

code_of-eq : (a b : ValueData) → code_of a ≡ code_of b → a ≡ b
code_of-eq a b e = value_cmp-eq a b (
    sym (value_cmp-code a b)
    ∙ (sym (subst (λ c. cmp_list (code_of a) (code_of a) ≡ cmp_list (code_of a) c) e refl)
        ∙ (value_cmp-code a a ∙ value_cmp_refl a)))

pub value_le_refl : (a : ValueData) → value_le a a ≡ true
value_le_refl a = rw (value_cmp_refl a) refl

pub value_le_total : (a b : ValueData) → (value_le a b ≡ true) ⊎ (value_le b a ≡ true)
value_le_total a b =
    rw (sym (value_le-code a b), sym (value_le-code b a)) (list_le_total (code_of a) (code_of b))

pub value_le_antisymm : (a b : ValueData) → value_le a b ≡ true → value_le b a ≡ true → a ≡ b
value_le_antisymm a b h k =
    code_of-eq a b
      (list_le_antisymm (code_of a) (code_of b) (value_le-code a b ∙ h) (value_le-code b a ∙ k))

pub value_le_trans :
    (a b c : ValueData) → value_le a b ≡ true → value_le b c ≡ true → value_le a c ≡ true
value_le_trans a b c h k =
    sym (value_le-code a c)
    ∙ list_le_trans (code_of a) (code_of b) (code_of c) (value_le-code a b ∙ h)
        (value_le-code b c ∙ k)

instance abbrev pub value_ordered : Ordered ValueData
value_ordered = record {
  le = value_le;
  le_refl = value_le_refl;
  le_total = value_le_total;
  le_antisymm = value_le_antisymm;
  le_trans = value_le_trans;
}
