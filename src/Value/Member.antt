-- ===== src/Value/Member.antt =====
-- `value_eq`, `contains` and `subseteq` of inquint/src/value.rs.
use inquint.Prelude.{Bool, true, false, ◌&&◌, ◌||◌, List, [], ◌∷◌, length, map, ◌==◌, if◌then◌else◌}
use inquint.Prelude.{ℤ, pos, leb_ℤ, ltb_ℤ, Result, ok, err, ◌>>=◌}
use inquint.Errors.{QuintError, panic}
use inquint.Value.{ValueData, Values, Entries, to_list, of_list, to_pairs, is_symbolic, is_set}
use inquint.Value.Compare.{same_value}
use inquint.Value.Build.{set_find, is_ok}
use inquint.Value.Sets.{cardinality}
use inquint.Value.Pick.{enumerate}

-- `try_fold(true, |acc, e| Ok(acc && test(e)?))`: after a failure no test is run.
unfoldable pub try_all :
    (ValueData → Result QuintError Bool) → List ValueData → Result QuintError Bool
try_all test [] = ok true
try_all test (v ∷ vs) = do b ← test v; if b then try_all test vs else ok false

-- Equality of slices of interned values.
unfoldable pub same_values : List ValueData → List ValueData → Bool
same_values [] [] = true
same_values (x ∷ xs) (y ∷ ys) = same_value x y && same_values xs ys
same_values xs ys = false

-- The last match of `value_eq`, where one of the operands is symbolic.
unfoldable pub symbolic_eq : ValueData → ValueData → Result QuintError Bool
symbolic_eq ValueData.infinite_int b = ok false
symbolic_eq ValueData.infinite_nat b = ok false
symbolic_eq a ValueData.infinite_int = ok false
symbolic_eq a ValueData.infinite_nat = ok false
symbolic_eq (ValueData.interval a1 a2) (ValueData.interval b1 b2) = ok (
    (ltb_ℤ a2 a1 && ltb_ℤ b2 b1)
    || same_value (ValueData.interval a1 a2) (ValueData.interval b1 b2))
symbolic_eq a b =
    if is_set a && is_set b
    then (cardinality a >>= λ n. cardinality b >>= λ m.
        if n == m
        then (enumerate a >>= λ xs. enumerate b >>= λ ys. ok (same_values xs ys))
        else ok false)
    else ok false

unfoldable pub value_eq : ValueData → ValueData → Result QuintError Bool
value_eq a b =
    if same_value a b
    then ok true
    else (if is_symbolic a || is_symbolic b then symbolic_eq a b else ok false)

-- The keys of a map, which are sorted.
abbrev pub keys_of : Entries → ValueData
keys_of es = ValueData.set (of_list (map (λ e. e.0) (to_pairs es)))

abbrev pub values_of : Entries → List ValueData
values_of es = map (λ e. e.1) (to_pairs es)

abbrev pub is_nonneg : ℤ → Bool
is_nonneg n = leb_ℤ (pos 0) n

unfoldable mutual
  pub contains : ValueData → ValueData → Result QuintError Bool
  contains (ValueData.set s) elem = ok (is_ok (set_find (to_list s) elem))
  contains (ValueData.interval start end) (ValueData.int n) = ok (leb_ℤ start n && leb_ℤ n end)
  contains (ValueData.interval start end) elem = ok false
  contains (ValueData.cross_product sets) (ValueData.tuple elems) =
      if length (to_list sets) == length (to_list elems) then contains_each sets elems else ok false
  contains (ValueData.cross_product sets) elem = ok false
  contains (ValueData.power_set base) (ValueData.set elems) =
      try_all (λ e. contains base e) (to_list elems)
  contains (ValueData.power_set base) elem = ok false
  contains (ValueData.map_set domain range) (ValueData.map m) = do
    same ← value_eq (keys_of m) domain
    if same then try_all (λ v. contains range v) (values_of m) else ok false
  contains (ValueData.map_set domain range) elem = ok false
  contains ValueData.infinite_int (ValueData.int n) = ok true
  contains ValueData.infinite_int elem = ok false
  contains ValueData.infinite_nat (ValueData.int n) = ok (is_nonneg n)
  contains ValueData.infinite_nat elem = ok false
  contains v elem = err panic

  -- The `try_fold` over the sets of a cross product and the elements of a tuple.
  pub contains_each : Values → Values → Result QuintError Bool
  contains_each (Values.cons s sets) (Values.cons e elems) = do
    b ← contains s e
    if b then contains_each sets elems else ok false
  contains_each sets elems = ok true

-- The last arms of `subseteq`: every element of the left set is in the right one.
unfoldable pub subseteq_by_elements : ValueData → ValueData → Result QuintError Bool
subseteq_by_elements a b = do es ← enumerate a; try_all (λ v. contains b v) es

unfoldable mutual
  pub subseteq : ValueData → ValueData → Result QuintError Bool
  subseteq (ValueData.set a) (ValueData.set b) =
      try_all (λ e. contains (ValueData.set b) e) (to_list a)
  subseteq (ValueData.interval a1 a2) (ValueData.interval b1 b2) =
      ok (ltb_ℤ a2 a1 || (leb_ℤ b1 a1 && leb_ℤ a2 b2))
  subseteq (ValueData.cross_product a) (ValueData.cross_product b) =
      if length (to_list a) == length (to_list b) then subseteq_each a b else ok false
  subseteq (ValueData.power_set a) (ValueData.power_set b) = subseteq a b
  subseteq (ValueData.map_set ad ar) (ValueData.map_set bd br) = do
    same ← value_eq ad bd
    if same then subseteq ar br else ok false
  subseteq ValueData.infinite_nat ValueData.infinite_nat = ok true
  subseteq ValueData.infinite_nat ValueData.infinite_int = ok true
  subseteq ValueData.infinite_int ValueData.infinite_int = ok true
  subseteq ValueData.infinite_int b = ok false
  subseteq ValueData.infinite_nat b = ok false
  subseteq a b = subseteq_by_elements a b

  -- The `try_fold` over two lists of sets.
  pub subseteq_each : Values → Values → Result QuintError Bool
  subseteq_each (Values.cons x a) (Values.cons y b) = do
    r ← subseteq x y
    if r then subseteq_each a b else ok false
  subseteq_each a b = ok true
