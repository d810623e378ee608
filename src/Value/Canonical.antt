-- ===== src/Value/Canonical.antt =====
-- Concrete sets of inquint/src/value.rs are canonical: one value for the members of a set.
use inquint.Prelude.{◌≡◌, refl, sym, subst, ◌↔◌, Bool, true, false, List, [], ◌∈◌, arith}
use inquint.Prelude.{Result, ok}
use inquint.Order.Canonical.{IsCanonical, dedup-sort-IsCanonical, mem-dedup-sort}
use inquint.Value.{ValueData, Values, to_list, of_list, to_list-of_list}
use inquint.Value.Build.{sort_values_structural, dedup_values, set_of_normalized, set_find, is_ok}
use inquint.Value.Compare.Instance.{value_ordered}
use inquint.Value.Search.{mem-set_find}
use inquint.Value.Member.{contains}
use inquint.Errors.{QuintError}

-- Two vectors of values have the same members.
abbrev pub SameMembers : List ValueData → List ValueData → Type 0
SameMembers vs ws = (v : ValueData) → (v ∈ vs) ↔ (v ∈ ws)

-- The elements of a set.
abbrev pub elements : ValueData → List ValueData
elements (ValueData.set vs) = to_list vs
elements v = []

pub elements-set_of_normalized :
    (vs : List ValueData)
    → elements (set_of_normalized vs) ≡ dedup_values (sort_values_structural vs)
unfolding set_of_normalized
elements-set_of_normalized vs = to_list-of_list (dedup_values (sort_values_structural vs))

pub mem-dedup_values :
    (v : ValueData) (vs : List ValueData)
    → (v ∈ dedup_values (sort_values_structural vs)) ↔ (v ∈ vs)
unfolding dedup_values sort_values_structural
mem-dedup_values v vs = mem-dedup-sort v vs

pub dedup_values-IsCanonical :
    (vs : List ValueData) → IsCanonical (dedup_values (sort_values_structural vs))
unfolding dedup_values sort_values_structural
dedup_values-IsCanonical vs = dedup-sort-IsCanonical vs

-- What a test answers.
abbrev pub Answer : Type 0
Answer = Result QuintError Bool

ok_true_iff : (b : Bool) → (◌≡◌ {A = Answer} (ok b) (ok true)) ↔ (b ≡ true)
ok_true_iff true = (λ e. refl, λ e. refl)
ok_true_iff false = ground arith

pub contains-set :
    (v : ValueData) (vs : Values)
    → IsCanonical (to_list vs)
    → (contains (ValueData.set vs) v ≡ ok true) ↔ (v ∈ to_list vs)
unfolding contains
contains-set v vs c =
    ground (arith, ok_true_iff (is_ok (set_find (to_list vs) v)), mem-set_find (to_list vs) v c)

-- A set holds a value just if the vector that it is built from does.
pub contains-set_of_normalized :
    (v : ValueData) (vs : List ValueData) → (contains (set_of_normalized vs) v ≡ ok true) ↔ (v ∈ vs)
unfolding set_of_normalized
contains-set_of_normalized v vs =
    let ds = dedup_values (sort_values_structural vs) in
    let listed : (v ∈ to_list (of_list ds)) ↔ (v ∈ ds) = rw (to_list-of_list ds) (λ m. m, λ m. m) in
    let sorted = subst IsCanonical (sym (to_list-of_list ds)) (dedup_values-IsCanonical vs) in
    ground (arith, contains-set v (of_list ds) sorted, listed, mem-dedup_values v vs)
