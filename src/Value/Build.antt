-- ===== src/Value/Build.antt =====
-- Sorted containers of inquint/src/value.rs: sets and maps from normalized elements, and lookup.
use inquint.Prelude.{
  ℕ, zero, suc, Bool, true, false, Option, none, some, List, [], ◌∷◌, if◌then◌else◌, Ordering,
}
use inquint.Prelude.{Result, ok, err, leb, length}
use inquint.Order.BinarySearch.{binary_search}
use inquint.Value.{ValueData, of_list, of_pairs}
use inquint.Value.Compare.{value_cmp, same_value}
use inquint.Value.Compare.Instance.{value_ordered}
use inquint.Order.Sort.{sort, dedup}

-- `sort_values_structural`, which sorts by `value_cmp`.
unfoldable pub sort_values_structural : List ValueData → List ValueData
sort_values_structural vs = sort vs

-- `dedup`, which compares ids: of a run of equal elements the first stays.
unfoldable pub dedup_values : List ValueData → List ValueData
dedup_values vs = dedup vs

unfoldable pub set_of_normalized : List ValueData → ValueData
set_of_normalized vs = ValueData.set (of_list (dedup_values (sort_values_structural vs)))

-- Where a search has found an element, or where the element is to be inserted.
abbrev pub Position : Type 0
Position = Result ℕ ℕ

abbrev pub is_ok : Position → Bool
is_ok (ok i) = true
is_ok (err i) = false

-- `Result::ok`
abbrev pub as_found : Position → Option ℕ
as_found (ok i) = some i
as_found (err i) = none

unfoldable pub set_find : List ValueData → ValueData → Position
set_find vs needle = binary_search (λ e. value_cmp e needle) vs

-- The sort of `map_of_normalized`, by key and then by the original position.
unfoldable pub insert_entry :
    ValueData × ValueData → List (ValueData × ValueData) → List (ValueData × ValueData)
insert_entry a [] = a ∷ []
insert_entry a (x ∷ xs) =
    let rest = insert_entry a xs in
    elim (value_cmp a.0 x.0) [ Ordering.gt ↦ x ∷ rest | _ ↦ a ∷ x ∷ xs ]

unfoldable pub sort_entries : List (ValueData × ValueData) → List (ValueData × ValueData)
sort_entries [] = []
sort_entries (x ∷ xs) = insert_entry x (sort_entries xs)

-- Of a run of equal keys the last stays.
unfoldable pub last_wins : List (ValueData × ValueData) → List (ValueData × ValueData)
last_wins [] = []
last_wins (x ∷ []) = x ∷ []
last_wins (x ∷ y ∷ ys) =
    let rest = last_wins (y ∷ ys) in if same_value x.0 y.0 then rest else x ∷ rest

unfoldable pub map_of_normalized : List (ValueData × ValueData) → ValueData
map_of_normalized es = ValueData.map (of_pairs (last_wins (sort_entries es)))

unfoldable pub map_find : List (ValueData × ValueData) → ValueData → Position
map_find es key = binary_search (λ e. value_cmp e.0 key) es

-- `iter().position(|&(k, _)| k == key)`
unfoldable pub scan : List (ValueData × ValueData) → ValueData → Option ℕ
scan [] key = none
scan ((k, v) ∷ es) key =
    let rest = scan es key in
    if same_value k key then some 0 else elim rest [ none ↦ none | some i ↦ some (suc i) ]

unfoldable pub map_find_by_id : List (ValueData × ValueData) → ValueData → Option ℕ
map_find_by_id es key = if leb (length es) 32 then scan es key else as_found (map_find es key)

-- `Vec::insert`
abbrev pub insert_at :
    ℕ → ValueData × ValueData → List (ValueData × ValueData) → List (ValueData × ValueData)
insert_at zero e es = e ∷ es
insert_at (suc i) e [] = e ∷ []
insert_at (suc i) e (x ∷ xs) = x ∷ insert_at i e xs
