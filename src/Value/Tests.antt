-- ===== src/Value/Tests.antt =====
-- Values of inquint/src/value.rs at concrete inputs.
use inquint.Prelude.{ℕ, ◌≡◌, ◌≢◌, refl, ◌↔◌, true, false, none, List, [], ◌∷◌, ◌∈◌, arith, length}
use inquint.Prelude.{pos, ok, err, ◌>>=◌}
use inquint.Errors.{panic}
use inquint.Value.{ValueData, Values, of_list, of_pairs}
use inquint.Value.Build.{sort_values_structural, dedup_values}
use inquint.Value.Compare.{value_cmp}
use inquint.Value.Compare.Instance.{value_ordered}
use inquint.Value.Member.{contains, subseteq}
use inquint.Value.Pick.{pick, pick_loop, zeros, enumerate}
use inquint.Value.Pick.Enumerate.{enumerate-interval, interval-Picks, nth_int}
use inquint.Value.Pick.Indices.{pick_loop-counts, values_from}
use inquint.Value.Sets.{bounds, cardinality}
use inquint.Value.Sets.Product.{product, product-bounds}
use inquint.Value.Update.{UpdateCache, cache_store, map_update, map_update_cached, update_slot}
use inquint.Value.Search.{Pairs}
use inquint.Value.Update.Memo.{
  Slot, TellsApart, IsConsistent, direct_update, update_slot_tells_apart,
  map_update_cached-eq-direct, map_update_cached-IsConsistent,
}
use inquint.Order.Sort.{dedup, sort}
use inquint.Value.Build.{map_find_by_id, map_find, scan, set_find}
use inquint.Order.BinarySearch.{binary_search, narrow, next_base}
use inquint.Value.Compare.{same_value}
use inquint.Value.Member.{try_all}
use inquint.Value.Pick.{
  enumerate_by, enumerate_symbolic, pick_concrete, pick_entries, pick_map, range_picker,
}
use inquint.Value.Sets.{cardinalities, checked_pow}
use inquint.Value.Update.{replace_entry}
use inquint.Value.Sets.{interval_cardinality}
use inquint.Prelude.{◌-ℤ◌, ◌+ℤ◌}
use inquint.Value.Pick.{take_index, settled, next_indices, settled_entries}
use inquint.Value.{is_symbolic, discriminant_rank}
use inquint.Order.Sort.{dedup_after, insert_sorted}
use inquint.Value.Build.{map_of_normalized, insert_entry, last_wins, sort_entries}
use inquint.Value.Compare.{cmp_entries, cmp_slices}
use inquint.Value.Construct.{as_map}
use inquint.Value.Update.{cache_hit, update_and_store}

abbrev int : ℕ → ValueData
int n = ValueData.int (pos n)

abbrev one_two : List ValueData
one_two = int 1 ∷ int 2 ∷ []

abbrev three_four : ValueData
three_four = ValueData.set (of_list (int 3 ∷ int 4 ∷ []))

abbrev one_two_set : ValueData
one_two_set = ValueData.set (of_list one_two)

abbrev small : ValueData
small = ValueData.interval (pos 3) (pos 5)

small-enumerate : enumerate small ≡ ok (int 3 ∷ int 4 ∷ int 5 ∷ [])
unfolding enumerate enumerate_by enumerate_symbolic cardinality interval_cardinality ◌-ℤ◌ ◌+ℤ◌
    bounds pick_loop pick take_index settled is_symbolic next_indices dedup_values dedup
    sort_values_structural dedup_after insert_sorted sort value_cmp checked_pow pick_map
    range_picker pick_entries pick_concrete settled_entries map_of_normalized insert_entry last_wins
    sort_entries same_value cmp_entries cmp_slices discriminant_rank
small-enumerate = refl

enumerate-interval_example :
    (int 4 ∈ int 3 ∷ int 4 ∷ int 5 ∷ []) ↔ (contains small (int 4) ≡ ok true)
enumerate-interval_example =
    enumerate-interval (pos 3) (pos 5) (int 4) (int 3 ∷ int 4 ∷ int 5 ∷ []) small-enumerate

pick_loop-counts_example :
    pick_loop (pick small) (3 ∷ []) (product (3 ∷ [])) (zeros 1) []
    ≡ ok (values_from (nth_int (pos 3)) 0 (product (3 ∷ [])))
pick_loop-counts_example =
    pick_loop-counts (pick small) (3 ∷ []) (nth_int (pos 3)) (λ k. []) 2
      (interval-Picks (pos 3) (pos 5) 3) refl

abbrev maps : ValueData
maps = ValueData.map_set one_two_set three_four

maps-bounds : bounds maps ≡ ok (2 ∷ 2 ∷ [])
unfolding bounds cardinality
maps-bounds = refl

maps-cardinality : cardinality maps ≡ ok 4
unfolding cardinality checked_pow
maps-cardinality = refl

product-bounds_example : product (2 ∷ 2 ∷ []) ≡ 4
product-bounds_example = product-bounds maps (2 ∷ 2 ∷ []) 4 maps-bounds maps-cardinality

-- A cross product with a set of maps has one bound for each component, where a pick takes two
-- indices for the maps.
cross_of_maps : enumerate (ValueData.cross_product (of_list (maps ∷ []))) ≡ err panic
unfolding enumerate enumerate_by enumerate_symbolic cardinality checked_pow bounds cardinalities
    pick_loop pick pick_map range_picker pick_entries pick_concrete
cross_of_maps = refl

-- The maps from {1} into the maps from {1, 2} to {3, 4}: four of them, of which two are visited.
abbrev nested : ValueData
nested = ValueData.map_set (ValueData.set (of_list (int 1 ∷ []))) maps

nested-cardinality : cardinality nested ≡ ok 4
unfolding cardinality checked_pow
nested-cardinality = refl

nested-enumerate : (enumerate nested >>= λ vs. ok (length vs)) ≡ ok 2
unfolding enumerate enumerate_by enumerate_symbolic cardinality interval_cardinality ◌-ℤ◌ ◌+ℤ◌
    bounds pick_loop pick take_index settled is_symbolic next_indices dedup_values dedup
    sort_values_structural dedup_after insert_sorted sort value_cmp checked_pow pick_map
    range_picker pick_entries pick_concrete settled_entries map_of_normalized insert_entry last_wins
    sort_entries same_value cmp_entries cmp_slices discriminant_rank
nested-enumerate = refl

-- An empty product that is not found in another one, by its first component.
abbrev no_pairs : ValueData
no_pairs = ValueData.cross_product (of_list (one_two_set ∷ ValueData.set Values.nil ∷ []))

no_pairs-subseteq :
    subseteq no_pairs (ValueData.cross_product (of_list (three_four ∷ three_four ∷ []))) ≡ ok false
unfolding subseteq try_all contains set_find binary_search narrow next_base same_value value_cmp
no_pairs-subseteq = refl

abbrev table : Pairs
table = (int 1, int 3) ∷ (int 2, int 4) ∷ []

abbrev table' : ValueData
table' = ValueData.map (of_pairs ((int 1, int 7) ∷ (int 2, int 4) ∷ []))

-- Two slots, one for each kind of update, and a memo that is empty.
abbrev two_slots : Slot
two_slots m key val true = 1
two_slots m key val false = 0

two_slots-TellsApart : TellsApart two_slots
two_slots-TellsApart m key val h = ground arith

abbrev no_updates : UpdateCache
no_updates i = none

no_updates-IsConsistent : IsConsistent two_slots no_updates
no_updates-IsConsistent i e h = ground arith

abbrev table_value : ValueData
table_value = ValueData.map (of_pairs table)

map_update_cached-eq-direct_example :
    (map_update_cached two_slots no_updates table_value (int 1) (int 7) true >>= λ r. ok r.0)
    ≡ direct_update table_value (int 1) (int 7) true
map_update_cached-eq-direct_example =
    map_update_cached-eq-direct two_slots no_updates table_value (int 1) (int 7) true
      two_slots-TellsApart no_updates-IsConsistent

update_slot_tells_apart_example : update_slot 70 71 72 true ≢ update_slot 70 71 72 false
update_slot_tells_apart_example = update_slot_tells_apart 70 71 72

abbrev one_update : UpdateCache
one_update =
    cache_store no_updates 1 (record { map = table_value; key = int 1; val = int 7; res = table' })

table-map_update_cached :
    map_update_cached two_slots no_updates table_value (int 1) (int 7) true
    ≡ ok (table', one_update)
unfolding map_update_cached cache_hit update_and_store as_map map_update map_find_by_id scan
    same_value value_cmp replace_entry
table-map_update_cached = refl

map_update_cached-IsConsistent_example : IsConsistent two_slots one_update
map_update_cached-IsConsistent_example =
    map_update_cached-IsConsistent two_slots no_updates table_value (int 1) (int 7) table' true
      one_update no_updates-IsConsistent table-map_update_cached

-- On a slice that is not sorted, the search can miss what is there.
set_find_unsorted : set_find (int 5 ∷ int 1 ∷ int 2 ∷ []) (int 5) ≡ err 3
unfolding set_find binary_search narrow next_base value_cmp
set_find_unsorted = refl

table-map_find : (map_find table (int 2) ≡ ok 1) × (map_find table (int 9) ≡ err 2)
unfolding map_find binary_search narrow next_base value_cmp
table-map_find = (refl, refl)
