-- ===== src/Value/Update/Keys.antt =====
-- The keys of a map stay sorted and unique under an update of inquint/src/value.rs.
use inquint.Prelude.{ℕ, ◌≡◌, Bool, true, false, none, [], arith}
use inquint.Prelude.{ok}
use inquint.Order.Canonical.{IsCanonical}
use inquint.Value.{ValueData, to_pairs, of_pairs}
use inquint.Value.Build.{map_find_by_id, insert_at}
use inquint.Value.Compare.Instance.{value_ordered}
use inquint.Value.Update.{insert_key, map_update}
use inquint.Value.Search.{Pairs, keys, smaller, map_find-absent}

abbrev pub entries : ValueData → Pairs
entries (ValueData.map es) = to_pairs es
entries v = []

-- The place of a new key.
abbrev pub place : Pairs → ValueData → ℕ
place es key = smaller (λ e. e.0) key es

-- An update of a missing key inserts it.
pub map_update-insert :
    (es : Pairs) (key val m : ValueData) (must_exist : Bool)
    → IsCanonical (keys es)
    → map_find_by_id es key ≡ none
    → map_update es key val must_exist ≡ ok m
    → ValueData.map (of_pairs (insert_at (place es key) (key, val) es)) ≡ m
unfolding map_update insert_key
map_update-insert es key val m true c n h = absurd (ground arith)
map_update-insert es key val m false c n h = let absent = map_find-absent es key c n in ground arith
