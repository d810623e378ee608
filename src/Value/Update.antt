-- ===== src/Value/Update.antt =====
-- `map_update_cached` of inquint/src/value.rs: `Map.set` and `Map.put` with a memo of updates.
pub mod Lookup
pub mod Keys
pub mod Get
pub mod Memo
use inquint.Prelude.{
  ℕ, zero, suc, ◌+◌, ◌*◌, ◌/◌, ◌%◌, ◌-◌, ◌==◌, ◌^◌, Bool, true, false, ◌&&◌, Option, none, some,
  List, [], ◌∷◌, if◌then◌else◌, get_elem?, set,
}
use inquint.Prelude.{Result, ok, err, ◌>>=◌}
use inquint.Errors.{QuintError, qnt507, panic}
use inquint.Value.{ValueData, of_pairs}
use inquint.Value.Compare.{same_value}
use inquint.Value.Build.{Position, map_find, map_find_by_id, insert_at}
use inquint.Value.Construct.{as_map}
use inquint.Value.Sets.{u64_mod}

pub record UpdateEntry : Type 0 where
  pub map : ValueData
  pub key : ValueData
  pub val : ValueData
  pub res : ValueData

unfoldable pub update_cache_bits : ℕ
update_cache_bits = 16

-- The slots of the memo; an empty one is `none`, which is the id 0 in the source.
abbrev pub UpdateCache : Type 0
UpdateCache = ℕ → Option UpdateEntry

abbrev pub fx_multiplier : ℕ
fx_multiplier = 11400714819323198485

-- `update_slot` on the bits of the three ids.
unfoldable pub update_slot : ℕ → ℕ → ℕ → Bool → ℕ
unfolding update_cache_bits
update_slot m key val must_exist =
    let tag = if must_exist then 1 else 0 in
    let h1 = m * fx_multiplier % u64_mod in
    let h2 = (h1 + key * 2) % u64_mod * fx_multiplier % u64_mod in
    let h3 = (h2 + (val * 2 + tag)) % u64_mod * fx_multiplier % u64_mod in
    h3 / 2 ^ (64 - update_cache_bits)

-- The result that the slot holds for this m, key and value.
unfoldable pub cache_hit : Option UpdateEntry → ValueData → ValueData → ValueData → Option ValueData
cache_hit none m key val = none
cache_hit (some e) m key val =
    if same_value e.map m && (same_value e.key key && same_value e.val val)
    then some e.res
    else none

unfoldable pub cache_store : UpdateCache → ℕ → UpdateEntry → UpdateCache
cache_store c slot e i = if i == slot then some e else c i

-- The new entry for a key that the m holds at a position.
unfoldable pub replace_entry : List (ValueData × ValueData) → ℕ → ValueData → ValueData
replace_entry es i val = elim (get_elem? es i) [
  | none ↦ ValueData.map (of_pairs es)
  | some e ↦
      if same_value e.1 val
      then ValueData.map (of_pairs es)
      else ValueData.map (of_pairs (set es i (e.0, val)))
]

-- The insertion of a new key, where the search says; `unwrap_err` panics where it has found one.
unfoldable pub insert_key :
    List (ValueData × ValueData) → ValueData → ValueData → Position → Result QuintError ValueData
insert_key es key val (ok i) = err panic
insert_key es key val (err i) = ok (ValueData.map (of_pairs (insert_at i (key, val) es)))

-- The update that is run on a miss.
unfoldable pub map_update :
    List (ValueData × ValueData) → ValueData → ValueData → Bool → Result QuintError ValueData
map_update es key val must_exist = elim (map_find_by_id es key) [
  | some i ↦ ok (replace_entry es i val)
  | none ↦ if must_exist then err qnt507 else insert_key es key val (map_find es key)
]

-- A miss: the update, whose result goes into the slot.
unfoldable pub update_and_store :
    UpdateCache
    → ℕ
    → ValueData
    → ValueData
    → ValueData
    → Bool
    → Result QuintError (ValueData × UpdateCache)
update_and_store c i m key val must_exist = do
  es ← as_map m
  res ← map_update es key val must_exist
  ok (res, cache_store c i (record { map = m; key = key; val = val; res = res }))

-- The `slot` of a map, a key, a value and a kind of update is a function of their ids.
unfoldable pub map_update_cached :
    (ValueData → ValueData → ValueData → Bool → ℕ)
    → UpdateCache
    → ValueData
    → ValueData
    → ValueData
    → Bool
    → Result QuintError (ValueData × UpdateCache)
map_update_cached slot c m key val must_exist =
    let i = slot m key val must_exist in
    elim (cache_hit (c i) m key val) [
      | some res ↦ ok (res, c)
      | none ↦ update_and_store c i m key val must_exist
    ]
