-- ===== src/Eval/Maps.antt =====
-- Maps of inquint/src/eval/builtins_eager.rs. `set` and `put` go through the memo of updates.
use inquint.Prelude.{ℕ, Bool, true, false, none, some, List, [], ◌∷◌, map}
use inquint.Prelude.{Result, ok, err, ◌>>=◌}
use inquint.Errors.{QuintError, qnt507}
use inquint.Value.{ValueData, of_list}
use inquint.Value.Construct.{EvalResult, as_map, as_tuple2, map_get, new_map}
use inquint.Value.Pick.{normalize, enumerate}
use inquint.Value.Update.{UpdateCache, map_update_cached}

unfoldable pub get : ValueData → ValueData → EvalResult
get m k = do
  key ← normalize k
  found ← map_get m key
  elim found [ none ↦ err qnt507 | some v ↦ ok v ]

unfoldable pub keys : ValueData → EvalResult
keys m = do es ← as_map m; ok (ValueData.set (of_list (map (λ e. e.0) es)))

unfoldable pub as_pairs : List ValueData → Result QuintError (List (ValueData × ValueData))
as_pairs [] = ok []
as_pairs (kv ∷ kvs) = do e ← as_tuple2 kv; es ← as_pairs kvs; ok (e ∷ es)

unfoldable pub set_to_map : ValueData → EvalResult
set_to_map s = do kvs ← enumerate s; es ← as_pairs kvs; new_map es

-- `Map`
unfoldable pub map_op : List ValueData → EvalResult
map_op args = do es ← as_pairs args; new_map es

-- The slots of updates, and the memo of the thread.
module _ (slot : ValueData → ValueData → ValueData → Bool → ℕ) (c : UpdateCache) where
  unfoldable pub set_op :
      ValueData → ValueData → ValueData → Result QuintError (ValueData × UpdateCache)
  set_op m k v = do key ← normalize k; val ← normalize v; map_update_cached slot c m key val true

  unfoldable pub put :
      ValueData → ValueData → ValueData → Result QuintError (ValueData × UpdateCache)
  put m k v = do key ← normalize k; val ← normalize v; map_update_cached slot c m key val false
