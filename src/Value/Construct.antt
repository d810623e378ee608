-- ===== src/Value/Construct.antt =====
-- Constructors and accessors of inquint/src/value.rs. A constructor of a container normalizes its
-- elements. An accessor of the wrong form panics.
use inquint.Prelude.{
  ℕ, Bool, Option, none, some, List, [], ◌∷◌, ◌==◌, compare, Ordering, if◌then◌else◌, get_elem?,
}
use inquint.Prelude.{ℤ, Result, ok, err, ◌>>=◌}
use inquint.Errors.{QuintError, panic}
use inquint.Value.{ValueData, Fields, to_list, of_list, to_pairs}
use inquint.Value.Build.{set_of_normalized, map_of_normalized, map_find_by_id}
use inquint.Value.Pick.{normalize}

abbrev pub EvalResult : Type 0
EvalResult = Result QuintError ValueData

unfoldable pub normalize_all : List ValueData → Result QuintError (List ValueData)
normalize_all [] = ok []
normalize_all (v ∷ vs) = do v' ← normalize v; vs' ← normalize_all vs; ok (v' ∷ vs')

unfoldable pub new_set : List ValueData → EvalResult
new_set vs = do vs' ← normalize_all vs; ok (set_of_normalized vs')

unfoldable pub new_tuple : List ValueData → EvalResult
new_tuple vs = do vs' ← normalize_all vs; ok (ValueData.tuple (of_list vs'))

unfoldable pub new_list : List ValueData → EvalResult
new_list vs = do vs' ← normalize_all vs; ok (ValueData.list (of_list vs'))

unfoldable pub normalize_pairs :
    List (ValueData × ValueData) → Result QuintError (List (ValueData × ValueData))
normalize_pairs [] = ok []
normalize_pairs ((k, v) ∷ es) = do
  k' ← normalize k
  v' ← normalize v
  es' ← normalize_pairs es
  ok ((k', v') ∷ es')

unfoldable pub new_map : List (ValueData × ValueData) → EvalResult
new_map es = do es' ← normalize_pairs es; ok (map_of_normalized es')

unfoldable pub new_variant : ℕ → ValueData → EvalResult
new_variant label payload = do payload' ← normalize payload; ok (ValueData.variant label payload')

unfoldable pub normalize_fields : List (ℕ × ValueData) → Result QuintError (List (ℕ × ValueData))
normalize_fields [] = ok []
normalize_fields ((k, v) ∷ fs) = do v' ← normalize v; fs' ← normalize_fields fs; ok ((k, v') ∷ fs')

-- `sort_by_key`, which is stable.
unfoldable pub insert_field : ℕ × ValueData → List (ℕ × ValueData) → List (ℕ × ValueData)
insert_field a [] = a ∷ []
insert_field a (x ∷ xs) =
    let rest = insert_field a xs in
    elim (compare a.0 x.0) [ Ordering.gt ↦ x ∷ rest | _ ↦ a ∷ x ∷ xs ]

unfoldable pub sort_fields : List (ℕ × ValueData) → List (ℕ × ValueData)
sort_fields [] = []
sort_fields (x ∷ xs) = insert_field x (sort_fields xs)

-- `dedup_by`: of a run of equal names the last value stays.
unfoldable pub last_fields : List (ℕ × ValueData) → List (ℕ × ValueData)
last_fields [] = []
last_fields (x ∷ []) = x ∷ []
last_fields (x ∷ y ∷ ys) = let rest = last_fields (y ∷ ys) in if x.0 == y.0 then rest else x ∷ rest

abbrev pub of_fields : List (ℕ × ValueData) → Fields
of_fields [] = Fields.no_fields
of_fields ((k, v) ∷ fs) = Fields.field k v (of_fields fs)

unfoldable pub new_record : List (ℕ × ValueData) → EvalResult
new_record fs = do
  fs' ← normalize_fields fs
  ok (ValueData.rec (of_fields (last_fields (sort_fields fs'))))

unfoldable pub as_int : ValueData → Result QuintError ℤ
as_int (ValueData.int n) = ok n
as_int v = err panic

unfoldable pub as_bool : ValueData → Result QuintError Bool
as_bool (ValueData.bool b) = ok b
as_bool v = err panic

unfoldable pub as_str : ValueData → Result QuintError ℕ
as_str (ValueData.str s) = ok s
as_str v = err panic

unfoldable pub as_map : ValueData → Result QuintError (List (ValueData × ValueData))
as_map (ValueData.map m) = ok (to_pairs m)
as_map v = err panic

unfoldable pub as_record : ValueData → Result QuintError Fields
as_record (ValueData.rec fs) = ok fs
as_record v = err panic

unfoldable pub as_elems : ValueData → Result QuintError (List ValueData)
as_elems (ValueData.tuple vs) = ok (to_list vs)
as_elems (ValueData.list vs) = ok (to_list vs)
as_elems v = err panic

unfoldable pub as_variant : ValueData → Result QuintError (ℕ × ValueData)
as_variant (ValueData.variant label payload) = ok (label, payload)
as_variant v = err panic

-- The first two of the elements.
unfoldable pub first_two : List ValueData → Result QuintError (ValueData × ValueData)
first_two (a ∷ b ∷ vs) = ok (a, b)
first_two vs = err panic

unfoldable pub as_tuple2 : ValueData → Result QuintError (ValueData × ValueData)
as_tuple2 v = do vs ← as_elems v; first_two vs

unfoldable pub as_set : ValueData → Result QuintError (List ValueData)
as_set (ValueData.set vs) = ok (to_list vs)
as_set v = err panic

unfoldable pub find_field : Fields → ℕ → Option ValueData
find_field Fields.no_fields name = none
find_field (Fields.field k v fs) name =
    let rest = find_field fs name in if k == name then some v else rest

unfoldable pub record_field : ValueData → ℕ → Result QuintError (Option ValueData)
record_field v name = do fs ← as_record v; ok (find_field fs name)

-- The value at a position that a lookup has found.
unfoldable pub value_at : List (ValueData × ValueData) → Option ℕ → Option ValueData
value_at es none = none
value_at es (some i) = elim (get_elem? es i) [ none ↦ none | some e ↦ some e.1 ]

unfoldable pub map_get : ValueData → ValueData → Result QuintError (Option ValueData)
map_get m key = do es ← as_map m; ok (value_at es (map_find_by_id es key))
