-- ===== src/Eval/Lists.antt =====
-- Lists, tuples and records of inquint/src/eval/builtins_eager.rs.
use inquint.Prelude.{
  ℕ, zero, suc, ◌-◌, Bool, ◌&&◌, ◌||◌, Option, none, some, List, [], ◌∷◌, ◌++◌, length, get_elem?,
  set, take, drop, leb, ◌==◌, if◌then◌else◌,
}
use inquint.Prelude.{ℤ, pos, pos_part, ◌+ℤ◌, ◌-ℤ◌, leb_ℤ, Result, ok, err, ◌>>=◌}
use inquint.Errors.{QuintError, panic, qnt505, qnt506, qnt510, overflow}
use inquint.Value.{ValueData, Fields, of_list}
use inquint.Value.Construct.{
  EvalResult, as_int, as_str, as_elems, as_record, record_field, new_set, new_record,
}
use inquint.Value.Pick.{normalize}
use inquint.Value.Sets.{cardinality, fits_i64}
use inquint.Eval.Arith.{is_neg}

-- `index < 0 || index as usize >= len`
abbrev pub out_of_bounds : ℤ → ℕ → Bool
out_of_bounds index len = is_neg index || leb len (pos_part index)

abbrev pub list_of_normalized : List ValueData → ValueData
list_of_normalized vs = ValueData.list (of_list vs)

-- The panic is that of an index out of range, which the guard excludes.
unfoldable pub at_index : List ValueData → ℤ → EvalResult
at_index vs index =
    if out_of_bounds index (length vs)
    then err qnt510
    else elim (get_elem? vs (pos_part index)) [ none ↦ err panic | some v ↦ ok v ]

unfoldable pub int_from_card : ℕ → EvalResult
int_from_card card = if fits_i64 (pos card) then ok (ValueData.int (pos card)) else err overflow

-- Tuples are 1-indexed. For the least integer the subtraction wraps in a release build, to an index
-- that is out of bounds too.
unfoldable pub item : ValueData → ValueData → EvalResult
item a i = do vs ← as_elems a; n ← as_int i; at_index vs (n -ℤ pos 1)

unfoldable pub ints_from : ℤ → ℕ → List ValueData
ints_from start zero = []
ints_from start (suc n) = ValueData.int start ∷ ints_from (start +ℤ pos 1) n

unfoldable pub range : ValueData → ValueData → EvalResult
range a b = do
  start ← as_int a
  end ← as_int b
  ok (list_of_normalized (ints_from start (pos_part (end -ℤ start))))

unfoldable pub nth : ValueData → ValueData → EvalResult
nth a i = do vs ← as_elems a; n ← as_int i; at_index vs n

unfoldable pub replace_at : ValueData → ValueData → ValueData → EvalResult
replace_at a i v = do
  vs ← as_elems a
  index ← as_int i
  let replaced = do v' ← normalize v; ok (list_of_normalized (set vs (pos_part index) v'))
  if out_of_bounds index (length vs) then err qnt510 else replaced

unfoldable pub first_or : QuintError → List ValueData → EvalResult
first_or e [] = err e
first_or e (v ∷ vs) = ok v

unfoldable pub head : ValueData → EvalResult
head a = do vs ← as_elems a; first_or qnt505 vs

unfoldable pub tail_of : List ValueData → EvalResult
tail_of [] = err qnt505
tail_of (v ∷ vs) = ok (list_of_normalized vs)

unfoldable pub tail : ValueData → EvalResult
tail a = do vs ← as_elems a; tail_of vs

unfoldable pub slice : ValueData → ValueData → ValueData → EvalResult
slice a i j = do
  vs ← as_elems a
  start ← as_int i
  end ← as_int j
  let part = take (pos_part end - pos_part start) (drop (pos_part start) vs)
  if leb_ℤ (pos 0) start && (leb_ℤ start end && leb (pos_part end) (length vs))
      then ok (list_of_normalized part)
      else err qnt506

-- `length` and `size`
unfoldable pub size : ValueData → EvalResult
size a = do n ← cardinality a; int_from_card n

unfoldable pub append : ValueData → ValueData → EvalResult
append a v = do vs ← as_elems a; v' ← normalize v; ok (list_of_normalized (vs ++ v' ∷ []))

unfoldable pub concat : ValueData → ValueData → EvalResult
concat a b = do vs ← as_elems a; ws ← as_elems b; ok (list_of_normalized (vs ++ ws))

unfoldable pub indices : ValueData → EvalResult
indices a = do
  n ← cardinality a
  if fits_i64 (pos n) then ok (ValueData.interval (pos 0) (pos n -ℤ pos 1)) else err overflow

unfoldable pub field_op : ValueData → ValueData → EvalResult
field_op a f = do
  name ← as_str f
  found ← record_field a name
  elim found [ none ↦ err panic | some v ↦ ok v ]

unfoldable pub names_of : Fields → List ValueData
names_of Fields.no_fields = []
names_of (Fields.field k v fs) = ValueData.str k ∷ names_of fs

unfoldable pub field_names : ValueData → EvalResult
field_names a = do fs ← as_record a; new_set (names_of fs)

-- The fields with a new value at a name, if they have the name.
unfoldable pub set_field : Fields → ℕ → ValueData → Option Fields
set_field Fields.no_fields name v = none
set_field (Fields.field k w fs) name v =
    let rest = set_field fs name v in
    if k == name
    then some (Fields.field k v fs)
    else elim rest [ none ↦ none | some fs' ↦ some (Fields.field k w fs') ]

-- The missing name is looked for before the value is normalized.
unfoldable pub with_op : ValueData → ValueData → ValueData → EvalResult
with_op a f v = do
  fs ← as_record a
  name ← as_str f
  elim (set_field fs name v) [
    | none ↦ err panic
    | some old ↦ normalize v >>= λ v'. elim (set_field fs name v') [
      | none ↦ err panic
      | some fs' ↦ ok (ValueData.rec fs')
    ]
  ]

-- `Rec`: names and values in turn; a last odd argument is left out.
unfoldable pub chunks : List ValueData → Result QuintError (List (ℕ × ValueData))
chunks [] = ok []
chunks (k ∷ []) = ok []
chunks (k ∷ v ∷ vs) = do name ← as_str k; rest ← chunks vs; ok ((name, v) ∷ rest)

unfoldable pub rec_op : List ValueData → EvalResult
rec_op args = do fs ← chunks args; new_record fs
