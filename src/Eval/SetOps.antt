-- ===== src/Eval/SetOps.antt =====
-- Sets of inquint/src/eval/builtins_eager.rs.
pub mod Merge
pub mod Filter
use inquint.Prelude.{
  ℕ, zero, suc, ◌+◌, ◌%◌, ◌^◌, Bool, true, false, not, ◌&&◌, List, [], ◌∷◌, ◌++◌, length, map, ltb,
  leb, ◌==◌, if◌then◌else◌, Ordering,
}
use inquint.Prelude.{ℤ, pos, pos_part, ltb_ℤ, Result, ok, err, ◌>>=◌}
use inquint.Errors.{QuintError, unsupported, qnt505}
use inquint.Value.{ValueData, of_list}
use inquint.Value.Build.{set_of_normalized}
use inquint.Value.Compare.{value_cmp}
use inquint.Value.Construct.{EvalResult, as_int, new_set}
use inquint.Value.Member.{contains, subseteq}
use inquint.Value.Pick.{normalize, enumerate, max_enum}
use inquint.Value.Sets.{checked_pow}
use inquint.Eval.Lists.{first_or, list_of_normalized}

abbrev pub set_sorted : List ValueData → ValueData
set_sorted vs = ValueData.set (of_list vs)

-- `contains`, and `in` with the arguments in the other order.
unfoldable pub contains_op : ValueData → ValueData → EvalResult
contains_op s e = do e' ← normalize e; r ← contains s e'; ok (ValueData.bool r)

unfoldable pub in_op : ValueData → ValueData → EvalResult
in_op e s = do e' ← normalize e; r ← contains s e'; ok (ValueData.bool r)

unfoldable pub subseteq_op : ValueData → ValueData → EvalResult
subseteq_op a b = do r ← subseteq a b; ok (ValueData.bool r)

-- The loop of `exclude`, where `keep` is `false`, and of `intersect`, where it is `true`.
unfoldable pub filter_by :
    (ValueData → Result QuintError Bool)
    → Bool
    → List ValueData
    → Result QuintError (List ValueData)
filter_by test keep [] = ok []
filter_by test keep (v ∷ vs) = do
  b ← test v
  rest ← filter_by test keep vs
  ok (if (if keep then b else not b) then v ∷ rest else rest)

unfoldable pub exclude : ValueData → ValueData → EvalResult
exclude a b = do vs ← enumerate a; out ← filter_by (contains b) false vs; ok (set_sorted out)

unfoldable pub intersect : ValueData → ValueData → EvalResult
intersect a b = do vs ← enumerate a; out ← filter_by (contains b) true vs; ok (set_sorted out)

-- The rounds of `merge_sorted` at one element of the first slice, whose rest is merged by `next`.
unfoldable pub merge_at :
    ValueData → (List ValueData → List ValueData) → List ValueData → List ValueData
merge_at x next [] = x ∷ next []
merge_at x next (y ∷ ys) =
    let rest = merge_at x next ys in
    elim (value_cmp x y) [
      | Ordering.lt ↦ x ∷ next (y ∷ ys)
      | Ordering.gt ↦ y ∷ rest
      | Ordering.eq ↦ x ∷ next ys
    ]

unfoldable pub merge_sorted : List ValueData → List ValueData → List ValueData
merge_sorted [] bs = bs
merge_sorted (x ∷ xs) bs = merge_at x (λ ys. merge_sorted xs ys) bs

unfoldable pub union : ValueData → ValueData → EvalResult
union a b = do vs ← enumerate a; ws ← enumerate b; ok (set_sorted (merge_sorted vs ws))

unfoldable pub to : ValueData → ValueData → EvalResult
to a b = do
  start ← as_int a
  end ← as_int b
  if ltb_ℤ end start then new_set [] else ok (ValueData.interval start end)

unfoldable pub enumerate_each : List ValueData → Result QuintError (List ValueData)
enumerate_each [] = ok []
enumerate_each (s ∷ ss) = do vs ← enumerate s; rest ← enumerate_each ss; ok (vs ++ rest)

unfoldable pub flatten : ValueData → EvalResult
flatten a = do outer ← enumerate a; vs ← enumerate_each outer; ok (set_of_normalized vs)

unfoldable pub only_element : List ValueData → EvalResult
only_element (v ∷ []) = ok v
only_element vs = err qnt505

unfoldable pub get_only_element : ValueData → EvalResult
get_only_element a = do vs ← enumerate a; only_element vs

unfoldable pub choose_some : ValueData → EvalResult
choose_some a = do vs ← enumerate a; first_or qnt505 vs

-- Every list of the frontier, with every element behind it.
unfoldable pub extend_all : List (List ValueData) → List ValueData → List (List ValueData)
extend_all [] es = []
extend_all (l ∷ ls) es = map (λ e. l ++ e ∷ []) es ++ extend_all ls es

-- The loop of `allListsUpTo`, `n` rounds of it.
unfoldable pub grow_lists :
    ℕ → List ValueData → List (List ValueData) → List (List ValueData) → List (List ValueData)
grow_lists zero es lists frontier = lists
grow_lists (suc n) es lists frontier =
    let next_frontier = extend_all frontier es in
    grow_lists n es (lists ++ next_frontier) next_frontier

-- The length is cut to 32 bits.
unfoldable pub all_lists_up_to : ValueData → ValueData → EvalResult
unfolding max_enum
all_lists_up_to a n = do
  elems ← enumerate a
  bound ← as_int n
  let max_len = pos_part bound % 4294967296
  let lists = grow_lists max_len elems ([] ∷ []) ([] ∷ [])
  elim (checked_pow (length elems) max_len) [
    | err e ↦ err unsupported
    | ok count ↦
        if leb count max_enum then new_set (map list_of_normalized lists) else err unsupported
  ]
