-- ===== src/Eval/Dispatch.antt =====
-- `eager_op` of inquint/src/eval/builtins_eager.rs: the eager builtin of an opcode.
use inquint.Prelude.{ℕ, Bool, true, Option, none, some, List, [], ◌∷◌}
use inquint.Prelude.{Result, ok, err, ◌>>=◌}
use inquint.Errors.{QuintError, panic, unsupported}
use inquint.Value.{ValueData, of_list}
use inquint.Value.Construct.{EvalResult, as_str, new_set, new_tuple, new_list, new_variant}
use inquint.Value.Update.{UpdateCache}
use inquint.Eval.Opcode.{Opcode}
use inquint.Eval.Arith.{
  not_op, iff, eq_op, neq, iadd, isub, imul, idiv, imod, ipow, iuminus, ilt, ilte, igt, igte,
  assert_op, debug,
}
use inquint.Eval.Lists
use inquint.Eval.Lists.{
  item, range, nth, replace_at, slice, size, append, concat, indices, field_op, field_names,
  with_op, rec_op,
}
use inquint.Eval.SetOps.{
  contains_op, in_op, subseteq_op, exclude, union, intersect, to, flatten, get_only_element,
  choose_some, all_lists_up_to,
}
use inquint.Eval.Maps.{get, set_op, put, keys, set_to_map, map_op}

-- An operator that gets too few arguments panics, and does not look at more.
unfoldable pub unary : (ValueData → EvalResult) → List ValueData → EvalResult
unary f [] = err panic
unary f (a ∷ args) = f a

unfoldable pub binary :
    {R : Type 0}
    → (ValueData → ValueData → Result QuintError R)
    → List ValueData
    → Result QuintError R
binary f (a ∷ b ∷ args) = f a b
binary f args = err panic

unfoldable pub ternary :
    {R : Type 0}
    → (ValueData → ValueData → ValueData → Result QuintError R)
    → List ValueData
    → Result QuintError R
ternary f (a ∷ b ∷ v ∷ args) = f a b v
ternary f args = err panic

-- The environment of an operator is the memo of map updates.
abbrev pub EagerFn : Type 0
EagerFn = UpdateCache → List ValueData → Result QuintError (ValueData × UpdateCache)

-- An operator that leaves the memo alone.
unfoldable pub pure : (List ValueData → EvalResult) → EagerFn
pure f c args = do v ← f args; ok (v, c)

unfoldable pub eager_op : (ValueData → ValueData → ValueData → Bool → ℕ) → Opcode → Option EagerFn
eager_op slot Opcode.set = some (pure new_set)
eager_op slot Opcode.rec = some (pure rec_op)
eager_op slot Opcode.tup = some (pure new_tuple)
eager_op slot Opcode.list = some (pure new_list)
eager_op slot Opcode.map = some (pure map_op)
eager_op slot Opcode.variant =
    some (pure (binary (λ l v. as_str l >>= λ label. new_variant label v)))
eager_op slot Opcode.not = some (pure (unary not_op))
eager_op slot Opcode.iff = some (pure (binary iff))
eager_op slot Opcode.eq = some (pure (binary eq_op))
eager_op slot Opcode.neq = some (pure (binary neq))
eager_op slot Opcode.iadd = some (pure (binary iadd))
eager_op slot Opcode.isub = some (pure (binary isub))
eager_op slot Opcode.imul = some (pure (binary imul))
eager_op slot Opcode.idiv = some (pure (binary idiv))
eager_op slot Opcode.imod = some (pure (binary imod))
eager_op slot Opcode.ipow = some (pure (binary ipow))
eager_op slot Opcode.iuminus = some (pure (unary iuminus))
eager_op slot Opcode.ilt = some (pure (binary ilt))
eager_op slot Opcode.ilte = some (pure (binary ilte))
eager_op slot Opcode.igt = some (pure (binary igt))
eager_op slot Opcode.igte = some (pure (binary igte))
eager_op slot Opcode.item = some (pure (binary item))
eager_op slot Opcode.tuples = some (pure (λ args. ok (ValueData.cross_product (of_list args))))
eager_op slot Opcode.range = some (pure (binary range))
eager_op slot Opcode.nth = some (pure (binary nth))
eager_op slot Opcode.replace_at = some (pure (ternary replace_at))
eager_op slot Opcode.head = some (pure (unary Lists.head))
eager_op slot Opcode.tail = some (pure (unary Lists.tail))
eager_op slot Opcode.slice = some (pure (ternary slice))
eager_op slot Opcode.length = some (pure (unary size))
eager_op slot Opcode.append = some (pure (binary append))
eager_op slot Opcode.concat = some (pure (binary concat))
eager_op slot Opcode.indices = some (pure (unary indices))
eager_op slot Opcode.field = some (pure (binary field_op))
eager_op slot Opcode.field_names = some (pure (unary field_names))
eager_op slot Opcode.with = some (pure (ternary with_op))
eager_op slot Opcode.powerset = some (pure (unary (λ a. ok (ValueData.power_set a))))
eager_op slot Opcode.contains = some (pure (binary contains_op))
eager_op slot Opcode.inside = some (pure (binary in_op))
eager_op slot Opcode.subseteq = some (pure (binary subseteq_op))
eager_op slot Opcode.exclude = some (pure (binary exclude))
eager_op slot Opcode.union = some (pure (binary union))
eager_op slot Opcode.intersect = some (pure (binary intersect))
eager_op slot Opcode.size = some (pure (unary size))
eager_op slot Opcode.is_finite = some (pure (λ args. ok (ValueData.bool true)))
eager_op slot Opcode.to = some (pure (binary to))
eager_op slot Opcode.flatten = some (pure (unary flatten))
eager_op slot Opcode.get = some (pure (binary get))
eager_op slot Opcode.update = some (λ c args. ternary (set_op slot c) args)
eager_op slot Opcode.put = some (λ c args. ternary (put slot c) args)
eager_op slot Opcode.keys = some (pure (unary keys))
eager_op slot Opcode.set_to_map = some (pure (unary set_to_map))
eager_op slot Opcode.set_of_maps = some (pure (binary (λ a b. ok (ValueData.map_set a b))))
eager_op slot Opcode.fail = some (pure (unary not_op))
eager_op slot Opcode.assert = some (pure (unary assert_op))
eager_op slot Opcode.get_only_element = some (pure (unary get_only_element))
eager_op slot Opcode.debug = some (pure (binary debug))
eager_op slot Opcode.all_lists_up_to = some (pure (binary all_lists_up_to))
eager_op slot Opcode.choose_some = some (pure (unary choose_some))
eager_op slot Opcode.all_lists = some (pure (λ args. err unsupported))
eager_op slot Opcode.always = some (pure (λ args. err unsupported))
eager_op slot Opcode.eventually = some (pure (λ args. err unsupported))
eager_op slot Opcode.enabled = some (pure (λ args. err unsupported))
eager_op slot Opcode.or_keep = some (pure (λ args. err unsupported))
eager_op slot Opcode.must_change = some (pure (λ args. err unsupported))
eager_op slot Opcode.weak_fair = some (pure (λ args. err unsupported))
eager_op slot Opcode.strong_fair = some (pure (λ args. err unsupported))
eager_op slot Opcode.leads_to = some (pure (λ args. err unsupported))
eager_op slot Opcode.unknown = none
