-- ===== src/Eval/Opcode.antt =====
-- The opcodes that `eager_op` of inquint/src/eval/builtins_eager.rs looks up.
-- The opcodes; `inside` is "in", `update` is "set" and `unknown` any other string.
pub data Opcode : Type 0 where
  set rec tup list map variant not iff eq neq iadd isub imul idiv imod ipow iuminus ilt : Opcode
  ilte igt igte item tuples range nth replace_at head tail slice length append concat : Opcode
  indices field field_names with powerset contains inside subseteq exclude union intersect : Opcode
  size is_finite to flatten get update put keys set_to_map set_of_maps fail assert : Opcode
  get_only_element debug all_lists_up_to choose_some all_lists always eventually enabled : Opcode
  or_keep must_change weak_fair strong_fair leads_to unknown : Opcode
