-- ===== src/Eval/SetOps/Merge.antt =====
-- `merge_sorted` of inquint/src/eval/builtins_eager.rs is the union of sorted slices.
use inquint.Prelude.{◌↔◌, ◌⊎◌, List, ◌∈◌}
use inquint.Value.{ValueData}
use inquint.Value.Compare.Instance.{value_ordered}

-- What a merge of `xs` and `ys` is to be.
abbrev Merges : List ValueData → List ValueData → List ValueData → Type 0
Merges xs ys out = (v : ValueData) → (v ∈ out) ↔ ((v ∈ xs) ⊎ (v ∈ ys))
