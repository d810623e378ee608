-- ===== src/Eval/Tests.antt =====
-- The builtins of inquint/src/eval/builtins_eager.rs at concrete inputs.
use inquint.Prelude.{ℕ, ◌≡◌, refl, List, [], ◌∷◌}
use inquint.Prelude.{pos, ok, err}
use inquint.Errors.{qnt503, qnt601}
use inquint.Value.{ValueData, of_list}
use inquint.Value.Compare.Instance.{value_ordered}
use inquint.Value.Member.{contains}
use inquint.Value.Pick.{enumerate}
use inquint.Eval.Arith.Division.{idiv-imod}
use inquint.Prelude.{◌<◌, ◌+ℤ◌, ◌*ℤ◌, negsuc}
use inquint.Eval.Arith.{magnitude, idiv, imod}
use inquint.Eval.SetOps.{exclude, intersect}
use inquint.Eval.Arith.{checked, checked_rem}
use inquint.Eval.SetOps.{filter_by}
use inquint.Value.Construct.{as_int}
use inquint.Value.Pick.{enumerate_by}
use inquint.Eval.Arith.{checked_div, div_ℤ, rem_ℤ}

abbrev int : ℕ → ValueData
int n = ValueData.int (pos n)

abbrev one_three : List ValueData
one_three = int 1 ∷ int 3 ∷ []

abbrev two_three : List ValueData
two_three = int 2 ∷ int 3 ∷ []

abbrev set_a : ValueData
set_a = ValueData.set (of_list one_three)

abbrev set_b : ValueData
set_b = ValueData.interval (pos 2) (pos 3)

abbrev set_c : ValueData
set_c = ValueData.set (of_list two_three)

exclude_run : exclude set_a set_b ≡ ok (ValueData.set (of_list (int 1 ∷ [])))
unfolding exclude enumerate enumerate_by filter_by contains
exclude_run = refl

intersect_run : intersect set_a set_b ≡ ok (ValueData.set (of_list (int 3 ∷ [])))
unfolding intersect enumerate enumerate_by filter_by contains
intersect_run = refl

-- Division by zero has its own error, and the remainder by zero is reported as an overflow.
idiv_by_zero : idiv (int 1) (int 0) ≡ err qnt503
unfolding idiv as_int
idiv_by_zero = refl

imod_by_zero : imod (int 1) (int 0) ≡ err qnt601
unfolding imod as_int checked checked_rem
imod_by_zero = refl

-- -7 = -3 * 2 - 1
idiv_negative : idiv (ValueData.int (negsuc 6)) (int 2) ≡ ok (ValueData.int (negsuc 2))
unfolding idiv as_int checked checked_div div_ℤ
idiv_negative = refl

imod_negative : imod (ValueData.int (negsuc 6)) (int 2) ≡ ok (ValueData.int (negsuc 0))
unfolding imod as_int checked checked_rem div_ℤ rem_ℤ
imod_negative = refl

idiv-imod_example :
    (((negsuc 2 *ℤ pos 2) +ℤ negsuc 0) ≡ negsuc 6) × (magnitude (negsuc 0) < magnitude (pos 2))
idiv-imod_example = idiv-imod (negsuc 6) (pos 2) (negsuc 2) (negsuc 0) idiv_negative imod_negative
