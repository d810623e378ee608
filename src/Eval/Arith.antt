-- ===== src/Eval/Arith.antt =====
-- Booleans and integers of inquint/src/eval/builtins_eager.rs.
pub mod Division
use inquint.Prelude.{
  ℕ, zero, suc, ◌+◌, ◌*◌, ◌/◌, ◌%◌, Bool, true, false, not, ◌&&◌, ◌||◌, Option, none, some, ltb,
  ◌==◌, if◌then◌else◌,
}
use inquint.Prelude.{
  ℤ, pos, negsuc, pos_part, neg_part, sub_ℕ, ◌+ℤ◌, ◌-ℤ◌, ◌*ℤ◌, leb_ℤ, ltb_ℤ, Result, ok, err, ◌>>=◌,
}
use inquint.Errors.{QuintError, qnt503, qnt508, qnt601}
use inquint.Value.{ValueData}
use inquint.Value.Construct.{EvalResult, as_int, as_bool, as_str}
use inquint.Value.Member.{value_eq}
use inquint.Value.Sets.{fits_i64, i64_min}

unfoldable pub not_op : ValueData → EvalResult
not_op a = do x ← as_bool a; ok (ValueData.bool (not x))

abbrev pub same_bool : Bool → Bool → Bool
same_bool true b = b
same_bool false b = not b

unfoldable pub iff : ValueData → ValueData → EvalResult
iff a b = do x ← as_bool a; y ← as_bool b; ok (ValueData.bool (same_bool x y))

unfoldable pub eq_op : ValueData → ValueData → EvalResult
eq_op a b = do r ← value_eq a b; ok (ValueData.bool r)

unfoldable pub neq : ValueData → ValueData → EvalResult
neq a b = do r ← value_eq a b; ok (ValueData.bool (not r))

-- What the `checked_` operations on `i64` return for the exact result.
abbrev pub narrow : ℤ → Option ℤ
narrow r = if fits_i64 r then some r else none

-- The result of a checked operation.
unfoldable pub checked : Option ℤ → EvalResult
checked none = err qnt601
checked (some r) = ok (ValueData.int r)

-- The absolute value.
abbrev pub magnitude : ℤ → ℕ
magnitude n = pos_part n + neg_part n

abbrev pub is_neg : ℤ → Bool
is_neg n = ltb_ℤ n (pos 0)

abbrev pub is_zero : ℤ → Bool
is_zero n = magnitude n == 0

-- Division of `i64` is towards zero.
unfoldable pub div_ℤ : ℤ → ℤ → ℤ
div_ℤ a b =
    let q = magnitude a / magnitude b in
    if same_bool (is_neg a) (is_neg b) then pos q else sub_ℕ 0 q

-- The remainder has the sign of the dividend.
unfoldable pub rem_ℤ : ℤ → ℤ → ℤ
rem_ℤ a b = let r = magnitude a % magnitude b in if is_neg a then sub_ℕ 0 r else pos r

unfoldable pub checked_div : ℤ → ℤ → Option ℤ
checked_div a b = if is_zero b then none else narrow (div_ℤ a b)

-- `checked_rem`, which is `None` for the least integer and -1 too, where the quotient overflows.
unfoldable pub checked_rem : ℤ → ℤ → Option ℤ
checked_rem a b =
    if is_zero b then none else (if fits_i64 (div_ℤ a b) then narrow (rem_ℤ a b) else none)

unfoldable pub pow_ℤ : ℤ → ℕ → ℤ
pow_ℤ b zero = pos 1
pow_ℤ b (suc n) = b *ℤ pow_ℤ b n

unfoldable pub checked_pow_i64 : ℤ → ℕ → Option ℤ
checked_pow_i64 b e = if ltb e 4294967296 then narrow (pow_ℤ b e) else none

unfoldable pub iadd : ValueData → ValueData → EvalResult
iadd x y = do a ← as_int x; b ← as_int y; checked (narrow (a +ℤ b))

unfoldable pub isub : ValueData → ValueData → EvalResult
isub x y = do a ← as_int x; b ← as_int y; checked (narrow (a -ℤ b))

unfoldable pub imul : ValueData → ValueData → EvalResult
imul x y = do a ← as_int x; b ← as_int y; checked (narrow (a *ℤ b))

unfoldable pub idiv : ValueData → ValueData → EvalResult
idiv x y = do
  a ← as_int x
  b ← as_int y
  if is_zero b then err qnt503 else checked (checked_div a b)

unfoldable pub imod : ValueData → ValueData → EvalResult
imod x y = do a ← as_int x; b ← as_int y; checked (checked_rem a b)

unfoldable pub ipow : ValueData → ValueData → EvalResult
ipow x y = do
  base ← as_int x
  exp ← as_int y
  if is_zero base && is_zero exp
      then err qnt503
      else (if is_neg exp then err qnt503 else checked (checked_pow_i64 base (pos_part exp)))

unfoldable pub iuminus : ValueData → EvalResult
iuminus x = do a ← as_int x; checked (narrow (pos 0 -ℤ a))

unfoldable pub ilt : ValueData → ValueData → EvalResult
ilt x y = do a ← as_int x; b ← as_int y; ok (ValueData.bool (ltb_ℤ a b))

unfoldable pub ilte : ValueData → ValueData → EvalResult
ilte x y = do a ← as_int x; b ← as_int y; ok (ValueData.bool (leb_ℤ a b))

unfoldable pub igt : ValueData → ValueData → EvalResult
igt x y = do a ← as_int x; b ← as_int y; ok (ValueData.bool (ltb_ℤ b a))

unfoldable pub igte : ValueData → ValueData → EvalResult
igte x y = do a ← as_int x; b ← as_int y; ok (ValueData.bool (leb_ℤ b a))

unfoldable pub assert_op : ValueData → EvalResult
assert_op a = do b ← as_bool a; if b then ok (ValueData.bool true) else err qnt508

-- `q::debug`, less the line that it prints.
unfoldable pub debug : ValueData → ValueData → EvalResult
debug label v = do text ← as_str label; ok v
