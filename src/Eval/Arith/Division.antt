-- ===== src/Eval/Arith/Division.antt =====
-- `idiv` and `imod` of inquint/src/eval/builtins_eager.rs belong together.
use native.Mathlib.Nat.{div-add-mod', mod-lt}
use inquint.Prelude.{ℕ, suc, ◌+◌, ◌*◌, ◌/◌, ◌%◌, ◌<◌, ◌≡◌, sym, false, arith}
use inquint.Prelude.{ℤ, pos, negsuc, pos_part, neg_part, sub_ℕ, ◌+ℤ◌, ◌*ℤ◌, compare_ℤ-eq, ok}
use inquint.Value.{ValueData}
use inquint.Value.Construct.{as_int}
use inquint.Eval.Arith.{
  checked, checked_div, checked_rem, div_ℤ, rem_ℤ, idiv, imod, magnitude, is_zero,
}

sub_parts : (x y : ℕ) → pos_part (sub_ℕ x y) + y ≡ x + neg_part (sub_ℕ x y)
sub_parts x y = ground arith

sum_parts :
    (a b : ℤ)
    → pos_part (a +ℤ b) + (neg_part a + neg_part b) ≡ pos_part a + pos_part b + neg_part (a +ℤ b)
unfolding ◌+ℤ◌
sum_parts a b = sub_parts (pos_part a + pos_part b) (neg_part a + neg_part b)

product_parts :
    (a b : ℤ)
    → pos_part (a *ℤ b) + (pos_part a * neg_part b + neg_part a * pos_part b)
      ≡ pos_part a * pos_part b + neg_part a * neg_part b + neg_part (a *ℤ b)
unfolding ◌*ℤ◌
product_parts a b = sub_parts _ _

parts-eq : (a b : ℤ) → pos_part a + neg_part b ≡ pos_part b + neg_part a → a ≡ b
parts-eq a b h = compare_ℤ-eq a b (ground arith)

-- The parts of an integer are `p` and `n`.
abbrev Parts : ℤ → ℕ → ℕ → Type 0
Parts z p n = (pos_part z ≡ p) × (neg_part z ≡ n)

module _ (x y : ℕ) where
  div_pos_pos : Parts (div_ℤ (pos x) (pos y)) (x / y) 0
  unfolding div_ℤ
  div_pos_pos = ground arith

  div_pos_neg : Parts (div_ℤ (pos x) (negsuc y)) 0 (x / suc y)
  unfolding div_ℤ
  div_pos_neg = ground arith

  div_neg_pos : Parts (div_ℤ (negsuc x) (pos y)) 0 (suc x / y)
  unfolding div_ℤ
  div_neg_pos = ground arith

  div_neg_neg : Parts (div_ℤ (negsuc x) (negsuc y)) (suc x / suc y) 0
  unfolding div_ℤ
  div_neg_neg = ground arith

  rem_pos_pos : Parts (rem_ℤ (pos x) (pos y)) (x % y) 0
  unfolding rem_ℤ
  rem_pos_pos = ground arith

  rem_pos_neg : Parts (rem_ℤ (pos x) (negsuc y)) (x % suc y) 0
  unfolding rem_ℤ
  rem_pos_neg = ground arith

  rem_neg_pos : Parts (rem_ℤ (negsuc x) (pos y)) 0 (suc x % y)
  unfolding rem_ℤ
  rem_neg_pos = ground arith

  rem_neg_neg : Parts (rem_ℤ (negsuc x) (negsuc y)) 0 (suc x % suc y)
  unfolding rem_ℤ
  rem_neg_neg = ground arith

-- The identity of a division, on the parts of the quotient and the remainder.
identity :
    (a b q r : ℤ) (qp qn rp rn : ℕ)
    → Parts q qp qn
    → Parts r rp rn
    → qp * pos_part b + qn * neg_part b + rp + neg_part a
      ≡ pos_part a + (qp * neg_part b + qn * pos_part b) + rn
    → ((q *ℤ b) +ℤ r) ≡ a
identity a b q r qp qn rp rn d e h =
    let product = product_parts q b in
    let sum = sum_parts (q *ℤ b) r in
    let product' : pos_part (q *ℤ b) + (qp * neg_part b + qn * pos_part b)
        ≡ qp * pos_part b + qn * neg_part b + neg_part (q *ℤ b) =
      rw (sym d.0, sym d.1) product in
    parts-eq ((q *ℤ b) +ℤ r) a (omega arith)

-- Quotient times divisor plus remainder is the dividend.
div_ℤ-rem_ℤ : (a b : ℤ) → ((div_ℤ a b *ℤ b) +ℤ rem_ℤ a b) ≡ a
div_ℤ-rem_ℤ (pos x) (pos y) =
    let whole = div-add-mod' x y in
    identity (pos x) (pos y) _ _ _ _ _ _ (div_pos_pos x y) (rem_pos_pos x y) (omega arith)
div_ℤ-rem_ℤ (pos x) (negsuc y) =
    let whole = div-add-mod' x (suc y) in
    identity (pos x) (negsuc y) _ _ _ _ _ _ (div_pos_neg x y) (rem_pos_neg x y) (omega arith)
div_ℤ-rem_ℤ (negsuc x) (pos y) =
    let whole = div-add-mod' (suc x) y in
    identity (negsuc x) (pos y) _ _ _ _ _ _ (div_neg_pos x y) (rem_neg_pos x y) (omega arith)
div_ℤ-rem_ℤ (negsuc x) (negsuc y) =
    let whole = div-add-mod' (suc x) (suc y) in
    identity (negsuc x) (negsuc y) _ _ _ _ _ _ (div_neg_neg x y) (rem_neg_neg x y) (omega arith)

int_injective : (a b : ℤ) → ValueData.int a ≡ ValueData.int b → a ≡ b
int_injective a b h = ground arith

idiv-ok :
    (a b q : ℤ) → idiv (ValueData.int a) (ValueData.int b) ≡ ok (ValueData.int q) → div_ℤ a b ≡ q
unfolding idiv as_int checked checked_div
idiv-ok a b q h = ground arith

imod-ok :
    (a b r : ℤ)
    → imod (ValueData.int a) (ValueData.int b) ≡ ok (ValueData.int r)
    → (rem_ℤ a b ≡ r) × (is_zero b ≡ false)
unfolding imod as_int checked checked_rem
imod-ok a b r h = ground arith

magnitude-rem : (a b : ℤ) → is_zero b ≡ false → magnitude (rem_ℤ a b) < magnitude b
magnitude-rem (pos x) (pos y) h =
    let p = rem_pos_pos x y in let bound = mod-lt x {m = y} (ground arith) in omega arith
magnitude-rem (pos x) (negsuc y) h =
    let p = rem_pos_neg x y in let bound = mod-lt x {m = suc y} (ground arith) in omega arith
magnitude-rem (negsuc x) (pos y) h =
    let p = rem_neg_pos x y in let bound = mod-lt (suc x) {m = y} (ground arith) in omega arith
magnitude-rem (negsuc x) (negsuc y) h =
    let p = rem_neg_neg x y in let bound = mod-lt (suc x) {m = suc y} (ground arith) in omega arith

-- Where `idiv` and `imod` both give a result, quotient times divisor plus remainder is the
-- dividend, and the remainder is smaller than the divisor in absolute value.
pub idiv-imod :
    (a b q r : ℤ)
    → idiv (ValueData.int a) (ValueData.int b) ≡ ok (ValueData.int q)
    → imod (ValueData.int a) (ValueData.int b) ≡ ok (ValueData.int r)
    → (((q *ℤ b) +ℤ r) ≡ a) × (magnitude r < magnitude b)
idiv-imod a b q r h k =
    let (e, z) = imod-ok a b r k in
    rw (sym (idiv-ok a b q h), sym e) (div_ℤ-rem_ℤ a b, magnitude-rem a b z)
