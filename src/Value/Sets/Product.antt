-- ===== src/Value/Sets/Product.antt =====
-- The bounds of a set count its elements: their product is its cardinality.
use inquint.Prelude.{ℕ, zero, suc, ◌*◌, ◌^◌, ◌≡◌, sym, ap, ◌∙◌, List, [], ◌∷◌, ◌++◌, length, arith}
use native.Mathlib.Nat.{mul_assoc, pow-zero, pow-succ', mul-one, one-mul}
use inquint.Prelude.{ok, bind-ok, ok_injective}
use inquint.Value.{ValueData, Values, to_list}
use inquint.Value.Sets.{
  checked_u64, checked_pow, interval_cardinality, cardinality, product_cardinality, cardinalities,
  repeat, bounds,
}

abbrev pub product : List ℕ → ℕ
product [] = 1
product (b ∷ bs) = b * product bs

product-append : (xs ys : List ℕ) → product (xs ++ ys) ≡ product xs * product ys
product-append [] ys = omega arith
product-append (x ∷ xs) ys =
    ap (λ n. x * n) (product-append xs ys) ∙ sym (mul_assoc x (product xs) (product ys))

product-repeat : (d : ℕ) (bs : List ℕ) → product (repeat d bs) ≡ product bs ^ d
product-repeat zero bs = sym (pow-zero (product bs))
product-repeat (suc d) bs =
    product-append bs (repeat d bs)
    ∙ (ap (λ n. product bs * n) (product-repeat d bs) ∙ sym (pow-succ' (product bs) d))

checked_u64-ok : (n m : ℕ) → checked_u64 n ≡ ok m → n ≡ m
checked_u64-ok n m h = ground arith

checked_pow-ok : (b e m : ℕ) → checked_pow b e ≡ ok m → b ^ e ≡ m
unfolding checked_pow
checked_pow-ok b e m h = ground (arith, checked_u64-ok (b ^ e) m)

product_cardinality-product :
    (sets : Values) (acc n : ℕ) (ns : List ℕ)
    → product_cardinality sets acc ≡ ok n
    → cardinalities sets ≡ ok ns
    → acc * product ns ≡ n
unfolding product_cardinality cardinalities
product_cardinality-product Values.nil acc n ns h k =
    let empty = ok_injective k in let same = ok_injective h in rw (sym empty) (mul-one acc ∙ same)
product_cardinality-product (Values.cons s sets) acc n ns h k =
    let (c, (e, more)) = bind-ok (cardinality s) _ n h in
    let (acc', (f, rest)) = bind-ok (checked_u64 (acc * c)) _ n more in
    let (d, (e', more')) = bind-ok (cardinality s) _ ns k in
    let (ms, (g, last)) = bind-ok (cardinalities sets) _ ns more' in
    let same : c ≡ d = ok_injective (sym e ∙ e') in
    let step : acc * c ≡ acc' = checked_u64-ok (acc * c) acc' f in
    rw (sym (ok_injective last), sym same, sym (mul_assoc acc c (product ms)), step)
      (product_cardinality-product sets acc' n ms rest g)

-- The product of the bounds that the elements of a set are picked by is the set's cardinality, where
-- the code computes the two of them.
pub product-bounds :
    (s : ValueData) (bs : List ℕ) (n : ℕ) → bounds s ≡ ok bs → cardinality s ≡ ok n → product bs ≡ n
unfolding bounds cardinality
product-bounds (ValueData.set vs) bs n h k =
    rw (sym (ok_injective h)) (mul-one (length (to_list vs)) ∙ ok_injective k)
product-bounds (ValueData.interval a b) bs n h k =
    let (m, (e, last)) = bind-ok (interval_cardinality a b) _ bs h in
    rw (sym (ok_injective last)) (mul-one m ∙ ok_injective (sym e ∙ k))
product-bounds (ValueData.cross_product sets) bs n h k =
    sym (one-mul (product bs)) ∙ product_cardinality-product sets 1 n bs k h
product-bounds (ValueData.power_set base) bs n h k =
    let (m, (e, last)) = bind-ok (cardinality base) _ bs h in
    let (m', (e', pow)) = bind-ok (cardinality base) _ n k in
    let same : m ≡ m' = ok_injective (sym e ∙ e') in
    let single : 2 ^ m ∷ [] ≡ bs = ground arith in
    rw (sym single, same) (mul-one (2 ^ m') ∙ checked_pow-ok 2 m' n pow)
product-bounds (ValueData.map_set domain range) bs n h k =
    let (d, (e, more)) = bind-ok (cardinality domain) _ bs h in
    let (rs, (f, last)) = bind-ok (bounds range) _ bs more in
    let (d', (e', more')) = bind-ok (cardinality domain) _ n k in
    let (r, (g, pow)) = bind-ok (cardinality range) _ n more' in
    let same : d ≡ d' = ok_injective (sym e ∙ e') in
    rw (sym (ok_injective last), product-repeat d rs, product-bounds range rs r f g, same)
      (checked_pow-ok r d' n pow)
product-bounds s bs n h k = absurd (ground arith)
