-- ===== src/Temporal/Buchi/Ascending.antt =====
-- The sets of ids of inquint/src/temporal/buchi.rs as ascending lists, and how many there are.
use inquint.Prelude.{
  ℕ, zero, suc, ◌+◌, ◌*◌, ◌^◌, ◌<◌, ◌≤◌, ◌≡◌, refl, sym, ap, ◌∙◌, subst, inl, inr, List, [], ◌∷◌,
  ◌++◌, ◌∈◌, mem_append_left, mem_append_right, map, length, length-append, ◌⊎◌, ◌≢◌, arith,
}
use inquint.Order.Sort.{set_insert}
use inquint.Order.Instances.{nat_ordered}
use inquint.Temporal.Buchi.{Ids}

-- The ids are ascending and at least `lo` and less than `hi`.
abbrev pub Ascending : ℕ → ℕ → Ids → Type 0
Ascending lo hi [] = Unit {0}
Ascending lo hi (x ∷ xs) = (lo ≤ x) × ((x < hi) × Ascending (suc x) hi xs)

pub Ascending-weaken :
    (lo lo' hi : ℕ) (xs : Ids) → lo' ≤ lo → Ascending lo hi xs → Ascending lo' hi xs
Ascending-weaken lo lo' hi [] h a = tt
Ascending-weaken lo lo' hi (x ∷ xs) h (l, a) = (omega arith, a)

pub Ascending-mem : (lo hi x : ℕ) (xs : Ids) → Ascending lo hi xs → x ∈ xs → (lo ≤ x) × (x < hi)
Ascending-mem lo hi x [] a m = absurd m
Ascending-mem lo hi x (y ∷ xs) (l, (h, a)) (inl e) = (omega (arith, e), omega (arith, e))
Ascending-mem lo hi x (y ∷ xs) (l, (h, a)) (inr m) =
    let (l', h') = Ascending-mem (suc y) hi x xs a m in (omega arith, h')

pub Ascending-length : (lo hi : ℕ) (xs : Ids) → lo ≤ hi → Ascending lo hi xs → lo + length xs ≤ hi
Ascending-length lo hi [] h a = omega arith
Ascending-length lo hi (x ∷ xs) h (l, (lt, a)) =
    let k = Ascending-length (suc x) hi xs (omega arith) a in omega arith

pub Ascending-set_insert :
    (lo hi j : ℕ) (xs : Ids)
    → lo ≤ j
    → j < hi
    → Ascending lo hi xs
    → Ascending lo hi (set_insert j xs)
unfolding set_insert
Ascending-set_insert lo hi j [] l h a = (l, (h, tt))
Ascending-set_insert lo hi j (x ∷ xs) l h (l', (h', a)) =
    ground (arith, λ (k : suc x ≤ j). Ascending-set_insert (suc x) hi j xs k h a)

pub length-set_insert : (j : ℕ) (xs : Ids) → ¬ (j ∈ xs) → length (set_insert j xs) ≡ suc (length xs)
unfolding set_insert
length-set_insert j [] n = refl
length-set_insert j (x ∷ xs) n = ground (arith, length-set_insert j xs (λ m. n (inr m)))

-- All ascending lists from `lo`, of `n` ids at most.
lists : ℕ → ℕ → List Ids
lists lo zero = [] ∷ []
lists lo (suc n) = map (λ xs. lo ∷ xs) (lists (suc lo) n) ++ lists (suc lo) n

length-map_ids : {A B : Type 0} (f : A → B) (xs : List A) → length (map f xs) ≡ length xs
length-map_ids f [] = refl
length-map_ids f (x ∷ xs) = ap suc (length-map_ids f xs)

mem-map_ids : {A B : Type 0} (f : A → B) (a : A) (xs : List A) → a ∈ xs → f a ∈ map f xs
mem-map_ids f a [] m = absurd m
mem-map_ids f a (x ∷ xs) (inl e) = inl (ap f e)
mem-map_ids f a (x ∷ xs) (inr m) = inr (mem-map_ids f a xs m)

length-lists : (lo n : ℕ) → length (lists lo n) ≡ 2 ^ n
unfolding lists
length-lists lo zero = refl
length-lists lo (suc n) = omega (
  arith,
  length-append (map (λ xs. ◌∷◌ lo xs) (lists (suc lo) n)) (lists (suc lo) n),
  length-map_ids (λ xs. ◌∷◌ lo xs) (lists (suc lo) n),
  length-lists (suc lo) n,
)

nat_eq : (x y : ℕ) → (x ≡ y) ⊎ (x ≢ y)
nat_eq zero zero = inl refl
nat_eq zero (suc y) = inr (λ e. omega (arith, e))
nat_eq (suc x) zero = inr (λ e. omega (arith, e))
nat_eq (suc x) (suc y) = elim (nat_eq x y) [
  | inl e ↦ inl (ap suc e)
  | inr n ↦ inr (λ e. n (omega (arith, e)))
]

at_sum :
    (lo n : ℕ) (xs : Ids) → Ascending (suc lo) (lo + suc n) xs → Ascending (suc lo) (suc lo + n) xs
at_sum lo n xs a = subst (λ h. Ascending (suc lo) h xs) (sum lo n) a
  where
    sum : (lo n : ℕ) → lo + suc n ≡ suc lo + n
    sum lo n = omega arith

from_zero : (n : ℕ) (xs : Ids) → Ascending 0 n xs → Ascending 0 (0 + n) xs
from_zero n xs a = subst (λ h. Ascending 0 h xs) (sum n) a
  where
    sum : (n : ℕ) → n ≡ 0 + n
    sum n = omega arith

mem-lists : (lo n : ℕ) (xs : Ids) → Ascending lo (lo + n) xs → xs ∈ lists lo n
unfolding lists
mem-lists lo zero [] a = inl refl
mem-lists lo zero (x ∷ xs) (l, (h, a)) = absurd (omega arith)
mem-lists lo (suc n) [] a =
    mem_append_right [] (map (λ xs. lo ∷ xs) (lists (suc lo) n)) (lists (suc lo) n)
      (mem-lists (suc lo) n [] tt)
mem-lists lo (suc n) (x ∷ xs) (l, (h, a)) = elim (nat_eq x lo) [
  | inl e ↦
      subst (λ y. (y ∷ xs) ∈ lists lo (suc n)) (sym e)
        (mem_append_left (lo ∷ xs) (map (λ xs. lo ∷ xs) (lists (suc lo) n)) (lists (suc lo) n) (
          mem-map_ids (λ xs. lo ∷ xs) xs (lists (suc lo) n)
            (mem-lists (suc lo) n xs
              (at_sum lo n xs (subst (λ y. Ascending (suc y) (lo + suc n) xs) e a)))))
  | inr ne ↦
      mem_append_right (x ∷ xs) (map (λ xs. lo ∷ xs) (lists (suc lo) n)) (lists (suc lo) n)
        (mem-lists (suc lo) n (x ∷ xs) (at_sum lo n (x ∷ xs) (omega arith, (h, a))))
]

pairs : List Ids → List Ids → List (Ids × Ids)
pairs [] ys = []
pairs (x ∷ xs) ys = map (λ y. (x, y)) ys ++ pairs xs ys

length-pairs : (xs ys : List Ids) → length (pairs xs ys) ≡ length xs * length ys
unfolding pairs
length-pairs [] ys = grind arith
length-pairs (x ∷ xs) ys = grind (
  arith,
  length-append (map (λ y. (x, y)) ys) (pairs xs ys),
  length-map_ids {B = Ids × Ids} (λ y. (x, y)) ys,
  length-pairs xs ys,
)

mem-pairs : (a b : Ids) (xs ys : List Ids) → a ∈ xs → b ∈ ys → (a, b) ∈ pairs xs ys
unfolding pairs
mem-pairs a b [] ys m n = absurd m
mem-pairs a b (x ∷ xs) ys (inl e) n =
    subst (λ z. (z, b) ∈ pairs (x ∷ xs) ys) (sym e)
      (mem_append_left (x, b) (map (λ y. (x, y)) ys) (pairs xs ys)
        (mem-map_ids (λ y. (x, y)) b ys n))
mem-pairs a b (x ∷ xs) ys (inr m) n =
    mem_append_right (a, b) (map (λ y. (x, y)) ys) (pairs xs ys) (mem-pairs a b xs ys m n)

-- Two sets each of ids less than `n`.
pub two_sets : ℕ → List (Ids × Ids)
two_sets n = pairs (lists 0 n) (lists 0 n)

pub length-two_sets : (n : ℕ) → length (two_sets n) ≡ 2 ^ n * 2 ^ n
unfolding two_sets
length-two_sets n = length-pairs (lists 0 n) (lists 0 n) ∙ ap (λ k. k * k) (length-lists 0 n)

pub mem-two_sets : (n : ℕ) (a b : Ids) → Ascending 0 n a → Ascending 0 n b → (a, b) ∈ two_sets n
unfolding two_sets
mem-two_sets n a b x y =
    mem-pairs a b (lists 0 n) (lists 0 n) (mem-lists 0 n a (from_zero n a x))
      (mem-lists 0 n b (from_zero n b y))
