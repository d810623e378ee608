-- ===== src/Temporal/Witness/Distinct.antt =====
-- Lists without repetition, of nodes below a bound.
use inquint.Prelude.{
  ℕ, zero, suc, ◌<◌, ◌≤◌, ◌≡◌, ◌≢◌, refl, sym, ap, subst, inl, inr, Bool-cases, ◌==◌, ==_iff, List,
  [], ◌∷◌, ◌∈◌, length, get_or, pigeonhole, arith,
}

abbrev pub NoDup : List ℕ → Type 0
NoDup [] = Unit {0}
NoDup (x ∷ xs) = (¬ (x ∈ xs)) × NoDup xs

mem-get_or : (xs : List ℕ) (i : ℕ) → i < length xs → get_or xs i 0 ∈ xs
mem-get_or [] i h = absurd (omega arith)
mem-get_or (x ∷ xs) zero h = inl refl
mem-get_or (x ∷ xs) (suc i) h = inr (mem-get_or xs i (omega arith))

differ : (xs : List ℕ) (i j : ℕ) → NoDup xs → i < j → j < length xs → get_or xs i 0 ≢ get_or xs j 0
differ [] i j d lt h e = absurd (omega arith)
differ (x ∷ xs) i zero d lt h e = absurd (omega arith)
differ (x ∷ xs) zero (suc j) (n, d) lt h e =
    n (subst (λ z. z ∈ xs) (sym e) (mem-get_or xs j (omega arith)))
differ (x ∷ xs) (suc i) (suc j) (n, d) lt h e = differ xs i j d (omega arith) (omega arith) e

below : ℕ → List ℕ
below zero = []
below (suc n) = n ∷ below n

length-below : (n : ℕ) → length (below n) ≡ n
unfolding below
length-below zero = refl
length-below (suc n) = ap suc (length-below n)

mem-below : (n x : ℕ) → x < n → x ∈ below n
unfolding below
mem-below zero x h = absurd (omega arith)
mem-below (suc n) x h = elim (Bool-cases (x == n)) [
  | inl e ↦ inl ((==_iff x n).0 e)
  | inr e ↦ inr (mem-below n x (ground (arith, ==_iff x n)))
]

pub length-NoDup : (n : ℕ) (xs : List ℕ) → NoDup xs → ((x : ℕ) → x ∈ xs → x < n) → length xs ≤ n
length-NoDup n xs d h = omega (
  arith,
  length-below n,
  pigeonhole (length xs) (λ i. get_or xs i 0) (below n)
      (λ i lt. mem-below n (get_or xs i 0) (h (get_or xs i 0) (mem-get_or xs i lt)))
      (λ i j lt lt'. differ xs i j d lt lt'),
)
