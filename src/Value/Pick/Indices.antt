-- ===== src/Value/Pick/Indices.antt =====
-- The loop of `enumerate` of inquint/src/value.rs counts through all index vectors.
use native.Mathlib.Nat.{
  mod-add-mod, mod-lt, mod-eq_of_lt, mod_self, mul-add-div, div-add-mod, div-eq_of_lt, div_self,
  lt_of_mul-lt-mul_left, eq_of_mul-eq-mul_left, mul-add, mul-one, add-zero, mul-mod_right, zero-mod,
  zero-div,
}
use inquint.Prelude.{
  ℕ, zero, suc, ◌+◌, ◌*◌, ◌/◌, ◌%◌, ◌<◌, ◌≡◌, refl, sym, ap, subst, ◌∙◌, ◌⊎◌, inl, inr, none, some,
  List, [], ◌∷◌, ◌++◌, length, append_assoc, arith,
}
use inquint.Prelude.{ok}
use inquint.Value.{ValueData}
use inquint.Value.Pick.{Picked, next_indices, zeros, settled, pick_loop}
use inquint.Value.Sets.Product.{product}

-- The index vector number `k`, whose first digit is the lowest.
abbrev pub digits : List ℕ → ℕ → List ℕ
digits [] k = []
digits (b ∷ bs) k = k % b ∷ digits bs (k / b)

-- The lowest digit goes up, or it starts again and the rest goes up.
abbrev Step : ℕ → ℕ → Type 0
Step b k =
    ((k % b + 1 < b) × (((k + 1) % b ≡ k % b + 1) × ((k + 1) / b ≡ k / b)))
    ⊎ ((k % b + 1 ≡ b)
        × (((k + 1) % b ≡ 0) × (((k + 1) / b ≡ k / b + 1) × (k + 1 ≡ b * (k / b + 1)))))

step : (b k : ℕ) → 0 < b → Step b k
step b k p =
    let bound = mod-lt k p in
    let up : (k + 1) % b ≡ (k % b + 1) % b = sym (mod-add-mod k b 1) in
    let whole = div-add-mod k b in
    let sum : k + 1 ≡ b * (k / b) + (k % b + 1) = omega arith in
    let quotient : (k + 1) / b ≡ k / b + (k % b + 1) / b =
      ap (λ n. n / b) sum ∙ mul-add-div p (k / b) (k % b + 1) in
    let next : b * (k / b + 1) ≡ b * (k / b) + b =
      mul-add b (k / b) 1 ∙ ap (λ n. b * (k / b) + n) (mul-one b) in
    let cases : (k % b + 1 < b) ⊎ (k % b + 1 ≡ b) = ground arith in
    elim cases [
      | inl l ↦ inl (
        l,
        (up ∙ mod-eq_of_lt l, quotient ∙ (ap (λ n. k / b + n) (div-eq_of_lt l) ∙ add-zero (k / b))),
      )
      | inr e ↦ inr (
        e,
        (
          up ∙ (ap (λ n. n % b) e ∙ mod_self b),
          (quotient ∙ ap (λ n. k / b + n) (ap (λ n. n / b) e ∙ div_self p), (omega arith)),
        ),
      )
    ]

-- A product that is not zero has no factor zero.
factor_pos : (b m n : ℕ) → n < b * m → 0 < b
factor_pos zero m n h = absurd (omega arith)
factor_pos (suc b) m n h = omega arith

pub next_indices-digits :
    (bs : List ℕ) (k : ℕ)
    → k + 1 < product bs
    → next_indices bs (digits bs k) ≡ some (digits bs (k + 1))
unfolding next_indices
next_indices-digits [] k h = absurd (omega arith)
next_indices-digits (b ∷ bs) k h = elim (step b k (factor_pos b (product bs) (k + 1) h)) [
  | inl (l, (r, q)) ↦ rw (r, q) (ground arith)
  | inr (e, (r, (q, w))) ↦
      let below : k / b + 1 < product bs =
        lt_of_mul-lt-mul_left b (subst (λ n. n < b * product bs) w h) in
      let rest = next_indices-digits bs (k / b) below in rw (r, q) (ground arith)
]

next_indices-last :
    (bs : List ℕ) (k : ℕ) → k + 1 ≡ product bs → next_indices bs (digits bs k) ≡ none
unfolding next_indices
next_indices-last [] k h = refl
next_indices-last (b ∷ bs) k h =
    let p = factor_pos b (product bs) k (omega arith) in
    elim (step b k p) [
      | inl (l, (r, q)) ↦
          let none_left : (k + 1) % b ≡ 0 = ap (λ n. n % b) h ∙ mul-mod_right b (product bs) in
          absurd (omega arith)
      | inr (e, (r, (q, w))) ↦
          let same : k / b + 1 ≡ product bs =
            eq_of_mul-eq-mul_left b p (k / b + 1) (product bs) (sym w ∙ h) in
          let rest = next_indices-last bs (k / b) same in ground arith
    ]

digits-zeros : (bs : List ℕ) (k : ℕ) → k ≡ 0 → digits bs k ≡ zeros (length bs)
digits-zeros [] k h = refl
digits-zeros (b ∷ bs) k h =
    let low : k % b ≡ 0 = ap (λ n. n % b) h ∙ zero-mod b in
    let rest = digits-zeros bs (k / b) (ap (λ n. n / b) h ∙ zero-div b) in rw (low, rest) refl

-- The values with the numbers from `k` on, `n` of them.
abbrev pub values_from : (ℕ → ValueData) → ℕ → ℕ → List ValueData
values_from f k zero = []
values_from f k (suc n) = f k ∷ values_from f (k + 1) n

module _ (from : List ℕ → Picked) (bs : List ℕ) (f : ℕ → ValueData) (left : ℕ → List ℕ) where
  -- Every index vector picks a value, which is settled.
  abbrev pub Picks : Type 0
  Picks =
      (k : ℕ)
      → k < product bs
      → (from (digits bs k) ≡ ok (f k, left k)) × (settled (f k) ≡ ok (f k))

  pick_loop-from :
      Picks
      → (n k : ℕ) (out : List ValueData) → k + suc n ≡ product bs
      → pick_loop from bs (suc n) (digits bs k) out ≡ ok (out ++ values_from f k (suc n))
  unfolding pick_loop
  pick_loop-from p zero k out h =
      let (e, s) = p k (omega arith) in rw (pick_loop, e, s, next_indices-last bs k h) refl
  pick_loop-from p (suc n) k out h =
      let (e, s) = p k (omega arith) in
      rw (pick_loop, e, s, next_indices-digits bs k (omega arith))
        (pick_loop-from p n (k + 1) (out ++ f k ∷ []) (omega arith)
          ∙ ap ok (append_assoc out (f k ∷ []) (values_from f (k + 1) (suc n))))

  -- With as many rounds as the product of the bounds the loop ends, and has picked the value of
  -- every index vector, in the order of the numbers that the vectors stand for.
  pub pick_loop-counts :
      (n : ℕ)
      → Picks
      → product bs ≡ suc n
      → pick_loop from bs (product bs) (zeros (length bs)) [] ≡ ok (values_from f 0 (product bs))
  pick_loop-counts n p h =
      rw (h, sym (digits-zeros bs 0 refl)) (pick_loop-from p n 0 [] (omega arith))
