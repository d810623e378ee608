-- ===== src/Order/Canonical.antt =====
-- Sorting without repetition gives a normal form: it depends on the members alone.
use inquint.Prelude.{◌≡◌, refl, sym, subst, ◌↔◌, inl, inr, List, [], ◌∷◌, ◌∈◌, true, ◌∙◌, arith}
use inquint.Order.Sort.{Ordered, sort, dedup, dedup_after}
use inquint.Order.SortLaws.{
  Distinct, Below, IsAscending, Below-mem, sort-IsAscending, mem-sort, mem-dedup,
  dedup-sort-Distinct,
}

module _ {A : Type 0} ⦃o : Ordered A⦄ where
  Below-dedup_after : (c a : A) (xs : List A) → Below c xs → Below c (dedup_after a xs)
  unfolding dedup_after
  Below-dedup_after c a [] h = tt
  Below-dedup_after c a (x ∷ xs) h = ground (arith, Below-dedup_after c x xs)

  dedup_after-IsAscending : (a : A) (xs : List A) → IsAscending xs → IsAscending (dedup_after a xs)
  unfolding dedup_after
  dedup_after-IsAscending a [] h = tt
  dedup_after-IsAscending a (x ∷ xs) h =
      ground (arith, dedup_after-IsAscending x xs, Below-dedup_after x x xs)

  dedup-IsAscending : (xs : List A) → IsAscending xs → IsAscending (dedup xs)
  unfolding dedup
  dedup-IsAscending [] h = tt
  dedup-IsAscending (x ∷ xs) h = (Below-dedup_after x x xs h.0, dedup_after-IsAscending x xs h.1)

  -- The members without repetition, in ascending order.
  abbrev pub IsCanonical : List A → Type 0
  IsCanonical xs = IsAscending xs × Distinct xs

  pub dedup-sort-IsCanonical : (xs : List A) → IsCanonical (dedup (sort xs))
  dedup-sort-IsCanonical xs =
      (dedup-IsAscending (sort xs) (sort-IsAscending xs), dedup-sort-Distinct xs)

  heads_eq : (x y : A) (xs ys : List A) → Below x xs → Below y ys → x ∈ y ∷ ys → y ∈ x ∷ xs → x ≡ y
  heads_eq x y xs ys h k (inl e) n = e
  heads_eq x y xs ys h k (inr m) (inl e) = sym e
  heads_eq x y xs ys h k (inr m) (inr n) =
      o.le_antisymm x y (Below-mem x y xs h n) (Below-mem y x ys k m)

  tail_mem : (x y b : A) (xs ys : List A) → x ≡ y → ¬ (x ∈ xs) → b ∈ xs → b ∈ y ∷ ys → b ∈ ys
  tail_mem x y b xs ys e d m (inl f) = absurd (d (subst (λ c. c ∈ xs) (f ∙ sym e) m))
  tail_mem x y b xs ys e d m (inr n) = n

  pub IsCanonical-unique :
      (xs ys : List A) → IsCanonical xs → IsCanonical ys → ((b : A) → (b ∈ xs) ↔ (b ∈ ys)) → xs ≡ ys
  IsCanonical-unique [] [] h k m = refl
  IsCanonical-unique [] (y ∷ ys) h k m = absurd ((m y).1 (inl refl))
  IsCanonical-unique (x ∷ xs) [] h k m = absurd ((m x).0 (inl refl))
  IsCanonical-unique (x ∷ xs) (y ∷ ys) h k m =
      let e = heads_eq x y xs ys h.0.0 k.0.0 ((m x).0 (inl refl)) ((m y).1 (inl refl)) in
      let rest =
        IsCanonical-unique xs ys (h.0.1, h.1.1) (k.0.1, k.1.1)
          (λ b. (
            λ n. tail_mem x y b xs ys e h.1.0 n ((m b).0 (inr n)),
            λ n. tail_mem y x b ys xs (sym e) k.1.0 n ((m b).1 (inr n)),
          )) in
      rw (e, rest) refl

  pub mem-dedup-sort : (b : A) (xs : List A) → (b ∈ dedup (sort xs)) ↔ (b ∈ xs)
  mem-dedup-sort b xs = ground (arith, mem-dedup b (sort xs), mem-sort b xs)

  pub dedup-sort-cong :
      (xs ys : List A) → ((b : A) → (b ∈ xs) ↔ (b ∈ ys)) → dedup (sort xs) ≡ dedup (sort ys)
  dedup-sort-cong xs ys h =
      IsCanonical-unique (dedup (sort xs)) (dedup (sort ys)) (dedup-sort-IsCanonical xs)
        (dedup-sort-IsCanonical ys)
        (λ b. ground (arith, mem-dedup-sort b xs, mem-dedup-sort b ys, h b))

  -- Strictly before.
  abbrev pub Lt : A → A → Type 0
  Lt a b = (o.le a b ≡ true) × ¬ (a ≡ b)

  pub Lt-trans : (a b c : A) → Lt a b → Lt b c → Lt a c
  Lt-trans a b c h k = (
    o.le_trans a b c h.0 k.0,
    λ e. h.1 (o.le_antisymm a b h.0 (subst (λ x. o.le b x ≡ true) (sym e) k.0)),
  )

  Below-intro : (a : A) (xs : List A) → ((b : A) → b ∈ xs → Lt a b) → Below a xs
  Below-intro a [] h = tt
  Below-intro a (x ∷ xs) h = ((h x (inl refl)).0, Below-intro a xs (λ b m. h b (inr m)))

  pub IsCanonical-cons :
      (a : A) (xs : List A) → ((b : A) → b ∈ xs → Lt a b) → IsCanonical xs → IsCanonical (a ∷ xs)
  IsCanonical-cons a xs h c = ((Below-intro a xs h, c.0), ((λ m. (h a m).1 refl), c.1))

  pub IsCanonical-head : (a b : A) (xs : List A) → IsCanonical (a ∷ xs) → b ∈ xs → Lt a b
  IsCanonical-head a b xs c m =
      (Below-mem a b xs c.0.0 m, λ e. c.1.0 (subst (λ x. x ∈ xs) (sym e) m))

  pub IsCanonical-tail : (a : A) (xs : List A) → IsCanonical (a ∷ xs) → IsCanonical xs
  IsCanonical-tail a xs c = (c.0.1, c.1.1)
