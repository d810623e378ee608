-- ===== src/Order/SortLaws.antt =====
-- Sorting keeps the members, and after `dedup` no member stands twice.
use inquint.Prelude.{◌≡◌, subst, ◌↔◌, ◌⊎◌, inl, inr, true, List, [], ◌∷◌}
use inquint.Prelude.{Bool-cases, ◌∈◌, arith}
use inquint.Order.Sort.{Ordered, same, insert_sorted, sort, dedup_after, dedup}

module _ {A : Type 0} where
  abbrev pub Distinct : List A → Type 0
  Distinct [] = Unit {0}
  Distinct (x ∷ xs) = ¬ (x ∈ xs) × Distinct xs

module _ {A : Type 0} ⦃o : Ordered A⦄ where
  pub same→≡ : (a b : A) → same a b ≡ true → a ≡ b
  same→≡ a b h = o.le_antisymm a b (ground arith) (ground arith)

  pub ≡→same : (a b : A) → a ≡ b → same a b ≡ true
  ≡→same a b e = rw (e, o.le_refl b)

  -- A lower bound of the members.
  abbrev pub Below : A → List A → Type 0
  Below a [] = Unit {0}
  Below a (x ∷ xs) = (o.le a x ≡ true) × Below a xs

  abbrev pub IsAscending : List A → Type 0
  IsAscending [] = Unit {0}
  IsAscending (x ∷ xs) = Below x xs × IsAscending xs

  pub Below-mem : (a b : A) (xs : List A) → Below a xs → b ∈ xs → o.le a b ≡ true
  Below-mem a b [] h m = absurd m
  Below-mem a b (x ∷ xs) h (inl e) = rw e h.0
  Below-mem a b (x ∷ xs) h (inr m) = Below-mem a b xs h.1 m

  pub Below-trans : (a b : A) (xs : List A) → o.le a b ≡ true → Below b xs → Below a xs
  Below-trans a b [] h k = tt
  Below-trans a b (x ∷ xs) h k = (o.le_trans a b x h k.0, Below-trans a b xs h k.1)

  mem-insert_sorted : (b a : A) (xs : List A) → (b ∈ insert_sorted a xs) ↔ ((b ≡ a) ⊎ (b ∈ xs))
  unfolding insert_sorted
  mem-insert_sorted b a [] = (λ m. m, λ m. m)
  mem-insert_sorted b a (x ∷ xs) = ground (arith, mem-insert_sorted b a xs)

  pub mem-sort : (b : A) (xs : List A) → (b ∈ sort xs) ↔ (b ∈ xs)
  unfolding sort
  mem-sort b [] = (λ m. m, λ m. m)
  mem-sort b (x ∷ xs) = ground (arith, mem-insert_sorted b x (sort xs), mem-sort b xs)

  Below-insert_sorted :
      (c a : A) (xs : List A) → o.le c a ≡ true → Below c xs → Below c (insert_sorted a xs)
  unfolding insert_sorted
  Below-insert_sorted c a [] h k = (h, tt)
  Below-insert_sorted c a (x ∷ xs) h k = ground (arith, Below-insert_sorted c a xs)

  insert_sorted-IsAscending :
      (a : A) (xs : List A) → IsAscending xs → IsAscending (insert_sorted a xs)
  unfolding insert_sorted
  insert_sorted-IsAscending a [] h = (tt, tt)
  insert_sorted-IsAscending a (x ∷ xs) h = ground (
    arith,
    o.le_total a x,
    Below-trans a x xs,
    Below-insert_sorted x a xs,
    insert_sorted-IsAscending a xs,
  )

  pub sort-IsAscending : (xs : List A) → IsAscending (sort xs)
  unfolding sort
  sort-IsAscending [] = tt
  sort-IsAscending (x ∷ xs) = insert_sorted-IsAscending x (sort xs) (sort-IsAscending xs)

  mem-dedup_after :
      (b a : A) (xs : List A) → ((b ≡ a) ⊎ (b ∈ dedup_after a xs)) ↔ ((b ≡ a) ⊎ (b ∈ xs))
  unfolding dedup_after
  mem-dedup_after b a [] = (λ m. m, λ m. m)
  mem-dedup_after b a (x ∷ xs) = ground (arith, same→≡ a x, mem-dedup_after b x xs)

  pub mem-dedup : (b : A) (xs : List A) → (b ∈ dedup xs) ↔ (b ∈ xs)
  unfolding dedup
  mem-dedup b [] = (λ m. m, λ m. m)
  mem-dedup b (x ∷ xs) = mem-dedup_after b x xs

  -- In an ascending list what is left behind `a` lies strictly above it.
  dedup_after_fresh : (a : A) (xs : List A) → Below a xs → IsAscending xs → ¬ (a ∈ dedup_after a xs)
  unfolding dedup_after
  dedup_after_fresh a [] h k m = m
  dedup_after_fresh a (x ∷ xs) h k m = elim (Bool-cases (same a x)) [
    | inl e ↦
        let again = same→≡ a x e in
        dedup_after_fresh x xs k.0 k.1 (subst (λ c. c ∈ dedup_after x xs) again (rw e at m))
    | inr e ↦ ground (arith, ≡→same a x, mem-dedup_after a x xs, Below-mem x a xs k.0)
  ]

  dedup_after-Distinct :
      (a : A) (xs : List A) → Below a xs → IsAscending xs → Distinct (dedup_after a xs)
  unfolding dedup_after
  dedup_after-Distinct a [] h k = tt
  dedup_after-Distinct a (x ∷ xs) h k =
      ground (arith, dedup_after-Distinct x xs k.0 k.1, dedup_after_fresh x xs k.0 k.1)

  pub dedup-sort-Distinct : (xs : List A) → Distinct (dedup (sort xs))
  unfolding dedup
  dedup-sort-Distinct xs = go (sort xs) (sort-IsAscending xs)
    where
      go : (ys : List A) → IsAscending ys → Distinct (dedup ys)
      go [] h = tt
      go (y ∷ ys) h = (dedup_after_fresh y ys h.0 h.1, dedup_after-Distinct y ys h.0 h.1)
