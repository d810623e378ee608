-- ===== src/Order/Sort.antt =====
-- The interface of an ordered type, and the standard library's operations over it.
use inquint.Prelude.{◌≡◌, ◌⊎◌, Bool, true, ◌&&◌, List, [], ◌∷◌, if◌then◌else◌}

pub record Ordered (A : Type 0) : Type 0 where
  pub le : A → A → Bool
  pub le_refl : (a : A) → le a a ≡ true
  pub le_total : (a b : A) → (le a b ≡ true) ⊎ (le b a ≡ true)
  pub le_antisymm : (a b : A) → le a b ≡ true → le b a ≡ true → a ≡ b
  pub le_trans : (a b c : A) → le a b ≡ true → le b c ≡ true → le a c ≡ true

module _ {A : Type 0} ⦃o : Ordered A⦄ where
  -- `Ord` and `Eq` of one type agree.
  abbrev pub same : A → A → Bool
  same a b = o.le a b && o.le b a

  unfoldable pub insert_sorted : A → List A → List A
  insert_sorted a [] = a ∷ []
  insert_sorted a (x ∷ xs) = if o.le a x then a ∷ x ∷ xs else x ∷ insert_sorted a xs

  unfoldable pub sort : List A → List A
  unfolding insert_sorted
  sort [] = []
  sort (x ∷ xs) = insert_sorted x (sort xs)

  -- `Vec::dedup`: of a run of equal elements the first stays.
  unfoldable pub dedup_after : A → List A → List A
  dedup_after a [] = []
  dedup_after a (x ∷ xs) = let rest = dedup_after x xs in if same a x then rest else x ∷ rest

  unfoldable pub dedup : List A → List A
  unfolding dedup_after
  dedup [] = []
  dedup (x ∷ xs) = x ∷ dedup_after x xs

  -- `BTreeSet::insert`; a set is its ascending list.
  unfoldable pub set_insert : A → List A → List A
  set_insert a [] = a ∷ []
  set_insert a (x ∷ xs) =
      if same a x then x ∷ xs else if o.le a x then a ∷ x ∷ xs else x ∷ set_insert a xs
