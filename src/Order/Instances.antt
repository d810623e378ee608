-- ===== src/Order/Instances.antt =====
-- The derived orders of numbers, of options (`None` first) and of vectors (lexicographic).
use inquint.Prelude.{ℕ, ◌≡◌, refl, ap, ◌⊎◌, inl, inr, Bool, true, false, List, [], ◌∷◌}
use inquint.Prelude.{Option, none, some, leb, if◌then◌else◌, arith}
use inquint.Order.Sort.{Ordered}

pub leb_refl : (a : ℕ) → leb a a ≡ true
leb_refl a = ground arith

pub leb_total : (a b : ℕ) → (leb a b ≡ true) ⊎ (leb b a ≡ true)
leb_total a b = ground arith

pub leb_antisymm : (a b : ℕ) → leb a b ≡ true → leb b a ≡ true → a ≡ b
leb_antisymm a b h k = ground arith

pub leb_trans : (a b c : ℕ) → leb a b ≡ true → leb b c ≡ true → leb a c ≡ true
leb_trans a b c h k = ground arith

instance abbrev pub nat_ordered : Ordered ℕ
nat_ordered = record {
  le = leb;
  le_refl = leb_refl;
  le_total = leb_total;
  le_antisymm = leb_antisymm;
  le_trans = leb_trans;
}

module _ {A : Type 0} ⦃o : Ordered A⦄ where
  abbrev pub option_le : Option A → Option A → Bool
  option_le none b = true
  option_le (some a) none = false
  option_le (some a) (some b) = o.le a b

  -- The first difference decides, and a prefix comes first.
  abbrev pub list_le : List A → List A → Bool
  list_le [] t = true
  list_le (a ∷ s) [] = false
  list_le (a ∷ s) (b ∷ t) = if o.le a b then (if o.le b a then list_le s t else true) else false

  pub option_le_refl : (a : Option A) → option_le a a ≡ true
  option_le_refl none = refl
  option_le_refl (some a) = o.le_refl a

  pub option_le_total : (a b : Option A) → (option_le a b ≡ true) ⊎ (option_le b a ≡ true)
  option_le_total none b = inl refl
  option_le_total (some a) none = inr refl
  option_le_total (some a) (some b) = o.le_total a b

  pub option_le_antisymm : (a b : Option A) → option_le a b ≡ true → option_le b a ≡ true → a ≡ b
  option_le_antisymm none none h k = refl
  option_le_antisymm none (some b) h k = ground arith
  option_le_antisymm (some a) none h k = ground arith
  option_le_antisymm (some a) (some b) h k = ap some (o.le_antisymm a b h k)

  pub option_le_trans :
      (a b c : Option A) → option_le a b ≡ true → option_le b c ≡ true → option_le a c ≡ true
  option_le_trans none b c h k = refl
  option_le_trans (some a) none c h k = ground arith
  option_le_trans (some a) (some b) none h k = k
  option_le_trans (some a) (some b) (some c) h k = o.le_trans a b c h k

  pub list_le_refl : (s : List A) → list_le s s ≡ true
  list_le_refl [] = refl
  list_le_refl (a ∷ s) = ground (arith, o.le_refl a, list_le_refl s)

  pub list_le_total : (s t : List A) → (list_le s t ≡ true) ⊎ (list_le t s ≡ true)
  list_le_total [] t = inl refl
  list_le_total (a ∷ s) [] = inr refl
  list_le_total (a ∷ s) (b ∷ t) = ground (arith, o.le_total a b, list_le_total s t)

  pub list_le_antisymm : (s t : List A) → list_le s t ≡ true → list_le t s ≡ true → s ≡ t
  list_le_antisymm [] [] h k = refl
  list_le_antisymm [] (b ∷ t) h k = ground arith
  list_le_antisymm (a ∷ s) [] h k = ground arith
  list_le_antisymm (a ∷ s) (b ∷ t) h k = ground (arith, o.le_antisymm a b, list_le_antisymm s t)

  pub list_le_trans :
      (s t u : List A) → list_le s t ≡ true → list_le t u ≡ true → list_le s u ≡ true
  list_le_trans [] t u h k = refl
  list_le_trans (a ∷ s) [] u h k = ground arith
  list_le_trans (a ∷ s) (b ∷ t) [] h k = k
  list_le_trans (a ∷ s) (b ∷ t) (c ∷ u) h k =
      ground (arith, o.le_trans a b c, o.le_trans b c a, o.le_trans c a b, list_le_trans s t u)

  instance abbrev pub option_ordered : Ordered (Option A)
  option_ordered = record {
    le = option_le;
    le_refl = option_le_refl;
    le_total = option_le_total;
    le_antisymm = option_le_antisymm;
    le_trans = option_le_trans;
  }

  instance abbrev pub list_ordered : Ordered (List A)
  list_ordered = record {
    le = list_le;
    le_refl = list_le_refl;
    le_total = list_le_total;
    le_antisymm = list_le_antisymm;
    le_trans = list_le_trans;
  }
