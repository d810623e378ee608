-- ===== src/Eval/SetOps/Filter.antt =====
-- `exclude`, `intersect` and `union` of inquint/src/eval/builtins_eager.rs as operations on sets.
use inquint.Prelude.{
  ◌≡◌, sym, subst, ◌∙◌, ◌↔◌, Bool, true, false, not, List, [], ◌∷◌, ◌∈◌, if◌then◌else◌, arith,
}
use inquint.Prelude.{ok, bind-ok, ok_injective}
use inquint.Order.Canonical.{IsCanonical, IsCanonical-cons, IsCanonical-head, IsCanonical-tail}
use inquint.Value.{ValueData, to_list, of_list, to_list-of_list}
use inquint.Value.Canonical.{Answer, contains-set, elements}
use inquint.Value.Compare.Instance.{value_ordered}
use inquint.Value.Member.{contains}
use inquint.Value.Pick.{enumerate}
use inquint.Value.Pick.Canonical.{enumerate-IsCanonical}
use inquint.Eval.SetOps.{filter_by, exclude, intersect, set_sorted}

-- The members of `vs` that the test answers with `keep`.
abbrev Selects : (ValueData → Answer) → Bool → List ValueData → List ValueData → Type 0
Selects test keep vs out = (v : ValueData) → (v ∈ out) ↔ ((v ∈ vs) × (test v ≡ ok keep))

-- One round.
abbrev step : Bool → Bool → ValueData → List ValueData → List ValueData
step keep b x rest = if (if keep then b else not b) then x ∷ rest else rest

answers_differ : (a b : Answer) → a ≡ ok true → a ≡ ok false → ⊥
answers_differ a b h k = ground arith

step-Selects :
    (test : ValueData → Answer) (keep b : Bool) (x : ValueData) (vs rest : List ValueData)
    → test x ≡ ok b
    → Selects test keep vs rest
    → Selects test keep (x ∷ vs) (step keep b x rest)
step-Selects test true true x vs rest t h v =
    let same : v ≡ x → test v ≡ ok true = λ e. subst (λ z. test z ≡ ok true) (sym e) t in
    ground (arith, h v, same)
step-Selects test true false x vs rest t h v =
    let same : v ≡ x → test v ≡ ok false = λ e. subst (λ z. test z ≡ ok false) (sym e) t in
    ground (arith, h v, same)
step-Selects test false true x vs rest t h v =
    let same : v ≡ x → test v ≡ ok true = λ e. subst (λ z. test z ≡ ok true) (sym e) t in
    ground (arith, h v, same)
step-Selects test false false x vs rest t h v =
    let same : v ≡ x → test v ≡ ok false = λ e. subst (λ z. test z ≡ ok false) (sym e) t in
    ground (arith, h v, same)

step-IsCanonical :
    (test : ValueData → Answer) (keep b : Bool) (x : ValueData) (vs rest : List ValueData)
    → IsCanonical (x ∷ vs)
    → Selects test keep vs rest
    → IsCanonical rest
    → IsCanonical (step keep b x rest)
step-IsCanonical test keep b x vs rest c h d =
    let with_head = IsCanonical-cons x rest (λ v m. IsCanonical-head x v vs c ((h v).0 m).0) d in
    go keep b with_head
  where
    go : (keep b : Bool) → IsCanonical (x ∷ rest) → IsCanonical (step keep b x rest)
    go true true e = e
    go true false e = d
    go false true e = d
    go false false e = e

filter_by-Selects :
    (test : ValueData → Answer) (keep : Bool) (vs out : List ValueData)
    → filter_by test keep vs ≡ ok out
    → Selects test keep vs out
unfolding filter_by
filter_by-Selects test keep [] out h =
    subst (λ l. Selects test keep [] l) (ok_injective h) (λ v. ground arith)
filter_by-Selects test keep (x ∷ vs) out h =
    let (b, (t, more)) = bind-ok (test x) _ out h in
    let (rest, (r, last)) = bind-ok (filter_by test keep vs) _ out more in
    subst (λ l. Selects test keep (x ∷ vs) l) (ok_injective last)
      (step-Selects test keep b x vs rest t (filter_by-Selects test keep vs rest r))

filter_by-IsCanonical :
    (test : ValueData → Answer) (keep : Bool) (vs out : List ValueData)
    → filter_by test keep vs ≡ ok out
    → IsCanonical vs
    → IsCanonical out
unfolding filter_by
filter_by-IsCanonical test keep [] out h c = subst (λ l. IsCanonical l) (ok_injective h) c
filter_by-IsCanonical test keep (x ∷ vs) out h c =
    let (b, (t, more)) = bind-ok (test x) _ out h in
    let (rest, (r, last)) = bind-ok (filter_by test keep vs) _ out more in
    subst (λ l. IsCanonical l) (ok_injective last)
      (step-IsCanonical test keep b x vs rest c (filter_by-Selects test keep vs rest r)
        (filter_by-IsCanonical test keep vs rest r (IsCanonical-tail x vs c)))

-- What a set operator gives back: a canonical set, with the members that `P` describes.
abbrev pub IsSetOf : ValueData → (ValueData → Type 0) → Type 0
IsSetOf s P = IsCanonical (elements s) × ((v : ValueData) → (contains s v ≡ ok true) ↔ P v)

set_sorted-IsSetOf :
    (out : List ValueData) (P : ValueData → Type 0)
    → IsCanonical out
    → ((v : ValueData) → (v ∈ out) ↔ P v)
    → IsSetOf (set_sorted out) P
set_sorted-IsSetOf out P c h =
    let listed : to_list (of_list out) ≡ out = to_list-of_list out in
    (
      subst (λ l. IsCanonical l) (sym listed) c,
      λ v.
          let found =
            subst (λ l. (contains (set_sorted out) v ≡ ok true) ↔ (v ∈ l)) listed
              (contains-set v (of_list out) (subst (λ l. IsCanonical l) (sym listed) c)) in
          ((λ m. (h v).0 (found.0 m)), (λ p. found.1 ((h v).1 p))),
    )

module _ (a b s : ValueData) (vs : List ValueData) (c : IsCanonical (elements a)) where
  -- `exclude` gives the canonical set of the elements of the first set that the second does not
  -- contain.
  pub exclude-IsSetOf :
      enumerate a ≡ ok vs
      → exclude a b ≡ ok s
      → IsSetOf s (λ v. (v ∈ vs) × (contains b v ≡ ok false))
  unfolding exclude
  exclude-IsSetOf e h =
      let (ws, (f, more)) = bind-ok (enumerate a) _ s h in
      let same : ws ≡ vs = ok_injective (sym f ∙ e) in
      let (out, (g, last)) = bind-ok (filter_by (contains b) false ws) _ s more in
      let g' = subst (λ l. filter_by (contains b) false l ≡ ok out) same g in
      subst (λ t. IsSetOf t (λ v. (v ∈ vs) × (contains b v ≡ ok false))) (ok_injective last)
        (set_sorted-IsSetOf out _
          (filter_by-IsCanonical (contains b) false vs out g' (enumerate-IsCanonical a vs c e))
          (filter_by-Selects (contains b) false vs out g'))

  -- `intersect` gives the canonical set of the elements of the first set that the second contains.
  intersect-IsSetOf :
      enumerate a ≡ ok vs
      → intersect a b ≡ ok s
      → IsSetOf s (λ v. (v ∈ vs) × (contains b v ≡ ok true))
  unfolding intersect
  intersect-IsSetOf e h =
      let (ws, (f, more)) = bind-ok (enumerate a) _ s h in
      let same : ws ≡ vs = ok_injective (sym f ∙ e) in
      let (out, (g, last)) = bind-ok (filter_by (contains b) true ws) _ s more in
      let g' = subst (λ l. filter_by (contains b) true l ≡ ok out) same g in
      subst (λ t. IsSetOf t (λ v. (v ∈ vs) × (contains b v ≡ ok true))) (ok_injective last)
        (set_sorted-IsSetOf out _
          (filter_by-IsCanonical (contains b) true vs out g' (enumerate-IsCanonical a vs c e))
          (filter_by-Selects (contains b) true vs out g'))
