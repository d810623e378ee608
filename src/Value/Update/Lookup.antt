-- ===== src/Value/Update/Lookup.antt =====
-- The entries of a map after an update of inquint/src/value.rs.
use inquint.Prelude.{
  ℕ, zero, suc, ◌≡◌, refl, ap, ◌∙◌, inl, inr, Option, none, some, Bool-cases, [], ◌∷◌, get_elem?,
  set, if◌then◌else◌, arith,
}
use inquint.Value.{ValueData, of_pairs}
use inquint.Value.Build.{scan, insert_at}
use inquint.Value.Compare.{same_value}
use inquint.Value.Compare.Instance.{value_ordered}
use inquint.Value.Compare.Laws.{same_value_iff}
use inquint.Value.Construct.{value_at}
use inquint.Value.Search.{Pairs}
use inquint.Value.Update.{replace_entry}

-- The first value at a key.
abbrev pub lookup : Pairs → ValueData → Option ValueData
lookup [] k = none
lookup ((a, v) ∷ es) k = if same_value a k then some v else lookup es k

-- The lookup where `key` has got the value `val`.
abbrev pub updated : Pairs → ValueData → ValueData → ValueData → Option ValueData
updated es key val k = if same_value key k then some val else lookup es k

pub value_at-scan : (es : Pairs) (k : ValueData) → value_at es (scan es k) ≡ lookup es k
unfolding scan value_at
value_at-scan [] k = refl
value_at-scan ((a, v) ∷ es) k = ground (arith, value_at-scan es k)

set-lookup :
    (es : Pairs) (key val k : ValueData) (i : ℕ) (e : ValueData × ValueData)
    → scan es key ≡ some i
    → get_elem? es i ≡ some e
    → lookup (set es i (e.0, val)) k ≡ updated es key val k
unfolding scan
set-lookup [] key val k i e h g = ground arith
set-lookup ((a, v) ∷ es) key val k zero e h g =
    ground (arith, same_value_iff a key, same_value_iff a k, same_value_iff key k)
set-lookup ((a, v) ∷ es) key val k (suc i) e h g = ground (
  arith,
  set-lookup es key val k i e,
  same_value_iff a key,
  same_value_iff a k,
  same_value_iff key k,
)

pub insert_at-lookup :
    (es : Pairs) (key val k : ValueData) (n : ℕ)
    → scan es key ≡ none
    → lookup (insert_at n (key, val) es) k ≡ updated es key val k
unfolding scan
insert_at-lookup es key val k zero h = refl
insert_at-lookup [] key val k (suc n) h = refl
insert_at-lookup ((a, v) ∷ es) key val k (suc n) h = ground (
  arith,
  insert_at-lookup es key val k n,
  same_value_iff a key,
  same_value_iff a k,
  same_value_iff key k,
)

-- An update to the value that the key has already.
same-lookup :
    (es : Pairs) (key val k : ValueData) (i : ℕ) (e : ValueData × ValueData)
    → scan es key ≡ some i
    → get_elem? es i ≡ some e
    → e.1 ≡ val
    → lookup es k ≡ updated es key val k
unfolding scan
same-lookup [] key val k i e h g w = ground arith
same-lookup ((a, v) ∷ es) key val k zero e h g w =
    let values : (a, v) ≡ e = ground arith in
    let value : v ≡ val = ap (λ p. p.1) values ∙ w in
    ground (arith, same_value_iff a key, same_value_iff a k, same_value_iff key k)
same-lookup ((a, v) ∷ es) key val k (suc i) e h g w = ground (
  arith,
  same-lookup es key val k i e,
  same_value_iff a key,
  same_value_iff a k,
  same_value_iff key k,
)

find_position :
    (es : Pairs) (key : ValueData) (i : ℕ)
    → scan es key ≡ some i
    → (e : ValueData × ValueData) × (get_elem? es i ≡ some e)
unfolding scan
find_position [] key i h = absurd (ground arith)
find_position ((a, v) ∷ es) key zero h = ((a, v), refl)
find_position ((a, v) ∷ es) key (suc i) h = find_position es key i (ground arith)

-- A map whose entries are those of `es` but for the update.
abbrev pub IsUpdated : Pairs → ValueData → ValueData → ValueData → ValueData → Type 0
IsUpdated es key val k m =
    (fs : Pairs) × ((m ≡ ValueData.map (of_pairs fs)) × (lookup fs k ≡ updated es key val k))

pub replace_entry-IsUpdated :
    (es : Pairs) (key val k : ValueData) (i : ℕ)
    → scan es key ≡ some i
    → IsUpdated es key val k (replace_entry es i val)
unfolding replace_entry
replace_entry-IsUpdated es key val k i h =
    let (e, g) = find_position es key i h in
    elim (Bool-cases (same_value e.1 val)) [
      | inl s ↦ (
        es,
        (
          rw (replace_entry, g, s) refl,
          same-lookup es key val k i e h g ((same_value_iff e.1 val).0 s),
        ),
      )
      | inr s ↦
          (set es i (e.0, val), (rw (replace_entry, g, s) refl, set-lookup es key val k i e h g))
    ]
