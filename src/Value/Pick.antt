-- ===== src/Value/Pick.antt =====
-- `pick`, `enumerate` and `normalize` of inquint/src/value.rs: the elements of a set by index.
pub mod Canonical
pub mod Indices
pub mod Enumerate
use inquint.Prelude.{
  ℕ, zero, suc, ◌+◌, ◌/◌, ◌%◌, Bool, true, false, Option, none, some, List, [], ◌∷◌, ◌++◌, length,
  get_elem?, ltb, ◌==◌, if◌then◌else◌,
}
use inquint.Prelude.{ℤ, pos, ◌+ℤ◌, Result, ok, err, ◌>>=◌}
use inquint.Errors.{QuintError, unsupported, qnt501, panic}
use inquint.Value.{ValueData, Values, Entries, to_list, of_list, is_symbolic}
use inquint.Value.Build.{sort_values_structural, dedup_values, set_of_normalized, map_of_normalized}
use inquint.Value.Sets.{cardinality, bounds}

-- `MAX_ENUM`
unfoldable pub max_enum : ℕ
max_enum = 1048576

-- An index iterator is the list of the indices that are left; a pick returns it with the value.
abbrev pub Picked : Type 0
Picked = Result QuintError (ValueData × List ℕ)

unfoldable pub take_index : List ℕ → Result QuintError (ℕ × List ℕ)
take_index [] = err panic
take_index (i ∷ is) = ok (i, is)

unfoldable pub pick_concrete : List ValueData → List ℕ → Picked
unfolding take_index
pick_concrete vs is = do
  (i, rest) ← take_index is
  elim (get_elem? vs i) [ none ↦ err panic | some v ↦ ok (v, rest) ]

-- `i & (1 << j) != 0` for the position `j` of each element.
unfoldable pub masked : ℕ → List ValueData → List ValueData
masked i [] = []
masked i (e ∷ es) = let rest = masked (i / 2) es in if i % 2 == 1 then e ∷ rest else rest

-- The mixed-radix increment, from the first index on; `none` is the end of the loop.
unfoldable pub next_indices : List ℕ → List ℕ → Option (List ℕ)
next_indices (b ∷ bs) (i ∷ is) =
    let carry = next_indices bs is in
    if ltb (i + 1) b
    then some ((i + 1) ∷ is)
    else elim carry [ none ↦ none | some is' ↦ some (0 ∷ is') ]
next_indices bs is = none

abbrev pub zeros : ℕ → List ℕ
zeros zero = []
zeros (suc n) = 0 ∷ zeros n

-- `normalize` of a picked value. What `pick` builds is concrete, and containers hold no symbolic
-- form; that the code would enumerate one is left out.
unfoldable pub settled : ValueData → Result QuintError ValueData
settled v = if is_symbolic v then err panic else ok v

unfoldable pub settled_all : List ValueData → Result QuintError (List ValueData)
settled_all [] = ok []
settled_all (v ∷ vs) = do v' ← settled v; vs' ← settled_all vs; ok (v' ∷ vs')

unfoldable pub settled_entries :
    List (ValueData × ValueData) → Result QuintError (List (ValueData × ValueData))
settled_entries [] = ok []
settled_entries ((k, v) ∷ es) = do
  k' ← settled k
  v' ← settled v
  es' ← settled_entries es
  ok ((k', v') ∷ es')

-- The loop of `enumerate`, with fuel: one unit for each round. Without fuel it panics.
unfoldable pub pick_loop :
    (List ℕ → Picked) → List ℕ → ℕ → List ℕ → List ValueData → Result QuintError (List ValueData)
pick_loop from bs zero is out = err panic
pick_loop from bs (suc fuel) is out = do
  (v, rest) ← from is
  v' ← settled v
  let out' = out ++ v' ∷ []
  elim (next_indices bs is) [ none ↦ ok out' | some is' ↦ pick_loop from bs fuel is' out' ]

-- `enumerate` of a symbolic set, of which `from` is `pick`. There are as many rounds as elements.
unfoldable pub enumerate_symbolic :
    (List ℕ → Picked) → ValueData → Result QuintError (List ValueData)
unfolding max_enum
enumerate_symbolic from s = do
  n ← cardinality s
  let visit = do
    bs ← bounds s
    out ← pick_loop from bs n (zeros (length bs)) []
    ok (dedup_values (sort_values_structural out))
  if ltb max_enum n then err qnt501 else (if n == 0 then ok [] else visit)

unfoldable pub enumerate_by : (List ℕ → Picked) → ValueData → Result QuintError (List ValueData)
enumerate_by from (ValueData.set vs) = ok (to_list vs)
enumerate_by from ValueData.infinite_int = err unsupported
enumerate_by from ValueData.infinite_nat = err unsupported
enumerate_by from s = enumerate_symbolic from s

-- The values of a map, one for each key.
unfoldable pub pick_entries :
    (List ℕ → Picked)
    → List ValueData
    → List ℕ
    → Result QuintError (List (ValueData × ValueData) × List ℕ)
pick_entries from [] is = ok ([], is)
pick_entries from (k ∷ ks) is = do
  (v, rest) ← from is
  (es, rest') ← pick_entries from ks rest
  ok ((k, v) ∷ es, rest')

abbrev pub is_map_set : ValueData → Bool
is_map_set (ValueData.map_set d r) = true
is_map_set v = false

-- The range that a map's values are picked from: a set of maps is enumerated first.
unfoldable pub range_picker : (List ℕ → Picked) → ValueData → Result QuintError (List ℕ → Picked)
range_picker from r =
    if is_map_set r
    then (enumerate_by from r >>= λ es.
        ok (pick_concrete (dedup_values (sort_values_structural es))))
    else ok from

unfoldable pub pick_map :
    (List ℕ → Picked) → (List ℕ → Picked) → ValueData → ValueData → List ℕ → Picked
pick_map from_domain from_range domain range is = do
  n ← cardinality domain
  let choose = do
    from ← range_picker from_range range
    keys ← enumerate_by from_domain domain
    (es, rest) ← pick_entries from keys is
    es' ← settled_entries es
    ok (map_of_normalized es', rest)
  if n == 0 then ok (ValueData.map Entries.empty, is) else choose

unfoldable mutual
  pub pick : ValueData → List ℕ → Picked
  pick (ValueData.set vs) is = pick_concrete (to_list vs) is
  pick (ValueData.interval start end) is = do
    (i, rest) ← take_index is
    ok (ValueData.int (start +ℤ pos i), rest)
  pick (ValueData.cross_product sets) is = do
    (vs, rest) ← pick_all sets is
    vs' ← settled_all vs
    ok (ValueData.tuple (of_list vs'), rest)
  pick (ValueData.power_set base) is = do
    (i, rest) ← take_index is
    es ← enumerate_by (λ js. pick base js) base
    ok (ValueData.set (of_list (masked i es)), rest)
  pick (ValueData.map_set domain range) is =
      pick_map (λ js. pick domain js) (λ js. pick range js) domain range is
  pick ValueData.infinite_int is = err unsupported
  pick ValueData.infinite_nat is = err unsupported
  pick v is = err panic

  pub pick_all : Values → List ℕ → Result QuintError (List ValueData × List ℕ)
  pick_all Values.nil is = ok ([], is)
  pick_all (Values.cons s sets) is = do
    (v, rest) ← pick s is
    (vs, rest') ← pick_all sets rest
    ok (v ∷ vs, rest')

unfoldable pub enumerate : ValueData → Result QuintError (List ValueData)
enumerate s = enumerate_by (pick s) s

unfoldable pub normalize : ValueData → Result QuintError ValueData
normalize v =
    if is_symbolic v then enumerate v >>= (λ es. ok (ValueData.set (of_list es))) else ok v
