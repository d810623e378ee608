-- ===== src/Temporal/Witness.antt =====
-- `bfs_path` of inquint/src/temporal/witness.rs: a path through the product.
pub mod Parents
pub mod Distinct
pub mod Path
pub mod Answer
mod Tests
use inquint.Prelude.{
  ℕ, zero, suc, Bool, true, false, not, ◌&&◌, Option, none, some, List, [], ◌∷◌, ◌++◌, length,
  get_or, ◌==◌, if◌then◌else◌,
}

-- `FxHashSet::contains`
unfoldable pub is_in : List ℕ → ℕ → Bool
is_in [] x = false
is_in (y ∷ ys) x = if y == x then true else is_in ys x

-- The variables of `bfs_path`; the map `parent` as its entries, the newest first.
pub record PathSearch : Type 0 where
  pub parent : List (ℕ × ℕ)
  pub seen : List ℕ
  pub queue : List ℕ

-- A path that is returned, or the variables.
pub data Progress : Type 0 where
  found : List ℕ → Progress
  going : PathSearch → Progress

-- `parent.get(x)`
unfoldable pub parent_of : List (ℕ × ℕ) → ℕ → Option ℕ
parent_of [] x = none
parent_of (wv ∷ ps) x = if wv.0 == x then some wv.1 else parent_of ps x

-- The closure `build`, with the path from `x` on; at most one step for each entry.
unfoldable pub path_to : ℕ → List (ℕ × ℕ) → ℕ → List ℕ → List ℕ
path_to zero ps x acc = x ∷ acc
path_to (suc fuel) ps x acc = elim (parent_of ps x) [
  | none ↦ x ∷ acc
  | some v ↦ path_to fuel ps v (x ∷ acc)
]

module _ (adj : List (List (ℕ × ℕ))) (allowed goal : ℕ → Bool) where
  -- The loop over the starts.
  unfoldable pub push_starts : List ℕ → PathSearch → Progress
  push_starts [] st = going st
  push_starts (s ∷ ss) st =
      if allowed s && not (is_in st.seen s)
      then if goal s
        then found (s ∷ [])
        else push_starts ss (record st { seen = s ∷ st.seen; queue = st.queue ++ s ∷ [] })
      else push_starts ss st

  -- The loop over the edges of the node `v`.
  unfoldable pub push_edges_of : ℕ → List (ℕ × ℕ) → PathSearch → Progress
  push_edges_of v [] st = going st
  push_edges_of v ((w, e) ∷ es) st =
      let ps = (w, v) ∷ st.parent in
      let st' : PathSearch = record {
        parent = ps;
        seen = w ∷ st.seen;
        queue = st.queue ++ w ∷ [];
      } in
      if allowed w && not (is_in st.seen w)
      then if goal w then found (path_to (length ps) ps w []) else push_edges_of v es st'
      else push_edges_of v es st

  -- One node that leaves the queue is one unit of fuel; without fuel the model gives no answer.
  unfoldable pub search : ℕ → PathSearch → Option (Option (List ℕ))
  search zero st = elim st.queue [ [] ↦ some none | ◌∷◌ v rest ↦ none ]
  search (suc fuel) st = elim st.queue [
    | [] ↦ some none
    | ◌∷◌ v rest ↦ elim (push_edges_of v (get_or adj v []) (record st { queue = rest })) [
      | found path ↦ some (some path)
      | going st' ↦ search fuel st'
    ]
  ]

  -- A node enters the queue once.
  unfoldable pub bfs_path : List ℕ → Option (Option (List ℕ))
  bfs_path starts = elim (push_starts starts (record { parent = []; seen = []; queue = [] })) [
    | found path ↦ some (some path)
    | going st ↦ search (length adj) st
  ]
