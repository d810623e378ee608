-- ===== src/State/Seen.antt =====
-- `SeenSet` and `FpSet` of inquint/src/state.rs, over the tables of `hashbrown`.
pub mod Laws
pub mod Fingerprints
use inquint.Prelude.{ℕ, ◌+◌, ◌≡◌, Bool, true, false, Option, none, some, List, [], ◌∷◌, ◌==◌}
use inquint.Prelude.{◌&&◌, if◌then◌else◌}
use inquint.State.Arena.{State, StateArena, get, push}
use inquint.State.Table.{HashTable}

-- `==` of two states, a comparison of their ids in order.
abbrev pub state_eq : State → State → Bool
state_eq [] [] = true
state_eq (a ∷ s) (b ∷ t) = a == b && state_eq s t
state_eq s t = false

module _ (H : HashTable) (hash_state : State → ℕ) where
  open H use {Table, find, insert_unique}

  -- The table and the arena afterwards, the id, and whether it is fresh.
  unfoldable pub insert_or_get :
      Table → StateArena → State → Option ℕ → ℕ → (Table × StateArena) × (ℕ × Bool)
  insert_or_get t a s p d =
      let hash = hash_state s in
      elim (find t hash (λ id. state_eq (get a id) s)) [
        | some id ↦ ((t, a), (id, false))
        | none ↦ let (a', id) = push a s p d in ((insert_unique t hash id, a'), (id, true))
      ]

module _ (H : HashTable) where
  open H use {Table, find, insert_unique}

  abbrev pub found : Option ℕ → Bool
  found none = false
  found (some v) = true

  -- A fingerprint is its own hash.
  unfoldable pub fp_contains : Table → ℕ → Bool
  fp_contains t fp = found (find t fp (λ e. e == fp))

  -- The table afterwards, and whether the fingerprint is fresh.
  unfoldable pub fp_insert : Table → ℕ → Table × Bool
  fp_insert t fp =
      if found (find t fp (λ e. e == fp)) then (t, false) else (insert_unique t fp fp, true)
