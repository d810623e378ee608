-- ===== src/State/Table.antt =====
-- The hash table of the `hashbrown` crate, which inquint/src/state.rs builds its seen-sets on.
use inquint.Prelude.{ℕ, ◌≡◌, Bool, true, false, Option, none, some, List, [], ◌∷◌, ◌∈◌}

-- `find` and `insert_unique` of `HashTable<u32>` and `HashTable<u64>`. What a table holds is a
-- list of entries, each with the hash that it was inserted under.

pub record HashTable : Type 1 where
  pub Table : Type 0
  pub empty : Table
  pub find : Table → ℕ → (ℕ → Bool) → Option ℕ
  pub insert_unique : Table → ℕ → ℕ → Table
  pub entries : Table → List (ℕ × ℕ)
  pub entries-empty : entries empty ≡ []
  pub entries-insert : (t : Table) (h v : ℕ) → entries (insert_unique t h v) ≡ (h, v) ∷ entries t
  pub find_some :
      (t : Table) (h : ℕ) (eq : ℕ → Bool) (v : ℕ)
      → find t h eq ≡ some v
      → ((h, v) ∈ entries t) × (eq v ≡ true)
  pub find_none :
      (t : Table) (h : ℕ) (eq : ℕ → Bool) (v : ℕ)
      → find t h eq ≡ none
      → ((h, v) ∈ entries t)
      → eq v ≡ false
