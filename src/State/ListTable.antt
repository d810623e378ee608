-- ===== src/State/ListTable.antt =====
-- A hash table by a list of its entries, for the tests.
use inquint.Prelude.{
  ℕ, ◌≡◌, refl, Bool, true, false, ◌&&◌, Option, none, some, List, [], ◌∷◌, ◌∈◌, ◌==◌,
  if◌then◌else◌, arith,
}
use inquint.State.Arena.{State}
use inquint.State.Table.{HashTable}

abbrev pub Entries : Type 0
Entries = List (ℕ × ℕ)

abbrev pub lookup : Entries → ℕ → (ℕ → Bool) → Option ℕ
lookup [] h eq = none
lookup ((k, v) ∷ t) h eq = let rest = lookup t h eq in if k == h && eq v then some v else rest

pub lookup-some :
    (t : Entries) (h : ℕ) (eq : ℕ → Bool) (v : ℕ)
    → lookup t h eq ≡ some v
    → ((h, v) ∈ t) × (eq v ≡ true)
lookup-some [] h eq v e = absurd (ground arith)
lookup-some ((k, w) ∷ t) h eq v e = ground (arith, lookup-some t h eq v)

pub lookup-none :
    (t : Entries) (h : ℕ) (eq : ℕ → Bool) (v : ℕ) → lookup t h eq ≡ none → (h, v) ∈ t → eq v ≡ false
lookup-none [] h eq v e m = absurd m
lookup-none ((k, w) ∷ t) h eq v e m = ground (arith, lookup-none t h eq v)

abbrev pub list_table : HashTable
list_table = record {
  Table = Entries;
  empty = [];
  find = lookup;
  insert_unique = λ t h v. (h, v) ∷ t;
  entries = λ t. t;
  entries-empty = refl;
  entries-insert = λ t h v. refl;
  find_some = lookup-some;
  find_none = lookup-none;
}

-- All states share the hash 0.
abbrev pub hash : State → ℕ
hash s = 0
