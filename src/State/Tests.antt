-- ===== src/State/Tests.antt =====
-- Two states of one variable in the arena and the exact seen-set.
use inquint.Prelude.{◌≡◌, refl, true, false, some, [], ◌∷◌, arith}
use inquint.State.Arena
use inquint.State.Arena.{State, StateArena}
use inquint.State.Arena.Laws.{IsFlat}
use inquint.State.ListTable.{Entries, list_table, hash}
use inquint.State.Seen.{insert_or_get}
use inquint.Prelude.{ℕ, ◌↔◌, ◌⊎◌, true, false}
use inquint.State.Seen.{fp_insert, fp_contains}
use inquint.State.Seen.Fingerprints.{fp_insert-contains}
use inquint.State.Seen.Laws.{Matches, Inserted, insert_or_get-Inserted}

abbrev two : StateArena
two = record {
  n_vars = 1;
  data_ = 7 ∷ 8 ∷ [];
  parents = Arena.no_parent ∷ 0 ∷ [];
  depths = 0 ∷ 1 ∷ [];
}

abbrev table : Entries
table = (0, 1) ∷ (0, 0) ∷ []

two-Matches : Matches list_table hash table two
unfolding Arena.get
two-Matches = record { sound = λ h id m. ground arith; full = λ id h. ground arith }

-- A state that is there, and a fresh one.
inserts :
    (insert_or_get list_table hash table two (7 ∷ []) (some 1) 2 ≡ ((table, two), (0, false)))
    × ((insert_or_get list_table hash table two (9 ∷ []) (some 1) 2).1 ≡ (2, true))
unfolding insert_or_get Arena.get Arena.push
inserts = (refl, refl)

two-IsFlat : IsFlat two
two-IsFlat = record { data_size = refl; depth_size = refl }

insert_or_get-Inserted_example :
    Inserted list_table hash table two
      (9 ∷ [])
      (some 1)
      2
      two-IsFlat
      refl
      two-Matches
      (insert_or_get list_table hash table two (9 ∷ []) (some 1) 2)
insert_or_get-Inserted_example =
    insert_or_get-Inserted list_table hash table two (9 ∷ []) (some 1) 2 two-IsFlat refl two-Matches
      (omega arith)

abbrev five : ℕ
five = 5

fp_insert-contains_example :
    (((fp_insert list_table table 5).1 ≡ true) ↔ (fp_contains list_table table 5 ≡ false))
    × ((fp_contains list_table (fp_insert list_table table 5).0 5 ≡ true)
        ↔ ((five ≡ 5) ⊎ (fp_contains list_table table 5 ≡ true)))
fp_insert-contains_example = fp_insert-contains list_table table 5 5
