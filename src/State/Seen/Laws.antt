-- ===== src/State/Seen/Laws.antt =====
-- The exact seen-set names each explored state once.
use inquint.Prelude.{ℕ, ◌<◌, ◌≡◌, ◌≢◌, refl, sym, subst, Bool, true, false, Option}
use inquint.Prelude.{[], ◌∷◌, ◌∈◌, inl, inr, ◌↔◌, length, Option-cases, arith}
use inquint.State.Arena.{State, StateArena, len, get, push, no_parent}
use inquint.State.Arena.Laws.{IsFlat, len-push, get-push_old, get-push_new, id-push}
use native.Mathlib.Decide.{dec_lt}
use inquint.State.Table.{HashTable}
use inquint.State.Seen.{state_eq, insert_or_get}

pub state_eq_iff : (s t : State) → (state_eq s t ≡ true) ↔ (s ≡ t)
state_eq_iff [] [] = (λ _. refl, λ _. refl)
state_eq_iff [] (b ∷ t) = ground arith
state_eq_iff (a ∷ s) [] = ground arith
state_eq_iff (a ∷ s) (b ∷ t) = ground (arith, state_eq_iff s t)

module _ (H : HashTable) (hash_state : State → ℕ) where
  open H use {Table, find, insert_unique, entries, entries-insert, find_some, find_none}

  -- The table holds the ids of the arena, each under the hash of its state.
  pub record Matches (t : Table) (a : StateArena) : Type 0 where
    pub sound : (h id : ℕ) → (h, id) ∈ entries t → (id < len a) × (h ≡ hash_state (get a id))
    pub full : (id : ℕ) → id < len a → (hash_state (get a id), id) ∈ entries t

  module _ (t : Table) (a : StateArena) (s : State) (p : Option ℕ) (d : ℕ) (flat : IsFlat a)
      (size : length s ≡ a.n_vars) (m : Matches t a) where
    abbrev a' : StateArena
    a' = (push a s p d).0

    abbrev t' : Table
    t' = insert_unique t (hash_state s) (len a)

    Matches-push : Matches t' a'
    Matches-push = record {
      sound = λ h id within.
          elim (subst (λ l. (h, id) ∈ l) (entries-insert t (hash_state s) (len a)) within) [
            | inl e ↦ ground (arith, len-push a s p d flat size, get-push_new a s p d flat size)
            | inr old ↦ ground (
              arith,
              len-push a s p d flat size,
              m.sound h id old,
              get-push_old a s p d flat size id,
            )
          ];
      full = λ id h.
          subst (λ l. (hash_state (get a' id), id) ∈ l)
            (sym (entries-insert t (hash_state s) (len a)))
            (elim (dec_lt id (len a)) [
              | yes within ↦ inr (
                  subst (λ u. (hash_state u, id) ∈ entries t)
                    (sym (get-push_old a s p d flat size id within)) (m.full id within))
              | no beyond ↦
                  let e : id ≡ len a = omega (arith, len-push a s p d flat size) in
                  inl (rw (e, get-push_new a s p d flat size))
            ]);
    }

    -- A state that is found has its id; any other is pushed, under the next id.
    pub data Inserted : (Table × StateArena) × (ℕ × Bool) → Type 0 where
      old : (id : ℕ) → id < len a → get a id ≡ s → Inserted ((t, a), (id, false))
      fresh :
          ((i : ℕ) → i < len a → get a i ≢ s) → Matches t' a' → Inserted ((t', a'), (len a, true))

    -- Where the arena is flat, the state has its width, the table matches the arena and an id is
    -- left, `insert_or_get` finds the id of a state that the arena holds, and else pushes the state
    -- under the next id, and the table goes on to match.
    pub insert_or_get-Inserted : len a < no_parent → Inserted (insert_or_get H hash_state t a s p d)
    unfolding insert_or_get
    insert_or_get-Inserted h =
        elim (Option-cases (find t (hash_state s) (λ id. state_eq (get a id) s))) [
          | inl e ↦
              rw (insert_or_get, e, id-push a s p d h)
                (fresh
                  (λ i hi same. cc (
                    find_none t (hash_state s) _ i e (rw same at (m.full i hi)),
                    (state_eq_iff (get a i) s).1 same,
                  ))
                  Matches-push)
          | inr (id, e) ↦
              let (within, same) = find_some t (hash_state s) _ id e in
              rw (insert_or_get, e)
                (old id (m.sound _ id within).0 ((state_eq_iff (get a id) s).0 same))
        ]
