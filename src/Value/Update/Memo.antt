-- ===== src/Value/Update/Memo.antt =====
-- The memo of map updates of inquint/src/value.rs is invisible.
use inquint.Prelude.{
  ◌<◌, ℕ, ◌+◌, ◌*◌, ◌/◌, ◌%◌, ◌≡◌, ◌≢◌, refl, sym, ap, subst, ◌∙◌, ◌⊎◌, inl, inr, Bool, true, false,
  ◌==◌, ==_iff, some, Option-cases, Bool-cases, arith,
}
use inquint.Prelude.{Result, ok, ◌>>=◌, Result-cases, ok_injective, bind-ok}
use inquint.Errors.{QuintError}
use inquint.Value.{ValueData}
use inquint.Value.Compare.Laws.{same_value_iff}
use inquint.Value.Construct.{EvalResult, as_map}
use inquint.Value.Update.{
  UpdateEntry, UpdateCache, update_slot, cache_hit, cache_store, map_update, update_and_store,
  map_update_cached,
}

-- The update without the memo.
abbrev pub direct_update : ValueData → ValueData → ValueData → Bool → EvalResult
direct_update m key val must_exist = as_map m >>= λ es. map_update es key val must_exist

abbrev pub Slot : Type 0
Slot = ValueData → ValueData → ValueData → Bool → ℕ

-- `set` and `put` of one update never share a slot.
abbrev pub TellsApart : Slot → Type 0
TellsApart slot = (m key val : ValueData) → slot m key val true ≢ slot m key val false

-- An entry stands in the slot of an update that gives its result.
abbrev pub IsMemo : Slot → UpdateEntry → ℕ → Type 0
IsMemo slot e i =
    (must_exist : Bool) × ((slot e.map e.key e.val must_exist ≡ i)
      × (direct_update e.map e.key e.val must_exist ≡ ok e.res))

abbrev pub IsConsistent : Slot → UpdateCache → Type 0
IsConsistent slot c = (i : ℕ) (e : UpdateEntry) → c i ≡ some e → IsMemo slot e i

-- Adding the multiplier changes the upper 16 bits.
upper_bits_differ :
    (z w : ℕ)
    → z < 18446744073709551616
    → ((w ≡ z + 11400714819323198485) ⊎ (w + 18446744073709551616 ≡ z + 11400714819323198485))
    → w / 281474976710656 ≢ z / 281474976710656
upper_bits_differ z w b (inl e) h = omega arith
upper_bits_differ z w b (inr e) h = omega arith

mix_step :
    (n : ℕ)
    → (n + 1) % 18446744073709551616 * 11400714819323198485 % 18446744073709551616
      ≡ (n % 18446744073709551616 * 11400714819323198485 % 18446744073709551616
          + 11400714819323198485)
        % 18446744073709551616
mix_step n = omega arith

-- The last step of the hash, and the slot.
abbrev last_mix : ℕ → ℕ
last_mix n = n % 18446744073709551616 * 11400714819323198485 % 18446744073709551616

last_mix_differ :
    (n k : ℕ) → k ≡ n + 1 → last_mix k / 281474976710656 ≢ last_mix n / 281474976710656
last_mix_differ n k e h =
    let step = mix_step n in
    let bound : last_mix n < 18446744073709551616 = omega arith in
    let next : last_mix k ≡ last_mix (n + 1) = ap last_mix e in
    upper_bits_differ (last_mix n) (last_mix k) bound (omega arith) h

-- Whatever the ids, `set` and `put` of one update get different slots of the memo.
pub update_slot_tells_apart :
    (m key val : ℕ) → update_slot m key val true ≢ update_slot m key val false
unfolding update_slot
update_slot_tells_apart m key val h =
    let mixed =
      (m * 11400714819323198485 % 18446744073709551616 + key * 2)
      % 18446744073709551616
      * 11400714819323198485
      % 18446744073709551616 in
    last_mix_differ (mixed + (val * 2 + 0)) (mixed + (val * 2 + 1)) (omega arith) h

module _ (slot : Slot) (c : UpdateCache) where
  cache_hit-IsMemo :
      (m key val res : ValueData) (i : ℕ)
      → IsConsistent slot c
      → cache_hit (c i) m key val ≡ some res
      → (must_exist : Bool) × ((slot m key val must_exist ≡ i)
          × (direct_update m key val must_exist ≡ ok res))
  unfolding cache_hit
  cache_hit-IsMemo m key val res i k h = elim (Option-cases (c i)) [
    | inl n ↦ absurd (ground arith)
    | inr (e, f) ↦
        let same : (e.map ≡ m) × ((e.key ≡ key) × (e.val ≡ val)) =
          ground
            (arith, same_value_iff e.map m, same_value_iff e.key key, same_value_iff e.val val) in
        let result : e.res ≡ res = ground arith in
        let (must_exist, (s, d)) = k i e f in
        (
          must_exist,
          (
            rw (sym same.0, sym same.1.0, sym same.1.1) s,
            rw (sym same.0, sym same.1.0, sym same.1.1, sym result) d,
          ),
        )
  ]

  -- With `set` and `put` told apart, a hit is what the update would give.
  cache_hit-direct_update :
      (m key val res : ValueData) (must_exist : Bool)
      → TellsApart slot
      → IsConsistent slot c
      → cache_hit (c (slot m key val must_exist)) m key val ≡ some res
      → direct_update m key val must_exist ≡ ok res
  cache_hit-direct_update m key val res must_exist t k h =
      let (b, (s, d)) = cache_hit-IsMemo m key val res (slot m key val must_exist) k h in
      go b must_exist s d
    where
      go :
          (b must_exist : Bool)
          → slot m key val b ≡ slot m key val must_exist
          → direct_update m key val b ≡ ok res
          → direct_update m key val must_exist ≡ ok res
      go true true s d = d
      go false false s d = d
      go true false s d = absurd (t m key val s)
      go false true s d = absurd (t m key val (sym s))

  module _ (m key val : ValueData) (must_exist : Bool) where
    update_and_store-direct :
        (i : ℕ)
        → (update_and_store c i m key val must_exist >>= λ r. ok r.0)
          ≡ direct_update m key val must_exist
    unfolding update_and_store
    update_and_store-direct i = elim (Result-cases (as_map m)) [
      | inl (es, h) ↦ elim (Result-cases (map_update es key val must_exist)) [
        | inl (r, g) ↦ rw (update_and_store, h, g) refl
        | inr (e, g) ↦ rw (update_and_store, h, g) refl
      ]
      | inr (e, h) ↦ rw (update_and_store, h) refl
    ]

    -- With a consistent memo an update gives the value, or the error, that it gives without one.
    pub map_update_cached-eq-direct :
        TellsApart slot
        → IsConsistent slot c
        → (map_update_cached slot c m key val must_exist >>= λ r. ok r.0)
          ≡ direct_update m key val must_exist
    unfolding map_update_cached
    map_update_cached-eq-direct t k =
        elim (Option-cases (cache_hit (c (slot m key val must_exist)) m key val)) [
          | inl n ↦ rw (map_update_cached, n) (update_and_store-direct (slot m key val must_exist))
          | inr (res, f) ↦
              rw (map_update_cached, f)
                (sym (cache_hit-direct_update m key val res must_exist t k f))
        ]

  cache_store-IsConsistent :
      (new : UpdateEntry) (i : ℕ)
      → IsConsistent slot c
      → IsMemo slot new i
      → IsConsistent slot (cache_store c i new)
  unfolding cache_store
  cache_store-IsConsistent new i k w j e h = elim (Bool-cases (j == i)) [
    | inl s ↦
        let at : i ≡ j = ground (arith, ==_iff j i) in
        let same : new ≡ e = ground arith in
        subst (λ x. IsMemo slot x j) same (subst (λ x. IsMemo slot new x) at w)
    | inr s ↦ k j e (ground arith)
  ]

  module _ (m key val res : ValueData) (must_exist : Bool) (c' : UpdateCache) where
    update_and_store-IsConsistent :
        IsConsistent slot c
        → update_and_store c (slot m key val must_exist) m key val must_exist ≡ ok (res, c')
        → IsConsistent slot c'
    unfolding update_and_store
    update_and_store-IsConsistent k h =
        let (es, (a, more)) = bind-ok (as_map m) _ (res, c') h in
        let (r, (u, last)) = bind-ok (map_update es key val must_exist) _ (res, c') more in
        let new : UpdateEntry = record { map = m; key = key; val = val; res = r } in
        let direct : direct_update m key val must_exist ≡ ok r = rw (a, u) refl in
        let kept =
          cache_store-IsConsistent new (slot m key val must_exist) k (must_exist, (refl, direct)) in
        subst (λ x. IsConsistent slot x) (ap (λ p. p.1) (ok_injective last)) kept

    -- An update keeps the memo consistent.
    pub map_update_cached-IsConsistent :
        IsConsistent slot c
        → map_update_cached slot c m key val must_exist ≡ ok (res, c')
        → IsConsistent slot c'
    unfolding map_update_cached
    map_update_cached-IsConsistent k h =
        elim (Option-cases (cache_hit (c (slot m key val must_exist)) m key val)) [
          | inl n ↦
              let miss : update_and_store c (slot m key val must_exist) m key val must_exist
                  ≡ map_update_cached slot c m key val must_exist =
                rw (map_update_cached, n) refl in
              update_and_store-IsConsistent k (miss ∙ h)
          | inr (v, f) ↦
              let hit : ◌≡◌ {A = Result QuintError (ValueData × UpdateCache)} (ok (v, c))
                  (map_update_cached slot c m key val must_exist) =
                rw (map_update_cached, f) refl in
              subst (λ x. IsConsistent slot x) (ap (λ p. p.1) (ok_injective (hit ∙ h))) k
        ]
