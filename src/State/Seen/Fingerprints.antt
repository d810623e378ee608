-- ===== src/State/Seen/Fingerprints.antt =====
-- The fingerprint set is a set.
use inquint.Prelude.{ℕ, ◌≡◌, refl, subst, ap, ◌↔◌, ◌⊎◌, inl, inr, true, false, ◌∈◌, ◌==◌, ==_iff}
use inquint.Prelude.{Option-cases, Bool-cases, arith}
use inquint.State.Table.{HashTable}
use inquint.State.Seen.{fp_contains, fp_insert}

module _ (H : HashTable) where
  open H use {Table, find, insert_unique, entries, entries-insert, find_some, find_none}

  contains_iff : (t : Table) (x : ℕ) → (fp_contains H t x ≡ true) ↔ ((x, x) ∈ entries t)
  unfolding fp_contains
  contains_iff t x = elim (Option-cases (find t x (λ e. e == x))) [
    | inl e ↦ (
      λ h. absurd (cc (rw e at h)),
      λ m.
          let no = find_none t x (λ v. v == x) x e m in
          let yes_ = (==_iff x x).1 refl in absurd (cc (no, yes_)),
    )
    | inr (v, e) ↦
        let (m, same) = find_some t x (λ v. v == x) v e in
        let v_x : v ≡ x = (==_iff v x).0 same in
        (λ h. subst (λ y. (x, y) ∈ entries t) v_x m, λ h. rw e refl)
  ]

  insert_old : (t : Table) (fp : ℕ) → fp_contains H t fp ≡ true → fp_insert H t fp ≡ (t, false)
  unfolding fp_contains fp_insert
  insert_old t fp h = rw h

  insert_new :
      (t : Table) (fp : ℕ)
      → fp_contains H t fp ≡ false
      → fp_insert H t fp ≡ (insert_unique t fp fp, true)
  unfolding fp_contains fp_insert
  insert_new t fp h = rw h

  pair_iff : (x fp : ℕ) → (◌≡◌ {A = ℕ × ℕ} (x, x) (fp, fp)) ↔ (x ≡ fp)
  pair_iff x fp = (λ e. ap (λ p. p.0) e, λ e. ap (λ y. (y, y)) e)

  contains-insert_unique :
      (t : Table) (fp x : ℕ)
      → (fp_contains H (insert_unique t fp fp) x ≡ true) ↔ ((x ≡ fp) ⊎ (fp_contains H t x ≡ true))
  contains-insert_unique t fp x =
      let held = contains_iff t x in
      let held' =
        subst (λ l. (fp_contains H (insert_unique t fp fp) x ≡ true) ↔ ((x, x) ∈ l))
          (entries-insert t fp fp) (contains_iff (insert_unique t fp fp) x) in
      (
        λ h. elim (held'.0 h) [ inl e ↦ inl ((pair_iff x fp).0 e) | inr m ↦ inr (held.1 m) ],
        λ h. held'.1 (elim h [ inl e ↦ inl ((pair_iff x fp).1 e) | inr c ↦ inr (held.0 c) ]),
      )

  -- `insert` returns whether the fingerprint was not contained before, and afterwards the set
  -- contains it and what it contained, and nothing else.
  pub fp_insert-contains :
      (t : Table) (fp x : ℕ)
      → (((fp_insert H t fp).1 ≡ true) ↔ (fp_contains H t fp ≡ false))
        × ((fp_contains H (fp_insert H t fp).0 x ≡ true) ↔ ((x ≡ fp) ⊎ (fp_contains H t x ≡ true)))
  fp_insert-contains t fp x = elim (Bool-cases (fp_contains H t fp)) [
    | inl e ↦
        rw (insert_old t fp e)
          (ground arith, (inr, λ h. elim h [ inl same ↦ rw same e | inr c ↦ c ]))
    | inr e ↦ rw (insert_new t fp e) ((λ h. e, λ h. refl), contains-insert_unique t fp x)
  ]
