-- ===== src/Temporal/Witness/Parents.antt =====
-- Following the parents of inquint/src/temporal/witness.rs gives a path from a start.
use inquint.Prelude.{
  ℕ, zero, suc, ◌≤◌, ◌≡◌, ◌≢◌, refl, sym, ap, ◌∙◌, subst, inl, inr, ◌⊎◌, Bool, Bool-cases, true,
  ◌==◌, ==_iff, none, some, List, [], ◌∷◌, ◌∈◌, length, get_or, arith,
}
use inquint.Temporal.Witness.{parent_of, path_to}

-- The product has the edge.
abbrev pub Edge : List (List (ℕ × ℕ)) → ℕ → ℕ → Type 0
Edge adj v w = (e : ℕ) × ((w, e) ∈ get_or adj v [])

-- Each node of the list has an edge to the next one.
abbrev pub Chained : List (List (ℕ × ℕ)) → List ℕ → Type 0
Chained adj [] = ⊥
Chained adj (x ∷ []) = Unit {0}
Chained adj (x ∷ y ∷ ys) = Edge adj x y × Chained adj (y ∷ ys)

abbrev pub AllAllowed : (ℕ → Bool) → List ℕ → Type 0
AllAllowed allowed [] = Unit {0}
AllAllowed allowed (x ∷ xs) = (allowed x ≡ true) × AllAllowed allowed xs

abbrev pub StartsIn : List ℕ → List ℕ → Type 0
StartsIn starts [] = ⊥
StartsIn starts (x ∷ xs) = x ∈ starts

abbrev pub EndsIn : (ℕ → Bool) → List ℕ → Type 0
EndsIn goal [] = ⊥
EndsIn goal (x ∷ []) = goal x ≡ true
EndsIn goal (x ∷ y ∷ ys) = EndsIn goal (y ∷ ys)

module _ (adj : List (List (ℕ × ℕ))) (allowed goal : ℕ → Bool) (starts : List ℕ) where
  -- A path through allowed nodes of the product from a start to a goal.
  abbrev pub IsPath : List ℕ → Type 0
  IsPath path =
      StartsIn starts path × (Chained adj path × (AllAllowed allowed path × EndsIn goal path))

  abbrev pub Key : ℕ → List (ℕ × ℕ) → Type 0
  Key x [] = ⊥
  Key x (wv ∷ ps) = (x ≡ wv.0) ⊎ Key x ps

  -- The node is a start or has a parent.
  abbrev pub Known : List (ℕ × ℕ) → ℕ → Type 0
  Known ps x = (allowed x ≡ true) × ((x ∈ starts) ⊎ Key x ps)

  abbrev pub IsTree : List (ℕ × ℕ) → Type 0
  IsTree [] = Unit {0}
  IsTree (wv ∷ ps) = (Edge adj wv.1 wv.0 × (Known ps wv.1 × (¬ Known ps wv.0))) × IsTree ps

  abbrev Agrees : List (ℕ × ℕ) → List (ℕ × ℕ) → Type 0
  Agrees ps qs = (x : ℕ) → Known ps x → parent_of qs x ≡ parent_of ps x

  abbrev Tail : List ℕ → Type 0
  Tail path = Chained adj path × (AllAllowed allowed path × EndsIn goal path)

  parent_of-other :
      (w v x : ℕ) (ps : List (ℕ × ℕ)) → x ≢ w → parent_of ((w, v) ∷ ps) x ≡ parent_of ps x
  unfolding parent_of
  parent_of-other w v x ps n = elim (Bool-cases (w == x)) [
    | inl e ↦ absurd (n (sym ((==_iff w x).0 e)))
    | inr e ↦ rw e refl
  ]

  parent_of-same : (w v : ℕ) (ps : List (ℕ × ℕ)) → parent_of ((w, v) ∷ ps) w ≡ some v
  unfolding parent_of
  parent_of-same w v ps = rw ((==_iff w w).1 refl) refl

  path_to-none :
      (fuel : ℕ) (qs : List (ℕ × ℕ)) (x : ℕ) (acc : List ℕ)
      → parent_of qs x ≡ none
      → path_to fuel qs x acc ≡ x ∷ acc
  unfolding path_to
  path_to-none zero qs x acc e = refl
  path_to-none (suc fuel) qs x acc e = rw (path_to, e) refl

  path_to-some :
      (fuel : ℕ) (qs : List (ℕ × ℕ)) (x v : ℕ) (acc : List ℕ)
      → parent_of qs x ≡ some v
      → path_to (suc fuel) qs x acc ≡ path_to fuel qs v (x ∷ acc)
  unfolding path_to
  path_to-some fuel qs x v acc e = rw (path_to, e) refl

  same_or : (x w : ℕ) → (x ≡ w) ⊎ (x ≢ w)
  same_or x w = elim (Bool-cases (x == w)) [
    | inl e ↦ inl ((==_iff x w).0 e)
    | inr e ↦ inr (λ eq. ground (arith, ==_iff x w))
  ]

  pub path_to-IsPath :
      (ps qs : List (ℕ × ℕ)) (fuel x : ℕ) (acc : List ℕ)
      → IsTree ps
      → Agrees ps qs
      → Known ps x
      → length ps ≤ fuel
      → Tail (x ∷ acc)
      → IsPath (path_to fuel qs x acc)
  unfolding parent_of
  path_to-IsPath [] qs fuel x acc tree agree (ok_, known) h tail =
      subst IsPath (sym (path_to-none fuel qs x acc (agree x (ok_, known))))
        (elim known [ inl s ↦ s | inr k ↦ absurd k ], tail)
  path_to-IsPath ((w, v) ∷ ps) qs zero x acc tree agree known h tail = absurd (omega arith)
  path_to-IsPath ((w, v) ∷ ps) qs (suc fuel) x acc ((edge, (kv, kw)), tree) agree (ok_, known) h
        tail =
      let on_tail : Agrees ps qs = λ y ky.
        agree y (ky.0, elim ky.1 [ inl s ↦ inl s | inr k ↦ inr (inr k) ])
        ∙ parent_of-other w v y ps (λ e. kw (subst (Known ps) e ky)) in
      elim (same_or x w) [
        | inr n ↦
            path_to-IsPath ps qs (suc fuel) x acc tree on_tail
              (
                ok_,
                elim known [
                  | inl s ↦ inl s
                  | inr k ↦ elim k [ inl e ↦ absurd (n e) | inr k' ↦ inr k' ]
                ],
              )
              (omega arith) tail
        | inl e ↦
            subst IsPath
              (sym (
                path_to-some fuel qs x v acc (
                  agree x (ok_, known) ∙ (ap (parent_of ((w, v) ∷ ps)) e ∙ parent_of-same w v ps))))
              (path_to-IsPath ps qs fuel v (x ∷ acc) tree on_tail kv (omega arith)
                ((subst (Edge adj v) (sym e) edge, tail.0), ((kv.0, tail.1.0), tail.1.1)))
      ]
