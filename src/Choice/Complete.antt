-- ===== src/Choice/Complete.antt =====
-- Enumeration by replay and `advance` visits each path of a choice tree once, in order.
use inquint.Prelude.{ℕ, zero, suc, ◌+◌, ◌-◌, ◌≤◌, ◌<◌, ◌≡◌, refl, ◌∙◌, ap}
use inquint.Prelude.{
  Option, none, some, List, [], ◌∷◌, ◌++◌, length, get_or, ltb, ltb→lt, inl, inr, Option-cases,
  fun_ext,
}
use inquint.Prelude.{
  if◌then◌else◌, Bool-cases, Result, ◌>>=◌, append_assoc, append-nil, length-append, arith,
}
use inquint.Choice.{ChoicePoint, ChoiceCtl, no_point, bump, choose, new}
use inquint.Choice.Tree.{Tree, leaf, node, run, leaves, collect_from, for_each_run, for_each_leaf}
use inquint.Choice.Advance.{next, advance_visited}

get_or-append :
    (pre rest : List ChoicePoint) (p : ChoicePoint)
    → get_or (pre ++ p ∷ rest) (length pre) no_point ≡ p
get_or-append [] rest p = refl
get_or-append (x ∷ pre) rest p = get_or-append pre rest p

abbrev at_end : List ChoicePoint → ChoiceCtl
at_end tr = record { trail = tr; cursor = length tr }

choose_fresh :
    (pre : List ChoicePoint) (b : ℕ)
    → choose (at_end pre) (suc b)
      ≡ (some 0, at_end (pre ++ record { bound = suc b; chosen = 0 } ∷ []))
unfolding choose
choose_fresh pre b = ground (
  arith,
  get_or-append pre [] (record { bound = suc b; chosen = 0 }),
  length-append pre (record { bound = suc b; chosen = 0 } ∷ []),
)

choose_replay :
    (pre rest : List ChoicePoint) (p : ChoicePoint) (b : ℕ)
    → choose (record { trail = pre ++ p ∷ rest; cursor = length pre }) (suc b)
      ≡ (some p.chosen, record { trail = (pre ++ p ∷ []) ++ rest; cursor = length (pre ++ p ∷ []) })
unfolding choose
choose_replay pre rest p b = ground (
  arith,
  get_or-append pre rest p,
  length-append pre (p ∷ rest),
  length-append pre (p ∷ []),
  append_assoc pre (p ∷ []) rest,
)

module _ {ℓ} {A : Type ℓ} where
  -- The trail is the beginning of a path of the tree.
  abbrev Replays : Tree A → List ChoicePoint → Type 0
  Replays (leaf a) [] = Unit {0}
  Replays (leaf a) (p ∷ tr) = ⊥
  Replays (node zero k) tr = Replays (k none) tr
  Replays (node (suc b) k) [] = Unit {0}
  Replays (node (suc b) k) (p ∷ tr) =
      (p.bound ≡ suc b) × (p.chosen < suc b) × Replays (k (some p.chosen)) tr

  -- The path that a run takes which replays the trail, and its end.
  path : Tree A → List ChoicePoint → List ChoicePoint
  path (leaf a) tr = []
  path (node zero k) tr = path (k none) tr
  path (node (suc b) k) [] = record { bound = suc b; chosen = 0 } ∷ path (k (some 0)) []
  path (node (suc b) k) (p ∷ tr) = p ∷ path (k (some p.chosen)) tr

  end : Tree A → List ChoicePoint → A
  end (leaf a) tr = a
  end (node zero k) tr = end (k none) tr
  end (node (suc b) k) [] = end (k (some 0)) []
  end (node (suc b) k) (p ∷ tr) = end (k (some p.chosen)) tr

  -- The results of that path and of all behind it.
  abbrev later : (ℕ → Tree A) → ℕ → ℕ → List A
  later f i b = collect_from (λ j. leaves (f j)) (suc i) (b - i)

  remaining : Tree A → List ChoicePoint → List A
  remaining (leaf a) tr = a ∷ []
  remaining (node zero k) tr = remaining (k none) tr
  remaining (node (suc b) k) [] = leaves (node (suc b) k)
  remaining (node (suc b) k) (p ∷ tr) =
      remaining (k (some p.chosen)) tr ++ later (λ j. k (some j)) p.chosen b

  remaining-nil : (t : Tree A) → remaining t [] ≡ leaves t
  unfolding remaining leaves
  remaining-nil (leaf a) = refl
  remaining-nil (node zero k) = remaining-nil (k none)
  remaining-nil (node (suc b) k) = refl

  Replays-nil : (t : Tree A) → Replays t []
  Replays-nil (leaf a) = tt
  Replays-nil (node zero k) = Replays-nil (k none)
  Replays-nil (node (suc b) k) = tt

  run-path :
      (t : Tree A) (pre tr : List ChoicePoint)
      → Replays t tr
      → run t (record { trail = pre ++ tr; cursor = length pre })
        ≡ (end t tr, at_end (pre ++ path t tr))
  unfolding run path end
  run-path (leaf a) pre [] h = rw append-nil
  run-path (leaf a) pre (p ∷ tr) h = absurd h
  run-path (node zero k) pre tr h = run-path (k none) pre tr h
  run-path (node (suc b) k) pre [] h =
      let p0 : ChoicePoint = record { bound = suc b; chosen = 0 } in
      let ih = run-path (k (some 0)) (pre ++ p0 ∷ []) [] (Replays-nil (k (some 0))) in
      rw (append-nil pre, choose_fresh pre b)
        (rw (append-nil (pre ++ p0 ∷ []), append_assoc pre (p0 ∷ []) (path (k (some 0)) [])) at ih)
  run-path (node (suc b) k) pre (p ∷ tr) h = rw (choose_replay pre tr p b) (
      rw (append_assoc pre (p ∷ []) (path (k (some p.chosen)) tr)) at
        (run-path (k (some p.chosen)) (pre ++ p ∷ []) tr h.2))

  -- What `advance` makes of the path just run: the end of it was the next result, and the trail
  -- that comes out replays what is left, if anything is.
  abbrev StepsTo : Tree A → List ChoicePoint → Option (List ChoicePoint) → Type ℓ
  StepsTo t tr none = remaining t tr ≡ end t tr ∷ []
  StepsTo t tr (some ys) = Replays t ys × (remaining t tr ≡ end t tr ∷ remaining t ys)

  later-suc :
      (f : ℕ → Tree A) (i b : ℕ)
      → i + 1 < suc b
      → later f i b ≡ leaves (f (i + 1)) ++ later f (i + 1) b
  later-suc f i b h =
      let e : b - i ≡ suc (b - (i + 1)) = omega arith in
      let s : i + 1 ≡ suc i = omega arith in rw (e, s)

  later_end : (f : ℕ → Tree A) (i b : ℕ) → b ≤ i → later f i b ≡ []
  later_end f i b h = let e : b - i ≡ 0 = omega arith in rw e

  StepsTo-node :
      (b : ℕ) (k : Option ℕ → Tree A) (p : ChoicePoint) (tr : List ChoicePoint)
      → Replays (node (suc b) k) (p ∷ tr)
      → (o : Option (List ChoicePoint)) → StepsTo (k (some p.chosen)) tr o
      → StepsTo (node (suc b) k) (p ∷ tr) (elim o [
        | some ys ↦ some (p ∷ ys)
        | none ↦ if ltb (p.chosen + 1) p.bound then some (bump p ∷ []) else none
      ])
  unfolding remaining end
  StepsTo-node b k p tr h (some ys) ih =
      ((h.0, h.1, ih.0), ap (λ l. l ++ later (λ j. k (some j)) p.chosen b) ih.1)
  StepsTo-node b k p tr h none ih = elim (Bool-cases (ltb (p.chosen + 1) p.bound)) [
    | inl e ↦ rw e (
      (h.0, omega (arith, ltb→lt _ _ e), Replays-nil (k (some (p.chosen + 1)))),
      rw (
        ih,
        later-suc (λ j. k (some j)) p.chosen b (omega (arith, h.0, ltb→lt _ _ e)),
        remaining-nil (k (some (p.chosen + 1))),
      ),
    )
    | inr e ↦ rw e (rw (ih, later_end (λ j. k (some j)) p.chosen b (ground arith)))
  ]

  StepsTo-zero :
      (k : Option ℕ → Tree A) (tr : List ChoicePoint) (o : Option (List ChoicePoint))
      → StepsTo (k none) tr o
      → StepsTo (node zero k) tr o
  unfolding remaining end
  StepsTo-zero k tr none h = h
  StepsTo-zero k tr (some ys) h = h

  remaining_start :
      (b : ℕ) (k : Option ℕ → Tree A)
      → remaining (node (suc b) k) []
        ≡ remaining (node (suc b) k) (record { bound = suc b; chosen = 0 } ∷ [])
  unfolding remaining leaves
  remaining_start b k = let e : b - 0 ≡ b = omega arith in rw (e, remaining-nil (k (some 0)))

  StepsTo-start :
      (b : ℕ) (k : Option ℕ → Tree A) (o : Option (List ChoicePoint))
      → StepsTo (node (suc b) k) (record { bound = suc b; chosen = 0 } ∷ []) o
      → StepsTo (node (suc b) k) [] o
  unfolding end
  StepsTo-start b k none h = remaining_start b k ∙ h
  StepsTo-start b k (some ys) h = (h.0, remaining_start b k ∙ h.1)

  advance-StepsTo :
      (t : Tree A) (tr : List ChoicePoint) → Replays t tr → StepsTo t tr (next (path t tr))
  unfolding remaining end path
  advance-StepsTo (leaf a) tr h = refl
  advance-StepsTo (node zero k) tr h = StepsTo-zero k tr _ (advance-StepsTo (k none) tr h)
  advance-StepsTo (node (suc b) k) [] h = StepsTo-start b k _ (
      StepsTo-node b k (record { bound = suc b; chosen = 0 }) []
        (refl, omega arith, Replays-nil (k (some 0))) _
        (advance-StepsTo (k (some 0)) [] (Replays-nil (k (some 0)))))
  advance-StepsTo (node (suc b) k) (p ∷ tr) h =
      StepsTo-node b k p tr h _ (advance-StepsTo (k (some p.chosen)) tr h.2)

module _ {ℓ κ} {E : Type 0} {A : Type ℓ} {S : Type κ} (too_many : E)
    (body : A → S → Result E S) where
  for_each_run-remaining :
      (left : ℕ) (t : Tree A) (tr : List ChoicePoint) (s : S)
      → Replays t tr
      → for_each_run too_many body left t (record { trail = tr; cursor = 0 }) s
        ≡ for_each_leaf too_many body left (remaining t tr) s
  unfolding for_each_run for_each_leaf
  for_each_run-remaining zero t tr s h = elim (Option-cases (next (path t tr))) [
    | inl e ↦ rw (rw e at (advance-StepsTo t tr h))
    | inr (ys, e) ↦ rw ((rw e at (advance-StepsTo t tr h)).1)
  ]
  for_each_run-remaining (suc left) t tr s h = elim (Option-cases (next (path t tr))) [
    | inl e ↦
        simp (run-path t [] tr h, advance_visited (path t tr), e, rw e at (advance-StepsTo t tr h))
    | inr (ys, e) ↦
        let (again, first) = rw e at (advance-StepsTo t tr h) in
        simp (run-path t [] tr h, advance_visited (path t tr), e, first)
          (ap (λ f. body (end t tr) s >>= f)
            (fun_ext (λ s'. for_each_run-remaining left t ys s' again)))
  ]

  -- The loop that replays the trail and advances it sees the result of every path once, in
  -- depth-first order, and stops at the first error or at the limit on the runs.
  pub for_each_run-eq-for_each_leaf :
      (left : ℕ) (t : Tree A) (s : S)
      → for_each_run too_many body left t new s ≡ for_each_leaf too_many body left (leaves t) s
  unfolding new
  for_each_run-eq-for_each_leaf left t s =
      for_each_run-remaining left t [] s (Replays-nil t)
      ∙ ap (λ l. for_each_leaf too_many body left l s) (remaining-nil t)
