-- ===== src/Temporal/Witness/Answer.antt =====
-- The answers of `bfs_path` in inquint/src/temporal/witness.rs.
use inquint.Prelude.{
  ℕ, zero, suc, ◌+◌, ◌≤◌, ◌≡◌, refl, sym, ap, subst, inl, inr, ◌⊎◌, Bool, Bool-cases, true, false,
  not, ◌&&◌, Option, none, some, List, [], ◌∷◌, ◌++◌, ◌∈◌, mem-snoc, length, length-append, get_or,
  arith,
}
use inquint.Temporal.Witness.{
  PathSearch, Progress, is_in, push_starts, push_edges_of, search, bfs_path,
}
use inquint.Temporal.Witness.Distinct.{NoDup, length-NoDup}
use inquint.Temporal.Witness.Parents.{Edge, Chained, AllAllowed, EndsIn, IsPath, Key, IsTree}
use inquint.Temporal.Witness.Path.{IsNodes, Inv, Outcome, push_edges_of-Outcome, fresh_iff, stale}

Progress-cases :
    (p : Progress)
    → ((path : List ℕ) × (p ≡ Progress.found path)) ⊎ ((st : PathSearch) × (p ≡ Progress.going st))
Progress-cases (Progress.found path) = inl (path, refl)
Progress-cases (Progress.going st) = inr (st, refl)

queue_cases : (l : List ℕ) → (l ≡ []) ⊎ ((p : ℕ) × ((ps : List ℕ) × (l ≡ p ∷ ps)))
queue_cases [] = inl refl
queue_cases (p ∷ ps) = inr (p, (ps, refl))

module _ (adj : List (List (ℕ × ℕ))) (allowed goal : ℕ → Bool) (starts : List ℕ) where
  -- A path, or the answer that there is none, and there is none.
  abbrev pub Answers : Option (Option (List ℕ)) → Type 0
  Answers r =
      ((path : List ℕ) × ((r ≡ some (some path)) × IsPath adj allowed goal starts path))
      ⊎ ((r ≡ some none) × ((path : List ℕ) → ¬ IsPath adj allowed goal starts path))

module _ (adj : List (List (ℕ × ℕ))) (allowed goal : ℕ → Bool) (starts : List ℕ)
    (ns : IsNodes adj starts) where
  abbrev Invariant : (ℕ → Type 0) → PathSearch → Type 0
  Invariant ex st = Inv adj allowed goal starts ns ex st

  no_walk :
      (seen : List ℕ)
      → ((x : ℕ) → x ∈ seen → goal x ≡ false)
      → ((x : ℕ) → x ∈ seen → (w : ℕ) → Edge adj x w → allowed w ≡ true → w ∈ seen)
      → (x : ℕ) (xs : List ℕ) → x ∈ seen
      → Chained adj (x ∷ xs)
      → AllAllowed allowed (x ∷ xs)
      → EndsIn goal (x ∷ xs)
      → ⊥
  no_walk seen ng c x [] m ch al en = clash en (ng x m)
    where
      clash : {b : Bool} → b ≡ true → b ≡ false → ⊥
      clash h k = ground arith
  no_walk seen ng c x (y ∷ ys) m (e, ch) (a, (a', al)) en =
      no_walk seen ng c y ys (c x m y e a') ch (a', al) en

  no-IsPath :
      (st : PathSearch)
      → Invariant (λ x. ⊥) st
      → st.queue ≡ []
      → (path : List ℕ) → ¬ IsPath adj allowed goal starts path
  no-IsPath st inv e [] (s, (c, (a, en))) = s
  no-IsPath st inv e (x ∷ xs) (s, (c, (a, en))) =
      no_walk st.seen inv.no_goal
        (λ y m. elim (inv.closed y m) [
          | inl q ↦ absurd (subst (λ l. y ∈ l) e q)
          | inr k ↦ elim k [ inl c' ↦ c' | inr n ↦ absurd n ]
        ])
        x xs (inv.known_seen x (a.0, inl s)) c a en

  -- The node that leaves the queue is excused until its successors are seen.
  pop-Invariant :
      (st : PathSearch) (v : ℕ) (rest : List ℕ)
      → st.queue ≡ v ∷ rest
      → Invariant (λ x. ⊥) st
      → Invariant (λ x. x ≡ v) (record st { queue = rest })
  pop-Invariant st v rest e inv = record {
    tree = inv.tree;
    seen_known = inv.seen_known;
    known_seen = inv.known_seen;
    queued = λ x m. inv.queued x (subst (λ l. x ∈ l) (sym e) (inr m));
    no_goal = inv.no_goal;
    closed = λ x m. elim (inv.closed x m) [
      | inl q ↦ elim (subst (λ l. x ∈ l) e q) [ inl e' ↦ inr (inr e') | inr q' ↦ inl q' ]
      | inr k ↦ elim k [ inl c ↦ inr (inl c) | inr n ↦ absurd n ]
    ];
    distinct = inv.distinct;
    bounded = inv.bounded;
  }

  settle-Invariant :
      (st : PathSearch) (v : ℕ)
      → Invariant (λ x. x ≡ v) st
      → ((w e : ℕ) → (w, e) ∈ get_or adj v [] → allowed w ≡ true → w ∈ st.seen)
      → Invariant (λ x. ⊥) st
  settle-Invariant st v inv f = record {
    tree = inv.tree;
    seen_known = inv.seen_known;
    known_seen = inv.known_seen;
    queued = inv.queued;
    no_goal = inv.no_goal;
    closed = λ x m. elim (inv.closed x m) [
      | inl q ↦ inl q
      | inr k ↦ elim k [
        | inl c ↦ inr (inl c)
        | inr e ↦ inr (inl (λ w ed a. f w ed.0 (subst (λ z. (w, ed.0) ∈ get_or adj z []) e ed.1) a))
      ]
    ];
    distinct = inv.distinct;
    bounded = inv.bounded;
  }

  search-Answers :
      (fuel : ℕ) (st : PathSearch)
      → Invariant (λ x. ⊥) st
      → length adj + length st.queue ≤ fuel + length st.seen
      → Answers adj allowed goal starts (search adj allowed goal fuel st)
  unfolding search
  search-Answers zero st inv h = elim (queue_cases st.queue) [
    | inl e ↦ rw (search, e) (inr (refl, no-IsPath st inv e))
    | inr (v, (rest, e)) ↦ absurd (
        omega
          (arith, ap (λ l. length l) e, length-NoDup (length adj) st.seen inv.distinct inv.bounded))
  ]
  search-Answers (suc fuel) st inv h = elim (queue_cases st.queue) [
    | inl e ↦ rw (search, e) (inr (refl, no-IsPath st inv e))
    | inr (v, (rest, e)) ↦
        let st0 : PathSearch = record st { queue = rest } in
        let out =
          push_edges_of-Outcome adj allowed goal starts ns (λ x. x ≡ v) v (get_or adj v []) st0
            (pop-Invariant st v rest e inv) (inv.queued v (subst (λ l. v ∈ l) (sym e) (inl refl)))
            (λ x m. m) in
        elim (Progress-cases (push_edges_of adj allowed goal v (get_or adj v []) st0)) [
          | inl (path, e') ↦
              rw (search, e, e')
                (inl (
                  path,
                  (
                    refl,
                    subst (Outcome adj allowed goal starts ns (λ x. x ≡ v) (get_or adj v []) st0) e'
                        out,
                  ),
                ))
          | inr (st', e') ↦
              let (inv', (k, (f, bal))) =
                subst (Outcome adj allowed goal starts ns (λ x. x ≡ v) (get_or adj v []) st0) e'
                  out in
              rw (search, e, e')
                (search-Answers fuel st' (settle-Invariant st' v inv' f)
                  (omega (arith, bal, ap (λ l. length l) e)))
        ]
  ]

  -- What is known of the variables in the loop over the starts.
  record Seeding (st : PathSearch) : Type 0 where
    no_parents : st.parent ≡ []
    starting : (x : ℕ) → x ∈ st.seen → (allowed x ≡ true) × (x ∈ starts)
    in_queue : (x : ℕ) → x ∈ st.seen → x ∈ st.queue
    in_seen : (x : ℕ) → x ∈ st.queue → x ∈ st.seen
    no_goal : (x : ℕ) → x ∈ st.seen → goal x ≡ false
    distinct : NoDup st.seen
    balance : length st.queue ≡ length st.seen

  abbrev Started : List ℕ → PathSearch → Progress → Type 0
  Started ss st (Progress.found path) = IsPath adj allowed goal starts path
  Started ss st (Progress.going st') =
      Seeding st'
      × (((x : ℕ) → x ∈ st.seen → x ∈ st'.seen)
          × ((s : ℕ) → s ∈ ss → allowed s ≡ true → s ∈ st'.seen))

  Started-cons :
      (s : ℕ) (ss : List ℕ) (st st1 : PathSearch) (p : Progress)
      → ((x : ℕ) → x ∈ st.seen → x ∈ st1.seen)
      → (allowed s ≡ true → s ∈ st1.seen)
      → Started ss st1 p
      → Started (s ∷ ss) st p
  Started-cons s ss st st1 (Progress.found path) keeps now out = out
  Started-cons s ss st st1 (Progress.going st') keeps now (sd, (k, f)) = (
    sd,
    (
      λ x m. k x (keeps x m),
      λ x m a. elim m [
        | inl e ↦ subst (λ z. z ∈ st'.seen) (sym e) (k s (now (subst (λ z. allowed z ≡ true) e a)))
        | inr m' ↦ f x m' a
      ],
    ),
  )

  start : ℕ → PathSearch → PathSearch
  start s st = record st { seen = s ∷ st.seen; queue = st.queue ++ s ∷ [] }

  start-Seeding :
      (s : ℕ) (st : PathSearch)
      → Seeding st
      → allowed s ≡ true
      → ¬ (s ∈ st.seen)
      → s ∈ starts
      → goal s ≡ false
      → Seeding (start s st)
  unfolding start
  start-Seeding s st sd ok_ new_ m ng =
      let b = sd.balance in
      record {
        no_parents = sd.no_parents;
        starting = λ x k. elim k [
          | inl e ↦ (subst (λ z. allowed z ≡ true) (sym e) ok_, subst (λ z. z ∈ starts) (sym e) m)
          | inr k' ↦ sd.starting x k'
        ];
        in_queue = λ x k.
            (mem-snoc x st.queue s).1 (elim k [ inl e ↦ inr e | inr k' ↦ inl (sd.in_queue x k') ]);
        in_seen = λ x k. elim ((mem-snoc x st.queue s).0 k) [
          | inl k' ↦ inr (sd.in_seen x k')
          | inr e ↦ inl e
        ];
        no_goal = λ x k. elim k [
          | inl e ↦ subst (λ z. goal z ≡ false) (sym e) ng
          | inr k' ↦ sd.no_goal x k'
        ];
        distinct = (new_, sd.distinct);
        balance = omega (arith, b, length-append st.queue (s ∷ []));
      }

  push_starts-Started :
      (ss : List ℕ) (st : PathSearch)
      → Seeding st
      → ((s : ℕ) → s ∈ ss → s ∈ starts)
      → Started ss st (push_starts adj allowed goal ss st)
  unfolding push_starts start
  push_starts-Started [] st sd from = (sd, (λ x m. m, λ s m. absurd m))
  push_starts-Started (s ∷ ss) st sd from = elim (Bool-cases (allowed s && not (is_in st.seen s))) [
    | inr no_ ↦
        rw (push_starts, no_)
          (Started-cons s ss st st (push_starts adj allowed goal ss st) (λ x m. m)
            (stale adj allowed goal starts ns s st.seen no_)
            (push_starts-Started ss st sd (λ x m. from x (inr m))))
    | inl yes_ ↦
        let (ok_, new_) = (fresh_iff adj allowed goal starts ns s st.seen).0 yes_ in
        elim (Bool-cases (goal s)) [
          | inl g ↦ rw (push_starts, yes_, g) (from s (inl refl), (tt, ((ok_, tt), g)))
          | inr g ↦
              rw (push_starts, yes_, g)
                (Started-cons s ss st (start s st) (push_starts adj allowed goal ss (start s st))
                  (λ x m. inr m) (λ a. inl refl)
                  (push_starts-Started ss (start s st)
                    (start-Seeding s st sd ok_ new_ (from s (inl refl)) g) (λ x m. from x (inr m))))
        ]
  ]

  seeded-Invariant :
      (st : PathSearch)
      → Seeding st
      → ((s : ℕ) → s ∈ starts → allowed s ≡ true → s ∈ st.seen)
      → Invariant (λ x. ⊥) st
  seeded-Invariant st sd f = record {
    tree = subst (IsTree adj allowed goal starts) (sym sd.no_parents) tt;
    seen_known = λ x m. let (a, s) = sd.starting x m in (a, inl s);
    known_seen = λ x (a, k).
        elim (subst (λ ps. (x ∈ starts) ⊎ Key adj allowed goal starts x ps) sd.no_parents k) [
          | inl s ↦ f x s a
          | inr n ↦ absurd n
        ];
    queued = sd.in_seen;
    no_goal = sd.no_goal;
    closed = λ x m. inl (sd.in_queue x m);
    distinct = sd.distinct;
    bounded = λ x m. ns.from_starts x (sd.starting x m).1;
  }

  bfs_path-found :
      (path : List ℕ)
      → push_starts adj allowed goal starts (record { parent = []; seen = []; queue = [] })
        ≡ Progress.found path
      → bfs_path adj allowed goal starts ≡ some (some path)
  unfolding bfs_path
  bfs_path-found path e = rw (bfs_path, e) refl

  bfs_path-going :
      (st : PathSearch)
      → push_starts adj allowed goal starts (record { parent = []; seen = []; queue = [] })
        ≡ Progress.going st
      → bfs_path adj allowed goal starts ≡ search adj allowed goal (length adj) st
  unfolding bfs_path
  bfs_path-going st e = rw (bfs_path, e) refl

-- Where the starts and the targets of the edges are nodes, `bfs_path` ends: with a path of the
-- product through allowed nodes from a start to a goal, or with none, where there is no such path.
pub bfs_path-Answers :
    (adj : List (List (ℕ × ℕ))) (allowed goal : ℕ → Bool) (starts : List ℕ)
    → IsNodes adj starts
    → Answers adj allowed goal starts (bfs_path adj allowed goal starts)
bfs_path-Answers adj allowed goal starts ns =
    let st0 : PathSearch = record { parent = []; seen = []; queue = [] } in
    let out =
      push_starts-Started adj allowed goal starts ns starts st0
        (record {
          no_parents = refl;
          starting = λ x m. absurd m;
          in_queue = λ x m. absurd m;
          in_seen = λ x m. absurd m;
          no_goal = λ x m. absurd m;
          distinct = tt;
          balance = refl;
        })
        (λ s m. m) in
    elim (Progress-cases (push_starts adj allowed goal starts st0)) [
      | inl (path, e) ↦ inl (
        path,
        (
          bfs_path-found adj allowed goal starts ns path e,
          subst (Started adj allowed goal starts ns starts st0) e out,
        ),
      )
      | inr (st, e) ↦
          let (sd, (k, f)) = subst (Started adj allowed goal starts ns starts st0) e out in
          let b = sd.balance in
          subst (Answers adj allowed goal starts)
            (sym (bfs_path-going adj allowed goal starts ns st e))
            (search-Answers adj allowed goal starts ns (length adj) st
              (seeded-Invariant adj allowed goal starts ns st sd f) (omega arith))
    ]
