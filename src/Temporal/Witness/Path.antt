-- ===== src/Temporal/Witness/Path.antt =====
-- `bfs_path` of inquint/src/temporal/witness.rs gives a path, and gives none only where there is none.
use inquint.Prelude.{
  ℕ, ◌+◌, ◌<◌, ◌≡◌, refl, sym, ap, subst, inl, inr, ◌⊎◌, ◌↔◌, Bool, Bool-cases, true, false, not,
  ◌&&◌, ==_iff, List, [], ◌∷◌, ◌++◌, ◌∈◌, mem-snoc, length, length-append, get_or, arith,
}
use inquint.Temporal.Witness.{PathSearch, Progress, is_in, push_edges_of}
use inquint.Temporal.Witness.Distinct.{NoDup}
use inquint.Temporal.Witness.Parents.{Edge, IsPath, Known, IsTree, path_to-IsPath}

is_in_iff : (ys : List ℕ) (x : ℕ) → (is_in ys x ≡ true) ↔ (x ∈ ys)
unfolding is_in
is_in_iff [] x = ground arith
is_in_iff (y ∷ ys) x = ground (arith, ==_iff y x, is_in_iff ys x)

-- The successors of the nodes, and the starts, are nodes.
pub record IsNodes (adj : List (List (ℕ × ℕ))) (starts : List ℕ) : Type 0 where
  pub from_starts : (s : ℕ) → s ∈ starts → s < length adj
  pub from_edges : (v w e : ℕ) → (w, e) ∈ get_or adj v [] → w < length adj

module _ (adj : List (List (ℕ × ℕ))) (allowed goal : ℕ → Bool) (starts : List ℕ)
    (ns : IsNodes adj starts) where
  abbrev pub Kn : List (ℕ × ℕ) → ℕ → Type 0
  Kn = Known adj allowed goal starts

  -- The allowed successors of the node are seen.
  abbrev pub ClosedIn : List ℕ → ℕ → Type 0
  ClosedIn seen x = (w : ℕ) → Edge adj x w → allowed w ≡ true → w ∈ seen

  -- What is known of the variables: `seen` are the known nodes, none of them a goal, and those that
  -- are neither in the queue nor excused have their allowed successors among them.
  pub record Inv (excused : ℕ → Type 0) (st : PathSearch) : Type 0 where
    pub tree : IsTree adj allowed goal starts st.parent
    pub seen_known : (x : ℕ) → x ∈ st.seen → Kn st.parent x
    pub known_seen : (x : ℕ) → Kn st.parent x → x ∈ st.seen
    pub queued : (x : ℕ) → x ∈ st.queue → x ∈ st.seen
    pub no_goal : (x : ℕ) → x ∈ st.seen → goal x ≡ false
    pub closed : (x : ℕ) → x ∈ st.seen → (x ∈ st.queue) ⊎ (ClosedIn st.seen x ⊎ excused x)
    pub distinct : NoDup st.seen
    pub bounded : (x : ℕ) → x ∈ st.seen → x < length adj

  pub fresh_iff :
      (w : ℕ) (seen : List ℕ)
      → (allowed w && not (is_in seen w) ≡ true) ↔ ((allowed w ≡ true) × (¬ (w ∈ seen)))
  fresh_iff w seen = ground (arith, is_in_iff seen w)

  pub stale :
      (w : ℕ) (seen : List ℕ)
      → allowed w && not (is_in seen w) ≡ false
      → allowed w ≡ true
      → w ∈ seen
  stale w seen h a = ground (arith, is_in_iff seen w)

  -- A node that is found from `v`.
  add : ℕ → ℕ → PathSearch → PathSearch
  add v w st = record {
    parent = (w, v) ∷ st.parent;
    seen = w ∷ st.seen;
    queue = st.queue ++ w ∷ [];
  }

  add-Inv :
      (ex : ℕ → Type 0) (v w : ℕ) (st : PathSearch)
      → Inv ex st
      → v ∈ st.seen
      → Edge adj v w
      → allowed w ≡ true
      → ¬ (w ∈ st.seen)
      → goal w ≡ false
      → Inv ex (add v w st)
  unfolding add
  add-Inv ex v w st inv sv edge ok_ new_ ng = record {
    tree = ((edge, (inv.seen_known v sv, λ k. new_ (inv.known_seen w k))), inv.tree);
    seen_known = λ x m. elim m [
      | inl e ↦ (subst (λ z. allowed z ≡ true) (sym e) ok_, inr (inl e))
      | inr m' ↦
          let (a, k) = inv.seen_known x m' in (a, elim k [ inl s ↦ inl s | inr i ↦ inr (inr i) ])
    ];
    known_seen = λ x (a, k). elim k [
      | inl s ↦ inr (inv.known_seen x (a, inl s))
      | inr i ↦ elim i [ inl e ↦ inl e | inr i' ↦ inr (inv.known_seen x (a, inr i')) ]
    ];
    queued = λ x m. elim ((mem-snoc x st.queue w).0 m) [
      | inl m' ↦ inr (inv.queued x m')
      | inr e ↦ inl e
    ];
    no_goal = λ x m. elim m [
      | inl e ↦ subst (λ z. goal z ≡ false) (sym e) ng
      | inr m' ↦ inv.no_goal x m'
    ];
    closed = λ x m. elim m [
      | inl e ↦ inl ((mem-snoc x st.queue w).1 (inr e))
      | inr m' ↦ elim (inv.closed x m') [
        | inl q ↦ inl ((mem-snoc x st.queue w).1 (inl q))
        | inr c ↦ inr (elim c [ inl c' ↦ inl (λ y ed a. inr (c' y ed a)) | inr ex' ↦ inr ex' ])
      ]
    ];
    distinct = (new_, inv.distinct);
    bounded = λ x m. elim m [
      | inl e ↦ subst (λ z. z < length adj) (sym e) (ns.from_edges v w edge.0 edge.1)
      | inr m' ↦ inv.bounded x m'
    ];
  }

  -- A path, or variables that have seen the successors in `es`.
  abbrev pub Outcome : (ℕ → Type 0) → List (ℕ × ℕ) → PathSearch → Progress → Type 0
  Outcome ex es st (Progress.found path) = IsPath adj allowed goal starts path
  Outcome ex es st (Progress.going st') =
      Inv ex st'
      × (((x : ℕ) → x ∈ st.seen → x ∈ st'.seen)
          × (((w e : ℕ) → (w, e) ∈ es → allowed w ≡ true → w ∈ st'.seen)
              × (length st'.queue + length st.seen ≡ length st.queue + length st'.seen)))

  Outcome-cons :
      (ex : ℕ → Type 0) (w e : ℕ) (es : List (ℕ × ℕ)) (st st1 : PathSearch) (p : Progress)
      → ((x : ℕ) → x ∈ st.seen → x ∈ st1.seen)
      → (allowed w ≡ true → w ∈ st1.seen)
      → length st1.queue + length st.seen ≡ length st.queue + length st1.seen
      → Outcome ex es st1 p
      → Outcome ex ((w, e) ∷ es) st p
  Outcome-cons ex w e es st st1 (Progress.found path) keeps now bal out = out
  Outcome-cons ex w e es st st1 (Progress.going st') keeps now bal (inv, (k, (f, bal'))) = (
    inv,
    (
      λ x m. k x (keeps x m),
      (
        λ w' e' m a. elim m [
          | inl same ↦
              subst (λ z. z ∈ st'.seen) (sym (ap (λ x. x.0) same))
                (k w (now (subst (λ z. allowed z ≡ true) (ap (λ x. x.0) same) a)))
          | inr m' ↦ f w' e' m' a
        ],
        omega (arith, bal, bal'),
      ),
    ),
  )

  pub push_edges_of-Outcome :
      (ex : ℕ → Type 0) (v : ℕ) (es : List (ℕ × ℕ)) (st : PathSearch)
      → Inv ex st
      → v ∈ st.seen
      → ((x : ℕ × ℕ) → x ∈ es → x ∈ get_or adj v [])
      → Outcome ex es st (push_edges_of adj allowed goal v es st)
  unfolding push_edges_of add
  push_edges_of-Outcome ex v [] st inv sv from = (inv, (λ x m. m, (λ w e m. absurd m, refl)))
  push_edges_of-Outcome ex v ((w, e) ∷ es) st inv sv from =
      elim (Bool-cases (allowed w && not (is_in st.seen w))) [
        | inr no_ ↦
            rw (push_edges_of, no_)
              (Outcome-cons ex w e es st st (push_edges_of adj allowed goal v es st) (λ x m. m)
                (stale w st.seen no_) refl
                (push_edges_of-Outcome ex v es st inv sv (λ x m. from x (inr m))))
        | inl yes_ ↦
            let (ok_, new_) = (fresh_iff w st.seen).0 yes_ in
            let edge : Edge adj v w = (e, from (w, e) (inl refl)) in
            elim (Bool-cases (goal w)) [
              | inl g ↦
                  rw (push_edges_of, yes_, g)
                    (path_to-IsPath adj allowed goal starts ((w, v) ∷ st.parent)
                      ((w, v) ∷ st.parent) _ w []
                      ((edge, (inv.seen_known v sv, λ k. new_ (inv.known_seen w k))), inv.tree)
                      (λ x k. refl) (ok_, inr (inl refl)) (omega arith) (tt, ((ok_, tt), g)))
              | inr g ↦
                  rw (push_edges_of, yes_, g)
                    (Outcome-cons ex w e es st (add v w st)
                      (push_edges_of adj allowed goal v es (add v w st)) (λ x m. inr m)
                      (λ a. inl refl) (omega (arith, length-append st.queue (w ∷ [])))
                      (push_edges_of-Outcome ex v es (add v w st)
                        (add-Inv ex v w st inv sv edge ok_ new_ g) (inr sv)
                        (λ x m. from x (inr m))))
            ]
      ]
