-- ===== src/Temporal/Buchi/NodesReady.antt =====
-- The nodes of inquint/src/temporal/buchi.rs differ in their sets, so there are only so many.
use inquint.Prelude.{
  ℕ, zero, suc, ◌*◌, ◌^◌, ◌<◌, ◌≤◌, ◌≡◌, refl, sym, ap, ◌∙◌, subst, inl, inr, ◌⊎◌, List, [], ◌∷◌,
  ◌++◌, length, length-append, get_or-append_left, get_or-snoc, pigeonhole, none, Bool-cases, true,
  ◌==◌, ==_iff, arith,
}
use inquint.Temporal.Buchi.{Ids, Node, ids_eq, find_done, extend_incoming}
use inquint.Temporal.Buchi.Growth.{
  no_node, node_at, length-extend_incoming, extend_incoming-GrownNode,
}
use inquint.Temporal.Buchi.Ascending.{Ascending, two_sets, length-two_sets, mem-two_sets}

-- The nodes have ascending sets of ids, no two nodes the same.
abbrev pub NodesReady : ℕ → List Node → Type 0
NodesReady n ns =
    ((q : ℕ) → q < length ns → Ascending 0 n (node_at ns q).old × Ascending 0 n (node_at ns q).next)
    × ((p q : ℕ)
        → p < q
        → q < length ns
        → ¬ (
            ((node_at ns p).old ≡ (node_at ns q).old)
            × ((node_at ns p).next ≡ (node_at ns q).next)))

ids_eq_refl : (s : Ids) → ids_eq s s ≡ true
unfolding ids_eq
ids_eq_refl [] = refl
ids_eq_refl (i ∷ s) = ground (arith, ==_iff i i, ids_eq_refl s)

find_done-none :
    (ns : List Node) (old next : Ids) (q : ℕ)
    → find_done ns old next ≡ none
    → q < length ns
    → ¬ (((node_at ns q).old ≡ old) × ((node_at ns q).next ≡ next))
unfolding find_done
find_done-none [] old next q h lt e = absurd (omega arith)
find_done-none (d ∷ ns) old next zero h lt (e, e') =
    let same : ids_eq d.old old ≡ true = subst (λ s. ids_eq d.old s ≡ true) e (ids_eq_refl d.old) in
    let same' : ids_eq d.next next ≡ true =
      subst (λ s. ids_eq d.next s ≡ true) e' (ids_eq_refl d.next) in
    ground arith
find_done-none (d ∷ ns) old next (suc q) h lt e =
    find_done-none ns old next q (ground arith) (omega arith) e

pub length-NodesReady : (n : ℕ) (ns : List Node) → NodesReady n ns → length ns ≤ 2 ^ n * 2 ^ n
length-NodesReady n ns (a, d) = omega (
  arith,
  length-two_sets n,
  pigeonhole (length ns) (λ q. sets q) (two_sets n)
      (λ q h. mem-two_sets n (node_at ns q).old (node_at ns q).next (a q h).0 (a q h).1)
      (λ p q lt h e. d p q lt h (ap (λ t. t.0) e, ap (λ t. t.1) e)),
)
  where
    sets : ℕ → Ids × Ids
    sets q = ((node_at ns q).old, (node_at ns q).next)

pub with_node-NodesReady :
    (n : ℕ) (ns : List Node) (d : Node)
    → Ascending 0 n d.old
    → Ascending 0 n d.next
    → find_done ns d.old d.next ≡ none
    → NodesReady n ns
    → NodesReady n (ns ++ d ∷ [])
with_node-NodesReady n ns d ao an none_ (a, dis) = (asc, apart)
  where
    last_or :
        (q : ℕ)
        → q < length (ns ++ d ∷ [])
        → (node_at (ns ++ d ∷ []) q ≡ d) × (q ≡ length ns)
          ⊎ ((node_at (ns ++ d ∷ []) q ≡ node_at ns q) × (q < length ns))
    last_or q h = elim (Bool-cases (q == length ns)) [
      | inl e ↦ inl (
        ap (node_at (ns ++ d ∷ [])) ((==_iff q (length ns)).0 e) ∙ get_or-snoc ns d no_node,
        (==_iff q (length ns)).0 e,
      )
      | inr e ↦
          let lt : q < length ns =
            ground (arith, ==_iff q (length ns), length-append ns (d ∷ [])) in
          inr (get_or-append_left q ns (d ∷ []) no_node lt, lt)
    ]

    asc :
        (q : ℕ)
        → q < length (ns ++ d ∷ [])
        → Ascending 0 n (node_at (ns ++ d ∷ []) q).old
          × Ascending 0 n (node_at (ns ++ d ∷ []) q).next
    asc q h = elim (last_or q h) [
      | inl (e, eq) ↦ subst (λ c. Ascending 0 n c.old × Ascending 0 n c.next) (sym e) (ao, an)
      | inr (e, lt) ↦ subst (λ c. Ascending 0 n c.old × Ascending 0 n c.next) (sym e) (a q lt)
    ]

    apart :
        (p q : ℕ)
        → p < q
        → q < length (ns ++ d ∷ [])
        → ¬ (
            ((node_at (ns ++ d ∷ []) p).old ≡ (node_at (ns ++ d ∷ []) q).old)
            × ((node_at (ns ++ d ∷ []) p).next ≡ (node_at (ns ++ d ∷ []) q).next))
    apart p q lt h (e, e') = elim (last_or q h) [
      | inl (f, eq) ↦
          let below : p < length ns = omega (arith, eq) in
          let g = get_or-append_left p ns (d ∷ []) no_node below in
          find_done-none ns d.old d.next p none_ below (
            ap (λ c. c.old) (sym g) ∙ (e ∙ ap (λ c. c.old) f),
            ap (λ c. c.next) (sym g) ∙ (e' ∙ ap (λ c. c.next) f),
          )
      | inr (f, below) ↦
          let g = get_or-append_left p ns (d ∷ []) no_node (omega arith) in
          dis p q lt below (
            ap (λ c. c.old) (sym g) ∙ (e ∙ ap (λ c. c.old) f),
            ap (λ c. c.next) (sym g) ∙ (e' ∙ ap (λ c. c.next) f),
          )
    ]

pub extended-NodesReady :
    (n : ℕ) (ns : List Node) (id : ℕ) (incoming : Ids)
    → NodesReady n ns
    → NodesReady n (extend_incoming ns id incoming)
extended-NodesReady n ns id incoming (a, dis) = (
  λ q h.
      let (eo, (en, g)) = extend_incoming-GrownNode ns id incoming q in
      let (ao, an) = a q (omega (arith, length-extend_incoming ns id incoming)) in
      (subst (Ascending 0 n) (sym eo) ao, subst (Ascending 0 n) (sym en) an),
  λ p q lt h (e, e').
      let (eo, (en, g)) = extend_incoming-GrownNode ns id incoming p in
      let (eo', (en', g')) = extend_incoming-GrownNode ns id incoming q in
      dis p q lt (omega (arith, length-extend_incoming ns id incoming))
        (sym eo ∙ (e ∙ eo'), sym en ∙ (e' ∙ en')),
)
