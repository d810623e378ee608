-- ===== src/Temporal/Witness/Tests.antt =====
-- Paths in a graph of four nodes, of which the last one is not reached.
use inquint.Prelude.{
  ℕ, zero, suc, ◌<◌, ◌≡◌, refl, inl, inr, ap, true, ◌==◌, none, some, List, [], ◌∷◌, ◌∈◌, get_or,
  arith,
}
use inquint.Temporal.Witness.{
  is_in, parent_of, path_to, push_starts, push_edges_of, search, bfs_path,
}
use inquint.Temporal.Witness.Path.{IsNodes}
use inquint.Temporal.Witness.Answer.{Answers, bfs_path-Answers}

abbrev edges : List (List (ℕ × ℕ))
edges = ((1, 0) ∷ (2, 1) ∷ []) ∷ ((0, 2) ∷ []) ∷ ((1, 3) ∷ (2, 4) ∷ []) ∷ ((0, 5) ∷ []) ∷ []

path_to_two : bfs_path edges (λ x. true) (λ x. x == 2) (1 ∷ []) ≡ some (some (1 ∷ 0 ∷ 2 ∷ []))
unfolding bfs_path search push_starts push_edges_of path_to parent_of is_in
path_to_two = refl

no_path_to_three : bfs_path edges (λ x. true) (λ x. x == 3) (1 ∷ []) ≡ some none
unfolding bfs_path search push_starts push_edges_of path_to parent_of is_in
no_path_to_three = refl

into : (v w e : ℕ) → (w, e) ∈ get_or edges v [] → w < 4
into zero w e (inl h) = omega (arith, ap (λ x. x.0) h)
into zero w e (inr (inl h)) = omega (arith, ap (λ x. x.0) h)
into zero w e (inr (inr h)) = absurd h
into (suc zero) w e (inl h) = omega (arith, ap (λ x. x.0) h)
into (suc zero) w e (inr h) = absurd h
into (suc (suc zero)) w e (inl h) = omega (arith, ap (λ x. x.0) h)
into (suc (suc zero)) w e (inr (inl h)) = omega (arith, ap (λ x. x.0) h)
into (suc (suc zero)) w e (inr (inr h)) = absurd h
into (suc (suc (suc zero))) w e (inl h) = omega (arith, ap (λ x. x.0) h)
into (suc (suc (suc zero))) w e (inr h) = absurd h
into (suc (suc (suc (suc v)))) w e h = absurd h

edges-IsNodes : IsNodes edges (1 ∷ [])
edges-IsNodes = record {
  from_starts = λ s m. elim m [ inl h ↦ omega (arith, h) | inr n ↦ absurd n ];
  from_edges = into;
}

bfs_path-Answers_example :
    Answers edges
      (λ x. true)
      (λ x. x == 2)
      (1 ∷ [])
      (bfs_path edges (λ x. true) (λ x. x == 2) (1 ∷ []))
bfs_path-Answers_example = bfs_path-Answers edges (λ x. true) (λ x. x == 2) (1 ∷ []) edges-IsNodes
