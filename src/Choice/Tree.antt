-- ===== src/Choice/Tree.antt =====
-- What one evaluation of an action does with the oracle of inquint/src/choice.rs: a tree of calls
-- of `choose`, run once per path by the loops of inquint/src/successor.rs and of runner.rs.
use inquint.Prelude.{ℕ, zero, suc, Option, none, some, List, [], ◌∷◌, ◌++◌}
use inquint.Prelude.{if◌then◌else◌, Result, ok, err, ◌>>=◌}
use inquint.Choice.{ChoiceCtl, choose, advance}

-- A deterministic evaluation that ends in an `A`: it asks for a choice below a bound, and goes on
-- with the answer.
pub data Tree {ℓ} (A : Type ℓ) : Type ℓ where
  leaf : A → Tree A
  node : ℕ → (Option ℕ → Tree A) → Tree A

module _ {ℓ} {A : Type ℓ} where
  unfoldable pub run : Tree A → ChoiceCtl → A × ChoiceCtl
  unfolding choose
  run (leaf a) c = (a, c)
  run (node bound k) c = let (o, c') = choose c bound in run (k o) c'

  -- f i ++ f (i + 1) ++ …, `n` lists.
  abbrev pub collect_from : (ℕ → List A) → ℕ → ℕ → List A
  collect_from f i zero = []
  collect_from f i (suc n) = f i ++ collect_from f (suc i) n

  -- The results of all paths, in depth-first order.
  unfoldable pub leaves : Tree A → List A
  leaves (leaf a) = a ∷ []
  leaves (node zero k) = leaves (k none)
  leaves (node (suc b) k) = collect_from (λ i. leaves (k (some i))) 0 (suc b)

-- The loop that `enumerate`, `enumerate_partial_inner` and `run_tests` share. `left` is the limit
-- less the runs made, and `body` is what one run does with its result; an error leaves the loop.
module _ {ℓ κ} {E : Type 0} {A : Type ℓ} {S : Type κ} (too_many : E)
    (body : A → S → Result E S) where
  unfoldable pub for_each_run : ℕ → Tree A → ChoiceCtl → S → Result E S
  for_each_run zero t c s = err too_many
  for_each_run (suc left) t c s = do
    let (a, c') = run t c
    s' ← body a s
    let (c'', more) = advance c'
    let again = for_each_run left t c'' s'
    if more then again else ok s'

  -- The same on the list of the results.
  unfoldable pub for_each_leaf : ℕ → List A → S → Result E S
  for_each_leaf left [] s = ok s
  for_each_leaf zero (a ∷ rest) s = err too_many
  for_each_leaf (suc left) (a ∷ rest) s = body a s >>= for_each_leaf left rest
