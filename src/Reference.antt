-- ===== src/Reference.antt =====
-- The choice oracle of the reference implementation, inquint-reference/src/choice.rs, which the
-- oracle of inquint/src/choice.rs replaced. The structs of the two are the same.
mod Tests
pub mod Agrees
pub mod Successor
pub mod Equivalence
use inquint.Prelude.{ℕ, zero, suc, ◌+◌, Bool, true, false, Option, none, some, List, [], ◌∷◌, ◌++◌}
use inquint.Prelude.{ltb, ◌==◌, if◌then◌else◌, length, get_or, take}
use inquint.Choice.{ChoicePoint, ChoiceCtl, no_point, bump}

-- `trail.last()`, `trail.pop()` without its result, and a write to `trail.last_mut()`.
unfoldable pub last : List ChoicePoint → Option ChoicePoint
last [] = none
last (p ∷ ps) = elim (last ps) [ none ↦ some p | some q ↦ some q ]

unfoldable pub pop : List ChoicePoint → List ChoicePoint
pop [] = []
pop (p ∷ []) = []
pop (p ∷ q ∷ ps) = p ∷ pop (q ∷ ps)

unfoldable pub set_last : ChoicePoint → List ChoicePoint → List ChoicePoint
set_last r ps = pop ps ++ r ∷ []

-- The `while` loop of `advance`, with fuel: one unit for each entry of the trail.
unfoldable pub pop_loop : ℕ → List ChoicePoint → ℕ → ChoiceCtl × Bool
unfolding last pop set_last
pop_loop zero trail cursor = (record { trail = trail; cursor = cursor }, false)
pop_loop (suc fuel) trail cursor =
    let shorter = pop_loop fuel (pop trail) cursor in
    elim (last trail) [
      | none ↦ (record { trail = trail; cursor = cursor }, false)
      | some p ↦
          if ltb (p.chosen + 1) p.bound
          then (record { trail = set_last (bump p) trail; cursor = 0 }, true)
          else shorter
    ]

unfoldable pub choose : ChoiceCtl → ℕ → Option ℕ × ChoiceCtl
choose c bound =
    if bound == 0
    then (none, c)
    else let trail' =
        if ltb c.cursor (length c.trail)
        then c.trail
        else c.trail ++ (record { bound = bound; chosen = 0 }) ∷ [] in
      (
        some (get_or trail' c.cursor no_point).chosen,
        record { trail = trail'; cursor = c.cursor + 1 },
      )

unfoldable pub advance : ChoiceCtl → ChoiceCtl × Bool
advance c = let visited = take c.cursor c.trail in pop_loop (length visited) visited c.cursor
