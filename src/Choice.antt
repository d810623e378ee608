-- ===== src/Choice.antt =====
-- The enumeration oracle of inquint/src/choice.rs: the trail of choices of one evaluation run.
mod Tests
pub mod Tree
pub mod Advance
pub mod Complete
use inquint.Prelude.{
  ℕ, zero, suc, ◌+◌, min, Bool, true, false, Option, none, some, List, [], ◌∷◌, ◌++◌,
}
use inquint.Prelude.{ltb, ◌==◌, if◌then◌else◌, length, get_or, set, take}

pub record ChoicePoint : Type 0 where
  pub bound : ℕ
  pub chosen : ℕ

pub record ChoiceCtl : Type 0 where
  pub trail : List ChoicePoint
  pub cursor : ℕ

-- What a read behind the end of the trail would give. The code panics there; no read is.
abbrev pub no_point : ChoicePoint
no_point = record { bound = 0; chosen = 0 }

-- The result of `advance_trail`: its three `&mut` arguments and the Boolean that it returns.
pub record Advanced : Type 0 where
  pub trail : List ChoicePoint
  pub len : ℕ
  pub cursor : ℕ
  pub advanced : Bool

abbrev pub bump : ChoicePoint → ChoicePoint
bump p = record p { chosen = p.chosen + 1 }

-- The `while` loop of `advance_trail`, by recursion on `len`.
unfoldable pub advance_loop : List ChoicePoint → ℕ → ℕ → Advanced
advance_loop tr zero cursor = record { trail = tr; len = 0; cursor = cursor; advanced = false }
advance_loop tr (suc n) cursor =
    let last = get_or tr n no_point in
    let shorter = advance_loop tr n cursor in
    if ltb (last.chosen + 1) last.bound
    then record { trail = set tr n (bump last); len = suc n; cursor = 0; advanced = true }
    else shorter

unfoldable pub advance_trail : List ChoicePoint → ℕ → ℕ → Advanced
unfolding advance_loop
advance_trail tr len cursor = advance_loop tr (min len cursor) cursor

unfoldable pub new : ChoiceCtl
new = record { trail = []; cursor = 0 }

unfoldable pub choose : ChoiceCtl → ℕ → Option ℕ × ChoiceCtl
choose c bound =
    if bound == 0
    then (none, c)
    else let trail' =
        if ltb c.cursor (length c.trail)
        then c.trail
        else c.trail ++ (record { bound = bound; chosen = 0 }) ∷ [] in
      (
        some (get_or trail' c.cursor no_point).chosen,
        record { trail = trail'; cursor = c.cursor + 1 },
      )

unfoldable pub advance : ChoiceCtl → ChoiceCtl × Bool
unfolding advance_trail
advance c =
    let r = advance_trail c.trail (length c.trail) c.cursor in
    (record { trail = take r.len r.trail; cursor = r.cursor }, r.advanced)

unfoldable pub visited : ChoiceCtl → ℕ
visited c = c.cursor
