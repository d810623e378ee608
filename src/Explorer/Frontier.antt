-- ===== src/Explorer/Frontier.antt =====
-- `FlatFrontier` of inquint/src/explorer.rs: the queue of the fingerprint search, whose states lie
-- one behind the other in one ring buffer.
pub mod Fifo
mod Tests
use inquint.Prelude.{ℕ, suc, ◌+◌, ◌%◌, Option, none, some, List, [], ◌∷◌, ◌++◌, length, take, drop}
use inquint.State.Arena.{Value, State, u32_mod}

pub record FlatFrontier : Type 0 where
  pub n_vars : ℕ
  pub data_ : List Value
  pub depths : List ℕ
  pub pop_idx : ℕ

unfoldable pub new : ℕ → FlatFrontier
new n = record { n_vars = n; data_ = []; depths = []; pop_idx = 0 }

unfoldable pub push : FlatFrontier → State → ℕ → FlatFrontier
push q s d = record q { data_ = q.data_ ++ s; depths = q.depths ++ d ∷ [] }

-- The buffer afterwards, the state that `buf` holds, its discovery index and its depth.
unfoldable pub pop : FlatFrontier → Option (FlatFrontier × State × ℕ × ℕ)
pop q = elim q.depths [
  | [] ↦ none
  | d ∷ ds ↦ some (
    record q { data_ = drop q.n_vars q.data_; depths = ds; pop_idx = (q.pop_idx + 1) % u32_mod },
    take q.n_vars q.data_,
    q.pop_idx,
    d,
  )
]

unfoldable pub len : FlatFrontier → ℕ
len q = length q.depths
