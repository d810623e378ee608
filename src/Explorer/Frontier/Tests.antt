-- ===== src/Explorer/Frontier/Tests.antt =====
-- Two states in the frontier, and a third.
use inquint.Prelude.{ℕ, refl, List, [], ◌∷◌}
use inquint.State.Arena.{State}
use inquint.Explorer.Frontier
use inquint.Explorer.Frontier.{FlatFrontier}
use inquint.Explorer.Frontier.Fifo.{Queues, Pops, frontier_fifo}

abbrev two : FlatFrontier
two = record { n_vars = 2; data_ = 1 ∷ 2 ∷ 3 ∷ 4 ∷ []; depths = 0 ∷ 1 ∷ []; pop_idx = 5 }

abbrev entries : List (State × ℕ)
entries = (1 ∷ 2 ∷ [], 0) ∷ (3 ∷ 4 ∷ [], 1) ∷ []

two-Queues : Queues two entries
two-Queues = record { data_rows = refl; depth_rows = refl; sized = (refl, (refl, tt)) }

frontier_fifo_example :
    Queues
      (Frontier.push two (5 ∷ 6 ∷ []) 1)
      ((1 ∷ 2 ∷ [], 0) ∷ (3 ∷ 4 ∷ [], 1) ∷ (5 ∷ 6 ∷ [], 1) ∷ [])
    × Pops two entries
frontier_fifo_example = frontier_fifo two entries (5 ∷ 6 ∷ []) 1 two-Queues refl
