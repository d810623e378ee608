-- ===== src/Explorer/Relations.antt =====
-- The transition system that a spec denotes.
use inquint.Prelude.{ℕ, zero, suc, ◌≡◌, List, [], ◌∷◌, ◌++◌, ◌∈◌, ok}
use inquint.State.Arena.{State}
use inquint.Successor.{enumerate}
use inquint.Explorer.{CompiledSpec}

module _ (spec : CompiledSpec) where
  abbrev pub Initial : State → Type 0
  Initial s = (ss : List State) × (enumerate spec.init ≡ ok ss) × (s ∈ ss)

  abbrev pub Next : State → State → Type 0
  Next s t = (ss : List State) × (enumerate (spec.step s) ≡ ok ss) × (t ∈ ss)

  -- `s` is reached from an initial state in `n` steps.
  pub data Reach : ℕ → State → Type 0 where
    start : {s : State} → Initial s → Reach zero s
    next : {n : ℕ} {s t : State} → Reach n s → Next s t → Reach (suc n) t

  -- The states of such a path, `s` the last.
  pub data Trace : ℕ → State → List State → Type 0 where
    root : {s : State} → Initial s → Trace zero s (s ∷ [])
    more :
        {n : ℕ} {s t : State} {path : List State}
        → Trace n s path
        → Next s t
        → Trace (suc n) t (path ++ t ∷ [])
