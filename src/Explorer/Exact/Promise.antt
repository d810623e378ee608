-- ===== src/Explorer/Exact/Promise.antt =====
-- What each result of the exact search promises of the spec.
use inquint.Prelude.{ℕ, ◌≤◌, ◌<◌, ◌≡◌, ◌≢◌, ◌⊎◌, true}
use inquint.Prelude.{Option, none, some, List, [], Result, ok, err, ◌>>=◌}
use inquint.State.Arena.{State}
use inquint.Successor.{enumerate}
use inquint.Explorer.{CompiledSpec, CheckConfig, Return, Steps, pass}
use inquint.Explorer.{invariant_violation, deadlocked, incomplete, check_invs, reached}
use inquint.Explorer.Relations.{Reach, Trace}

-- A depth that the search looks at.
abbrev pub InBound : Option ℕ → ℕ → Type 0
InBound none n = Unit {0}
InBound (some max) n = n ≤ max

module _ (spec : CompiledSpec) (cfg : CheckConfig) where
  -- All states reached in fewer than `n` steps satisfy the invariants.
  abbrev pub GoodBelow : ℕ → Type 0
  GoodBelow n = (m : ℕ) (s : State) → Reach spec m s → m < n → check_invs spec s ≡ ok none

  -- The step from `s` is evaluated without an error, and `s` is no deadlock if those count.
  abbrev pub Moves : State → Type 0
  Moves s = (ss : List State) × (enumerate (spec.step s) ≡ ok ss) × (cfg.deadlock ≡ true → ss ≢ [])

  abbrev pub MovesBelow : ℕ → Type 0
  MovesBelow n = (m : ℕ) (s : State) → Reach spec m s → m < n → Moves s

  -- The trace is a path from an initial state to `s`, of `n` steps.
  abbrev pub LeadsTo : Steps → ℕ → State → Type 0
  LeadsTo steps n s = (path : List State) × (steps ≡ some path) × Trace spec n s path

  abbrev pub Promise : Return → Type 0
  Promise (ok (pass states max_depth scope assurance)) =
      (n : ℕ) (s : State)
      → Reach spec n s
      → InBound cfg.max_steps n
      → (check_invs spec s ≡ ok none) × Moves s
  Promise (ok (invariant_violation name steps)) =
      (n : ℕ) × (s : State) × LeadsTo steps n s × (check_invs spec s ≡ ok (some name)) × GoodBelow n
  Promise (ok (deadlocked steps)) =
      (n : ℕ) × (s : State) × LeadsTo steps n s
      × (enumerate (spec.step s) ≡ ok [])
      × (cfg.deadlock ≡ true)
      × MovesBelow n
  Promise (ok (incomplete states)) = reached cfg.max_states states ≡ true
  Promise (err e) =
      (enumerate spec.init ≡ err e.error) × (e.trace ≡ some [])
      ⊎ ((n : ℕ) × (s : State) × LeadsTo e.trace n s
          × ((check_invs spec s ≡ err e.error) ⊎ (enumerate (spec.step s) ≡ err e.error)))

  -- A part of the search either returns, and keeps the promise, or goes on in a state with `Q`.
  abbrev pub Ensures : {S : Type 0} → (S → Type 0) → Result Return S → Type 0
  Ensures Q (err r) = Promise r
  Ensures Q (ok st) = Q st

  pub Ensures-bind :
      {S : Type 0} (Q R : S → Type 0) (m : Result Return S) (f : S → Result Return S)
      → Ensures Q m
      → ((st : S) → Q st → Ensures R (f st))
      → Ensures R (m >>= f)
  Ensures-bind Q R (err r) f h k = h
  Ensures-bind Q R (ok st) f h k = k st h

  pub Ensures-map :
      {S : Type 0} (Q R : S → Type 0) (m : Result Return S)
      → ((st : S) → Q st → R st)
      → Ensures Q m
      → Ensures R m
  Ensures-map Q R (err r) k h = h
  Ensures-map Q R (ok st) k h = k st h
