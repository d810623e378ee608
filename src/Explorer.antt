-- ===== src/Explorer.antt =====
-- What the searches of inquint/src/explorer.rs share: the compiled spec of inquint/src/spec.rs as
-- far as they use it, the configuration, the outcomes, and the check of the invariants.
pub mod Relations
pub mod Invariants
mod Tests
pub mod Frontier
pub mod Exact
use inquint.Prelude.{ℕ, suc, ◌+◌, Bool, true, false, Option, none, some, List, [], ◌∷◌, leb}
use inquint.Prelude.{if◌then◌else◌, Result, ok, err, ◌>>=◌}
use inquint.Choice.Tree.{Tree}
use inquint.State.Arena.{State}
use inquint.Successor.{Run}
use inquint.Errors.{QuintError}

-- Evaluation is deterministic: the initial action, the step from a state and an invariant at a
-- state are functions, the first two into trees of choices. An invariant has its name's number.
pub record CompiledSpec : Type 0 where
  pub n_vars : ℕ
  pub init : Tree Run
  pub step : State → Tree Run
  pub invariants : List (ℕ × (State → Result QuintError Bool))

pub record CheckConfig : Type 0 where
  pub max_steps : Option ℕ
  pub deadlock : Bool
  pub max_states : Option ℕ
  pub exact_states : Bool
  pub threads : ℕ

pub data SearchScope : Type 0 where
  exhaustive : SearchScope
  bounded : ℕ → SearchScope

pub data Assurance : Type 0 where
  exact probabilistic_fingerprint : Assurance

-- A trace is `none` if the loop that collects it does not end.
abbrev pub Steps : Type 0
Steps = Option (List State)

pub data CheckOutcome : Type 0 where
  pass : (states max_depth : ℕ) → SearchScope → Assurance → CheckOutcome
  invariant_violation : (invariant : ℕ) (trace : Steps) → CheckOutcome
  deadlocked : (trace : Steps) → CheckOutcome
  incomplete : (states : ℕ) → CheckOutcome

pub record CheckError : Type 0 where
  pub error : QuintError
  pub trace : Steps

-- What `check_exact` and `check_fp` return.
abbrev pub Return : Type 0
Return = Result CheckError CheckOutcome

unfoldable pub success_scope : CheckConfig → SearchScope
success_scope cfg = elim cfg.max_steps [ some m ↦ bounded m | none ↦ exhaustive ]

unfoldable pub assurance : CheckConfig → Assurance
assurance cfg = if cfg.exact_states then exact else probabilistic_fingerprint

-- The name of the first invariant that is false at the state.
unfoldable pub first_violated :
    List (ℕ × (State → Result QuintError Bool)) → State → Result QuintError (Option ℕ)
first_violated [] s = ok none
first_violated ((name, inv) ∷ invs) s = do
  let rest = first_violated invs s
  holds ← inv s
  if holds then rest else ok (some name)

unfoldable pub check_invs : CompiledSpec → State → Result QuintError (Option ℕ)
unfolding first_violated
check_invs spec s = first_violated spec.invariants s

-- `is_some_and(|max| n >= max)`
abbrev pub reached : Option ℕ → ℕ → Bool
reached none n = false
reached (some max) n = leb max n
