-- ===== src/Explorer/Exact/Invariant.antt =====
-- What holds of the search whenever the body of its loop begins.
use inquint.Prelude.{ℕ, zero, suc, ◌-◌, ◌≤◌, ◌<◌, ◌≡◌, ◌≢◌, ◌⊎◌, true, false}
use inquint.Prelude.{none, List, [], ◌∷◌, ◌∈◌, length, ok}
use inquint.State.Arena
use inquint.State.Arena.{State, StateArena, no_parent}
use inquint.State.Arena.Laws.{IsFlat}
use inquint.State.Table.{HashTable}
use inquint.State.Seen.Laws.{Matches}
use inquint.Successor.{enumerate}
use inquint.Explorer.{CompiledSpec, CheckConfig, check_invs, reached}
use inquint.Explorer.Relations.{Initial, Next}
use inquint.Explorer.Exact.{Search}

-- The ids from `k` on, `n` of them.
abbrev pub ids : ℕ → ℕ → List ℕ
ids k zero = []
ids k (suc n) = k ∷ ids (suc k) n

-- A finite set of states in which all executions stay, fewer than the ids that there are.
pub record IsClosed (spec : CompiledSpec) (universe : List State) : Type 0 where
  pub initial : (s : State) → Initial spec s → s ∈ universe
  pub next : (s t : State) → s ∈ universe → Next spec s t → t ∈ universe
  pub size : (s : State) → s ∈ universe → length s ≡ spec.n_vars
  pub few : length universe < no_parent

-- `t` stands in the arena, at depth `n` or less.
abbrev pub Found : StateArena → State → ℕ → Type 0
Found a t n = (j : ℕ) × (j < Arena.len a) × (Arena.get a j ≡ t) × (Arena.depth a j ≤ n)

module _ (spec : CompiledSpec) where
  -- How state `i` came to be in the arena.
  abbrev pub Origin : StateArena → ℕ → Type 0
  Origin a i =
      (Arena.parent a i ≡ no_parent) × (Arena.depth a i ≡ 0) × Initial spec (Arena.get a i)
      ⊎ (Arena.parent a i < i)
        × (Arena.depth a i ≡ suc (Arena.depth a (Arena.parent a i)))
        × Next spec (Arena.get a (Arena.parent a i)) (Arena.get a i)

  -- No state of the arena lies deeper than `top`.
  pub record ArenaInv (universe : List State) (top : ℕ) (a : StateArena) : Type 0 where
    pub flat : IsFlat a
    pub width : a.n_vars ≡ spec.n_vars
    pub within : (i : ℕ) → i < Arena.len a → Arena.get a i ∈ universe
    pub distinct : (i j : ℕ) → i < j → j < Arena.len a → Arena.get a i ≢ Arena.get a j
    pub origin : (i : ℕ) → i < Arena.len a → Origin a i
    pub monotone : (i j : ℕ) → i ≤ j → j < Arena.len a → Arena.depth a i ≤ Arena.depth a j
    pub shallow : (i : ℕ) → i < Arena.len a → Arena.depth a i ≤ top
    pub depth_le : (i : ℕ) → i < Arena.len a → Arena.depth a i ≤ i

module _ (spec : CompiledSpec) (cfg : CheckConfig) where
  -- The successors of state `i` have been looked at.
  pub record Expanded (a : StateArena) (i : ℕ) : Type 0 where
    pub successors : List State
    pub returned : enumerate (spec.step (Arena.get a i)) ≡ ok successors
    pub moves : cfg.deadlock ≡ true → successors ≢ []
    pub admitted :
        reached cfg.max_steps (Arena.depth a i) ≡ false
        → (t : State) → t ∈ successors
        → Found a t (suc (Arena.depth a i))

  module _ (H : HashTable) (hash_state : State → ℕ) where
    -- The states below `k` were expanded, and those from `q` on wait.
    pub record Inv (universe : List State) (k q top : ℕ) (st : Search H hash_state spec cfg)
        : Type 0 where
      pub arena_inv : ArenaInv spec universe top st.arena
      pub seen_inv : Matches H hash_state st.seen st.arena
      pub begun : q ≤ Arena.len st.arena
      pub behind : k ≤ q
      pub queue : st.frontier ≡ ids q (Arena.len st.arena - q)
      pub expanded : (i : ℕ) → i < k → Expanded st.arena i
      pub good : (i : ℕ) → i < Arena.len st.arena → check_invs spec (Arena.get st.arena i) ≡ ok none
