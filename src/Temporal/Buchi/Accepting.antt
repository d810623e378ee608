-- ===== src/Temporal/Buchi/Accepting.antt =====
-- What it is that the automaton of inquint/src/temporal/buchi.rs accepts a word.
use inquint.Prelude.{ℕ, suc, ◌+◌, ◌≡◌, List, [], ◌∈◌, get_or, Bool, true, false}
use inquint.Temporal.Semantics.{Word, LitsHold}
use inquint.Temporal.Buchi.{Gba}

-- An accepting run of the automaton on the word: it starts at an initial node, goes along edges,
-- reads the literals of its nodes and is in each acceptance set again and again.
pub record Accepting (g : Gba) (w : Word) (r : ℕ → ℕ) : Type 0 where
  pub starts : r 0 ∈ g.init
  pub steps : (i : ℕ) → r (suc i) ∈ get_or g.edges (r i) []
  pub states : (i : ℕ) → LitsHold w i (get_or g.state_lits (r i) [])
  pub leaves : (i : ℕ) → LitsHold w i (get_or g.edge_lits (r i) [])
  pub accepts :
      (s : List Bool)
      → s ∈ g.acc_sets
      → (i : ℕ) → ∥ ((k : ℕ) × (get_or s (r (i + k)) false ≡ true)) ∥₁

-- The word is in the language of the automaton.
abbrev pub Accepts : Gba → Word → Type 0
Accepts g w = ∥ ((r : ℕ → ℕ) × Accepting g w r) ∥₁
