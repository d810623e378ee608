-- ===== src/Temporal/Semantics.antt =====
-- What formulas of inquint/src/temporal/ltl.rs and their normal forms mean on an infinite word.
use inquint.Prelude.{ℕ, ◌+◌, ◌<◌, ◌≡◌, Bool, true, List, [], ◌∷◌}
use mathlib.Core.Logic.{◌∨₁◌}
use inquint.Temporal.Ltl.{Ltl, Ltls, Lit, Nnf, AtomRef}

-- The valuation of the atoms at each position; an edge atom's is that of the step out of it.
pub record Word : Type 0 where
  pub state_at : ℕ → ℕ → Bool
  pub edge_at : ℕ → ℕ → Bool

module _ (w : Word) where
  unfoldable mutual
    pub Holds : Ltl → ℕ → Type 0
    Holds Ltl.truth i = Unit {0}
    Holds Ltl.falsity i = ⊥
    Holds (Ltl.state_atom a) i = w.state_at a i ≡ true
    Holds (Ltl.edge_atom a) i = w.edge_at a i ≡ true
    Holds (Ltl.negation p) i = ¬ Holds p i
    Holds (Ltl.conjunction ps) i = AllHold ps i
    Holds (Ltl.disjunction ps) i = SomeHolds ps i
    Holds (Ltl.always p) i = (j : ℕ) → Holds p (i + j)
    Holds (Ltl.eventually p) i = ∥ ((j : ℕ) × Holds p (i + j)) ∥₁

    pub AllHold : Ltls → ℕ → Type 0
    AllHold Ltls.nil i = Unit {0}
    AllHold (Ltls.cons p ps) i = Holds p i × AllHold ps i

    pub SomeHolds : Ltls → ℕ → Type 0
    SomeHolds Ltls.nil i = ⊥
    SomeHolds (Ltls.cons p ps) i = Holds p i ∨₁ SomeHolds ps i

  unfoldable pub atom_at : AtomRef → ℕ → Bool
  atom_at (AtomRef.state a) i = w.state_at a i
  atom_at (AtomRef.edge a) i = w.edge_at a i

  abbrev pub Models : Nnf → ℕ → Type 0
  Models Nnf.truth i = Unit {0}
  Models Nnf.falsity i = ⊥
  Models (Nnf.lit l) i = atom_at l.atom i ≡ l.pos
  Models (Nnf.both a b) i = Models a i × Models b i
  Models (Nnf.either a b) i = Models a i ∨₁ Models b i
  Models (Nnf.until a b) i =
      ∥ ((j : ℕ) × Models b (i + j) × ((k : ℕ) → k < j → Models a (i + k))) ∥₁
  Models (Nnf.release a b) i =
      (j : ℕ) → Models b (i + j) ∨₁ ∥ ((k : ℕ) × (k < j) × Models a (i + k)) ∥₁

-- All the literals are true at the position.
abbrev pub LitsHold : Word → ℕ → List Lit → Type 0
LitsHold w i [] = Unit {0}
LitsHold w i (l ∷ ls) = (atom_at w l.atom i ≡ l.pos) × LitsHold w i ls
