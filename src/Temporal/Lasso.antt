-- ===== src/Temporal/Lasso.antt =====
-- inquint/src/temporal/validate.rs: the value of a formula at each position of a lasso.
mod Tests
pub mod Rounds
pub mod Meaning
use inquint.Prelude.{
  ℕ, zero, suc, ◌+◌, Bool, true, false, not, ◌&&◌, ◌||◌, Option, none, some, List, [], ◌∷◌, map,
  ltb, get_or, set, length, if◌then◌else◌,
}
use inquint.Temporal.Ltl.{Ltl, Ltls}

-- The valuation of the atoms along `n` positions, of which the last is followed by `loop_index`.
pub record LassoAtoms : Type 0 where
  pub n : ℕ
  pub loop_index : ℕ
  pub state_atom : ℕ → ℕ → Bool
  pub edge_atom : ℕ → ℕ → Bool

-- `vec![b; n]` and `(0..n).map(f).collect()`, from the position `i` on.
unfoldable pub tabulate : (ℕ → Bool) → ℕ → ℕ → List Bool
tabulate f i zero = []
tabulate f i (suc n) = f i ∷ tabulate f (i + 1) n

-- `v[i]`; no index that the code uses is out of range.
abbrev pub at_position : List Bool → ℕ → Bool
at_position v i = get_or v i false

abbrev pub all_at : List (List Bool) → ℕ → Bool
all_at [] i = true
all_at (v ∷ vs) i = at_position v i && all_at vs i

abbrev pub any_at : List (List Bool) → ℕ → Bool
any_at [] i = false
any_at (v ∷ vs) i = at_position v i || any_at vs i

-- The step of the loop of `Always`, where `false` is the value that spreads, and of `Eventually`,
-- where `true` is.
unfoldable pub combine : Bool → Bool → Bool → Bool
combine false x y = x && y
combine true x y = x || y

abbrev pub differs : Bool → Bool → Bool
differs true b = not b
differs false b = b

module _ (w : LassoAtoms) where
  unfoldable pub succ : ℕ → ℕ
  succ i = if ltb (i + 1) w.n then i + 1 else w.loop_index

  -- One round over the positions below `k`, from the last one down: the vector and `changed`.
  unfoldable pub round : Bool → List Bool → ℕ → List Bool → Bool → List Bool × Bool
  round b inner zero v changed = (v, changed)
  round b inner (suc i) v changed =
      let nv = combine b (at_position inner i) (at_position v (succ i)) in
      round b inner i (set v i nv) (differs nv (at_position v i) || changed)

  -- The loop, with one unit of fuel for each round.
  unfoldable pub iterate : Bool → List Bool → ℕ → List Bool → Option (List Bool)
  iterate b inner zero v = none
  iterate b inner (suc fuel) v =
      let r = round b inner w.n v false in
      let again = iterate b inner fuel r.0 in if r.1 then again else some r.0

  abbrev pub and_then {ℓ κ} : {A : Type ℓ} {B : Type κ} → Option A → (A → Option B) → Option B
  and_then none f = none
  and_then (some v) f = f v

  unfoldable mutual
    pub eval : Ltl → Option (List Bool)
    eval Ltl.truth = some (tabulate (λ i. true) 0 w.n)
    eval Ltl.falsity = some (tabulate (λ i. false) 0 w.n)
    eval (Ltl.state_atom a) = some (tabulate (w.state_atom a) 0 w.n)
    eval (Ltl.edge_atom a) = some (tabulate (w.edge_atom a) 0 w.n)
    eval (Ltl.negation p) = and_then (eval p) (λ v. some (map not v))
    eval (Ltl.conjunction ps) = and_then (evals ps) (λ vs. some (tabulate (all_at vs) 0 w.n))
    eval (Ltl.disjunction ps) = and_then (evals ps) (λ vs. some (tabulate (any_at vs) 0 w.n))
    eval (Ltl.always p) =
        and_then (eval p) (λ v. iterate false v (suc w.n) (tabulate (λ i. true) 0 w.n))
    eval (Ltl.eventually p) =
        and_then (eval p) (λ v. iterate true v (suc w.n) (tabulate (λ i. false) 0 w.n))

    pub evals : Ltls → Option (List (List Bool))
    evals Ltls.nil = some []
    evals (Ltls.cons p ps) = and_then (eval p) (λ v. and_then (evals ps) (λ vs. some (v ∷ vs)))

  -- At the first position.
  unfoldable pub holds : Ltl → Option Bool
  holds f = and_then (eval f) (λ v. some (at_position v 0))
