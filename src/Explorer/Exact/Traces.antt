-- ===== src/Explorer/Exact/Traces.antt =====
-- The trace of a state of the arena is a path of the spec from an initial state to it.
use inquint.Prelude.{ℕ, zero, suc, ◌≤◌, ◌<◌, ◌≡◌, ◌∙◌, inl, inr}
use inquint.Prelude.{some, List, [], ◌∷◌, ◌++◌, append_assoc, append-nil, length, arith}
use inquint.Prelude.{pigeonhole}
use inquint.State.Arena
use inquint.State.Arena.{State, StateArena, no_parent, trace_loop}
use inquint.Explorer.{CompiledSpec}
use inquint.Explorer.Relations.{Trace, root, more}
use inquint.Explorer.Exact.Invariant.{IsClosed, ArenaInv}

module _ (spec : CompiledSpec) (universe : List State) (closed : IsClosed spec universe) (top : ℕ)
    (a : StateArena) (inv : ArenaInv spec universe top a) where
  pub len-le : Arena.len a ≤ length universe
  len-le = pigeonhole (Arena.len a) (Arena.get a) universe inv.within inv.distinct

  pub len-lt-no_parent : Arena.len a < no_parent
  len-lt-no_parent = omega (arith, len-le, closed.few)

  -- The loop collects a path to `i` in front of what it collected before.
  abbrev Collects : ℕ → List State → Type 0
  Collects i path =
      (fuel : ℕ) → i < fuel → (acc : List State) → trace_loop a fuel i acc ≡ some (path ++ acc)

  Collects-root : (i : ℕ) → Arena.parent a i ≡ no_parent → Collects i (Arena.get a i ∷ [])
  unfolding trace_loop
  Collects-root i p zero h acc = absurd (omega arith)
  Collects-root i p (suc fuel) h acc = rw p

  Collects-more :
      (i : ℕ) (path : List State)
      → i < Arena.len a
      → Arena.parent a i < i
      → Collects (Arena.parent a i) path
      → Collects i (path ++ Arena.get a i ∷ [])
  unfolding trace_loop
  Collects-more i path l lt up zero h acc = absurd (omega arith)
  Collects-more i path l lt up (suc fuel) h acc =
      rw (append_assoc path (Arena.get a i ∷ []) acc)
        (ground (arith, len-lt-no_parent, up fuel (omega arith) (Arena.get a i ∷ acc)))

  abbrev Traced : ℕ → Type 0
  Traced i =
      (path : List State) × Trace spec (Arena.depth a i) (Arena.get a i) path × Collects i path

  traced : (n i : ℕ) → i < n → i < Arena.len a → Traced i
  traced zero i h l = absurd (omega arith)
  traced (suc n) i h l = elim (inv.origin i l) [
    | inl (p, d, first) ↦ (Arena.get a i ∷ [], rw d (root first), Collects-root i p)
    | inr (p, d, step) ↦
        let (path, up, collects) = traced n (Arena.parent a i) (omega arith) (omega arith) in
        (path ++ Arena.get a i ∷ [], rw d (more up step), Collects-more i path l p collects)
  ]

  pub trace-Trace :
      (i : ℕ)
      → i < Arena.len a
      → (path : List State) × Trace spec (Arena.depth a i) (Arena.get a i) path
        × (Arena.trace a i ≡ some path)
  unfolding Arena.trace
  trace-Trace i l =
      let (path, way, collects) = traced (suc i) i (omega arith) l in
      (path, way, collects (Arena.len a) l [] ∙ rw (append-nil path))
