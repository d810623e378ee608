-- ===== src/Explorer/Exact/Correct.antt =====
-- `check_exact` on a finite state space: it ends, and each of its results is right.
use inquint.Prelude.{ℕ, suc, ◌≤◌, ◌≡◌, ◌≢◌, refl, subst, ap, ◌⊎◌, true}
use inquint.Prelude.{Option, some, List, [], ◌∷◌, length, length-append, ◌∈◌, ok, err, arith}
use inquint.Prelude.{inl, inr}
use native.Mathlib.Decide.{dec_lt}
use inquint.State.Arena.{State}
use inquint.State.Table.{HashTable}
use inquint.Successor.{enumerate}
use inquint.Explorer.{
  CompiledSpec, CheckConfig, CheckError, Return, Steps, pass, SearchScope, Assurance,
}
use inquint.Explorer.{invariant_violation, deadlocked}
use inquint.Explorer.Invariants.{
  Named, AllHold, FirstFails, FirstErrs, check_invs-AllHold, check_invs-FirstFails,
  check_invs-FirstErrs,
}
use inquint.Explorer.Relations.{Reach, Trace, root, more}
use inquint.Explorer.Exact.{check_exact}
use inquint.Explorer.Exact.Invariant.{IsClosed}
use inquint.Explorer.Exact.Promise.{InBound, Promise, LeadsTo}
use inquint.Explorer.Exact.Total.{check_exact-Kept}

module _ (H : HashTable) (hash_state : State → ℕ) (spec : CompiledSpec) (cfg : CheckConfig)
    (universe : List State) (closed : IsClosed spec universe) where
  abbrev result : Option Return
  result = check_exact H hash_state spec cfg (length universe)

  kept : (r : Return) → result ≡ some r → Promise spec cfg r
  kept r e =
      let (r', e', promise) = check_exact-Kept H hash_state spec cfg universe closed in
      let same : r' ≡ r = cc in subst (Promise spec cfg) same promise

  -- For a spec with a finite closed universe of states (`IsClosed`), the search ends within one
  -- round for each state of the universe.
  pub check_exact_ends : (r : Return) × (result ≡ some r)
  check_exact_ends =
      let (r, e, promise) = check_exact-Kept H hash_state spec cfg universe closed in (r, e)

  -- For a spec with a finite closed universe of states (`IsClosed`): if the search passes, at
  -- every state that can be reached within the bound on the steps each invariant of the spec
  -- evaluates to true, and the step is evaluated without an error.
  pub check_exact_pass :
      {states max_depth : ℕ} {scope : SearchScope} {assured : Assurance}
      → result ≡ some (ok (pass states max_depth scope assured))
      → {n : ℕ} {s : State} → Reach spec n s
      → InBound cfg.max_steps n
      → AllHold spec s × ((ss : List State) × (enumerate (spec.step s) ≡ ok ss))
  check_exact_pass e {n} {s} r b =
      let (good, moves) = kept _ e n s r b in (check_invs-AllHold spec s good, (moves.0, moves.1))

  -- For a spec with a finite closed universe: if the search passes and deadlocks count, no state
  -- reached within the bound is a deadlock.
  pub check_exact_pass_moves :
      {states max_depth : ℕ} {scope : SearchScope} {assured : Assurance}
      → result ≡ some (ok (pass states max_depth scope assured))
      → cfg.deadlock ≡ true
      → {n : ℕ} {s : State} → Reach spec n s
      → InBound cfg.max_steps n
      → enumerate (spec.step s) ≢ ok []
  check_exact_pass_moves e counts {n} {s} r b stuck =
      let (good, (ss, e', moves)) = kept _ e n s r b in
      moves counts (let same : ss ≡ [] = cc in same)

  -- For a spec with a finite closed universe, a reported violation is real: the trace is a path
  -- of the spec from an initial state to a state at which an invariant of the reported name
  -- evaluates to false and every invariant before it in the list to true.
  pub check_exact_violation :
      {name : ℕ} {steps : Steps}
      → result ≡ some (ok (invariant_violation name steps))
      → (n : ℕ) × (s : State) × LeadsTo spec cfg steps n s × FirstFails spec name s
  check_exact_violation e =
      let (n, s, leads, bad, below) = kept _ e in (n, s, leads, check_invs-FirstFails spec s bad)

  length-Trace : {n : ℕ} {s : State} {path : List State} → Trace spec n s path → length path ≡ suc n
  length-Trace (root first) = refl
  length-Trace (more {t} {path} way step) =
      omega (arith, length-append path (t ∷ []), length-Trace way)

  -- For a spec with a finite closed universe, a reported violation is shortest: no state at
  -- which some invariant of the spec does not evaluate to true is reached by a path with fewer
  -- states than the trace has.
  pub check_exact_shortest :
      {name : ℕ} {path : List State}
      → result ≡ some (ok (invariant_violation name (some path)))
      → {m : ℕ} {t : State} → Reach spec m t
      → (inv : Named) → inv ∈ spec.invariants
      → inv.1 t ≢ ok true
      → length path ≤ suc m
  check_exact_shortest {path} e {m} {t} r inv listed bad =
      let (n, s, (path', same, way), violated, below) = kept _ e in
      let e' : path ≡ path' = cc in
      elim (dec_lt m n) [
        | yes earlier ↦ absurd (bad (check_invs-AllHold spec t (below m t r earlier) inv listed))
        | no late ↦ omega (arith, ap length e', length-Trace way)
      ]

  -- For a spec with a finite closed universe, a reported deadlock is real: the trace is a path of
  -- the spec from an initial state to a state whose step has no successors, and deadlocks count.
  pub check_exact_deadlock :
      {steps : Steps}
      → result ≡ some (ok (deadlocked steps))
      → (n : ℕ) × (s : State) × LeadsTo spec cfg steps n s
        × (enumerate (spec.step s) ≡ ok [])
        × (cfg.deadlock ≡ true)
  check_exact_deadlock e =
      let (n, s, leads, stuck, counts, below) = kept _ e in (n, s, leads, stuck, counts)

  -- For a spec with a finite closed universe, a reported error is that of the initial action,
  -- with an empty trace, or the trace is a path of the spec from an initial state to a state at
  -- which the step ends in the error, or the first invariant that is not true does.
  pub check_exact_error :
      {e : CheckError}
      → result ≡ some (err e)
      → (enumerate spec.init ≡ err e.error) × (e.trace ≡ some [])
        ⊎ ((n : ℕ) × (s : State) × LeadsTo spec cfg e.trace n s
            × (FirstErrs spec e.error s ⊎ (enumerate (spec.step s) ≡ err e.error)))
  check_exact_error e = elim (kept _ e) [
    | inl start ↦ inl start
    | inr (n, s, leads, inl at_inv) ↦ inr (n, s, leads, inl (check_invs-FirstErrs spec s at_inv))
    | inr (n, s, leads, inr at_step) ↦ inr (n, s, leads, inr at_step)
  ]
