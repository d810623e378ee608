-- ===== src/Explorer/Invariants.antt =====
-- What a check of the invariants says of each of them: `check_invs` of
-- inquint/src/explorer.rs, described without it.
use inquint.Prelude.{ℕ, ◌≡◌, ◌∙◌, refl, ap, Bool, true, false, none, some, List, [], ◌∷◌}
use inquint.Prelude.{◌++◌, ◌∈◌, inl, inr, Result, ok, err, Result-cases, arith}
use inquint.State.Arena.{State}
use inquint.Errors.{QuintError}
use inquint.Explorer.{CompiledSpec, check_invs, first_violated}

abbrev pub Named : Type 0
Named = ℕ × (State → Result QuintError Bool)

-- Every invariant of the list evaluates to true at the state.
abbrev pub AllTrue : List Named → State → Type 0
AllTrue invs s = (inv : Named) → inv ∈ invs → inv.1 s ≡ ok true

abbrev pub AllHold : CompiledSpec → State → Type 0
AllHold spec s = AllTrue spec.invariants s

-- The list has an invariant of the given name that is false at the state, and all invariants
-- before it are true there.
abbrev pub FirstFalse : List Named → ℕ → State → Type 0
FirstFalse invs name s =
    (before : List Named) × (inv : State → Result QuintError Bool) × (after : List Named) × (invs
      ≡ before ++ (name, inv) ∷ after)
    × AllTrue before s
    × (inv s ≡ ok false)

abbrev pub FirstFails : CompiledSpec → ℕ → State → Type 0
FirstFails spec name s = FirstFalse spec.invariants name s

-- The evaluation of an invariant of the list ends in the error at the state, and all invariants
-- before it are true there.
abbrev pub FirstError : List Named → QuintError → State → Type 0
FirstError invs e s =
    (before : List Named) × (inv : Named) × (after : List Named) × (invs ≡ before ++ inv ∷ after)
    × AllTrue before s
    × (inv.1 s ≡ err e)

abbrev pub FirstErrs : CompiledSpec → QuintError → State → Type 0
FirstErrs spec e s = FirstError spec.invariants e s

module _ (s : State) where
  first_violated-AllTrue : (invs : List Named) → first_violated invs s ≡ ok none → AllTrue invs s
  unfolding first_violated
  first_violated-AllTrue [] h inv m = absurd m
  first_violated-AllTrue ((name, inv) ∷ invs) h other m = elim (Result-cases (inv s)) [
    | inl (true, e) ↦ elim m [
      | inl same ↦ ap (λ i. i.1 s) same ∙ e
      | inr later ↦ first_violated-AllTrue invs (rw e at h) other later
    ]
    | inl (false, e) ↦ absurd (ground (arith, rw e at h))
    | inr (x, e) ↦ absurd (ground (arith, rw e at h))
  ]

  first_violated-FirstFalse :
      (invs : List Named) (name : ℕ)
      → first_violated invs s ≡ ok (some name)
      → FirstFalse invs name s
  unfolding first_violated
  first_violated-FirstFalse [] name h = absurd (ground arith)
  first_violated-FirstFalse ((other, inv) ∷ invs) name h = elim (Result-cases (inv s)) [
    | inl (true, e) ↦
        let (before, bad, after, split, all, fails) =
          first_violated-FirstFalse invs name (rw e at h) in
        (
          (other, inv) ∷ before,
          bad,
          after,
          ap (λ l. (other, inv) ∷ l) split,
          λ i m. elim m [ inl same ↦ ap (λ i. i.1 s) same ∙ e | inr m' ↦ all i m' ],
          fails,
        )
    | inl (false, e) ↦
        let same : other ≡ name = ground (arith, rw e at h) in
        ([], inv, invs, ap (λ n. (n, inv) ∷ invs) same, λ i m. absurd m, e)
    | inr (x, e) ↦ absurd (ground (arith, rw e at h))
  ]

  first_violated-FirstError :
      (invs : List Named) (x : QuintError) → first_violated invs s ≡ err x → FirstError invs x s
  unfolding first_violated
  first_violated-FirstError [] x h = absurd (ground arith)
  first_violated-FirstError ((other, inv) ∷ invs) x h = elim (Result-cases (inv s)) [
    | inl (true, e) ↦
        let (before, bad, after, split, all, fails) =
          first_violated-FirstError invs x (rw e at h) in
        (
          (other, inv) ∷ before,
          bad,
          after,
          ap (λ l. (other, inv) ∷ l) split,
          λ i m. elim m [ inl same ↦ ap (λ i. i.1 s) same ∙ e | inr m' ↦ all i m' ],
          fails,
        )
    | inl (false, e) ↦ absurd (ground (arith, rw e at h))
    | inr (y, e) ↦
        let same : y ≡ x = ground (arith, rw e at h) in
        ([], (other, inv), invs, refl, λ i m. absurd m, e ∙ ap err same)
  ]

module _ (spec : CompiledSpec) (s : State) where
  pub check_invs-AllHold : check_invs spec s ≡ ok none → AllHold spec s
  unfolding check_invs
  check_invs-AllHold h = first_violated-AllTrue s spec.invariants h

  pub check_invs-FirstFails :
      {name : ℕ} → check_invs spec s ≡ ok (some name) → FirstFails spec name s
  unfolding check_invs
  check_invs-FirstFails h = first_violated-FirstFalse s spec.invariants _ h

  pub check_invs-FirstErrs : {e : QuintError} → check_invs spec s ≡ err e → FirstErrs spec e s
  unfolding check_invs
  check_invs-FirstErrs h = first_violated-FirstError s spec.invariants _ h
