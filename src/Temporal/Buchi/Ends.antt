-- ===== src/Temporal/Buchi/Ends.antt =====
-- How `build_gba` in inquint/src/temporal/buchi.rs can end.
use inquint.Prelude.{
  ℕ, ◌+◌, ◌≡◌, refl, ap, ◌∙◌, inl, inr, ◌⊎◌, List, [], ◌∷◌, Option-cases, Result, ok, err, ◌>>=◌,
}
use inquint.Temporal.Ltl.{Nnf}
use inquint.Temporal.Buchi.{
  Builder, Failure, not_interned, find_id, acc_sets_from, tableau, finish, build_gba,
}
use inquint.Temporal.Buchi.Total.{tableau_total}

-- A result, or the panic of the source.
abbrev pub Ends : {A : Type 0} → Result Failure A → Type 0
Ends {A} r = ((a : A) × (r ≡ ok a)) ⊎ (r ≡ err not_interned)

then-Ends :
    {A B : Type 0} (r : Result Failure A) (k : A → Result Failure B)
    → Ends r
    → ((a : A) → Ends (k a))
    → Ends (r >>= k)
then-Ends r k (inl (a, e)) h = elim (h a) [
  | inl (b, e') ↦ inl (b, ap (λ r. r >>= k) e ∙ e')
  | inr e' ↦ inr (ap (λ r. r >>= k) e ∙ e')
]
then-Ends r k (inr e) h = inr (ap (λ r. r >>= k) e)

acc_sets_from-Ends : (b : Builder) (fid : ℕ) (fs : List Nnf) → Ends (acc_sets_from b fid fs)
unfolding acc_sets_from
acc_sets_from-Ends b fid [] = inl ([], refl)
acc_sets_from-Ends b fid (Nnf.until a c ∷ fs) = elim (Option-cases (find_id b.formulas c)) [
  | inl e ↦ inr (rw (acc_sets_from, e) refl)
  | inr (p, e) ↦
      rw (acc_sets_from, e)
        (then-Ends (acc_sets_from b (fid + 1) fs) _ (acc_sets_from-Ends b (fid + 1) fs)
          (λ sets. inl (_, refl)))
]
acc_sets_from-Ends b fid (Nnf.truth ∷ fs) = acc_sets_from-Ends b (fid + 1) fs
acc_sets_from-Ends b fid (Nnf.falsity ∷ fs) = acc_sets_from-Ends b (fid + 1) fs
acc_sets_from-Ends b fid (Nnf.lit l ∷ fs) = acc_sets_from-Ends b (fid + 1) fs
acc_sets_from-Ends b fid (Nnf.both f g ∷ fs) = acc_sets_from-Ends b (fid + 1) fs
acc_sets_from-Ends b fid (Nnf.either f g ∷ fs) = acc_sets_from-Ends b (fid + 1) fs
acc_sets_from-Ends b fid (Nnf.release f g ∷ fs) = acc_sets_from-Ends b (fid + 1) fs

-- For every formula in normal form `build_gba` ends: it gives an automaton, or it panics as the
-- right side of an until has no id. It never runs out of the model's fuel.
pub build_gba-Ends : (f : Nnf) → Ends (build_gba f)
unfolding build_gba finish
build_gba-Ends f = then-Ends (tableau f) finish (inl (tableau_total f)) (λ b.
    then-Ends (acc_sets_from b 0 b.formulas) _ (acc_sets_from-Ends b 0 b.formulas)
      (λ sets. inl (_, refl)))
