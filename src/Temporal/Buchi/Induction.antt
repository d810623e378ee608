-- ===== src/Temporal/Buchi/Induction.antt =====
-- Induction along the recursion of `expand` in inquint/src/temporal/buchi.rs.
use inquint.Prelude.{
  ℕ, zero, suc, ◌≡◌, refl, inl, inr, subst, sym, ◌∙◌, none, some, Option-cases, ok, ok_injective,
  bind-ok, List, [], ◌∷◌, ◌++◌, length, get_or, arith,
}
use inquint.Temporal.Ltl.{Nnf}
use inquint.Temporal.Buchi.{Ids, Builder, Call, arm, find_done, extend_incoming, run_calls, expand}

-- What holds of the arguments of a call and the builder that it gives.
abbrev pub OfCall : Type 1
OfCall = Builder → Ids → Ids → Ids → Ids → Builder → Type 0

-- The calls of an arm, one after the other.
abbrev pub Chain : OfCall → Ids → Builder → List Call → Builder → Type 0
Chain P incoming b [] b' = b ≡ b'
Chain P incoming b (c ∷ cs) b' =
    (b1 : Builder) × (P b c.new c.old c.next incoming b1 × Chain P incoming b1 cs b')

abbrev pub with_node : Builder → Ids → Ids → Ids → Builder
with_node b old next incoming = record b {
  nodes = b.nodes ++ (record { old = old; next = next; incoming = incoming }) ∷ [];
}

abbrev pub with_formulas : Builder → List Nnf → Builder
with_formulas b fs = record b { formulas = fs }

module _ (P : OfCall) where
  abbrev pub Found : Type 0
  Found =
      (b : Builder) (old next incoming : Ids) (id : ℕ)
      → find_done b.nodes old next ≡ some id
      → P b [] old next incoming (record b { nodes = extend_incoming b.nodes id incoming })

  abbrev pub Fresh : Type 0
  Fresh =
      (b : Builder) (old next incoming : Ids) (b' : Builder)
      → find_done b.nodes old next ≡ none
      → P (with_node b old next incoming) next [] [] (length b.nodes ∷ []) b'
      → P b [] old next incoming b'

  abbrev pub Treats : Type 0
  Treats =
      (b : Builder) (eta : ℕ) (new old next incoming : Ids) (b' : Builder)
      → let r = arm b.formulas eta (get_or b.formulas eta Nnf.falsity) new old next in
        Chain P incoming (with_formulas b r.0) r.1 b' → P b (eta ∷ new) old next incoming b'

  abbrev pub Runs : ℕ → Type 0
  Runs fuel =
      (b : Builder) (new old next incoming : Ids) (b' : Builder)
      → expand fuel b new old next incoming ≡ ok b'
      → P b new old next incoming b'

pub expand_fresh :
    (fuel : ℕ) (b : Builder) (old next incoming : Ids)
    → find_done b.nodes old next ≡ none
    → expand (suc fuel) b [] old next incoming
      ≡ expand fuel (with_node b old next incoming) next [] [] (length b.nodes ∷ [])
unfolding expand
expand_fresh fuel b old next incoming e = rw (expand, e) refl

pub expand_found :
    (fuel : ℕ) (b : Builder) (old next incoming : Ids) (id : ℕ)
    → find_done b.nodes old next ≡ some id
    → expand (suc fuel) b [] old next incoming
      ≡ ok (record b { nodes = extend_incoming b.nodes id incoming })
unfolding expand
expand_found fuel b old next incoming id e = rw (expand, e) refl

module _ (P : OfCall) (found : Found P) (fresh : Fresh P) (treats : Treats P) where
  calls-Chain :
      (fuel : ℕ) (incoming : Ids) (cs : List Call) (b b' : Builder)
      → Runs P fuel
      → run_calls (λ b1 c. expand fuel b1 c.new c.old c.next incoming) b cs ≡ ok b'
      → Chain P incoming b cs b'
  unfolding run_calls
  calls-Chain fuel incoming [] b b' runs h = ground arith
  calls-Chain fuel incoming (c ∷ cs) b b' runs h =
      let (b1, (e, rest)) =
        bind-ok (expand fuel b c.new c.old c.next incoming) (λ b1. run_calls _ b1 cs) b' h in
      (b1, (runs b c.new c.old c.next incoming b1 e, calls-Chain fuel incoming cs b1 b' runs rest))

  pub expand-induct : (fuel : ℕ) → Runs P fuel
  unfolding expand
  expand-induct zero b new old next incoming b' h = absurd (ground arith)
  expand-induct (suc fuel) b [] old next incoming b' h =
      elim (Option-cases (find_done b.nodes old next)) [
        | inl e ↦ fresh b old next incoming b' e (
            expand-induct fuel (with_node b old next incoming) next [] [] (length b.nodes ∷ []) b'
              (sym (expand_fresh fuel b old next incoming e) ∙ h))
        | inr (id, e) ↦
            subst (P b [] old next incoming)
              (ok_injective (sym (expand_found fuel b old next incoming id e) ∙ h))
              (found b old next incoming id e)
      ]
  expand-induct (suc fuel) b (eta ∷ new) old next incoming b' h =
      treats b eta new old next incoming b'
        (calls-Chain fuel incoming _ _ b' (expand-induct fuel) h)
