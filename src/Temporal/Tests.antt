-- ===== src/Temporal/Tests.antt =====
-- A formula on a word, and an empty disjunction.
use inquint.Prelude.{zero, suc, ◌≡◌, refl, ◌↔◌, true, false}
use inquint.Temporal.Ltl.{Ltl, Ltls, Nnf, nnf, fold_binary, until, release, both, lit, state}
use inquint.Temporal.Semantics.{Word, Holds, Models}
use inquint.Temporal.NnfMeaning.{NoEmptyOr, nnf_meaning}

-- `p leadsTo q`
abbrev leads_to : Ltl
leads_to = Ltl.always (
    Ltl.disjunction (
      Ltls.cons (Ltl.negation (Ltl.state_atom 0))
        (Ltls.cons (Ltl.eventually (Ltl.state_atom 1)) Ltls.nil)))

nnf_negates_leads_to :
    nnf leads_to true
    ≡ until Nnf.truth (
        both
          (lit (record { atom = state 0; pos = true }))
          (release Nnf.falsity (lit (record { atom = state 1; pos = false }))))
unfolding nnf
nnf_negates_leads_to = refl

-- Atom 0 holds first, and atom 1 from then on.
abbrev word : Word
word = record {
  state_at = λ a i. elim a [
    | zero ↦ elim i [ zero ↦ true | suc k ↦ false ]
    | suc b ↦ elim i [ zero ↦ false | suc k ↦ true ]
  ];
  edge_at = λ a i. false;
}

leads_to-NoEmptyOr : NoEmptyOr leads_to
unfolding NoEmptyOr
leads_to-NoEmptyOr = (tt, (tt, (tt, tt)))

nnf_meaning_example :
    (Models word (nnf leads_to false) 0 ↔ Holds word leads_to 0)
    × (Models word (nnf leads_to true) 0 ↔ (¬ Holds word leads_to 0))
nnf_meaning_example = nnf_meaning word leads_to 0 leads_to-NoEmptyOr

-- The constant that an empty conjunction starts with.
nnf_empty_disjunction :
    (nnf (Ltl.disjunction Ltls.nil) false ≡ Nnf.truth)
    × (nnf (Ltl.disjunction Ltls.nil) true ≡ Nnf.falsity)
unfolding nnf fold_binary
nnf_empty_disjunction = (refl, refl)
