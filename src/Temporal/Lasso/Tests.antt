-- ===== src/Temporal/Lasso/Tests.antt =====
-- The lassos of the tests in inquint/src/temporal/validate.rs.
use inquint.Prelude.{◌<◌, ◌≡◌, refl, Bool, true, false, some, List, [], ◌∷◌, get_or, arith}
use inquint.Temporal.Ltl.{Ltl}
use inquint.Temporal.Lasso.{LassoAtoms, eval, holds}
use inquint.Temporal.Lasso.Meaning.{Means, eval_meaning}
use inquint.Temporal.Lasso.{combine, iterate, round, succ, tabulate}

-- p ¬p (¬p p)^ω
abbrev four : LassoAtoms
four = record {
  n = 4;
  loop_index = 2;
  state_atom = λ a i. get_or (true ∷ false ∷ false ∷ true ∷ []) i false;
  edge_atom = λ a i. false;
}

-- p (¬p)^ω
abbrev two : LassoAtoms
two = record {
  n = 2;
  loop_index = 1;
  state_atom = λ a i. get_or (true ∷ false ∷ []) i false;
  edge_atom = λ a i. false;
}

abbrev infinitely_often : Ltl
infinitely_often = Ltl.always (Ltl.eventually (Ltl.state_atom 0))

abbrev finally_always : Ltl
finally_always = Ltl.eventually (Ltl.always (Ltl.state_atom 0))

four-infinitely_often : holds four infinitely_often ≡ some true
unfolding holds eval iterate round combine tabulate succ
four-infinitely_often = refl

four-finally_always : holds four finally_always ≡ some false
unfolding holds eval iterate round combine tabulate succ
four-finally_always = refl

two-infinitely_often : holds two infinitely_often ≡ some false
unfolding holds eval iterate round combine tabulate succ
two-infinitely_often = refl

two-finally_never :
    holds two (Ltl.eventually (Ltl.always (Ltl.negation (Ltl.state_atom 0)))) ≡ some true
unfolding holds eval iterate round combine tabulate succ
two-finally_never = refl

four_inside : four.loop_index < four.n
four_inside = omega arith

eval_meaning_example :
    (v : List Bool) × ((eval four infinitely_often ≡ some v)
      × Means four four_inside infinitely_often v)
eval_meaning_example = eval_meaning four four_inside infinitely_often
