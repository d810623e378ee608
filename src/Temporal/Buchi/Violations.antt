-- ===== src/Temporal/Buchi/Violations.antt =====
-- What the automaton of a negated property, of inquint/src/temporal/buchi.rs, accepts in a graph.
use inquint.Prelude.{◌≡◌, ◌≤◌, ◌↔◌, true, ok}
use mathlib.Core.Logic.Iff
use inquint.Temporal.Ltl.{Ltl, nnf}
use inquint.Temporal.Semantics.{Holds}
use inquint.Temporal.NnfMeaning.{NoEmptyOr, nnf_meaning}
use inquint.Temporal.Graph.{StateGraph}
use inquint.Temporal.Safety.Behaviours.{Behaviour, word_of}
use inquint.Temporal.Buchi.{Gba, n_nodes, init_id, build_gba}
use inquint.Temporal.Buchi.Accepting.{Accepts}
use inquint.Temporal.Buchi.Language.{gba_language}

-- Where no disjunction of a property is empty and `build_gba` gives an automaton, with at most
-- 2^32 - 1 nodes, for its negated normal form, the automaton accepts an infinite path of the state
-- graph iff the path violates the property.
pub violation_language :
    (f : Ltl) (a : Gba) (g : StateGraph) (b : Behaviour g)
    → NoEmptyOr f
    → build_gba (nnf f true) ≡ ok a
    → n_nodes a ≤ init_id
    → Accepts a (word_of g b) ↔ (¬ Holds (word_of g b) f 0)
violation_language f a g b h built few =
    Iff.trans (gba_language (nnf f true) a (word_of g b) built few)
      (nnf_meaning (word_of g b) f 0 h).1
