-- ===== src/Lib.antt =====
-- inquint, an explicit-state model checker for Quint, as far as it is verified.
--
-- The program enumerates the runs of an action by replaying a trail of choices
-- (inquint/src/choice.rs), collects the successor states of a state (inquint/src/successor.rs),
-- stores explored states in a flat arena with a hash table over it (inquint/src/state.rs), and
-- searches the state space breadth first (inquint/src/explorer.rs). Temporal properties are
-- formulas that are negated, put into normal form and looked for in the state graph
-- (inquint/src/temporal).
--
-- Files:
-- Prelude and its children: names and lemmas on numbers, lists, options and results; Prelude.Int:
--   signed integers.
-- Errors: `QuintError` of inquint/src/error.rs.
-- Order: `sort_unstable`, `dedup` and `BTreeSet::insert` over an ordered type, and the derived
--   orders of numbers, options and vectors; Order.Canonical: sorted without repetition;
--   Order.BinarySearch: `binary_search_by`.
-- Value: `ValueData` of inquint/src/value.rs. Value.Compare: `value_cmp`, with the order as an
--   instance of the interface of Order; Value.Build: sets and maps from elements; Value.Search:
--   the binary search of sorted containers; Value.Construct: constructors and accessors;
--   Value.Sets: `cardinality` and `bounds`; Value.Pick: `pick`, `enumerate` and `normalize`;
--   Value.Member: `value_eq`, `contains` and `subseteq`; Value.Update: `map_update_cached`. The
--   proofs are in their children and in Value.Canonical.
-- Eval: inquint/src/eval/builtins_eager.rs. Eval.Arith, Eval.Lists, Eval.SetOps and Eval.Maps
--   have the operators, Eval.Dispatch has `eager_op`.
-- Choice: `ChoicePoint`, `ChoiceCtl`, `advance_trail`, `choose`, `advance`. Choice.Tree has what
--   an evaluation is to the rest of the program, a tree whose nodes are calls of `choose`, and
--   the loop `for_each_run` that `enumerate` and `enumerate_partial_inner` share. Choice.Advance
--   reads `advance` as the increment of a numeral, Choice.Complete shows what the loop visits.
-- State.Arena: `StateArena`; State.Table: what the hash table of the hashbrown crate does, as a
--   record of operations and laws; State.Seen: `SeenSet::insert_or_get` and `FpSet`.
-- Successor: `enumerate`, `enumerate_partial`, `SubActionRuns`, and `take_next_state` and
--   `take_partial` of inquint/src/vm/mod.rs.
-- Explorer: `CheckConfig`, `CheckOutcome`, `check_invs`; Explorer.Relations: the transition
--   system of a spec; Explorer.Invariants: what a check of the invariants says of each;
--   Explorer.Exact: `check_exact`, with the proof in its children. Explorer.Frontier:
--   `FlatFrontier`, the queue of the fingerprint search.
-- Temporal.Ltl: inquint/src/temporal/ltl.rs; Temporal.Semantics: the meaning of formulas on
--   infinite words; Temporal.NnfMeaning: the meaning of normal forms; Temporal.Graph:
--   `StateGraph` of inquint/src/temporal/graph.rs; Temporal.Safety:
--   inquint/src/temporal/safety.rs; Temporal.Lasso: inquint/src/temporal/validate.rs.
--   Temporal.Buchi: `build_gba` of inquint/src/temporal/buchi.rs; of its children, Arms, Sound
--   and Runs show that accepting runs model the formula, ArmsComplete, Complete and Follow that a
--   word that the formula holds on has one, Edges, Labels and Assembly read the automaton, and
--   Subformulas, Ascending, ArmsReady, NodesReady and Total bound the expansion.
--   Temporal.Expansion: the expansion laws of until and release. Temporal.Product:
--   inquint/src/temporal/product.rs; of its children, Ids is about the cut of ids, Loop and Seeds show
--   what the product contains, Paths that its infinite paths are those of the graph with a run of
--   the automaton. Temporal.Witness: `bfs_path` of inquint/src/temporal/witness.rs.
-- Slab: `locate` of quint-ast/src/slab.rs.
-- Reference: the oracle of the reference implementation, inquint-reference/src/choice.rs;
--   Reference.Successor: its `enumerate`, inquint-reference/src/successor.rs.
--
-- Bounds and fuel: the limit on the runs of one transition is the source's, 2^24. The loop of
-- `check_exact` takes one unit of fuel for each state that leaves the queue; the length of any
-- finite list in which all executions stay is enough, and that such a list is shorter than the
-- number of ids (2^32 - 1) is a hypothesis. The loop of `trace` gets as much fuel as the arena
-- has states, which is enough as each parent stands before its child. Ids of states and depths
-- are cut to 32 bits as in the source.
--
-- The loops of `Always` and `Eventually` get one round more than the lasso has positions, which
-- is enough as each round but the last changes a position for good.
--
-- The expansion of the tableau gets a level of recursion for each formula of a node and two more,
-- for each two sets of subformulas, which is enough as no node has the sets of another and a
-- formula is treated once for a node. The worklist of the product gets a unit for each pair of a
-- state and a node of the automaton, and the queue of `bfs_path` one for each node. Ids of the
-- product's nodes are cut to 32 bits as in the source; those of the automaton are not.
--
-- The loop of the enumeration of a set gets as much fuel as the set has elements, and the merge
-- of two slices is by recursion. Integers are those of `i64`, and an operation whose exact result
-- does not fit is an error, as in the source. A panic is an error value of its own.
--
-- In Value an interned value is the tree that its id stands for; strings are their places in the
-- order of names. In State and the modules that use it a value is its id.
--
-- Not modelled: the evaluator (an evaluation is a tree of choices and is deterministic; loading
-- the current state and resetting the next one are the choice of the tree), the store of interned
-- values and the order keys that it caches, hash functions (parameters), names and messages,
-- progress reports, the panic of the order of values on lambdas and symbolic forms (the order
-- goes on by structure), the enumeration of a symbolic form that is picked out of a container (an
-- error here), the assertion that an arena has variables, the fingerprint and the parallel
-- search, the search for fair components of the product, the assembly of its witness, and the
-- parser.
pub mod Prelude
pub mod Choice
pub mod Order
pub mod State
pub mod Successor
pub mod Explorer
pub mod Temporal
pub mod Errors
pub mod Eval
pub mod Reference
pub mod Slab
pub mod Value
