-- ===== src/Temporal/Buchi.antt =====
-- inquint/src/temporal/buchi.rs: the tableau of a formula in normal form, and its automaton.
mod Tests
pub mod Formulas
pub mod Arms
pub mod Induction
pub mod Growth
pub mod Sound
pub mod Distinct
pub mod Runs
pub mod ArmsComplete
pub mod Complete
pub mod Follow
pub mod Edges
pub mod Labels
pub mod Accepting
pub mod Assembly
pub mod Language
pub mod Ascending
pub mod Subformulas
pub mod ArmsReady
pub mod NodesReady
pub mod Total
pub mod Ends
pub mod Shape
pub mod Violations
use inquint.Prelude.{
  ℕ, zero, suc, ◌+◌, ◌*◌, ◌^◌, Bool, true, false, not, ◌&&◌, ◌||◌, Option, none, some, List, [],
  ◌∷◌, ◌++◌, length, map, get_or, set, ◌==◌, if◌then◌else◌,
}
use inquint.Prelude.{Result, ok, err, ◌>>=◌}
use inquint.Order.Sort.{set_insert}
use inquint.Order.Instances.{nat_ordered}
use inquint.Temporal.Ltl.{AtomRef, Lit, negated, Nnf}

-- `BTreeSet<FormulaId>` and `BTreeSet<u32>`: the ascending list.
abbrev pub Ids : Type 0
Ids = List ℕ

-- `INIT`, the source of the edges to the initial nodes.
unfoldable pub init_id : ℕ
init_id = 4294967295

pub record Gba : Type 0 where
  pub init : List ℕ
  pub edges : List (List ℕ)
  pub state_lits : List (List Lit)
  pub edge_lits : List (List Lit)
  pub acc_sets : List (List Bool)

unfoldable pub n_nodes : Gba → ℕ
n_nodes a = length a.edges

-- One entry of `old_sets`, `next_sets` and `incoming`.
pub record Node : Type 0 where
  pub old : Ids
  pub next : Ids
  pub incoming : Ids

-- The maps `ids` and `done_index` are the inverses of `formulas` and of the sets of `nodes`.
pub record Builder : Type 0 where
  pub formulas : List Nnf
  pub nodes : List Node

-- `out_of_fuel` is the model's; `not_interned` is the panic of `expect("interned")`.
pub data Failure : Type 0 where
  out_of_fuel not_interned : Failure

abbrev pub atom_eq : AtomRef → AtomRef → Bool
atom_eq (AtomRef.state i) (AtomRef.state j) = i == j
atom_eq (AtomRef.edge i) (AtomRef.edge j) = i == j
atom_eq a b = false

abbrev pub bool_eq : Bool → Bool → Bool
bool_eq true b = b
bool_eq false b = not b

unfoldable pub nnf_eq : Nnf → Nnf → Bool
nnf_eq Nnf.truth Nnf.truth = true
nnf_eq Nnf.falsity Nnf.falsity = true
nnf_eq (Nnf.lit l) (Nnf.lit m) = atom_eq l.atom m.atom && bool_eq l.pos m.pos
nnf_eq (Nnf.both a b) (Nnf.both c d) = nnf_eq a c && nnf_eq b d
nnf_eq (Nnf.either a b) (Nnf.either c d) = nnf_eq a c && nnf_eq b d
nnf_eq (Nnf.until a b) (Nnf.until c d) = nnf_eq a c && nnf_eq b d
nnf_eq (Nnf.release a b) (Nnf.release c d) = nnf_eq a c && nnf_eq b d
nnf_eq f g = false

-- `ids.get(f)`
unfoldable pub find_id : List Nnf → Nnf → Option ℕ
find_id [] f = none
find_id (g ∷ fs) f =
    let rest = find_id fs f in
    if nnf_eq g f then some 0 else elim rest [ none ↦ none | some i ↦ some (suc i) ]

-- `Builder::intern`, on the formulas: the formulas and the id.
unfoldable pub intern : List Nnf → Nnf → List Nnf × ℕ
intern fs f = elim (find_id fs f) [ some i ↦ (fs, i) | none ↦ (fs ++ f ∷ [], length fs) ]

unfoldable pub has_id : Ids → ℕ → Bool
has_id [] i = false
has_id (j ∷ js) i = if j == i then true else has_id js i

-- `if !old.contains(&i) { new.insert(i); }`
unfoldable pub insert_unless : Ids → ℕ → Ids → Ids
insert_unless old i new = if has_id old i then new else set_insert i new

-- The arguments of a recursive call of `expand`, but for `incoming`, which goes on unchanged.
pub record Call : Type 0 where
  pub new : Ids
  pub old : Ids
  pub next : Ids

-- `old` contains the negated literal.
unfoldable pub contradicts : List Nnf → Ids → Lit → Bool
contradicts fs old l = elim (find_id fs (Nnf.lit (negated l))) [
  | none ↦ false
  | some i ↦ has_id old i
]

-- The match of `expand` on the formula with the id `eta`, which is taken from `new`: the formulas
-- with those that the arm interns, and the recursive calls of the arm in their order.
unfoldable pub arm : List Nnf → ℕ → Nnf → Ids → Ids → Ids → List Nnf × List Call
unfolding intern
arm fs eta Nnf.truth new old next =
    (fs, (record { new = new; old = set_insert eta old; next = next }) ∷ [])
arm fs eta Nnf.falsity new old next = (fs, [])
arm fs eta (Nnf.lit l) new old next = (
  fs,
  if contradicts fs old l
      then []
      else ((record { new = new; old = set_insert eta old; next = next }) ∷ []),
)
arm fs eta (Nnf.both a b) new old next =
    let (fs1, ia) = intern fs a in
    let (fs2, ib) = intern fs1 b in
    (
      fs2,
      (record {
        new = insert_unless old ib (insert_unless old ia new);
        old = set_insert eta old;
        next = next;
      })
          ∷ [],
    )
arm fs eta (Nnf.either a b) new old next =
    let (fs1, ia) = intern fs a in
    let (fs2, ib) = intern fs1 b in
    let old2 = set_insert eta old in
    (
      fs2,
      (record { new = insert_unless old2 ia new; old = old2; next = next })
          ∷ (record { new = insert_unless old2 ib new; old = old2; next = next })
          ∷ [],
    )
arm fs eta (Nnf.until a b) new old next =
    let (fs1, ia) = intern fs a in
    let (fs2, ib) = intern fs1 b in
    let old2 = set_insert eta old in
    (
      fs2,
      (record { new = insert_unless old2 ia new; old = old2; next = set_insert eta next })
          ∷ (record { new = insert_unless old2 ib new; old = old2; next = next })
          ∷ [],
    )
arm fs eta (Nnf.release a b) new old next =
    let (fs1, ia) = intern fs a in
    let (fs2, ib) = intern fs1 b in
    let old2 = set_insert eta old in
    (
      fs2,
      (record { new = insert_unless old2 ib new; old = old2; next = set_insert eta next })
          ∷ (record {
            new = insert_unless old2 ib (insert_unless old2 ia new);
            old = old2;
            next = next;
          })
          ∷ [],
    )

unfoldable pub ids_eq : Ids → Ids → Bool
ids_eq [] [] = true
ids_eq (i ∷ is) (j ∷ js) = i == j && ids_eq is js
ids_eq is js = false

-- `done_index.get(&(old, next))`
unfoldable pub find_done : List Node → Ids → Ids → Option ℕ
find_done [] old next = none
find_done (d ∷ ds) old next =
    let rest = find_done ds old next in
    if ids_eq d.old old && ids_eq d.next next
    then some 0
    else elim rest [ none ↦ none | some i ↦ some (suc i) ]

-- `BTreeSet::extend`
unfoldable pub insert_all : Ids → Ids → Ids
insert_all [] s = s
insert_all (i ∷ is) s = insert_all is (set_insert i s)

-- `incoming[id].extend(incoming)`
unfoldable pub extend_incoming : List Node → ℕ → Ids → List Node
extend_incoming [] id incoming = []
extend_incoming (d ∷ ds) zero incoming =
    (record d { incoming = insert_all incoming d.incoming }) ∷ ds
extend_incoming (d ∷ ds) (suc id) incoming = d ∷ extend_incoming ds id incoming

-- Calls one after the other.
unfoldable pub run_calls :
    (Builder → Call → Result Failure Builder) → Builder → List Call → Result Failure Builder
run_calls call b [] = ok b
run_calls call b (c ∷ cs) = do b' ← call b c; run_calls call b' cs

-- `Builder::expand`; an id is never behind the end of `formulas`. The fuel is for the depth of the
-- recursion.
unfoldable pub expand : ℕ → Builder → Ids → Ids → Ids → Ids → Result Failure Builder
expand zero b new old next incoming = err out_of_fuel
expand (suc fuel) b [] old next incoming = elim (find_done b.nodes old next) [
  | some id ↦ ok (record b { nodes = extend_incoming b.nodes id incoming })
  | none ↦
      expand fuel
        (record b {
          nodes = b.nodes ++ (record { old = old; next = next; incoming = incoming }) ∷ [];
        })
        next [] [] (length b.nodes ∷ [])
]
expand (suc fuel) b (eta ∷ new) old next incoming =
    let r = arm b.formulas eta (get_or b.formulas eta Nnf.falsity) new old next in
    run_calls (λ b' c. expand fuel b' c.new c.old c.next incoming) (record b { formulas = r.0 }) r.1

-- The loop over the sources of one node: the initial nodes and the edges.
unfoldable pub push_edges : ℕ → Ids → List ℕ → List (List ℕ) → List ℕ × List (List ℕ)
push_edges id [] init edges = (init, edges)
push_edges id (src ∷ srcs) init edges =
    if src == init_id
    then push_edges id srcs (init ++ id ∷ []) edges
    else push_edges id srcs init (set edges src (get_or edges src [] ++ id ∷ []))

-- The loop over the nodes, from the id on.
unfoldable pub connect : ℕ → List Node → List ℕ → List (List ℕ) → List ℕ × List (List ℕ)
connect id [] init edges = (init, edges)
connect id (d ∷ ds) init edges =
    let r = push_edges id d.incoming init edges in connect (id + 1) ds r.0 r.1

-- The literals among the formulas of a set, those of states and those of edges.
unfoldable pub state_lits_of : List Nnf → Ids → List Lit
state_lits_of fs [] = []
state_lits_of fs (i ∷ is) =
    let rest = state_lits_of fs is in
    elim (get_or fs i Nnf.falsity) [
      | Nnf.lit l ↦ elim l.atom [ AtomRef.state a ↦ l ∷ rest | AtomRef.edge a ↦ rest ]
      | _ ↦ rest
    ]

unfoldable pub edge_lits_of : List Nnf → Ids → List Lit
edge_lits_of fs [] = []
edge_lits_of fs (i ∷ is) =
    let rest = edge_lits_of fs is in
    elim (get_or fs i Nnf.falsity) [
      | Nnf.lit l ↦ elim l.atom [ AtomRef.state a ↦ rest | AtomRef.edge a ↦ l ∷ rest ]
      | _ ↦ rest
    ]

-- The acceptance set of the until with the id `fid` and the fulfilling formula with `psi_id`.
unfoldable pub acc_set : List Node → ℕ → ℕ → List Bool
acc_set nodes fid psi_id = map (λ d. not (has_id d.old fid) || has_id d.old psi_id) nodes

-- The loop over the formulas, from the id on.
unfoldable pub acc_sets_from : Builder → ℕ → List Nnf → Result Failure (List (List Bool))
acc_sets_from b fid [] = ok []
acc_sets_from b fid (Nnf.until a psi ∷ fs) =
    let rest = acc_sets_from b (fid + 1) fs in
    elim (find_id b.formulas psi) [
      | none ↦ err not_interned
      | some psi_id ↦ rest >>= λ sets. ok (acc_set b.nodes fid psi_id ∷ sets)
    ]
acc_sets_from b fid (f ∷ fs) = acc_sets_from b (fid + 1) fs

-- `vec![true; n]`
unfoldable pub all_true : ℕ → List Bool
all_true zero = []
all_true (suc n) = true ∷ all_true n

-- A single set of all nodes if there is no until.
unfoldable pub or_all : ℕ → List (List Bool) → List (List Bool)
or_all n [] = all_true n ∷ []
or_all n (s ∷ sets) = s ∷ sets

-- `build_gba` behind the expansion.
unfoldable pub finish : Builder → Result Failure Gba
finish b = do
  sets ← acc_sets_from b 0 b.formulas
  let r = connect 0 b.nodes [] (map (λ d. []) b.nodes)
  ok (record {
    init = r.0;
    edges = r.1;
    state_lits = map (λ d. state_lits_of b.formulas d.old) b.nodes;
    edge_lits = map (λ d. edge_lits_of b.formulas d.old) b.nodes;
    acc_sets = or_all (length b.nodes) sets;
  })

-- The number of subformulas.
unfoldable pub size : Nnf → ℕ
size Nnf.truth = 1
size Nnf.falsity = 1
size (Nnf.lit l) = 1
size (Nnf.both a b) = suc (size a + size b)
size (Nnf.either a b) = suc (size a + size b)
size (Nnf.until a b) = suc (size a + size b)
size (Nnf.release a b) = suc (size a + size b)

-- One level for each formula of a node and two more, and a node for each two sets of formulas.
unfoldable pub expand_fuel : Nnf → ℕ
unfolding size
expand_fuel f = (2 ^ size f * 2 ^ size f) * (size f + 2) + (size f + 1)

-- The tableau, from the formula alone.
unfoldable pub tableau : Nnf → Result Failure Builder
tableau f =
    expand (expand_fuel f) (record { formulas = f ∷ []; nodes = [] }) (0 ∷ []) [] [] (init_id ∷ [])

unfoldable pub build_gba : Nnf → Result Failure Gba
build_gba f = do b ← tableau f; finish b
