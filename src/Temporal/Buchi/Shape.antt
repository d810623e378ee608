-- ===== src/Temporal/Buchi/Shape.antt =====
-- The form of an automaton that `build_gba` in inquint/src/temporal/buchi.rs gives.
use inquint.Prelude.{
  ℕ, zero, suc, ◌<◌, ◌≤◌, ◌≡◌, refl, sym, ap, ◌∙◌, subst, List, [], ◌∷◌, ◌∈◌, map, length, get_or,
  Bool, ok, bind-ok, ok_injective, arith,
}
use inquint.Temporal.Ltl.{AtomRef, Lit, Nnf}
use inquint.Temporal.Buchi.{
  Ids, Node, Builder, Gba, n_nodes, init_id, acc_sets_from, state_lits_of, edge_lits_of, tableau,
  finish, build_gba,
}
use inquint.Temporal.Buchi.Edges.{connect-length}
use inquint.Temporal.Buchi.Labels.{length-map, SetsOk, acc_sets_from-SetsOk}
use inquint.Temporal.Buchi.Assembly.{gba_of, init_iff, edge_iff}

abbrev pub IsState : AtomRef → Type 0
IsState (AtomRef.state j) = Unit {0}
IsState (AtomRef.edge j) = ⊥

abbrev pub IsEdge : AtomRef → Type 0
IsEdge (AtomRef.state j) = ⊥
IsEdge (AtomRef.edge j) = Unit {0}

abbrev pub AllAtoms : (AtomRef → Type 0) → List Lit → Type 0
AllAtoms P [] = Unit {0}
AllAtoms P (l ∷ ls) = P l.atom × AllAtoms P ls

pub record Shape (a : Gba) : Type 0 where
  pub starts : (q : ℕ) → q ∈ a.init → q < n_nodes a
  pub nodes : (q q' : ℕ) → q < n_nodes a → q' ∈ get_or a.edges q [] → q' < n_nodes a
  pub state_only : (q : ℕ) → AllAtoms IsState (get_or a.state_lits q [])
  pub edge_only : (q : ℕ) → AllAtoms IsEdge (get_or a.edge_lits q [])

module _ (fs : List Nnf) where
  states-AllAtoms : (is : Ids) → AllAtoms IsState (state_lits_of fs is)
  unfolding state_lits_of
  states-AllAtoms [] = tt
  states-AllAtoms (i ∷ is) =
      of_formula (get_or fs i Nnf.falsity) (state_lits_of fs is) (states-AllAtoms is)
    where
      of_lit :
          (l : Lit) (x : AtomRef) (rest : List Lit)
          → l.atom ≡ x
          → AllAtoms IsState rest
          → AllAtoms IsState (elim x [ AtomRef.state a ↦ l ∷ rest | AtomRef.edge a ↦ rest ])
      of_lit l (AtomRef.state a) rest e h = (subst IsState (sym e) tt, h)
      of_lit l (AtomRef.edge a) rest e h = h

      of_formula :
          (f : Nnf) (rest : List Lit)
          → AllAtoms IsState rest
          → AllAtoms IsState (elim f [
            | Nnf.lit l ↦ elim l.atom [ AtomRef.state a ↦ l ∷ rest | AtomRef.edge a ↦ rest ]
            | _ ↦ rest
          ])
      of_formula Nnf.truth rest h = h
      of_formula Nnf.falsity rest h = h
      of_formula (Nnf.both f g) rest h = h
      of_formula (Nnf.either f g) rest h = h
      of_formula (Nnf.until f g) rest h = h
      of_formula (Nnf.release f g) rest h = h
      of_formula (Nnf.lit l) rest h = of_lit l l.atom rest refl h

  edges-AllAtoms : (is : Ids) → AllAtoms IsEdge (edge_lits_of fs is)
  unfolding edge_lits_of
  edges-AllAtoms [] = tt
  edges-AllAtoms (i ∷ is) =
      of_formula (get_or fs i Nnf.falsity) (edge_lits_of fs is) (edges-AllAtoms is)
    where
      of_lit :
          (l : Lit) (x : AtomRef) (rest : List Lit)
          → l.atom ≡ x
          → AllAtoms IsEdge rest
          → AllAtoms IsEdge (elim x [ AtomRef.state a ↦ rest | AtomRef.edge a ↦ l ∷ rest ])
      of_lit l (AtomRef.state a) rest e h = h
      of_lit l (AtomRef.edge a) rest e h = (subst IsEdge (sym e) tt, h)

      of_formula :
          (f : Nnf) (rest : List Lit)
          → AllAtoms IsEdge rest
          → AllAtoms IsEdge (elim f [
            | Nnf.lit l ↦ elim l.atom [ AtomRef.state a ↦ rest | AtomRef.edge a ↦ l ∷ rest ]
            | _ ↦ rest
          ])
      of_formula Nnf.truth rest h = h
      of_formula Nnf.falsity rest h = h
      of_formula (Nnf.both f g) rest h = h
      of_formula (Nnf.either f g) rest h = h
      of_formula (Nnf.until f g) rest h = h
      of_formula (Nnf.release f g) rest h = h
      of_formula (Nnf.lit l) rest h = of_lit l l.atom rest refl h

at_all :
    (P : AtomRef → Type 0) (k : Node → List Lit) (ns : List Node) (q : ℕ)
    → ((d : Node) → AllAtoms P (k d))
    → AllAtoms P (get_or (map k ns) q [])
at_all P k [] q h = tt
at_all P k (d ∷ ns) zero h = h d
at_all P k (d ∷ ns) (suc q) h = at_all P k ns q h

gba_of-Shape :
    (b : Builder) (sets : List (List Bool))
    → SetsOk b 0 b.formulas sets
    → length b.nodes ≤ init_id
    → n_nodes (gba_of b sets) ≡ length b.nodes
    → Shape (gba_of b sets)
gba_of-Shape b sets sets_ok few e = record {
  starts =
      λ q m. let (lt, k) = (init_iff b sets sets_ok few q).0 m in subst (λ z. q < z) (sym e) lt;
  nodes = λ q q' h m.
      let (lt, k) = (edge_iff b sets sets_ok few q q' (subst (λ z. q < z) e h)).0 m in
      subst (λ z. q' < z) (sym e) lt;
  state_only = λ q.
      at_all IsState (λ d. state_lits_of b.formulas d.old) b.nodes q
        (λ d. states-AllAtoms b.formulas d.old);
  edge_only = λ q.
      at_all IsEdge (λ d. edge_lits_of b.formulas d.old) b.nodes q
        (λ d. edges-AllAtoms b.formulas d.old);
}

pub build_gba-Shape : (f : Nnf) (g : Gba) → build_gba f ≡ ok g → n_nodes g ≤ init_id → Shape g
unfolding build_gba finish n_nodes
build_gba-Shape f g built few =
    let (b, (done, fin)) = bind-ok (tableau f) finish g built in
    let (sets, (sets_done, e)) =
      bind-ok (acc_sets_from b 0 b.formulas) (λ sets. ok (gba_of b sets)) g fin in
    let e' : gba_of b sets ≡ g = ok_injective e in
    let n : length (gba_of b sets).edges ≡ length b.nodes =
      connect-length 0 b.nodes [] (map (λ d. []) b.nodes)
      ∙ length-map {B = List ℕ} (λ d. []) b.nodes in
    subst Shape e' (
      gba_of-Shape b sets (acc_sets_from-SetsOk b 0 b.formulas sets sets_done)
        (omega (arith, ap (λ g. length g.edges) e', n)) n)
