-- ===== src/Temporal/Ltl.antt =====
-- inquint/src/temporal/ltl.rs: formulas, negation normal form, and the safety fragment.
use inquint.Prelude.{ℕ, Bool, true, false, not, ◌||◌, Option, none, some, List, [], ◌∷◌}
use inquint.Prelude.{if◌then◌else◌}

mutual
  pub data Ltl : Type 0 where
    truth falsity : Ltl
    state_atom edge_atom : ℕ → Ltl
    negation : Ltl → Ltl
    conjunction disjunction : Ltls → Ltl
    always eventually : Ltl → Ltl

  -- `Vec<Ltl>`
  pub data Ltls : Type 0 where
    nil : Ltls
    cons : Ltl → Ltls → Ltls

pub data AtomRef : Type 0 where
  state edge : ℕ → AtomRef

pub record Lit : Type 0 where
  pub atom : AtomRef
  pub pos : Bool

unfoldable pub negated : Lit → Lit
negated l = record l { pos = not l.pos }

pub data Nnf : Type 0 where
  truth falsity : Nnf
  lit : Lit → Nnf
  both either until release : Nnf → Nnf → Nnf

-- The two closures that `nnf` hands to `fold_binary`.
abbrev pub join_and : Bool → Nnf → Nnf → Nnf
join_and negate a b = if negate then either a b else both a b

abbrev pub join_or : Bool → Nnf → Nnf → Nnf
join_or negate a b = if negate then both a b else either a b

unfoldable mutual
  pub nnf : Ltl → Bool → Nnf
  nnf Ltl.truth negate = if negate then Nnf.falsity else Nnf.truth
  nnf Ltl.falsity negate = if negate then Nnf.truth else Nnf.falsity
  nnf (state_atom i) negate = lit (record { atom = state i; pos = not negate })
  nnf (edge_atom i) negate = lit (record { atom = edge i; pos = not negate })
  nnf (negation p) negate = nnf p (not negate)
  nnf (conjunction ps) negate = fold_binary ps negate (join_and negate)
  nnf (disjunction ps) negate = fold_binary ps negate (join_or negate)
  nnf (always p) negate =
      let inner = nnf p negate in
      if negate then until Nnf.truth inner else release Nnf.falsity inner
  nnf (eventually p) negate =
      let inner = nnf p negate in
      if negate then release Nnf.falsity inner else until Nnf.truth inner

  pub fold_binary : Ltls → Bool → (Nnf → Nnf → Nnf) → Nnf
  fold_binary nil negate join = if negate then Nnf.falsity else Nnf.truth
  fold_binary (cons p ps) negate join = fold_rest ps negate join (nnf p negate)

  -- `iter.fold(first, join)`
  pub fold_rest : Ltls → Bool → (Nnf → Nnf → Nnf) → Nnf → Nnf
  fold_rest nil negate join acc = acc
  fold_rest (cons p ps) negate join acc = fold_rest ps negate join (join acc (nnf p negate))

mutual
  -- `Prop`: a formula with no temporal operator.
  pub data Prop : Type 0 where
    truth falsity : Prop
    state_atom edge_atom : ℕ → Prop
    negation : Prop → Prop
    conjunction disjunction : Props → Prop

  pub data Props : Type 0 where
    nil : Props
    cons : Prop → Props → Props

unfoldable mutual
  pub has_edge_atoms : Prop → Bool
  has_edge_atoms Prop.truth = false
  has_edge_atoms Prop.falsity = false
  has_edge_atoms (Prop.state_atom i) = false
  has_edge_atoms (Prop.edge_atom i) = true
  has_edge_atoms (Prop.negation p) = has_edge_atoms p
  has_edge_atoms (Prop.conjunction ps) = any_has_edge_atoms ps
  has_edge_atoms (Prop.disjunction ps) = any_has_edge_atoms ps

  pub any_has_edge_atoms : Props → Bool
  any_has_edge_atoms Props.nil = false
  any_has_edge_atoms (Props.cons p ps) = has_edge_atoms p || any_has_edge_atoms ps

infixl 5 ◌>>=?◌
abbrev pub ◌>>=?◌ : {A B : Type 0} → Option A → (A → Option B) → Option B
none >>=? f = none
some a >>=? f = f a

unfoldable mutual
  pub as_prop : Ltl → Option Prop
  as_prop Ltl.truth = some Prop.truth
  as_prop Ltl.falsity = some Prop.falsity
  as_prop (Ltl.state_atom i) = some (Prop.state_atom i)
  as_prop (Ltl.edge_atom i) = some (Prop.edge_atom i)
  as_prop (Ltl.negation p) = as_prop p >>=? λ q. some (Prop.negation q)
  as_prop (Ltl.conjunction ps) = as_props ps >>=? λ qs. some (Prop.conjunction qs)
  as_prop (Ltl.disjunction ps) = as_props ps >>=? λ qs. some (Prop.disjunction qs)
  as_prop (always p) = none
  as_prop (eventually p) = none

  pub as_props : Ltls → Option Props
  as_props Ltls.nil = some Props.nil
  as_props (Ltls.cons p ps) = as_prop p >>=? λ q. (as_props ps >>=? λ qs. some (Props.cons q qs))

pub data SafetyConjunct : Type 0 where
  initial : Prop → SafetyConjunct
  always_prop : Prop → SafetyConjunct

unfoldable pub safety_conjunct : Ltl → Option SafetyConjunct
unfolding as_prop
safety_conjunct (always p) = as_prop p >>=? λ q. some (always_prop q)
safety_conjunct other = as_prop other >>=? λ q. some (initial q)

unfoldable pub safety_conjuncts : Ltls → Option (List SafetyConjunct)
safety_conjuncts Ltls.nil = some []
safety_conjuncts (Ltls.cons c cs) =
    safety_conjunct c >>=? λ q. (safety_conjuncts cs >>=? λ qs. some (q ∷ qs))

unfoldable pub conjuncts : Ltl → Ltls
conjuncts (Ltl.conjunction ps) = ps
conjuncts other = Ltls.cons other Ltls.nil

unfoldable pub safety_fragment : Ltl → Option (List SafetyConjunct)
safety_fragment body = safety_conjuncts (conjuncts body)
