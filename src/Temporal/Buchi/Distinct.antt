-- ===== src/Temporal/Buchi/Distinct.antt =====
-- The formulas of inquint/src/temporal/buchi.rs have one id each.
use inquint.Prelude.{
  ℕ, zero, suc, ◌<◌, ◌≡◌, refl, subst, inl, inr, List, [], ◌∷◌, ◌++◌, length, length-append, get_or,
  get_or-append_left, get_or-snoc, none, some, Option-cases, ok, Bool-cases, ◌==◌, ==_iff, arith,
}
use inquint.Temporal.Ltl.{Nnf}
use inquint.Temporal.Buchi.{Ids, Builder, Call, find_id, intern, arm, expand}
use inquint.Temporal.Buchi.Formulas.{nnf_eq_refl, Stands}
use inquint.Temporal.Buchi.Induction.{OfCall, Chain, with_formulas, expand-induct}

abbrev pub Indexed : List Nnf → Type 0
Indexed fs = (i : ℕ) → i < length fs → find_id fs (get_or fs i Nnf.falsity) ≡ some i

find_id-append :
    (fs : List Nnf) (f g : Nnf) (i : ℕ) → find_id fs g ≡ some i → find_id (fs ++ f ∷ []) g ≡ some i
unfolding find_id
find_id-append [] f g i h = absurd (ground arith)
find_id-append (x ∷ fs) f g zero h = ground arith
find_id-append (x ∷ fs) f g (suc i) h = ground (arith, find_id-append fs f g i)

find_id-last :
    (fs : List Nnf) (f : Nnf) → find_id fs f ≡ none → find_id (fs ++ f ∷ []) f ≡ some (length fs)
unfolding find_id
find_id-last [] f h = rw (nnf_eq_refl f) refl
find_id-last (x ∷ fs) f h = ground (arith, find_id-last fs f)

intern-Indexed : (fs : List Nnf) (f : Nnf) → Indexed fs → Indexed (intern fs f).0
unfolding intern
intern-Indexed fs f ix = elim (Option-cases (find_id fs f)) [
  | inr (i, e) ↦ rw (intern, e) ix
  | inl e ↦
      rw (intern, e)
        (λ i h. elim (Bool-cases (i == length fs)) [
          | inl eq ↦
              rw ((==_iff i (length fs)).0 eq, get_or-snoc fs f Nnf.falsity) (find_id-last fs f e)
          | inr ne ↦
              let lt : i < length fs =
                ground (arith, ==_iff i (length fs), length-append fs (f ∷ [])) in
              rw (get_or-append_left i fs (f ∷ []) Nnf.falsity lt)
                (find_id-append fs f (get_or fs i Nnf.falsity) i (ix i lt))
        ])
]

both-Indexed : (fs : List Nnf) (a b : Nnf) → Indexed fs → Indexed (intern (intern fs a).0 b).0
both-Indexed fs a b ix = intern-Indexed (intern fs a).0 b (intern-Indexed fs a ix)

pub arm-Indexed :
    (fs : List Nnf) (eta : ℕ) (f : Nnf) (new old next : Ids)
    → Indexed fs
    → Indexed (arm fs eta f new old next).0
unfolding arm intern
arm-Indexed fs eta Nnf.truth new old next ix = ix
arm-Indexed fs eta Nnf.falsity new old next ix = ix
arm-Indexed fs eta (Nnf.lit l) new old next ix = ix
arm-Indexed fs eta (Nnf.both a b) new old next ix = both-Indexed fs a b ix
arm-Indexed fs eta (Nnf.either a b) new old next ix = both-Indexed fs a b ix
arm-Indexed fs eta (Nnf.until a b) new old next ix = both-Indexed fs a b ix
arm-Indexed fs eta (Nnf.release a b) new old next ix = both-Indexed fs a b ix

IndexedCall : OfCall
IndexedCall b new old next incoming b' = Indexed b.formulas → Indexed b'.formulas

calls-Indexed :
    (incoming : Ids) (cs : List Call) (b b' : Builder)
    → Chain IndexedCall incoming b cs b'
    → Indexed b.formulas
    → Indexed b'.formulas
unfolding IndexedCall
calls-Indexed incoming [] b b' e ix = subst (λ c. Indexed c.formulas) e ix
calls-Indexed incoming (c ∷ cs) b b' (b1, (k, rest)) ix =
    calls-Indexed incoming cs b1 b' rest (k ix)

pub expand-Indexed :
    (fuel : ℕ) (b : Builder) (new old next incoming : Ids) (b' : Builder)
    → expand fuel b new old next incoming ≡ ok b'
    → Indexed b.formulas
    → Indexed b'.formulas
unfolding IndexedCall
expand-Indexed fuel =
    expand-induct IndexedCall (λ b old next incoming id e ix. ix)
      (λ b old next incoming b' e k ix. k ix)
      (λ b eta new old next incoming b' chain ix.
        calls-Indexed incoming _ (with_formulas b _) b' chain
          (arm-Indexed b.formulas eta (get_or b.formulas eta Nnf.falsity) new old next ix))
      fuel

pub Stands-find_id :
    (fs : List Nnf) (i : ℕ) (f : Nnf) → Indexed fs → Stands fs i f → find_id fs f ≡ some i
Stands-find_id fs i f ix (h, e) = subst (λ g. find_id fs g ≡ some i) e (ix i h)
