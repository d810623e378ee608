-- ===== src/Explorer/Exact/Grow.antt =====
-- A push keeps what is known of the arena.
use inquint.Prelude.{ℕ, suc, ◌≤◌, ◌<◌, ◌≡◌, ◌≢◌, refl, sym, ◌∙◌, subst, ap, inl, inr}
use inquint.Prelude.{Option, List, ◌∈◌, length, arith}
use mathlib.Core.Path.{subst₂}
use native.Mathlib.Decide.{dec_lt}
use inquint.State.Arena
use inquint.State.Arena.{State, StateArena, no_parent, parent_or_none}
use inquint.State.Arena.Laws.{
  push-IsFlat, len-push, get-push_old, get-push_new, depth-push_old, width-push,
}
use inquint.State.Arena.Laws.{depth-push_new, parent-push_old}
use inquint.Explorer.{CompiledSpec, CheckConfig}
use inquint.Explorer.Relations.{Initial, Next}
use inquint.Explorer.Exact.Invariant.{Found, Expanded, Origin, ArenaInv}

-- The states of `a` stand in `a'` under the same ids.
pub record Extends (a a' : StateArena) : Type 0 where
  pub longer : Arena.len a ≤ Arena.len a'
  pub gets : (i : ℕ) → i < Arena.len a → Arena.get a' i ≡ Arena.get a i
  pub depths : (i : ℕ) → i < Arena.len a → Arena.depth a' i ≡ Arena.depth a i
  pub parents : (i : ℕ) → i < Arena.len a → Arena.parent a' i ≡ Arena.parent a i

pub Extends-refl : (a : StateArena) → Extends a a
Extends-refl a = record {
  longer = omega arith;
  gets = λ i h. refl;
  depths = λ i h. refl;
  parents = λ i h. refl;
}

pub Extends-trans : (a b c : StateArena) → Extends a b → Extends b c → Extends a c
Extends-trans a b c h k = record {
  longer = omega (arith, h.longer, k.longer);
  gets = λ i l. k.gets i (omega (arith, h.longer)) ∙ h.gets i l;
  depths = λ i l. k.depths i (omega (arith, h.longer)) ∙ h.depths i l;
  parents = λ i l. k.parents i (omega (arith, h.longer)) ∙ h.parents i l;
}

pub Found-Extends :
    (a a' : StateArena) (t : State) (n : ℕ) → Extends a a' → Found a t n → Found a' t n
Found-Extends a a' t n h (j, l, g, d) =
    (j, omega (arith, h.longer), h.gets j l ∙ g, omega (arith, h.depths j l))

module _ (spec : CompiledSpec) where
  Origin-Extends :
      (a a' : StateArena) (i : ℕ)
      → i < Arena.len a
      → Extends a a'
      → Origin spec a i
      → Origin spec a' i
  Origin-Extends a a' i l e (inl (p, d, first)) =
      inl (e.parents i l ∙ p, e.depths i l ∙ d, subst (Initial spec) (sym (e.gets i l)) first)
  Origin-Extends a a' i l e (inr (p, d, step)) =
      let same = e.parents i l in
      let l' : Arena.parent a i < Arena.len a = omega arith in
      inr (
        omega (arith, same),
        e.depths i l
            ∙ d
            ∙ ap suc (sym (e.depths (Arena.parent a i) l') ∙ ap (Arena.depth a') (sym same)),
        subst₂ (Next spec) (sym (e.gets _ l') ∙ ap (Arena.get a') (sym same)) (sym (e.gets i l))
            step,
      )

module _ (spec : CompiledSpec) (cfg : CheckConfig) where
  pub Expanded-Extends :
      (a a' : StateArena) (i : ℕ)
      → i < Arena.len a
      → Extends a a'
      → Expanded spec cfg a i
      → Expanded spec cfg a' i
  Expanded-Extends a a' i l h e = record {
    successors = e.successors;
    returned = rw (h.gets i l) e.returned;
    moves = e.moves;
    admitted = λ bound t m.
        rw (h.depths i l) (Found-Extends a a' t _ h (e.admitted (rw (h.depths i l) at bound) t m));
  }

  module _ (universe : List State) (top : ℕ) (a : StateArena) (inv : ArenaInv spec universe top a)
      (s : State) (p : Option ℕ) (size : length s ≡ spec.n_vars) where
    open inv use {flat, width, within, distinct, origin, monotone, shallow, depth_le}

    abbrev a' : StateArena
    a' = (Arena.push a s p top).0

    size' : length s ≡ a.n_vars
    size' = size ∙ sym width

    pub push-Extends : Extends a a'
    push-Extends = record {
      longer = omega (arith, len-push a s p top flat size');
      gets = λ i h. get-push_old a s p top flat size' i h;
      depths = λ i h. depth-push_old a s p top flat size' i h;
      parents = λ i h. parent-push_old a s p top flat size' i h;
    }

    -- A new state lies at depth `top`, and has the origin that it is given.
    pub push-ArenaInv :
        s ∈ universe
        → ((i : ℕ) → i < Arena.len a → Arena.get a i ≢ s)
        → top ≤ Arena.len a
        → Origin spec a' (Arena.len a)
        → ArenaInv spec universe top a'
    push-ArenaInv member fresh deep from = record {
      flat = push-IsFlat a s p top flat size';
      width = width-push a s p top ∙ width;
      within =
          new_or_old (λ i. Arena.get a' i ∈ universe)
            (λ i h. subst (λ u. u ∈ universe) (sym (e.gets i h)) (within i h))
            (subst (λ u. u ∈ universe) (sym (get-push_new a s p top flat size')) member);
      distinct = λ i j lt lj.
          new_or_old (λ j. (i : ℕ) → i < j → Arena.get a' i ≢ Arena.get a' j)
            (λ j lj i lt same.
              distinct i j lt lj (sym (e.gets i (omega arith)) ∙ same ∙ e.gets j lj))
            (λ i li same. fresh i li (sym (e.gets i li) ∙ same ∙ get-push_new a s p top flat size'))
            j lj i lt;
      origin =
          new_or_old (Origin spec a') (λ i h. Origin-Extends spec a a' i h e (origin i h)) from;
      monotone = λ i j le lj.
          new_or_old (λ j. (i : ℕ) → i ≤ j → Arena.depth a' i ≤ Arena.depth a' j)
            (λ j lj i le.
              omega (arith, e.depths i (omega arith), e.depths j lj, monotone i j le lj))
            (λ i le. omega (arith, new_depth, shallow' i (omega (arith, longer)))) j lj i le;
      shallow = shallow';
      depth_le =
          new_or_old (λ i. Arena.depth a' i ≤ i) (λ i h. omega (arith, e.depths i h, depth_le i h))
            (omega (arith, new_depth));
    }
      where
        e : Extends a a'
        e = push-Extends

        new_depth : Arena.depth a' (Arena.len a) ≡ top
        new_depth = depth-push_new a s p top flat size'

        new_or_old :
            (P : ℕ → Type 0)
            → ((i : ℕ) → i < Arena.len a → P i)
            → P (Arena.len a)
            → (i : ℕ) → i < Arena.len a'
            → P i
        new_or_old P old new i h = elim (dec_lt i (Arena.len a)) [
          | yes l ↦ old i l
          | no l ↦ subst P (omega (arith, len-push a s p top flat size')) new
        ]

        longer : Arena.len a' ≡ suc (Arena.len a)
        longer = len-push a s p top flat size'

        shallow' : (i : ℕ) → i < Arena.len a' → Arena.depth a' i ≤ top
        shallow' =
            new_or_old (λ i. Arena.depth a' i ≤ top)
              (λ i h. omega (arith, e.depths i h, shallow i h)) (omega (arith, new_depth))
