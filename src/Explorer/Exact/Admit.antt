-- ===== src/Explorer/Exact/Admit.antt =====
-- One state is admitted: the invariant of the search stays, or the search returns.
use inquint.Prelude.{ℕ, zero, suc, ◌+◌, ◌-◌, ◌≤◌, ◌<◌, ◌≡◌, ◌≢◌, sym, ◌∙◌, subst, ap, ◌⊎◌, inl, inr}
use inquint.Prelude.{Option, none, some, List, [], ◌∷◌, ◌++◌, ◌∈◌, length, ok, arith}
use inquint.Prelude.{Bool-cases, Result-cases}
use native.Mathlib.Decide.{dec_lt}
use inquint.State.Arena
use inquint.State.Arena.{State, StateArena, parent_or_none, no_parent}
use inquint.State.Arena.Laws.{len-push, get-push_new, depth-push_new}
use inquint.State.Table.{HashTable}
use inquint.State.Seen.Laws.{Matches}
use inquint.Explorer.{CompiledSpec, CheckConfig}
use inquint.Explorer.{check_invs, reached}
use inquint.Explorer.Exact.{Search, visit}
use inquint.Explorer.Exact.Invariant.{ids, IsClosed, Found, Origin, ArenaInv, Inv}
use inquint.Explorer.Exact.Grow.{Extends, Expanded-Extends, push-Extends, push-ArenaInv}
use inquint.Explorer.Exact.Traces.{trace-Trace}
use inquint.Explorer.Exact.Promise.{GoodBelow, LeadsTo, Ensures}
use inquint.Explorer.Relations.{Trace}
use mathlib.Core.Path.{subst₂}

ids-snoc : (k n : ℕ) → ids k n ++ (k + n) ∷ [] ≡ ids k (suc n)
ids-snoc k zero = let e : k + 0 ≡ k = omega arith in rw e
ids-snoc k (suc n) =
    let e : k + suc n ≡ suc k + n = omega arith in rw e (ap (λ l. k ∷ l) (ids-snoc (suc k) n))

module _ (H : HashTable) (hash_state : State → ℕ) (spec : CompiledSpec) (cfg : CheckConfig)
    (universe : List State) (closed : IsClosed spec universe) (k q top : ℕ) where
  -- What is known after a state was admitted: the invariant, that the arena only grew, and that the
  -- state is in it.
  pub record Admitted (a : StateArena) (s : State) (st : Search H hash_state spec cfg)
      : Type 0 where
    pub inv : Inv spec cfg H hash_state universe k q top st
    pub grown : Extends a st.arena
    pub found : Found st.arena s top
    pub only : (i : ℕ) → i < Arena.len st.arena → (i < Arena.len a) ⊎ (Arena.get st.arena i ≡ s)

  -- A new state was pushed under the id `len a`, and is now checked and queued.
  module _ (st : Search H hash_state spec cfg) (inv : Inv spec cfg H hash_state universe k q top st)
      (s : State) (p : Option ℕ) (member : s ∈ universe) (deep : top ≤ Arena.len st.arena)
      (below : GoodBelow spec cfg top) where
    open st use {arena as a, seen as t}

    abbrev a' : StateArena
    a' = (Arena.push a s p top).0

    abbrev t' : H.Table
    t' = H.insert_unique t (hash_state s) (Arena.len a)

    abbrev st' : Search H hash_state spec cfg
    st' = record st { arena = a'; seen = t' }

    size : length s ≡ a.n_vars
    size = closed.size s member ∙ sym inv.arena_inv.width

    longer : Arena.len a' ≡ suc (Arena.len a)
    longer = len-push a s p top inv.arena_inv.flat size

    at_new : Arena.get a' (Arena.len a) ≡ s
    at_new = get-push_new a s p top inv.arena_inv.flat size

    module _ (fresh : (i : ℕ) → i < Arena.len a → Arena.get a i ≢ s)
        (m : Matches H hash_state t' a') (from : Origin spec a' (Arena.len a)) where
      arena_inv' : ArenaInv spec universe top a'
      arena_inv' =
          push-ArenaInv spec cfg universe top a inv.arena_inv s p (closed.size s member) member
            fresh deep from

      grown' : Extends a a'
      grown' = push-Extends spec cfg universe top a inv.arena_inv s p (closed.size s member)

      leads : LeadsTo spec cfg (Arena.trace a' (Arena.len a)) top s
      leads =
          let (path, way, e) =
            trace-Trace spec universe closed top a' arena_inv' (Arena.len a)
              (omega (arith, longer)) in
          (
            path,
            e,
            subst₂ (λ n u. Trace spec n u path) (depth-push_new a s p top inv.arena_inv.flat size)
                at_new way,
          )

      queued' : st.frontier ++ Arena.len a ∷ [] ≡ ids q (Arena.len a' - q)
      queued' =
          let e : Arena.len a' - q ≡ suc (Arena.len a - q) = omega (arith, longer, inv.begun) in
          let e' : Arena.len a ≡ q + (Arena.len a - q) = omega (arith, inv.begun) in
          rw (e, inv.queue)
            (ap (λ n. ids q (Arena.len a - q) ++ n ∷ []) e' ∙ ids-snoc q (Arena.len a - q))

      good' :
          check_invs spec s ≡ ok none
          → (i : ℕ) → i < Arena.len a'
          → check_invs spec (Arena.get a' i) ≡ ok none
      good' e i l = elim (dec_lt i (Arena.len a)) [
        | yes old ↦
            subst (λ u. check_invs spec u ≡ ok none) (sym (grown'.gets i old)) (inv.good i old)
        | no new ↦
            let same : i ≡ Arena.len a = omega (arith, longer) in
            subst (λ u. check_invs spec u ≡ ok none) (sym (ap (Arena.get a') same ∙ at_new)) e
      ]

      pub visit_new :
          Ensures spec cfg (Admitted a s) (visit H hash_state spec cfg st' s (Arena.len a))
      unfolding visit
      visit_new = elim (Result-cases (check_invs spec s)) [
        | inr (x, e) ↦ rw (visit, e) (inr (top, s, leads, inl e))
        | inl (some name, e) ↦ rw (visit, e) (top, s, leads, e, below)
        | inl (none, e) ↦ elim (Bool-cases (reached cfg.max_states (Arena.len a'))) [
          | inl full ↦ rw (visit, e, full) full
          | inr more ↦
              rw (visit, e, more)
                (record {
                  inv = record {
                    arena_inv = arena_inv';
                    seen_inv = m;
                    begun = omega (arith, longer, inv.begun);
                    behind = inv.behind;
                    queue = queued';
                    expanded = λ i l.
                        Expanded-Extends spec cfg a a' i (omega (arith, inv.begun, inv.behind))
                          grown' (inv.expanded i l);
                    good = good' e;
                  };
                  grown = grown';
                  found = (
                    Arena.len a,
                    omega (arith, longer),
                    at_new,
                    omega (arith, depth-push_new a s p top inv.arena_inv.flat size),
                  );
                  only = λ i l. elim (dec_lt i (Arena.len a)) [
                    | yes old ↦ inl old
                    | no new ↦ inr (
                        ap (Arena.get a')
                          (let same : i ≡ Arena.len a = omega (arith, longer) in same)
                        ∙ at_new)
                  ];
                })
        ]
      ]
