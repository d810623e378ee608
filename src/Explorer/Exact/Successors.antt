-- ===== src/Explorer/Exact/Successors.antt =====
-- The loop over the successors of the state that left the queue.
use inquint.Prelude.{ℕ, suc, ◌+◌, ◌%◌, ◌<◌, ◌≡◌, refl, sym, ◌∙◌, subst, ap, inl, inr, Bool}
use inquint.Prelude.{some, List, [], ◌∷◌, ◌∈◌, length, Result, ok, arith}
use inquint.Prelude.{if◌then◌else◌}
use mathlib.Core.Path.{subst₂}
use inquint.State.Arena
use inquint.State.Arena.{State, StateArena, no_parent, u32_mod}
use inquint.State.Arena.Laws.{depth-push_new, get-push_new, parent-push_new}
use inquint.State.Table.{HashTable}
use inquint.State.Seen.Laws.{Inserted, insert_or_get-Inserted}
use inquint.Explorer.{CompiledSpec, CheckConfig, Return}
use inquint.Explorer.Relations.{Next}
use inquint.Explorer.Exact.{Search, visit, admit_successor, fold_states}
use inquint.Explorer.Exact.Invariant.{IsClosed, Found, Origin, Inv}
use inquint.Explorer.Exact.Grow.{Extends, Extends-refl, Extends-trans, Found-Extends}
use inquint.Explorer.Exact.Grow.{push-Extends}
use inquint.Explorer.Exact.Traces.{len-lt-no_parent}
use inquint.Explorer.Exact.Promise.{GoodBelow, Ensures, Ensures-bind, Ensures-map}
use inquint.Explorer.Exact.Admit.{Admitted, visit_new}

module _ (H : HashTable) (hash_state : State → ℕ) (spec : CompiledSpec) (cfg : CheckConfig)
    (universe : List State) (closed : IsClosed spec universe) (k d : ℕ) (u : State)
    (below : GoodBelow spec cfg (suc d)) where
  abbrev St : Type 0
  St = Search H hash_state spec cfg

  abbrev Good : St → Type 0
  Good st = Inv spec cfg H hash_state universe k (suc k) (suc d) st

  -- State `k` is `u`, at depth `d`.
  pub record IsAt (a : StateArena) : Type 0 where
    pub stored : k < Arena.len a
    pub state : Arena.get a k ≡ u
    pub level : Arena.depth a k ≡ d

  IsAt-Extends : (a a' : StateArena) → Extends a a' → IsAt a → IsAt a'
  IsAt-Extends a a' e at = record {
    stored = omega (arith, e.longer, at.stored);
    state = e.gets k at.stored ∙ at.state;
    level = e.depths k at.stored ∙ at.level;
  }

  module _ (st : St) (inv : Good st) (at : IsAt st.arena) (s : State) (step : Next spec u s) where
    open st use {arena as a, seen as t}

    member : s ∈ universe
    member =
        closed.next u s (subst (λ v. v ∈ universe) at.state (inv.arena_inv.within k at.stored)) step

    size : length s ≡ a.n_vars
    size = closed.size s member ∙ sym inv.arena_inv.width

    few : Arena.len a < no_parent
    few = len-lt-no_parent spec universe closed (suc d) a inv.arena_inv

    abbrev a' : StateArena
    a' = (Arena.push a s (some k) (suc d)).0

    from_parent : Origin spec a' (Arena.len a)
    from_parent =
        let flat = inv.arena_inv.flat in
        let e =
          push-Extends spec cfg universe (suc d) a inv.arena_inv s (some k)
            (closed.size s member) in
        let up = parent-push_new a s (some k) (suc d) flat size in
        inr (
          omega (arith, up, at.stored),
          depth-push_new a s (some k) (suc d) flat size
              ∙ ap suc (sym (ap (Arena.depth a') up ∙ e.depths k at.stored ∙ at.level)),
          subst₂ (Next spec) (sym (ap (Arena.get a') up ∙ e.gets k at.stored ∙ at.state))
              (sym (get-push_new a s (some k) (suc d) flat size)) step,
        )

    abbrev go_on : (H.Table × StateArena) × (ℕ × Bool) → Result Return St
    go_on r =
        let st' = record st { arena = r.0.1; seen = r.0.0 } in
        if r.1.1 then visit H hash_state spec cfg st' s r.1.0 else ok st'

    abbrev AdmittedHere : St → Type 0
    AdmittedHere = Admitted H hash_state spec cfg universe closed k (suc k) (suc d) a s

    go_on-Ensures :
        {r : (H.Table × StateArena) × (ℕ × Bool)}
        → Inserted H hash_state t a s (some k) (suc d) inv.arena_inv.flat size inv.seen_inv r
        → Ensures spec cfg AdmittedHere (go_on r)
    go_on-Ensures (Inserted.old id l same) = record {
      inv = inv;
      grown = Extends-refl a;
      found = (id, l, same, inv.arena_inv.shallow id l);
      only = λ i l. inl l;
    }
    go_on-Ensures (Inserted.fresh new m) =
        visit_new H hash_state spec cfg universe closed k (suc k) (suc d) st inv s (some k) member
          (omega (arith, inv.arena_inv.depth_le k at.stored, at.level, at.stored)) below new m
          from_parent

    admit_successor-Ensures :
        Ensures spec cfg AdmittedHere (admit_successor H hash_state spec cfg k d s st)
    unfolding admit_successor
    admit_successor-Ensures =
        let e : (d + 1) % u32_mod ≡ suc d =
          omega (arith, inv.arena_inv.depth_le k at.stored, at.level, at.stored, few) in
        rw e (
          go_on-Ensures (
            insert_or_get-Inserted H hash_state t a s (some k) (suc d) inv.arena_inv.flat size
              inv.seen_inv few))

  -- All of a list of successors were admitted.
  pub record AllAdmitted (a : StateArena) (ss : List State) (st : St) : Type 0 where
    pub inv : Good st
    pub grown : Extends a st.arena
    pub found : (s : State) → s ∈ ss → Found st.arena s (suc d)

  pub fold_successors :
      (ss : List State) (st : St)
      → Good st
      → IsAt st.arena
      → ((s : State) → s ∈ ss → Next spec u s)
      → Ensures spec cfg
          (AllAdmitted st.arena ss)
          (fold_states (admit_successor H hash_state spec cfg k d) ss st)
  unfolding fold_states
  fold_successors [] st inv at steps = record {
    inv = inv;
    grown = Extends-refl st.arena;
    found = λ s m. absurd m;
  }
  fold_successors (s ∷ ss) st inv at steps =
      Ensures-bind spec cfg (AdmittedHere st inv at s (steps s (inl refl)))
        (AllAdmitted st.arena (s ∷ ss)) (admit_successor H hash_state spec cfg k d s st) _
        (admit_successor-Ensures st inv at s (steps s (inl refl)))
        (λ st1 one.
          Ensures-map spec cfg (AllAdmitted st1.arena ss) (AllAdmitted st.arena (s ∷ ss))
            (fold_states (admit_successor H hash_state spec cfg k d) ss st1)
            (λ st2 rest. record {
              inv = rest.inv;
              grown = Extends-trans _ _ _ one.grown rest.grown;
              found = λ t. elim [
                | inl e ↦
                    subst (λ v. Found st2.arena v (suc d)) (sym e)
                      (Found-Extends st1.arena st2.arena s (suc d) rest.grown one.found)
                | inr m ↦ rest.found t m
              ];
            })
            (fold_successors ss st1 one.inv (IsAt-Extends _ _ one.grown at)
              (λ t m. steps t (inr m))))
