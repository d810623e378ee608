-- ===== src/Explorer/Exact/Total.antt =====
-- The exact search ends on a finite state space, and its result keeps its promise.
use inquint.Prelude.{
  ℕ, zero, suc, ◌+◌, ◌-◌, ◌≤◌, ◌<◌, max, ◌≡◌, refl, sym, ◌∙◌, subst, ap, inl, inr,
}
use inquint.Prelude.{Option, none, some, List, [], ◌∷◌, ◌∈◌, length, ok, err, arith}
use inquint.Prelude.{Result-cases}
use native.Mathlib.Decide.{dec_lt}
use inquint.State.Arena
use inquint.State.Arena.{State, StateArena}
use inquint.State.Table.{HashTable}
use inquint.Successor.{enumerate}
use inquint.Successor.Complete.{enumerate_complete}
use inquint.Explorer.{CompiledSpec, CheckConfig, Return, check_invs}
use inquint.Explorer.Relations.{Initial}
use inquint.Explorer.Exact.{
  Search, err_with, expand, bfs, finished, check_exact, blank, fold_states, admit_initial,
}
use inquint.Explorer.Exact.Invariant.{ids, IsClosed}
use inquint.Explorer.Exact.Traces.{len-le}
use inquint.Explorer.Exact.Promise.{InBound, Promise}
use inquint.Explorer.Exact.Initials.{fold_initials, blank-Good, AllAdmitted}
use inquint.Explorer.Exact.Rounds.{Ready, reach_found, expand-Continues}

module _ (H : HashTable) (hash_state : State → ℕ) (spec : CompiledSpec) (cfg : CheckConfig)
    (universe : List State) (closed : IsClosed spec universe) where
  abbrev St : Type 0
  St = Search H hash_state spec cfg

  abbrev with_queue : St → List ℕ → St
  with_queue st q = record st { frontier = q }

  bfs_empty :
      (fuel : ℕ) (st : St) (md : ℕ)
      → bfs H hash_state spec cfg fuel (with_queue st []) md
        ≡ some (finished H hash_state spec cfg st md)
  unfolding bfs
  bfs_empty zero st md = refl
  bfs_empty (suc fuel) st md = refl

  bfs_failed :
      (fuel : ℕ) (st : St) (md id : ℕ) (rest : List ℕ) (r : Return)
      → expand H hash_state spec cfg id (with_queue st rest) ≡ err r
      → bfs H hash_state spec cfg (suc fuel) (with_queue st (id ∷ rest)) md ≡ some r
  unfolding bfs
  bfs_failed fuel st md id rest r x = rw (bfs, x)

  bfs_round :
      (fuel : ℕ) (st st' : St) (md id : ℕ) (rest : List ℕ)
      → expand H hash_state spec cfg id (with_queue st rest) ≡ ok st'
      → bfs H hash_state spec cfg (suc fuel) (with_queue st (id ∷ rest)) md
        ≡ bfs H hash_state spec cfg fuel st' (max md (Arena.depth st.arena id))
  unfolding bfs
  bfs_round fuel st st' md id rest x = rw (bfs, x)

  bfs_queue :
      (fuel : ℕ) (st : St) (md : ℕ) (q : List ℕ)
      → st.frontier ≡ q
      → bfs H hash_state spec cfg fuel st md ≡ bfs H hash_state spec cfg fuel (with_queue st q) md
  bfs_queue fuel st md q e = ap (λ q. bfs H hash_state spec cfg fuel (with_queue st q) md) e

  abbrev Kept : Option Return → Type 0
  Kept o = (r : Return) × (o ≡ some r) × Promise spec cfg r

  finished-Promise :
      (k top md : ℕ) (st : St)
      → Ready H hash_state spec cfg universe closed k top st
      → Arena.len st.arena ≤ k
      → Promise spec cfg (finished H hash_state spec cfg st md)
  finished-Promise k top md st ready all n s r bound =
      let (j, l, at, low) =
        reach_found H hash_state spec cfg universe closed st.arena k ready.inv.expanded ready.rooted
          n s r (λ j l _. omega arith) bound in
      let x = ready.inv.expanded j (omega arith) in
      (
        subst (λ v. check_invs spec v ≡ ok none) at (ready.inv.good j l),
        (x.successors, ap (λ v. enumerate (spec.step v)) (sym at) ∙ x.returned, x.moves),
      )

  -- The state `k` waits at the head of the queue.
  queue_head :
      (k top : ℕ) (st : St)
      → Ready H hash_state spec cfg universe closed k top st
      → k < Arena.len st.arena
      → st.frontier ≡ k ∷ ids (suc k) (Arena.len st.arena - suc k)
  queue_head k top st ready stored =
      let e : Arena.len st.arena - k ≡ suc (Arena.len st.arena - suc k) = omega arith in
      ready.inv.queue ∙ ap (ids k) e

  bfs-Kept_empty :
      (fuel k top md : ℕ) (st : St)
      → Ready H hash_state spec cfg universe closed k top st
      → ¬ (k < Arena.len st.arena)
      → Kept (bfs H hash_state spec cfg fuel st md)
  bfs-Kept_empty fuel k top md st ready over =
      let e : Arena.len st.arena - k ≡ 0 = omega arith in
      (
        finished H hash_state spec cfg st md,
        bfs_queue fuel st md [] (ready.inv.queue ∙ ap (ids k) e) ∙ bfs_empty fuel st md,
        finished-Promise k top md st ready (omega arith),
      )

  bfs-Kept :
      (fuel k top md : ℕ) (st : St)
      → Ready H hash_state spec cfg universe closed k top st
      → length universe ≤ k + fuel
      → Kept (bfs H hash_state spec cfg fuel st md)
  bfs-Kept zero k top md st ready enough = elim (dec_lt k (Arena.len st.arena)) [
    | no over ↦ bfs-Kept_empty zero k top md st ready over
    | yes stored ↦
        absurd (omega (arith, len-le spec universe closed top st.arena ready.inv.arena_inv))
  ]
  bfs-Kept (suc fuel) k top md st ready enough = elim (dec_lt k (Arena.len st.arena)) [
    | no over ↦ bfs-Kept_empty (suc fuel) k top md st ready over
    | yes stored ↦
        let rest = ids (suc k) (Arena.len st.arena - suc k) in
        let head = bfs_queue (suc fuel) st md (k ∷ rest) (queue_head k top st ready stored) in
        let ensured =
          expand-Continues H hash_state spec cfg universe closed k top st ready stored in
        elim (Result-cases (expand H hash_state spec cfg k (with_queue st rest))) [
          | inr (r, e) ↦ (r, head ∙ bfs_failed fuel st md k rest r e, rw e at ensured)
          | inl (st', e) ↦
              let (top', ready') = rw e at ensured in
              let (r, ends, kept) =
                bfs-Kept fuel (suc k) top' (max md (Arena.depth st.arena k)) st' ready'
                  (omega arith) in
              (r, head ∙ bfs_round fuel st st' md k rest e ∙ ends, kept)
        ]
  ]

  Initial-mem :
      (ss : List State) (s : State) → enumerate spec.init ≡ ok ss → Initial spec s → s ∈ ss
  Initial-mem ss s e (ss', e', m) = let same : ss' ≡ ss = cc in subst (λ l. s ∈ l) same m

  initial-Ready :
      (ss : List State) (st : St)
      → enumerate spec.init ≡ ok ss
      → AllAdmitted H hash_state spec cfg universe closed (Arena.new spec.n_vars) ss st
      → Ready H hash_state spec cfg universe closed 0 0 st
  initial-Ready ss st e all = record {
    inv = all.inv;
    rooted = λ s first. all.found s (Initial-mem ss s e first);
    near = λ l. omega arith;
    bound = least cfg.max_steps;
  }
    where
      least : (max : Option ℕ) → InBound max 0
      least none = tt
      least (some m) = omega arith

  blank_empty : (i : ℕ) → i < Arena.len (Arena.new spec.n_vars) → ⊥
  unfolding Arena.new
  blank_empty i h = elim h [ ]

  -- With a unit of fuel for each state there is, the search ends and keeps its promise.
  pub check_exact-Kept : Kept (check_exact H hash_state spec cfg (length universe))
  unfolding check_exact
  check_exact-Kept = elim (Result-cases (enumerate spec.init)) [
    | inr (x, e) ↦ (err_with (some []) x, rw (e, check_exact), inl (e, refl))
    | inl (ss, e) ↦
        let ensured =
          fold_initials H hash_state spec cfg universe closed ss (blank H hash_state spec cfg)
            (blank-Good H hash_state spec cfg universe closed) (enumerate_complete spec.init ss e).1
            (λ s m. (ss, e, m)) (λ s m i h same. blank_empty i h) in
        elim (Result-cases
          (fold_states (admit_initial H hash_state spec cfg) ss (blank H hash_state spec cfg))) [
            | inr (r, e') ↦ (r, rw (check_exact, e, e'), rw e' at ensured)
            | inl (st, e') ↦
                let (r, ends, kept) =
                  bfs-Kept (length universe) 0 0 0 st (initial-Ready ss st e (rw e' at ensured))
                    (omega arith) in
                (r, rw (check_exact, e, e') ends, kept)
          ]
  ]
