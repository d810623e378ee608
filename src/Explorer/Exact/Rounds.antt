-- ===== src/Explorer/Exact/Rounds.antt =====
-- One round of the search, from one state of the queue to the next.
use inquint.Prelude.{
  ℕ, suc, ◌-◌, ◌≤◌, ◌<◌, ◌≡◌, ◌≢◌, refl, sym, ◌∙◌, subst, ap, inl, inr, Bool, true, false,
}
use inquint.Prelude.{Option, none, some, List, [], ◌∷◌, ◌∈◌, ok, arith, ◌&&◌}
use inquint.Prelude.{Bool-cases, Result-cases}
use native.Mathlib.Decide.{dec_lt}
use inquint.State.Arena
use inquint.State.Arena.{State, StateArena, no_parent}
use inquint.State.Table.{HashTable}
use inquint.Successor.{enumerate}
use inquint.Explorer.{CompiledSpec, CheckConfig, check_invs, reached}
use inquint.Explorer.Relations.{Initial, Reach, start, next}
use inquint.Explorer.Exact.{Search, expand, no_successors, fold_states, admit_successor}
use inquint.Explorer.Exact.Invariant.{ids, IsClosed, Found, Expanded, Inv}
use inquint.Explorer.Exact.Grow.{Found-Extends}
use inquint.Explorer.Exact.Traces.{trace-Trace}
use inquint.Explorer.Exact.Promise.{InBound, GoodBelow, MovesBelow, LeadsTo, Ensures}
use inquint.Explorer.Exact.Promise.{Ensures-map}
use inquint.Explorer.Exact.Successors.{AllAdmitted, fold_successors}

pub InBound-mono : (max : Option ℕ) (m n : ℕ) → m ≤ n → InBound max n → InBound max m
InBound-mono none m n h k = tt
InBound-mono (some max) m n h k = omega arith

reached-InBound : (max : Option ℕ) (n : ℕ) → reached max n ≡ false → InBound max (suc n)
reached-InBound none n h = tt
reached-InBound (some max) n h = ground arith

InBound-reached : (max : Option ℕ) (n : ℕ) → InBound max (suc n) → reached max n ≡ false
InBound-reached none n h = refl
InBound-reached (some max) n h = ground arith

deadlock_found :
    (ss : List State) (counts : Bool)
    → (no_successors ss && counts) ≡ true
    → (ss ≡ []) × (counts ≡ true)
deadlock_found [] counts h = (refl, h)
deadlock_found (s ∷ ss) counts h = absurd (cc h)

deadlock_free :
    (ss : List State) (counts : Bool)
    → (no_successors ss && counts) ≡ false
    → counts ≡ true
    → ss ≢ []
deadlock_free [] counts h c e = cc
deadlock_free (s ∷ ss) counts h c e = cc

module _ (H : HashTable) (hash_state : State → ℕ) (spec : CompiledSpec) (cfg : CheckConfig)
    (universe : List State) (closed : IsClosed spec universe) where
  abbrev St : Type 0
  St = Search H hash_state spec cfg

  module _ (a : StateArena) (k : ℕ) (expanded : (i : ℕ) → i < k → Expanded spec cfg a i)
      (rooted : (s : State) → Initial spec s → Found a s 0) where
    -- A reachable state is in the arena, if the states at smaller depth were expanded.
    pub reach_found :
        (n : ℕ) (s : State)
        → Reach spec n s
        → ((j : ℕ) → j < Arena.len a → Arena.depth a j < n → j < k)
        → InBound cfg.max_steps n
        → Found a s n
    reach_found n s (start first) before bound = rooted s first
    reach_found n s (next {n = m} {s = u} r (ss, e, member)) before bound =
        let (j, l, at, d) =
          reach_found m u r (λ j l h. before j l (omega arith))
            (InBound-mono cfg.max_steps m (suc m) (omega arith) bound) in
        let x = expanded j (before j l (omega arith)) in
        let in_bound =
          InBound-reached cfg.max_steps (Arena.depth a j)
            (InBound-mono cfg.max_steps (suc (Arena.depth a j)) (suc m) (omega arith) bound) in
        let same : x.successors ≡ ss = cc (x.returned, ap (λ v. enumerate (spec.step v)) at) in
        let (i, li, ati, di) = x.admitted in_bound s (subst (λ l. s ∈ l) (sym same) member) in
        (i, li, ati, omega (arith, di, d))

  pub record Ready (k top : ℕ) (st : St) : Type 0 where
    pub inv : Inv spec cfg H hash_state universe k k top st
    pub rooted : (s : State) → Initial spec s → Found st.arena s 0
    pub near : k < Arena.len st.arena → top ≤ suc (Arena.depth st.arena k)
    pub bound : InBound cfg.max_steps top

  -- The state `k` left the queue of a search that was ready for it.
  module _ (k top : ℕ) (st : St) (ready : Ready k top st) (stored : k < Arena.len st.arena) where
    open st use {arena as a}
    open ready use {inv, rooted, near, bound}

    abbrev d : ℕ
    d = Arena.depth a k

    abbrev u : State
    u = Arena.get a k

    abbrev popped : St
    popped = record st { frontier = ids (suc k) (Arena.len a - suc k) }

    arrived :
        (n m : ℕ) (s : State)
        → Reach spec m s
        → m ≤ n
        → n ≤ d
        → InBound cfg.max_steps n
        → Found a s m
    arrived n m s r h h' b =
        reach_found a k inv.expanded rooted m s r
          (λ j l lower. elim (dec_lt j k) [
            | yes before ↦ before
            | no behind ↦ absurd (omega (arith, inv.arena_inv.monotone k j (omega arith) l))
          ])
          (InBound-mono cfg.max_steps m n h b)

    good_below : InBound cfg.max_steps (suc d) → GoodBelow spec cfg (suc d)
    good_below b m s r h =
        let (j, l, at, low) =
          arrived d m s r (omega arith) (omega arith)
            (InBound-mono cfg.max_steps d (suc d) (omega arith) b) in
        subst (λ v. check_invs spec v ≡ ok none) at (inv.good j l)

    moves_below : MovesBelow spec cfg d
    moves_below m s r h =
        let (j, l, at, low) = arrived m m s r (omega arith) (omega arith) (
          InBound-mono cfg.max_steps m top (omega (arith, inv.arena_inv.shallow k stored)) bound) in
        let before : j < k = elim (dec_lt j k) [
          | yes before ↦ before
          | no behind ↦ absurd (omega (arith, inv.arena_inv.monotone k j (omega arith) l))
        ] in
        let x = inv.expanded j before in
        (x.successors, ap (λ v. enumerate (spec.step v)) (sym at) ∙ x.returned, x.moves)

    leads : LeadsTo spec cfg (Arena.trace a k) d u
    leads =
        let (path, way, e) = trace-Trace spec universe closed top a inv.arena_inv k stored in
        (path, e, way)

    -- What `expand` hands on: a search that is ready for the next state.
    abbrev Continues : St → Type 0
    Continues st' = (top' : ℕ) × Ready (suc k) top' st'

    Expanded-suc :
        (a' : StateArena)
        → Expanded spec cfg a' k
        → ((i : ℕ) → i < k → Expanded spec cfg a' i)
        → (i : ℕ) → i < suc k
        → Expanded spec cfg a' i
    Expanded-suc a' this before i h = elim (dec_lt i k) [
      | yes l ↦ before i l
      | no l ↦ subst (Expanded spec cfg a') (let same : k ≡ i = omega arith in same) this
    ]

    -- At the bound on the depth the successors are left alone.
    skipped :
        (ss : List State)
        → enumerate (spec.step u) ≡ ok ss
        → (cfg.deadlock ≡ true → ss ≢ [])
        → reached cfg.max_steps d ≡ true
        → Continues popped
    skipped ss e moves full = (
      top,
      record {
        inv = record {
          arena_inv = inv.arena_inv;
          seen_inv = inv.seen_inv;
          begun = omega arith;
          behind = omega arith;
          queue = refl;
          expanded =
              Expanded-suc a
                (record {
                  successors = ss;
                  returned = e;
                  moves = moves;
                  admitted = λ open_ t m. absurd (cc open_);
                })
                inv.expanded;
          good = inv.good;
        };
        rooted = rooted;
        near = λ l. omega (arith, near stored, inv.arena_inv.monotone k (suc k) (omega arith) l);
        bound = bound;
      },
    )

    start_successors : Inv spec cfg H hash_state universe k (suc k) (suc d) popped
    start_successors = record {
      arena_inv = record {
        flat = flat;
        width = width;
        within = within;
        distinct = distinct;
        origin = origin;
        monotone = monotone;
        shallow = λ i l. omega (arith, shallow i l, near stored);
        depth_le = depth_le;
      };
      seen_inv = inv.seen_inv;
      begun = omega arith;
      behind = omega arith;
      queue = refl;
      expanded = inv.expanded;
      good = inv.good;
    }
      where
        open inv.arena_inv use {flat, width, within, distinct, origin, monotone, shallow, depth_le}

    module _ (ss : List State) (e : enumerate (spec.step u) ≡ ok ss)
        (moves : cfg.deadlock ≡ true → ss ≢ []) (more : reached cfg.max_steps d ≡ false) where
      abbrev Admitted : St → Type 0
      Admitted =
          AllAdmitted H hash_state spec cfg universe closed k d u
            (good_below (reached-InBound cfg.max_steps d more)) a ss

      admitted : (st' : St) → Admitted st' → Continues st'
      admitted st' all = (
        suc d,
        record {
          inv = record {
            arena_inv = arena_inv;
            seen_inv = seen_inv;
            begun = begun;
            behind = omega arith;
            queue = queue;
            expanded =
                Expanded-suc st'.arena
                  (record {
                    successors = ss;
                    returned = ap (λ v. enumerate (spec.step v)) (grown.gets k stored) ∙ e;
                    moves = moves;
                    admitted = λ _ t m.
                        subst (λ n. Found st'.arena t (suc n)) (sym (grown.depths k stored))
                          (found t m);
                  })
                  expanded;
            good = good;
          };
          rooted = λ s first. Found-Extends a st'.arena s 0 grown (rooted s first);
          near = λ l.
              omega (arith, grown.depths k stored, arena_inv.monotone k (suc k) (omega arith) l);
          bound = reached-InBound cfg.max_steps d more;
        },
      )
        where
          open all use {inv as after, grown, found}
          open after use {arena_inv, seen_inv, begun, queue, expanded, good}

      fold-Continues :
          Ensures spec cfg Continues
            (fold_states (admit_successor H hash_state spec cfg k d) ss popped)
      fold-Continues = Ensures-map spec cfg Admitted Continues _ admitted (
          fold_successors H hash_state spec cfg universe closed k d u
            (good_below (reached-InBound cfg.max_steps d more)) ss popped start_successors
            (record { stored = stored; state = refl; level = refl }) (λ s m. (ss, e, m)))

    pub expand-Continues : Ensures spec cfg Continues (expand H hash_state spec cfg k popped)
    unfolding expand
    expand-Continues = elim (Result-cases (enumerate (spec.step u))) [
      | inr (x, e) ↦ rw (expand, e) (inr (d, u, leads, inr e))
      | inl (ss, e) ↦ elim (Bool-cases (no_successors ss && cfg.deadlock)) [
        | inl stuck ↦
            let (none_left, counts) = deadlock_found ss cfg.deadlock stuck in
            rw (expand, e, stuck) (d, u, leads, e ∙ ap ok none_left, counts, moves_below)
        | inr free ↦
            let moves = deadlock_free ss cfg.deadlock free in
            elim (Bool-cases (reached cfg.max_steps d)) [
              | inl full ↦ rw (expand, e, free, full) (skipped ss e moves full)
              | inr more ↦ rw (expand, e, free, more) (fold-Continues ss e moves more)
            ]
      ]
    ]
