-- ===== src/Explorer/Exact/Initials.antt =====
-- The loop over the initial states, which do not repeat.
use inquint.Prelude.{ℕ, ◌<◌, ◌≡◌, ◌≢◌, refl, sym, ◌∙◌, subst, inl, inr, Bool}
use inquint.Prelude.{none, List, [], ◌∷◌, ◌∈◌, length, Result, arith}
use inquint.Order.SortLaws.{Distinct}
use inquint.State.Arena
use inquint.State.Arena.{State, StateArena, no_parent}
use inquint.State.Arena.Laws.{depth-push_new, get-push_new, parent-push_new}
use inquint.State.Table.{HashTable}
use inquint.State.Seen.Laws.{Inserted, insert_or_get-Inserted}
use inquint.Explorer.{CompiledSpec, CheckConfig, Return}
use inquint.Explorer.Relations.{Initial}
use inquint.Explorer.Exact.{Search, visit, admit_initial, fold_states, blank}
use inquint.Explorer.Exact.Invariant.{IsClosed, Found, Origin, Inv}
use inquint.Explorer.Exact.Grow.{Extends, Extends-refl, Extends-trans, Found-Extends}
use inquint.Explorer.Exact.Traces.{len-lt-no_parent}
use inquint.Explorer.Exact.Promise.{GoodBelow, Ensures, Ensures-bind, Ensures-map}
use inquint.Explorer.Exact.Admit.{Admitted, visit_new}

module _ (H : HashTable) (hash_state : State → ℕ) (spec : CompiledSpec) (cfg : CheckConfig)
    (universe : List State) (closed : IsClosed spec universe) where
  abbrev St : Type 0
  St = Search H hash_state spec cfg

  abbrev Good : St → Type 0
  Good st = Inv spec cfg H hash_state universe 0 0 0 st

  nothing_below : GoodBelow spec cfg 0
  nothing_below m s r h = elim h [ ]

  module _ (st : St) (inv : Good st) (s : State) (first : Initial spec s)
      (unseen : (i : ℕ) → i < Arena.len st.arena → Arena.get st.arena i ≢ s) where
    open st use {arena as a, seen as t}

    member : s ∈ universe
    member = closed.initial s first

    size : length s ≡ a.n_vars
    size = closed.size s member ∙ sym inv.arena_inv.width

    abbrev a' : StateArena
    a' = (Arena.push a s none 0).0

    from_nothing : Origin spec a' (Arena.len a)
    from_nothing =
        let flat = inv.arena_inv.flat in
        inl (
          parent-push_new a s none 0 flat size,
          depth-push_new a s none 0 flat size,
          subst (Initial spec) (sym (get-push_new a s none 0 flat size)) first,
        )

    abbrev go_on : (H.Table × StateArena) × (ℕ × Bool) → Result Return St
    go_on r = visit H hash_state spec cfg (record st { arena = r.0.1; seen = r.0.0 }) s r.1.0

    abbrev AdmittedHere : St → Type 0
    AdmittedHere = Admitted H hash_state spec cfg universe closed 0 0 0 a s

    go_on-Ensures :
        {r : (H.Table × StateArena) × (ℕ × Bool)}
        → Inserted H hash_state t a s none 0 inv.arena_inv.flat size inv.seen_inv r
        → Ensures spec cfg AdmittedHere (go_on r)
    go_on-Ensures (Inserted.old id l same) = absurd (unseen id l same)
    go_on-Ensures (Inserted.fresh new m) =
        visit_new H hash_state spec cfg universe closed 0 0 0 st inv s none member (omega arith)
          nothing_below new m from_nothing

    admit_initial-Ensures : Ensures spec cfg AdmittedHere (admit_initial H hash_state spec cfg s st)
    unfolding admit_initial
    admit_initial-Ensures = go_on-Ensures (
        insert_or_get-Inserted H hash_state t a s none 0 inv.arena_inv.flat size inv.seen_inv
          (len-lt-no_parent spec universe closed 0 a inv.arena_inv))

  -- All of a list of initial states were admitted.
  pub record AllAdmitted (a : StateArena) (ss : List State) (st : St) : Type 0 where
    pub inv : Good st
    pub grown : Extends a st.arena
    pub found : (s : State) → s ∈ ss → Found st.arena s 0

  pub fold_initials :
      (ss : List State) (st : St)
      → Good st
      → Distinct ss
      → ((s : State) → s ∈ ss → Initial spec s)
      → ((s : State) → s ∈ ss → (i : ℕ) → i < Arena.len st.arena → Arena.get st.arena i ≢ s)
      → Ensures spec cfg
          (AllAdmitted st.arena ss)
          (fold_states (admit_initial H hash_state spec cfg) ss st)
  unfolding fold_states
  fold_initials [] st inv d firsts unseen = record {
    inv = inv;
    grown = Extends-refl st.arena;
    found = λ s m. absurd m;
  }
  fold_initials (s ∷ ss) st inv d firsts unseen =
      let first = firsts s (inl refl) in
      let new = unseen s (inl refl) in
      Ensures-bind spec cfg (AdmittedHere st inv s first new) (AllAdmitted st.arena (s ∷ ss))
        (admit_initial H hash_state spec cfg s st) _ (admit_initial-Ensures st inv s first new)
        (λ st1 one.
          Ensures-map spec cfg (AllAdmitted st1.arena ss) (AllAdmitted st.arena (s ∷ ss))
            (fold_states (admit_initial H hash_state spec cfg) ss st1)
            (λ st2 rest. record {
              inv = rest.inv;
              grown = Extends-trans _ _ _ one.grown rest.grown;
              found = λ t. elim [
                | inl e ↦
                    subst (λ v. Found st2.arena v 0) (sym e)
                      (Found-Extends st1.arena st2.arena s 0 rest.grown one.found)
                | inr m ↦ rest.found t m
              ];
            })
            (fold_initials ss st1 one.inv d.1 (λ t m. firsts t (inr m))
              (λ t m i l same. elim (one.only i l) [
                | inl old ↦ unseen t (inr m) i old (sym (one.grown.gets i old) ∙ same)
                | inr e ↦ d.0 (subst (λ v. v ∈ ss) (sym same ∙ e) m)
              ])))

  pub blank-Good : Good (blank H hash_state spec cfg)
  unfolding Arena.new
  blank-Good = record {
    arena_inv = record {
      flat = record { data_size = omega arith; depth_size = refl };
      width = refl;
      within = λ i h. elim h [ ];
      distinct = λ i j h h'. elim h' [ ];
      origin = λ i h. elim h [ ];
      monotone = λ i j h h'. elim h' [ ];
      shallow = λ i h. elim h [ ];
      depth_le = λ i h. elim h [ ];
    };
    seen_inv = record {
      sound = λ h id m. absurd (subst (λ l. (h, id) ∈ l) H.entries-empty m);
      full = λ i h. elim h [ ];
    };
    begun = omega arith;
    behind = omega arith;
    queue = refl;
    expanded = λ i h. elim h [ ];
    good = λ i h. elim h [ ];
  }
