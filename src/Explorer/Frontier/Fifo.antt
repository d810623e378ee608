-- ===== src/Explorer/Frontier/Fifo.antt =====
-- The flat frontier is a queue.
use inquint.Prelude.{
  ℕ, suc, zero, ◌+◌, ◌%◌, ◌≡◌, refl, ap, ◌∙◌, sym, none, some, List, [], ◌∷◌, ◌++◌, append_assoc,
  append-nil, length, take, drop, arith,
}
use inquint.State.Arena.{Value, State, u32_mod}
use inquint.Explorer.Frontier
use inquint.Explorer.Frontier.{FlatFrontier}

-- The frontier holds the states of the list with their depths, in order.
abbrev rows : List (State × ℕ) → List Value
rows [] = []
rows ((s, d) ∷ es) = s ++ rows es

abbrev row_depths : List (State × ℕ) → List ℕ
row_depths [] = []
row_depths ((s, d) ∷ es) = d ∷ row_depths es

abbrev AllSized : ℕ → List (State × ℕ) → Type 0
AllSized n [] = Unit {0}
AllSized n ((s, d) ∷ es) = (length s ≡ n) × AllSized n es

pub record Queues (q : FlatFrontier) (es : List (State × ℕ)) : Type 0 where
  pub data_rows : q.data_ ≡ rows es
  pub depth_rows : q.depths ≡ row_depths es
  pub sized : AllSized q.n_vars es

rows-snoc : (es : List (State × ℕ)) (s : State) (d : ℕ) → rows (es ++ (s, d) ∷ []) ≡ rows es ++ s
rows-snoc [] s d = append-nil s
rows-snoc (e ∷ es) s d = ap (λ t. e.0 ++ t) (rows-snoc es s d) ∙ sym (append_assoc e.0 (rows es) s)

row_depths-snoc :
    (es : List (State × ℕ)) (s : State) (d : ℕ)
    → row_depths (es ++ (s, d) ∷ []) ≡ row_depths es ++ d ∷ []
row_depths-snoc [] s d = refl
row_depths-snoc (e ∷ es) s d = ap (λ t. e.1 ∷ t) (row_depths-snoc es s d)

AllSized-snoc :
    (n : ℕ) (es : List (State × ℕ)) (s : State) (d : ℕ)
    → AllSized n es
    → length s ≡ n
    → AllSized n (es ++ (s, d) ∷ [])
AllSized-snoc n [] s d h e = (e, tt)
AllSized-snoc n (x ∷ es) s d h e = (h.0, AllSized-snoc n es s d h.1 e)

-- What `pop` returns for a queue that holds the list: nothing when it is empty, else its first
-- entry, and a queue that holds the rest.
abbrev pub Pops : FlatFrontier → List (State × ℕ) → Type 0
Pops q [] = Frontier.pop q ≡ none
Pops q ((s, d) ∷ es) =
    (q' : FlatFrontier) × (Frontier.pop q ≡ some (q', s, q.pop_idx, d))
    × Queues q' es
    × (q'.pop_idx ≡ (q.pop_idx + 1) % u32_mod)

drop-append : (n : ℕ) (xs ys : List Value) → length xs ≡ n → drop n (xs ++ ys) ≡ ys
drop-append zero [] ys h = refl
drop-append (suc n) [] ys h = absurd (omega arith)
drop-append zero (x ∷ xs) ys h = absurd (omega arith)
drop-append (suc n) (x ∷ xs) ys h = drop-append n xs ys (omega arith)

take-append : (n : ℕ) (xs ys : List Value) → length xs ≡ n → take n (xs ++ ys) ≡ xs
take-append zero [] ys h = refl
take-append (suc n) [] ys h = absurd (omega arith)
take-append zero (x ∷ xs) ys h = absurd (omega arith)
take-append (suc n) (x ∷ xs) ys h = ap (λ t. x ∷ t) (take-append n xs ys (omega arith))

pop-Pops : (q : FlatFrontier) (es : List (State × ℕ)) → Queues q es → Pops q es
unfolding Frontier.pop
pop-Pops q [] h = rw h.depth_rows
pop-Pops q ((s, d) ∷ es) h = (
  record q { data_ = rows es; depths = row_depths es; pop_idx = (q.pop_idx + 1) % u32_mod },
  rw (
    h.depth_rows,
    h.data_rows,
    drop-append q.n_vars s (rows es) h.sized.0,
    take-append q.n_vars s (rows es) h.sized.0,
  ),
  record { data_rows = refl; depth_rows = refl; sized = h.sized.1 },
  refl,
)

-- A frontier that holds a list of states of its width and their depths holds, after a push of
-- another such state, the list with that state behind it, and a pop takes the first entry of the
-- list, if there is one, with the next discovery index.
pub frontier_fifo :
    (q : FlatFrontier) (es : List (State × ℕ)) (s : State) (d : ℕ)
    → Queues q es
    → length s ≡ q.n_vars
    → Queues (Frontier.push q s d) (es ++ (s, d) ∷ []) × Pops q es
unfolding Frontier.push
frontier_fifo q es s d h size = (
  record {
    data_rows = rw (h.data_rows, rows-snoc es s d);
    depth_rows = rw (h.depth_rows, row_depths-snoc es s d);
    sized = AllSized-snoc q.n_vars es s d h.sized size;
  },
  pop-Pops q es h,
)
