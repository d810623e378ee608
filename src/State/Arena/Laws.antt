-- ===== src/State/Arena/Laws.antt =====
-- What reads of the arena see after a `push`.
use inquint.Prelude.{ℕ, suc, ◌+◌, ◌*◌, ◌<◌, ◌≤◌, ◌≡◌, refl, sym, ◌∙◌, Option}
use inquint.Prelude.{[], ◌∷◌, length, length-append, arith}
use inquint.Prelude.{take-drop-append_left, take-drop-append_right, get_or-append_left, get_or-snoc}
use inquint.State.Arena.{
  State, StateArena, len, get, depth, parent, push, parent_or_none, no_parent,
}
use native.Mathlib.Nat.{mul_comm}

-- The three vectors agree on the number of states.
pub record IsFlat (a : StateArena) : Type 0 where
  pub data_size : length a.data_ ≡ a.n_vars * len a
  pub depth_size : length a.depths ≡ len a

row-le : (i n rows size : ℕ) → i < rows → size ≡ n * rows → i * n + n ≤ size
row-le i n rows size h e = grind arith

sum_rows : (x y n m m' : ℕ) → x ≡ n * m → y ≡ n → m' ≡ suc m → x + y ≡ n * m'
sum_rows x y n m m' e f g = rw g (omega arith)

module _ (a : StateArena) (s : State) (p : Option ℕ) (d : ℕ) (flat : IsFlat a)
    (size : length s ≡ a.n_vars) where
  abbrev pushed : StateArena
  pushed = (push a s p d).0

  pub len-push : len pushed ≡ suc (len a)
  unfolding push
  len-push = omega (arith, length-append a.parents (parent_or_none p ∷ []))

  pub push-IsFlat : IsFlat pushed
  unfolding push
  push-IsFlat = record {
    data_size =
        length-append a.data_ s ∙ sum_rows _ _ a.n_vars (len a) _ flat.data_size size len-push;
    depth_size = omega (
      arith,
      flat.depth_size,
      length-append a.parents (parent_or_none p ∷ []),
      length-append a.depths (d ∷ []),
    );
  }

  pub get-push_old : (i : ℕ) → i < len a → get pushed i ≡ get a i
  unfolding push get
  get-push_old i h =
      take-drop-append_left a.n_vars (i * a.n_vars) a.data_ s
        (row-le i a.n_vars (len a) (length a.data_) h flat.data_size)

  pub get-push_new : get pushed (len a) ≡ s
  unfolding push get
  get-push_new = rw (row_start, ← size) (take-drop-append_right a.data_ s)
    where
      row_start : len a * a.n_vars ≡ length a.data_
      row_start = mul_comm (len a) a.n_vars ∙ sym flat.data_size

  pub depth-push_old : (i : ℕ) → i < len a → depth pushed i ≡ depth a i
  unfolding push depth
  depth-push_old i h = get_or-append_left i a.depths (d ∷ []) 0 (omega (arith, flat.depth_size))

  pub depth-push_new : depth pushed (len a) ≡ d
  unfolding push depth
  depth-push_new = rw (← flat.depth_size) (get_or-snoc a.depths d 0)

  pub parent-push_old : (i : ℕ) → i < len a → parent pushed i ≡ parent a i
  unfolding push parent
  parent-push_old i h = get_or-append_left i a.parents (parent_or_none p ∷ []) no_parent h

  pub parent-push_new : parent pushed (len a) ≡ parent_or_none p
  unfolding push parent
  parent-push_new = get_or-snoc a.parents (parent_or_none p) no_parent

pub id-push :
    (a : StateArena) (s : State) (p : Option ℕ) (d : ℕ)
    → len a < no_parent
    → (push a s p d).1 ≡ len a
unfolding push
id-push a s p d h = omega arith

pub width-push :
    (a : StateArena) (s : State) (p : Option ℕ) (d : ℕ) → (push a s p d).0.n_vars ≡ a.n_vars
unfolding push
width-push a s p d = refl
