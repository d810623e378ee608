-- ===== src/State/Arena.antt =====
-- `StateArena` of inquint/src/state.rs: explored states stored flat, with parent links and depths.
pub mod Laws
use inquint.Prelude.{ℕ, zero, suc, ◌+◌, ◌-◌, ◌*◌, ◌%◌, ◌^◌, Bool, true, false, Option, none, some}
use inquint.Prelude.{List, [], ◌∷◌, ◌++◌, ◌==◌, if◌then◌else◌, length, get_or, take, drop}

-- An interned value is its `u32` id, and a state holds one for each variable.
abbrev pub Value : Type 0
Value = ℕ

abbrev pub State : Type 0
State = List Value

abbrev pub u32_mod : ℕ
u32_mod = 2 ^ 32

-- `u32::MAX`, the parent of an initial state.
abbrev pub no_parent : ℕ
no_parent = 4294967295

pub record StateArena : Type 0 where
  pub n_vars : ℕ
  pub data_ : List Value
  pub parents : List ℕ
  pub depths : List ℕ

unfoldable pub new : ℕ → StateArena
new n = record { n_vars = n; data_ = []; parents = []; depths = [] }

abbrev pub len : StateArena → ℕ
len a = length a.parents

unfoldable pub is_empty : StateArena → Bool
is_empty a = len a == 0

unfoldable pub get : StateArena → ℕ → State
get a id = take a.n_vars (drop (id * a.n_vars) a.data_)

-- An index behind the end panics in the code; none is read.
unfoldable pub depth : StateArena → ℕ → ℕ
depth a id = get_or a.depths id 0

unfoldable pub parent : StateArena → ℕ → ℕ
parent a id = get_or a.parents id no_parent

abbrev pub parent_or_none : Option ℕ → ℕ
parent_or_none none = no_parent
parent_or_none (some p) = p

-- Returns the arena and the id of the new state.
unfoldable pub push : StateArena → State → Option ℕ → ℕ → StateArena × ℕ
push a s p d = (
  record a {
    data_ = a.data_ ++ s;
    parents = a.parents ++ parent_or_none p ∷ [];
    depths = a.depths ++ d ∷ [];
  },
  len a % u32_mod,
)

-- The loop of `trace`, with fuel. The vector that the code fills is held backwards, so that the
-- `reverse` at the end of the code leaves it as it is; `none` is a loop that does not end.
unfoldable pub trace_loop : StateArena → ℕ → ℕ → List State → Option (List State)
trace_loop a zero id acc = none
trace_loop a (suc fuel) id acc =
    let acc' = get a id ∷ acc in
    let up = trace_loop a fuel (parent a id) acc' in
    if parent a id == no_parent then some acc' else up

-- A chain of parents is no longer than the arena.
unfoldable pub trace : StateArena → ℕ → Option (List State)
unfolding trace_loop
trace a id = trace_loop a (len a) id []
