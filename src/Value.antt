-- ===== src/Value.antt =====
-- The values of inquint/src/value.rs. A value is interned there: an id stands for a node whose
-- children are ids, and equal nodes have one id. Here a value is the tree that its id stands for,
-- so that `==` of ids is equality of trees.
mod Tests
pub mod Compare
pub mod Build
pub mod Search
pub mod Sets
pub mod Pick
pub mod Member
pub mod Canonical
pub mod Construct
pub mod Update
use inquint.Prelude.{ℕ, suc, Bool, true, false, ◌||◌, ◌≡◌, refl, ap, List, [], ◌∷◌, ℤ}

-- A string and a symbol are their places in the order of strings; `lambda` has the place in the
-- registry.
mutual
  pub data ValueData : Type 0 where
    bool : Bool → ValueData
    int : ℤ → ValueData
    str : ℕ → ValueData
    set tuple list : Values → ValueData
    rec : Fields → ValueData
    map : Entries → ValueData
    variant : ℕ → ValueData → ValueData
    lambda : ℕ → ValueData
    interval : ℤ → ℤ → ValueData
    cross_product : Values → ValueData
    power_set : ValueData → ValueData
    map_set : ValueData → ValueData → ValueData
    infinite_int infinite_nat : ValueData

  -- `Box<[Value]>`
  pub data Values : Type 0 where
    nil : Values
    cons : ValueData → Values → Values

  -- A record shape and the values, as pairs in the order of the field names.
  pub data Fields : Type 0 where
    no_fields : Fields
    field : ℕ → ValueData → Fields → Fields

  -- `Box<[(Value, Value)]>`
  pub data Entries : Type 0 where
    empty : Entries
    entry : ValueData → ValueData → Entries → Entries

abbrev pub to_list : Values → List ValueData
to_list Values.nil = []
to_list (Values.cons v vs) = v ∷ to_list vs

abbrev pub of_list : List ValueData → Values
of_list [] = Values.nil
of_list (v ∷ vs) = Values.cons v (of_list vs)

abbrev pub to_pairs : Entries → List (ValueData × ValueData)
to_pairs Entries.empty = []
to_pairs (Entries.entry k v es) = (k, v) ∷ to_pairs es

abbrev pub of_pairs : List (ValueData × ValueData) → Entries
of_pairs [] = Entries.empty
of_pairs ((k, v) ∷ es) = Entries.entry k v (of_pairs es)

pub to_list-of_list : (vs : List ValueData) → to_list (of_list vs) ≡ vs
to_list-of_list [] = refl
to_list-of_list (v ∷ vs) = ap (λ t. v ∷ t) (to_list-of_list vs)

pub to_pairs-of_pairs : (es : List (ValueData × ValueData)) → to_pairs (of_pairs es) ≡ es
to_pairs-of_pairs [] = refl
to_pairs-of_pairs (e ∷ es) = ap (λ t. e ∷ t) (to_pairs-of_pairs es)

unfoldable pub discriminant_rank : ValueData → ℕ
discriminant_rank (ValueData.bool b) = 0
discriminant_rank (ValueData.int n) = 1
discriminant_rank (ValueData.str s) = 2
discriminant_rank (ValueData.set vs) = 3
discriminant_rank (ValueData.tuple vs) = 4
discriminant_rank (ValueData.list vs) = 5
discriminant_rank (ValueData.rec fs) = 6
discriminant_rank (ValueData.map es) = 7
discriminant_rank (ValueData.variant label v) = 8
discriminant_rank (ValueData.lambda i) = 9
discriminant_rank (ValueData.interval a b) = 10
discriminant_rank (ValueData.cross_product sets) = 11
discriminant_rank (ValueData.power_set base) = 12
discriminant_rank (ValueData.map_set d r) = 13
discriminant_rank ValueData.infinite_int = 14
discriminant_rank ValueData.infinite_nat = 15

unfoldable pub is_symbolic : ValueData → Bool
is_symbolic (ValueData.interval a b) = true
is_symbolic (ValueData.cross_product sets) = true
is_symbolic (ValueData.power_set base) = true
is_symbolic (ValueData.map_set d r) = true
is_symbolic ValueData.infinite_int = true
is_symbolic ValueData.infinite_nat = true
is_symbolic v = false

unfoldable pub is_set : ValueData → Bool
unfolding is_symbolic
is_set (ValueData.set vs) = true
is_set v = is_symbolic v
