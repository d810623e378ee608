-- ===== src/Temporal/Product/Bounds.antt =====
-- How many pairs the product of inquint/src/temporal/product.rs can have.
use inquint.Prelude.{
  ℕ, zero, suc, ◌*◌, ◌<◌, ◌≤◌, ◌≡◌, refl, sym, ap, subst, inl, inr, List, [], ◌∷◌, ◌++◌, ◌∈◌,
  mem_append_left, mem_append_right, length, length-append, pigeonhole, arith,
}
use inquint.Temporal.Graph
use inquint.Temporal.Graph.{StateGraph}
use inquint.Temporal.Buchi.{Gba, n_nodes}
use inquint.Temporal.Product.{Build}
use inquint.Temporal.Product.Interned.{Pair, node, Sound, last_or}

-- The pairs below the two bounds.
row : ℕ → ℕ → List Pair
row s zero = []
row s (suc n) = (s, n) ∷ row s n

grid : ℕ → ℕ → List Pair
grid zero n = []
grid (suc m) n = row m n ++ grid m n

length-row : (s n : ℕ) → length (row s n) ≡ n
unfolding row
length-row s zero = refl
length-row s (suc n) = ap suc (length-row s n)

length-grid : (m n : ℕ) → length (grid m n) ≡ m * n
unfolding grid
length-grid zero n = grind arith
length-grid (suc m) n =
    grind (arith, length-append (row m n) (grid m n), length-row m n, length-grid m n)

mem-row : (s n q : ℕ) → q < n → (s, q) ∈ row s n
unfolding row
mem-row s zero q h = absurd (omega arith)
mem-row s (suc n) q h = elim (last_or q n h) [
  | inl e ↦ inl (ap (λ z. (s, z)) e)
  | inr lt ↦ inr (mem-row s n q lt)
]

mem-grid : (m n s q : ℕ) → s < m → q < n → (s, q) ∈ grid m n
unfolding grid
mem-grid zero n s q h h' = absurd (omega arith)
mem-grid (suc m) n s q h h' = elim (last_or s m h) [
  | inl e ↦
      subst (λ z. (z, q) ∈ (row m n ++ grid m n)) (sym e)
        (mem_append_left (m, q) (row m n) (grid m n) (mem-row m n q h'))
  | inr lt ↦ mem_append_right (s, q) (row m n) (grid m n) (mem-grid m n s q lt h')
]

pub length-Sound :
    (g : StateGraph) (a : Gba) (b : Build) → Sound g a b → length b.nodes ≤ Graph.len g * n_nodes a
length-Sound g a b ok_ = omega (
  arith,
  length-grid (Graph.len g) (n_nodes a),
  pigeonhole (length b.nodes) (node b) (grid (Graph.len g) (n_nodes a))
      (λ p h.
        let (l, l') = ok_.bounded p h in
        mem-grid (Graph.len g) (n_nodes a) (node b p).0 (node b p).1 l l')
      (λ p q lt h. ok_.distinct p q lt h),
)
