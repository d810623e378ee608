-- ===== src/Temporal/Product/Ids.antt =====
-- The ids of pairs in inquint/src/temporal/product.rs, which are cut to 32 bits.
use inquint.Prelude.{ℕ, ◌%◌, ◌≡◌, inl, inr, length, Option-cases, none, arith}
use inquint.State.Arena.{u32_mod}
use inquint.Temporal.Graph.{StateGraph}
use inquint.Temporal.Buchi.{Gba}
use inquint.Temporal.Product.{Build, find_pair, intern_pair}
use inquint.Temporal.Product.Bounds.{length-Sound}
use inquint.Temporal.Product.Interned.{
  Sound, Bounded, Grows-refl, FewPairs, Interns, find_pair-some, more, more-Sound, more-Grows,
  len_more, new_node,
}

module _ (g : StateGraph) (a : Gba) (few : FewPairs g a) (b : Build) (s q : ℕ) (ok_ : Sound g a b)
    (bd : Bounded g a (s, q)) where
  -- A new pair is one of the pairs that there can be, so that its id is not cut.
  id-exact : find_pair b.nodes s q ≡ none → length b.nodes % u32_mod ≡ length b.nodes
  id-exact out = omega (
    arith,
    few,
    length-Sound g a (more g a b s q ok_ bd out) (more-Sound g a b s q ok_ bd out),
    len_more g a b s q ok_ bd out,
  )

  pub intern_pair-Interns : Interns g a b (s, q) (intern_pair b s q)
  unfolding intern_pair
  intern_pair-Interns = elim (Option-cases (find_pair b.nodes s q)) [
    | inr (id, e) ↦ rw (intern_pair, e) (ok_, (Grows-refl b, find_pair-some b.nodes s q id e))
    | inl e ↦
        rw (intern_pair, e, id-exact e)
          (
            more-Sound g a b s q ok_ bd e,
            (
              more-Grows g a b s q ok_ bd e,
              (omega (arith, len_more g a b s q ok_ bd e), new_node g a b s q ok_ bd e),
            ),
          )
  ]
