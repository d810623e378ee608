-- ===== src/Value/Pick/Canonical.antt =====
-- What `enumerate` of inquint/src/value.rs returns is sorted and has no repetitions.
use inquint.Prelude.{ℕ, ◌≡◌, subst, inl, inr, List, [], length, ltb, ◌==◌, Bool-cases, arith}
use inquint.Prelude.{ok, ◌>>=◌, bind-ok, ok_injective}
use inquint.Order.Canonical.{IsCanonical}
use inquint.Value.{ValueData}
use inquint.Value.Build.{sort_values_structural, dedup_values}
use inquint.Value.Canonical.{elements, dedup_values-IsCanonical}
use inquint.Value.Compare.Instance.{value_ordered}
use inquint.Value.Pick.{
  Picked, pick, pick_loop, zeros, max_enum, enumerate, enumerate_by, enumerate_symbolic,
}
use inquint.Value.Sets.{cardinality, bounds}

module _ (from : List ℕ → Picked) (s : ValueData) (vs : List ValueData) where
  enumerate_symbolic-IsCanonical : enumerate_symbolic from s ≡ ok vs → IsCanonical vs
  unfolding enumerate_symbolic
  enumerate_symbolic-IsCanonical h =
      let (n, (c, rest)) = bind-ok (cardinality s) _ vs h in
      elim (Bool-cases (ltb max_enum n)) [
        | inl e ↦ absurd (ground arith)
        | inr e ↦ elim (Bool-cases (n == 0)) [
          | inl z ↦ let empty : [] ≡ vs = ground arith in subst (λ l. IsCanonical l) empty (tt, tt)
          | inr z ↦
              let visit : (bounds s >>= λ bs. pick_loop from bs n (zeros (length bs)) [] >>= λ out.
              ok (dedup_values (sort_values_structural out)))
                  ≡ ok vs =
                ground arith in
              let (bs, (b, loop)) = bind-ok (bounds s) _ vs visit in
              let (out, (l, last)) =
                bind-ok (pick_loop from bs n (zeros (length bs)) []) _ vs loop in
              subst (λ l. IsCanonical l) (ok_injective last) (dedup_values-IsCanonical out)
        ]
      ]

pub enumerate-IsCanonical :
    (s : ValueData) (vs : List ValueData)
    → IsCanonical (elements s)
    → enumerate s ≡ ok vs
    → IsCanonical vs
unfolding enumerate enumerate_by
enumerate-IsCanonical (ValueData.set es) vs c h = subst (λ l. IsCanonical l) (ok_injective h) c
enumerate-IsCanonical ValueData.infinite_int vs c h = ground arith
enumerate-IsCanonical ValueData.infinite_nat vs c h = ground arith
enumerate-IsCanonical s vs c h = enumerate_symbolic-IsCanonical (pick s) s vs h
