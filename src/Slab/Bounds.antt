-- ===== src/Slab/Bounds.antt =====
-- Every 32-bit index has a segment of the table and an offset inside it.
use inquint.Prelude.{
  ℕ, zero, suc, ◌+◌, ◌-◌, ◌*◌, ◌/◌, ◌^◌, ◌≤◌, ◌<◌, ◌≡◌, inl, inr, ltb, Bool-cases, arith,
}
use native.Mathlib.Numerals.{unary_clauses}
use native.Mathlib.Decide.{dec_lt}
use inquint.Slab.{n_seg, highest_bit, locate}

pow_suc : (n : ℕ) → 2 ^ suc n ≡ 2 * 2 ^ n
pow_suc n = simp unary_clauses (omega arith)

pow_pos : (n : ℕ) → 1 ≤ 2 ^ n
pow_pos zero = omega arith
pow_pos (suc n) = omega (arith, pow_suc n, pow_pos n)

pow_le : (n m : ℕ) → n ≤ m → 2 ^ n ≤ 2 ^ m
pow_le n zero h = let e : n ≡ 0 = omega arith in rw e (omega arith)
pow_le n (suc m) h = elim (dec_lt n (suc m)) [
  | yes below ↦ omega (arith, pow_suc m, pow_le n m (omega arith))
  | no same ↦ let e : n ≡ suc m = omega arith in rw e (omega arith)
]

highest_bit-bounds :
    (bits j : ℕ)
    → 1 ≤ j
    → j < 2 ^ bits
    → (2 ^ highest_bit bits j ≤ j) × (j < 2 * 2 ^ highest_bit bits j)
unfolding highest_bit
highest_bit-bounds zero j low high = absurd (omega arith)
highest_bit-bounds (suc bits) j low high = elim (Bool-cases (ltb j 2)) [
  | inl e ↦ rw e (ground arith)
  | inr e ↦
      let half : j / 2 < 2 ^ bits = omega (arith, pow_suc bits) in
      let big : 1 ≤ j / 2 = ground arith in
      let (below, above) = highest_bit-bounds bits (j / 2) big half in
      rw e (
        omega (arith, pow_suc (highest_bit bits (j / 2)), below, above),
        omega (arith, pow_suc (highest_bit bits (j / 2)), below, above),
      )
]

-- For a 32-bit index, the segment is one of the table, the offset is below the number of slots of
-- the segment, and the index is the offset behind the slots of all segments before.
pub locate_bounds :
    (i : ℕ)
    → i < 2 ^ 32
    → ((locate i).0 < n_seg)
      × ((locate i).1 < 4096 * 2 ^ (locate i).0)
      × ((2 ^ (locate i).0 - 1) * 4096 + (locate i).1 ≡ i)
unfolding locate
locate_bounds i h =
    let j = i / 4096 + 1 in
    let (below, above) = highest_bit-bounds 32 (i / 4096 + 1) (omega arith) (omega arith) in
    let positive = pow_pos (highest_bit 32 (i / 4096 + 1)) in
    (
      elim (dec_lt (highest_bit 32 (i / 4096 + 1)) n_seg) [
        | yes fits ↦ fits
        | no past ↦
            absurd
              (omega (arith, pow_le n_seg (highest_bit 32 (i / 4096 + 1)) (omega arith), below))
      ],
      omega (arith, below, above, positive),
      omega (arith, below, above, positive),
    )
