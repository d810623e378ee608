-- ===== src/Slab.antt =====
-- `locate` of quint-ast/src/slab.rs: the segment and the offset of a slot in the table of segments
-- that grow by doubling, which the interners share.
mod Tests
pub mod Bounds
use inquint.Prelude.{ℕ, zero, suc, ◌+◌, ◌-◌, ◌*◌, ◌/◌, ◌^◌, ltb, if◌then◌else◌}

-- `SEG0_SHIFT` and `NSEG`
abbrev pub seg0_shift : ℕ
seg0_shift = 12

abbrev pub n_seg : ℕ
n_seg = 28

-- `31 - j.leading_zeros()` of a 32-bit number that is not 0, the index of its highest bit, by
-- recursion on the number of bits.
unfoldable pub highest_bit : ℕ → ℕ → ℕ
highest_bit zero j = 0
highest_bit (suc bits) j = let above = highest_bit bits (j / 2) in if ltb j 2 then 0 else suc above

-- The segment and the offset: segment `k` holds `4096 << k` slots.
unfoldable pub locate : ℕ → ℕ × ℕ
locate i =
    let j = i / 2 ^ seg0_shift + 1 in
    let seg = highest_bit 32 j in let base = (2 ^ seg - 1) * 2 ^ seg0_shift in (seg, i - base)
