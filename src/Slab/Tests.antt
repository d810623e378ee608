-- ===== src/Slab/Tests.antt =====
-- The last slot of the first segment, and the first of the next.
use inquint.Prelude.{◌+◌, ◌-◌, ◌*◌, ◌^◌, ◌<◌, ◌≡◌, refl, arith}
use inquint.Slab.{n_seg, highest_bit, locate}
use inquint.Slab.Bounds.{locate_bounds}

located : (locate 4095 ≡ (0, 4095)) × (locate 4096 ≡ (1, 0)) × (locate 12288 ≡ (2, 0))
unfolding locate highest_bit
located = (refl, refl, refl)

locate_bounds_example :
    ((locate 5000).0 < n_seg)
    × ((locate 5000).1 < 4096 * 2 ^ (locate 5000).0)
    × ((2 ^ (locate 5000).0 - 1) * 4096 + (locate 5000).1 ≡ 5000)
locate_bounds_example = locate_bounds 5000 (omega arith)
