-- ===== src/Kernel/Positions/Masking.antt =====
-- Resetting and masking the distance buffer.
use pdxearch.Prelude.{ℕ, zero, suc, ◌/◌, ◌≡◌, arith, ltb, ◌==◌, if◌then◌else◌, for_up, Buffer}
use pdxearch.Kernel.Positions.{u32_max, reset_pruning_distances, mask_distances}

pub reset_pruning_distances_lem :
    (n v : ℕ) (d : Buffer ℕ) → reset_pruning_distances n d v ≡ (if ltb v n then 0 else d v)
unfolding reset_pruning_distances for_up
reset_pruning_distances_lem zero v d = ground arith
reset_pruning_distances_lem (suc n) v d = ground (arith, reset_pruning_distances_lem n v d)

-- The embeddings that the selection vector marks with 0 get half of the greatest distance, all
-- others keep theirs.
pub mask_distances_lem :
    (n v : ℕ) (d selection : Buffer ℕ)
    → mask_distances n d selection v
      ≡ (if ltb v n then (if selection v == 0 then u32_max / 2 else d v) else d v)
unfolding mask_distances for_up
mask_distances_lem zero v d selection = ground arith
mask_distances_lem (suc n) v d selection = ground (arith, mask_distances_lem n v d selection)
