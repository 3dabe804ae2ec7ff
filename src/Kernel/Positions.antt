-- ===== src/Kernel/Positions.antt =====
-- The routines of `PDXearch` on the distance and position buffers. A cluster has fewer than 2^32
-- embeddings, so the counters and the stored indices do not wrap.
pub mod Compaction
pub mod Masking
use pdxearch.Prelude.{
  ℕ, ◌+◌, ◌-◌, ◌/◌, ◌^◌, Bool, true, false, List, ltb, leb, ◌==◌, bit, if◌then◌else◌, for_up,
  Buffer, write, prefix, ◌&&◌,
}

-- `std::numeric_limits<uint32_t>::max()`
abbrev pub u32_max : ℕ
u32_max = 2 ^ 32 - 1

-- `pruning_positions` with `n_vectors_not_pruned`
pub record Positions : Type 0 where
  pub positions : Buffer ℕ
  pub count : ℕ

-- The positions that count.
abbrev pub survivors : Positions → List ℕ
survivors s = prefix s.count s.positions

-- `ResetPruningDistances`
unfoldable pub reset_pruning_distances : ℕ → Buffer ℕ → Buffer ℕ
reset_pruning_distances n_vectors d = for_up n_vectors (λ i b. write b i 0) d

-- `EvaluatePruningPredicateScalar`
unfoldable pub evaluate_pruning_predicate_scalar : ℕ → ℕ → Buffer ℕ → ℕ → ℕ
evaluate_pruning_predicate_scalar n_pruned n_vectors d threshold =
    for_up n_vectors (λ i c. c + bit (leb threshold (d i))) n_pruned

-- One round of the loop of `EvaluatePruningPredicateOnPositionsArray`: the test reads the buffer
-- after the write.
abbrev pub keep_if_closer : ℕ → Buffer ℕ → ℕ → Positions → Positions
keep_if_closer threshold d i s =
    let p = write s.positions s.count (s.positions i) in
    record { positions = p; count = s.count + bit (ltb (d (p i)) threshold) }

-- `EvaluatePruningPredicateOnPositionsArray`, which compacts the buffer in place
unfoldable pub evaluate_pruning_predicate_on_positions : ℕ → Buffer ℕ → ℕ → Buffer ℕ → Positions
evaluate_pruning_predicate_on_positions n_vectors p threshold d =
    for_up n_vectors (keep_if_closer threshold d) (record { positions = p; count = 0 })

-- `InitPositionsArray<false>`
unfoldable pub init_positions : ℕ → Buffer ℕ → ℕ → Buffer ℕ → Positions
init_positions n_vectors p threshold d =
    for_up n_vectors
      (λ i s. record {
        positions = write s.positions s.count i;
        count = s.count + bit (ltb (d i) threshold);
      })
      (record { positions = p; count = 0 })

-- `InitPositionsArray<true>`
unfoldable pub init_positions_filtered : ℕ → Buffer ℕ → ℕ → Buffer ℕ → Buffer ℕ → Positions
init_positions_filtered n_vectors p threshold d selection =
    for_up n_vectors
      (λ i s. record {
        positions = write s.positions s.count i;
        count = s.count + bit (ltb (d i) threshold && selection i == 1);
      })
      (record { positions = p; count = 0 })

-- `InitPositionsArrayFromSelectionVector`
unfoldable pub init_positions_from_selection : ℕ → Buffer ℕ → Buffer ℕ → Positions
init_positions_from_selection n_vectors p selection =
    for_up n_vectors
      (λ i s. record {
        positions = write s.positions s.count i;
        count = s.count + bit (selection i == 1);
      })
      (record { positions = p; count = 0 })

-- `MaskDistancesWithSelectionVector`
unfoldable pub mask_distances : ℕ → Buffer ℕ → Buffer ℕ → Buffer ℕ
mask_distances n_vectors d selection =
    for_up n_vectors (λ i b. if selection i == 0 then write b i (u32_max / 2) else b) d
