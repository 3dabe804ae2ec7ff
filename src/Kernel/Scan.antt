-- ===== src/Kernel/Scan.antt =====
-- `GetPruningThreshold`, `Warmup` and `Prune` of src/include/pdxearch/pdxearch.hpp at U8: the scan of
-- one cluster. Each reading of the heap's top may see what other threads pushed since the last one,
-- so the i-th reading is the i-th value of `tops`.
pub mod Invariant
pub mod Loops
pub mod Exact
pub mod Calls
pub mod Guarantees
use pdxearch.Prelude.{
  ℕ, zero, suc, ◌+◌, ◌-◌, ◌*◌, ◌/◌, ◌^◌, min, Bool, true, false, ◌&&◌, not, List, [], ◌∷◌, Option,
  none, some, ltb, leb, ◌==◌, if◌then◌else◌, Buffer,
}
use pdxearch.Dimensions.{h_dim_size, dimensions_fetching_sizes}
use pdxearch.Computers.{add32, touch, vertical_u8, horizontal_u8}
use pdxearch.Kernel.Float.{Float}
use pdxearch.Kernel.Positions.{
  Positions, u32_max, reset_pruning_distances, evaluate_pruning_predicate_scalar,
  evaluate_pruning_predicate_on_positions, init_positions, init_positions_filtered, mask_distances,
}

-- What a scan reads: the cluster, the query, the pruner and the shape of the index.
pub record Job {ℓ} (F : Type ℓ) : Type ℓ where
  pub num_dimensions : ℕ
  pub num_vertical_dimensions : ℕ
  pub num_horizontal_dimensions : ℕ
  pub quantization_scale_squared : F
  -- `ratios` of `ADSamplingPruner`
  pub ratios : ℕ → F
  pub query : Buffer ℕ
  pub block : Buffer ℕ
  pub n_vectors : ℕ
  -- `heap.top().distance` at the i-th reading
  pub tops : ℕ → F

-- The variables that `Warmup` and `Prune` share.
pub record Progress : Type 0 where
  pub readings : ℕ
  pub threshold : ℕ
  pub distances : Buffer ℕ
  pub current_dimension_idx : ℕ

-- The variables of the loops of `Prune`.
pub record Pruning : Type 0 where
  pub progress : Progress
  pub open progress use *
  pub kept : Positions
  pub vertical : ℕ
  pub horizontal : ℕ

module _ {ℓ} {F : Type ℓ} ⦃f : Float F⦄ (job : Job F) where
  open job use {
    num_dimensions, num_vertical_dimensions, num_horizontal_dimensions, query, block, n_vectors,
  }

  -- `ADSamplingPruner::GetPruningThreshold` and `PDXearch::GetPruningThreshold` at U8
  unfoldable pub get_pruning_threshold : F → ℕ → ℕ
  get_pruning_threshold top dim =
      let ratio = if dim == num_dimensions then f.one else job.ratios dim in
      let scaled = f.mul (f.mul top ratio) job.quantization_scale_squared in
      if f.ge scaled (f.of_u32 u32_max) then u32_max else f.to_u32 scaled

  -- The call that stores the threshold.
  abbrev pub read_threshold : Progress → Progress
  read_threshold p = record p {
    readings = p.readings + 1;
    threshold = get_pruning_threshold (job.tops p.readings) p.current_dimension_idx;
  }

  -- One round of the loop of `Warmup`: the next dimensions for all embeddings, and the number of
  -- embeddings that could be pruned.
  unfoldable pub warmup_round : ℕ → Progress → Progress
  warmup_round fetching_size p =
      let last = min (p.current_dimension_idx + fetching_size) num_vertical_dimensions in
      read_threshold (record p {
        distances =
            vertical_u8 query block n_vectors n_vectors p.current_dimension_idx last (λ i. i)
              p.distances;
        current_dimension_idx = last;
      })

  -- The loop of `Warmup`, over the fetching sizes that are left. `none` is a read past their table.
  unfoldable pub warmup_loop :
      List ℕ → (tuples_needed_to_exit n_tuples_to_prune : ℕ) → Progress → Option Progress
  warmup_loop [] needed pruned p =
      if ltb pruned needed && ltb p.current_dimension_idx num_vertical_dimensions
      then none
      else some p
  warmup_loop (s ∷ sizes) needed pruned p =
      let q = warmup_round s p in
      let rest =
        warmup_loop sizes needed
          (evaluate_pruning_predicate_scalar 0 n_vectors q.distances q.threshold) q in
      if ltb pruned needed && ltb p.current_dimension_idx num_vertical_dimensions
      then rest
      else some p

  -- `Warmup<false>`, from a distance buffer with the values of earlier clusters
  unfoldable pub warmup : List ℕ → ℕ → Buffer ℕ → Option Progress
  warmup sizes tuples_needed_to_exit d = warmup_loop sizes tuples_needed_to_exit 0 (
      read_threshold (record {
        readings = 0;
        threshold = u32_max;
        distances = reset_pruning_distances n_vectors d;
        current_dimension_idx = 0;
      }))

  -- `Warmup<true>`. `is_selective` is the test of the share of passing tuples that skips the loop.
  unfoldable pub warmup_filtered : List ℕ → ℕ → Bool → Buffer ℕ → Buffer ℕ → Option Progress
  warmup_filtered sizes tuples_needed_to_exit is_selective selection d =
      let start : Progress = record {
        readings = 0;
        threshold = u32_max;
        distances = mask_distances n_vectors (reset_pruning_distances n_vectors d) selection;
        current_dimension_idx = 0;
      } in
      if is_selective
      then some start
      else warmup_loop sizes tuples_needed_to_exit 0 (read_threshold start)

  -- What ends a round of `Prune`: a new threshold, and the compaction of the positions.
  abbrev pub prune_positions : Positions → Progress → (vertical horizontal : ℕ) → Pruning
  prune_positions s p vertical horizontal =
      let q = read_threshold p in
      record {
        progress = q;
        kept = evaluate_pruning_predicate_on_positions s.count s.positions q.threshold q.distances;
        vertical = vertical;
        horizontal = horizontal;
      }

  -- One round of the horizontal loop of `Prune`: a block of 64 dimensions for the kept embeddings.
  unfoldable pub horizontal_round : Pruning → Pruning
  horizontal_round s =
      let offset_data = num_vertical_dimensions * n_vectors + s.horizontal * n_vectors in
      let offset_query = num_vertical_dimensions + s.horizontal in
      let distances =
        touch s.kept.count s.kept.positions
          (λ v a. add32 a (
            horizontal_u8 (λ i. query (offset_query + i))
              (λ i. block (offset_data + v * h_dim_size + i)) h_dim_size))
          s.distances in
      prune_positions s.kept
        (record {
          readings = s.readings;
          threshold = s.threshold;
          distances = distances;
          current_dimension_idx = s.current_dimension_idx + h_dim_size;
        })
        s.vertical (s.horizontal + h_dim_size)

  -- The horizontal loop on fuel; `none` is no fuel.
  unfoldable pub horizontal_loop : ℕ → Pruning → Option Pruning
  horizontal_loop zero s = none
  horizontal_loop (suc fuel) s =
      let rest = horizontal_loop fuel (horizontal_round s) in
      if not (num_horizontal_dimensions == 0)
        && not (s.kept.count == 0)
        && ltb s.horizontal num_horizontal_dimensions
      then rest
      else some s

  -- One round of the vertical loop of `Prune`: up to 64 dimensions for the kept embeddings.
  unfoldable pub vertical_round : Pruning → Pruning
  vertical_round s =
      let last = min (s.vertical + h_dim_size) num_vertical_dimensions in
      prune_positions s.kept
        (record {
          readings = s.readings;
          threshold = s.threshold;
          distances =
              vertical_u8 query block s.kept.count n_vectors s.vertical last s.kept.positions
                s.distances;
          current_dimension_idx = min (s.current_dimension_idx + h_dim_size) num_dimensions;
        })
        (min (s.vertical + h_dim_size) num_vertical_dimensions) s.horizontal

  -- The vertical loop on fuel, with its `break`.
  unfoldable pub vertical_loop : ℕ → Pruning → Option Pruning
  vertical_loop zero s = none
  vertical_loop (suc fuel) s =
      let t = vertical_round s in
      let rest = vertical_loop fuel t in
      if not (s.kept.count == 0) && ltb s.vertical num_vertical_dimensions
      then (if t.current_dimension_idx == num_dimensions then some t else rest)
      else some s

  -- What both loops of `Prune` run on: a round covers 64 dimensions.
  abbrev pub prune_fuel : ℕ
  prune_fuel = num_dimensions / h_dim_size + 2

  abbrev pub prune_loops : Pruning → Option Pruning
  prune_loops s = elim (horizontal_loop prune_fuel s) [
    | none ↦ none
    | some t ↦ vertical_loop prune_fuel t
  ]

  -- `Prune<false>`
  unfoldable pub prune : Buffer ℕ → Progress → Option Pruning
  prune pruning_positions p =
      let q = read_threshold p in
      prune_loops (record {
        progress = q;
        kept = init_positions n_vectors pruning_positions q.threshold q.distances;
        vertical = p.current_dimension_idx;
        horizontal = 0;
      })

  -- `Prune<true>`
  unfoldable pub prune_filtered : Buffer ℕ → Buffer ℕ → Progress → Option Pruning
  prune_filtered pruning_positions selection p =
      let q = read_threshold p in
      prune_loops (record {
        progress = q;
        kept =
            init_positions_filtered n_vectors pruning_positions q.threshold q.distances selection;
        vertical = p.current_dimension_idx;
        horizontal = 0;
      })

  -- The calls of `Warmup` and `Prune` that `Search` makes for a cluster.
  unfoldable pub scan : ℕ → Buffer ℕ → Buffer ℕ → Option Pruning
  scan tuples_needed_to_exit pruning_positions d =
      elim (warmup dimensions_fetching_sizes tuples_needed_to_exit d) [
        | none ↦ none
        | some p ↦ prune pruning_positions p
      ]

  -- The calls of `Warmup<true>` and `Prune<true>` that `FilteredSearch` makes for a cluster.
  unfoldable pub scan_filtered : ℕ → Bool → Buffer ℕ → Buffer ℕ → Buffer ℕ → Option Pruning
  scan_filtered tuples_needed_to_exit is_selective selection pruning_positions d =
      elim (warmup_filtered dimensions_fetching_sizes tuples_needed_to_exit is_selective selection
        d) [ none ↦ none | some p ↦ prune_filtered pruning_positions selection p ]
