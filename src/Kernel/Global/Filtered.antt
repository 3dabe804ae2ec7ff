-- ===== src/Kernel/Global/Filtered.antt =====
-- `FilteredStart` and `FilteredSearchGlobal` of src/include/pdxearch/pdxearch.hpp: the search of one
-- index with a heap of its own, among the embeddings that pass a filter.
pub mod Smallest
pub mod Distances
pub mod Start
pub mod Visiting
pub mod Once
use pdxearch.Prelude.{
  ℕ, ◌+◌, ◌-◌, ◌*◌, ◌/◌, min, Bool, List, [], ◌∷◌, Option, none, some, ltb, ◌==◌, if◌then◌else◌,
  Buffer, length, get_elem?, take, for_up,
}
use pdxearch.Dimensions.{h_dim_size}
use pdxearch.Computers.{add32, touch, vertical_u8, Arithmetic}
use pdxearch.Kernel.Float.{Float}
use pdxearch.Kernel.Heap.{KnnCandidate, build_result_set_from_heap}
use pdxearch.Kernel.Index.{Cluster}
use pdxearch.Kernel.Positions.{
  Positions, reset_pruning_distances, init_positions_from_selection, mask_distances,
}
use pdxearch.Kernel.Positions.Compaction.{range}
use pdxearch.Kernel.Search.{
  Searcher, SearchState, ClusterOffsets, PredicateEvaluator, get_selection_vector,
  filtered_search_cluster,
}
use pdxearch.Kernel.Global.{
  Sorting, block_distance, push_sorted, alone, clusters_to_visit, get_clusters_access_order_ivf,
}

-- `is_dense` is the test of the share of passing tuples above which all embeddings are scanned.
module _ {ℓ} {F : Type ℓ} ⦃f : Float F⦄ (sorting : Sorting) (searcher : Searcher F)
    (is_dense : ℕ → ℕ → Bool) where
  open searcher use {pdx_data, k, prepared_query}

  -- The loop over the horizontal blocks, for the embeddings at the positions.
  unfoldable pub horizontal_blocks : Cluster → Positions → Buffer ℕ → Buffer ℕ
  horizontal_blocks c passing d =
      for_up ((pdx_data.num_horizontal_dimensions + 63) / h_dim_size)
        (λ r b.
          touch passing.count passing.positions
            (λ v a. add32 a (block_distance sorting searcher c (r * h_dim_size) v)) b)
        d

  -- The distances of `FilteredStart` before they are masked.
  unfoldable pub filtered_distances : Cluster → ℕ → Positions → Buffer ℕ → Buffer ℕ
  filtered_distances c passing_tuples passing d =
      let blocks = horizontal_blocks c passing (reset_pruning_distances c.num_embeddings d) in
      if is_dense passing_tuples c.num_embeddings
      then vertical_u8 prepared_query c.block c.num_embeddings c.num_embeddings 0
          pdx_data.num_vertical_dimensions (λ i. i) blocks
      else vertical_u8 prepared_query c.block passing.count c.num_embeddings 0
          pdx_data.num_vertical_dimensions passing.positions blocks

  -- `FilteredStart`. It is not called with a full heap.
  unfoldable pub filtered_start : Buffer ℕ → ℕ → Cluster → SearchState F → SearchState F
  filtered_start selection passing_tuples c s =
      let passing = init_positions_from_selection c.num_embeddings s.pruning_positions selection in
      let max_possible_k = min (k - length s.heap) passing_tuples in
      let d =
        mask_distances c.num_embeddings
          (filtered_distances c passing_tuples passing s.pruning_distances) selection in
      record s {
        heap =
            push_sorted sorting searcher c d
              (take max_possible_k (
                sorting.partial_sort (λ i1 i2. ltb (d i1) (d i2)) max_possible_k
                  (range c.num_embeddings)))
              s.heap;
        pruning_positions = passing.positions;
        pruning_distances = d;
      }

  -- One iteration of the loop of `FilteredSearchGlobal`.
  unfoldable pub filtered_visit_cluster :
      Buffer ℕ → ℕ → Cluster → SearchState F → Option (SearchState F)
  filtered_visit_cluster selection passing_tuples c s =
      if passing_tuples == 0
      then some s
      else (if c.num_embeddings == 0
          then some s
          else (if ltb (length s.heap) k
              then some (filtered_start selection passing_tuples c s)
              else filtered_search_cluster searcher (alone sorting searcher s.heap) selection
                  passing_tuples c s))

  -- The loop, over the clusters to visit. `none` also stands for a cluster out of range.
  unfoldable pub filtered_visit_clusters :
      ClusterOffsets → PredicateEvaluator → List ℕ → SearchState F → Option (SearchState F)
  filtered_visit_clusters o p [] s = some s
  filtered_visit_clusters o p (id ∷ ids) s = elim (get_elem? pdx_data.clusters id) [
    | none ↦ none
    | some c ↦
        let (selection, passing_tuples) = get_selection_vector p id (o.cluster_offsets id) in
        elim (filtered_visit_cluster selection passing_tuples c s) [
          | none ↦ none
          | some t ↦ filtered_visit_clusters o p ids t
        ]
  ]

  -- `FilteredSearchGlobal`, after the query is rotated to `query` and quantized to `prepared_query`.
  -- The new buffers hold anything.
  unfoldable pub filtered_search_global :
      ⦃ops : Arithmetic F⦄
      → ClusterOffsets
      → PredicateEvaluator
      → (query : Buffer F) → (ivf_nprobe : ℕ) → (positions distances : Buffer ℕ)
      → Option (List (KnnCandidate F))
  filtered_search_global o p query ivf_nprobe positions distances =
      let visited = clusters_to_visit sorting searcher ivf_nprobe in
      let order = get_clusters_access_order_ivf sorting query pdx_data visited in
      elim (filtered_visit_clusters o p (take visited order) (record {
        heap = [];
        pruning_positions = positions;
        pruning_distances = distances;
        offset = 0;
      })) [ none ↦ none | some s ↦ some (build_result_set_from_heap k s.heap) ]
