-- ===== src/Kernel/Global.antt =====
-- `GetClustersAccessOrderIVF`, `Start` and `SearchGlobal` of src/include/pdxearch/pdxearch.hpp: the
-- search of one index with a heap of its own. The sorting of the standard library is a parameter.
pub mod Filled
pub mod Filtered
pub mod Start
pub mod Visiting
pub mod Once
pub mod Whole
use pdxearch.Prelude.{
  ℕ, ◌+◌, ◌-◌, ◌*◌, ◌/◌, ◌≡◌, min, Bool, List, [], ◌∷◌, Option, none, some, ltb, leb, ◌==◌,
  if◌then◌else◌, Buffer, length, get_elem?, take, for_up, ◌||◌,
}
use pdxearch.Dimensions.{h_dim_size}
use pdxearch.Computers.{add32, touch, vertical_u8, horizontal_u8, horizontal_f32, Arithmetic}
use pdxearch.Computers.Visit.{count}
use pdxearch.Kernel.Float.{Float}
use pdxearch.Kernel.Heap.{KnnCandidate, Heap, push, candidate, build_result_set_from_heap}
use pdxearch.Kernel.Index.{Cluster, IndexPdxIvf}
use pdxearch.Kernel.Positions.{reset_pruning_distances}
use pdxearch.Kernel.Positions.Compaction.{range}
use pdxearch.Kernel.Search.{Searcher, Encounter, SearchState, search_cluster}

-- `std::sort`, and `std::partial_sort` up to a number of elements, with the comparison.
pub record Sorting : Type 0 where
  pub sort : (ℕ → ℕ → Bool) → List ℕ → List ℕ
  pub partial_sort : (ℕ → ℕ → Bool) → ℕ → List ℕ → List ℕ

-- Both rearrange the elements.
pub record IsSorting (sorting : Sorting) : Type 0 where
  pub sort-count :
      (less : ℕ → ℕ → Bool) (xs : List ℕ) (v : ℕ) → count v (sorting.sort less xs) ≡ count v xs
  pub partial_sort-count :
      (less : ℕ → ℕ → Bool) (n : ℕ) (xs : List ℕ) (v : ℕ)
      → count v (sorting.partial_sort less n xs) ≡ count v xs
  pub partial_sort-length :
      (less : ℕ → ℕ → Bool) (n : ℕ) (xs : List ℕ)
      → length (sorting.partial_sort less n xs) ≡ length xs

module _ {ℓ} {F : Type ℓ} ⦃f : Float F⦄ ⦃ops : Arithmetic F⦄ (sorting : Sorting) where
  -- `GetClustersAccessOrderIVF`
  unfoldable pub get_clusters_access_order_ivf : Buffer F → IndexPdxIvf F → ℕ → List ℕ
  get_clusters_access_order_ivf query pdx_data nprobe =
      let distances_to_centroids : ℕ → F = λ cluster_idx.
        horizontal_f32 query (λ i. pdx_data.centroids (cluster_idx * pdx_data.num_dimensions + i))
          pdx_data.num_dimensions in
      let closer : ℕ → ℕ → Bool =
        λ i1 i2. f.lt (distances_to_centroids i1) (distances_to_centroids i2) in
      let num_clusters = length pdx_data.clusters in
      if leb num_clusters nprobe
      then sorting.sort closer (range num_clusters)
      else sorting.partial_sort closer nprobe (range num_clusters)

module _ {ℓ} {F : Type ℓ} ⦃f : Float F⦄ (sorting : Sorting) (searcher : Searcher F) where
  open searcher use {pdx_data, k, prepared_query}

  -- The distance over one block of 64 horizontal dimensions.
  abbrev pub block_distance : Cluster → (horizontal_dimension vector_idx : ℕ) → ℕ
  block_distance c horizontal_dimension vector_idx =
      let data_pos =
        pdx_data.num_vertical_dimensions * c.num_embeddings
        + horizontal_dimension * c.num_embeddings
        + vector_idx * h_dim_size in
      horizontal_u8
        (λ i. prepared_query (pdx_data.num_vertical_dimensions + horizontal_dimension + i))
        (λ i. c.block (data_pos + i)) h_dim_size

  -- One round of the loop over the blocks, for all embeddings.
  abbrev pub start_block : Cluster → ℕ → Buffer ℕ → Buffer ℕ
  start_block c horizontal_dimension distances =
      touch c.num_embeddings (λ i. i) (λ v a. add32 a (block_distance c horizontal_dimension v))
        distances

  -- The full scan of `Start`.
  unfoldable pub start_distances : Cluster → Buffer ℕ → Buffer ℕ
  start_distances c d =
      for_up ((pdx_data.num_horizontal_dimensions + 63) / h_dim_size)
        (λ r b. start_block c (r * h_dim_size) b)
        (vertical_u8 prepared_query c.block c.num_embeddings c.num_embeddings 0
          pdx_data.num_vertical_dimensions (λ i. i) (reset_pruning_distances c.num_embeddings d))

  -- The loop that pushes the first of the sorted embeddings.
  unfoldable pub push_sorted : Cluster → Buffer ℕ → List ℕ → Heap F → Heap F
  push_sorted c d [] heap = heap
  push_sorted c d (i ∷ indices_sorted) heap =
      push_sorted c d indices_sorted
        (push (candidate pdx_data.inverse_quantization_scale_squared c.indices (λ j. j) d i) heap)

  -- `Start`. It is not called with a full heap.
  unfoldable pub start : Cluster → SearchState F → SearchState F
  start c s =
      let d = start_distances c s.pruning_distances in
      let max_possible_k = min (k - length s.heap) c.num_embeddings in
      record s {
        heap =
            push_sorted c d
              (take max_possible_k (
                sorting.partial_sort (λ i1 i2. ltb (d i1) (d i2)) max_possible_k
                  (range c.num_embeddings)))
              s.heap;
        pruning_distances = d;
      }

  -- `heap.top().distance`. The top of an empty heap, which k = 0 alone leads to, is undefined in the
  -- source; here it is the greatest float.
  abbrev pub top_distance : Heap F → F
  top_distance [] = f.greatest
  top_distance (x ∷ heap) = x.distance

  -- With one thread each reading sees the same top.
  abbrev pub alone : Heap F → Encounter F
  alone heap = record { tops = λ i. top_distance heap; others = [] }

  -- One iteration of the loop of `SearchGlobal`.
  unfoldable pub visit_cluster : Cluster → SearchState F → Option (SearchState F)
  visit_cluster c s =
      if c.num_embeddings == 0
      then some s
      else (if ltb (length s.heap) k
          then some (start c s)
          else search_cluster searcher (alone s.heap) c s)

  -- The loop, over the clusters to visit. `none` also stands for a cluster out of range.
  unfoldable pub visit_clusters : List ℕ → SearchState F → Option (SearchState F)
  visit_clusters [] s = some s
  visit_clusters (id ∷ ids) s = elim (get_elem? pdx_data.clusters id) [
    | none ↦ none
    | some c ↦ elim (visit_cluster c s) [ none ↦ none | some t ↦ visit_clusters ids t ]
  ]

  -- `ivf_nprobe`, where 0 and more than there are stand for all clusters.
  abbrev pub clusters_to_visit : ℕ → ℕ
  clusters_to_visit ivf_nprobe =
      if ivf_nprobe == 0 || ltb (length pdx_data.clusters) ivf_nprobe
      then length pdx_data.clusters
      else ivf_nprobe

  -- `SearchGlobal`, after the query is rotated to `query` and quantized to `prepared_query`. The new
  -- buffers hold anything.
  unfoldable pub search_global :
      ⦃ops : Arithmetic F⦄
      → (query : Buffer F) → (ivf_nprobe : ℕ) → (positions distances : Buffer ℕ)
      → Option (List (KnnCandidate F))
  search_global query ivf_nprobe positions distances =
      let visited = clusters_to_visit ivf_nprobe in
      let order = get_clusters_access_order_ivf sorting query pdx_data visited in
      elim (visit_clusters (take visited order) (record {
        heap = [];
        pruning_positions = positions;
        pruning_distances = distances;
        offset = 0;
      })) [ none ↦ none | some s ↦ some (build_result_set_from_heap k s.heap) ]
