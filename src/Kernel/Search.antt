-- ===== src/Kernel/Search.antt =====
-- `Search` and `FilteredSearch` of src/include/pdxearch/pdxearch.hpp, with the constructor's offsets
-- and src/include/pdxearch/db_mock/predicate_evaluator.hpp. Several threads search different indexes
-- and share one heap under a lock. What the others do to it during an iteration is an input.
pub mod Offsets
pub mod Offered
pub mod Leaving
pub mod Shared
pub mod Filtered
use pdxearch.Prelude.{
  ℕ, suc, ◌+◌, min, max, Bool, List, [], ◌∷◌, Option, none, some, ◌==◌, if◌then◌else◌, Buffer,
  write, length, get_elem?, take, drop,
}
use pdxearch.Kernel.Float.{Float}
use pdxearch.Kernel.Heap.{KnnCandidate, Heap, offer, merge_into_heap}
use pdxearch.Kernel.Index.{Cluster, IndexPdxIvf}
use pdxearch.Kernel.Scan.{Job, Pruning, scan, scan_filtered}

-- `cluster_offsets`, `total_embeddings` and `max_cluster_size`
pub record ClusterOffsets : Type 0 where
  pub cluster_offsets : Buffer ℕ
  pub total_embeddings : ℕ
  pub max_cluster_size : ℕ

-- One round of the loop of the constructor of `PDXearch`.
abbrev pub add_cluster : ℕ → Cluster → ClusterOffsets → ClusterOffsets
add_cluster i c o = record {
  cluster_offsets = write o.cluster_offsets i o.total_embeddings;
  total_embeddings = o.total_embeddings + c.num_embeddings;
  max_cluster_size = max o.max_cluster_size c.num_embeddings;
}

-- That loop, from the i-th cluster on.
unfoldable pub compute_offsets : ℕ → List Cluster → ClusterOffsets → ClusterOffsets
compute_offsets i [] o = o
compute_offsets i (c ∷ cs) o = compute_offsets (suc i) cs (add_cluster i c o)

-- `PredicateEvaluator`
pub record PredicateEvaluator : Type 0 where
  pub n_passing_tuples : Buffer ℕ
  pub selection_vector : Buffer ℕ

-- `PredicateEvaluator::GetSelectionVector`
abbrev pub get_selection_vector : PredicateEvaluator → ℕ → ℕ → Buffer ℕ × ℕ
get_selection_vector p cluster_id cluster_offset =
    ((λ i. p.selection_vector (cluster_offset + i)), p.n_passing_tuples cluster_id)

-- What a search reads. `tuples_needed_to_exit` is the rounded product of the selectivity threshold
-- and a cluster's size, `is_selective` the test of the share of passing tuples.
pub record Searcher {ℓ} (F : Type ℓ) : Type ℓ where
  pub pdx_data : IndexPdxIvf F
  pub ratios : ℕ → F
  pub k : ℕ
  pub prepared_query : Buffer ℕ
  pub cluster_indices_in_access_order : List ℕ
  pub tuples_needed_to_exit : ℕ → ℕ
  pub is_selective : ℕ → ℕ → Bool

-- What other threads do to the heap during an iteration: the top at each reading, and the
-- candidates that they offer before this thread merges.
pub record Encounter {ℓ} (F : Type ℓ) : Type ℓ where
  pub tops : ℕ → F
  pub others : List (KnnCandidate F)

-- The shared heap, and the buffers and the offset of a searcher.
pub record SearchState {ℓ} (F : Type ℓ) : Type ℓ where
  pub heap : Heap F
  pub pruning_positions : Buffer ℕ
  pub pruning_distances : Buffer ℕ
  pub offset : ℕ

module _ {ℓ} {F : Type ℓ} ⦃f : Float F⦄ (searcher : Searcher F) where
  open searcher use {pdx_data, k}

  -- The arguments of `Warmup` and `Prune` for a cluster.
  abbrev pub job_of : Encounter F → Cluster → Job F
  job_of e c = record {
    num_dimensions = pdx_data.num_dimensions;
    num_vertical_dimensions = pdx_data.num_vertical_dimensions;
    num_horizontal_dimensions = pdx_data.num_horizontal_dimensions;
    quantization_scale_squared = pdx_data.quantization_scale_squared;
    ratios = searcher.ratios;
    query = searcher.prepared_query;
    block = c.block;
    n_vectors = c.num_embeddings;
    tops = e.tops;
  }

  -- What other threads offer to the heap, one candidate after another.
  unfoldable pub offer_all : List (KnnCandidate F) → Heap F → Heap F
  offer_all [] h = h
  offer_all (c ∷ cs) h = offer_all cs (offer k c h)

  -- The end of an iteration: `MergeIntoHeap` if something is left.
  abbrev pub merge_kept : Encounter F → Cluster → Pruning → SearchState F → SearchState F
  merge_kept e c t s =
      let heap = offer_all e.others s.heap in
      record {
        heap =
            if t.kept.count == 0
            then heap
            else merge_into_heap pdx_data.inverse_quantization_scale_squared c.indices t.kept.count
                k t.kept.positions t.distances heap;
        pruning_positions = t.kept.positions;
        pruning_distances = t.distances;
        offset = s.offset;
      }

  -- One iteration of the loop of `Search`. An empty cluster is skipped.
  unfoldable pub search_cluster : Encounter F → Cluster → SearchState F → Option (SearchState F)
  search_cluster e c s =
      if c.num_embeddings == 0
      then some (record s { heap = offer_all e.others s.heap })
      else (elim (scan (job_of e c) (searcher.tuples_needed_to_exit c.num_embeddings)
          s.pruning_positions s.pruning_distances) [
            | none ↦ none
            | some t ↦ some (merge_kept e c t s)
          ])

  -- One iteration of the loop of `FilteredSearch`. A cluster of which nothing passes is skipped too.
  unfoldable pub filtered_search_cluster :
      Encounter F → Buffer ℕ → ℕ → Cluster → SearchState F → Option (SearchState F)
  filtered_search_cluster e selection passing_tuples c s =
      if passing_tuples == 0
      then some (record s { heap = offer_all e.others s.heap })
      else (if c.num_embeddings == 0
          then some (record s { heap = offer_all e.others s.heap })
          else (elim (scan_filtered (job_of e c) (searcher.tuples_needed_to_exit c.num_embeddings)
              (searcher.is_selective passing_tuples c.num_embeddings) selection s.pruning_positions
              s.pruning_distances) [ none ↦ none | some t ↦ some (merge_kept e c t s) ]))

  -- The loop of `Search` over the clusters to probe. `none` also stands for a cluster out of range.
  unfoldable pub search_loop :
      (ℕ → Encounter F) → ℕ → List ℕ → SearchState F → Option (SearchState F)
  search_loop env i [] s = some s
  search_loop env i (c ∷ cs) s = elim (get_elem? pdx_data.clusters c) [
    | none ↦ none
    | some cluster ↦ elim (search_cluster (env i) cluster s) [
      | none ↦ none
      | some t ↦ search_loop env (suc i) cs t
    ]
  ]

  -- `Search`
  unfoldable pub search : (ℕ → Encounter F) → ℕ → SearchState F → Option (SearchState F)
  search env num_clusters_to_probe s =
      search_loop env 0
        (take (min num_clusters_to_probe (length pdx_data.clusters))
          searcher.cluster_indices_in_access_order)
        s

  -- The loop of `FilteredSearch`, which counts the offset up after each iteration.
  unfoldable pub filtered_search_loop :
      (ℕ → Encounter F)
      → ClusterOffsets
      → PredicateEvaluator
      → List ℕ
      → SearchState F
      → Option (SearchState F)
  filtered_search_loop env o p [] s = some s
  filtered_search_loop env o p (c ∷ cs) s = elim (get_elem? pdx_data.clusters c) [
    | none ↦ none
    | some cluster ↦
        let (selection, passing) = get_selection_vector p c (o.cluster_offsets c) in
        elim (filtered_search_cluster (env s.offset) selection passing cluster s) [
          | none ↦ none
          | some t ↦ filtered_search_loop env o p cs (record t { offset = t.offset + 1 })
        ]
  ]

  -- `FilteredSearch`
  unfoldable pub filtered_search :
      (ℕ → Encounter F)
      → ClusterOffsets
      → PredicateEvaluator
      → ℕ
      → SearchState F
      → Option (SearchState F)
  filtered_search env o p num_clusters_to_try_to_probe s =
      let end = min (s.offset + num_clusters_to_try_to_probe) (length pdx_data.clusters) in
      filtered_search_loop env o p
        (drop s.offset (take end searcher.cluster_indices_in_access_order)) s
