-- ===== src/Kernel/Global/Filtered/Once.antt =====
-- How often `FilteredSearchGlobal` of src/include/pdxearch/pdxearch.hpp can give a row.
use pdxearch.Prelude.{
  ℕ, ◌+◌, ◌≤◌, ◌<◌, ◌≡◌, refl, inl, inr, arith, List, [], ◌∷◌, some, ltb, bit, ◌==◌, Buffer, length,
  get_elem?, All, Bool, Bool-cases,
}
use pdxearch.Computers.{Arithmetic}
use pdxearch.Computers.Visit.{count}
use pdxearch.Kernel.Float.{Float, IsOrdered}
use pdxearch.Kernel.Heap.{KnnCandidate, build_result_set_from_heap}
use pdxearch.Kernel.Heap.Rows.{times, times-build}
use pdxearch.Kernel.Index.{Cluster}
use pdxearch.Kernel.Scan.Calls.{passing, scan_filtered_lem}
use pdxearch.Kernel.Search.{
  Searcher, SearchState, ClusterOffsets, PredicateEvaluator, get_selection_vector, job_of,
  merge_kept, filtered_search_cluster,
}
use pdxearch.Kernel.Search.Leaving.{IsSearchable, job-IsByteJob, get_elem-inside}
use pdxearch.Kernel.Search.Shared.{few_vertical}
use pdxearch.Kernel.Global.{Sorting, IsSorting, alone}
use pdxearch.Kernel.Global.Once.{IsHome, push_sorted-once, merge_kept-once, visited-once}
use pdxearch.Kernel.Global.Start.{take-All}
use pdxearch.Kernel.Global.Visiting.{visited_clusters, access_order-All}
use pdxearch.Kernel.Global.Filtered.{
  filtered_start, filtered_visit_cluster, filtered_visit_clusters, filtered_search_global,
}

module _ {ℓ} {F : Type ℓ} ⦃f : Float F⦄ (sorting : Sorting) (searcher : Searcher F)
    (sorts : IsSorting sorting) (is_dense : ℕ → ℕ → Bool) (o : ClusterOffsets)
    (p : PredicateEvaluator) (r home v : ℕ) (is_home : IsHome sorting searcher sorts r home v)
    (x : ℕ → ℕ → ℕ → ℕ) (laws : IsOrdered F) (ready : IsSearchable searcher x) where
  open searcher use {pdx_data, k}

  filtered_visit_cluster-once :
      (selection : Buffer ℕ) (n id : ℕ) (c : Cluster) (s : SearchState F)
      → get_elem? pdx_data.clusters id ≡ some c
      → (t : SearchState F) × (filtered_visit_cluster sorting searcher is_dense selection n c s
          ≡ some t)
        × (times r t.heap ≤ bit (id == home) + times r s.heap)
  unfolding filtered_visit_cluster filtered_start filtered_search_cluster
  filtered_visit_cluster-once selection n id c s at = elim (Bool-cases (n == 0)) [
    | inl none_pass ↦ rw none_pass (s, refl, omega arith)
    | inr some_pass ↦ rw some_pass (elim (Bool-cases (c.num_embeddings == 0)) [
      | inl empty ↦ rw empty (s, refl, omega arith)
      | inr some_embeddings ↦ rw some_embeddings (elim (Bool-cases (ltb (length s.heap) k)) [
        | inl room ↦ rw room (
          filtered_start sorting searcher is_dense selection n c s,
          refl,
          push_sorted-once sorting searcher sorts r home v is_home id c _ _ s.heap at,
        )
        | inr full ↦
            let e = alone sorting searcher s.heap in
            let (t, run, scanned) =
              scan_filtered_lem (job_of searcher e c) (x id)
                (few_vertical searcher x (λ a. Unit {0}) laws ready)
                (searcher.tuples_needed_to_exit c.num_embeddings)
                (searcher.is_selective n c.num_embeddings) selection s.pruning_positions
                s.pruning_distances
                (job-IsByteJob searcher x ready e (passing selection) id c at).is_job in
            rw (full, run)
              (
                merge_kept searcher e c t s,
                refl,
                merge_kept-once sorting searcher sorts r home v is_home id c s t (x id)
                    (passing selection) at scanned,
              )
      ])
    ])
  ]

  filtered_visit_clusters-once :
      (ids : List ℕ) (s : SearchState F)
      → All (λ id. id < length pdx_data.clusters) ids
      → (t : SearchState F) × (filtered_visit_clusters sorting searcher is_dense o p ids s ≡ some t)
        × (times r t.heap ≤ count home ids + times r s.heap)
  unfolding filtered_visit_clusters
  filtered_visit_clusters-once [] s in_range = (s, refl, omega arith)
  filtered_visit_clusters-once (id ∷ ids) s (lt, in_range) =
      let (c, at) = get_elem-inside pdx_data.clusters id lt in
      let (selection, n) = get_selection_vector p id (o.cluster_offsets id) in
      let (t, e, low) = filtered_visit_cluster-once selection n id c s at in
      let (u, e', low') = filtered_visit_clusters-once ids t in_range in
      let whole : filtered_visit_clusters sorting searcher is_dense o p (id ∷ ids) s ≡ some u =
        rw (at, e, filtered_visit_clusters) e' in
      (u, whole, omega arith)

  -- The result of `FilteredSearchGlobal` has the row at most once.
  pub filtered_search_global-once :
      ⦃ops : Arithmetic F⦄
      → (query : Buffer F) (ivf_nprobe : ℕ) (positions distances : Buffer ℕ)
      → (result : List (KnnCandidate F)) × (filtered_search_global sorting searcher is_dense o p
            query ivf_nprobe positions distances
          ≡ some result)
        × (times r result ≤ 1)
  unfolding filtered_search_global
  filtered_search_global-once query ivf_nprobe positions distances =
      let ids = visited_clusters sorting searcher x query ivf_nprobe in
      let (t, e, low) =
        filtered_visit_clusters-once ids
          (record {
            heap = [];
            pruning_positions = positions;
            pruning_distances = distances;
            offset = 0;
          })
          (take-All sorting searcher _ _ _ (access_order-All sorting searcher x sorts query _)) in
      (
        build_result_set_from_heap k t.heap,
        rw (e, filtered_search_global),
        omega (
          arith,
          times-build r k t.heap,
          visited-once sorting searcher sorts x query ivf_nprobe home,
        ),
      )
