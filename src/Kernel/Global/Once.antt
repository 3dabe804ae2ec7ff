-- ===== src/Kernel/Global/Once.antt =====
-- How often `SearchGlobal` of src/include/pdxearch/pdxearch.hpp can give a row.
use pdxearch.Prelude.{
  ℕ, ◌+◌, ◌≤◌, ◌<◌, ◌≡◌, ◌≢◌, refl, inl, inr, arith, Bool, List, [], ◌∷◌, some, ltb, leb, bit, ◌==◌,
  Buffer, length, take, map, get_elem?, All, Bool-cases,
}
use pdxearch.Computers.{Arithmetic}
use pdxearch.Computers.Visit.{count, count-range}
use pdxearch.Kernel.Float.{Float, IsOrdered}
use pdxearch.Kernel.Heap.{KnnCandidate, Heap, push, candidate, build_result_set_from_heap}
use pdxearch.Kernel.Heap.Rows.{times, times-push, times-merge, times-build, count-at, count-take}
use pdxearch.Kernel.Index.{Cluster}
use pdxearch.Kernel.Positions.{survivors}
use pdxearch.Kernel.Positions.Compaction.{range}
use pdxearch.Kernel.Scan.{Pruning}
use pdxearch.Kernel.Scan.Calls.{everything, scan_lem}
use pdxearch.Kernel.Scan.Exact.{IsScanned}
use pdxearch.Kernel.Search.{Searcher, SearchState, job_of, merge_kept, offer_all, search_cluster}
use pdxearch.Kernel.Search.Leaving.{IsSearchable, job-IsByteJob, get_elem-inside}
use pdxearch.Kernel.Search.Shared.{few_vertical}
use pdxearch.Kernel.Global.{
  Sorting, IsSorting, get_clusters_access_order_ivf, push_sorted, start, alone, visit_cluster,
  visit_clusters, clusters_to_visit, search_global,
}
use pdxearch.Kernel.Global.Start.{listed-All, take-All}
use pdxearch.Kernel.Global.Visiting.{visited_clusters, access_order-All}

module _ {ℓ} {F : Type ℓ} ⦃f : Float F⦄ (sorting : Sorting) (searcher : Searcher F)
    (sorts : IsSorting sorting) where
  open searcher use {pdx_data, k}

  -- Each cluster is visited once.
  pub visited-once :
      ⦃ops : Arithmetic F⦄
      → (x : ℕ → ℕ → ℕ → ℕ) (query : Buffer F) (nprobe id : ℕ)
      → count id (visited_clusters sorting searcher x query nprobe) ≤ 1
  unfolding get_clusters_access_order_ivf
  visited-once x query nprobe id =
      let n = clusters_to_visit sorting searcher nprobe in
      let many = length pdx_data.clusters in
      let once : (xs : List ℕ) → count id xs ≡ count id (range many) → count id (take n xs) ≤ 1 =
        λ xs same. ground (arith, count-take id n xs, count-range id many) in
      elim (Bool-cases (leb many n)) [
        | inl whole ↦
            rw (whole, get_clusters_access_order_ivf) (once _ (sorts.sort-count _ (range many) id))
        | inr part ↦
            rw (part, get_clusters_access_order_ivf)
              (once _ (sorts.partial_sort-count _ n (range many) id))
      ]

  -- A row is at one position of one cluster.
  pub record IsHome (r id v : ℕ) : Type 0 where
    pub only :
        (i j : ℕ) (c : Cluster)
        → get_elem? pdx_data.clusters i ≡ some c
        → j < c.num_embeddings
        → c.indices j ≡ r
        → (i ≡ id) × (j ≡ v)

  module _ (r home v : ℕ) (is_home : IsHome r home v) where
    -- Positions of a cluster, each listed once, have the row only in its cluster.
    pub listed-once :
        (id : ℕ) (c : Cluster) (is : List ℕ)
        → get_elem? pdx_data.clusters id ≡ some c
        → ((j : ℕ) → count j is ≤ 1)
        → ((j : ℕ) → count j is ≢ 0 → j < c.num_embeddings)
        → count r (map c.indices is) ≤ bit (id == home)
    listed-once id c is at once within = elim (Bool-cases (id == home)) [
      | inl here ↦
          let most = count-at c.indices r v is (
            listed-All sorting searcher _ is
              (λ j seen e. (is_home.only id j c at (within j seen) e).1)) in
          let low = once v in ground arith
      | inr away ↦
          let past = c.num_embeddings in
          let none_there = count-at c.indices r past is (
            listed-All sorting searcher _ is (λ j seen e.
              let same = (is_home.only id j c at (within j seen) e).0 in absurd (ground arith))) in
          elim (Bool-cases (count past is == 0)) [
            | inl out ↦ ground arith
            | inr listed ↦ let lt = within past (λ e. absurd (ground arith)) in absurd (omega arith)
          ]
    ]

    pub times-push_sorted :
        (c : Cluster) (d : Buffer ℕ) (is : List ℕ) (h : Heap F)
        → times r (push_sorted sorting searcher c d is h) ≡ count r (map c.indices is) + times r h
    unfolding push_sorted
    times-push_sorted c d [] h = omega arith
    times-push_sorted c d (i ∷ is) h =
        let a = candidate pdx_data.inverse_quantization_scale_squared c.indices (λ j. j) d i in
        omega (arith, times-push_sorted c d is (push a h), times-push r a h)

    -- What a full scan pushes.
    pub push_sorted-once :
        (id : ℕ) (c : Cluster) (d : Buffer ℕ) (m : ℕ) (h : Heap F)
        → get_elem? pdx_data.clusters id ≡ some c
        → times r (
            push_sorted sorting searcher c d
              (take m
                (sorting.partial_sort (λ i1 i2. ltb (d i1) (d i2)) m (range c.num_embeddings)))
              h)
          ≤ bit (id == home) + times r h
    push_sorted-once id c d m h at =
        let n = c.num_embeddings in
        let sorted = sorting.partial_sort (λ i1 i2. ltb (d i1) (d i2)) m (range n) in
        let low : (j : ℕ) → count j (take m sorted) ≤ bit (ltb j n) = λ j. omega (
          arith,
          count-take j m sorted,
          sorts.partial_sort-count (λ i1 i2. ltb (d i1) (d i2)) m (range n) j,
          count-range j n,
        ) in
        let once =
          listed-once id c (take m sorted) at (λ j. let h' = low j in ground arith)
            (λ j seen. let h' = low j in ground arith) in
        omega (arith, times-push_sorted c d (take m sorted) h)

    -- What a scan merges.
    pub merge_kept-once :
        (id : ℕ) (c : Cluster) (s : SearchState F) (t : Pruning) (x : ℕ → ℕ → ℕ)
        (is_selected : ℕ → Bool)
        → get_elem? pdx_data.clusters id ≡ some c
        → IsScanned (job_of searcher (alone sorting searcher s.heap) c) x is_selected t
        → times r (merge_kept searcher (alone sorting searcher s.heap) c t s).heap
          ≤ bit (id == home) + times r s.heap
    unfolding offer_all
    merge_kept-once id c s t x is_selected at scanned =
        let once =
          listed-once id c (survivors t.kept) at
            (λ j. elim (scanned.exact j) [
              | inl out ↦ omega arith
              | inr (listed, _, _, _) ↦ omega arith
            ])
            (λ j seen. elim (scanned.exact j) [
              | inl out ↦ absurd (seen out)
              | inr (_, hj, _, _) ↦ hj
            ]) in
        let merged =
          times-merge r pdx_data.inverse_quantization_scale_squared c.indices t.kept.count k
            t.kept.positions t.distances s.heap in
        elim (Bool-cases (t.kept.count == 0)) [
          | inl none_kept ↦ rw none_kept (omega arith)
          | inr some_kept ↦ rw some_kept (omega arith)
        ]

    module _ (x : ℕ → ℕ → ℕ → ℕ) (laws : IsOrdered F) (ready : IsSearchable searcher x) where
      visit_cluster-once :
          (id : ℕ) (c : Cluster) (s : SearchState F)
          → get_elem? pdx_data.clusters id ≡ some c
          → (t : SearchState F) × (visit_cluster sorting searcher c s ≡ some t)
            × (times r t.heap ≤ bit (id == home) + times r s.heap)
      unfolding visit_cluster start search_cluster
      visit_cluster-once id c s at = elim (Bool-cases (c.num_embeddings == 0)) [
        | inl empty ↦ rw empty (s, refl, omega arith)
        | inr some_embeddings ↦ rw some_embeddings (elim (Bool-cases (ltb (length s.heap) k)) [
          | inl room ↦
              rw room (start sorting searcher c s, refl, push_sorted-once id c _ _ s.heap at)
          | inr full ↦
              let e = alone sorting searcher s.heap in
              let (t, run, scanned) =
                scan_lem (job_of searcher e c) (x id)
                  (few_vertical searcher x (λ a. Unit {0}) laws ready)
                  (searcher.tuples_needed_to_exit c.num_embeddings) s.pruning_positions
                  s.pruning_distances
                  (job-IsByteJob searcher x ready e everything id c at).is_job in
              rw (full, run)
                (
                  merge_kept searcher e c t s,
                  refl,
                  merge_kept-once id c s t (x id) everything at scanned,
                )
        ])
      ]

      visit_clusters-once :
          (ids : List ℕ) (s : SearchState F)
          → All (λ id. id < length pdx_data.clusters) ids
          → (t : SearchState F) × (visit_clusters sorting searcher ids s ≡ some t)
            × (times r t.heap ≤ count home ids + times r s.heap)
      unfolding visit_clusters
      visit_clusters-once [] s in_range = (s, refl, omega arith)
      visit_clusters-once (id ∷ ids) s (lt, in_range) =
          let (c, at) = get_elem-inside pdx_data.clusters id lt in
          let (t, e, low) = visit_cluster-once id c s at in
          let (u, e', low') = visit_clusters-once ids t in_range in
          let whole : visit_clusters sorting searcher (id ∷ ids) s ≡ some u =
            rw (at, e, visit_clusters) e' in
          (u, whole, omega arith)

      -- The result of `SearchGlobal` has the row at most once.
      pub search_global-once :
          ⦃ops : Arithmetic F⦄
          → (query : Buffer F) (ivf_nprobe : ℕ) (positions distances : Buffer ℕ)
          → (result : List (KnnCandidate F)) × (search_global sorting searcher query ivf_nprobe
                positions distances
              ≡ some result)
            × (times r result ≤ 1)
      unfolding search_global
      search_global-once query ivf_nprobe positions distances =
          let ids = visited_clusters sorting searcher x query ivf_nprobe in
          let (t, e, low) =
            visit_clusters-once ids
              (record {
                heap = [];
                pruning_positions = positions;
                pruning_distances = distances;
                offset = 0;
              })
              (take-All sorting searcher _ _ _
                (access_order-All sorting searcher x sorts query _)) in
          (
            build_result_set_from_heap k t.heap,
            rw (e, search_global),
            omega (arith, times-build r k t.heap, visited-once x query ivf_nprobe home),
          )
