-- ===== src/Kernel/Global/Visiting.antt =====
-- `SearchGlobal` of src/include/pdxearch/pdxearch.hpp as a whole.
use mathlib.Core.Path.{subst}
use pdxearch.Prelude.{
  ℕ, ◌+◌, ◌≤◌, ◌<◌, ◌≡◌, refl, sym, ◌∙◌, inl, inr, arith, min, List, [], ◌∷◌, none, some, ltb, leb,
  ◌==◌, Buffer, length, take, get_elem?, All, Bool-cases,
}
use pdxearch.Computers.{Arithmetic}
use pdxearch.Kernel.Float.{Float, IsOrdered}
use pdxearch.Kernel.Heap.{KnnCandidate, build_result_set_from_heap}
use pdxearch.Kernel.Heap.Merge.{nearest_all}
use pdxearch.Kernel.Heap.Result.{IsAscending}
use pdxearch.Kernel.Index.{Cluster}
use pdxearch.Kernel.Scan.Calls.{everything}
use pdxearch.Kernel.Search.{Searcher, SearchState}
use pdxearch.Kernel.Search.Leaving.{IsSearchable, IsOfIndex, get_elem-inside}
use pdxearch.Kernel.Search.Shared.{search_cluster_lem}
use pdxearch.Kernel.Global.{
  Sorting, IsSorting, get_clusters_access_order_ivf, start, alone, visit_cluster, visit_clusters,
  clusters_to_visit, search_global,
}
use pdxearch.Kernel.Global.Filled.{IsFilled, IsFinite, Leaves-IsFilled, result-IsFilled}
use pdxearch.Kernel.Global.Start.{start-IsExact, listed-All, take-All, inside}

module _ {ℓ} {F : Type ℓ} ⦃f : Float F⦄ (sorting : Sorting) (searcher : Searcher F)
    (x : ℕ → ℕ → ℕ → ℕ) where
  open searcher use {pdx_data, k}

  -- The embeddings of the clusters that are visited.
  abbrev pub embeddings_of : List ℕ → ℕ
  embeddings_of [] = 0
  embeddings_of (id ∷ ids) =
      (elim (get_elem? pdx_data.clusters id) [ none ↦ 0 | some c ↦ c.num_embeddings ])
      + embeddings_of ids

  module _ (laws : IsOrdered F) (sorts : IsSorting sorting) (ready : IsSearchable searcher x) where
    visit_cluster-IsFilled :
        (id : ℕ) (c : Cluster) (s : SearchState F) (visited : ℕ)
        → get_elem? pdx_data.clusters id ≡ some c
        → IsFilled searcher x (λ id. everything) s.heap visited
        → (t : SearchState F) × (visit_cluster sorting searcher c s ≡ some t)
          × IsFilled searcher x (λ id. everything) t.heap (visited + c.num_embeddings)
    unfolding visit_cluster
    visit_cluster-IsFilled id c s visited at inv =
        let size = inv.filled in
        elim (Bool-cases (c.num_embeddings == 0)) [
          | inl empty ↦
              let e : visited + c.num_embeddings ≡ visited = ground arith in
              rw empty (s, refl, rw e inv)
          | inr some_embeddings ↦ rw some_embeddings (elim (Bool-cases (ltb (length s.heap) k)) [
            | inl room ↦
                let (down, many, exact) =
                  start-IsExact sorting searcher laws sorts x ready id c at s inv.descending
                    (omega arith) in
                rw room (
                  start sorting searcher c s,
                  refl,
                  record {
                    descending = down;
                    filled = many ∙ omega arith;
                    exact =
                        exact (IsOfIndex searcher x (λ id. everything)) (λ a e. (id, c, at, e))
                          inv.exact;
                  },
                )
            | inr full ↦
                let is_full : k ≤ length s.heap = ground arith in
                let same = sym (nearest_all k s.heap (omega arith)) in
                let (t, e, left) =
                  search_cluster_lem searcher x (IsOfIndex searcher x (λ id. everything)) laws ready
                    (alone sorting searcher s.heap) s s.heap id c at inv.descending same tt in
                rw full (
                  t,
                  e,
                  Leaves-IsFilled searcher x (λ id. everything) laws ready _ s.heap t visited
                      c.num_embeddings is_full inv left,
                )
          ])
        ]

    visit_clusters-IsFilled :
        (ids : List ℕ) (s : SearchState F) (visited : ℕ)
        → All (λ id. id < length pdx_data.clusters) ids
        → IsFilled searcher x (λ id. everything) s.heap visited
        → (t : SearchState F) × (visit_clusters sorting searcher ids s ≡ some t)
          × IsFilled searcher x (λ id. everything) t.heap (visited + embeddings_of ids)
    unfolding visit_clusters
    visit_clusters-IsFilled [] s visited in_range inv =
        let e : visited + 0 ≡ visited = omega arith in (s, refl, rw e inv)
    visit_clusters-IsFilled (id ∷ ids) s visited (lt, in_range) inv =
        let (c, at) = get_elem-inside pdx_data.clusters id lt in
        let (t, e, inv') = visit_cluster-IsFilled id c s visited at inv in
        let (u, e', inv'') =
          visit_clusters-IsFilled ids t (visited + c.num_embeddings) in_range inv' in
        let whole : visit_clusters sorting searcher (id ∷ ids) s ≡ some u =
          rw (at, e, visit_clusters) e' in
        let sum : visited + c.num_embeddings + embeddings_of ids
            ≡ visited + embeddings_of (id ∷ ids) =
          rw at (omega arith) in
        (u, whole, subst (λ n. IsFilled searcher x (λ id. everything) u.heap n) sum inv'')

  pub access_order-All :
      ⦃ops : Arithmetic F⦄
      → IsSorting sorting
      → (query : Buffer F) (n : ℕ)
      → All
          (λ id. id < length pdx_data.clusters)
          (get_clusters_access_order_ivf sorting query pdx_data n)
  unfolding get_clusters_access_order_ivf
  access_order-All sorts query n =
      let count_of = length pdx_data.clusters in
      elim (Bool-cases (leb count_of n)) [
        | inl all ↦
            rw (all, get_clusters_access_order_ivf)
              (listed-All sorting searcher _ _ (λ v seen.
                inside sorting searcher v count_of (λ e. seen (sorts.sort-count _ _ v ∙ e))))
        | inr some_left ↦
            rw (some_left, get_clusters_access_order_ivf)
              (listed-All sorting searcher _ _ (λ v seen.
                inside sorting searcher v count_of
                  (λ e. seen (sorts.partial_sort-count _ _ _ v ∙ e))))
      ]

  -- The clusters that `SearchGlobal` visits.
  abbrev pub visited_clusters : ⦃ops : Arithmetic F⦄ → Buffer F → ℕ → List ℕ
  visited_clusters query ivf_nprobe = take (clusters_to_visit sorting searcher ivf_nprobe) (
      get_clusters_access_order_ivf sorting query pdx_data
        (clusters_to_visit sorting searcher ivf_nprobe))

  -- `SearchGlobal` returns. Its result comes with the nearest first, has as many candidates as there
  -- are embeddings in the clusters that it visits, up to k, and each is an embedding of the index
  -- with its exact distance, for floats that are ordered, stored clusters, a sorting that rearranges,
  -- and distances below the greatest float.
  pub search_global-exact :
      ⦃ops : Arithmetic F⦄
      → IsOrdered F
      → (sorts : IsSorting sorting) → (ready : IsSearchable searcher x) → IsFinite searcher
      → (query : Buffer F) (ivf_nprobe : ℕ) (positions distances : Buffer ℕ)
      → (result : List (KnnCandidate F)) × (search_global sorting searcher query ivf_nprobe
            positions distances
          ≡ some result)
        × IsAscending result
        × (length result ≡ min k (embeddings_of (visited_clusters query ivf_nprobe)))
        × All (IsOfIndex searcher x (λ id. everything)) result
  unfolding search_global
  search_global-exact laws sorts ready finite query ivf_nprobe positions distances =
      let (t, e, inv) =
        visit_clusters-IsFilled laws sorts ready (visited_clusters query ivf_nprobe)
          (record {
            heap = [];
            pruning_positions = positions;
            pruning_distances = distances;
            offset = 0;
          })
          0 (take-All sorting searcher _ _ _ (access_order-All sorts query _))
          (record { descending = tt; filled = omega arith; exact = tt }) in
      let (ascending, size, exact) =
        result-IsFilled searcher x (λ id. everything) laws ready finite t.heap _ inv in
      (build_result_set_from_heap k t.heap, rw (e, search_global), ascending, omega arith, exact)
