-- ===== src/Kernel/Global/Filtered/Visiting.antt =====
-- `FilteredSearchGlobal` of src/include/pdxearch/pdxearch.hpp as a whole.
use mathlib.Core.Path.{subst}
use pdxearch.Prelude.{
  ℕ, ◌+◌, ◌≤◌, ◌<◌, ◌≡◌, refl, sym, ◌∙◌, inl, inr, arith, min, Bool, List, [], ◌∷◌, some, ltb, ◌==◌,
  Buffer, length, get_elem?, select, length-select-le, length-prefix, All, Bool-cases,
}
use pdxearch.Computers.{Arithmetic}
use pdxearch.Kernel.Float.{Float, IsOrdered}
use pdxearch.Kernel.Heap.{KnnCandidate, build_result_set_from_heap}
use pdxearch.Kernel.Heap.Merge.{nearest_all}
use pdxearch.Kernel.Heap.Result.{IsAscending}
use pdxearch.Kernel.Index.{Cluster}
use pdxearch.Kernel.Positions.Compaction.{range}
use pdxearch.Kernel.Search.{
  Searcher, SearchState, ClusterOffsets, PredicateEvaluator, get_selection_vector,
}
use pdxearch.Kernel.Search.Leaving.{IsSearchable, IsOfIndex, get_elem-inside}
use pdxearch.Kernel.Search.Filtered.{is_passing, filtered_search_cluster_lem}
use pdxearch.Kernel.Global.{Sorting, IsSorting, alone}
use pdxearch.Kernel.Global.Filled.{IsFilled, IsFinite, Leaves-IsFilled, result-IsFilled}
use pdxearch.Kernel.Global.Filtered.{
  filtered_start, filtered_visit_cluster, filtered_visit_clusters, filtered_search_global,
}
use pdxearch.Kernel.Global.Filtered.Smallest.{IsSelecting}
use pdxearch.Kernel.Global.Filtered.Start.{filtered_start-IsExact}
use pdxearch.Kernel.Global.Start.{take-All}
use pdxearch.Kernel.Global.Visiting.{access_order-All, visited_clusters}

module _ {ℓ} {F : Type ℓ} ⦃f : Float F⦄ (sorting : Sorting) (searcher : Searcher F)
    (is_dense : ℕ → ℕ → Bool) (x : ℕ → ℕ → ℕ → ℕ) (o : ClusterOffsets)
    (p : PredicateEvaluator) where
  open searcher use {pdx_data, k}

  -- The selection vector has bits, and the passing tuples of each cluster are counted.
  pub record IsCounted : Type 0 where
    pub bits : (i : ℕ) → p.selection_vector i < 2
    pub counted :
        (id : ℕ) (c : Cluster)
        → get_elem? pdx_data.clusters id ≡ some c
        → p.n_passing_tuples id ≡ length (select (is_passing o p id) (range c.num_embeddings))

  -- The tuples that pass in the clusters that are visited.
  abbrev pub passing_of : List ℕ → ℕ
  passing_of [] = 0
  passing_of (id ∷ ids) = p.n_passing_tuples id + passing_of ids

  module _ (laws : IsOrdered F) (sorts : IsSorting sorting) (selecting : IsSelecting sorting)
      (ready : IsSearchable searcher x) (evaluated : IsCounted) where
    filtered_visit_cluster-IsFilled :
        (id : ℕ) (c : Cluster) (s : SearchState F) (visited : ℕ)
        → get_elem? pdx_data.clusters id ≡ some c
        → IsFilled searcher x (is_passing o p) s.heap visited
        → (t : SearchState F) × (filtered_visit_cluster sorting searcher is_dense
              (get_selection_vector p id (o.cluster_offsets id)).0
              (p.n_passing_tuples id)
              c
              s
            ≡ some t)
          × IsFilled searcher x (is_passing o p) t.heap (visited + p.n_passing_tuples id)
    unfolding filtered_visit_cluster
    filtered_visit_cluster-IsFilled id c s visited at inv =
        let size = inv.filled in
        let selection = (get_selection_vector p id (o.cluster_offsets id)).0 in
        elim (Bool-cases (p.n_passing_tuples id == 0)) [
          | inl none_pass ↦
              let e : visited + p.n_passing_tuples id ≡ visited = ground arith in
              rw none_pass
                (s, refl, subst (λ n. IsFilled searcher x (is_passing o p) s.heap n) (sym e) inv)
          | inr some_pass ↦ elim (Bool-cases (c.num_embeddings == 0)) [
            | inl empty ↦ absurd (
                ground (
                  arith,
                  evaluated.counted id c at,
                  length-select-le (is_passing o p id) (range c.num_embeddings),
                  length-prefix c.num_embeddings (λ i. i),
                ))
            | inr some_embeddings ↦
                rw (some_pass, some_embeddings)
                  (elim (Bool-cases (ltb (length s.heap) k)) [
                    | inl room ↦
                        let (down, many, exact) =
                          filtered_start-IsExact sorting searcher is_dense x ready id c selection
                            (p.n_passing_tuples id) s at laws sorts selecting
                            (λ i. evaluated.bits _) (evaluated.counted id c at) inv.descending
                            (omega arith) in
                        rw room (
                          filtered_start sorting searcher is_dense selection (p.n_passing_tuples id)
                              c s,
                          refl,
                          record {
                            descending = down;
                            filled = many ∙ omega arith;
                            exact =
                                exact (IsOfIndex searcher x (is_passing o p))
                                  (λ a e. (id, c, at, e)) inv.exact;
                          },
                        )
                    | inr full ↦
                        let is_full : k ≤ length s.heap = ground arith in
                        let same = sym (nearest_all k s.heap (omega arith)) in
                        let (t, e, _, left) =
                          filtered_search_cluster_lem searcher x
                            (IsOfIndex searcher x (is_passing o p)) laws ready o p
                            (alone sorting searcher s.heap) s s.heap id c at inv.descending same
                            tt in
                        rw full (
                          t,
                          e,
                          Leaves-IsFilled searcher x (is_passing o p) laws ready _ s.heap t visited
                              (p.n_passing_tuples id) is_full inv left,
                        )
                  ])
          ]
        ]

    filtered_visit_clusters-IsFilled :
        (ids : List ℕ) (s : SearchState F) (visited : ℕ)
        → All (λ id. id < length pdx_data.clusters) ids
        → IsFilled searcher x (is_passing o p) s.heap visited
        → (t : SearchState F) × (filtered_visit_clusters sorting searcher is_dense o p ids s
            ≡ some t)
          × IsFilled searcher x (is_passing o p) t.heap (visited + passing_of ids)
    unfolding filtered_visit_clusters
    filtered_visit_clusters-IsFilled [] s visited in_range inv =
        let e : visited + 0 ≡ visited = omega arith in (s, refl, rw e inv)
    filtered_visit_clusters-IsFilled (id ∷ ids) s visited (lt, in_range) inv =
        let (c, at) = get_elem-inside pdx_data.clusters id lt in
        let (t, e, inv') = filtered_visit_cluster-IsFilled id c s visited at inv in
        let (u, e', inv'') = filtered_visit_clusters-IsFilled ids t _ in_range inv' in
        let whole : filtered_visit_clusters sorting searcher is_dense o p (id ∷ ids) s ≡ some u =
          rw (at, e, filtered_visit_clusters) e' in
        let sum : visited + p.n_passing_tuples id + passing_of ids
            ≡ visited + passing_of (id ∷ ids) =
          omega arith in
        (u, whole, subst (λ n. IsFilled searcher x (is_passing o p) u.heap n) sum inv'')

  -- `FilteredSearchGlobal` returns. Its result comes with the nearest first, has as many candidates as
  -- tuples pass in the clusters that it visits, up to k, and each is an embedding of the index that
  -- its selection vector marks, with its exact distance, whichever kernel the share of passing tuples
  -- chooses. The conditions are those of `SearchGlobal`; the sorting puts the smallest first, and the
  -- evaluator has bits and counts the passing tuples of each cluster.
  pub filtered_search_global-exact :
      ⦃ops : Arithmetic F⦄
      → IsOrdered F
      → IsSorting sorting
      → IsSelecting sorting
      → IsSearchable searcher x
      → IsCounted
      → IsFinite searcher
      → (query : Buffer F) (ivf_nprobe : ℕ) (positions distances : Buffer ℕ)
      → (result : List (KnnCandidate F)) × (filtered_search_global sorting searcher is_dense o p
            query ivf_nprobe positions distances
          ≡ some result)
        × IsAscending result
        × (length result
            ≡ min k (passing_of (visited_clusters sorting searcher x query ivf_nprobe)))
        × All (IsOfIndex searcher x (is_passing o p)) result
  unfolding filtered_search_global
  filtered_search_global-exact laws sorts selecting ready evaluated finite query ivf_nprobe
        positions distances =
      let (t, e, inv) =
        filtered_visit_clusters-IsFilled laws sorts selecting ready evaluated
          (visited_clusters sorting searcher x query ivf_nprobe)
          (record {
            heap = [];
            pruning_positions = positions;
            pruning_distances = distances;
            offset = 0;
          })
          0 (take-All sorting searcher _ _ _ (access_order-All sorting searcher x sorts query _))
          (record { descending = tt; filled = omega arith; exact = tt }) in
      let (ascending, size, exact) =
        result-IsFilled searcher x (is_passing o p) laws ready finite t.heap _ inv in
      (
        build_result_set_from_heap k t.heap,
        rw (e, filtered_search_global),
        ascending,
        omega arith,
        exact,
      )
