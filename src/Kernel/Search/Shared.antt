-- ===== src/Kernel/Search/Shared.antt =====
-- The heap that several searches share.
use pdxearch.Prelude.{
  true, ℕ, zero, suc, ◌≤◌, ◌<◌, ◌≡◌, refl, ◌⊎◌, inl, inr, min, Bool, List, [], ◌∷◌, some, arith,
  ◌==◌, All, Bool-cases, length, get_elem?, take,
}
use pdxearch.Dimensions.{pdx_max_dims}
use pdxearch.Kernel.Float.{Float, IsOrdered}
use pdxearch.Kernel.Heap.{KnnCandidate, Heap}
use pdxearch.Kernel.Heap.Order.{IsDescending, push_all, nearest, push_all-IsDescending}
use pdxearch.Kernel.Index.{Cluster}
use pdxearch.Kernel.Scan.Calls.{everything, scan_lem}
use pdxearch.Kernel.Search.{
  Searcher, Encounter, SearchState, job_of, merge_kept, search_cluster, search_loop, search,
}
use pdxearch.Kernel.Search.Offered.{IsDueAt}
use pdxearch.Kernel.Search.Leaving.{
  get_elem-inside, IsSearchable, job-IsByteJob, IsOfIndex, Leaves, skipped, merged, chain, weaken,
  IsMerged, IsDueNow, IsDue, now_or_later,
}

module _ {ℓ} {F : Type ℓ} ⦃f : Float F⦄ (searcher : Searcher F) (x : ℕ → ℕ → ℕ → ℕ) where
  open searcher use {pdx_data, k}

  module _ {κ} (IsKnown : KnnCandidate F → Type κ) (laws : IsOrdered F)
      (ready : IsSearchable searcher x) where
    pub few_vertical : pdx_data.num_vertical_dimensions ≤ pdx_max_dims
    few_vertical = let few = ready.few in omega arith

    pub search_cluster_lem :
        (e : Encounter F) (s : SearchState F) (seen : Heap F) (id : ℕ) (c : Cluster)
        → get_elem? pdx_data.clusters id ≡ some c
        → IsDescending seen
        → s.heap ≡ nearest k seen
        → All IsKnown e.others
        → (t : SearchState F) × (search_cluster searcher e c s ≡ some t)
          × Leaves searcher x IsKnown laws ready
              (λ id. everything)
              (IsDueNow searcher x (λ id. everything) (λ id. true) e id c)
              seen
              t
    unfolding search_cluster
    search_cluster_lem e s seen id c at d h known =
        let sel : ℕ → ℕ → Bool = λ id. everything in
        elim (Bool-cases (c.num_embeddings == 0)) [
          | inl empty ↦ rw empty (
            _,
            refl,
            skipped searcher x IsKnown laws ready sel e s seen
                (IsDueNow searcher x sel (λ id. true) e id c) d h known
                (λ a due. elim due [
                  | inl other ↦ other
                  | inr (_, inl other) ↦ other
                  | inr (_, inr (v, hv, _, _, _)) ↦ absurd (ground arith)
                ]),
          )
          | inr some_embeddings ↦
              let (t, e', scanned) =
                scan_lem (job_of searcher e c) (x id) few_vertical
                  (searcher.tuples_needed_to_exit c.num_embeddings) s.pruning_positions
                  s.pruning_distances
                  (job-IsByteJob searcher x ready e everything id c at).is_job in
              rw (some_embeddings, e')
                (
                  merge_kept searcher e c t s,
                  refl,
                  weaken searcher x IsKnown laws ready sel seen (merge_kept searcher e c t s)
                      (IsDueAt searcher (x id) everything e c)
                      (IsDueNow searcher x sel (λ id. true) e id c)
                      (λ a due. elim due [ inl other ↦ inl other | inr (_, here) ↦ here ])
                      (merged searcher x IsKnown laws ready sel e s seen id c t at scanned d h
                        known),
                )
        ]

    search_loop_lem :
        (env : ℕ → Encounter F) (i : ℕ) (ids : List ℕ) (s : SearchState F) (seen : Heap F)
        → All (λ id. id < length pdx_data.clusters) ids
        → IsDescending seen
        → s.heap ≡ nearest k seen
        → ((j : ℕ) → All IsKnown (env j).others)
        → (t : SearchState F) × (search_loop searcher env i ids s ≡ some t)
          × Leaves searcher x IsKnown laws ready
              (λ id. everything)
              (IsDue searcher x (λ id. everything) (λ id. true) env i ids)
              seen
              t
    unfolding search_loop push_all
    search_loop_lem env i [] s seen inside d h known = (s, refl, ([], h, tt, λ a m. m))
    search_loop_lem env i (id ∷ ids) s seen (lt, inside) d h known =
        let sel : ℕ → ℕ → Bool = λ id. everything in
        let (c, at) = get_elem-inside pdx_data.clusters id lt in
        let (t, e, left) = search_cluster_lem (env i) s seen id c at d h (known i) in
        let (u, e', left') =
          search_loop_lem env (suc i) ids t (push_all left.0 seen) inside
            (push_all-IsDescending laws left.0 seen d) left.1 known in
        let whole : search_loop searcher env i (id ∷ ids) s ≡ some u = rw (at, e, search_loop) e' in
        (
          u,
          whole,
          chain searcher x IsKnown laws ready sel seen t u
              (IsDueNow searcher x sel (λ id. true) (env i) id c)
              (IsDue searcher x sel (λ id. true) env (suc i) ids)
              (IsDue searcher x sel (λ id. true) env i (id ∷ ids)) left left'
              (now_or_later searcher x sel (λ id. true) env i id ids c at),
        )

    pub All-take :
        (n : ℕ) (ids : List ℕ) (m : ℕ) → All (λ id. id < m) ids → All (λ id. id < m) (take n ids)
    All-take zero ids m a = tt
    All-take (suc n) [] m a = tt
    All-take (suc n) (id ∷ ids) m (lt, a) = (lt, All-take n ids m a)

    -- The clusters that a call of `Search` visits.
    abbrev pub probed : ℕ → List ℕ
    probed n = take (min n (length pdx_data.clusters)) searcher.cluster_indices_in_access_order

    -- `Search` returns, whatever other threads do to the shared heap during each iteration. If the
    -- heap held the k nearest of what it stood for, it then holds the k nearest of that and of one
    -- list of candidates, each of which another thread offered or is an embedding of the index with
    -- its exact squared distance, scaled back. In the list is every candidate that another thread
    -- offered, and every embedding of a probed cluster that is nearer than all thresholds that can be
    -- read in the iteration of the cluster. The distances are ordered, the clusters are stored bytes,
    -- and the access order has clusters of the index.
    pub search-nearest :
        (env : ℕ → Encounter F) (num_clusters_to_probe : ℕ) (s : SearchState F) (seen : Heap F)
        → All (λ id. id < length pdx_data.clusters) searcher.cluster_indices_in_access_order
        → IsDescending seen
        → s.heap ≡ nearest k seen
        → ((j : ℕ) → All IsKnown (env j).others)
        → (t : SearchState F) × (search searcher env num_clusters_to_probe s ≡ some t)
          × IsMerged k
              (λ a. IsKnown a ⊎ IsOfIndex searcher x (λ id. everything) a)
              (IsDue searcher x
                (λ id. everything)
                (λ id. true)
                env
                0
                (probed num_clusters_to_probe))
              seen
              t.heap
    unfolding search
    search-nearest env n s seen inside d h known =
        let (t, e, left) =
          search_loop_lem env 0 (probed n) s seen
            (All-take (min n (length pdx_data.clusters)) searcher.cluster_indices_in_access_order
              (length pdx_data.clusters) inside)
            d h known in
        let (cs, heap, all, offered) = left in
        (t, e, record { candidates = cs; kept = heap; each = all; complete = offered })
