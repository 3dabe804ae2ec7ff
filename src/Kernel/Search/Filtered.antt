-- ===== src/Kernel/Search/Filtered.antt =====
-- The filtered search on a shared heap.
use pdxearch.Prelude.{
  ℕ, zero, suc, ◌+◌, ◌≤◌, ◌<◌, ◌≡◌, refl, ◌⊎◌, inl, inr, min, Bool, not, List, [], ◌∷◌, some, arith,
  ◌==◌, All, Bool-cases, length, get_elem?, take, drop, length-take, length-drop,
}
use pdxearch.Kernel.Float.{Float, IsOrdered}
use pdxearch.Kernel.Heap.{KnnCandidate, Heap}
use pdxearch.Kernel.Heap.Order.{IsDescending, push_all, nearest, push_all-IsDescending}
use pdxearch.Kernel.Index.{Cluster}
use pdxearch.Kernel.Scan.Calls.{passing, scan_filtered_lem}
use pdxearch.Kernel.Search.{
  Searcher, Encounter, SearchState, ClusterOffsets, PredicateEvaluator, get_selection_vector,
  job_of, merge_kept, offer_all, filtered_search_cluster, filtered_search_loop, filtered_search,
}
use pdxearch.Kernel.Search.Shared.{few_vertical, All-take}
use pdxearch.Kernel.Search.Leaving.{
  get_elem-inside, IsSearchable, job-IsByteJob, IsOfIndex, Leaves, skipped, merged, chain, weaken,
  IsMerged, IsDueNow, IsDue, now_or_later,
}
use pdxearch.Kernel.Search.Offered.{IsDueAt}
use mathlib.Core.Path.{subst}

All-drop : (n : ℕ) (ids : List ℕ) (m : ℕ) → All (λ id. id < m) ids → All (λ id. id < m) (drop n ids)
All-drop zero ids m a = a
All-drop (suc n) [] m a = tt
All-drop (suc n) (id ∷ ids) m (lt, a) = All-drop n ids m a

-- The embeddings that the evaluator's selection vector marks for a cluster.
abbrev pub is_passing : ClusterOffsets → PredicateEvaluator → ℕ → ℕ → Bool
is_passing o p id = passing (get_selection_vector p id (o.cluster_offsets id)).0

module _ {ℓ κ} {F : Type ℓ} ⦃f : Float F⦄ (searcher : Searcher F) (x : ℕ → ℕ → ℕ → ℕ)
    (IsKnown : KnnCandidate F → Type κ) (laws : IsOrdered F) (ready : IsSearchable searcher x)
    (o : ClusterOffsets) (p : PredicateEvaluator) where
  open searcher use {pdx_data, k}

  -- A cluster of which nothing passes is skipped.
  abbrev pub is_searched : ℕ → Bool
  is_searched id = not (p.n_passing_tuples id == 0)

  abbrev IsDueHere : Encounter F → ℕ → Cluster → KnnCandidate F → Type ℓ
  IsDueHere = IsDueNow searcher x (is_passing o p) is_searched

  abbrev LeavesDue : (KnnCandidate F → Type ℓ) → Heap F → SearchState F → Type (ℓ ⊔ κ)
  LeavesDue = Leaves searcher x IsKnown laws ready (is_passing o p)

  pub filtered_search_cluster_lem :
      (e : Encounter F) (s : SearchState F) (seen : Heap F) (id : ℕ) (c : Cluster)
      → get_elem? pdx_data.clusters id ≡ some c
      → IsDescending seen
      → s.heap ≡ nearest k seen
      → All IsKnown e.others
      → (t : SearchState F) × (filtered_search_cluster searcher e
            (get_selection_vector p id (o.cluster_offsets id)).0
            (p.n_passing_tuples id)
            c
            s
          ≡ some t)
        × (t.offset ≡ s.offset)
        × LeavesDue (IsDueHere e id c) seen t
  unfolding filtered_search_cluster
  filtered_search_cluster_lem e s seen id c at d h known =
      let selection = (get_selection_vector p id (o.cluster_offsets id)).0 in
      elim (Bool-cases (p.n_passing_tuples id == 0)) [
        | inl none_pass ↦
            let left =
              skipped searcher x IsKnown laws ready (is_passing o p) e s seen (IsDueHere e id c) d h
                known
                (λ a due. elim due [
                  | inl other ↦ other
                  | inr (searched, _) ↦ absurd (ground arith)
                ]) in
            let run : filtered_search_cluster searcher e selection (p.n_passing_tuples id) c s
                ≡ some (record s { heap = offer_all searcher e.others s.heap }) =
              rw none_pass refl in
            (_, run, refl, left)
        | inr some_pass ↦ elim (Bool-cases (c.num_embeddings == 0)) [
          | inl empty ↦
              let left =
                skipped searcher x IsKnown laws ready (is_passing o p) e s seen (IsDueHere e id c) d
                  h known
                  (λ a due. elim due [
                    | inl other ↦ other
                    | inr (_, inl other) ↦ other
                    | inr (_, inr (v, hv, _, _, _)) ↦ absurd (ground arith)
                  ]) in
              let run : filtered_search_cluster searcher e selection (p.n_passing_tuples id) c s
                  ≡ some (record s { heap = offer_all searcher e.others s.heap }) =
                rw (some_pass, empty) refl in
              (_, run, refl, left)
          | inr some_embeddings ↦
              let (t, e', scanned) =
                scan_filtered_lem (job_of searcher e c) (x id)
                  (few_vertical searcher x IsKnown laws ready)
                  (searcher.tuples_needed_to_exit c.num_embeddings)
                  (searcher.is_selective (p.n_passing_tuples id) c.num_embeddings) selection
                  s.pruning_positions s.pruning_distances
                  (job-IsByteJob searcher x ready e (passing selection) id c at).is_job in
              let run : filtered_search_cluster searcher e selection (p.n_passing_tuples id) c s
                  ≡ some (merge_kept searcher e c t s) =
                rw (some_pass, some_embeddings, e') refl in
              (
                merge_kept searcher e c t s,
                run,
                refl,
                weaken searcher x IsKnown laws ready (is_passing o p) seen
                    (merge_kept searcher e c t s) (IsDueAt searcher (x id) (passing selection) e c)
                    (IsDueHere e id c)
                    (λ a due. elim due [ inl other ↦ inl other | inr (_, here) ↦ here ])
                    (merged searcher x IsKnown laws ready (is_passing o p) e s seen id c t at
                      scanned d h known),
              )
        ]
      ]

  filtered_search_loop_lem :
      (env : ℕ → Encounter F) (ids : List ℕ) (s : SearchState F) (seen : Heap F)
      → All (λ id. id < length pdx_data.clusters) ids
      → IsDescending seen
      → s.heap ≡ nearest k seen
      → ((j : ℕ) → All IsKnown (env j).others)
      → (t : SearchState F) × (filtered_search_loop searcher env o p ids s ≡ some t)
        × (t.offset ≡ s.offset + length ids)
        × LeavesDue (IsDue searcher x (is_passing o p) is_searched env s.offset ids) seen t
  unfolding filtered_search_loop push_all
  filtered_search_loop_lem env [] s seen inside d h known =
      (s, refl, omega arith, ([], h, tt, λ a m. m))
  filtered_search_loop_lem env (id ∷ ids) s seen (lt, inside) d h known =
      let IsDueFrom =
        λ (i : ℕ) (rest : List ℕ). IsDue searcher x (is_passing o p) is_searched env i rest in
      let (c, at) = get_elem-inside pdx_data.clusters id lt in
      let (t, e, same, left) =
        filtered_search_cluster_lem (env s.offset) s seen id c at d h (known s.offset) in
      let next : SearchState F = record t { offset = t.offset + 1 } in
      let (u, e', end, left') =
        filtered_search_loop_lem env ids next (push_all left.0 seen) inside
          (push_all-IsDescending laws left.0 seen d) left.1 known in
      let moved : suc s.offset ≡ t.offset + 1 = omega arith in
      let run : filtered_search_loop searcher env o p (id ∷ ids) s ≡ some u =
        rw (at, e, filtered_search_loop) e' in
      (
        u,
        run,
        omega arith,
        chain searcher x IsKnown laws ready (is_passing o p) seen t u
            (IsDueHere (env s.offset) id c) (IsDueFrom (t.offset + 1) ids)
            (IsDueFrom s.offset (id ∷ ids)) left left'
            (λ a due.
              elim (now_or_later searcher x (is_passing o p) is_searched env s.offset id ids c at a
                due) [
                  | inl now ↦ inl now
                  | inr later ↦ inr (subst (λ (i : ℕ). IsDueFrom i ids a) moved later)
                ]),
      )

  -- The clusters that a call of `FilteredSearch` visits from an offset.
  abbrev pub next_probed : (offset num_clusters_to_try_to_probe : ℕ) → List ℕ
  next_probed offset n =
      drop offset (
        take (min (offset + n) (length pdx_data.clusters)) searcher.cluster_indices_in_access_order)

  -- `FilteredSearch` returns, whatever other threads do to the shared heap during each iteration.
  -- The offset moves on by the number of clusters to try, up to the number of clusters, so that
  -- later calls go on behind it. If the heap held the k nearest of what it stood for, it then holds
  -- the k nearest of that and of one list of candidates, each of which another thread offered or is
  -- an embedding of the index that its selection vector marks, with its exact squared distance,
  -- scaled back. In the list is every candidate that another thread offered, and every marked
  -- embedding of the next clusters that is nearer than all thresholds that can be read in the
  -- iteration of its cluster, where the evaluator counts passing tuples. The conditions are those
  -- of `Search`, and the offset starts within the access order, which lists as many clusters as the
  -- index has.
  pub filtered_search-nearest :
      (env : ℕ → Encounter F) (num_clusters_to_try_to_probe : ℕ) (s : SearchState F) (seen : Heap F)
      → All (λ id. id < length pdx_data.clusters) searcher.cluster_indices_in_access_order
      → length searcher.cluster_indices_in_access_order ≡ length pdx_data.clusters
      → s.offset ≤ length pdx_data.clusters
      → IsDescending seen
      → s.heap ≡ nearest k seen
      → ((j : ℕ) → All IsKnown (env j).others)
      → (t : SearchState F) × (filtered_search searcher env o p num_clusters_to_try_to_probe s
          ≡ some t)
        × (t.offset ≡ min (s.offset + num_clusters_to_try_to_probe) (length pdx_data.clusters))
        × IsMerged k
            (λ a. IsKnown a ⊎ IsOfIndex searcher x (is_passing o p) a)
            (IsDue searcher x
              (is_passing o p)
              is_searched
              env
              s.offset
              (next_probed s.offset num_clusters_to_try_to_probe))
            seen
            t.heap
  unfolding filtered_search
  filtered_search-nearest env n s seen inside whole start d h known =
      let order = searcher.cluster_indices_in_access_order in
      let end = min (s.offset + n) (length pdx_data.clusters) in
      let (t, e, moved, left) =
        filtered_search_loop_lem env (next_probed s.offset n) s seen
          (All-drop s.offset (take end order) (length pdx_data.clusters)
            (All-take searcher x IsKnown laws ready end order (length pdx_data.clusters) inside))
          d h known in
      let (cs, heap, all, offered) = left in
      (
        t,
        e,
        omega (arith, length-drop s.offset (take end order), length-take end order),
        record { candidates = cs; kept = heap; each = all; complete = offered },
      )
