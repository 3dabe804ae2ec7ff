-- ===== src/ParallelScan/Sound.antt =====
-- What holds in every state of the unfiltered scan, and that its tasks keep it.
use pdxearch.Prelude.{
  ◌%◌, ◌^◌, ℕ, ◌-◌, ◌≤◌, ◌<◌, ◌≡◌, refl, ap, sym, ◌∙◌, ◌⊎◌, inl, inr, arith, true, false, List, [],
  ◌∷◌, ◌++◌, some, ◌==◌, bit, length, take, Bool-cases,
}
use pdxearch.Kernel.Float.{Float, IsOrdered}
use pdxearch.Kernel.Heap.{KnnCandidate, Heap, offer}
use pdxearch.Kernel.Heap.Order.{push_all, nearest, push_all-IsDescending}
use pdxearch.Kernel.Heap.Merge.{offer-nearest, nearest_all}
use pdxearch.Kernel.Search.Offered.{push_all-append}
use pdxearch.ParallelScan.{
  SourceResult, SourceState, heap_initialization_element, source_state, result_row_ids, finish_task,
  emitted_row_ids,
}

module _ {ℓ} {F : Type ℓ} ⦃f : Float F⦄ (limit num_row_groups standard_vector_size : ℕ) where
  abbrev pub initial_heap : Heap F
  initial_heap = heap_initialization_element limit num_row_groups standard_vector_size ∷ []

  -- The row ids of the nearest of the initialization element and some candidates.
  abbrev pub ids : List (KnnCandidate F) → List ℕ
  ids cs =
      result_row_ids limit num_row_groups standard_vector_size
        (nearest (limit % 2 ^ 32) (push_all cs initial_heap))

  -- Before the search has completed nothing is emitted.
  pub record IsSearching (rs : List SourceResult) (s : SourceState F) : Type 0 where
    pub incomplete : s.search_completed ≡ false
    pub at_start : s.pdxearch_row_ids_idx ≡ 0
    pub nothing : emitted_row_ids rs ≡ []
    pub begun :
        ((s.search_started ≡ false) × (s.unfinished_tasks ≡ 0))
        ⊎ ((s.search_started ≡ true) × ((0 < s.unfinished_tasks) ⊎ (num_row_groups ≡ 0)))

  -- Afterwards no task is left, and the row ids are emitted up to the index.
  pub record IsEmitting (rs : List SourceResult) (cs : List (KnnCandidate F)) (s : SourceState F)
      : Type 0 where
    pub completed : s.search_completed ≡ true
    pub begun : s.search_started ≡ true
    pub none_left : s.unfinished_tasks ≡ 0
    pub stored : s.pdxearch_row_ids ≡ some (ids cs)
    pub inside : s.pdxearch_row_ids_idx ≤ length (ids cs)
    pub so_far : emitted_row_ids rs ≡ take s.pdxearch_row_ids_idx (ids cs)

  pub record IsSound (rs : List SourceResult) (cs : List (KnnCandidate F)) (s : SourceState F)
      : Type ℓ where
    pub once : s.scheduled_events ≡ bit s.search_started
    pub heap : s.global_heap ≡ nearest (limit % 2 ^ 32) (push_all cs initial_heap)
    pub phase : IsSearching rs s ⊎ IsEmitting rs cs s

  pub start-IsSound :
      0 < limit % 2 ^ 32 → IsSound [] [] (source_state limit num_row_groups standard_vector_size)
  unfolding push_all
  start-IsSound some_limit = record {
    once = refl;
    heap = sym (nearest_all (limit % 2 ^ 32) initial_heap (omega arith));
    phase =
        inl
          (record { incomplete = refl; at_start = refl; nothing = refl; begun = inl (refl, refl) });
  }

  pub offers-IsSound :
      IsOrdered F
      → (rs : List SourceResult) (cs : List (KnnCandidate F)) (s : SourceState F)
        (c : KnnCandidate F)
      → 0 < s.unfinished_tasks
      → IsSound rs cs s
      → IsSound rs
          (cs ++ c ∷ [])
          (record s { global_heap = offer (limit % 2 ^ 32) c s.global_heap })
  unfolding push_all
  offers-IsSound laws rs cs s c busy inv = record {
    once = inv.once;
    heap =
        ap (offer (limit % 2 ^ 32) c) inv.heap
        ∙ offer-nearest laws (limit % 2 ^ 32) c _
            (push_all-IsDescending laws cs initial_heap (tt, tt))
        ∙ ap (nearest (limit % 2 ^ 32)) (sym (push_all-append cs (c ∷ []) initial_heap));
    phase = elim inv.phase [
      | inl p ↦ inl (record {
        incomplete = p.incomplete;
        at_start = p.at_start;
        nothing = p.nothing;
        begun = p.begun;
      })
      | inr p ↦ let done = p.none_left in absurd (omega arith)
    ];
  }

  pub ends-IsSound :
      (rs : List SourceResult) (cs : List (KnnCandidate F)) (s : SourceState F)
      → 0 < s.unfinished_tasks
      → IsSound rs cs s
      → IsSound rs cs (finish_task limit num_row_groups standard_vector_size s)
  unfolding finish_task
  ends-IsSound rs cs s busy inv = elim inv.phase [
    | inr p ↦ let done = p.none_left in absurd (omega arith)
    | inl p ↦
        let begun : s.search_started ≡ true = elim p.begun [
          | inl (_, z) ↦ absurd (omega arith)
          | inr (started, _) ↦ started
        ] in
        let start = p.at_start in
        elim (Bool-cases (s.unfinished_tasks - 1 == 0)) [
          | inr more ↦ rw more (record {
            once = inv.once;
            heap = inv.heap;
            phase = inl (record {
              incomplete = p.incomplete;
              at_start = p.at_start;
              nothing = p.nothing;
              begun = inr (begun, inl (ground arith));
            });
          })
          | inl last ↦ rw last (record {
            once = inv.once;
            heap = inv.heap;
            phase = inr (record {
              completed = refl;
              begun = begun;
              none_left = ground arith;
              stored =
                  ap (λ h. some (result_row_ids limit num_row_groups standard_vector_size h))
                    inv.heap;
              inside = omega arith;
              so_far = p.nothing ∙ ap (λ i. take i (ids cs)) (sym p.at_start);
            });
          })
        ]
  ]
