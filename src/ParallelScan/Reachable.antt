-- ===== src/ParallelScan/Reachable.antt =====
-- The states that the unfiltered scan reaches, in any order of its threads and tasks.
use mathlib.Core.Path.{subst}
use mathlib.Core.Option.{some-injective}
use mathlib.Core.List.{reverse}
use pdxearch.Prelude.{
  ◌%◌, ◌^◌, ℕ, ◌≤◌, ◌<◌, ◌≡◌, refl, ap, sym, ◌∙◌, inl, inr, arith, true, List, [], ◌∷◌, ◌++◌, some,
  All, take, map,
}
use pdxearch.Kernel.Float.{Float, IsOrdered}
use pdxearch.Kernel.Heap.{KnnCandidate}
use pdxearch.Kernel.Heap.Order.{push_all, nearest}
use pdxearch.Kernel.Heap.Result.{build_result_set-nearest}
use pdxearch.ParallelScan.{
  SourceResult, finished, SourceState, heap_initialization_element, source_state, start, call,
  offers, ends, source_get_data, Reach, emitted_row_ids,
}
use pdxearch.ParallelScan.Sound.{ids, IsSound, start-IsSound, offers-IsSound, ends-IsSound}
use pdxearch.ParallelScan.Answers.{is_last, get_data-IsAnswered}

module _ {ℓ} {F : Type ℓ} ⦃f : Float F⦄ (limit num_row_groups standard_vector_size : ℕ) where
  pub Reach-IsSound :
      IsOrdered F
      → 0 < limit % 2 ^ 32
      → 0 < standard_vector_size
      → {rs : List SourceResult} {cs : List (KnnCandidate F)} {s : SourceState F}
      → Reach limit num_row_groups standard_vector_size
          (source_state limit num_row_groups standard_vector_size)
          rs
          cs
          s
      → IsSound limit num_row_groups standard_vector_size rs cs s
  Reach-IsSound laws some_limit room start =
      start-IsSound limit num_row_groups standard_vector_size some_limit
  Reach-IsSound laws some_limit room (call {rs} {cs} {s} r t before e) =
      let (q, u, answered) =
        get_data-IsAnswered limit num_row_groups standard_vector_size rs cs s room
          (Reach-IsSound laws some_limit room before) in
      let same : (q, u) ≡ (r, t) = some-injective _ _ (sym answered.answer ∙ e) in
      subst
        (λ (a : SourceResult × SourceState F).
          IsSound limit num_row_groups standard_vector_size (rs ++ a.0 ∷ []) cs a.1)
        same answered.sound
  Reach-IsSound laws some_limit room (offers {rs} {cs} {s} c before busy) =
      offers-IsSound limit num_row_groups standard_vector_size laws rs cs s c busy
        (Reach-IsSound laws some_limit room before)
  Reach-IsSound laws some_limit room (ends {rs} {cs} {s} before busy) =
      ends-IsSound limit num_row_groups standard_vector_size rs cs s busy
        (Reach-IsSound laws some_limit room before)

  -- In every state that the threads and tasks can reach, the search was scheduled at most once, a
  -- call of `GetData` reads no row ids that are not there, and the calls so far have emitted the
  -- first of the row ids of the nearest of the heap's first element and the offered candidates, in
  -- order and each once. Floats are ordered, the limit modulo 2 ^ 32 is not 0, and neither is a
  -- vector of DuckDB.
  pub source_get_data-answers :
      {rs : List SourceResult} {cs : List (KnnCandidate F)} {s : SourceState F}
      → IsOrdered F
      → 0 < limit % 2 ^ 32
      → 0 < standard_vector_size
      → Reach limit num_row_groups standard_vector_size
          (source_state limit num_row_groups standard_vector_size)
          rs
          cs
          s
      → (s.scheduled_events ≤ 1)
        × ((r : SourceResult) × (t : SourceState F) × (source_get_data limit num_row_groups
                standard_vector_size s
              ≡ some (r, t)))
        × (emitted_row_ids rs
            ≡ take s.pdxearch_row_ids_idx (ids limit num_row_groups standard_vector_size cs))
  source_get_data-answers {rs} {cs} {s} laws some_limit room reached =
      let inv = Reach-IsSound laws some_limit room reached in
      let (r, t, answered) =
        get_data-IsAnswered limit num_row_groups standard_vector_size rs cs s room inv in
      let once = inv.once in
      (
        ground arith,
        (r, t, answered.answer),
        elim inv.phase [
          | inl p ↦
              p.nothing
              ∙ ap (λ i. take i (ids limit num_row_groups standard_vector_size cs)) (sym p.at_start)
          | inr p ↦ p.so_far
        ],
      )

  -- When a call of `GetData` says that the scan has finished, in any order of the threads and
  -- tasks, the calls before have emitted the row ids of the nearest of all candidates that the
  -- tasks offered, nearest first, as many as the limit modulo 2 ^ 32 if there are that many. Floats
  -- are ordered, the candidates are nearer than the greatest float, the limit modulo 2 ^ 32 is not
  -- 0, and neither is a vector of DuckDB.
  pub finished-nearest :
      {rs : List SourceResult} {cs : List (KnnCandidate F)} {s t : SourceState F}
      → IsOrdered F
      → 0 < limit % 2 ^ 32
      → 0 < standard_vector_size
      → All (λ c. f.lt c.distance f.greatest ≡ true) cs
      → Reach limit num_row_groups standard_vector_size
          (source_state limit num_row_groups standard_vector_size)
          rs
          cs
          s
      → source_get_data limit num_row_groups standard_vector_size s ≡ some (finished, t)
      → emitted_row_ids rs
        ≡ map (λ c. c.index) (reverse (nearest (limit % 2 ^ 32) (push_all cs [])))
  finished-nearest {rs} {cs} {s} {t} laws some_limit room near reached e =
      let (r, u, answered) =
        get_data-IsAnswered limit num_row_groups standard_vector_size rs cs s room
          (Reach-IsSound laws some_limit room reached) in
      let same : (r, u) ≡ (finished, t) = some-injective _ _ (sym answered.answer ∙ e) in
      answered.last (ap (λ a. is_last a.0) same)
      ∙ ap (map (λ c. c.index)) (
          build_result_set-nearest laws (limit % 2 ^ 32)
            (heap_initialization_element limit num_row_groups standard_vector_size) cs refl near)
