-- ===== src/ParallelScan.antt =====
-- src/index/search/pdxearch_index_scan_physical.cpp: the operator that scans an index without a
-- filter. The first call of `GetData` schedules an event with a task for each row group; the tasks
-- search and share a heap; the last of them stores the row ids, which later calls emit.
pub mod Sound
pub mod Answers
pub mod Reachable
pub mod Finishing
use pdxearch.Prelude.{
  ℕ, ◌+◌, ◌-◌, ◌%◌, ◌^◌, ◌<◌, ◌≡◌, min, Bool, true, false, List, [], ◌∷◌, ◌++◌, Option, none, some,
  ◌==◌, if◌then◌else◌, length, take, drop, map,
}
use pdxearch.Kernel.Float.{Float}
use pdxearch.Kernel.Heap.{KnnCandidate, Heap, offer, build_result_set_from_heap}

-- `SourceResultType` with the row ids that are fetched.
pub data SourceResult : Type 0 where
  blocked : SourceResult
  finished : SourceResult
  have_more_output : List ℕ → SourceResult

-- `PDXearchScanGlobalSourceState`, with the events that are scheduled and the tasks of the event that
-- are not finished.
pub record SourceState {ℓ} (F : Type ℓ) : Type ℓ where
  pub global_heap : Heap F
  pub search_started : Bool
  pub search_completed : Bool
  pub pdxearch_row_ids : Option (List ℕ)
  pub pdxearch_row_ids_idx : ℕ
  pub scheduled_events : ℕ
  pub unfinished_tasks : ℕ

-- `STANDARD_VECTOR_SIZE` is a constant of DuckDB.
module _ {ℓ} {F : Type ℓ} ⦃f : Float F⦄ (limit num_row_groups standard_vector_size : ℕ) where
  -- `HEAP_INITIALIZATION_ELEMENT`
  abbrev pub heap_initialization_element : KnnCandidate F
  heap_initialization_element = record { index = 1337; distance = f.greatest }

  -- The constructor of the state.
  abbrev pub source_state : SourceState F
  source_state = record {
    global_heap = heap_initialization_element ∷ [];
    search_started = false;
    search_completed = false;
    pdxearch_row_ids = none;
    pdxearch_row_ids_idx = 0;
    scheduled_events = 0;
    unfinished_tasks = 0;
  }

  -- The exchange of `search_started`, and the event that the call which sees `false` schedules. No
  -- task runs before it does, so that other calls only block between the two.
  abbrev pub start_search : SourceState F → SourceState F
  start_search s = if s.search_started then s else (record s {
    search_started = true;
    scheduled_events = s.scheduled_events + 1;
    unfinished_tasks = num_row_groups;
  })

  -- `GetData` after that; `none` is a read of row ids that are not there.
  unfoldable pub emit_results : SourceState F → Option (SourceResult × SourceState F)
  emit_results s =
      if s.search_completed
      then (elim s.pdxearch_row_ids [
        | none ↦ none
        | some row_ids ↦
            let idx = s.pdxearch_row_ids_idx in
            let num_results_to_emit = min standard_vector_size (length row_ids - idx) in
            if num_results_to_emit == 0
            then some (finished, s)
            else some (
              have_more_output (take num_results_to_emit (drop idx row_ids)),
              record s { pdxearch_row_ids_idx = idx + num_results_to_emit },
            )
      ])
      else some (blocked, s)

  -- `GetData`
  unfoldable pub source_get_data : SourceState F → Option (SourceResult × SourceState F)
  source_get_data s = emit_results (start_search s)

  -- The row ids of the result. The limit becomes a `uint32_t`.
  abbrev pub result_row_ids : Heap F → List ℕ
  result_row_ids h = map (λ c. c.index) (build_result_set_from_heap (limit % 2 ^ 32) h)

  -- `FinishEvent`
  abbrev pub finish_event : SourceState F → SourceState F
  finish_event s = record s {
    pdxearch_row_ids = some (result_row_ids s.global_heap);
    search_completed = true;
  }

  -- `FinishTask`. After its last task DuckDB finishes the event.
  unfoldable pub finish_task : SourceState F → SourceState F
  finish_task s =
      let t = record s { unfinished_tasks = s.unfinished_tasks - 1 } in
      if t.unfinished_tasks == 0 then finish_event t else t

  -- What can happen: a thread calls `GetData`, a task that is not finished offers a candidate to
  -- the heap under the lock, whose limit is a `uint32_t`, or a task finishes. The results of the
  -- calls and the candidates since the first state are listed.
  pub data Reach (from : SourceState F)
      : List SourceResult → List (KnnCandidate F) → SourceState F → Type ℓ where
    start : Reach from [] [] from
    call :
        {rs : List SourceResult} {cs : List (KnnCandidate F)} {s : SourceState F} (r : SourceResult)
        (t : SourceState F)
        → Reach from rs cs s
        → source_get_data s ≡ some (r, t)
        → Reach from (rs ++ r ∷ []) cs t
    offers :
        {rs : List SourceResult} {cs : List (KnnCandidate F)} {s : SourceState F}
        (c : KnnCandidate F)
        → Reach from rs cs s
        → 0 < s.unfinished_tasks
        → Reach from rs
            (cs ++ c ∷ [])
            (record s { global_heap = offer (limit % 2 ^ 32) c s.global_heap })
    ends :
        {rs : List SourceResult} {cs : List (KnnCandidate F)} {s : SourceState F}
        → Reach from rs cs s
        → 0 < s.unfinished_tasks
        → Reach from rs cs (finish_task s)

-- The row ids that calls have emitted.
abbrev pub emitted_row_ids : List SourceResult → List ℕ
emitted_row_ids [] = []
emitted_row_ids (blocked ∷ rs) = emitted_row_ids rs
emitted_row_ids (finished ∷ rs) = emitted_row_ids rs
emitted_row_ids (have_more_output row_ids ∷ rs) = row_ids ++ emitted_row_ids rs
