-- ===== src/FilteredScan.antt =====
-- src/index/search/pdxearch_index_filtered_scan_physical.cpp: the operator that feeds row ids that
-- passed a filter into the filtered search of each row group, repeats the search until it has enough
-- results, and emits them. Its calls of the index are recorded in order.
pub mod Collecting
pub mod Iterating
pub mod Emitting
use pdxearch.Prelude.{
  ℕ, zero, suc, ◌+◌, ◌-◌, ◌/◌, ◌%◌, ◌^◌, map, min, Bool, true, false, not, ◌&&◌, ◌||◌, List, [],
  ◌∷◌, ◌++◌, Option, none, some, ltb, leb, ◌==◌, if◌then◌else◌, length, take, drop,
}
use pdxearch.Kernel.Float.{Float}
use pdxearch.Kernel.Heap.{Heap, build_result_set_from_heap}
use pdxearch.Wrapper.{get_row_group_id}

-- A call of `InitializeFilteredSearchForRowGroup` with passing row ids, followed by
-- `FilteredSearchRowGroup` for the first iteration.
pub record FirstSearch : Type 0 where
  pub row_group_id : ℕ
  pub passing_row_ids : List ℕ

-- `PhysicalFilteredScanLocalSinkState`, with the calls made so far.
pub record LocalSink : Type 0 where
  pub current_row_group_id : ℕ
  pub current_row_group_passing_rowids : List ℕ
  pub row_group_ids_of_row_groups_with_passing_tuples : List ℕ
  pub calls : List FirstSearch

abbrev pub is_empty : List ℕ → Bool
is_empty [] = true
is_empty (r ∷ rs) = false

-- The search of the current row group, after which the staging area is cleared.
abbrev pub search_current : LocalSink → LocalSink
search_current l = record {
  current_row_group_id = l.current_row_group_id;
  current_row_group_passing_rowids = [];
  row_group_ids_of_row_groups_with_passing_tuples =
      l.row_group_ids_of_row_groups_with_passing_tuples ++ l.current_row_group_id ∷ [];
  calls =
      l.calls
      ++ record {
        row_group_id = l.current_row_group_id;
        passing_row_ids = l.current_row_group_passing_rowids;
      }
        ∷ [];
}

module _ (default_row_group_size : ℕ) where
  -- `Sink`
  unfoldable pub sink : List ℕ → LocalSink → LocalSink
  sink [] l = l
  sink (r ∷ rs) l =
      let row_group_id = get_row_group_id default_row_group_size r in
      let m =
        if ltb l.current_row_group_id row_group_id
          && not (is_empty l.current_row_group_passing_rowids)
        then search_current l
        else l in
      record m {
        current_row_group_id = row_group_id;
        current_row_group_passing_rowids = m.current_row_group_passing_rowids ++ r ∷ rs;
      }

  -- The calls of `Sink` by one thread.
  unfoldable pub sink_all : List (List ℕ) → LocalSink → LocalSink
  sink_all [] l = l
  sink_all (chunk ∷ chunks) l = sink_all chunks (sink chunk l)

-- `Combine`, up to the merge into the global state
unfoldable pub combine : LocalSink → LocalSink
combine l = if is_empty l.current_row_group_passing_rowids then l else search_current l

-- The local state of a thread at the start.
abbrev pub no_rows : LocalSink
no_rows = record {
  current_row_group_id = 0;
  current_row_group_passing_rowids = [];
  row_group_ids_of_row_groups_with_passing_tuples = [];
  calls = [];
}

-- `PARTITIONS_TO_PROBE_PER_ROW_GROUP_PER_FOLLOW_UP_ITERATION`
abbrev pub partitions_per_follow_up : ℕ
partitions_per_follow_up = 5

-- `GetMaximumNumberOfProbeIterations`, where `ceil_quotient` is `std::ceil` of the float quotient. The
-- member initialiser calls it before the body of the constructor sets the number of clusters of the
-- first iteration, which it reads as 0.
abbrev pub get_maximum_number_of_probe_iterations : (ceil_quotient : ℕ → ℕ → ℕ) → ℕ → ℕ
get_maximum_number_of_probe_iterations ceil_quotient total_num_clusters =
    if total_num_clusters == 0
    then 1
    else 1 + ceil_quotient total_num_clusters partitions_per_follow_up

-- `is_heap_filled_with_k_valid_results`. The heap is never empty: it starts with an element.
abbrev pub is_filled {ℓ} : {F : Type ℓ} ⦃f : Float F⦄ → (limit : ℕ) → Heap F → Bool
is_filled limit [] = false
is_filled ⦃f⦄ limit (x ∷ heap) = length (x ∷ heap) == limit && not (f.eq x.distance f.greatest)

-- The iterations of the sink phase, where a state has the heap, and `follow_up` runs the tasks of an
-- event to their end: one more iteration on all row groups, in any order of the threads.
module _ {ℓ κ} {F : Type ℓ} ⦃f : Float F⦄ {S : Type κ} (heap_of : S → Heap F) (follow_up : S → S)
    (limit max_num_probe_iterations : ℕ) where
  -- `TryFinalizeSinkPhase` with the events that it inserts, on fuel: the number of iterations, the
  -- state and the row ids of the result. The limit of the result is a `uint32_t`.
  unfoldable pub try_finalize : ℕ → ℕ → S → Option (ℕ × S × List ℕ)
  try_finalize zero performed s = none
  try_finalize (suc fuel) performed s =
      let rest = try_finalize fuel (performed + 1) (follow_up s) in
      if is_filled limit (heap_of s) || performed == max_num_probe_iterations
      then some (
        performed,
        s,
        map (λ c. c.index) (build_result_set_from_heap (limit % 2 ^ 32) (heap_of s)),
      )
      else rest

  -- `Finalize`
  unfoldable pub finalize : ℕ → S → Option (ℕ × S × List ℕ)
  finalize fuel s = try_finalize fuel 1 s

-- `STANDARD_VECTOR_SIZE` is a constant of DuckDB.
module _ (standard_vector_size : ℕ) where
  -- The row ids that a call of `GetData` fetches, from `pdxearch_row_ids_idx` on.
  abbrev pub get_data : List ℕ → ℕ → List ℕ
  get_data row_ids i = take (min standard_vector_size (length row_ids - i)) (drop i row_ids)

  -- The calls of `GetData` until it finishes, on fuel.
  unfoldable pub get_all_data : ℕ → List ℕ → ℕ → Option (List (List ℕ))
  get_all_data zero row_ids i = none
  get_all_data (suc fuel) row_ids i =
      let num_results_to_emit = min standard_vector_size (length row_ids - i) in
      if num_results_to_emit == 0
      then some []
      else (elim (get_all_data fuel row_ids (i + num_results_to_emit)) [
        | none ↦ none
        | some chunks ↦ some (get_data row_ids i ∷ chunks)
      ])
