-- ===== src/GlobalScan.antt =====
-- The scans of the global version: src/index/search/pdxearch_index_global_scan.cpp with `GlobalScan`
-- of src/index/pdxearch_index.cpp, and the operator of
-- src/index/search/pdxearch_index_global_filtered_scan_physical.cpp, which emits the row ids of its
-- result as the filtered scan of row groups does.
pub mod Emitting
pub mod Collecting
pub mod Searching
use pdxearch.Prelude.{
  ℕ, zero, suc, ◌+◌, Bool, ◌&&◌, List, [], ◌∷◌, ◌++◌, Option, none, some, ltb, ◌==◌, if◌then◌else◌,
  length, get_or,
}

-- `PDXearchIndexScanState`
pub record IndexScanState : Type 0 where
  pub current_row : ℕ
  pub row_ids : List ℕ

-- `STANDARD_VECTOR_SIZE` is a constant of DuckDB.
module _ (standard_vector_size : ℕ) where
  -- The loop of `GlobalScan`, on fuel, with the row ids that it has pushed.
  unfoldable pub global_scan_loop : ℕ → List ℕ → IndexScanState → Option (List ℕ × IndexScanState)
  global_scan_loop zero pushed state = none
  global_scan_loop (suc fuel) pushed state =
      let rest =
        global_scan_loop fuel (pushed ++ get_or state.row_ids state.current_row 0 ∷ [])
          (record state { current_row = state.current_row + 1 }) in
      if ltb (length pushed) standard_vector_size && ltb state.current_row (length state.row_ids)
      then rest
      else some (pushed, state)

  -- `GlobalScan`
  abbrev pub global_scan : IndexScanState → Option (List ℕ × IndexScanState)
  global_scan state = global_scan_loop (standard_vector_size + 1) [] state

  -- The calls of `PDXearchIndexScanExecute` until one has no rows, on fuel: the row ids that each of
  -- them fetches.
  unfoldable pub scan_execute_all : ℕ → IndexScanState → Option (List (List ℕ))
  scan_execute_all zero state = none
  scan_execute_all (suc fuel) state = elim (global_scan state) [
    | none ↦ none
    | some (row_ids, next) ↦
        let rest = scan_execute_all fuel next in
        if length row_ids == 0
        then some []
        else (elim rest [ none ↦ none | some chunks ↦ some (row_ids ∷ chunks) ])
  ]

-- `Sink` of the filtered scan: the vectors of a thread.
unfoldable pub global_sink : List (Option ℕ) → List (List (Option ℕ)) → List (List (Option ℕ))
global_sink input_chunk local_vectors =
    if length input_chunk == 0 then local_vectors else local_vectors ++ input_chunk ∷ []

-- The calls of `Sink` by one thread.
unfoldable pub global_sink_all :
    List (List (Option ℕ)) → List (List (Option ℕ)) → List (List (Option ℕ))
global_sink_all [] local_vectors = local_vectors
global_sink_all (chunk ∷ chunks) local_vectors =
    global_sink_all chunks (global_sink chunk local_vectors)

-- `Combine` for each thread, in the order in which they get the lock.
unfoldable pub global_combine_all :
    (threads : List (List (List (Option ℕ))))
    → (collected_vectors : List (List (Option ℕ))) → List (List (Option ℕ))
global_combine_all [] collected_vectors = collected_vectors
global_combine_all (chunks ∷ threads) collected_vectors =
    global_combine_all threads (collected_vectors ++ global_sink_all chunks [])

-- What `Finalize` returns: no output is possible, or the row ids are there if the search returns.
pub data FinalizeResult : Type 0 where
  no_output_possible : FinalizeResult
  ready : Option (List ℕ) → FinalizeResult

-- `Finalize`, where `global_filtered_search` is `GlobalFilteredSearch` with the query and the limit.
unfoldable pub global_finalize :
    (global_filtered_search : List (List (Option ℕ)) → Option (List ℕ))
    → List (List (Option ℕ))
    → FinalizeResult
global_finalize global_filtered_search [] = no_output_possible
global_finalize global_filtered_search (vector ∷ vectors) =
    ready (global_filtered_search (vector ∷ vectors))
