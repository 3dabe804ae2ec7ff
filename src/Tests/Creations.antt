-- ===== src/Tests/Creations.antt =====
-- The creation of an index of a small table, and the scans of it.
use pdxearch.Prelude.{
  ℕ, zero, suc, ◌+◌, ◌*◌, ◌≤◌, ◌<◌, ◌≡◌, refl, inr, arith, false, true, List, [], ◌∷◌, Option, none,
  some, Buffer, All, length, map, prefix, advance,
}
use pdxearch.Computers.Visit.{count}
use pdxearch.Layout.Assign.{direct}
use pdxearch.Kernel.Float.{whole}
use pdxearch.Preprocess.{Blas, IsRowwise, preprocess_embedding, preprocess_embeddings}
use pdxearch.Preprocess.Each.{preprocess_embeddings-each}
use pdxearch.FilteredScan.{get_all_data}
use pdxearch.FilteredScan.Emitting.{concat}
use pdxearch.Creating.{
  DataChunk, create_combine, create_sink_all, no_embeddings, global_create_sink_all,
}
use pdxearch.Creating.Groups.{
  set_up_rows, IsFromTable, IsPrepared, IsPreparedCall, create_combine-groups,
}
use pdxearch.Creating.Whole.{global_create_sink_all-IsPrepared}
use pdxearch.GlobalScan.{IndexScanState, scan_execute_all}
use pdxearch.GlobalScan.Emitting.{scan_execute_all-concat}
use pdxearch.Tests.Globals.{whole_arithmetic}
use pdxearch.Tests.Searches.{zeros, bytes}
use pdxearch.Tests.SetUps.{whole_scaling, row_ids}

-- A matrix product that keeps the rows.
abbrev same_rows : Blas ℕ
same_rows = record { sgemm = λ d n b. b }

same_rows-IsRowwise : IsRowwise same_rows
same_rows-IsRowwise = record { row = λ d n v i b c hv hi h. h i hi }

preprocess_embeddings-each_example :
    let out = preprocess_embeddings same_rows 3 bytes zeros 6 2 true in
    (out (6 + (1 * 3 + 2)) ≡ preprocess_embedding same_rows 3 (advance bytes (1 * 3)) true 2)
    × (out 12 ≡ 0)
preprocess_embeddings-each_example =
    preprocess_embeddings-each same_rows 3 same_rows-IsRowwise bytes zeros 6 2 1 2 12 true
      (omega arith) (omega arith) (inr (omega arith))

-- Row r has the embedding r, r, r.
abbrev table : ℕ → Buffer ℕ
table r i = r

abbrev chunk_of : ℕ → DataChunk ℕ
chunk_of r = record { row_ids = r ∷ []; embeddings = λ k. r }

chunk-IsFromTable : (r : ℕ) → IsFromTable same_rows 3 false table (chunk_of r)
chunk-IsFromTable r zero j hv hj = refl
chunk-IsFromTable r (suc v) j hv hj = absurd (omega arith)

abbrev chunks : List (DataChunk ℕ)
chunks = chunk_of 1 ∷ chunk_of 2 ∷ chunk_of 5 ∷ []

-- Row groups of four rows.
create_combine-groups_example :
    let calls =
      (create_combine
        (create_sink_all same_rows 4 3 false chunks (no_embeddings zeros zeros))).calls in
    (set_up_rows 0 calls ≡ 1 ∷ 2 ∷ [])
    × (count 0 (map (λ c. c.row_group_id) calls) ≤ 1)
    × All (IsPreparedCall same_rows 4 3 false table) calls
create_combine-groups_example =
    create_combine-groups same_rows 4 3 false table same_rows-IsRowwise chunks 0 zeros zeros
      (chunk-IsFromTable 1, (chunk-IsFromTable 2, (chunk-IsFromTable 5, tt)))
      (omega arith, tt, (omega arith, tt, (omega arith, tt, tt)))

global_create_sink_all-IsPrepared_example :
    let s =
      global_create_sink_all same_rows 3 false chunks
        (record { current_embedding_count = 0; embeddings = zeros; row_ids = zeros }) in
    (prefix s.current_embedding_count s.row_ids ≡ 1 ∷ 2 ∷ 5 ∷ [])
    × IsPrepared same_rows 3 false table s.current_embedding_count s.row_ids s.embeddings
global_create_sink_all-IsPrepared_example =
    global_create_sink_all-IsPrepared same_rows 3 false table same_rows-IsRowwise chunks zeros zeros
      (chunk-IsFromTable 1, (chunk-IsFromTable 2, (chunk-IsFromTable 5, tt)))

scan_execute_all-concat_example :
    let state : IndexScanState = record { current_row = 0; row_ids = 7 ∷ 8 ∷ 9 ∷ [] } in
    (cs : List (List ℕ)) × (scan_execute_all 2 4 state ≡ some cs)
    × (get_all_data 2 4 (7 ∷ 8 ∷ 9 ∷ []) 0 ≡ some cs)
    × (concat cs ≡ 7 ∷ 8 ∷ 9 ∷ [])
    × All (λ c. (0 < length c) × (length c ≤ 2)) cs
scan_execute_all-concat_example = scan_execute_all-concat 2 (omega arith) (7 ∷ 8 ∷ 9 ∷ [])

-- Two threads, of which the second one sinks two chunks.
abbrev threads : List (List (List (Option ℕ)))
threads = ((some 11 ∷ none ∷ []) ∷ []) ∷ ([] ∷ (some 12 ∷ []) ∷ []) ∷ []
