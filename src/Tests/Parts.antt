-- ===== src/Tests/Parts.antt =====
-- The parts of the kernel and the layout at small inputs.
use mathlib.Core.List.{reverse}
use pdxearch.Prelude.{ℕ, ◌+◌, ◌*◌, ◌%◌, ◌^◌, ◌≡◌, inr, refl, arith, Buffer, List, [], ◌∷◌, prefix}
use pdxearch.Dimensions.{get_pdx_dimension_split}
use pdxearch.Dimensions.Split.{IsSplit, get_pdx_dimension_split-IsSplit}
use pdxearch.Layout.{store_cluster_embeddings_u8, store_cluster_embeddings_f32}
use pdxearch.Layout.Assign.{direct, direct-IsAssignment}
use pdxearch.Layout.Placement.{place_u8, place_f32, store_u8-place, store_f32-place}
use pdxearch.Computers.{vertical_u8}
use pdxearch.Computers.Reference.{squares, vertical_u8-squares}
use pdxearch.Kernel.Float.{whole, whole-IsOrdered}
use pdxearch.Kernel.Heap.{KnnCandidate, merge_into_heap, build_result_set_from_heap}
use pdxearch.Kernel.Heap.Order.{push_all, nearest}
use pdxearch.Kernel.Heap.Merge.{candidates, merge_into_heap-nearest}
use pdxearch.Kernel.Heap.Result.{build_result_set-nearest}
use pdxearch.Kernel.Store.{store_u8-IsStored}

abbrev zeros : Buffer ℕ
zeros k = 0

abbrev bytes : Buffer ℕ
bytes k = k % 256

abbrev same : Buffer ℕ
same i = i

-- Two embeddings of 70 dimensions, 64 of them horizontal.
abbrev stored : Buffer ℕ
stored = store_cluster_embeddings_u8 6 64 70 zeros bytes 2

abbrev rows : ℕ → ℕ → ℕ
rows v d = bytes (v * 70 + d)

get_pdx_dimension_split-IsSplit_example : IsSplit 768 (get_pdx_dimension_split 768)
get_pdx_dimension_split-IsSplit_example =
    get_pdx_dimension_split-IsSplit 768 (omega arith) (omega arith)

store_u8-place_example : stored (place_u8 6 2 1 69) ≡ bytes (1 * 70 + 69)
store_u8-place_example =
    store_u8-place direct-IsAssignment 6 64 70 2 zeros bytes 1 69 refl (omega arith) (omega arith)

store_f32-place_example :
    store_cluster_embeddings_f32 6 64 70 zeros bytes 2 (place_f32 6 2 1 5) ≡ bytes (1 * 70 + 5)
store_f32-place_example =
    store_f32-place direct-IsAssignment 6 64 70 2 zeros bytes 1 5 refl (omega arith) (omega arith)

vertical_u8-squares_example :
    vertical_u8 bytes stored 2 2 0 6 same zeros 1 ≡ (0 + squares bytes (rows 1) 0 6) % 2 ^ 32
unfolding prefix
vertical_u8-squares_example =
    vertical_u8-squares 6 64 2 bytes stored rows
      (store_u8-IsStored direct-IsAssignment 6 64 70 2 zeros bytes) 2 0 6
      (record { starts = refl; ordered = omega arith; ends_by = omega arith; ends = inr refl }) same
      1 (omega arith) zeros refl (omega arith)

abbrev initialization : KnnCandidate ℕ
initialization = record { index = 0; distance = 10 ^ 12 }

abbrev two_candidates : List (KnnCandidate ℕ)
two_candidates = record { index = 7; distance = 5 } ∷ record { index = 8; distance = 3 } ∷ []

merge_into_heap-nearest_example :
    merge_into_heap 1 same 3 2 same bytes (nearest 2 (initialization ∷ []))
    ≡ nearest 2 (push_all (candidates 1 same 3 same bytes) (initialization ∷ []))
merge_into_heap-nearest_example =
    merge_into_heap-nearest whole-IsOrdered 1 same 3 2 same bytes (initialization ∷ []) (tt, tt)

build_result_set-nearest_example :
    build_result_set_from_heap 2 (nearest 2 (push_all two_candidates (initialization ∷ [])))
    ≡ reverse (nearest 2 (push_all two_candidates []))
build_result_set-nearest_example =
    build_result_set-nearest whole-IsOrdered 2 initialization two_candidates refl (refl, (refl, tt))
