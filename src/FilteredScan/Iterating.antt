-- ===== src/FilteredScan/Iterating.antt =====
-- The iterations of the sink phase of src/index/search/pdxearch_index_filtered_scan_physical.cpp.
use pdxearch.Prelude.{ℕ, zero, suc, ◌%◌, ◌^◌, Bool, false, ◌||◌, List, map}
use pdxearch.Kernel.Float.{Float}
use pdxearch.Kernel.Heap.{Heap, build_result_set_from_heap}
use pdxearch.FilteredScan.{is_filled}

module _ {ℓ κ} {F : Type ℓ} ⦃f : Float F⦄ {S : Type κ} (heap_of : S → Heap F) (follow_up : S → S)
    (limit : ℕ) where
  -- The state after some follow-ups, and whether the heap was filled before the last of them.
  abbrev pub after : ℕ → S → S
  after zero s = s
  after (suc n) s = after n (follow_up s)

  abbrev pub filled_before : ℕ → S → Bool
  filled_before zero s = false
  filled_before (suc n) s = is_filled limit (heap_of s) || filled_before n (follow_up s)

  -- The row ids of the candidates in the heap.
  abbrev pub result_of : S → List ℕ
  result_of s = map (λ c. c.index) (build_result_set_from_heap (limit % 2 ^ 32) (heap_of s))
