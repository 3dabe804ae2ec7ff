-- ===== src/ParallelScan/Finishing.antt =====
-- From every state the unfiltered scan can go on until it has finished.
use pdxearch.Prelude.{ℕ, ◌<◌, ◌≡◌, List, [], some}
use pdxearch.Kernel.Float.{Float}
use pdxearch.Kernel.Heap.{KnnCandidate}
use pdxearch.ParallelScan.{SourceResult, finished, SourceState, source_get_data, Reach}
use pdxearch.ParallelScan.Sound.{IsSound}

module _ {ℓ} {F : Type ℓ} ⦃f : Float F⦄ (limit num_row_groups standard_vector_size : ℕ)
    (some_groups : 0 < num_row_groups) (room : 0 < standard_vector_size)
    (cs : List (KnnCandidate F)) where
  -- A state that is reached without another candidate.
  record IsLater (s u : SourceState F) : Type ℓ where
    results : List SourceResult
    before : List SourceResult
    reached : Reach limit num_row_groups standard_vector_size s results [] u
    sound : IsSound limit num_row_groups standard_vector_size before cs u

  -- A state whose next call says that the scan has finished.
  abbrev pub Finishes : SourceState F → Type ℓ
  Finishes s =
      (results : List SourceResult) × (u t : SourceState F) × Reach limit num_row_groups
        standard_vector_size s results [] u
      × (source_get_data limit num_row_groups standard_vector_size u ≡ some (finished, t))
