-- ===== src/GlobalScan/Searching.antt =====
-- The filtered scan of a table from the chunks of the threads to the row ids that it emits.
use pdxearch.Prelude.{ℕ, Buffer}
use pdxearch.Layout.Assign.{Eigen}
use pdxearch.Computers.{Arithmetic}
use pdxearch.Kernel.Float.{Float}
use pdxearch.KMeans.{SuperKMeans}
use pdxearch.Quantizer.{Scaling}
use pdxearch.Wrapper.{RowMaps}
use pdxearch.Wrapper.Construction.{PdxearchWrapper}
use pdxearch.Wrapper.SetUp.{SetUpIndex, set_up_index}
use pdxearch.Wrapper.SetUp.Rows.{IsReady}

module _ {ℓ} {F : Type ℓ} ⦃f : Float F⦄ ⦃ops : Arithmetic F⦄ ⦃scaling : Scaling F⦄ ⦃eigen : Eigen ℕ⦄
    (kmeans : SuperKMeans F) (wrapper : PdxearchWrapper) (num_clusters : ℕ) (row_ids : Buffer ℕ)
    (embeddings : Buffer F) (num_embeddings : ℕ) (fresh : ℕ → Buffer ℕ) (maps : RowMaps)
    (ready_index : IsReady kmeans wrapper
      (λ r. r)
      num_clusters
      row_ids
      embeddings
      num_embeddings
      fresh
      maps) where
  abbrev made : SetUpIndex F
  made =
      set_up_index kmeans wrapper (λ r. r) num_clusters row_ids embeddings num_embeddings fresh maps
