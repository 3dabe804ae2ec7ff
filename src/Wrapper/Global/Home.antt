-- ===== src/Wrapper/Global/Home.antt =====
-- The metadata of the index that `SetUpGlobalIndex` of src/include/index/pdxearch_wrapper.hpp makes, as
-- what tells the only position of a row.
use pdxearch.Prelude.{ℕ, ap, sym, ◌∙◌, Buffer}
use pdxearch.Layout.Assign.{Eigen}
use pdxearch.Computers.{Arithmetic}
use pdxearch.Kernel.Float.{Float}
use pdxearch.Kernel.Global.{Sorting, IsSorting}
use pdxearch.Kernel.Global.Once.{IsHome}
use pdxearch.Kernel.Search.{Searcher}
use pdxearch.KMeans.{SuperKMeans}
use pdxearch.Quantizer.{Scaling}
use pdxearch.Wrapper.{RowMaps, RowIdClusterMapping}
use pdxearch.Wrapper.Construction.{PdxearchWrapper}
use pdxearch.Wrapper.SetUp.{SetUpIndex}
use pdxearch.Wrapper.SetUp.Rows.{IsReady, row-IsMapped}
use pdxearch.Wrapper.SetUp.Searchable.{result_of}

module _ {ℓ} {F : Type ℓ} ⦃f : Float F⦄ ⦃ops : Arithmetic F⦄ ⦃scaling : Scaling F⦄ ⦃eigen : Eigen ℕ⦄
    (kmeans : SuperKMeans F) (wrapper : PdxearchWrapper) (num_clusters : ℕ) (row_ids : Buffer ℕ)
    (embeddings : Buffer F) (num_embeddings : ℕ) (fresh : ℕ → Buffer ℕ) (maps : RowMaps)
    (ready : IsReady kmeans wrapper
      (λ r. r)
      num_clusters
      row_ids
      embeddings
      num_embeddings
      fresh
      maps) where
  abbrev made : SetUpIndex F
  made = result_of kmeans wrapper (λ r. r) num_clusters row_ids embeddings num_embeddings fresh maps

  pub row-IsHome :
      (sorting : Sorting) (sorts : IsSorting sorting) (searcher : Searcher F) (r : ℕ)
      → IsHome sorting
          (record searcher { pdx_data = made.index })
          sorts
          r
          (made.row_id_metadata r).cluster_id
          (made.row_id_metadata r).index_in_cluster
  row-IsHome sorting sorts searcher r = record {
    only = λ i j c at hj e.
        let mapped =
          ap made.row_id_metadata (sym e)
          ∙ row-IsMapped kmeans wrapper (λ r. r) num_clusters row_ids embeddings num_embeddings
              fresh maps ready i j c at hj in
        (
          sym (ap RowIdClusterMapping.cluster_id mapped),
          sym (ap RowIdClusterMapping.index_in_cluster mapped),
        );
  }
