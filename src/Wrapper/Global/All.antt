-- ===== src/Wrapper/Global/All.antt =====
-- `Search` of `PDXearchWrapperGlobal` after `SetUpGlobalIndex`, from end to end.
use pdxearch.Prelude.{ℕ, List, Option, none, some, Buffer, get_elem?}
use pdxearch.Layout.Assign.{Eigen}
use pdxearch.Computers.{Arithmetic}
use pdxearch.Kernel.Float.{Float}
use pdxearch.Kernel.Search.{Searcher}
use pdxearch.KMeans.{SuperKMeans}
use pdxearch.Quantizer.{Scaling}
use pdxearch.Wrapper.{RowMaps}
use pdxearch.Wrapper.Construction.{PdxearchWrapper}
use pdxearch.Wrapper.SetUp.{SetUpIndex}
use pdxearch.Wrapper.SetUp.Rows.{IsReady}
use pdxearch.Wrapper.SetUp.Searchable.{lists_of, result_of, values_of}
use pdxearch.Wrapper.Global.{Engine, Scratch, preprocess_query, searcher_for}

module _ {ℓ} {F : Type ℓ} ⦃f : Float F⦄ ⦃ops : Arithmetic F⦄ ⦃scaling : Scaling F⦄ ⦃eigen : Eigen ℕ⦄
    (kmeans : SuperKMeans F) (wrapper : PdxearchWrapper) (num_clusters : ℕ) (row_ids : Buffer ℕ)
    (embeddings : Buffer F) (num_embeddings : ℕ) (fresh : ℕ → Buffer ℕ) (maps : RowMaps)
    (ready : IsReady kmeans wrapper
      (λ r. r)
      num_clusters
      row_ids
      embeddings
      num_embeddings
      fresh
      maps) where
  abbrev made : SetUpIndex F
  made = result_of kmeans wrapper (λ r. r) num_clusters row_ids embeddings num_embeddings fresh maps

  abbrev lists : List (List ℕ)
  lists = lists_of kmeans wrapper (λ r. r) num_clusters row_ids embeddings num_embeddings fresh maps

  abbrev num_at : ℕ → ℕ
  num_at id = elim (get_elem? made.index.clusters id) [ none ↦ 0 | some c ↦ c.num_embeddings ]

  module _ (engine : Engine F) (scratch : Scratch F) (query_embedding : Buffer F) (limit : ℕ) where
    abbrev query : Buffer F
    query = preprocess_query engine made scratch query_embedding

    abbrev searcher : Searcher F
    searcher = searcher_for engine made scratch limit query

    abbrev values : ℕ → ℕ → ℕ → ℕ
    values =
        values_of kmeans wrapper (λ r. r) num_clusters row_ids embeddings num_embeddings fresh maps
