-- ===== src/Wrapper/RowGroup/Found.antt =====
-- What the search of a row group finds after the row group is set up.
use pdxearch.Prelude.{
  ℕ, ◌%◌, ◌^◌, ◌<◌, ◌≡◌, ◌⊎◌, inl, inr, true, some, Buffer, All, length, min, take,
}
use pdxearch.Layout.Assign.{Eigen}
use pdxearch.Computers.{Arithmetic}
use pdxearch.Kernel.Float.{Float, IsOrdered}
use pdxearch.Kernel.Heap.{KnnCandidate, Heap}
use pdxearch.Kernel.Heap.Order.{IsDescending, nearest}
use pdxearch.Kernel.Scan.Calls.{everything}
use pdxearch.Kernel.Global.{IsSorting}
use pdxearch.Kernel.Global.Visiting.{access_order-All}
use pdxearch.Kernel.Search.{Encounter, SearchState}
use pdxearch.Kernel.Search.Leaving.{IsMerged, IsDue}
use pdxearch.Kernel.Search.Offered.{All-map}
use pdxearch.Kernel.Search.Shared.{search-nearest}
use pdxearch.KMeans.{SuperKMeans}
use pdxearch.Quantizer.{Scaling}
use pdxearch.Quantizer.Order.{quantize_embedding-byte}
use pdxearch.Wrapper.{RowMaps}
use pdxearch.Wrapper.Construction.{PdxearchWrapper}
use pdxearch.Wrapper.SetUp.{SetUpIndex}
use pdxearch.Wrapper.SetUp.Rows.{IsRow, IsReady, candidate-IsRow}
use pdxearch.Wrapper.SetUp.Searchable.{result_of, values_of, set_up_index-IsSearchable}
use pdxearch.Wrapper.Global.{Engine}
use pdxearch.Wrapper.RowGroup.{initialize_search, search_row_group}

module _ {ℓ} {F : Type ℓ} ⦃f : Float F⦄ ⦃ops : Arithmetic F⦄ ⦃scaling : Scaling F⦄ ⦃eigen : Eigen ℕ⦄
    (kmeans : SuperKMeans F) (wrapper : PdxearchWrapper) (key : ℕ → ℕ) (num_clusters : ℕ)
    (row_ids : Buffer ℕ) (embeddings : Buffer F) (num_embeddings : ℕ) (fresh : ℕ → Buffer ℕ)
    (maps : RowMaps)
    (ready : IsReady kmeans wrapper key num_clusters row_ids embeddings num_embeddings fresh
      maps) where
  abbrev pub row_group : SetUpIndex F
  row_group = result_of kmeans wrapper key num_clusters row_ids embeddings num_embeddings fresh maps

  abbrev pub values : ℕ → ℕ → ℕ → ℕ
  values = values_of kmeans wrapper key num_clusters row_ids embeddings num_embeddings fresh maps

  -- After a row group is set up, its search returns, whatever other threads do to the shared heap.
  -- If the heap held the nearest of what it stood for, it then holds the nearest of that and of one
  -- list of candidates, where it holds as many as the limit modulo 2 ^ 32. In the list are
  -- candidates, each of which another thread offered or is a row of the row group, and every
  -- candidate that another thread offered, and every embedding of a probed cluster that is nearer
  -- than all thresholds that can be read. The rows have different keys and row ids below 2 ^ 32,
  -- k-means assigns to its clusters, the number of dimensions is from 1 to the limit of the
  -- extension, the floats are ordered, sorting rearranges, the buffer for the query holds bytes,
  -- and the limit modulo 2 ^ 32 is not 0.
  pub search_row_group-nearest {κ} :
      (IsKnown : KnnCandidate F → Type κ)
      → IsOrdered F
      → (engine : Engine F) → IsSorting engine.sorting
      → (buf : Buffer ℕ) → ((i : ℕ) → buf i < 256)
      → (query : Buffer F) (limit : ℕ) (env : ℕ → Encounter F) (n_probe : ℕ)
        (positions distances : Buffer ℕ) (heap seen : Heap F)
      → 0 < limit % 2 ^ 32
      → IsDescending seen
      → heap ≡ nearest (limit % 2 ^ 32) seen
      → ((j : ℕ) → All IsKnown (env j).others)
      → let searcher = initialize_search engine row_group buf query limit in
        (t : SearchState F) × (search_row_group engine row_group buf query limit heap env n_probe
            positions distances
          ≡ some t)
        × IsMerged
            (limit % 2 ^ 32)
            (λ a. IsKnown a ⊎ IsRow row_ids num_embeddings a.index)
            (IsDue searcher values
              (λ id. everything)
              (λ id. true)
              env
              0
              (take
                (min n_probe (length row_group.index.clusters))
                searcher.cluster_indices_in_access_order))
            seen
            t.heap
  unfolding search_row_group
  search_row_group-nearest IsKnown laws engine sorts buf bytes query limit env n_probe positions
        distances heap seen some_limit down held known =
      let searcher = initialize_search engine row_group buf query limit in
      let searchable =
        set_up_index-IsSearchable kmeans wrapper key num_clusters row_ids embeddings num_embeddings
          fresh maps ready.assignment ready.some_dims ready.few_dims searcher
          (λ i.
            quantize_embedding-byte query row_group.params buf 0 row_group.index.num_dimensions i
              (bytes i)) in
      let (t, e, merged) =
        search-nearest searcher values IsKnown laws searchable env n_probe
          (record {
            heap = heap;
            pruning_positions = positions;
            pruning_distances = distances;
            offset = 0;
          })
          seen
          (access_order-All engine.sorting searcher values sorts query
            (length row_group.index.clusters))
          down held known in
      (
        t,
        e,
        record {
          candidates = merged.candidates;
          kept = merged.kept;
          each =
              All-map _ _
                (λ a p. elim p [
                  | inl other ↦ inl other
                  | inr found ↦ inr (
                      candidate-IsRow kmeans wrapper key num_clusters row_ids embeddings
                        num_embeddings fresh maps ready searcher values a found)
                ])
                merged.candidates merged.each;
          complete = merged.complete;
        },
      )
