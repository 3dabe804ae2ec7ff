-- ===== src/Wrapper/RowGroup.antt =====
-- The search of a row group: `InitializeSearch` of src/include/pdxearch/pdxearch.hpp, and
-- `InitializeSearchForRowGroup` with `SearchRowGroup` of src/include/index/pdxearch_wrapper.hpp.
pub mod Found
use pdxearch.Prelude.{ℕ, ◌%◌, ◌^◌, Option, Buffer, length}
use pdxearch.Computers.{Arithmetic}
use pdxearch.Kernel.Float.{Float}
use pdxearch.Kernel.Heap.{Heap}
use pdxearch.Kernel.Global.{get_clusters_access_order_ivf}
use pdxearch.Kernel.Search.{Searcher, Encounter, SearchState, search}
use pdxearch.Quantizer.{Scaling, quantize_embedding}
use pdxearch.Wrapper.SetUp.{SetUpIndex}
use pdxearch.Wrapper.Global.{Engine}

module _ {ℓ} {F : Type ℓ} ⦃f : Float F⦄ ⦃ops : Arithmetic F⦄ ⦃scaling : Scaling F⦄
    (engine : Engine F) (row_group : SetUpIndex F) where
  -- `InitializeSearch`, what it leaves in the searcher. `k` is a `uint32_t`.
  abbrev pub initialize_search :
      (quantized_query_buf : Buffer ℕ) → (preprocessed_query : Buffer F) → (k : ℕ) → Searcher F
  initialize_search quantized_query_buf preprocessed_query k = record {
    pdx_data = row_group.index;
    ratios = engine.ratios;
    k = k % 2 ^ 32;
    prepared_query =
        quantize_embedding row_group.index.num_dimensions preprocessed_query row_group.params
          quantized_query_buf 0;
    cluster_indices_in_access_order =
        get_clusters_access_order_ivf engine.sorting preprocessed_query row_group.index
          (length row_group.index.clusters);
    tuples_needed_to_exit = engine.tuples_needed_to_exit;
    is_selective = engine.is_selective;
  }

  -- `InitializeSearchForRowGroup` and `SearchRowGroup`, with the shared heap and new buffers
  unfoldable pub search_row_group :
      (quantized_query_buf : Buffer ℕ)
      → (preprocessed_query : Buffer F) → (limit : ℕ) → Heap F
      → (ℕ → Encounter F)
      → (num_clusters_to_probe : ℕ) → (pruning_positions pruning_distances : Buffer ℕ)
      → Option (SearchState F)
  search_row_group quantized_query_buf preprocessed_query limit heap env num_clusters_to_probe
        pruning_positions pruning_distances =
      search (initialize_search quantized_query_buf preprocessed_query limit) env
        num_clusters_to_probe
        (record {
          heap = heap;
          pruning_positions = pruning_positions;
          pruning_distances = pruning_distances;
          offset = 0;
        })
