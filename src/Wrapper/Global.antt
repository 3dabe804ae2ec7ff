-- ===== src/Wrapper/Global.antt =====
-- `PDXearchWrapperGlobal` of src/include/index/pdxearch_wrapper.hpp at U8: the search of the index of
-- a whole table, and what `SearchGlobal` does with the query before it searches.
pub mod Passing
pub mod Exact
pub mod All
pub mod Home
use pdxearch.Prelude.{
  ℕ, ◌*◌, ◌%◌, ◌^◌, Bool, List, [], ◌∷◌, ◌++◌, Option, none, some, if◌then◌else◌, map, Buffer,
}
use pdxearch.Layout.Assign.{Eigen}
use pdxearch.Computers.{Arithmetic}
use pdxearch.Kernel.Float.{Float}
use pdxearch.Kernel.Heap.{KnnCandidate}
use pdxearch.Kernel.Global.{Sorting, search_global}
use pdxearch.Kernel.Global.Filtered.{filtered_search_global}
use pdxearch.Kernel.Search.{Searcher, PredicateEvaluator}
use pdxearch.Quantizer.{Scaling, normalize_query, quantize_embedding}
use pdxearch.Wrapper.{create_predicate_evaluator}
use pdxearch.Wrapper.SetUp.{SetUpIndex}

-- What a search relies on besides the index: the sorting, the rotation and the ratios of the pruner,
-- and the tests of shares, which are computed in float.
pub record Engine {ℓ} (F : Type ℓ) : Type ℓ where
  pub sorting : Sorting
  pub rotate : Buffer F → Buffer F
  pub ratios : ℕ → F
  pub tuples_needed_to_exit : ℕ → ℕ
  pub is_selective : ℕ → ℕ → Bool
  pub is_dense : ℕ → ℕ → Bool

-- The memory that a search allocates, which holds anything.
pub record Scratch {ℓ} (F : Type ℓ) : Type ℓ where
  pub normalized_query : Buffer F
  pub quantized_query : Buffer ℕ
  pub pruning_positions : Buffer ℕ
  pub pruning_distances : Buffer ℕ

-- The row ids of vectors with their validity.
abbrev pub valid_row_ids : List (Option ℕ) → List ℕ
valid_row_ids [] = []
valid_row_ids (none ∷ vector) = valid_row_ids vector
valid_row_ids (some row_id ∷ vector) = row_id ∷ valid_row_ids vector

abbrev pub all_valid_row_ids : List (List (Option ℕ)) → List ℕ
all_valid_row_ids [] = []
all_valid_row_ids (vector ∷ vectors) = valid_row_ids vector ++ all_valid_row_ids vectors

module _ {ℓ} {F : Type ℓ} ⦃f : Float F⦄ ⦃ops : Arithmetic F⦄ ⦃scaling : Scaling F⦄
    (engine : Engine F) (s : SetUpIndex F) (scratch : Scratch F) where
  -- The preprocessing at the start of `SearchGlobal` and `FilteredSearchGlobal`.
  abbrev pub preprocess_query : Buffer F → Buffer F
  preprocess_query raw_query =
      if s.index.is_normalized
      then engine.rotate (normalize_query s.index.num_dimensions raw_query scratch.normalized_query)
      else engine.rotate raw_query

  -- The searcher for a limit and a query. The limit becomes a `uint32_t`.
  abbrev pub searcher_for : (limit : ℕ) → Buffer F → Searcher F
  searcher_for limit query = record {
    pdx_data = s.index;
    ratios = engine.ratios;
    k = limit % 2 ^ 32;
    prepared_query =
        quantize_embedding s.index.num_dimensions query s.params scratch.quantized_query 0;
    cluster_indices_in_access_order = [];
    tuples_needed_to_exit = engine.tuples_needed_to_exit;
    is_selective = engine.is_selective;
  }

  -- The row ids of a result.
  abbrev pub row_ids_of : Option (List (KnnCandidate F)) → Option (List ℕ)
  row_ids_of none = none
  row_ids_of (some results) = some (map (λ c. c.index) results)

  -- `Search`
  unfoldable pub wrapper_search :
      (query_embedding : Buffer F) → (limit n_probe : ℕ) → Option (List ℕ)
  wrapper_search query_embedding limit n_probe =
      let query = preprocess_query query_embedding in
      row_ids_of (
        search_global engine.sorting (searcher_for limit query) query n_probe
          scratch.pruning_positions scratch.pruning_distances)

  -- `CreatePredicateEvaluator`
  abbrev pub evaluator_for : List (List (Option ℕ)) → PredicateEvaluator
  evaluator_for row_id_vectors =
      create_predicate_evaluator (λ row_id. row_id) s.row_id_metadata s.offsets
        (all_valid_row_ids row_id_vectors)

  -- `FilteredSearch`
  unfoldable pub wrapper_filtered_search :
      (query_embedding : Buffer F)
      → (limit : ℕ) → (row_id_vectors : List (List (Option ℕ))) → (n_probe : ℕ) → Option (List ℕ)
  wrapper_filtered_search query_embedding limit row_id_vectors n_probe =
      let query = preprocess_query query_embedding in
      row_ids_of (
        filtered_search_global engine.sorting (searcher_for limit query) engine.is_dense s.offsets
          (evaluator_for row_id_vectors) query n_probe scratch.pruning_positions
          scratch.pruning_distances)
