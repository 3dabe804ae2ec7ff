-- ===== src/Wrapper/Global/Exact.antt =====
-- `FilteredSearch` of `PDXearchWrapperGlobal` after `SetUpGlobalIndex`, from end to end.
use mathlib.Core.Path.{subst}
use mathlib.Core.Option.{some-injective}
use pdxearch.Computers.Visit.{count}
use pdxearch.Kernel.Global.Once.{IsHome}
use pdxearch.Wrapper.Global.Home.{row-IsHome}
use pdxearch.Kernel.Global.Filtered.Once.{filtered_search_global-once}
use pdxearch.Prelude.{
  ◌%◌, ◌^◌, ℕ, ◌+◌, ◌≤◌, ◌<◌, ◌≡◌, refl, ap, sym, ◌∙◌, min, true, List, [], ◌∷◌, Option, some, ◌==◌,
  Buffer, All, length, get_elem?, map, length-map, sum_below-congr,
}
use pdxearch.Layout.Assign.{Eigen}
use pdxearch.Computers.{Arithmetic}
use pdxearch.Kernel.Float.{Float, IsOrdered}
use pdxearch.Kernel.Search.{Searcher, compute_offsets}
use pdxearch.Kernel.Search.Offsets.{no_offsets}
use pdxearch.Kernel.Search.Leaving.{IsSearchable, IsOfIndex}
use pdxearch.Kernel.Search.Filtered.{is_passing}
use pdxearch.Kernel.Global.{IsSorting}
use pdxearch.Kernel.Global.Filled.{IsFinite}
use pdxearch.Kernel.Global.Filtered.Smallest.{IsSelecting}
use pdxearch.Kernel.Global.Filtered.Visiting.{IsCounted, passing_of, filtered_search_global-exact}
use pdxearch.Kernel.Global.Visiting.{visited_clusters}
use pdxearch.Kernel.Global.Whole.{total, total-visited, sum_below-groups}
use pdxearch.KMeans.{SuperKMeans}
use pdxearch.Quantizer.{Scaling}
use pdxearch.Quantizer.Order.{quantize_embedding-byte}
use pdxearch.Wrapper.{RowMaps, RowIdClusterMapping, create_predicate_evaluator}
use pdxearch.Wrapper.Construction.{PdxearchWrapper}
use pdxearch.Wrapper.Counting.{IsRepeatFree}
use pdxearch.Wrapper.Evaluator.{any, n_passing-count}
use pdxearch.Wrapper.SetUp.{SetUpIndex, set_up_index}
use pdxearch.Wrapper.SetUp.Rows.{IsRow, IsReady, row-IsPlaced}
use pdxearch.Wrapper.SetUp.Searchable.{values_of, set_up_index-IsSearchable, get_elem-below}
use pdxearch.Wrapper.Global.{
  Engine, Scratch, all_valid_row_ids, preprocess_query, searcher_for, row_ids_of, evaluator_for,
  wrapper_filtered_search,
}
use pdxearch.Wrapper.Global.Passing.{IsRowOf, evaluator-IsCounted, marked_row}

-- What holds of the candidates holds of their rows.
pub All-rows {ℓ κ μ} :
    {A : Type ℓ} (g : A → ℕ) (P : A → Type κ) (Q : ℕ → Type μ) (xs : List A)
    → ((a : A) → P a → Q (g a))
    → All P xs
    → All Q (map g xs)
All-rows g P Q [] to h = tt
All-rows g P Q (x ∷ xs) to (h, hs) = (to x h, All-rows g P Q xs to hs)

module _ {ℓ} {F : Type ℓ} ⦃f : Float F⦄ ⦃ops : Arithmetic F⦄ ⦃scaling : Scaling F⦄
    (engine : Engine F) (s : SetUpIndex F) (scratch : Scratch F) (limit : ℕ)
    (query_embedding : Buffer F) where
  abbrev query : Buffer F
  query = preprocess_query engine s scratch query_embedding

  abbrev searcher : Searcher F
  searcher = searcher_for engine s scratch limit query

  module _ (x : ℕ → ℕ → ℕ → ℕ) (vectors : List (List (Option ℕ)))
      (own : s.offsets ≡ compute_offsets 0 s.index.clusters no_offsets)
      (ready : IsSearchable searcher x) (sorts : IsSorting engine.sorting) where
    abbrev rows : List ℕ
    rows = all_valid_row_ids vectors

    abbrev passing : ℕ
    passing =
        passing_of engine.sorting searcher engine.is_dense x s.offsets
          (evaluator_for engine s scratch vectors)
          (visited_clusters engine.sorting searcher x query 0)

    rows-All :
        (rows : List ℕ)
        → All (IsRowOf s.index.clusters s.row_id_metadata) rows
        → All (λ r. (s.row_id_metadata r).cluster_id < length s.index.clusters) rows
    rows-All [] hs = tt
    rows-All (r ∷ rows) (h, hs) =
        (get_elem-below s.index.clusters _ h.cluster h.at, rows-All rows hs)

    -- All the rows pass in the clusters of the index.
    passing-rows : All (IsRowOf s.index.clusters s.row_id_metadata) rows → passing ≡ length rows
    passing-rows hs =
        as_total (visited_clusters engine.sorting searcher x query 0)
        ∙ total-visited engine.sorting searcher x sorts query
            (evaluator_for engine s scratch vectors).n_passing_tuples
        ∙ sum_below-congr (length s.index.clusters) _ _
            (λ v lt. n_passing-count (λ r. r) s.row_id_metadata s.offsets rows v)
        ∙ sum_below-groups (λ r. (s.row_id_metadata r).cluster_id) (length s.index.clusters) rows
            (rows-All rows hs)
      where
        as_total :
            (ids : List ℕ)
            → passing_of engine.sorting searcher engine.is_dense x s.offsets
                (evaluator_for engine s scratch vectors)
                ids
              ≡ total (evaluator_for engine s scratch vectors).n_passing_tuples ids
        as_total [] = refl
        as_total (id ∷ ids) = ap (◌+◌ _) (as_total ids)

    found :
        IsOrdered F
        → IsSelecting engine.sorting
        → IsFinite searcher
        → IsRepeatFree rows
        → All (IsRowOf s.index.clusters s.row_id_metadata) rows
        → ((r : ℕ)
            → IsHome engine.sorting searcher sorts r
                (s.row_id_metadata r).cluster_id
                (s.row_id_metadata r).index_in_cluster)
        → (result : List ℕ) × (wrapper_filtered_search engine s scratch query_embedding limit
              vectors 0
            ≡ some result)
          × (length result ≡ min (limit % 2 ^ 32) (length rows))
          × All (λ r. any (λ q. q == r) rows ≡ true) result
          × ((r : ℕ) → count r result ≤ 1)
    unfolding wrapper_filtered_search
    found laws selecting finite different hs homes =
        let e = evaluator_for engine s scratch vectors in
        let counted =
          subst
            (λ o.
              IsCounted engine.sorting searcher engine.is_dense x o
                (create_predicate_evaluator (λ r. r) s.row_id_metadata o rows))
            (sym own)
            (evaluator-IsCounted s.index.clusters s.row_id_metadata engine.sorting searcher
              engine.is_dense x rows hs refl different) in
        let (result, returned, _, size, exact) =
          filtered_search_global-exact engine.sorting searcher engine.is_dense x s.offsets e laws
            sorts selecting ready counted finite query 0 scratch.pruning_positions
            scratch.pruning_distances in
        let marked =
          subst
            (λ o.
              All
                (IsOfIndex searcher x
                  (is_passing o (create_predicate_evaluator (λ r. r) s.row_id_metadata o rows)))
                result)
            own exact in
        (
          map (λ c. c.index) result,
          ap (row_ids_of engine s scratch) returned,
          length-map (λ c. c.index) result ∙ size ∙ ap (min (limit % 2 ^ 32)) (passing-rows hs),
          All-rows (λ c. c.index) _ (λ r. any (λ q. q == r) rows ≡ true) result
              (marked_row s.index.clusters s.row_id_metadata engine.sorting searcher engine.is_dense
                x rows hs refl)
              marked,
          λ r.
              let (result', returned', once) =
                filtered_search_global-once engine.sorting searcher sorts engine.is_dense s.offsets
                  e r _ _ (homes r) x laws ready query 0 scratch.pruning_positions
                  scratch.pruning_distances in
              subst (λ cs. count r (map (λ c. c.index) cs) ≤ 1)
                (some-injective result' result (sym returned' ∙ returned)) once,
        )

module _ {ℓ} {F : Type ℓ} ⦃f : Float F⦄ ⦃ops : Arithmetic F⦄ ⦃scaling : Scaling F⦄ ⦃eigen : Eigen ℕ⦄
    (kmeans : SuperKMeans F) (wrapper : PdxearchWrapper) (num_clusters : ℕ) (row_ids : Buffer ℕ)
    (embeddings : Buffer F) (num_embeddings : ℕ) (fresh : ℕ → Buffer ℕ) (maps : RowMaps) where
  abbrev made : SetUpIndex F
  made =
      set_up_index kmeans wrapper (λ r. r) num_clusters row_ids embeddings num_embeddings fresh maps

  own_offsets : made.offsets ≡ compute_offsets 0 made.index.clusters no_offsets
  unfolding set_up_index
  own_offsets = refl

  module _
      (ready : IsReady kmeans wrapper
        (λ r. r)
        num_clusters
        row_ids
        embeddings
        num_embeddings
        fresh
        maps) where
    row-IsRowOf :
        (r : ℕ)
        → IsRow row_ids num_embeddings r
        → IsRowOf made.index.clusters made.row_id_metadata r
    row-IsRowOf r (v, hv, e) =
        let placed =
          row-IsPlaced kmeans wrapper (λ r. r) num_clusters row_ids embeddings num_embeddings fresh
            maps ready v hv in
        subst (IsRowOf made.index.clusters made.row_id_metadata) e (record {
          cluster = placed.cluster;
          at =
              ap (λ m. get_elem? made.index.clusters (RowIdClusterMapping.cluster_id m))
                placed.mapped
              ∙ placed.at;
          inside =
              subst (λ m. RowIdClusterMapping.index_in_cluster m < placed.cluster.num_embeddings)
                (sym placed.mapped) placed.inside;
          holds =
              ap (λ m. placed.cluster.indices (RowIdClusterMapping.index_in_cluster m))
                placed.mapped
              ∙ placed.holds;
        })

    rows-IsRowOf :
        (rows : List ℕ)
        → All (IsRow row_ids num_embeddings) rows
        → All (IsRowOf made.index.clusters made.row_id_metadata) rows
    rows-IsRowOf [] h = tt
    rows-IsRowOf (r ∷ rows) (h, hs) = (row-IsRowOf r h, rows-IsRowOf rows hs)

    -- After the index of a table is set up, `FilteredSearch` with n_probe 0 returns, with as many
    -- rows as there are in the vectors of passing row ids, up to the limit modulo 2 ^ 32, and each
    -- of them is in those vectors, and none twice. The row ids of the table are different and below
    -- 2 ^ 32, k-means assigns to its clusters, the number of dimensions is from 1 to the limit of
    -- the extension, the floats are ordered, sorting rearranges with the smallest first, distances
    -- are below the greatest float, the buffer for the query holds bytes, and the passing row ids
    -- are different rows of the table.
    pub wrapper_filtered_search-passing :
        IsOrdered F
        → (engine : Engine F) → IsSorting engine.sorting
        → IsSelecting engine.sorting
        → (scratch : Scratch F) → ((i : ℕ) → scratch.quantized_query i < 256)
        → (query_embedding : Buffer F) (limit : ℕ)
        → IsFinite (
            searcher_for engine made scratch limit
              (preprocess_query engine made scratch query_embedding))
        → (vectors : List (List (Option ℕ))) → IsRepeatFree (all_valid_row_ids vectors)
        → All (IsRow row_ids num_embeddings) (all_valid_row_ids vectors)
        → (result : List ℕ) × (wrapper_filtered_search engine made scratch query_embedding limit
              vectors 0
            ≡ some result)
          × (length result ≡ min (limit % 2 ^ 32) (length (all_valid_row_ids vectors)))
          × All (λ r. any (λ q. q == r) (all_valid_row_ids vectors) ≡ true) result
          × ((r : ℕ) → count r result ≤ 1)
    wrapper_filtered_search-passing laws engine sorts selecting scratch bytes query_embedding limit
          finite vectors different from_table =
        let query = preprocess_query engine made scratch query_embedding in
        let prepared = searcher_for engine made scratch limit query in
        let searchable =
          set_up_index-IsSearchable kmeans wrapper (λ r. r) num_clusters row_ids embeddings
            num_embeddings fresh maps ready.assignment ready.some_dims ready.few_dims prepared
            (λ i.
              quantize_embedding-byte query made.params scratch.quantized_query 0
                made.index.num_dimensions i (bytes i)) in
        found engine made scratch limit query_embedding
          (values_of kmeans wrapper (λ r. r) num_clusters row_ids embeddings num_embeddings fresh
            maps)
          vectors own_offsets searchable sorts laws selecting finite different
          (rows-IsRowOf (all_valid_row_ids vectors) from_table)
          (λ r.
            row-IsHome kmeans wrapper num_clusters row_ids embeddings num_embeddings fresh maps
              ready engine.sorting sorts prepared r)
