-- ===== src/Wrapper/SetUp/Searchable.antt =====
-- The set-up of an index as a whole.
use mathlib.Core.Option.{none-ne-some, some-injective}
use mathlib.Core.Path.{subst}
use pdxearch.Prelude.{
  to_unsigned, ℕ, zero, suc, ◌+◌, ◌*◌, ◌≤◌, ◌<◌, ◌≡◌, refl, ap, sym, ◌∙◌, arith, List, [], ◌∷◌,
  Buffer, length, get_or, get_elem?, some,
}
use pdxearch.Dimensions.{get_pdx_dimension_split, pdx_max_dims}
use pdxearch.Dimensions.Split.{get_pdx_dimension_split-IsSplit}
use pdxearch.Layout.Assign.{Eigen, IsAssignment}
use pdxearch.Computers.{Arithmetic}
use pdxearch.Computers.Reference.{IsStored}
use pdxearch.Kernel.Float.{Float}
use pdxearch.Kernel.Index.{Cluster}
use pdxearch.Kernel.Search.{Searcher}
use pdxearch.Kernel.Search.Leaving.{IsSearchable, get_elem-inside}
use pdxearch.KMeans.{SuperKMeans, compute_kmeans}
use pdxearch.Quantizer.{Scaling, ScalarQuantizationParams, compute_quantization_params}
use pdxearch.Quantizer.Order.{quantize_value-byte}
use pdxearch.Wrapper.{RowMaps, place_clusters}
use pdxearch.Wrapper.Construction.{PdxearchWrapper}
use pdxearch.Wrapper.SetUp.{SetUpIndex, Gathered, gather_clusters, set_up_index}
use pdxearch.Wrapper.SetUp.Built.{
  quantized_row, IsBuilt, after_all-maps, length-after_all, cluster-IsBuilt,
}

pub get_or-some {ℓ} :
    {A : Type ℓ} (xs : List A) (i : ℕ) (x d : A) → get_elem? xs i ≡ some x → get_or xs i d ≡ x
get_or-some [] i x d e = absurd (none-ne-some x e)
get_or-some (y ∷ xs) zero x d e = some-injective y x e
get_or-some (y ∷ xs) (suc i) x d e = get_or-some xs i x d e

pub get_elem-below {ℓ} :
    {A : Type ℓ} (xs : List A) (i : ℕ) (x : A) → get_elem? xs i ≡ some x → i < length xs
get_elem-below [] i x e = absurd (none-ne-some x e)
get_elem-below (y ∷ xs) zero x e = omega arith
get_elem-below (y ∷ xs) (suc i) x e = omega (arith, get_elem-below xs i x e)

module _ {ℓ} {F : Type ℓ} ⦃f : Float F⦄ ⦃ops : Arithmetic F⦄ ⦃scaling : Scaling F⦄ ⦃eigen : Eigen ℕ⦄
    (kmeans : SuperKMeans F) (wrapper : PdxearchWrapper) (key : ℕ → ℕ) (num_clusters : ℕ)
    (row_ids : Buffer ℕ) (embeddings : Buffer F) (num_embeddings : ℕ) (fresh : ℕ → Buffer ℕ)
    (maps : RowMaps) where
  open wrapper use {num_dimensions}

  abbrev pub params_of : ScalarQuantizationParams F
  params_of = compute_quantization_params embeddings (num_embeddings * num_dimensions)

  -- The embeddings of each cluster.
  abbrev pub lists_of : List (List ℕ)
  lists_of =
      (compute_kmeans kmeans embeddings num_embeddings num_dimensions num_clusters
        wrapper.distance_metric (to_unsigned 32 wrapper.seed)).assignments

  abbrev pub result_of : SetUpIndex F
  result_of =
      set_up_index kmeans wrapper key num_clusters row_ids embeddings num_embeddings fresh maps

  -- The quantized values of the embeddings of a cluster.
  abbrev pub values_of : (id v d : ℕ) → ℕ
  values_of id =
      quantized_row key num_dimensions row_ids embeddings params_of fresh (get_or lists_of id [])

  abbrev gathered_of : Gathered
  gathered_of =
      gather_clusters key num_dimensions row_ids embeddings params_of fresh lists_of 0
        (record { maps = maps; clusters = []; tmp_cluster_embeddings = λ i. 0 })

  clusters_of : result_of.index.clusters ≡ gathered_of.clusters
  unfolding set_up_index
  clusters_of = refl

  pub length-clusters : length result_of.index.clusters ≡ length lists_of
  length-clusters =
      ap length clusters_of
      ∙ length-after_all key num_dimensions row_ids embeddings params_of fresh lists_of 0 _
      ∙ omega arith

  -- The metadata is that of the rows of the lists.
  pub metadata_of :
      result_of.row_id_metadata ≡ (place_clusters key row_ids lists_of 0 maps).row_id_metadata
  unfolding set_up_index
  metadata_of =
      ap RowMaps.row_id_metadata
        (after_all-maps key num_dimensions row_ids embeddings params_of fresh lists_of 0 _)

  module _ (laws : IsAssignment ℕ) (some_dims : 0 < num_dimensions)
      (few : num_dimensions ≤ pdx_max_dims) where
    -- Each cluster is built from its list.
    pub cluster_of_list :
        (id : ℕ) (c : Cluster)
        → get_elem? result_of.index.clusters id ≡ some c
        → (a : List ℕ) × (get_elem? lists_of id ≡ some a)
          × IsBuilt key num_dimensions row_ids embeddings params_of fresh a c
    cluster_of_list id c at =
        let start : 0 + id ≡ id = omega arith in
        let inside : id < length lists_of = inside_of id c at in
        let (a, at_a) = get_elem-inside lists_of id inside in
        let (cl, at_cl, built) =
          cluster-IsBuilt key num_dimensions row_ids embeddings params_of fresh laws some_dims few
            lists_of 0 id _ a refl at_a in
        let same : cl ≡ c = some-injective cl c (
          sym at_cl
          ∙ ap (get_elem? gathered_of.clusters) start
          ∙ sym (ap (λ cs. get_elem? cs id) clusters_of)
          ∙ at) in
        (
          a,
          at_a,
          subst (IsBuilt key num_dimensions row_ids embeddings params_of fresh a) same built,
        )
      where
        inside_of :
            (id : ℕ) (c : Cluster)
            → get_elem? result_of.index.clusters id ≡ some c
            → id < length lists_of
        inside_of id c at =
            omega (arith, get_elem-below result_of.index.clusters id c at, length-clusters)

    pub rows_split :
        let split = get_pdx_dimension_split num_dimensions in
        num_dimensions ≡ split.vertical_dimensions + split.horizontal_dimensions
    rows_split =
        let divided = (get_pdx_dimension_split-IsSplit num_dimensions some_dims few).total in
        omega arith

    -- The index that the set-up of a row group or of the whole table makes can be searched: each
    -- cluster stores, in the layout that the kernels read, the quantized values of the embeddings
    -- that k-means assigned to it, which are bytes. The number of dimensions is from 1 to the limit,
    -- the matrices of Eigen assign, and the quantized query consists of bytes.
    pub set_up_index-IsSearchable :
        (searcher : Searcher F)
        → ((i : ℕ) → searcher.prepared_query i < 256)
        → IsSearchable (record searcher { pdx_data = result_of.index }) values_of
    unfolding set_up_index
    set_up_index-IsSearchable searcher query_bytes =
        let divided = get_pdx_dimension_split-IsSplit num_dimensions some_dims few in
        let split = get_pdx_dimension_split num_dimensions in
        let total = divided.total in
        record {
          stored = λ id c at.
              let (a, at_a, built) = cluster_of_list id c at in
              subst
                (λ (l : List ℕ).
                  IsStored split.vertical_dimensions split.horizontal_dimensions c.num_embeddings
                    c.block (quantized_row key num_dimensions row_ids embeddings params_of fresh l))
                (sym (get_or-some lists_of id a [] at_a)) built.stored;
          split = rows_split;
          whole = divided.whole_blocks;
          few = omega arith;
          query_bytes = query_bytes;
          bytes = λ id v i.
              quantize_value-byte params_of
                (embeddings (get_or (get_or lists_of id []) v 0 * num_dimensions + i));
        }
