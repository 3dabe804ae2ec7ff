-- ===== src/Wrapper/SetUp.antt =====
-- `SetUpIndexForRowGroup` and `SetUpGlobalIndex` of src/include/index/pdxearch_wrapper.hpp at U8: the
-- embeddings of some rows become an index. They differ in the key of a row in the metadata.
pub mod Gathering
pub mod Built
pub mod Searchable
pub mod Rows
use pdxearch.Prelude.{
  to_unsigned, ℕ, suc, ◌+◌, ◌*◌, Bool, List, [], ◌∷◌, ◌++◌, for_up, Buffer, length, get_or, advance,
}
use pdxearch.Dimensions.{get_pdx_dimension_split}
use pdxearch.Layout.{store_cluster_embeddings_u8}
use pdxearch.Layout.Assign.{Eigen}
use pdxearch.Computers.{Arithmetic}
use pdxearch.Kernel.Float.{Float}
use pdxearch.Kernel.Index.{Cluster, IndexPdxIvf}
use pdxearch.Kernel.Search.{ClusterOffsets, compute_offsets}
use pdxearch.Kernel.Search.Offsets.{no_offsets}
use pdxearch.KMeans.{SuperKMeans, compute_kmeans}
use pdxearch.Quantizer.{
  Scaling, ScalarQuantizationParams, compute_quantization_params, quantize_embedding,
}
use pdxearch.Wrapper.{RowIdClusterMapping, RowMaps, place_embedding}
use pdxearch.Wrapper.Construction.{PdxearchWrapper}

-- What the loops over the clusters fill: the maps of the rows, the clusters so far, and the buffer that
-- the embeddings of a cluster are gathered into.
pub record Gathered : Type 0 where
  pub maps : RowMaps
  pub clusters : List Cluster
  pub tmp_cluster_embeddings : Buffer ℕ

-- `PDXRowGroup` and the fields of `PDXearchWrapperGlobal`, with the offsets of the searcher.
pub record SetUpIndex {ℓ} (F : Type ℓ) : Type ℓ where
  pub index : IndexPdxIvf F
  -- `quantization_base` and `quantization_scale` of the index
  pub params : ScalarQuantizationParams F
  pub row_id_metadata : Buffer RowIdClusterMapping
  pub offsets : ClusterOffsets

module _ {ℓ} {F : Type ℓ} ⦃f : Float F⦄ ⦃ops : Arithmetic F⦄ ⦃scaling : Scaling F⦄ ⦃eigen : Eigen ℕ⦄
    (key : ℕ → ℕ) (num_dimensions : ℕ) (row_ids : Buffer ℕ) (embeddings : Buffer F)
    (params : ScalarQuantizationParams F) (fresh : ℕ → Buffer ℕ) where
  -- One round of the loop over the positions of a cluster.
  abbrev pub gather_embedding : List ℕ → (cluster_idx position_in_cluster : ℕ) → Gathered → Gathered
  gather_embedding assignment cluster_idx position_in_cluster s = record s {
    maps = place_embedding key row_ids assignment cluster_idx position_in_cluster s.maps;
    tmp_cluster_embeddings =
        quantize_embedding num_dimensions
          (advance embeddings (get_or assignment position_in_cluster 0 * num_dimensions)) params
          s.tmp_cluster_embeddings (position_in_cluster * num_dimensions);
  }

  -- The cluster that is stored after that loop. `fresh` has the memory that is allocated for it.
  abbrev pub stored_cluster : List ℕ → ℕ → Gathered → Cluster
  stored_cluster assignment cluster_idx s =
      let split = get_pdx_dimension_split num_dimensions in
      record {
        num_embeddings = length assignment;
        indices = s.maps.indices cluster_idx;
        block =
            store_cluster_embeddings_u8 split.vertical_dimensions split.horizontal_dimensions
              num_dimensions (fresh cluster_idx) s.tmp_cluster_embeddings (length assignment);
      }

  -- One round of the loop over the clusters.
  unfoldable pub gather_cluster : List ℕ → ℕ → Gathered → Gathered
  gather_cluster assignment cluster_idx s =
      let t = for_up (length assignment) (gather_embedding assignment cluster_idx) s in
      record t { clusters = t.clusters ++ stored_cluster assignment cluster_idx t ∷ [] }

  -- That loop, from a cluster on.
  unfoldable pub gather_clusters : List (List ℕ) → ℕ → Gathered → Gathered
  gather_clusters [] cluster_idx s = s
  gather_clusters (assignment ∷ assignments) cluster_idx s =
      gather_clusters assignments (suc cluster_idx) (gather_cluster assignment cluster_idx s)

module _ {ℓ} {F : Type ℓ} ⦃f : Float F⦄ ⦃ops : Arithmetic F⦄ ⦃scaling : Scaling F⦄ ⦃eigen : Eigen ℕ⦄
    (kmeans : SuperKMeans F) (wrapper : PdxearchWrapper) where
  -- `SetUpIndexForRowGroup` and `SetUpGlobalIndex`. The allocations and the metadata of other rows hold
  -- anything; the buffer for gathering starts with zeros.
  unfoldable pub set_up_index :
      (key : ℕ → ℕ)
      → (num_clusters : ℕ) → (row_ids : Buffer ℕ) → (embeddings : Buffer F) → (num_embeddings : ℕ)
      → (fresh : ℕ → Buffer ℕ) → RowMaps
      → SetUpIndex F
  set_up_index key num_clusters row_ids embeddings num_embeddings fresh maps =
      let num_dimensions = wrapper.num_dimensions in
      let params = compute_quantization_params embeddings (num_embeddings * num_dimensions) in
      let result =
        compute_kmeans kmeans embeddings num_embeddings num_dimensions num_clusters
          wrapper.distance_metric (to_unsigned 32 wrapper.seed) in
      let gathered =
        gather_clusters key num_dimensions row_ids embeddings params fresh result.assignments 0
          (record { maps = maps; clusters = []; tmp_cluster_embeddings = λ i. 0 }) in
      let split = get_pdx_dimension_split num_dimensions in
      let scale = params.quantization_scale in
      record {
        index = record {
          num_dimensions = num_dimensions;
          num_vertical_dimensions = split.vertical_dimensions;
          num_horizontal_dimensions = split.horizontal_dimensions;
          clusters = gathered.clusters;
          is_normalized = wrapper.is_normalized;
          centroids = result.centroids;
          quantization_scale_squared = ops.mul scale scale;
          inverse_quantization_scale_squared = scaling.divide f.one (ops.mul scale scale);
        };
        params = params;
        row_id_metadata = gathered.maps.row_id_metadata;
        offsets = compute_offsets 0 gathered.clusters no_offsets;
      }
