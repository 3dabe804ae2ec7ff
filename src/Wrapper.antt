-- ===== src/Wrapper.antt =====
-- src/include/index/pdxearch_wrapper.hpp: how rows of a table are mapped to clusters and back. The
-- assignment of embeddings to clusters comes from k-means, which is a parameter.
pub mod Mapping
pub mod Evaluator
pub mod Construction
pub mod SetUp
pub mod Counting
pub mod Global
pub mod RowGroup
use pdxearch.Prelude.{
  ℕ, suc, ◌+◌, ◌*◌, ◌/◌, ◌%◌, ◌^◌, Bool, List, [], ◌∷◌, ltb, if◌then◌else◌, for_up, Buffer, write,
  length, get_or,
}
use pdxearch.Kernel.Search.{ClusterOffsets, PredicateEvaluator}

-- `DEFAULT_ROW_GROUP_SIZE` is a constant of DuckDB.
module _ (default_row_group_size : ℕ) where
  -- `GetRowGroupId`
  abbrev pub get_row_group_id : ℕ → ℕ
  get_row_group_id row_id = row_id / default_row_group_size

  -- `ComputeNumClustersForRowGroup`
  abbrev pub compute_num_clusters_for_row_group : ℕ → ℕ
  compute_num_clusters_for_row_group num_embeddings =
      if ltb num_embeddings 2048
      then 1
      else (if ltb num_embeddings (default_row_group_size / 4) then 120 else 480)

-- `RowIdClusterMapping`
pub record RowIdClusterMapping : Type 0 where
  pub cluster_id : ℕ
  pub index_in_cluster : ℕ

-- What the loop over the clusters fills: the metadata of the rows, and the indices of each cluster.
pub record RowMaps : Type 0 where
  pub row_id_metadata : Buffer RowIdClusterMapping
  pub indices : Buffer (Buffer ℕ)

-- One round of the inner loop of `SetUpIndexForRowGroup`, where `key` is the place of a row in the
-- metadata: `row_id % DEFAULT_ROW_GROUP_SIZE`, or the row id itself in `SetUpGlobalIndex`. The
-- indices of a cluster are `uint32_t`.
abbrev pub place_embedding :
    (ℕ → ℕ) → Buffer ℕ → List ℕ → (cluster_idx position_in_cluster : ℕ) → RowMaps → RowMaps
place_embedding key row_ids assignment cluster_idx position_in_cluster m =
    let row_id = row_ids (get_or assignment position_in_cluster 0) in
    record {
      row_id_metadata =
          write m.row_id_metadata (key row_id)
            (record { cluster_id = cluster_idx; index_in_cluster = position_in_cluster });
      indices =
          write m.indices cluster_idx
            (write (m.indices cluster_idx) position_in_cluster (row_id % 2 ^ 32));
    }

-- The loop over the positions of a cluster.
unfoldable pub place_cluster : (ℕ → ℕ) → Buffer ℕ → List ℕ → ℕ → RowMaps → RowMaps
place_cluster key row_ids assignment cluster_idx m =
    for_up (length assignment) (place_embedding key row_ids assignment cluster_idx) m

-- The loop over the clusters, from cluster `cluster_idx` on.
unfoldable pub place_clusters : (ℕ → ℕ) → Buffer ℕ → List (List ℕ) → ℕ → RowMaps → RowMaps
place_clusters key row_ids [] cluster_idx m = m
place_clusters key row_ids (assignment ∷ assignments) cluster_idx m =
    place_clusters key row_ids assignments (suc cluster_idx)
      (place_cluster key row_ids assignment cluster_idx m)

-- One round of the loop of `CreatePredicateEvaluatorForRowGroup`, with the mapping of a row.
abbrev pub mark : ClusterOffsets → RowIdClusterMapping → PredicateEvaluator → PredicateEvaluator
mark o r p = record {
  n_passing_tuples = write p.n_passing_tuples r.cluster_id (p.n_passing_tuples r.cluster_id + 1);
  selection_vector =
      write p.selection_vector (o.cluster_offsets r.cluster_id + r.index_in_cluster) 1;
}

-- That loop.
unfoldable pub mark_all :
    (ℕ → ℕ)
    → Buffer RowIdClusterMapping
    → ClusterOffsets
    → List ℕ
    → PredicateEvaluator
    → PredicateEvaluator
mark_all key row_id_metadata o [] p = p
mark_all key row_id_metadata o (row_id ∷ row_ids) p =
    mark_all key row_id_metadata o row_ids (mark o (row_id_metadata (key row_id)) p)

-- `CreatePredicateEvaluatorForRowGroup`, and `CreatePredicateEvaluator` on the valid row ids. The
-- arrays start with zeros.
unfoldable pub create_predicate_evaluator :
    (ℕ → ℕ) → Buffer RowIdClusterMapping → ClusterOffsets → List ℕ → PredicateEvaluator
create_predicate_evaluator key row_id_metadata o passing_row_ids =
    mark_all key row_id_metadata o passing_row_ids
      (record { n_passing_tuples = λ c. 0; selection_vector = λ i. 0 })
