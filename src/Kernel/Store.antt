-- ===== src/Kernel/Store.antt =====
-- A cluster that `StoreClusterEmbeddings` wrote is what the kernels read.
use pdxearch.Prelude.{ℕ, ◌+◌, ◌*◌, Buffer}
use pdxearch.Layout.{store_cluster_embeddings_u8}
use pdxearch.Layout.Assign.{Eigen, IsAssignment}
use pdxearch.Layout.Stored.{stored_u8-group, stored_u8-tail, stored_u8-horizontal}
use pdxearch.Computers.Reference.{IsStored}

pub store_u8-IsStored :
    ⦃eigen : Eigen ℕ⦄ (laws : IsAssignment ℕ) (V H D n : ℕ) (out embeddings : Buffer ℕ)
    → IsStored V H n
        (store_cluster_embeddings_u8 V H D out embeddings n)
        (λ v d. embeddings (v * D + d))
store_u8-IsStored laws V H D n out embeddings = record {
  group = stored_u8-group laws V H D n out embeddings;
  tail = stored_u8-tail laws V H D n out embeddings;
  horizontal = stored_u8-horizontal laws V H D n out embeddings;
}
