-- ===== src/Kernel/Index.antt =====
-- `IndexPDXIVF<U8>` of src/include/pdxearch/index_base/pdx_ivf.hpp and `Cluster` of
-- src/include/pdxearch/common.hpp.
use pdxearch.Prelude.{ℕ, Bool, List, Buffer}

-- `Cluster<U8>`
pub record Cluster : Type 0 where
  pub num_embeddings : ℕ
  pub indices : Buffer ℕ
  pub block : Buffer ℕ

-- `IndexPDXIVF<U8>`. `num_clusters` is the length of `clusters` once the index is set up.
pub record IndexPdxIvf {ℓ} (F : Type ℓ) : Type ℓ where
  pub num_dimensions : ℕ
  pub num_vertical_dimensions : ℕ
  pub num_horizontal_dimensions : ℕ
  pub clusters : List Cluster
  pub is_normalized : Bool
  pub centroids : Buffer F
  pub quantization_scale_squared : F
  pub inverse_quantization_scale_squared : F
