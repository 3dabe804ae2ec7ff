-- ===== src/Layout.antt =====
-- src/include/index/pdxearch_index_utils.hpp: how the embeddings of a cluster are stored in the PDX
-- layout. The matrices of Eigen are a parameter.
pub mod Assign
pub mod Blocks
pub mod Stored
pub mod Placement
use pdxearch.Prelude.{ℕ, ◌+◌, ◌-◌, ◌*◌, ◌/◌, ltb, if◌then◌else◌, for_up, Buffer}
use pdxearch.Dimensions.{h_dim_size, u8_interleave_size}
use pdxearch.Layout.Assign.{Eigen, Matrix}

module _ {ℓ} {A : Type ℓ} ⦃eigen : Eigen A⦄ where
  open eigen use {assign}

  -- `Eigen::Map<const matrix_t> in(embeddings, num_embeddings, num_dimensions)`, row-major
  abbrev pub input : Buffer A → ℕ → Matrix A
  input embeddings num_dimensions v d = embeddings (v * num_dimensions + d)

  -- The loop over the horizontal blocks, the same in both specialisations. After r rounds
  -- `horizontal_out` has advanced by r times the size of a block.
  pub store_horizontal : (vertical_d horizontal_d n : ℕ) → Matrix A → Buffer A → Buffer A
  store_horizontal vertical_d horizontal_d n m = for_up ((horizontal_d + 63) / h_dim_size) (λ r out.
      assign out (n * vertical_d + r * (n * h_dim_size)) n h_dim_size
        (λ v k. m v (vertical_d + r * h_dim_size + k)))

  -- `StoreClusterEmbeddings<F32, float>`
  pub store_cluster_embeddings_f32 :
      (vertical_d horizontal_d num_dimensions : ℕ) → Buffer A → Buffer A → ℕ → Buffer A
  unfolding store_horizontal
  store_cluster_embeddings_f32 vertical_d horizontal_d num_dimensions out embeddings n =
      let m = input embeddings num_dimensions in
      store_horizontal vertical_d horizontal_d n m (assign out 0 vertical_d n (λ d v. m v d))

  -- The groups of four dimensions in the vertical part of `StoreClusterEmbeddings<U8, uint8_t>`
  pub store_interleaved : (vertical_d n : ℕ) → Matrix A → Buffer A → Buffer A
  store_interleaved vertical_d n m = for_up (vertical_d / u8_interleave_size) (λ g out.
      assign out (g * u8_interleave_size * n) n u8_interleave_size
        (λ v k. m v (g * u8_interleave_size + k)))

  -- Its compact tail
  pub store_tail : (vertical_d n : ℕ) → Matrix A → Buffer A → Buffer A
  store_tail vertical_d n m out =
      let dim = vertical_d / u8_interleave_size * u8_interleave_size in
      if ltb dim vertical_d
      then assign out (dim * n) n (vertical_d - dim) (λ v k. m v (dim + k))
      else out

  -- `StoreClusterEmbeddings<U8, uint8_t>`
  pub store_cluster_embeddings_u8 :
      (vertical_d horizontal_d num_dimensions : ℕ) → Buffer A → Buffer A → ℕ → Buffer A
  unfolding store_horizontal store_interleaved store_tail
  store_cluster_embeddings_u8 vertical_d horizontal_d num_dimensions out embeddings n =
      let m = input embeddings num_dimensions in
      store_horizontal vertical_d horizontal_d n m
        (store_tail vertical_d n m (store_interleaved vertical_d n m out))
