-- ===== src/Preprocess.antt =====
-- `EmbeddingPreprocessor` of src/include/index/pdxearch_index_utils.hpp and `Rotate` of
-- src/include/pdxearch/pruners/adsampling.hpp, whose matrix product is a call of BLAS.
pub mod Each
use pdxearch.Prelude.{
  ℕ, ◌+◌, ◌-◌, ◌*◌, ◌<◌, ◌≡◌, Bool, ltb, leb, ◌&&◌, if◌then◌else◌, for_up, Buffer, advance,
}
use pdxearch.Computers.{Arithmetic}
use pdxearch.Kernel.Float.{Float}
use pdxearch.Quantizer.{Scaling, normalize_query}

-- `sgemm_` of BLAS with the rotation matrix, for a number of embeddings.
pub record Blas {ℓ} (F : Type ℓ) : Type ℓ where
  pub sgemm : (num_dimensions num_embeddings : ℕ) → Buffer F → Buffer F

-- The rows of a matrix product are products of the rows.
pub record IsRowwise {ℓ} {F : Type ℓ} (blas : Blas F) : Type ℓ where
  pub row :
      (num_dimensions num_embeddings v i : ℕ) (b c : Buffer F)
      → v < num_embeddings
      → i < num_dimensions
      → ((j : ℕ) → j < num_dimensions → b (v * num_dimensions + j) ≡ c j)
      → blas.sgemm num_dimensions num_embeddings b (v * num_dimensions + i)
        ≡ blas.sgemm num_dimensions 1 c i

module _ {ℓ} {A : Type ℓ} where
  -- `n` values are written from `offset` on.
  abbrev pub overwrite : Buffer A → (offset n : ℕ) → Buffer A → Buffer A
  overwrite b offset n values k =
      if leb offset k && ltb k (offset + n) then values (k - offset) else b k

module _ {ℓ} {F : Type ℓ} ⦃f : Float F⦄ ⦃ops : Arithmetic F⦄ ⦃scaling : Scaling F⦄ (blas : Blas F)
    (num_dimensions : ℕ) where
  -- `quantizer.NormalizeQuery(input_embeddings + i * num_dimensions, ...)`, in place
  abbrev pub normalize_embedding : ℕ → Buffer F → Buffer F
  normalize_embedding i b =
      let embedding = advance b (i * num_dimensions) in
      overwrite b (i * num_dimensions) num_dimensions
        (normalize_query num_dimensions embedding embedding)

  -- `PreprocessEmbedding`, the values of the output
  unfoldable pub preprocess_embedding : Buffer F → (normalize : Bool) → Buffer F
  preprocess_embedding input_embedding normalize = blas.sgemm num_dimensions 1 (
      if normalize
      then normalize_query num_dimensions input_embedding input_embedding
      else input_embedding)

  -- `PreprocessEmbeddings`, which writes the output from `offset` on
  unfoldable pub preprocess_embeddings :
      (input_embeddings output_embeddings : Buffer F)
      → (offset num_embeddings : ℕ) → (normalize : Bool) → Buffer F
  preprocess_embeddings input_embeddings output_embeddings offset num_embeddings normalize =
      let normalized =
        if normalize
        then for_up num_embeddings normalize_embedding input_embeddings
        else input_embeddings in
      overwrite output_embeddings offset (num_embeddings * num_dimensions)
        (blas.sgemm num_dimensions num_embeddings normalized)
