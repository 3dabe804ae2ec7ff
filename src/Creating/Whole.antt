-- ===== src/Creating/Whole.antt =====
-- What the operator of the global version collects for the set-up of the index.
use pdxearch.Prelude.{
  ℕ, ◌≡◌, ap, sym, ◌∙◌, arith, Bool, List, [], ◌∷◌, ◌++◌, Buffer, prefix, All, map,
}
use mathlib.Core.List.{append-nil, append_assoc}
use pdxearch.Computers.{Arithmetic}
use pdxearch.Kernel.Float.{Float}
use pdxearch.Quantizer.{Scaling}
use pdxearch.Preprocess.{Blas, IsRowwise}
use pdxearch.FilteredScan.Emitting.{concat}
use pdxearch.Creating.{DataChunk, GlobalSinkState, global_create_sink, global_create_sink_all}
use pdxearch.Creating.Staging.{prefix-overwrite}
use pdxearch.Creating.Groups.{IsFromTable, IsPrepared, appended}

module _ {ℓ} {F : Type ℓ} ⦃f : Float F⦄ ⦃ops : Arithmetic F⦄ ⦃scaling : Scaling F⦄ (blas : Blas F)
    (d : ℕ) (is_normalized : Bool) (table : ℕ → Buffer F) (rowwise : IsRowwise blas) where
  collected :
      (chunks : List (DataChunk F)) (g : GlobalSinkState F)
      → All (IsFromTable blas d is_normalized table) chunks
      → IsPrepared blas d is_normalized table g.current_embedding_count g.row_ids g.embeddings
      → let s = global_create_sink_all blas d is_normalized chunks g in
        (prefix s.current_embedding_count s.row_ids
          ≡ prefix g.current_embedding_count g.row_ids ++ concat (map (λ c. c.row_ids) chunks))
        × IsPrepared blas d is_normalized table s.current_embedding_count s.row_ids s.embeddings
  unfolding global_create_sink_all global_create_sink
  collected [] g from before =
      (sym (append-nil (prefix g.current_embedding_count g.row_ids)), before)
  collected (chunk ∷ chunks) g (from, rest) before =
      let (rows, prepared) =
        collected chunks (global_create_sink blas d is_normalized chunk g) rest (
          appended blas d is_normalized table rowwise chunk g.current_embedding_count g.row_ids
            g.embeddings from before) in
      (
        rows
            ∙ ap (λ t. t ++ concat (map (λ c. c.row_ids) chunks))
                (prefix-overwrite g.current_embedding_count chunk.row_ids g.row_ids)
            ∙ append_assoc (prefix g.current_embedding_count g.row_ids) chunk.row_ids
                (concat (map (λ c. c.row_ids) chunks)),
        prepared,
      )

  -- After `Sink` of the global version for each chunk, with the embeddings of the table, the buffers
  -- hold the row ids of all chunks in order and the preprocessed embeddings of them. The matrix
  -- product works row by row.
  pub global_create_sink_all-IsPrepared :
      (chunks : List (DataChunk F)) (embeddings : Buffer F) (row_ids : Buffer ℕ)
      → All (IsFromTable blas d is_normalized table) chunks
      → let s =
          global_create_sink_all blas d is_normalized chunks
            (record { current_embedding_count = 0; embeddings = embeddings; row_ids = row_ids }) in
        (prefix s.current_embedding_count s.row_ids ≡ concat (map (λ c. c.row_ids) chunks))
        × IsPrepared blas d is_normalized table s.current_embedding_count s.row_ids s.embeddings
  unfolding prefix
  global_create_sink_all-IsPrepared chunks embeddings row_ids from =
      collected chunks
        (record { current_embedding_count = 0; embeddings = embeddings; row_ids = row_ids }) from
        (λ v i hv hi. absurd (omega arith))
