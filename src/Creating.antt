-- ===== src/Creating.antt =====
-- src/index/create/pdxearch_index_create.cpp and pdxearch_index_global_create.cpp: the operators that
-- collect the embeddings of a table and set up its index. The calls that set up a row group are
-- recorded in order.
pub mod Staging
pub mod Groups
pub mod Whole
use pdxearch.Prelude.{
  ℕ, zero, suc, ◌+◌, ◌*◌, Bool, false, ◌&&◌, List, [], ◌∷◌, ◌++◌, Option, none, some, ltb, ◌==◌,
  if◌then◌else◌, Buffer, length, get_or, Result, ok, err,
}
use pdxearch.Computers.{Arithmetic}
use pdxearch.Kernel.Float.{Float}
use pdxearch.Quantizer.{Scaling}
use pdxearch.Preprocess.{Blas, overwrite, preprocess_embeddings}
use pdxearch.Wrapper.{get_row_group_id}

-- A chunk of the scan of the table: its row ids, and their embeddings one after another.
pub record DataChunk {ℓ} (F : Type ℓ) : Type ℓ where
  pub row_ids : List ℕ
  pub embeddings : Buffer F

-- A call of `SetUpIndexForRowGroup` or `SetUpGlobalIndex`, and the row group that it is for.
pub record SetUp {ℓ} (F : Type ℓ) : Type ℓ where
  pub row_ids : Buffer ℕ
  pub embeddings : Buffer F
  pub num_embeddings : ℕ
  pub row_group_id : ℕ

-- `CreatePDXearchIndexLocalSinkState`, with the calls made so far.
pub record LocalSinkState {ℓ} (F : Type ℓ) : Type ℓ where
  pub row_group_id : ℕ
  pub row_group_embeddings_count : ℕ
  pub row_group_embeddings_buffer : Buffer F
  pub row_group_row_ids : Buffer ℕ
  pub calls : List (SetUp F)

module _ {ℓ} {F : Type ℓ} where
  -- The set-up of the buffered row group.
  abbrev pub finalize_row_group : LocalSinkState F → LocalSinkState F
  finalize_row_group l = record l {
    calls =
        l.calls
        ++ record {
          row_ids = l.row_group_row_ids;
          embeddings = l.row_group_embeddings_buffer;
          num_embeddings = l.row_group_embeddings_count;
          row_group_id = l.row_group_id;
        }
          ∷ [];
  }

  -- `Combine`
  unfoldable pub create_combine : LocalSinkState F → LocalSinkState F
  create_combine l = if ltb 0 l.row_group_embeddings_count then finalize_row_group l else l

-- The state of a thread at the start, where the buffers hold anything.
abbrev pub no_embeddings {ℓ} : {F : Type ℓ} → Buffer F → Buffer ℕ → LocalSinkState F
no_embeddings embeddings row_ids = record {
  row_group_id = 0;
  row_group_embeddings_count = 0;
  row_group_embeddings_buffer = embeddings;
  row_group_row_ids = row_ids;
  calls = [];
}

-- `CreateGlobalPDXearchIndexGlobalSinkState`
pub record GlobalSinkState {ℓ} (F : Type ℓ) : Type ℓ where
  pub current_embedding_count : ℕ
  pub embeddings : Buffer F
  pub row_ids : Buffer ℕ

module _ {ℓ} {F : Type ℓ} ⦃f : Float F⦄ ⦃ops : Arithmetic F⦄ ⦃scaling : Scaling F⦄ (blas : Blas F)
    (default_row_group_size num_dimensions : ℕ) (is_normalized : Bool) where
  -- The end of `Sink`, which appends the chunk to the buffers.
  abbrev pub accumulate : DataChunk F → (row_group_id : ℕ) → LocalSinkState F → LocalSinkState F
  accumulate chunk row_group_id l =
      let num_embeddings = length chunk.row_ids in
      record l {
        row_group_id = row_group_id;
        row_group_embeddings_buffer =
            preprocess_embeddings blas num_dimensions chunk.embeddings l.row_group_embeddings_buffer
              (l.row_group_embeddings_count * num_dimensions) num_embeddings is_normalized;
        row_group_row_ids =
            overwrite l.row_group_row_ids l.row_group_embeddings_count num_embeddings
              (λ v. get_or chunk.row_ids v 0);
        row_group_embeddings_count = l.row_group_embeddings_count + num_embeddings;
      }

  -- `Sink`
  unfoldable pub create_sink : DataChunk F → LocalSinkState F → LocalSinkState F
  create_sink chunk l =
      if length chunk.row_ids == 0
      then l
      else let row_group_id = get_row_group_id default_row_group_size (get_or chunk.row_ids 0 0) in
        accumulate chunk row_group_id (
          if ltb l.row_group_id row_group_id && ltb 0 l.row_group_embeddings_count
          then record (finalize_row_group l) { row_group_embeddings_count = 0 }
          else l)

  -- The calls of `Sink` by one thread.
  unfoldable pub create_sink_all : List (DataChunk F) → LocalSinkState F → LocalSinkState F
  create_sink_all [] l = l
  create_sink_all (chunk ∷ chunks) l = create_sink_all chunks (create_sink chunk l)

module _ {ℓ} {F : Type ℓ} ⦃f : Float F⦄ ⦃ops : Arithmetic F⦄ ⦃scaling : Scaling F⦄ (blas : Blas F)
    (num_dimensions : ℕ) (is_normalized : Bool) where
  -- `Sink` of the global version
  unfoldable pub global_create_sink : DataChunk F → GlobalSinkState F → GlobalSinkState F
  global_create_sink chunk g =
      let num_embeddings = length chunk.row_ids in
      record {
        embeddings =
            preprocess_embeddings blas num_dimensions chunk.embeddings g.embeddings
              (g.current_embedding_count * num_dimensions) num_embeddings is_normalized;
        row_ids =
            overwrite g.row_ids g.current_embedding_count num_embeddings
              (λ v. get_or chunk.row_ids v 0);
        current_embedding_count = g.current_embedding_count + num_embeddings;
      }

  unfoldable pub global_create_sink_all : List (DataChunk F) → GlobalSinkState F → GlobalSinkState F
  global_create_sink_all [] g = g
  global_create_sink_all (chunk ∷ chunks) g =
      global_create_sink_all chunks (global_create_sink chunk g)

-- The exceptions of `Finalize`.
pub data CreateError : Type 0 where
  transaction_conflict already_exists : CreateError

-- `Finalize`: what the catalog says decides whether the index is added to the storage. `set_up` is
-- the index at the end, which the global version sets up only then.
unfoldable pub create_finalize {ℓ} :
    {I : Type ℓ}
    → (is_main_table has_entry ignore_on_conflict : Bool) → (set_up : I)
    → Result CreateError (Option I)
create_finalize is_main_table has_entry ignore_on_conflict set_up =
    if is_main_table
    then (if has_entry
        then (if ignore_on_conflict then ok none else err already_exists)
        else ok (some set_up))
    else err transaction_conflict
