-- ===== src/Creating/Groups.antt =====
-- What a thread sets up.
use pdxearch.Prelude.{
  ℕ, zero, suc, ◌+◌, ◌-◌, ◌*◌, ◌≤◌, ◌<◌, ◌≡◌, refl, ap, sym, ◌∙◌, inl, inr, arith, Bool, ltb, ◌&&◌,
  ◌==◌, List, [], ◌∷◌, ◌++◌, if◌then◌else◌, Buffer, advance, prefix, length, get_or, All, map,
  select, Bool-cases, le_or_lt,
}
use pdxearch.Computers.{Arithmetic}
use pdxearch.Computers.Visit.{count}
use pdxearch.Kernel.Float.{Float}
use pdxearch.Quantizer.{Scaling}
use pdxearch.Preprocess.{Blas, IsRowwise, overwrite, preprocess_embedding, preprocess_embeddings}
use pdxearch.Preprocess.Each.{
  preprocess_embeddings-rest, overwrite-inside, overwrite-outside, rows_apart,
  preprocess_embedding-congr, preprocess_embeddings-each,
}
use pdxearch.Wrapper.{get_row_group_id}
use pdxearch.FilteredScan.{combine, no_rows, sink_all}
use pdxearch.FilteredScan.Collecting.{searched_in, IsScanOrder, first_searches-select}
use pdxearch.FilteredScan.Emitting.{concat}
use pdxearch.Creating.{
  DataChunk, SetUp, LocalSinkState, finalize_row_group, create_combine, create_sink,
  create_sink_all, no_embeddings,
}
use pdxearch.Creating.Staging.{rows_of, rows_seen, create_combine-rows, create_sink_all-rows}

-- The rows that the calls set up in a row group.
abbrev pub set_up_rows {ℓ} : {F : Type ℓ} → ℕ → List (SetUp F) → List ℕ
set_up_rows g [] = []
set_up_rows g (c ∷ calls) =
    if c.row_group_id == g
    then prefix c.num_embeddings c.row_ids ++ set_up_rows g calls
    else set_up_rows g calls

set_up_rows-searched {ℓ} :
    {F : Type ℓ} (g : ℕ) (calls : List (SetUp F))
    → set_up_rows g calls ≡ searched_in g (map rows_of calls)
set_up_rows-searched g [] = refl
set_up_rows-searched g (c ∷ calls) = rw (set_up_rows-searched g calls) refl

add_rows : (c v d : ℕ) → (c + v) * d ≡ c * d + v * d
add_rows c zero d = omega arith
add_rows c (suc v) d = omega (arith, add_rows c v d)

All-snoc {ℓ κ} :
    {A : Type ℓ} (P : A → Type κ) (xs : List A) (x : A) → All P xs → P x → All P (xs ++ x ∷ [])
All-snoc P [] x h p = (p, tt)
All-snoc P (y ∷ xs) x (q, h) p = (q, All-snoc P xs x h p)

module _ {ℓ} {F : Type ℓ} ⦃f : Float F⦄ ⦃ops : Arithmetic F⦄ ⦃scaling : Scaling F⦄ (blas : Blas F)
    (d : ℕ) (is_normalized : Bool) (table : ℕ → Buffer F) where
  -- The embeddings of a chunk are those that the table has for its rows.
  abbrev pub IsFromTable : DataChunk F → Type ℓ
  IsFromTable chunk =
      (v j : ℕ)
      → v < length chunk.row_ids
      → j < d
      → chunk.embeddings (v * d + j) ≡ table (get_or chunk.row_ids v 0) j

  -- The buffer holds the preprocessed embeddings of the rows.
  abbrev pub IsPrepared : ℕ → Buffer ℕ → Buffer F → Type ℓ
  IsPrepared n row_ids embeddings =
      (v i : ℕ)
      → v < n
      → i < d
      → embeddings (v * d + i) ≡ preprocess_embedding blas d (table (row_ids v)) is_normalized i

  module _ (rowwise : IsRowwise blas) where
    -- A chunk that is appended to buffers.
    pub appended :
        (chunk : DataChunk F) (c : ℕ) (row_ids : Buffer ℕ) (embeddings : Buffer F)
        → IsFromTable chunk
        → IsPrepared c row_ids embeddings
        → let n = length chunk.row_ids in
          IsPrepared
            (c + n)
            (overwrite row_ids c n (λ v. get_or chunk.row_ids v 0))
            (preprocess_embeddings blas d chunk.embeddings embeddings (c * d) n is_normalized)
    appended chunk c row_ids embeddings from before w i hw hi =
        let n = length chunk.row_ids in
        let values : Buffer ℕ = λ v. get_or chunk.row_ids v 0 in
        let prepared : Buffer F =
          preprocess_embeddings blas d chunk.embeddings embeddings (c * d) n is_normalized in
        let of_row : ℕ → F = λ r. preprocess_embedding blas d (table r) is_normalized i in
        elim (le_or_lt c w) [
          | inr earlier ↦
              preprocess_embeddings-rest blas d chunk.embeddings embeddings (c * d) n (w * d + i)
                is_normalized (inl (rows_apart d w c i earlier hi))
              ∙ before w i earlier hi
              ∙ ap of_row (sym (overwrite-outside row_ids c n values w (inl earlier)))
          | inl new ↦
              let v = w - c in
              let e : c + v ≡ w = omega arith in
              let hv : v < n = omega arith in
              let index : w * d + i ≡ c * d + (v * d + i) =
                ap (λ k. k * d + i) (sym e) ∙ omega (arith, add_rows c v d) in
              let row =
                ap (overwrite row_ids c n values) (sym e)
                ∙ overwrite-inside row_ids c n values v hv in
              ap prepared index
              ∙ (preprocess_embeddings-each blas d rowwise chunk.embeddings embeddings (c * d) n v i
                  (c * d + n * d) is_normalized hv hi (inr (omega arith))).0
              ∙ preprocess_embedding-congr blas d rowwise is_normalized
                  (advance chunk.embeddings (v * d)) (table (values v)) i hi
                  (λ j hj. from v j hv hj)
              ∙ ap of_row (sym row)
        ]

module _ {ℓ} {F : Type ℓ} ⦃f : Float F⦄ ⦃ops : Arithmetic F⦄ ⦃scaling : Scaling F⦄ (blas : Blas F)
    (default_row_group_size d : ℕ) (is_normalized : Bool) (table : ℕ → Buffer F) where
  abbrev pub IsPreparedCall : SetUp F → Type ℓ
  IsPreparedCall c = IsPrepared blas d is_normalized table c.num_embeddings c.row_ids c.embeddings

  record IsSound (l : LocalSinkState F) : Type ℓ where
    staged :
        IsPrepared blas d is_normalized table l.row_group_embeddings_count l.row_group_row_ids
          l.row_group_embeddings_buffer
    called : All IsPreparedCall l.calls

  module _ (rowwise : IsRowwise blas) where
    finalized-IsSound :
        (l : LocalSinkState F) → IsSound l → All IsPreparedCall (finalize_row_group l).calls
    finalized-IsSound l inv = All-snoc IsPreparedCall l.calls _ inv.called inv.staged

    create_sink-IsSound :
        (chunk : DataChunk F) (l : LocalSinkState F)
        → IsFromTable blas d is_normalized table chunk
        → IsSound l
        → IsSound (create_sink blas default_row_group_size d is_normalized chunk l)
    unfolding create_sink
    create_sink-IsSound chunk l from inv =
        let id = get_row_group_id default_row_group_size (get_or chunk.row_ids 0 0) in
        elim (Bool-cases (length chunk.row_ids == 0)) [
          | inl empty ↦ rw empty inv
          | inr some_rows ↦
              rw some_rows
                (elim (Bool-cases (ltb l.row_group_id id && ltb 0 l.row_group_embeddings_count)) [
                  | inl new_group ↦ rw new_group (record {
                    staged =
                        appended blas d is_normalized table rowwise chunk 0 l.row_group_row_ids
                          l.row_group_embeddings_buffer from (λ v i hv hi. absurd (omega arith));
                    called = finalized-IsSound l inv;
                  })
                  | inr same_group ↦ rw same_group (record {
                    staged =
                        appended blas d is_normalized table rowwise chunk
                          l.row_group_embeddings_count l.row_group_row_ids
                          l.row_group_embeddings_buffer from inv.staged;
                    called = inv.called;
                  })
                ])
        ]

    create_sink_all-IsSound :
        (chunks : List (DataChunk F)) (l : LocalSinkState F)
        → All (IsFromTable blas d is_normalized table) chunks
        → IsSound l
        → IsSound (create_sink_all blas default_row_group_size d is_normalized chunks l)
    unfolding create_sink_all
    create_sink_all-IsSound [] l from inv = inv
    create_sink_all-IsSound (chunk ∷ chunks) l (from, rest) inv =
        create_sink_all-IsSound chunks _ rest (create_sink-IsSound chunk l from inv)

    create_combine-IsSound :
        (l : LocalSinkState F) → IsSound l → All IsPreparedCall (create_combine l).calls
    unfolding create_combine
    create_combine-IsSound l inv = elim (Bool-cases (ltb 0 l.row_group_embeddings_count)) [
      | inl some_rows ↦ rw some_rows (finalized-IsSound l inv)
      | inr none_left ↦ rw none_left inv.called
    ]

    -- A thread whose chunks come in the order of a sequential scan, with the embeddings of the table,
    -- sets up each row group at most once, with `Sink` for each chunk and `Combine` at the end, and
    -- with exactly the rows of it that the thread has seen, in order; the buffer of each call holds
    -- the preprocessed embeddings of its rows. The matrix product works row by row.
    pub create_combine-groups :
        (chunks : List (DataChunk F)) (g : ℕ) (embeddings : Buffer F) (row_ids : Buffer ℕ)
        → All (IsFromTable blas d is_normalized table) chunks
        → IsScanOrder default_row_group_size 0 (map (λ c. c.row_ids) chunks)
        → let calls =
            (create_combine (
              create_sink_all blas default_row_group_size d is_normalized chunks
                (no_embeddings embeddings row_ids))).calls in
          (set_up_rows g calls
            ≡ select
                (λ r. get_row_group_id default_row_group_size r == g)
                (concat (map (λ c. c.row_ids) chunks)))
          × (count g (map (λ c. c.row_group_id) calls) ≤ 1)
          × All IsPreparedCall calls
    unfolding prefix
    create_combine-groups chunks g embeddings row_ids from order =
        let l =
          create_sink_all blas default_row_group_size d is_normalized chunks
            (no_embeddings embeddings row_ids) in
        let rows = map (λ c. c.row_ids) chunks in
        let (calls_e, ids_e) = create_combine-rows l in
        let same : rows_seen l ≡ sink_all default_row_group_size rows no_rows =
          create_sink_all-rows blas default_row_group_size d is_normalized chunks
            (no_embeddings embeddings row_ids) in
        let (select_e, once) = first_searches-select default_row_group_size rows g order in
        let sound =
          create_sink_all-IsSound chunks (no_embeddings embeddings row_ids) from
            (record { staged = λ v i hv hi. absurd (omega arith); called = tt }) in
        let ids =
          ids_e ∙ ap (λ k. (combine k).row_group_ids_of_row_groups_with_passing_tuples) same in
        (
          set_up_rows-searched g (create_combine l).calls
              ∙ ap (searched_in g) calls_e
              ∙ ap (λ k. searched_in g (combine k).calls) same
              ∙ select_e,
          rw ids once,
          create_combine-IsSound l sound,
        )
