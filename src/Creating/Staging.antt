-- ===== src/Creating/Staging.antt =====
-- The buffers of a thread hold the rows of a row group.
use pdxearch.Prelude.{
  ℕ, zero, suc, ◌+◌, ◌≡◌, refl, ap, sym, ◌∙◌, inl, inr, arith, Bool, true, false, not, ltb, ◌==◌,
  List, [], ◌∷◌, ◌++◌, Buffer, advance, prefix, prefix-congr, length-prefix, length, get_or, map,
  Bool-cases,
}
use mathlib.Core.List.{append-nil, append_assoc}
use pdxearch.Computers.{Arithmetic}
use pdxearch.Kernel.Float.{Float}
use pdxearch.Quantizer.{Scaling}
use pdxearch.Preprocess.{Blas, overwrite}
use pdxearch.Preprocess.Each.{overwrite-inside, overwrite-outside}
use pdxearch.Wrapper.{get_row_group_id}
use pdxearch.FilteredScan.{FirstSearch, LocalSink, is_empty, sink, sink_all, combine}
use pdxearch.Creating.{
  DataChunk, SetUp, LocalSinkState, create_combine, create_sink, create_sink_all,
}

prefix-add : (c n : ℕ) (b : Buffer ℕ) → prefix (c + n) b ≡ prefix c b ++ prefix n (advance b c)
unfolding prefix
prefix-add c zero b = let e : c + 0 ≡ c = omega arith in rw e (sym (append-nil (prefix c b)))
prefix-add c (suc n) b =
    let e : c + suc n ≡ suc (c + n) = omega arith in
    rw (e, prefix-add c n b) (append_assoc (prefix c b) (prefix n (advance b c)) (b (c + n) ∷ []))

prefix-front : (n : ℕ) (b : Buffer ℕ) → prefix (suc n) b ≡ b 0 ∷ prefix n (λ i. b (suc i))
unfolding prefix
prefix-front zero b = refl
prefix-front (suc n) b = ap (λ t. t ++ b (suc n) ∷ []) (prefix-front n b)

prefix-list : (rows : List ℕ) → prefix (length rows) (λ v. get_or rows v 0) ≡ rows
unfolding prefix
prefix-list [] = refl
prefix-list (r ∷ rows) =
    prefix-front (length rows) (λ v. get_or (r ∷ rows) v 0) ∙ ap (◌∷◌ r) (prefix-list rows)

-- A chunk that is written behind c rows is appended to them.
pub prefix-overwrite :
    (c : ℕ) (rows : List ℕ) (b : Buffer ℕ)
    → prefix (c + length rows) (overwrite b c (length rows) (λ v. get_or rows v 0))
      ≡ prefix c b ++ rows
prefix-overwrite c rows b =
    let values : Buffer ℕ = λ v. get_or rows v 0 in
    let after : Buffer ℕ = overwrite b c (length rows) values in
    prefix-add c (length rows) after
    ∙ ap (λ t. t ++ prefix (length rows) (advance after c))
        (prefix-congr c after b (λ i lt. overwrite-outside b c (length rows) values i (inl lt)))
    ∙ ap (λ t. prefix c b ++ t)
        (prefix-congr (length rows) (advance after c) values
            (λ i lt. overwrite-inside b c (length rows) values i lt)
          ∙ prefix-list rows)

is_empty-prefix : (n : ℕ) (b : Buffer ℕ) → is_empty (prefix n b) ≡ not (ltb 0 n)
is_empty-prefix n b = by_length n (prefix n b) (length-prefix n b)
  where
    by_length : (n : ℕ) (rows : List ℕ) → length rows ≡ n → is_empty rows ≡ not (ltb 0 n)
    by_length n [] e = ground arith
    by_length n (r ∷ rows) e = ground arith

abbrev seen : ℕ → List ℕ → List ℕ → List FirstSearch → LocalSink
seen id rows ids calls = record {
  current_row_group_id = id;
  current_row_group_passing_rowids = rows;
  row_group_ids_of_row_groups_with_passing_tuples = ids;
  calls = calls;
}

module _ {ℓ} {F : Type ℓ} where
  -- The rows of a call.
  abbrev pub rows_of : SetUp F → FirstSearch
  rows_of c = record {
    row_group_id = c.row_group_id;
    passing_row_ids = prefix c.num_embeddings c.row_ids;
  }

  -- The rows of a thread.
  abbrev pub rows_seen : LocalSinkState F → LocalSink
  rows_seen l = record {
    current_row_group_id = l.row_group_id;
    current_row_group_passing_rowids = prefix l.row_group_embeddings_count l.row_group_row_ids;
    row_group_ids_of_row_groups_with_passing_tuples = map (λ c. c.row_group_id) l.calls;
    calls = map rows_of l.calls;
  }

  map-append {κ} :
      {B : Type κ} (g : SetUp F → B) (xs ys : List (SetUp F))
      → map g (xs ++ ys) ≡ map g xs ++ map g ys
  map-append g [] ys = refl
  map-append g (x ∷ xs) ys = ap (◌∷◌ (g x)) (map-append g xs ys)

  -- The set-up of the buffered rows is a call with them.
  pub create_combine-rows :
      (l : LocalSinkState F)
      → (map rows_of (create_combine l).calls ≡ (combine (rows_seen l)).calls)
        × (map (λ c. c.row_group_id) (create_combine l).calls
            ≡ (combine (rows_seen l)).row_group_ids_of_row_groups_with_passing_tuples)
  unfolding create_combine combine
  create_combine-rows l =
      let staged = l.row_group_embeddings_count in
      elim (Bool-cases (ltb 0 staged)) [
        | inl some_rows ↦
            let e : is_empty (prefix staged l.row_group_row_ids) ≡ false =
              is_empty-prefix staged l.row_group_row_ids ∙ ap not some_rows in
            rw (some_rows, e)
              (map-append rows_of l.calls _, map-append (λ c. c.row_group_id) l.calls _)
        | inr no_rows ↦
            let e : is_empty (prefix staged l.row_group_row_ids) ≡ true =
              is_empty-prefix staged l.row_group_row_ids ∙ ap not no_rows in
            rw (no_rows, e) (refl, refl)
      ]

module _ {ℓ} {F : Type ℓ} ⦃f : Float F⦄ ⦃ops : Arithmetic F⦄ ⦃scaling : Scaling F⦄ (blas : Blas F)
    (default_row_group_size num_dimensions : ℕ) (is_normalized : Bool) where
  sink_rows :
      (ids : List ℕ) (embeddings : Buffer F) (l : LocalSinkState F)
      → rows_seen (
          create_sink blas default_row_group_size num_dimensions is_normalized
            (record { row_ids = ids; embeddings = embeddings })
            l)
        ≡ sink default_row_group_size ids (rows_seen l)
  unfolding create_sink sink prefix
  sink_rows [] embeddings l = refl
  sink_rows (r ∷ rs) embeddings l =
      let id = get_row_group_id default_row_group_size r in
      let staged = l.row_group_embeddings_count in
      let some_new : (suc (length rs) == 0) ≡ false = ground arith in
      let empty = is_empty-prefix staged l.row_group_row_ids in
      rw (some_new, empty)
        (elim (Bool-cases (ltb l.row_group_id id)) [
          | inr same ↦ rw same (
              ap (λ rows. seen id rows (map (λ c. c.row_group_id) l.calls) (map rows_of l.calls))
                (prefix-overwrite staged (r ∷ rs) l.row_group_row_ids))
          | inl later ↦ elim (Bool-cases (ltb 0 staged)) [
            | inr none_staged ↦
                rw (later, none_staged)
                  (ap
                    (λ rows. seen id rows (map (λ c. c.row_group_id) l.calls) (map rows_of l.calls))
                    (prefix-overwrite staged (r ∷ rs) l.row_group_row_ids))
            | inl some_staged ↦
                let fresh = prefix-overwrite 0 (r ∷ rs) l.row_group_row_ids in
                rw
                  (
                    later,
                    some_staged,
                    fresh,
                    map-append (λ c. c.row_group_id) l.calls,
                    map-append rows_of l.calls,
                  )
                  refl
          ]
        ])

  -- `Sink` collects rows as the filtered scan does.
  pub create_sink_all-rows :
      (chunks : List (DataChunk F)) (l : LocalSinkState F)
      → rows_seen
          (create_sink_all blas default_row_group_size num_dimensions is_normalized chunks l)
        ≡ sink_all default_row_group_size (map (λ c. c.row_ids) chunks) (rows_seen l)
  unfolding create_sink_all sink_all
  create_sink_all-rows [] l = refl
  create_sink_all-rows (chunk ∷ chunks) l =
      create_sink_all-rows chunks _
      ∙ ap (sink_all default_row_group_size (map (λ c. c.row_ids) chunks))
          (sink_rows chunk.row_ids chunk.embeddings l)
