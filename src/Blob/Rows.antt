-- ===== src/Blob/Rows.antt =====
-- `EncodeBlobFunction` and `DecodeBlobFunction` of src/index/pdxearch_blob_functions.cpp, on the rows
-- that the selection vector of the input yields. `none` is a row that is NULL.
use mathlib.Core.Path.{ap₂}
use pdxearch.Prelude.{
  ℕ, zero, suc, ◌+◌, ◌<◌, ◌≡◌, refl, sym, ap, ◌∙◌, arith, List, [], ◌∷◌, map, Option, none, some,
  length, Buffer, write,
}
use pdxearch.Blob.{
  Scales, encode_float_array_to_blob, decode_blob_to_float_array, blob_dimension_count,
}
use pdxearch.Blob.Vectors.{rounded, decode-encode, length-decode}

-- `list_entry_t`
pub record ListEntry : Type 0 where
  pub offset : ℕ
  pub length : ℕ

-- The result of `DecodeBlobFunction`, with the vector of the elements of all lists.
pub record DecodedRows {ℓ} (F : Type ℓ) : Type ℓ where
  pub list_entries : List (Option ListEntry)
  pub child_data : Buffer F
  pub list_size : ℕ

module _ {ℓ} {F : Type ℓ} where
  -- The elements of a list.
  unfoldable pub slice : Buffer F → ℕ → ℕ → List F
  slice child offset zero = []
  slice child offset (suc n) = child offset ∷ slice child (suc offset) n

  -- Consecutive elements of an output.
  unfoldable pub write_all : Buffer F → ℕ → List F → Buffer F
  write_all child offset [] = child
  write_all child offset (v ∷ vs) = write_all (write child offset v) (suc offset) vs

  abbrev pub read_entry : Buffer F → Option ListEntry → Option (List F)
  read_entry child none = none
  read_entry child (some e) = some (slice child e.offset e.length)

-- The first pass of `DecodeBlobFunction`.
unfoldable pub total_elements : List (Option (List ℕ)) → ℕ
total_elements [] = 0
total_elements (none ∷ rows) = total_elements rows
total_elements (some blob ∷ rows) = blob_dimension_count (length blob) + total_elements rows

module _ {ℓ} {F : Type ℓ} (scales : Scales F) where
  -- `EncodeBlobFunction`
  abbrev pub encode_row : Option (List F) → Option (List ℕ)
  encode_row none = none
  encode_row (some vs) = some (encode_float_array_to_blob scales vs)

  unfoldable pub encode_blob_function : Buffer F → List (Option ListEntry) → List (Option (List ℕ))
  encode_blob_function child_data [] = []
  encode_blob_function child_data (entry ∷ entries) =
      encode_row (read_entry child_data entry) ∷ encode_blob_function child_data entries

  -- The second pass of `DecodeBlobFunction`, from `offset` on.
  unfoldable pub decode_rows : List (Option (List ℕ)) → ℕ → Buffer F → DecodedRows F
  decode_rows [] offset child = record { list_entries = []; child_data = child; list_size = offset }
  decode_rows (none ∷ rows) offset child =
      let rest = decode_rows rows offset child in
      record rest { list_entries = none ∷ rest.list_entries }
  decode_rows (some blob ∷ rows) offset child =
      let dim_count = blob_dimension_count (length blob) in
      let rest =
        decode_rows rows (offset + dim_count)
          (write_all child offset (decode_blob_to_float_array scales blob)) in
      record rest {
        list_entries = some (record { offset = offset; length = dim_count }) ∷ rest.list_entries;
      }

  -- `DecodeBlobFunction`
  abbrev pub decode_blob_function : List (Option (List ℕ)) → Buffer F → DecodedRows F
  decode_blob_function rows child = decode_rows rows 0 child

  abbrev pub decode_row : Option (List ℕ) → Option (List F)
  decode_row none = none
  decode_row (some blob) = some (decode_blob_to_float_array scales blob)

  write_all-below :
      (child : Buffer F) (offset : ℕ) (vs : List F) (j : ℕ)
      → j < offset
      → write_all child offset vs j ≡ child j
  unfolding write_all
  write_all-below child offset [] j l = refl
  write_all-below child offset (v ∷ vs) j l =
      write_all-below (write child offset v) (suc offset) vs j (omega arith) ∙ ground arith

  slice-congr :
      (b c : Buffer F) (offset n : ℕ)
      → ((j : ℕ) → j < offset + n → b j ≡ c j)
      → slice b offset n ≡ slice c offset n
  unfolding slice
  slice-congr b c offset zero h = refl
  slice-congr b c offset (suc n) h =
      rw (h offset (omega arith), slice-congr b c (suc offset) n (λ j l. h j (omega arith)))

  slice-write_all :
      (child : Buffer F) (offset : ℕ) (vs : List F)
      → slice (write_all child offset vs) offset (length vs) ≡ vs
  unfolding slice write_all
  slice-write_all child offset [] = refl
  slice-write_all child offset (v ∷ vs) =
      rw
        (
          slice-write_all (write child offset v) (suc offset) vs,
          write_all-below (write child offset v) (suc offset) vs offset (omega arith),
        )
        (ground arith)

  -- Later rows leave what earlier ones have written.
  decode_rows-below :
      (rows : List (Option (List ℕ))) (offset : ℕ) (child : Buffer F) (j : ℕ)
      → j < offset
      → (decode_rows rows offset child).child_data j ≡ child j
  unfolding decode_rows
  decode_rows-below [] offset child j l = refl
  decode_rows-below (none ∷ rows) offset child j l = decode_rows-below rows offset child j l
  decode_rows-below (some blob ∷ rows) offset child j l =
      decode_rows-below rows (offset + blob_dimension_count (length blob)) _ j (omega arith)
      ∙ write_all-below child offset (decode_blob_to_float_array scales blob) j l

  decode_rows-size :
      (rows : List (Option (List ℕ))) (offset : ℕ) (child : Buffer F)
      → (decode_rows rows offset child).list_size ≡ offset + total_elements rows
  unfolding decode_rows total_elements
  decode_rows-size [] offset child = omega arith
  decode_rows-size (none ∷ rows) offset child = decode_rows-size rows offset child
  decode_rows-size (some blob ∷ rows) offset child = omega (
    arith,
    decode_rows-size rows (offset + blob_dimension_count (length blob))
        (write_all child offset (decode_blob_to_float_array scales blob)),
  )

  decode_rows-read :
      (rows : List (Option (List ℕ))) (offset : ℕ) (child : Buffer F)
      → let r = decode_rows rows offset child in
        map (read_entry r.child_data) r.list_entries ≡ map decode_row rows
  unfolding decode_rows
  decode_rows-read [] offset child = refl
  decode_rows-read (none ∷ rows) offset child = ap (◌∷◌ none) (decode_rows-read rows offset child)
  decode_rows-read (some blob ∷ rows) offset child =
      let vs = decode_blob_to_float_array scales blob in
      let n = blob_dimension_count (length blob) in
      let child' = write_all child offset vs in
      let kept =
        slice-congr (decode_rows rows (offset + n) child').child_data child' offset n
          (decode_rows-below rows (offset + n) child') in
      ap₂ (λ s t. some s ∷ t)
        (kept
          ∙ ap (λ m. slice child' offset m) (sym (length-decode scales blob))
          ∙ slice-write_all child offset vs)
        (decode_rows-read rows (offset + n) child')

  -- The lists that `DecodeBlobFunction` returns hold the decoded rows, and NULL stays NULL. Together
  -- they are as long as the first pass has reserved.
  pub decode_blob_function-rows :
      (rows : List (Option (List ℕ))) (child : Buffer F)
      → let r = decode_blob_function rows child in
        (map (read_entry r.child_data) r.list_entries ≡ map decode_row rows)
        × (r.list_size ≡ total_elements rows)
  decode_blob_function-rows rows child =
      (decode_rows-read rows 0 child, omega (arith, decode_rows-size rows 0 child))

  -- What the encoding and the decoding leave of a row.
  abbrev pub rounded_row : Option (List F) → Option (List F)
  rounded_row none = none
  rounded_row (some vs) = some (map (rounded scales) vs)

  decode-encode_row : (row : Option (List F)) → decode_row (encode_row row) ≡ rounded_row row
  decode-encode_row none = refl
  decode-encode_row (some vs) = ap some (decode-encode scales vs)

  decode_rows-encode :
      (vectors : Buffer F) (entries : List (Option ListEntry))
      → map decode_row (encode_blob_function vectors entries)
        ≡ map rounded_row (map (read_entry vectors) entries)
  unfolding encode_blob_function
  decode_rows-encode vectors [] = refl
  decode_rows-encode vectors (entry ∷ entries) =
      rw (decode-encode_row (read_entry vectors entry), decode_rows-encode vectors entries)

  -- Decoding the encoded rows gives the rows back, each float rounded to its value and scale.
  pub decode_blob_function-encode :
      (vectors : Buffer F) (entries : List (Option ListEntry)) (child : Buffer F)
      → let r = decode_blob_function (encode_blob_function vectors entries) child in
        map (read_entry r.child_data) r.list_entries
        ≡ map rounded_row (map (read_entry vectors) entries)
  decode_blob_function-encode vectors entries child =
      decode_rows-read (encode_blob_function vectors entries) 0 child
      ∙ decode_rows-encode vectors entries
