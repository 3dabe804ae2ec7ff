-- ===== src/Tests/Blobs.antt =====
-- Encoded vectors at small inputs.
use pdxearch.Prelude.{
  ℕ, ◌+◌, ◌*◌, ◌/◌, ◌^◌, ◌≡◌, refl, List, [], ◌∷◌, Option, none, some, map, ℤ, pos, negsuc, Buffer,
  length,
}
use pdxearch.Blob.{
  Scales, encode_float_to_int16, quantized_value, scale_selector, encode_from, pack,
}
use pdxearch.Blob.Packing.{IsEncoded, encode_float-IsEncoded}
use pdxearch.Blob.Rows.{
  ListEntry, encode_blob_function, decode_blob_function, rounded_row, read_entry,
  decode_blob_function-encode,
}
use pdxearch.Blob.Distance.{
  blob_array_distance_execute, all_distances, first_mismatch, blob_array_distance_execute_lem,
}

-- Whole numbers in steps of 1, 10, 100 and 1000.
abbrev step : ℕ → ℕ
step x = 10 ^ x

abbrev whole_of : ℤ → ℕ
whole_of (pos n) = n
whole_of (negsuc n) = 0

abbrev pub whole_scales : Scales ℕ
whole_scales = record { round_scaled = λ v x. pos (v / step x); scale = λ q x. whole_of q * step x }

-- 20000 fits only in steps of 10.
encoded : encode_float_to_int16 whole_scales 20000 ≡ 4 * 2000 + 1
unfolding encode_from pack
encoded = refl

encode_float-IsEncoded_example :
    IsEncoded whole_scales 20000
      (quantized_value (encode_float_to_int16 whole_scales 20000))
      (scale_selector (encode_float_to_int16 whole_scales 20000))
encode_float-IsEncoded_example = encode_float-IsEncoded whole_scales 20000

abbrev squares_of : Buffer ℕ
squares_of i = i * i

-- A row, a NULL and an empty row.
abbrev entries : List (Option ListEntry)
entries =
    some (record { offset = 3; length = 2 }) ∷ none ∷ some (record { offset = 0; length = 0 }) ∷ []

decode_blob_function-encode_example :
    map
      (read_entry
        (decode_blob_function whole_scales
          (encode_blob_function whole_scales squares_of entries)
          squares_of).child_data)
      (decode_blob_function whole_scales
        (encode_blob_function whole_scales squares_of entries)
        squares_of).list_entries
    ≡ map (rounded_row whole_scales) (map (read_entry squares_of) entries)
decode_blob_function-encode_example =
    decode_blob_function-encode whole_scales squares_of entries squares_of

-- Some operation that does not depend on the order of its arguments.
abbrev total : List ℕ → List ℕ → ℕ → ℕ
total xs ys n = length xs + length ys + n

-- The second blob has one dimension, and the array two.
abbrev pairs : List (Option (List ℕ) × Option (List ℕ))
pairs = (some (4 ∷ 0 ∷ 8 ∷ 0 ∷ []), some (1 ∷ 2 ∷ [])) ∷ (some (4 ∷ 0 ∷ []), some (1 ∷ 2 ∷ [])) ∷ []

blob_array_distance_execute_lem_example :
    blob_array_distance_execute whole_scales total 2 pairs
    ≡ all_distances whole_scales total 2 pairs (first_mismatch whole_scales total 2 pairs)
blob_array_distance_execute_lem_example = blob_array_distance_execute_lem whole_scales total 2 pairs
