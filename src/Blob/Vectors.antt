-- ===== src/Blob/Vectors.antt =====
-- Whole vectors in blobs: src/include/index/pdxearch_blob_codec.hpp.
use pdxearch.Prelude.{ℕ, ◌+◌, ◌*◌, ◌/◌, ◌%◌, ◌≡◌, refl, arith, List, [], ◌∷◌, map, length}
use pdxearch.Blob.{
  Scales, encode_float_to_int16, decode_int16_to_float, encode_float_array_to_blob,
  decode_blob_to_float_array, blob_dimension_count,
}

two_bytes : (e : ℕ) → e % 256 + 256 * (e / 256) ≡ e
two_bytes e = omega arith

module _ {ℓ} {F : Type ℓ} (scales : Scales F) where
  -- What is left of a float when it is encoded and decoded.
  abbrev pub rounded : F → F
  rounded v = decode_int16_to_float scales (encode_float_to_int16 scales v)

  pub decode-encode :
      (vs : List F)
      → decode_blob_to_float_array scales (encode_float_array_to_blob scales vs) ≡ map rounded vs
  unfolding decode_blob_to_float_array encode_float_array_to_blob
  decode-encode [] = refl
  decode-encode (v ∷ vs) = rw (two_bytes (encode_float_to_int16 scales v), decode-encode vs)

  pub blob_dimension_count-encode :
      (vs : List F)
      → blob_dimension_count (length (encode_float_array_to_blob scales vs)) ≡ length vs
  unfolding encode_float_array_to_blob
  blob_dimension_count-encode [] = omega arith
  blob_dimension_count-encode (v ∷ vs) = omega (arith, blob_dimension_count-encode vs)

  pub length-decode :
      (bytes : List ℕ)
      → length (decode_blob_to_float_array scales bytes) ≡ blob_dimension_count (length bytes)
  unfolding decode_blob_to_float_array
  length-decode [] = omega arith
  length-decode (b ∷ []) = omega arith
  length-decode (lo ∷ hi ∷ bytes) = omega (arith, length-decode bytes)
