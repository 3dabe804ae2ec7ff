-- ===== src/Blob.antt =====
-- The codec of src/include/index/pdxearch_blob_codec.hpp: vectors of floats as blobs, in 14 bits and a
-- scale for each float.
pub mod Packing
pub mod Vectors
pub mod Rows
pub mod Distance
use pdxearch.Prelude.{
  ℕ, zero, suc, ◌+◌, ◌-◌, ◌*◌, ◌/◌, ◌%◌, ◌^◌, Bool, true, false, ◌&&◌, List, [], ◌∷◌, ◌++◌, ltb,
  leb, if◌then◌else◌, ℤ, pos, negsuc, length,
}

-- The arithmetic on floats, rounded: `round(value * BLOB_INV_SCALE[x])` as an `int32_t`, and
-- `q * BLOB_SCALE[x]`.
pub record Scales {ℓ} (F : Type ℓ) : Type ℓ where
  pub round_scaled : F → ℕ → ℤ
  pub scale : ℤ → ℕ → F

-- `q >= -8192 && q <= 8191`
abbrev pub is_14_bit : ℤ → Bool
is_14_bit (pos n) = leb n 8191
is_14_bit (negsuc n) = leb (suc n) 8192

-- The test of the range after the loop.
abbrev pub clamp : ℤ → ℤ
clamp (pos n) = if ltb 8191 n then pos 8191 else pos n
clamp (negsuc n) = if ltb 8192 (suc n) then negsuc 8191 else negsuc n

-- `(q << 2) | x` as an `int16_t`, given by its 16 bits.
unfoldable pub pack : ℤ → ℕ → ℕ
pack (pos n) x = (4 * n + x) % 2 ^ 16
pack (negsuc n) x = (2 ^ 16 - 4 * suc n % 2 ^ 16 + x) % 2 ^ 16

-- `encoded & 3`, and the arithmetic shift `encoded >> 2`.
unfoldable pub scale_selector : ℕ → ℕ
scale_selector encoded = encoded % 4

unfoldable pub quantized_value : ℕ → ℤ
quantized_value encoded =
    if ltb encoded (2 ^ 15) then pos (encoded / 4) else negsuc ((2 ^ 16 - 1 - encoded) / 4)

module _ {ℓ} {F : Type ℓ} (scales : Scales F) where
  -- The loop of `EncodeFloatToInt16` from scale `x` on, `n` scales more.
  unfoldable pub encode_from : ℕ → ℕ → F → ℕ
  encode_from x zero value = pack (clamp (scales.round_scaled value 3)) 3
  encode_from x (suc n) value =
      let q = scales.round_scaled value x in
      let rest = encode_from (suc x) n value in if is_14_bit q then pack q x else rest

  -- `EncodeFloatToInt16`
  abbrev pub encode_float_to_int16 : F → ℕ
  encode_float_to_int16 = encode_from 0 4

  -- `DecodeInt16ToFloat`
  abbrev pub decode_int16_to_float : ℕ → F
  decode_int16_to_float encoded = scales.scale (quantized_value encoded) (scale_selector encoded)

  -- `EncodeFloatArrayToBlob`: each `int16_t` is two bytes, the lower one first.
  unfoldable pub encode_float_array_to_blob : List F → List ℕ
  encode_float_array_to_blob [] = []
  encode_float_array_to_blob (v ∷ vs) =
      let e = encode_float_to_int16 v in e % 256 ∷ e / 256 ∷ encode_float_array_to_blob vs

  -- `DecodeBlobToFloatArray`, for `blob_size / 2` elements: a last odd byte is not read.
  unfoldable pub decode_blob_to_float_array : List ℕ → List F
  decode_blob_to_float_array (lo ∷ hi ∷ bytes) =
      decode_int16_to_float (lo + 256 * hi) ∷ decode_blob_to_float_array bytes
  decode_blob_to_float_array _ = []

-- `BlobDimensionCount`
abbrev pub blob_dimension_count : ℕ → ℕ
blob_dimension_count blob_byte_size = blob_byte_size / 2
