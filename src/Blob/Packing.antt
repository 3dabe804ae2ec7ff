-- ===== src/Blob/Packing.antt =====
-- Values and scales in 16 bits: src/include/index/pdxearch_blob_codec.hpp.
use pdxearch.Prelude.{
  ℕ, zero, suc, ◌+◌, ◌^◌, ◌<◌, ◌≡◌, refl, ◌⊎◌, inl, inr, arith, true, false, ℤ, pos, negsuc,
  Bool-cases,
}
use pdxearch.Blob.{
  Scales, is_14_bit, clamp, pack, scale_selector, quantized_value, encode_from,
  encode_float_to_int16,
}

pack-lt : (q : ℤ) (x : ℕ) → pack q x < 2 ^ 16
unfolding pack
pack-lt (pos n) x = omega arith
pack-lt (negsuc n) x = omega arith

pub quantized_value-pack :
    (q : ℤ) (x : ℕ) → is_14_bit q ≡ true → x < 4 → quantized_value (pack q x) ≡ q
unfolding pack quantized_value
quantized_value-pack (pos n) x h l = ground arith
quantized_value-pack (negsuc n) x h l = ground arith

pub scale_selector-pack :
    (q : ℤ) (x : ℕ) → is_14_bit q ≡ true → x < 4 → scale_selector (pack q x) ≡ x
unfolding pack scale_selector
scale_selector-pack (pos n) x h l = ground arith
scale_selector-pack (negsuc n) x h l = ground arith

clamp-is_14_bit : (q : ℤ) → is_14_bit (clamp q) ≡ true
clamp-is_14_bit (pos n) = ground arith
clamp-is_14_bit (negsuc n) = ground arith

lt_or_last : (y x : ℕ) → y < suc x → (y < x) ⊎ (y ≡ x)
lt_or_last y x l = omega arith

module _ {ℓ} {F : Type ℓ} (scales : Scales F) where
  -- The value and the scale that stand for a float: the smallest scale at which it fits, and the
  -- nearest value at the largest one if it fits at none.
  pub record IsEncoded (v : F) (q : ℤ) (x : ℕ) : Type 0 where
    pub scale_lt : x < 4
    pub fits : is_14_bit q ≡ true
    pub smallest : (y : ℕ) → y < x → is_14_bit (scales.round_scaled v y) ≡ false
    pub nearest :
        (scales.round_scaled v x ≡ q)
        ⊎ ((x ≡ 3)
            × (is_14_bit (scales.round_scaled v 3) ≡ false)
            × (q ≡ clamp (scales.round_scaled v 3)))

  -- The value and the scale that are read back from an encoding.
  abbrev ReadBack : F → ℕ → Type 0
  ReadBack v e = IsEncoded v (quantized_value e) (scale_selector e)

  pack-IsEncoded : (v : F) (q : ℤ) (x : ℕ) → IsEncoded v q x → ReadBack v (pack q x)
  pack-IsEncoded v q x h =
      rw (quantized_value-pack q x h.fits h.scale_lt, scale_selector-pack q x h.fits h.scale_lt) h

  below_suc :
      (v : F) (x : ℕ)
      → ((y : ℕ) → y < x → is_14_bit (scales.round_scaled v y) ≡ false)
      → is_14_bit (scales.round_scaled v x) ≡ false
      → (y : ℕ) → y < suc x
      → is_14_bit (scales.round_scaled v y) ≡ false
  below_suc v x small large y l = elim (lt_or_last y x l) [
    | inl below ↦ small y below
    | inr last ↦ rw last large
  ]

  encode_from-IsEncoded :
      (v : F) (x n : ℕ)
      → x + n ≡ 4
      → ((y : ℕ) → y < x → is_14_bit (scales.round_scaled v y) ≡ false)
      → ReadBack v (encode_from scales x n v)
  unfolding encode_from
  encode_from-IsEncoded v x zero e small =
      pack-IsEncoded v (clamp (scales.round_scaled v 3)) 3 (record {
        scale_lt = omega arith;
        fits = clamp-is_14_bit (scales.round_scaled v 3);
        smallest = λ y l. small y (omega arith);
        nearest = inr (refl, small 3 (omega arith), refl);
      })
  encode_from-IsEncoded v x (suc n) e small =
      elim (Bool-cases (is_14_bit (scales.round_scaled v x))) [
        | inl fits ↦ rw fits (
            pack-IsEncoded v (scales.round_scaled v x) x (record {
              scale_lt = omega arith;
              fits = fits;
              smallest = small;
              nearest = inl refl;
            }))
        | inr large ↦
            rw large (encode_from-IsEncoded v (suc x) n (omega arith) (below_suc v x small large))
      ]

  -- Reading an encoded float gives back its value and its scale.
  pub encode_float-IsEncoded :
      (v : F)
      → IsEncoded v
          (quantized_value (encode_float_to_int16 scales v))
          (scale_selector (encode_float_to_int16 scales v))
  encode_float-IsEncoded v = encode_from-IsEncoded v 0 4 refl (λ y l. absurd (omega arith))
