-- ===== src/Quantizer/Order.antt =====
-- What `QuantizeEmbedding` writes.
use pdxearch.Prelude.{
  ℕ, zero, suc, ◌+◌, ◌≤◌, ◌<◌, ◌≡◌, refl, for_up, inl, inr, arith, ◌==◌, Buffer, ℤ, pos, negsuc,
  Bool-cases, ◌⊎◌, false,
}
use pdxearch.Computers.{Arithmetic}
use pdxearch.Kernel.Float.{Float}
use pdxearch.Quantizer.{
  Scaling, ScalarQuantizationParams, clamp_to_byte, quantize_value, quantize_embedding,
}

infix 4 ◌≤ℤ◌
abbrev pub ◌≤ℤ◌ : ℤ → ℤ → Type 0
◌≤ℤ◌ (pos m) (pos n) = m ≤ n
◌≤ℤ◌ (pos m) (negsuc n) = 1 ≤ 0
◌≤ℤ◌ (negsuc m) (pos n) = Unit
◌≤ℤ◌ (negsuc m) (negsuc n) = n ≤ m

-- What IEEE 754 says of the operations, where no value is NaN and the results fit: none of them turns
-- the order around.
pub record IsMonotone {ℓ} (F : Type ℓ) ⦃f : Float F⦄ ⦃ops : Arithmetic F⦄ ⦃scaling : Scaling F⦄
    : Type ℓ where
  pub sub_mono : (x y b : F) → f.lt y x ≡ false → f.lt (ops.sub y b) (ops.sub x b) ≡ false
  pub mul_mono :
      (x y s : F)
      → f.lt s ops.nought ≡ false
      → f.lt y x ≡ false
      → f.lt (ops.mul y s) (ops.mul x s) ≡ false
  pub round_mono : (x y : F) → f.lt y x ≡ false → scaling.round_to_int x ≤ℤ scaling.round_to_int y

clamp-byte : (z : ℤ) → clamp_to_byte z < 256
clamp-byte (pos n) = ground arith
clamp-byte (negsuc n) = omega arith

pub quantize_value-byte {ℓ} :
    {F : Type ℓ} ⦃f : Float F⦄ ⦃ops : Arithmetic F⦄ ⦃scaling : Scaling F⦄
    (params : ScalarQuantizationParams F) (x : F)
    → quantize_value params x < 256
quantize_value-byte ⦃f⦄ ⦃ops⦄ ⦃scaling⦄ params x =
    clamp-byte (
      scaling.round_to_int (ops.mul (ops.sub x params.quantization_base) params.quantization_scale))

clamp_mono : (a b : ℤ) → a ≤ℤ b → clamp_to_byte a ≤ clamp_to_byte b
clamp_mono (pos m) (pos n) h = ground arith
clamp_mono (pos m) (negsuc n) h = absurd (omega arith)
clamp_mono (negsuc m) b h = omega arith

module _ {ℓ} {F : Type ℓ} ⦃f : Float F⦄ ⦃ops : Arithmetic F⦄ ⦃scaling : Scaling F⦄
    (embedding : Buffer F) (params : ScalarQuantizationParams F) (output : Buffer ℕ)
    (offset : ℕ) where
  pub quantize_embedding_lem :
      (num_dimensions i : ℕ)
      → i < num_dimensions
      → quantize_embedding num_dimensions embedding params output offset (offset + i)
        ≡ quantize_value params (embedding i)
  unfolding quantize_embedding for_up
  quantize_embedding_lem zero i lt = absurd (omega arith)
  quantize_embedding_lem (suc n) i lt = elim (Bool-cases (n == i)) [
    | inl last ↦ let e : n ≡ i = ground arith in rw e (ground arith)
    | inr earlier ↦
        let other : (offset + n == offset + i) ≡ false = ground arith in
        rw other (quantize_embedding_lem n i (ground arith))
  ]

  pub quantize_embedding_rest :
      (num_dimensions j : ℕ)
      → (j < offset) ⊎ (offset + num_dimensions ≤ j)
      → quantize_embedding num_dimensions embedding params output offset j ≡ output j
  unfolding quantize_embedding for_up
  quantize_embedding_rest zero j h = refl
  quantize_embedding_rest (suc n) j h =
      let other : (offset + n == j) ≡ false = elim h [
        | inl low ↦ ground arith
        | inr high ↦ ground arith
      ] in
      rw other
        (quantize_embedding_rest n j (elim h [ inl low ↦ inl low | inr high ↦ inr (omega arith) ]))

  -- A buffer of bytes stays one.
  pub quantize_embedding-byte :
      (num_dimensions j : ℕ)
      → (output j < 256)
      → quantize_embedding num_dimensions embedding params output offset j < 256
  unfolding quantize_embedding for_up
  quantize_embedding-byte zero j h = h
  quantize_embedding-byte (suc n) j h =
      let value = quantize_value-byte params (embedding n) in
      elim (Bool-cases (offset + n == j)) [
        | inl here ↦ rw here value
        | inr away ↦ rw away (quantize_embedding-byte n j h)
      ]

  -- The quantized values of an embedding are bytes in the order of its values, and what is stored
  -- before and behind it stays. The scale is not negative and the operations keep the order.
  pub quantize_embedding-monotone :
      IsMonotone F
      → (num_dimensions i j rest : ℕ) → i < num_dimensions
      → j < num_dimensions
      → (rest < offset) ⊎ (offset + num_dimensions ≤ rest)
      → f.lt params.quantization_scale ops.nought ≡ false
      → f.lt (embedding j) (embedding i) ≡ false
      → let q = quantize_embedding num_dimensions embedding params output offset in
        (q (offset + i) ≤ q (offset + j)) × (q (offset + j) < 256) × (q rest ≡ output rest)
  quantize_embedding-monotone laws n i j rest hi hj out scale le =
      let at_i = quantize_embedding_lem n i hi in
      let at_j = quantize_embedding_lem n j hj in
      let base = params.quantization_base in
      let ordered = clamp_mono _ _ (
        laws.round_mono _ _ (
          laws.mul_mono _ _ params.quantization_scale scale
            (laws.sub_mono (embedding i) (embedding j) base le))) in
      let small = quantize_value-byte params (embedding j) in
      (rw (at_i, at_j) ordered, rw at_j small, quantize_embedding_rest n rest out)
