-- ===== src/Quantizer.antt =====
-- src/include/pdxearch/quantizers/scalar.hpp: the quantization of embeddings to bytes, and the
-- normalization of a query. The build without AVX512, where the greatest value is 255.
pub mod Order
use pdxearch.Prelude.{
  ℕ, suc, ◌+◌, ◌%◌, ◌^◌, Bool, ltb, if◌then◌else◌, for_up, Buffer, write, ℤ, pos, negsuc,
}
use pdxearch.Computers.{Arithmetic}
use pdxearch.Kernel.Float.{Float}

-- What the quantizer does with floats besides. `round_to_int` is `static_cast<int>(std::round(x))`.
pub record Scaling {ℓ} (F : Type ℓ) : Type ℓ where
  pub minimum : F → F → F
  pub maximum : F → F → F
  -- `std::numeric_limits<float>::lowest()`
  pub lowest : F
  pub divide : F → F → F
  pub square_root : F → F
  pub round_to_int : F → ℤ

-- `ScalarQuantizationParams`
pub record ScalarQuantizationParams {ℓ} (F : Type ℓ) : Type ℓ where
  pub quantization_base : F
  pub quantization_scale : F

-- `MAX_VALUE`
abbrev pub max_value : ℕ
max_value = 255

-- What is stored for a rounded value.
abbrev pub clamp_to_byte : ℤ → ℕ
clamp_to_byte (pos n) = if ltb max_value n then max_value else n % 2 ^ 8
clamp_to_byte (negsuc n) = 0

module _ {ℓ} {F : Type ℓ} ⦃f : Float F⦄ ⦃ops : Arithmetic F⦄ ⦃scaling : Scaling F⦄ where
  -- `ComputeQuantizationParams`
  unfoldable pub compute_quantization_params :
      (embeddings : Buffer F) → (total_elements : ℕ) → ScalarQuantizationParams F
  compute_quantization_params embeddings total_elements =
      let global_min = for_up total_elements (λ i m. scaling.minimum m (embeddings i)) f.greatest in
      let global_max =
        for_up total_elements (λ i m. scaling.maximum m (embeddings i)) scaling.lowest in
      let range = ops.sub global_max global_min in
      record {
        quantization_base = global_min;
        quantization_scale =
            if f.lt ops.nought range then scaling.divide (f.of_u32 max_value) range else f.one;
      }

  -- One round of the loop of `QuantizeEmbedding`.
  abbrev pub quantize_value : ScalarQuantizationParams F → F → ℕ
  quantize_value params x = clamp_to_byte (
      scaling.round_to_int (ops.mul (ops.sub x params.quantization_base) params.quantization_scale))

  -- `QuantizeEmbedding`, which writes from `offset` on.
  unfoldable pub quantize_embedding :
      (num_dimensions : ℕ)
      → Buffer F
      → ScalarQuantizationParams F
      → (output : Buffer ℕ) → (offset : ℕ) → Buffer ℕ
  quantize_embedding num_dimensions embedding params output offset =
      for_up num_dimensions (λ i b. write b (offset + i) (quantize_value params (embedding i)))
        output

  -- `NormalizeQuery`. A query whose squares sum up to 0 leaves the output as it is.
  unfoldable pub normalize_query : (num_dimensions : ℕ) → (src out : Buffer F) → Buffer F
  normalize_query num_dimensions src out =
      let sum = for_up num_dimensions (λ i s. ops.add s (ops.mul (src i) (src i))) ops.nought in
      let norm = scaling.square_root sum in
      if f.eq sum ops.nought
      then out
      else for_up num_dimensions (λ i b. write b i (scaling.divide (src i) norm)) out
