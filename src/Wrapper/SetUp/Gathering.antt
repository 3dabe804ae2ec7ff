-- ===== src/Wrapper/SetUp/Gathering.antt =====
-- The loop over the positions of a cluster.
use pdxearch.Prelude.{
  ℕ, zero, suc, ◌+◌, ◌*◌, ◌≤◌, ◌<◌, ◌≡◌, refl, ap, ◌∙◌, inl, inr, arith, List, ◌==◌, for_up, Buffer,
  get_or, advance, Bool-cases, le_or_lt,
}
use pdxearch.Layout.Assign.{Eigen}
use pdxearch.Computers.{Arithmetic}
use pdxearch.Kernel.Float.{Float}
use pdxearch.Quantizer.{Scaling, ScalarQuantizationParams, quantize_value}
use pdxearch.Quantizer.Order.{quantize_embedding_lem, quantize_embedding_rest}
use pdxearch.Wrapper.{place_embedding}
use pdxearch.Wrapper.SetUp.{Gathered, gather_embedding}

module _ {ℓ} {F : Type ℓ} ⦃f : Float F⦄ ⦃ops : Arithmetic F⦄ ⦃scaling : Scaling F⦄ ⦃eigen : Eigen ℕ⦄
    (key : ℕ → ℕ) (num_dimensions : ℕ) (row_ids : Buffer ℕ) (embeddings : Buffer F)
    (params : ScalarQuantizationParams F) (fresh : ℕ → Buffer ℕ) where
  module _ (assignment : List ℕ) (c : ℕ) (s : Gathered) where
    abbrev pub gathered : ℕ → Gathered
    gathered n =
        for_up n (gather_embedding key num_dimensions row_ids embeddings params fresh assignment c)
          s

    pub gathered-maps :
        (n : ℕ) → (gathered n).maps ≡ for_up n (place_embedding key row_ids assignment c) s.maps
    unfolding for_up
    gathered-maps zero = refl
    gathered-maps (suc n) = ap (place_embedding key row_ids assignment c n) (gathered-maps n)

    pub gathered-clusters : (n : ℕ) → (gathered n).clusters ≡ s.clusters
    unfolding for_up
    gathered-clusters zero = refl
    gathered-clusters (suc n) = gathered-clusters n

    -- The quantized values of the gathered embeddings, row by row.
    pub gathered-tmp :
        (n p d : ℕ)
        → p < n
        → d < num_dimensions
        → (gathered n).tmp_cluster_embeddings (p * num_dimensions + d)
          ≡ quantize_value params (embeddings (get_or assignment p 0 * num_dimensions + d))
    unfolding for_up
    gathered-tmp zero p d lt hd = absurd (omega arith)
    gathered-tmp (suc n) p d lt hd = elim (Bool-cases (n == p)) [
      | inl last ↦
          let e : n ≡ p = ground arith in
          rw e (
            quantize_embedding_lem (advance embeddings (get_or assignment p 0 * num_dimensions))
              params (gathered p).tmp_cluster_embeddings (p * num_dimensions) num_dimensions d hd)
      | inr earlier ↦
          let before : p < n = ground arith in
          let fits = rows_apart p n num_dimensions before in
          quantize_embedding_rest (advance embeddings (get_or assignment n 0 * num_dimensions))
            params (gathered n).tmp_cluster_embeddings (n * num_dimensions) num_dimensions
            (p * num_dimensions + d) (inl (omega arith))
          ∙ gathered-tmp n p d before hd
    ]
      where
        rows_apart : (p n d : ℕ) → p < n → p * d + d ≤ n * d
        rows_apart p zero d lt = absurd (omega arith)
        rows_apart p (suc n) d lt =
            let e : suc n * d ≡ n * d + d = omega arith in
            elim (le_or_lt n p) [
              | inl past ↦ let same : p ≡ n = omega arith in rw (e, same) (omega arith)
              | inr below ↦ omega (arith, rows_apart p n d below)
            ]
