-- ===== src/Preprocess/Each.antt =====
-- Embeddings that are preprocessed together are preprocessed one by one.
use pdxearch.Prelude.{
  ℕ, zero, suc, ◌+◌, ◌-◌, ◌*◌, ◌≤◌, ◌<◌, ◌≡◌, ◌⊎◌, refl, ap, sym, ◌∙◌, inl, inr, arith, Bool, true,
  false, ltb, leb, ◌&&◌, ◌==◌, if◌then◌else◌, for_up, Buffer, advance, write, Bool-cases,
}
use pdxearch.Computers.{Arithmetic}
use pdxearch.Kernel.Float.{Float}
use pdxearch.Quantizer.{Scaling, normalize_query}
use pdxearch.Preprocess.{
  Blas, IsRowwise, overwrite, normalize_embedding, preprocess_embedding, preprocess_embeddings,
}

module _ {ℓ} {A : Type ℓ} (b : Buffer A) (offset n : ℕ) (values : Buffer A) where
  pub overwrite-inside : (i : ℕ) → i < n → overwrite b offset n values (offset + i) ≡ values i
  overwrite-inside i lt =
      let e : offset + i - offset ≡ i = omega arith in
      let in_range : (leb offset (offset + i) && ltb (offset + i) (offset + n)) ≡ true =
        ground arith in
      rw in_range (ap values e)

  pub overwrite-outside :
      (k : ℕ) → (k < offset) ⊎ (offset + n ≤ k) → overwrite b offset n values k ≡ b k
  overwrite-outside k out =
      let away : (leb offset k && ltb k (offset + n)) ≡ false = ground arith in rw away refl

-- Row v ends before row w starts.
pub rows_apart : (d v w j : ℕ) → v < w → j < d → v * d + j < w * d
rows_apart d v zero j lt hj = absurd (omega arith)
rows_apart d v (suc w) j lt hj = elim (Bool-cases (v == w)) [
  | inl same ↦ let e : v ≡ w = ground arith in rw e (omega arith)
  | inr away ↦ omega (arith, rows_apart d v w j (ground arith) hj)
]

outside : (v n j d : ℕ) → (v == n) ≡ false → j < d → (v * d + j < n * d) ⊎ (n * d + d ≤ v * d + j)
outside v n j d away hj = elim (Bool-cases (ltb v n)) [
  | inl before ↦ inl (rows_apart d v n j (ground arith) hj)
  | inr behind ↦ inr (omega (arith, rows_apart d n v (d - 1) (ground arith) (omega arith)))
]

module _ {ℓ} {A : Type ℓ} where
  written :
      (d : ℕ) (g : ℕ → A) (out : Buffer A) (i : ℕ)
      → i < d
      → for_up d (λ k b. write b k (g k)) out i ≡ g i
  unfolding for_up
  written zero g out i lt = absurd (omega arith)
  written (suc d) g out i lt = elim (Bool-cases (d == i)) [
    | inl last ↦ let e : d ≡ i = ground arith in rw last (ap g e)
    | inr earlier ↦ rw earlier (written d g out i (ground arith))
  ]

module _ {ℓ} {F : Type ℓ} ⦃f : Float F⦄ ⦃ops : Arithmetic F⦄ ⦃scaling : Scaling F⦄ (d : ℕ) where
  sum_of_squares-congr :
      (n : ℕ) (b c : Buffer F)
      → ((j : ℕ) → j < n → b j ≡ c j)
      → for_up n (λ i s. ops.add s (ops.mul (b i) (b i))) ops.nought
        ≡ for_up n (λ i s. ops.add s (ops.mul (c i) (c i))) ops.nought
  unfolding for_up
  sum_of_squares-congr zero b c h = refl
  sum_of_squares-congr (suc n) b c h =
      rw (sum_of_squares-congr n b c (λ j lt. h j (omega arith)), h n (omega arith)) refl

  -- The normalization in place reads the values of the embedding alone.
  normalize_query-congr :
      (b c : Buffer F) (i : ℕ)
      → i < d
      → ((j : ℕ) → j < d → b j ≡ c j)
      → normalize_query d b b i ≡ normalize_query d c c i
  unfolding normalize_query
  normalize_query-congr b c i lt h =
      let sum = for_up d (λ k s. ops.add s (ops.mul (c k) (c k))) ops.nought in
      rw (sum_of_squares-congr d b c h) (elim (Bool-cases (f.eq sum ops.nought)) [
        | inl zero_norm ↦ rw zero_norm (h i lt)
        | inr some_norm ↦
            let norm = scaling.square_root sum in
            rw some_norm (
              written d (λ k. scaling.divide (b k) norm) b i lt
              ∙ ap (λ y. scaling.divide y norm) (h i lt)
              ∙ sym (written d (λ k. scaling.divide (c k) norm) c i lt))
      ])

module _ {ℓ} {F : Type ℓ} ⦃f : Float F⦄ ⦃ops : Arithmetic F⦄ ⦃scaling : Scaling F⦄ (blas : Blas F)
    (d : ℕ) where
  -- After the loop up to n, the rows below n are normalized and the others are as they were.
  normalized_row :
      (n v j : ℕ) (b : Buffer F)
      → j < d
      → for_up n (normalize_embedding blas d) b (v * d + j) ≡ (
          if ltb v n
          then normalize_query d (advance b (v * d)) (advance b (v * d)) j
          else b (v * d + j))
  unfolding for_up
  normalized_row zero v j b hj = ground arith
  normalized_row (suc n) v j b hj =
      let before = for_up n (normalize_embedding blas d) b in
      let values = normalize_query d (advance before (n * d)) (advance before (n * d)) in
      elim (Bool-cases (v == n)) [
        | inl here ↦
            let e : v ≡ n = ground arith in
            let now : ltb n (suc n) ≡ true = ground arith in
            let not_yet : ltb n n ≡ false = ground arith in
            rw (e, now)
              (overwrite-inside before (n * d) d values j hj
                ∙ normalize_query-congr d (advance before (n * d)) (advance b (n * d)) j hj
                    (λ k lt. normalized_row n n k b lt ∙ rw not_yet refl))
        | inr away ↦
            let keep : ltb v (suc n) ≡ ltb v n = ground arith in
            rw keep (
              overwrite-outside before (n * d) d values (v * d + j)
                (outside v n j d (ground arith) hj)
              ∙ normalized_row n v j b hj)
      ]

  abbrev all_normalized : Bool → ℕ → Buffer F → Buffer F
  all_normalized normalize n b = if normalize then for_up n (normalize_embedding blas d) b else b

  abbrev normalized : Bool → Buffer F → Buffer F
  normalized normalize b = if normalize then normalize_query d b b else b

  all_normalized-row :
      (normalize : Bool) (n v j : ℕ) (b : Buffer F)
      → v < n
      → j < d
      → all_normalized normalize n b (v * d + j) ≡ normalized normalize (advance b (v * d)) j
  all_normalized-row false n v j b hv hj = refl
  all_normalized-row true n v j b hv hj =
      let below : ltb v n ≡ true = ground arith in normalized_row n v j b hj ∙ rw below refl

  normalized-congr :
      (normalize : Bool) (b c : Buffer F) (i : ℕ)
      → i < d
      → ((j : ℕ) → j < d → b j ≡ c j)
      → normalized normalize b i ≡ normalized normalize c i
  normalized-congr false b c i lt h = h i lt
  normalized-congr true b c i lt h = normalize_query-congr d b c i lt h

  -- An embedding is preprocessed by its values alone.
  pub preprocess_embedding-congr :
      IsRowwise blas
      → (normalize : Bool) (b c : Buffer F) (i : ℕ) → i < d
      → ((j : ℕ) → j < d → b j ≡ c j)
      → preprocess_embedding blas d b normalize i ≡ preprocess_embedding blas d c normalize i
  unfolding preprocess_embedding
  preprocess_embedding-congr rows normalize b c i lt h =
      let start : (k : ℕ) → 0 * d + k ≡ k = λ k. omega arith in
      ap (blas.sgemm d 1 (normalized normalize b)) (sym (start i))
      ∙ rows.row d 1 0 i (normalized normalize b) (normalized normalize c) (omega arith) lt
          (λ j hj. ap (normalized normalize b) (start j) ∙ normalized-congr normalize b c j hj h)

  pub preprocess_embeddings-rest :
      (input output : Buffer F) (offset n rest : ℕ) (normalize : Bool)
      → (rest < offset) ⊎ (offset + n * d ≤ rest)
      → preprocess_embeddings blas d input output offset n normalize rest ≡ output rest
  unfolding preprocess_embeddings
  preprocess_embeddings-rest input output offset n rest normalize away =
      overwrite-outside output offset (n * d) (blas.sgemm d n (all_normalized normalize n input))
        rest away

  -- The rows of a chunk that are preprocessed together are those that `PreprocessEmbedding` makes of
  -- each embedding alone, and what is stored before and behind them stays, for a matrix product whose
  -- rows are the products of the rows.
  pub preprocess_embeddings-each :
      IsRowwise blas
      → (input output : Buffer F) (offset n v i rest : ℕ) (normalize : Bool) → v < n
      → i < d
      → (rest < offset) ⊎ (offset + n * d ≤ rest)
      → let out = preprocess_embeddings blas d input output offset n normalize in
        (out (offset + (v * d + i))
          ≡ preprocess_embedding blas d (advance input (v * d)) normalize i)
        × (out rest ≡ output rest)
  unfolding preprocess_embeddings preprocess_embedding
  preprocess_embeddings-each rows input output offset n v i rest normalize hv hi away =
      let inside : v * d + i < n * d = rows_apart d v n i hv hi in
      (
        overwrite-inside output offset (n * d) (blas.sgemm d n (all_normalized normalize n input))
              (v * d + i) inside
            ∙ rows.row d n v i (all_normalized normalize n input)
                (normalized normalize (advance input (v * d))) hv hi
                (λ j hj. all_normalized-row normalize n v j input hv hj),
        preprocess_embeddings-rest input output offset n rest normalize away,
      )
