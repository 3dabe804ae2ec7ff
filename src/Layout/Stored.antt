-- ===== src/Layout/Stored.antt =====
-- Where the stored layout keeps each dimension of each embedding.
use pdxearch.Prelude.{
  ℕ, ◌+◌, ◌-◌, ◌*◌, ◌/◌, ◌%◌, ◌≤◌, ◌<◌, ◌≡◌, inl, inr, ap, ◌∙◌, arith, for_up, Buffer, Bool-cases,
  ltb,
}
use mathlib.Core.Path.{fun_ext}
use pdxearch.Dimensions.{h_dim_size, u8_interleave_size}
use pdxearch.Layout.Assign.{Eigen, Matrix, IsAssignment}
use pdxearch.Layout.Blocks.{
  store_blocks_inside, store_blocks_below, store_blocks_above, before_block,
}
use pdxearch.Layout.{
  input, store_horizontal, store_interleaved, store_tail, store_cluster_embeddings_u8,
}

pub end_of_block : (i j rows cols : ℕ) → i < rows → j < cols → i * cols + j < rows * cols
end_of_block i j rows cols hi hj = grind arith

mul_mono : (n a b : ℕ) → a ≤ b → n * a ≤ n * b
mul_mono n a b h = grind arith

module _ {ℓ} {A : Type ℓ} ⦃eigen : Eigen A⦄ where
  module _ (laws : IsAssignment A) (V H n : ℕ) (m : Matrix A) (b : Buffer A) where
    pub horizontal_inside :
        (r v k : ℕ)
        → r < (H + 63) / h_dim_size
        → v < n
        → k < h_dim_size
        → store_horizontal V H n m b (n * V + (r * (n * h_dim_size) + (v * h_dim_size + k)))
          ≡ m v (V + r * h_dim_size + k)
    unfolding store_horizontal
    horizontal_inside r v k hr hv hk =
        store_blocks_inside laws (n * V) n h_dim_size (λ g v k. m v (V + g * h_dim_size + k)) b
          ((H + 63) / h_dim_size) r v k hr hv hk

    pub horizontal_below : (k : ℕ) → k < n * V → store_horizontal V H n m b k ≡ b k
    unfolding store_horizontal
    horizontal_below k h =
        store_blocks_below laws (n * V) n h_dim_size (λ g v k. m v (V + g * h_dim_size + k)) b
          ((H + 63) / h_dim_size) k h

    interleaved_blocks : (ℕ → ℕ) → Buffer A
    interleaved_blocks offset =
        for_up (V / u8_interleave_size)
          (λ g out.
            eigen.assign out (offset g) n u8_interleave_size
              (λ v k. m v (g * u8_interleave_size + k)))
          b

    -- The groups are consecutive blocks.
    interleaved-blocks : store_interleaved V n m b ≡ interleaved_blocks (λ g. 0 + g * (n * 4))
    unfolding store_interleaved interleaved_blocks
    interleaved-blocks = ap interleaved_blocks (fun_ext (λ g. omega arith))

    interleaved_inside :
        (g v k : ℕ)
        → g < V / u8_interleave_size
        → v < n
        → k < u8_interleave_size
        → store_interleaved V n m b (0 + (g * (n * 4) + (v * 4 + k))) ≡ m v (g * 4 + k)
    unfolding interleaved_blocks
    interleaved_inside g v k hg hv hk =
        rw interleaved-blocks
          (store_blocks_inside laws 0 n 4 (λ g v k. m v (g * 4 + k)) b (V / 4) g v k hg hv hk)

    interleaved_above : (k : ℕ) → n * V ≤ k → store_interleaved V n m b k ≡ b k
    unfolding interleaved_blocks
    interleaved_above k h = rw interleaved-blocks (
        store_blocks_above laws 0 n 4 (λ g v k. m v (g * 4 + k)) b (V / 4) k
          (omega (arith, mul_mono n (V / 4 * 4) V (omega arith))))

    pub horizontal_above :
        (k : ℕ) → H % 64 ≡ 0 → n * (V + H) ≤ k → store_horizontal V H n m b k ≡ b k
    unfolding store_horizontal
    horizontal_above k whole h =
        store_blocks_above laws (n * V) n h_dim_size (λ g v k. m v (V + g * h_dim_size + k)) b
          ((H + 63) / h_dim_size) k (omega (arith, mul_mono n ((H + 63) / 64 * 64) H (omega arith)))

    tail_inside :
        (v k : ℕ)
        → v < n
        → k < V % 4
        → store_tail V n m b (V / 4 * 4 * n + (v * (V - V / 4 * 4) + k)) ≡ m v (V / 4 * 4 + k)
    unfolding store_tail
    tail_inside v k hv hk = elim (Bool-cases (ltb (V / 4 * 4) V)) [
      | inl e ↦ rw e (
          laws.inside b (V / 4 * 4 * n) n (V - V / 4 * 4) (λ v k. m v (V / 4 * 4 + k)) v k hv
            (omega arith))
      | inr e ↦ absurd (ground arith)
    ]

    tail_below : (k : ℕ) → k < V / 4 * 4 * n → store_tail V n m b k ≡ b k
    unfolding store_tail
    tail_below k h = elim (Bool-cases (ltb (V / 4 * 4) V)) [
      | inl e ↦ rw e (laws.below b (V / 4 * 4 * n) n (V - V / 4 * 4) _ k h)
      | inr e ↦ rw e
    ]

    tail_above : (k : ℕ) → n * V ≤ k → store_tail V n m b k ≡ b k
    unfolding store_tail
    tail_above k h =
        let whole : V / 4 * 4 + (V - V / 4 * 4) ≡ V = omega arith in
        let room : V / 4 * 4 * n + n * (V - V / 4 * 4) ≤ k =
          omega (arith, ap (λ (t : ℕ). n * t) whole) in
        elim (Bool-cases (ltb (V / 4 * 4) V)) [
          | inl e ↦ rw e (laws.above b (V / 4 * 4 * n) n (V - V / 4 * 4) _ k room)
          | inr e ↦ rw e
        ]

  module _ (laws : IsAssignment A) (V H D n : ℕ) (b embeddings : Buffer A) where
    abbrev stored_u8 : Buffer A
    stored_u8 = store_cluster_embeddings_u8 V H D b embeddings n

    abbrev m : Matrix A
    m = input embeddings D

    vertical_part : Buffer A
    vertical_part = store_tail V n m (store_interleaved V n m b)

    -- A group of four vertical dimensions: the four values of an embedding stand side by side.
    pub stored_u8-group :
        (g v k : ℕ)
        → g < V / 4
        → v < n
        → k < 4
        → stored_u8 (g * 4 * n + (v * 4 + k)) ≡ embeddings (v * D + (g * 4 + k))
    unfolding store_cluster_embeddings_u8 vertical_part
    stored_u8-group g v k hg hv hk =
        let inside : g * (n * 4) + (v * 4 + k) < V / 4 * (n * 4) =
          before_block g (V / 4) v k n 4 hg hv hk in
        let low : V / 4 * (n * 4) ≤ n * V = omega (arith, mul_mono n (V / 4 * 4) V (omega arith)) in
        let place : g * 4 * n + (v * 4 + k) ≡ 0 + (g * (n * 4) + (v * 4 + k)) = omega arith in
        rw place (
          horizontal_below laws V H n m vertical_part _ (omega arith)
          ∙ tail_below laws V H n m (store_interleaved V n m b) _ (omega arith)
          ∙ interleaved_inside laws V H n m b g v k hg hv hk)

    -- The compact tail of fewer than four vertical dimensions.
    pub stored_u8-tail :
        (v k : ℕ)
        → v < n
        → k < V % 4
        → stored_u8 (V / 4 * 4 * n + (v * (V - V / 4 * 4) + k))
          ≡ embeddings (v * D + (V / 4 * 4 + k))
    unfolding store_cluster_embeddings_u8 vertical_part
    stored_u8-tail v k hv hk =
        let whole : V / 4 * 4 + (V - V / 4 * 4) ≡ V = omega arith in
        let inside : v * (V - V / 4 * 4) + k < n * (V - V / 4 * 4) =
          end_of_block v k n (V - V / 4 * 4) hv (omega arith) in
        horizontal_below laws V H n m vertical_part _ (omega (arith, ap (λ (t : ℕ). n * t) whole))
        ∙ tail_inside laws V H n m (store_interleaved V n m b) v k hv hk

    -- A horizontal block keeps 64 values of an embedding side by side.
    pub stored_u8-horizontal :
        (r v k : ℕ)
        → r < (H + 63) / 64
        → v < n
        → k < 64
        → stored_u8 (n * V + (r * (n * 64) + (v * 64 + k))) ≡ embeddings (v * D + (V + r * 64 + k))
    unfolding store_cluster_embeddings_u8 vertical_part
    stored_u8-horizontal r v k = horizontal_inside laws V H n m vertical_part r v k

    -- Nothing is written behind the n * (V + H) values that the cluster allocates.
    pub stored_u8-above : (k : ℕ) → H % 64 ≡ 0 → n * (V + H) ≤ k → stored_u8 k ≡ b k
    unfolding store_cluster_embeddings_u8 vertical_part
    stored_u8-above k whole h =
        let low : n * V ≤ k = omega arith in
        horizontal_above laws V H n m vertical_part k whole h
        ∙ tail_above laws V H n m (store_interleaved V n m b) k low
        ∙ interleaved_above laws V H n m b k low
