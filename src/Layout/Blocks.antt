-- ===== src/Layout/Blocks.antt =====
-- Consecutive blocks of equal size, assigned one after the other.
use pdxearch.Prelude.{
  ℕ, zero, suc, ◌+◌, ◌*◌, ◌≤◌, ◌<◌, ◌≡◌, inl, inr, refl, ◌∙◌, arith, for_up, Buffer, le_or_lt,
}
use pdxearch.Layout.Assign.{Eigen, Matrix, IsAssignment}

-- An entry of one block lies in front of every later block.
pub before_block :
    (g r i j n cols : ℕ)
    → g < r
    → i < n
    → j < cols
    → g * (n * cols) + (i * cols + j) < r * (n * cols)
before_block g r i j n cols hg hi hj = grind arith

module _ {ℓ} {A : Type ℓ} ⦃eigen : Eigen A⦄ where
  abbrev pub store_blocks : (base n cols r : ℕ) → (ℕ → Matrix A) → Buffer A → Buffer A
  store_blocks base n cols r m =
      for_up r (λ g out. eigen.assign out (base + g * (n * cols)) n cols (m g))

  module _ (laws : IsAssignment A) (base n cols : ℕ) (m : ℕ → Matrix A) (b : Buffer A) where
    pub store_blocks_inside :
        (r g i j : ℕ)
        → g < r
        → i < n
        → j < cols
        → store_blocks base n cols r m b (base + (g * (n * cols) + (i * cols + j))) ≡ m g i j
    unfolding for_up
    store_blocks_inside zero g i j hg hi hj = absurd (omega arith)
    store_blocks_inside (suc r) g i j hg hi hj =
        let at = base + r * (n * cols) in
        elim (le_or_lt r g) [
          | inl last ↦
              let same : g ≡ r = omega arith in
              let place : base + (r * (n * cols) + (i * cols + j)) ≡ at + (i * cols + j) =
                omega arith in
              rw (same, place) (laws.inside _ at n cols (m r) i j hi hj)
          | inr early ↦
              laws.below _ at n cols (m r) _
                (omega (arith, before_block g r i j n cols early hi hj))
              ∙ store_blocks_inside r g i j early hi hj
        ]

    pub store_blocks_below : (r k : ℕ) → k < base → store_blocks base n cols r m b k ≡ b k
    unfolding for_up
    store_blocks_below zero k h = refl
    store_blocks_below (suc r) k h =
        laws.below _ (base + r * (n * cols)) n cols (m r) k (omega arith) ∙ store_blocks_below r k h

    pub store_blocks_above :
        (r k : ℕ) → base + r * (n * cols) ≤ k → store_blocks base n cols r m b k ≡ b k
    unfolding for_up
    store_blocks_above zero k h = refl
    store_blocks_above (suc r) k h =
        laws.above _ (base + r * (n * cols)) n cols (m r) k (omega arith)
        ∙ store_blocks_above r k (omega arith)
