-- ===== src/Layout/Assign.antt =====
-- What the layout uses of Eigen: the element-wise assignment of a matrix expression to a row-major
-- `Eigen::Map` over memory. `block`, `leftCols` and `transpose` are views, written as functions of
-- row and column.
use pdxearch.Prelude.{
  ℕ, ◌+◌, ◌-◌, ◌*◌, ◌/◌, ◌%◌, ◌≤◌, ◌<◌, ◌≡◌, ltb, leb, if◌then◌else◌, Buffer, arith,
}

abbrev pub Matrix {ℓ} : Type ℓ → Type ℓ
Matrix A = ℕ → ℕ → A

pub record Eigen {ℓ} (A : Type ℓ) : Type ℓ where
  -- `Map(buffer + offset, rows, cols) = m`
  pub assign : Buffer A → ℕ → ℕ → ℕ → Matrix A → Buffer A

-- The assignment writes each entry of the matrix to its row-major place and nothing else.
pub record IsAssignment {ℓ} (A : Type ℓ) ⦃eigen : Eigen A⦄ : Type ℓ where
  pub inside :
      (b : Buffer A) (offset rows cols : ℕ) (m : Matrix A) (i j : ℕ)
      → i < rows
      → j < cols
      → eigen.assign b offset rows cols m (offset + (i * cols + j)) ≡ m i j
  pub below :
      (b : Buffer A) (offset rows cols : ℕ) (m : Matrix A) (k : ℕ)
      → k < offset
      → eigen.assign b offset rows cols m k ≡ b k
  pub above :
      (b : Buffer A) (offset rows cols : ℕ) (m : Matrix A) (k : ℕ)
      → offset + rows * cols ≤ k
      → eigen.assign b offset rows cols m k ≡ b k

-- The laws can be met.
instance abbrev pub direct : {A : Type 0} → Eigen A
direct = record {
  assign = λ b offset rows cols m k.
      if leb offset k
      then (if ltb k (offset + rows * cols)
          then m ((k - offset) / cols) ((k - offset) % cols)
          else b k)
      else b k;
}

row_of : (i j cols : ℕ) → j < cols → (i * cols + j) / cols ≡ i
row_of i j cols h = grind arith

column_of : (i j cols : ℕ) → j < cols → (i * cols + j) % cols ≡ j
column_of i j cols h = grind arith

end_of : (i j rows cols : ℕ) → i < rows → j < cols → i * cols + j < rows * cols
end_of i j rows cols hi hj = grind arith

pub direct-IsAssignment : {A : Type 0} → IsAssignment A
direct-IsAssignment = record {
  inside = λ b offset rows cols m i j hi hj.
      ground (arith, row_of i j cols hj, column_of i j cols hj, end_of i j rows cols hi hj);
  below = λ b offset rows cols m k h. ground arith;
  above = λ b offset rows cols m k h. ground arith;
}
