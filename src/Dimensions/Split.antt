-- ===== src/Dimensions/Split.antt =====
-- The dimension split is a partition into whole horizontal blocks and a vertical rest.
use pdxearch.Prelude.{ℕ, ◌+◌, ◌*◌, ◌%◌, ◌≤◌, ◌<◌, ◌≡◌, arith}
use pdxearch.Dimensions.{DimensionSplit, pdx_max_dims, h_dim_size, get_pdx_dimension_split}

-- What the layout needs of a split of `n` dimensions.
pub record IsSplit (n : ℕ) (s : DimensionSplit) : Type 0 where
  pub total : s.horizontal_dimensions + s.vertical_dimensions ≡ n
  pub whole_blocks : s.horizontal_dimensions % h_dim_size ≡ 0
  pub some_vertical : 0 < s.vertical_dimensions

-- For every number of dimensions from 1 up to the limit of an index, the horizontal and the
-- vertical part add up to it (the assertion at the end of the function), the horizontal part is a
-- whole number of blocks of 64, and the vertical part is not empty.
pub get_pdx_dimension_split-IsSplit :
    (n : ℕ) → 0 < n → n ≤ pdx_max_dims → IsSplit n (get_pdx_dimension_split n)
unfolding get_pdx_dimension_split
get_pdx_dimension_split-IsSplit n pos h = ground arith

-- Above 128 dimensions the horizontal part is within half a block of three quarters of them.
pub horizontal_near :
    (n : ℕ)
    → 128 < n
    → n ≤ pdx_max_dims
    → let h = (get_pdx_dimension_split n).horizontal_dimensions in
      (4 * h ≤ 3 * n + 128) × (3 * n ≤ 4 * h + 131)
unfolding get_pdx_dimension_split
horizontal_near n lo hi = ground arith
