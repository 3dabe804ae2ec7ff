-- ===== src/Dimensions.antt =====
-- src/include/pdxearch/common.hpp: the constants of the PDX layout and how the dimensions of an
-- embedding are divided into a vertical and a horizontal part.
pub mod Split
pub mod Fetching
use pdxearch.Prelude.{
  ℕ, zero, suc, ◌+◌, ◌-◌, ◌*◌, ◌/◌, ◌%◌, ◌^◌, Bool, true, false, List, [], ◌∷◌, ltb, leb, ◌==◌,
  if◌then◌else◌,
}

-- `H_DIM_SIZE`
abbrev pub h_dim_size : ℕ
h_dim_size = 64

-- `U8_INTERLEAVE_SIZE`
abbrev pub u8_interleave_size : ℕ
u8_interleave_size = 4

-- `PDX_MAX_DIMS`
abbrev pub pdx_max_dims : ℕ
pdx_max_dims = 16_384

-- `DIMENSIONS_FETCHING_SIZES`
abbrev pub dimensions_fetching_sizes : List ℕ
dimensions_fetching_sizes =
    16 ∷ 16 ∷ 32 ∷ 32 ∷ 32 ∷ 32 ∷ 64 ∷ 64 ∷ 64 ∷ 64 ∷ 128 ∷ 128 ∷ 128 ∷ 128 ∷ 256 ∷ 256 ∷ 512 ∷ 1024
    ∷ 2048 ∷ 16_384 ∷ []

-- The loop of `AllFetchingSizesMultipleOfU8InterleaveSize`, with its early return.
unfoldable pub all_fetching_sizes_multiple_of_u8_interleave_size : List ℕ → Bool
all_fetching_sizes_multiple_of_u8_interleave_size [] = true
all_fetching_sizes_multiple_of_u8_interleave_size (s ∷ sizes) =
    let rest = all_fetching_sizes_multiple_of_u8_interleave_size sizes in
    if s % u8_interleave_size == 0 then rest else false

-- `uint32_t` subtraction.
abbrev pub sub32 : ℕ → ℕ → ℕ
sub32 a b = (a + 2 ^ 32 - b) % 2 ^ 32

-- `PDXDimensionSplit`
pub record DimensionSplit : Type 0 where
  pub horizontal_dimensions : ℕ
  pub vertical_dimensions : ℕ

-- The truncated product of the number of dimensions and the proportion, 0.25 up to 128 dimensions
-- and 0.75 above. The float product is exact up to `pdx_max_dims`.
abbrev pub horizontal_share : ℕ → ℕ
horizontal_share n = if leb n 128 then n / 4 else 3 * n / 4

-- `GetPDXDimensionSplit`, assignment by assignment.
unfoldable pub get_pdx_dimension_split : ℕ → DimensionSplit
get_pdx_dimension_split n =
    let h0 = horizontal_share n in
    let ragged = ltb 0 (h0 % h_dim_size) in
    let h1 = if ragged then (h0 + h_dim_size / 2) / h_dim_size * h_dim_size else h0 in
    let v1 = sub32 n h1 in
    let h2 = if v1 == 0 then h_dim_size else h1 in
    let v2 = if v1 == 0 then sub32 n h_dim_size else v1 in
    if leb n h_dim_size
    then record { horizontal_dimensions = 0; vertical_dimensions = n }
    else record { horizontal_dimensions = h2; vertical_dimensions = v2 }
