-- ===== src/Dimensions/Fetching.antt =====
-- The table of fetching sizes.
use pdxearch.Prelude.{ℕ, ◌+◌, ◌%◌, ◌≡◌, refl, true, List, [], ◌∷◌, All, arith}
use pdxearch.Dimensions.{
  dimensions_fetching_sizes, all_fetching_sizes_multiple_of_u8_interleave_size, u8_interleave_size,
}

abbrev pub sum : List ℕ → ℕ
sum [] = 0
sum (x ∷ xs) = x + sum xs

abbrev pub IsInterleaved : ℕ → Type 0
IsInterleaved s = s % u8_interleave_size ≡ 0

-- The check that the build makes implies the property it is named for, on every table.
pub multiples-of_check :
    (sizes : List ℕ)
    → all_fetching_sizes_multiple_of_u8_interleave_size sizes ≡ true
    → All IsInterleaved sizes
unfolding all_fetching_sizes_multiple_of_u8_interleave_size
multiples-of_check [] h = tt
multiples-of_check (s ∷ sizes) h = ground (arith, multiples-of_check sizes)

pub fetching_sizes-IsInterleaved : All IsInterleaved dimensions_fetching_sizes
unfolding all_fetching_sizes_multiple_of_u8_interleave_size
fetching_sizes-IsInterleaved = multiples-of_check dimensions_fetching_sizes refl

pub sum-fetching_sizes : sum dimensions_fetching_sizes ≡ 21_408
sum-fetching_sizes = refl
