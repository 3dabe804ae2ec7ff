-- ===== src/Computers.antt =====
-- src/include/pdxearch/distance_computers/scalar_computers.hpp: the scalar distance computers, which
-- the build uses where there is no SIMD version.
pub mod Visit
pub mod Distances
pub mod Reference
use pdxearch.Prelude.{
  ℕ, zero, suc, ◌+◌, ◌-◌, ◌*◌, ◌/◌, ◌%◌, ◌^◌, ltb, if◌then◌else◌, for_up, Buffer, write,
}

-- `uint32_t` addition.
abbrev pub add32 : ℕ → ℕ → ℕ
add32 a b = (a + b) % 2 ^ 32

-- The square of the `int` difference of two bytes. One of the two truncated differences is 0 and the
-- other its magnitude.
unfoldable pub sq_diff : ℕ → ℕ → ℕ
sq_diff a b = (a - b + (b - a)) * (a - b + (b - a))

-- The inner loop of every vertical kernel: each of the first `n` positions, in order, gets a new
-- distance from its old one.
abbrev pub touch {ℓ} : {D : Type ℓ} → ℕ → Buffer ℕ → (ℕ → D → D) → Buffer D → Buffer D
touch n positions f d =
    for_up n (λ i b. write b (positions i) (f (positions i) (b (positions i)))) d

-- The four squares that one round adds for one vector.
abbrev pub group_of_four : Buffer ℕ → Buffer ℕ → (dim offset v : ℕ) → ℕ
group_of_four query block dim offset v =
    sq_diff (query dim) (block (offset + v * 4))
    + sq_diff (query (dim + 1)) (block (offset + v * 4 + 1))
    + sq_diff (query (dim + 2)) (block (offset + v * 4 + 2))
    + sq_diff (query (dim + 3)) (block (offset + v * 4 + 3))

-- `ScalarComputer<L2SQ, U8>::Vertical`. `SKIP_PRUNED` is the choice of `positions`: the pruning
-- positions, or the identity for `Vertical<false>`.
unfoldable pub vertical_u8 :
    Buffer ℕ → Buffer ℕ → (n total start end : ℕ) → Buffer ℕ → Buffer ℕ → Buffer ℕ
vertical_u8 query block n total start end positions d =
    let groups = (end - start) / 4 in
    let dim_idx = start + groups * 4 in
    let grouped =
      for_up groups
        (λ j b.
          touch n positions
            (λ v a. add32 a (group_of_four query block (start + j * 4) ((start + j * 4) * total) v))
            b)
        d in
    let remaining = end - dim_idx in
    if ltb dim_idx end
    then touch n positions
        (λ v a.
          for_up remaining
            (λ k s.
              add32 s (sq_diff (query (dim_idx + k)) (block (dim_idx * total + v * remaining + k))))
            a)
        grouped
    else grouped

-- `ScalarComputer<L2SQ, U8>::Horizontal`
unfoldable pub horizontal_u8 : Buffer ℕ → Buffer ℕ → ℕ → ℕ
horizontal_u8 vector1 vector2 num_dimensions =
    for_up num_dimensions (λ i distance. add32 distance (sq_diff (vector1 i) (vector2 i))) 0

-- What the F32 computers do with floats.
pub record Arithmetic {ℓ} (F : Type ℓ) : Type ℓ where
  pub nought : F
  pub add : F → F → F
  pub sub : F → F → F
  pub mul : F → F → F

module _ {ℓ} {F : Type ℓ} ⦃ops : Arithmetic F⦄ where
  open ops use {nought, add, sub, mul}

  -- `distance += to_multiply * to_multiply`
  abbrev pub add_square : F → F → F → F
  add_square distance a b = let to_multiply = sub a b in add distance (mul to_multiply to_multiply)

  -- `ScalarComputer<L2SQ, F32>::Vertical`
  unfoldable pub vertical_f32 :
      Buffer F → Buffer F → (n total start end : ℕ) → Buffer ℕ → Buffer F → Buffer F
  vertical_f32 query block n total start end positions d =
      for_up (end - start)
        (λ j b.
          touch n positions
            (λ v a. add_square a (query (start + j)) (block ((start + j) * total + v))) b)
        d

  -- `ScalarComputer<L2SQ, F32>::Horizontal`
  unfoldable pub horizontal_f32 : Buffer F → Buffer F → ℕ → F
  horizontal_f32 vector1 vector2 num_dimensions =
      for_up num_dimensions (λ i distance. add_square distance (vector1 i) (vector2 i)) nought
