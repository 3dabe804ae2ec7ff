-- ===== src/Computers/Distances.antt =====
-- The value of each distance after a call of the U8 kernels.
use pdxearch.Prelude.{
  ℕ, zero, suc, ◌+◌, ◌-◌, ◌*◌, ◌/◌, ◌%◌, ◌^◌, ◌≤◌, ◌<◌, ◌≡◌, refl, ap, ◌∙◌, inl, inr, arith, ltb,
  for_up, Buffer, prefix, Bool-cases, sum_below, sum_below-zero,
}
use pdxearch.Computers.{touch, add32, sq_diff, group_of_four, vertical_u8, horizontal_u8}
use pdxearch.Computers.Visit.{count, touch_listed, touch_unlisted}

accumulate :
    (n a : ℕ) (s : ℕ → ℕ)
    → a < 2 ^ 32
    → for_up n (λ j acc. add32 acc (s j)) a ≡ (a + sum_below n s) % 2 ^ 32
unfolding for_up sum_below
accumulate zero a s h = omega arith
accumulate (suc n) a s h = omega (arith, accumulate n a s h)

pub horizontal_u8_lem :
    (a b : Buffer ℕ) (n : ℕ) → horizontal_u8 a b n ≡ sum_below n (λ i. sq_diff (a i) (b i)) % 2 ^ 32
unfolding horizontal_u8
horizontal_u8_lem a b n =
    accumulate n 0 (λ i. sq_diff (a i) (b i)) (omega arith) ∙ ap (λ t. t % 2 ^ 32) (omega arith)

-- What the tail adds for one vector.
abbrev tail_step : (q block : Buffer ℕ) (n dim remaining : ℕ) → ℕ → ℕ → ℕ
tail_step q block n dim remaining v a =
    for_up remaining (λ k s. add32 s (sq_diff (q (dim + k)) (block (dim * n + v * remaining + k))))
      a

module _ (q block : Buffer ℕ) (m n start end : ℕ) (positions : Buffer ℕ) (v : ℕ) where
  abbrev pub group_sum : ℕ → ℕ
  group_sum j = group_of_four q block (start + j * 4) ((start + j * 4) * n) v

  abbrev pub tail_sum : (dim remaining k : ℕ) → ℕ
  tail_sum dim remaining k = sq_diff (q (dim + k)) (block (dim * n + v * remaining + k))

  abbrev grouped : ℕ → Buffer ℕ → Buffer ℕ
  grouped g d =
      for_up g
        (λ j b.
          touch m positions
            (λ v a. add32 a (group_of_four q block (start + j * 4) ((start + j * 4) * n) v)) b)
        d

  grouped_listed :
      (g : ℕ) (d : Buffer ℕ)
      → count v (prefix m positions) ≡ 1
      → grouped g d v ≡ for_up g (λ j a. add32 a (group_sum j)) (d v)
  unfolding for_up
  grouped_listed zero d h = refl
  grouped_listed (suc g) d h =
      touch_listed (λ v a. add32 a (group_of_four q block (start + g * 4) ((start + g * 4) * n) v))
        positions v (grouped g d) m h
      ∙ ap (λ t. add32 t (group_sum g)) (grouped_listed g d h)

  grouped_unlisted : (g : ℕ) (d : Buffer ℕ) → count v (prefix m positions) ≡ 0 → grouped g d v ≡ d v
  unfolding for_up
  grouped_unlisted zero d h = refl
  grouped_unlisted (suc g) d h =
      touch_unlisted
        (λ v a. add32 a (group_of_four q block (start + g * 4) ((start + g * 4) * n) v)) positions v
        (grouped g d) m h
      ∙ grouped_unlisted g d h

  -- `Vertical` leaves the distance of every embedding that it is not given.
  pub vertical_u8_unlisted :
      (d : Buffer ℕ)
      → count v (prefix m positions) ≡ 0
      → vertical_u8 q block m n start end positions d v ≡ d v
  unfolding vertical_u8
  vertical_u8_unlisted d h =
      let g = (end - start) / 4 in
      elim (Bool-cases (ltb (start + g * 4) end)) [
        | inl e ↦ rw e (
            touch_unlisted (tail_step q block n (start + g * 4) (end - (start + g * 4))) positions v
              (grouped g d) m h
            ∙ grouped_unlisted g d h)
        | inr e ↦ rw e (grouped_unlisted g d h)
      ]

  -- The sum that `Vertical` adds to a listed embedding.
  abbrev pub vertical_sum : ℕ
  vertical_sum =
      let g = (end - start) / 4 in
      sum_below g group_sum
      + sum_below (end - start - g * 4) (tail_sum (start + g * 4) (end - start - g * 4))

  pub vertical_u8_listed :
      (d : Buffer ℕ)
      → count v (prefix m positions) ≡ 1
      → d v < 2 ^ 32
      → start ≤ end
      → vertical_u8 q block m n start end positions d v ≡ (d v + vertical_sum) % 2 ^ 32
  unfolding vertical_u8
  vertical_u8_listed d h small le =
      let g = (end - start) / 4 in
      let dim = start + g * 4 in
      let first : grouped g d v ≡ (d v + sum_below g group_sum) % 2 ^ 32 =
        grouped_listed g d h ∙ accumulate g (d v) group_sum small in
      let same : end - dim ≡ end - start - g * 4 = omega arith in
      elim (Bool-cases (ltb dim end)) [
        | inl e ↦ rw e (
            touch_listed (tail_step q block n dim (end - dim)) positions v (grouped g d) m h
            ∙ accumulate (end - dim) (grouped g d v) (tail_sum dim (end - dim))
                (rw first (omega arith))
            ∙ rw (first, same) (omega arith))
        | inr e ↦
            let none_left : end - start - g * 4 ≡ 0 = ground arith in
            rw e (rw none_left (first ∙ omega (arith, sum_below-zero (tail_sum dim 0))))
      ]
