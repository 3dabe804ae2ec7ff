-- ===== src/Computers/Reference.antt =====
-- The U8 kernels on a stored cluster against the squared Euclidean distance.
use pdxearch.Prelude.{
  ℕ, ◌+◌, ◌-◌, ◌*◌, ◌/◌, ◌%◌, ◌^◌, ◌≤◌, ◌<◌, ◌≡◌, ap, sym, ◌∙◌, ◌⊎◌, inl, inr, arith, Buffer,
  prefix, sum_below, sum_below-congr, sum_below-add, sum_below-groups,
}
use mathlib.Core.Path.{ap₂}
use native.Mathlib.Nat.{add-zero}
use pdxearch.Computers.{sq_diff, vertical_u8, horizontal_u8}
use pdxearch.Computers.Visit.{count}
use pdxearch.Computers.Distances.{
  vertical_sum, group_sum, tail_sum, vertical_u8_listed, horizontal_u8_lem,
}

-- `block` holds `n` embeddings with `V` vertical dimensions in the U8 layout; `x v d` is dimension d
-- of embedding v.
pub record IsStored (V H n : ℕ) (block : Buffer ℕ) (x : ℕ → ℕ → ℕ) : Type 0 where
  pub group :
      (g v k : ℕ) → g < V / 4 → v < n → k < 4 → block (g * 4 * n + (v * 4 + k)) ≡ x v (g * 4 + k)
  pub tail :
      (v k : ℕ)
      → v < n
      → k < V % 4
      → block (V / 4 * 4 * n + (v * (V - V / 4 * 4) + k)) ≡ x v (V / 4 * 4 + k)
  pub horizontal :
      (r v k : ℕ)
      → r < (H + 63) / 64
      → v < n
      → k < 64
      → block (n * V + (r * (n * 64) + (v * 64 + k))) ≡ x v (V + r * 64 + k)

-- The squared distance of query and embedding over the dimensions from `lo` on, `len` of them.
abbrev pub squares : (q x : ℕ → ℕ) (lo len : ℕ) → ℕ
squares q x lo len = sum_below len (λ i. sq_diff (q (lo + i)) (x (lo + i)))

-- A range of vertical dimensions that the kernel can read: it starts with a group of four, and ends
-- with one or at the end of the vertical part.
pub record IsRange (V start end : ℕ) : Type 0 where
  pub starts : start % 4 ≡ 0
  pub ordered : start ≤ end
  pub ends_by : end ≤ V
  pub ends : (end % 4 ≡ 0) ⊎ (end ≡ V)

module _ (V H n : ℕ) (q block : Buffer ℕ) (x : ℕ → ℕ → ℕ) (stored : IsStored V H n block x)
    (m start end : ℕ) (range : IsRange V start end) (positions : Buffer ℕ) (v : ℕ)
    (in_cluster : v < n) where
  abbrev square : ℕ → ℕ
  square i = sq_diff (q (start + i)) (x v (start + i))

  read_group :
      (j k : ℕ)
      → j < (end - start) / 4
      → k < 4
      → block ((start + j * 4) * n + (v * 4 + k)) ≡ x v (start + (j * 4 + k))
  read_group j k hj hk =
      let r = range in
      let low = r.ends_by in
      let whole = r.starts in
      let e : start + j * 4 ≡ (start / 4 + j) * 4 = omega arith in
      let e' : (start / 4 + j) * 4 + k ≡ start + (j * 4 + k) = omega arith in
      ap (λ t. block (t * n + (v * 4 + k))) e
      ∙ stored.group (start / 4 + j) v k (omega arith) in_cluster hk
      ∙ ap (x v) e'

  group_term :
      (j k : ℕ)
      → j < (end - start) / 4
      → k < 4
      → sq_diff (q (start + j * 4 + k)) (block ((start + j * 4) * n + v * 4 + k))
        ≡ square (j * 4 + k)
  group_term j k hj hk =
      let a : start + j * 4 + k ≡ start + (j * 4 + k) = omega arith in
      let b : (start + j * 4) * n + v * 4 + k ≡ (start + j * 4) * n + (v * 4 + k) = omega arith in
      ap₂ sq_diff (ap q a) (ap block b ∙ read_group j k hj hk)

  group_sum_lem :
      (j : ℕ)
      → j < (end - start) / 4
      → group_sum q block m n start end positions v j
        ≡ square (j * 4) + square (j * 4 + 1) + square (j * 4 + 2) + square (j * 4 + 3)
  group_sum_lem j hj = omega (
    arith,
    simp add-zero at (group_term j 0 hj (omega arith)),
    group_term j 1 hj (omega arith),
    group_term j 2 hj (omega arith),
    group_term j 3 hj (omega arith),
  )

  -- The tail is read only where the range ends with the vertical part.
  tail_lem :
      (k : ℕ)
      → k < end - start - (end - start) / 4 * 4
      → tail_sum q block m n start end positions v
          (start + (end - start) / 4 * 4)
          (end - start - (end - start) / 4 * 4)
          k
        ≡ square ((end - start) / 4 * 4 + k)
  tail_lem k hk =
      let r = range in
      let whole = r.starts in
      let last : end ≡ V = last_part in
      let dim : start + (end - start) / 4 * 4 ≡ V / 4 * 4 = omega arith in
      let rest : end - start - (end - start) / 4 * 4 ≡ V - V / 4 * 4 = omega arith in
      let here : V / 4 * 4 + k ≡ start + ((end - start) / 4 * 4 + k) = omega arith in
      let a : start + (end - start) / 4 * 4 + k ≡ start + ((end - start) / 4 * 4 + k) =
        omega arith in
      let b : (V / 4 * 4) * n + v * (V - V / 4 * 4) + k
          ≡ V / 4 * 4 * n + (v * (V - V / 4 * 4) + k) =
        omega arith in
      ap₂ sq_diff (ap q a) (
        ap₂ (λ s t. block (s * n + v * t + k)) dim rest
        ∙ ap block b
        ∙ stored.tail v k in_cluster (omega arith)
        ∙ ap (x v) here)
    where
      last_part : end ≡ V
      last_part =
          let r = range in
          elim r.ends [ inl e ↦ let whole = r.starts in absurd (omega arith) | inr e ↦ e ]

  vertical_sum-squares :
      vertical_sum q block m n start end positions v ≡ squares q (x v) start (end - start)
  vertical_sum-squares =
      let g = (end - start) / 4 in
      let groups : sum_below g (group_sum q block m n start end positions v)
          ≡ sum_below (g * 4) square =
        sum_below-congr g _ _ group_sum_lem ∙ sym (sum_below-groups g square) in
      let tails = sum_below-congr (end - start - g * 4) _ _ tail_lem in
      let whole : g * 4 + (end - start - g * 4) ≡ end - start = omega arith in
      ap₂ (λ (s t : ℕ). s + t) groups tails
      ∙ sym (sum_below-add (g * 4) (end - start - g * 4) square)
      ∙ ap (λ t. sum_below t square) whole

  -- `Vertical` over a range of the vertical dimensions adds to a listed embedding its squared
  -- distance over these dimensions, modulo 2^32.
  pub vertical_u8-squares :
      (d : Buffer ℕ)
      → count v (prefix m positions) ≡ 1
      → d v < 2 ^ 32
      → vertical_u8 q block m n start end positions d v
        ≡ (d v + squares q (x v) start (end - start)) % 2 ^ 32
  vertical_u8-squares d once small =
      let r = range in
      vertical_u8_listed q block m n start end positions v d once small r.ordered
      ∙ ap (λ t. (d v + t) % 2 ^ 32) vertical_sum-squares

-- `Horizontal` on a block of 64 is the squared distance over its dimensions, modulo 2^32.
pub horizontal_u8-squares :
    (V H n : ℕ) (q block : Buffer ℕ) (x : ℕ → ℕ → ℕ) (stored : IsStored V H n block x) (r v : ℕ)
    → r < (H + 63) / 64
    → v < n
    → horizontal_u8 (λ i. q (V + r * 64 + i)) (λ i. block (n * V + r * 64 * n + v * 64 + i)) 64
      ≡ squares q (x v) (V + r * 64) 64 % 2 ^ 32
horizontal_u8-squares V H n q block x stored r v hr hv =
    horizontal_u8_lem _ _ 64
    ∙ ap (λ t. t % 2 ^ 32)
        (sum_below-congr 64 _ _ λ i lt.
          let e : n * V + r * 64 * n + v * 64 + i ≡ n * V + (r * (n * 64) + (v * 64 + i)) =
            omega arith in
          ap (sq_diff (q (V + r * 64 + i))) (ap block e ∙ stored.horizontal r v i hr hv lt))
