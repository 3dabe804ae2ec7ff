-- ===== src/Prelude/Loops.antt =====
-- Counted loops, buffers, and what a buffer holds.
use Prim.Native.Nat.{ℕ, zero, suc, ◌+◌, ◌*◌, ◌<◌}
use mathlib.Core.Path.{◌≡◌, refl}
use mathlib.Core.List.{List, [], ◌∷◌, ◌++◌}
use native.Mathlib.Omega.{arith}
use pdxearch.Prelude.Tests.{◌==◌, if◌then◌else◌}
use pdxearch.Prelude.Lists.{length, length-append}

-- `for (i = 0; i < n; i++) s = body(i, s);`
unfoldable pub for_up {ℓ} : {S : Type ℓ} → ℕ → (ℕ → S → S) → S → S
for_up zero body s = s
for_up (suc n) body s = body n (for_up n body s)

-- The invariant rule of the counted loop.
pub for_up_inv {ℓ κ} :
    {S : Type ℓ} (P : ℕ → S → Type κ) (body : ℕ → S → S) (n : ℕ) (s : S)
    → P 0 s
    → ((i : ℕ) (t : S) → i < n → P i t → P (suc i) (body i t))
    → P n (for_up n body s)
unfolding for_up
for_up_inv P body zero s h keep = h
for_up_inv P body (suc n) s h keep =
    keep n (for_up n body s) (omega arith)
      (for_up_inv P body n s h (λ i t lt. keep i t (omega arith)))

-- An allocation or a pointer into one, as the values at the indices from it.
abbrev pub Buffer {ℓ} : Type ℓ → Type ℓ
Buffer A = ℕ → A

module _ {ℓ} {A : Type ℓ} where
  -- `buffer[i] = v`
  abbrev pub write : Buffer A → ℕ → A → Buffer A
  write b i v j = if i == j then v else b j

  -- `buffer + offset`
  abbrev pub advance : Buffer A → ℕ → Buffer A
  advance b offset j = b (offset + j)

  -- The first `n` values.
  unfoldable pub prefix : ℕ → Buffer A → List A
  prefix zero b = []
  prefix (suc n) b = prefix n b ++ b n ∷ []

  pub length-prefix : (n : ℕ) (b : Buffer A) → length (prefix n b) ≡ n
  unfolding prefix
  length-prefix zero b = refl
  length-prefix (suc n) b = omega (arith, length-append (prefix n b) (b n ∷ []), length-prefix n b)

  pub prefix-congr :
      (n : ℕ) (b c : Buffer A) → ((i : ℕ) → i < n → b i ≡ c i) → prefix n b ≡ prefix n c
  unfolding prefix
  prefix-congr zero b c h = refl
  prefix-congr (suc n) b c h =
      ground (arith, prefix-congr n b c (λ i lt. h i (omega arith)), h n (omega arith))

  pub prefix-write : (n : ℕ) (b : Buffer A) (v : A) → prefix n (write b n v) ≡ prefix n b
  prefix-write n b v = prefix-congr n (write b n v) b (λ i lt. ground arith)

-- The sum of `f i` for i < n.
unfoldable pub sum_below : ℕ → (ℕ → ℕ) → ℕ
sum_below zero f = 0
sum_below (suc n) f = sum_below n f + f n

pub sum_below-congr :
    (n : ℕ) (f g : ℕ → ℕ) → ((i : ℕ) → i < n → f i ≡ g i) → sum_below n f ≡ sum_below n g
unfolding sum_below
sum_below-congr zero f g h = refl
sum_below-congr (suc n) f g h =
    omega (arith, sum_below-congr n f g (λ i lt. h i (omega arith)), h n (omega arith))

pub sum_below-add :
    (m n : ℕ) (f : ℕ → ℕ) → sum_below (m + n) f ≡ sum_below m f + sum_below n (λ i. f (m + i))
unfolding sum_below
sum_below-add m zero f = let e : m + 0 ≡ m = omega arith in rw e (omega arith)
sum_below-add m (suc n) f =
    let e : m + suc n ≡ suc (m + n) = omega arith in rw e (omega (arith, sum_below-add m n f))

-- A sum in groups of four.
pub sum_below-groups :
    (n : ℕ) (f : ℕ → ℕ)
    → sum_below (n * 4) f
      ≡ sum_below n (λ j. f (j * 4) + f (j * 4 + 1) + f (j * 4 + 2) + f (j * 4 + 3))
unfolding sum_below
sum_below-groups zero f = refl
sum_below-groups (suc n) f =
    let e : suc n * 4 ≡ n * 4 + 4 = omega arith in
    rw (e, sum_below-add (n * 4) 4 f) (rw (sum_below-groups n f) (four (n * 4) f))
  where
    four :
        (m : ℕ) (f : ℕ → ℕ)
        → sum_below n (λ j. f (j * 4) + f (j * 4 + 1) + f (j * 4 + 2) + f (j * 4 + 3))
            + sum_below 4 (λ i. f (m + i))
          ≡ sum_below n (λ j. f (j * 4) + f (j * 4 + 1) + f (j * 4 + 2) + f (j * 4 + 3))
            + (f m + f (m + 1) + f (m + 2) + f (m + 3))
    four m f = let e : m + 0 ≡ m = omega arith in rw e (omega arith)

pub sum_below-zero : (f : ℕ → ℕ) → sum_below 0 f ≡ 0
unfolding sum_below
sum_below-zero f = refl
