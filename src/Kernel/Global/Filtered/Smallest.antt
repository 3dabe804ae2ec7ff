-- ===== src/Kernel/Global/Filtered/Smallest.antt =====
-- The first of the sorted embeddings in `FilteredStart` of src/include/pdxearch/pdxearch.hpp: with no
-- more of them than pass the filter, and masked distances behind all others, each passes.
use pdxearch.Prelude.{
  ℕ, zero, suc, ◌+◌, ◌≤◌, ◌<◌, ◌≡◌, ◌≢◌, inl, inr, Bool, true, false, List, [], ◌∷◌, ◌++◌, arith,
  ltb, ◌==◌, ◌&&◌, bit, if◌then◌else◌, select, length, length-take, take, prefix, Bool-cases,
  select-append,
}
use pdxearch.Computers.Visit.{count, count-range}
use pdxearch.Kernel.Global.{Sorting}
use pdxearch.Kernel.Positions.Compaction.{range}

-- `std::partial_sort` puts the smallest first.
pub record IsSelecting (sorting : Sorting) : Type 0 where
  pub smallest :
      (d : ℕ → ℕ) (n : ℕ) (xs : List ℕ) (u v : ℕ)
      → count u (take n (sorting.partial_sort (λ i1 i2. ltb (d i1) (d i2)) n xs)) ≢ 0
      → count v xs ≢ 0
      → count v (take n (sorting.partial_sort (λ i1 i2. ltb (d i1) (d i2)) n xs)) ≡ 0
      → d u ≤ d v

module _ (p : ℕ → Bool) where
  abbrev below : ℕ → List ℕ → ℕ
  below n ys = length (select (λ w. p w && ltb w n) ys)

  below-suc :
      (n : ℕ) (ys : List ℕ) → below (suc n) ys ≡ below n ys + (if p n then count n ys else 0)
  below-suc n [] = ground arith
  below-suc n (y ∷ ys) = elim (Bool-cases (y == n)) [
    | inl here ↦ let e : y ≡ n = ground arith in rw e (ground (arith, below-suc n ys))
    | inr away ↦ ground (arith, below-suc n ys)
  ]

  length-append-one :
      (b : Bool) (n : ℕ) (xs : List ℕ)
      → length (xs ++ (if b then n ∷ [] else [])) ≡ length xs + bit b
  length-append-one b n [] = ground arith
  length-append-one b n (x ∷ xs) = ground (arith, length-append-one b n xs)

  passing-suc :
      (n : ℕ) → length (select p (range (suc n))) ≡ length (select p (range n)) + bit (p n)
  unfolding prefix
  passing-suc n =
      rw (select-append p (range n) (n ∷ []))
        (ground (arith, length-append-one (p n) n (select p (range n))))

  -- A list with all that pass is at least as long as they are many.
  passing-le :
      (n : ℕ) (ys : List ℕ)
      → ((v : ℕ) → v < n → p v ≡ true → count v ys ≢ 0)
      → length (select p (range n)) ≤ below n ys
  unfolding prefix
  passing-le zero ys h = omega arith
  passing-le (suc n) ys h =
      let rest = passing-le n ys (λ v lt pv. h v (omega arith) pv) in
      elim (Bool-cases (p n)) [
        | inl pn ↦ ground (arith, passing-suc n, below-suc n ys, h n (omega arith) pn)
        | inr np ↦ ground (arith, passing-suc n, below-suc n ys)
      ]

  below-le : (n : ℕ) (ys : List ℕ) → below n ys ≤ length ys
  below-le n [] = omega arith
  below-le n (y ∷ ys) = ground (arith, below-le n ys)

  below-lt : (n u : ℕ) (ys : List ℕ) → p u ≡ false → count u ys ≢ 0 → below n ys < length ys
  below-lt n u [] e h = absurd (h (omega arith))
  below-lt n u (y ∷ ys) e h = elim (Bool-cases (y == u)) [
    | inl here ↦ let same : y ≡ u = ground arith in rw (same, e) (ground (arith, below-le n ys))
    | inr away ↦ ground (arith, below-lt n u ys e)
  ]

  -- Where everything that passes is nearer than what does not, the first m of the sorted embeddings
  -- pass, for m up to the number of those that pass.
  pub first-passing :
      (sorting : Sorting)
      → IsSelecting sorting
      → (d : ℕ → ℕ) (n m : ℕ) → m ≤ length (select p (range n))
      → ((v w : ℕ) → v < n → w < n → p v ≡ true → p w ≡ false → d v < d w)
      → (u : ℕ) → u < n
      → count u (take m (sorting.partial_sort (λ i1 i2. ltb (d i1) (d i2)) m (range n))) ≢ 0
      → p u ≡ true
  first-passing sorting selecting d n m few nearer u hu seen =
      let sorted = sorting.partial_sort (λ i1 i2. ltb (d i1) (d i2)) m (range n) in
      let first = take m sorted in
      elim (Bool-cases (p u)) [
        | inl pu ↦ pu
        | inr np ↦
            let all : (v : ℕ) → v < n → p v ≡ true → count v first ≢ 0 = λ v hv pv e.
              let listed : count v (range n) ≢ 0 = λ z. absurd (ground (arith, count-range v n)) in
              let le = selecting.smallest d m (range n) u v seen listed e in
              let lt = nearer v u hv hu pv np in omega arith in
            let many = passing-le n first all in
            let more = below-lt n u first np seen in absurd (omega (arith, length-take m sorted))
      ]
