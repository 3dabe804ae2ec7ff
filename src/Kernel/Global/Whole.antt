-- ===== src/Kernel/Global/Whole.antt =====
-- `SearchGlobal` and `FilteredSearchGlobal` of src/include/pdxearch/pdxearch.hpp with `ivf_nprobe` 0:
-- each cluster is visited once.
use pdxearch.Prelude.{
  ℕ, zero, suc, ◌+◌, ◌*◌, ◌<◌, ◌≡◌, refl, ap, sym, ◌∙◌, inl, inr, arith, Bool, true, false,
  if◌then◌else◌, List, [], ◌∷◌, ◌==◌, ltb, leb, bit, Buffer, length, take, sum_below,
  sum_below-congr, select, All, Bool-cases,
}
use pdxearch.Computers.{Arithmetic}
use pdxearch.Computers.Visit.{count, count-range}
use pdxearch.Kernel.Float.{Float}
use pdxearch.Kernel.Positions.Compaction.{range}
use pdxearch.Kernel.Search.{Searcher}
use pdxearch.Kernel.Global.{Sorting, IsSorting, get_clusters_access_order_ivf}
use pdxearch.Kernel.Global.Visiting.{access_order-All, visited_clusters}

-- The sum of g over a list.
abbrev pub total : (ℕ → ℕ) → List ℕ → ℕ
total g [] = 0
total g (x ∷ xs) = g x + total g xs

sum_below-nothing : (n : ℕ) → sum_below n (λ v. 0) ≡ 0
unfolding sum_below
sum_below-nothing zero = refl
sum_below-nothing (suc n) = omega (arith, sum_below-nothing n)

-- One more at x.
sum_below-more :
    (g : ℕ → ℕ) (x : ℕ) (h : ℕ → ℕ) (n : ℕ)
    → sum_below n (λ v. (if x == v then g v else 0) + h v)
      ≡ (if ltb x n then g x else 0) + sum_below n h
unfolding sum_below
sum_below-more g x h zero = ground arith
sum_below-more g x h (suc n) =
    let rest = sum_below-more g x h n in
    elim (Bool-cases (x == n)) [
      | inl here ↦
          let e : x ≡ n = ground arith in
          let past : ltb x n ≡ false = ground arith in
          let below : ltb x (suc n) ≡ true = ground arith in
          let same = ap g e in
          let gone : (if ltb x n then g x else 0) ≡ 0 = rw past refl in
          rw (here, below) (omega arith)
      | inr away ↦
          let keep : ltb x (suc n) ≡ ltb x n = ground arith in rw (away, keep) (omega arith)
    ]

weigh : (b : Bool) (m n : ℕ) → (bit b + m) * n ≡ (if b then n else 0) + m * n
weigh false m n = omega arith
weigh true m n = omega arith

-- A sum over a list of numbers below n weighs each of them with its count.
total-count :
    (g : ℕ → ℕ) (n : ℕ) (xs : List ℕ)
    → All (λ x. x < n) xs
    → total g xs ≡ sum_below n (λ v. count v xs * g v)
total-count g n [] h = sym (sum_below-congr n _ _ (λ v lt. omega arith) ∙ sum_below-nothing n)
total-count g n (x ∷ xs) (lt, h) =
    let more = sum_below-more g x (λ v. count v xs * g v) n in
    let below : ltb x n ≡ true = ground arith in
    let parts =
      sum_below-congr n (λ v. count v (x ∷ xs) * g v) _
        (λ v lt. weigh (x == v) (count v xs) (g v)) in
    ap (◌+◌ (g x)) (total-count g n xs h) ∙ sym (parts ∙ more ∙ rw below refl)

one_more :
    (b : Bool) (r : ℕ) (rows : List ℕ)
    → length (if b then r ∷ rows else rows) ≡ (if b then 1 else 0) + length rows
one_more false r rows = omega arith
one_more true r rows = omega arith

-- Each group of the rows counted once counts the rows.
pub sum_below-groups :
    (group : ℕ → ℕ) (n : ℕ) (rows : List ℕ)
    → All (λ r. group r < n) rows
    → sum_below n (λ v. length (select (λ r. group r == v) rows)) ≡ length rows
sum_below-groups group n [] h = sum_below-nothing n
sum_below-groups group n (r ∷ rows) (lt, h) =
    let rest = sum_below-groups group n rows h in
    let more =
      sum_below-more (λ v. 1) (group r) (λ v. length (select (λ r. group r == v) rows)) n in
    let below : ltb (group r) n ≡ true = ground arith in
    let parts =
      sum_below-congr n (λ v. length (select (λ r. group r == v) (r ∷ rows))) _
        (λ v lt'. one_more (group r == v) r _) in
    parts ∙ more ∙ rw below (omega (arith, rest))

total-length : (xs : List ℕ) → total (λ x. 1) xs ≡ length xs
total-length [] = refl
total-length (x ∷ xs) = omega (arith, total-length xs)

take-all : (n : ℕ) (xs : List ℕ) → length xs ≡ n → take n xs ≡ xs
take-all zero [] e = refl
take-all zero (x ∷ xs) e = absurd (omega arith)
take-all (suc n) [] e = refl
take-all (suc n) (x ∷ xs) e = ap (◌∷◌ x) (take-all n xs (omega arith))

-- A list with each number below n once.
total-once :
    (g : ℕ → ℕ) (n : ℕ) (xs : List ℕ)
    → All (λ x. x < n) xs
    → ((v : ℕ) → count v xs ≡ count v (range n))
    → total g xs ≡ sum_below n g
total-once g n xs h same =
    total-count g n xs h
    ∙ sum_below-congr n _ _ (λ v lt.
      let once : count v xs ≡ 1 = same v ∙ count-range v n ∙ ground arith in rw once (omega arith))

module _ {ℓ} {F : Type ℓ} ⦃f : Float F⦄ ⦃ops : Arithmetic F⦄ (sorting : Sorting)
    (searcher : Searcher F) (x : ℕ → ℕ → ℕ → ℕ) (sorts : IsSorting sorting) (query : Buffer F) where
  open searcher use {pdx_data}

  abbrev num_clusters : ℕ
  num_clusters = length pdx_data.clusters

  abbrev order : List ℕ
  order = get_clusters_access_order_ivf sorting query pdx_data num_clusters

  order-count : (v : ℕ) → count v order ≡ count v (range num_clusters)
  unfolding get_clusters_access_order_ivf
  order-count v =
      let all : leb num_clusters num_clusters ≡ true = ground arith in
      rw all (sorts.sort-count _ (range num_clusters) v)

  sum_below-one : (n : ℕ) → sum_below n (λ v. 1) ≡ n
  unfolding sum_below
  sum_below-one zero = refl
  sum_below-one (suc n) = omega (arith, sum_below-one n)

  -- A sum over the clusters that are visited is one over all clusters.
  pub total-visited :
      (g : ℕ → ℕ) → total g (visited_clusters sorting searcher x query 0) ≡ sum_below num_clusters g
  total-visited g =
      let below = access_order-All sorting searcher x sorts query num_clusters in
      let size : length order ≡ num_clusters =
        sym (total-length order)
        ∙ total-once (λ v. 1) num_clusters order below order-count
        ∙ sum_below-one num_clusters in
      ap (total g) (take-all num_clusters order size)
      ∙ total-once g num_clusters order below order-count
