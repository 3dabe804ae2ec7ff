-- ===== src/Kernel/Heap/Rows.antt =====
-- How often a row is among the candidates of a heap, through `MergeIntoHeap` and
-- `BuildResultSetFromHeap` of src/include/pdxearch/pdxearch.hpp.
use pdxearch.Prelude.{
  ℕ, zero, suc, ◌+◌, ◌≤◌, ◌≡◌, refl, inl, inr, List, [], ◌∷◌, ◌++◌, arith, ◌==◌, ==_iff, bit, map,
  take, Buffer, prefix, for_up, All, Bool-cases, length, min,
}
use pdxearch.Computers.Visit.{count, count-append}
use pdxearch.Kernel.Float.{Float}
use pdxearch.Kernel.Heap.{
  KnnCandidate, Heap, push, pop, offer, candidate, merge_into_heap, fill_result,
  without_initialization, build_result_set_from_heap,
}

map-append {ℓ κ} :
    {A : Type ℓ} {B : Type κ} (g : A → B) (xs ys : List A) → map g (xs ++ ys) ≡ map g xs ++ map g ys
map-append g [] ys = refl
map-append g (x ∷ xs) ys = rw (map-append g xs ys)

pub count-take : (v n : ℕ) (xs : List ℕ) → count v (take n xs) ≤ count v xs
count-take v zero xs = omega arith
count-take v (suc n) [] = omega arith
count-take v (suc n) (x ∷ xs) = omega (arith, count-take v n xs)

-- A row is listed at most as often as the one position that it can be at.
pub count-at :
    (g : Buffer ℕ) (r v : ℕ) (is : List ℕ)
    → All (λ i. g i ≡ r → i ≡ v) is
    → count r (map g is) ≤ count v is
count-at g r v [] a = omega arith
count-at g r v (i ∷ is) (only, a) =
    let rest = count-at g r v is a in
    elim (Bool-cases (g i == r)) [
      | inl here ↦ let same : i ≡ v = only ((==_iff _ _).0 here) in ground arith
      | inr away ↦ ground arith
    ]

module _ {ℓ} {F : Type ℓ} ⦃f : Float F⦄ (r : ℕ) where
  abbrev pub times : List (KnnCandidate F) → ℕ
  times cs = count r (map (λ c. c.index) cs)

  pub times-push :
      (c : KnnCandidate F) (h : Heap F) → times (push c h) ≡ bit (c.index == r) + times h
  unfolding push
  times-push c [] = refl
  times-push c (x ∷ h) = elim (Bool-cases (f.lt c.distance x.distance)) [
    | inl e ↦ rw e (omega (arith, times-push c h))
    | inr e ↦ rw e refl
  ]

  times-pop : (h : Heap F) → times (pop h) ≤ times h
  times-pop [] = omega arith
  times-pop (x ∷ h) = omega arith

  times-offer :
      (k : ℕ) (c : KnnCandidate F) (h : Heap F) → times (offer k c h) ≤ bit (c.index == r) + times h
  times-offer k c h = ground (arith, times-push c h, times-push c (pop h), times-pop h)

  pub times-merge :
      (scale : F) (indices : Buffer ℕ) (n k : ℕ) (positions distances : Buffer ℕ) (h : Heap F)
      → times (merge_into_heap scale indices n k positions distances h)
        ≤ count r (map indices (prefix n positions)) + times h
  unfolding merge_into_heap for_up prefix
  times-merge scale indices zero k positions distances h = omega arith
  times-merge scale indices (suc n) k positions distances h =
      let before = merge_into_heap scale indices n k positions distances h in
      rw (map-append indices (prefix n positions) (positions n ∷ [])) (
        omega (
          arith,
          times-merge scale indices n k positions distances h,
          times-offer k (candidate scale indices positions distances n) before,
          count-append r (map indices (prefix n positions)) (indices (positions n) ∷ []),
        ))

  times-fill :
      (n : ℕ) (h : Heap F) (result : List (KnnCandidate F))
      → times (fill_result n h result) ≤ times h + times result
  unfolding fill_result
  times-fill zero h result = omega arith
  times-fill (suc n) [] result = omega arith
  times-fill (suc n) (x ∷ h) result = omega (arith, times-fill n h (x ∷ result))

  times-without : (h : Heap F) → times (without_initialization h) ≤ times h
  times-without [] = omega arith
  times-without (x ∷ h) = ground arith

  pub times-build : (k : ℕ) (h : Heap F) → times (build_result_set_from_heap k h) ≤ times h
  unfolding build_result_set_from_heap
  times-build k h =
      let rest = without_initialization h in
      omega (arith, times-fill (min (length rest) k) rest [], times-without h)
