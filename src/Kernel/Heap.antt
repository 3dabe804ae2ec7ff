-- ===== src/Kernel/Heap.antt =====
-- The heap of the nearest candidates: `KNNCandidate` and `Heap` of
-- src/include/pdxearch/common.hpp, `MergeIntoHeap` and `BuildResultSetFromHeap` of
-- src/include/pdxearch/pdxearch.hpp. A `std::priority_queue` is the list of its elements in the
-- order in which it pops them. Which of several equal distances comes first the standard leaves
-- open; here it is the one pushed last.
pub mod Order
pub mod Merge
pub mod Result
pub mod Rows
use pdxearch.Prelude.{
  ℕ, zero, suc, ◌+◌, ◌-◌, ◌≤◌, ◌<◌, ◌≡◌, refl, Bool, true, false, ◌||◌, List, [], ◌∷◌, ◌++◌, arith,
  ltb, leb, if◌then◌else◌, length, drop, for_up, Buffer, min,
}
use pdxearch.Kernel.Float.{Float}

-- `KNNCandidate`
pub record KnnCandidate {ℓ} (F : Type ℓ) : Type ℓ where
  pub index : ℕ
  pub distance : F

abbrev pub Heap {ℓ} : Type ℓ → Type ℓ
Heap F = List (KnnCandidate F)

module _ {ℓ} {F : Type ℓ} where
  -- `heap.pop()`
  abbrev pub pop : Heap F → Heap F
  pop [] = []
  pop (x ∷ h) = h

module _ {ℓ} {F : Type ℓ} ⦃f : Float F⦄ where
  -- `heap.push(c)`, where `VectorComparator` puts the greatest distance on top
  unfoldable pub push : KnnCandidate F → Heap F → Heap F
  push c [] = c ∷ []
  push c (x ∷ h) = if f.lt c.distance x.distance then x ∷ push c h else c ∷ x ∷ h

  -- `distance < heap.top().distance`. The top of an empty heap is read only for k = 0, which the
  -- callers exclude.
  abbrev pub closer_than_top : F → Heap F → Bool
  closer_than_top d [] = false
  closer_than_top d (x ∷ h) = f.lt d x.distance

  -- One round of the loop of `MergeIntoHeap`.
  abbrev pub offer : ℕ → KnnCandidate F → Heap F → Heap F
  offer k c h =
      if ltb (length h) k || closer_than_top c.distance h
      then push c (if leb k (length h) then pop h else h)
      else h

  -- The candidate that a position stands for, at U8 with its distance scaled back.
  abbrev pub candidate : F → Buffer ℕ → Buffer ℕ → Buffer ℕ → ℕ → KnnCandidate F
  candidate inverse_scale_squared vector_indices positions distances i =
      let index = positions i in
      record {
        index = vector_indices index;
        distance = f.mul (f.of_u32 (distances index)) inverse_scale_squared;
      }

  -- `MergeIntoHeap`
  unfoldable pub merge_into_heap : F → Buffer ℕ → ℕ → ℕ → Buffer ℕ → Buffer ℕ → Heap F → Heap F
  merge_into_heap inverse_scale_squared vector_indices n_vectors k positions distances heap =
      for_up n_vectors
        (λ i h. offer k (candidate inverse_scale_squared vector_indices positions distances i) h)
        heap

  -- The loop of `BuildResultSetFromHeap`, which fills the result from its end.
  unfoldable pub fill_result : ℕ → Heap F → List (KnnCandidate F) → List (KnnCandidate F)
  fill_result zero h result = result
  fill_result (suc i) [] result = result
  fill_result (suc i) (x ∷ h) result = fill_result i h (x ∷ result)

  -- The initialization element on top is popped.
  abbrev pub without_initialization : Heap F → Heap F
  without_initialization [] = []
  without_initialization (x ∷ h) = if f.eq x.distance f.greatest then h else x ∷ h

  -- `BuildResultSetFromHeap`
  unfoldable pub build_result_set_from_heap : ℕ → Heap F → List (KnnCandidate F)
  build_result_set_from_heap k heap =
      let h = without_initialization heap in fill_result (min (length h) k) h []
