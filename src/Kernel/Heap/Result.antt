-- ===== src/Kernel/Heap/Result.antt =====
-- The result set that `BuildResultSetFromHeap` reads off the heap.
use mathlib.Core.List.{reverse, reverse-cons, append-nil, append_assoc}
use pdxearch.Prelude.{
  ℕ, zero, suc, ◌+◌, ◌-◌, ◌≤◌, ◌≡◌, refl, ap, sym, ◌∙◌, inl, inr, false, List, [], ◌∷◌, ◌++◌, arith,
  length, drop, All, Bool-cases, le_or_lt, min,
}
use pdxearch.Kernel.Float.{Float, IsOrdered, ◌≺◌}
use pdxearch.Kernel.Heap.{
  KnnCandidate, Heap, push, fill_result, without_initialization, build_result_set_from_heap,
}
use pdxearch.Kernel.Heap.Order.{IsDescending, push_all, nearest, All-push_all}
use pdxearch.Kernel.Heap.Merge.{nearest_all, nearest_behind, length-nearest, push-cons}

module _ {ℓ} {F : Type ℓ} ⦃f : Float F⦄ where
  -- No element is nearer than one in front of it.
  abbrev pub IsAscending : List (KnnCandidate F) → Type 0
  IsAscending [] = Unit
  IsAscending (x ∷ h) = All (λ y. f.lt y.distance x.distance ≡ false) h × IsAscending h

  -- No element of the second list is nearer than one of the first.
  abbrev IsBehind : Heap F → List (KnnCandidate F) → Type 0
  IsBehind h result = All (λ x. All (λ y. f.lt y.distance x.distance ≡ false) result) h

  IsBehind-cons :
      (x : KnnCandidate F) (h : Heap F) (result : List (KnnCandidate F))
      → All (λ y. f.lt x.distance y.distance ≡ false) h
      → IsBehind h result
      → IsBehind h (x ∷ result)
  IsBehind-cons x [] result a b = tt
  IsBehind-cons x (y ∷ h) result (a, a') (b, b') = ((a, b), IsBehind-cons x h result a' b')

  fill_result-IsAscending :
      (n : ℕ) (h : Heap F) (result : List (KnnCandidate F))
      → IsDescending h
      → IsBehind h result
      → IsAscending result
      → IsAscending (fill_result n h result)
  unfolding fill_result
  fill_result-IsAscending zero h result d b a = a
  fill_result-IsAscending (suc n) [] result d b a = a
  fill_result-IsAscending (suc n) (x ∷ h) result (far, d) (b, b') a =
      fill_result-IsAscending n h (x ∷ result) d (IsBehind-cons x h result far b') (b, a)

  IsBehind-nil : (h : Heap F) → IsBehind h []
  IsBehind-nil [] = tt
  IsBehind-nil (x ∷ h) = (tt, IsBehind-nil h)

  without_initialization-IsDescending :
      (h : Heap F) → IsDescending h → IsDescending (without_initialization h)
  without_initialization-IsDescending [] d = tt
  without_initialization-IsDescending (x ∷ h) (a, d) =
      elim (Bool-cases (f.eq x.distance f.greatest)) [ inl e ↦ rw e d | inr e ↦ rw e (a, d) ]

  pub length-fill_result :
      (n : ℕ) (h : Heap F) (result : List (KnnCandidate F))
      → length (fill_result n h result) ≡ min n (length h) + length result
  unfolding fill_result
  length-fill_result zero h result = omega arith
  length-fill_result (suc n) [] result = omega arith
  length-fill_result (suc n) (x ∷ h) result = omega (arith, length-fill_result n h (x ∷ result))

  -- From any heap the result set comes with the nearest candidate first, and with at most k
  -- candidates.
  pub build_result_set-IsAscending :
      (k : ℕ) (h : Heap F)
      → IsDescending h
      → IsAscending (build_result_set_from_heap k h) × (length (build_result_set_from_heap k h) ≤ k)
  unfolding build_result_set_from_heap
  build_result_set-IsAscending k h d =
      let rest = without_initialization h in
      (
        fill_result-IsAscending (min (length rest) k) rest []
            (without_initialization-IsDescending h d) (IsBehind-nil rest) tt,
        omega (arith, length-fill_result (min (length rest) k) rest []),
      )

  fill_result-reverse :
      (h : Heap F) (result : List (KnnCandidate F))
      → fill_result (length h) h result ≡ reverse h ++ result
  unfolding fill_result
  fill_result-reverse [] result = refl
  fill_result-reverse (x ∷ h) result =
      fill_result-reverse h (x ∷ result)
      ∙ sym (append_assoc (reverse h) (x ∷ []) result)
      ∙ ap (λ t. t ++ result) (sym (reverse-cons x h))

  fill_result_lem :
      (k : ℕ) (h : Heap F) → length h ≤ k → fill_result (min (length h) k) h [] ≡ reverse h
  fill_result_lem k h le =
      let e : min (length h) k ≡ length h = omega arith in
      rw (e, fill_result-reverse h []) (append-nil (reverse h))

  push_all-cons :
      (x : KnnCandidate F) (cs : List (KnnCandidate F)) (h : Heap F)
      → All (λ c. c.distance ≺ x.distance) cs
      → push_all cs (x ∷ h) ≡ x ∷ push_all cs h
  unfolding push_all
  push_all-cons x [] h a = refl
  push_all-cons x (c ∷ cs) h (e, a) = rw (push-cons c x h, e) (push_all-cons x cs (push c h) a)

  All-drop {κ} : (P : KnnCandidate F → Type κ) (n : ℕ) (h : Heap F) → All P h → All P (drop n h)
  All-drop P zero h a = a
  All-drop P (suc n) [] a = a
  All-drop P (suc n) (x ∷ h) (_, a) = All-drop P n h a

  All-nearest {κ} :
      (P : KnnCandidate F → Type κ) (k : ℕ) (h : Heap F) → All P h → All P (nearest k h)
  unfolding nearest
  All-nearest P k h = All-drop P (length h - k) h

  module _ (laws : IsOrdered F) where
    without_initialization_none :
        (h : Heap F) → All (λ c. c.distance ≺ f.greatest) h → without_initialization h ≡ h
    without_initialization_none [] a = refl
    without_initialization_none (x ∷ h) (a, _) = rw (laws.eq-of_lt x.distance f.greatest a)

    -- A search starts from a heap that holds only the initialization element. If every candidate is
    -- nearer than that element, then the result set made from the k nearest of it and all candidates
    -- is exactly the k nearest of all candidates, nearest first: the element is never part of the
    -- result and takes no candidate's place.
    pub build_result_set-nearest :
        (k : ℕ) (first : KnnCandidate F) (cs : List (KnnCandidate F))
        → first.distance ≡ f.greatest
        → All (λ c. c.distance ≺ f.greatest) cs
        → build_result_set_from_heap k (nearest k (push_all cs (first ∷ [])))
          ≡ reverse (nearest k (push_all cs []))
    unfolding build_result_set_from_heap
    build_result_set-nearest k first cs e near =
        let s = push_all cs [] in
        let nearer : All (λ c. c.distance ≺ first.distance) cs = rw e near in
        rw (push_all-cons first cs [] nearer) (elim (le_or_lt k (length s)) [
          | inl many ↦
              let best =
                All-nearest (λ c. c.distance ≺ f.greatest) k s
                  (All-push_all (λ c. c.distance ≺ f.greatest) cs [] near tt) in
              rw (nearest_behind k first s many, without_initialization_none (nearest k s) best)
                (fill_result_lem k (nearest k s) (omega (arith, length-nearest k s)))
          | inr few ↦
              rw
                (
                  nearest_all k (first ∷ s) (omega arith),
                  e,
                  laws.eq_refl f.greatest,
                  nearest_all k s (omega arith),
                )
                (fill_result_lem k s (omega arith))
        ])
