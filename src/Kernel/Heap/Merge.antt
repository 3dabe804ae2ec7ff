-- ===== src/Kernel/Heap/Merge.antt =====
-- `MergeIntoHeap` keeps the k nearest of all candidates that it was ever offered.
use pdxearch.Prelude.{
  ℕ, zero, suc, ◌-◌, ◌≤◌, ◌<◌, ◌≡◌, refl, ap, sym, ◌∙◌, inl, inr, false, List, [], ◌∷◌, ◌++◌, arith,
  if◌then◌else◌, length, drop, All, Bool-cases, le_or_lt, for_up, prefix, Buffer, min,
}
use pdxearch.Kernel.Float.{Float, IsOrdered, whole}
use pdxearch.Kernel.Heap.{KnnCandidate, Heap, push, offer, candidate, merge_into_heap}
use pdxearch.Kernel.Heap.Order.{
  IsDescending, push_all, nearest, length-push, All-above, push_all-IsDescending,
}

module _ {ℓ} {F : Type ℓ} ⦃f : Float F⦄ where
  pub nearest_all : (k : ℕ) (h : Heap F) → length h ≤ k → nearest k h ≡ h
  unfolding nearest
  nearest_all k h le = let e : length h - k ≡ 0 = omega arith in rw e

  pub nearest_behind :
      (k : ℕ) (x : KnnCandidate F) (h : Heap F) → k ≤ length h → nearest k (x ∷ h) ≡ nearest k h
  unfolding nearest
  nearest_behind k x h le = let e : suc (length h) - k ≡ suc (length h - k) = omega arith in rw e

  push_front :
      (c : KnnCandidate F) (h : Heap F)
      → All (λ y. f.lt c.distance y.distance ≡ false) h
      → push c h ≡ c ∷ h
  unfolding push
  push_front c [] a = refl
  push_front c (x ∷ h) (e, _) = rw e

  length-drop-le : (n : ℕ) (h : Heap F) → length (drop n h) ≡ length h - n
  length-drop-le zero h = omega arith
  length-drop-le (suc n) [] = omega arith
  length-drop-le (suc n) (x ∷ h) = omega (arith, length-drop-le n h)

  pub length-nearest : (k : ℕ) (h : Heap F) → length (nearest k h) ≡ min k (length h)
  unfolding nearest
  length-nearest k h = omega (arith, length-drop-le (length h - k) h)

  -- A heap that is full, and one that is not.
  offer_full :
      (k : ℕ) (c x : KnnCandidate F) (h : Heap F)
      → suc (length h) ≡ k
      → offer k c (x ∷ h) ≡ (if f.lt c.distance x.distance then push c h else x ∷ h)
  offer_full k c x h e = ground arith

  offer_room : (k : ℕ) (c : KnnCandidate F) (h : Heap F) → length h < k → offer k c h ≡ push c h
  offer_room k c h lt = ground arith

  pub push-cons :
      (c x : KnnCandidate F) (h : Heap F)
      → push c (x ∷ h) ≡ (if f.lt c.distance x.distance then x ∷ push c h else c ∷ x ∷ h)
  unfolding push
  push-cons c x h = refl

  offer-nearest_full :
      (k : ℕ) (c x : KnnCandidate F) (h : Heap F)
      → suc (length h) ≡ k
      → offer k c (nearest k (x ∷ h)) ≡ nearest k (push c (x ∷ h))
  offer-nearest_full k c x h e =
      rw (nearest_all k (x ∷ h) (omega arith), offer_full k c x h e, push-cons c x h)
        (elim (Bool-cases (f.lt c.distance x.distance)) [
          | inl closer ↦ rw (
            closer,
            nearest_behind k x (push c h) (omega (arith, length-push c h)),
            nearest_all k (push c h) (omega (arith, length-push c h)),
          )
          | inr far ↦
              rw
                (far, nearest_behind k c (x ∷ h) (omega arith), nearest_all k (x ∷ h) (omega arith))
        ])

  offer-nearest_room :
      (k : ℕ) (c : KnnCandidate F) (h : Heap F)
      → length h < k
      → offer k c (nearest k h) ≡ nearest k (push c h)
  offer-nearest_room k c h lt =
      rw (nearest_all k h (omega arith), offer_room k c h lt)
        (sym (nearest_all k (push c h) (omega (arith, length-push c h))))

  offer_none : (c : KnnCandidate F) → offer 0 c (nearest 0 []) ≡ nearest 0 (push c [])
  unfolding nearest push
  offer_none c = refl

  module _ (laws : IsOrdered F) where
    -- One offer to the k nearest of a sorted heap makes the k nearest of the heap with the candidate.
    pub offer-nearest :
        (k : ℕ) (c : KnnCandidate F) (s : Heap F)
        → IsDescending s
        → offer k c (nearest k s) ≡ nearest k (push c s)
    offer-nearest zero c [] d = offer_none c
    offer-nearest (suc k) c [] d = offer-nearest_room (suc k) c [] (omega arith)
    offer-nearest k c (x ∷ t) (a, d) = elim (le_or_lt k (length t)) [
      | inr fits ↦ elim (le_or_lt k (suc (length t))) [
        | inl tight ↦ offer-nearest_full k c x t (omega arith)
        | inr room ↦ offer-nearest_room k c (x ∷ t) room
      ]
      | inl long ↦
          rw (nearest_behind k x t long, offer-nearest k c t d, push-cons c x t)
            (elim (Bool-cases (f.lt c.distance x.distance)) [
              | inl e ↦ rw e (sym (nearest_behind k x (push c t) (omega (arith, length-push c t))))
              | inr e ↦ rw (
                e,
                push_front c t (All-above laws c x t e a),
                nearest_behind k c t long,
                nearest_behind k c (x ∷ t) (omega arith),
                nearest_behind k x t long,
              )
            ])
    ]

  -- The candidates that a call of `MergeIntoHeap` offers, in order.
  abbrev pub candidates : F → Buffer ℕ → ℕ → Buffer ℕ → Buffer ℕ → List (KnnCandidate F)
  candidates scale ids n positions distances = prefix n (candidate scale ids positions distances)

  push_all-snoc :
      (cs : List (KnnCandidate F)) (c : KnnCandidate F) (s : Heap F)
      → push_all (cs ++ c ∷ []) s ≡ push c (push_all cs s)
  unfolding push_all
  push_all-snoc [] c s = refl
  push_all-snoc (b ∷ cs) c s = push_all-snoc cs c (push b s)

  -- If the heap holds the k nearest of all candidates offered so far, then after `MergeIntoHeap` it
  -- holds the k nearest of those and of all that the call offers, for every k: whatever the heap
  -- refuses or drops is never one of them. The distances are ordered.
  pub merge_into_heap-nearest :
      IsOrdered F
      → (scale : F) (ids : Buffer ℕ) (n k : ℕ) (positions distances : Buffer ℕ) (seen : Heap F)
      → IsDescending seen
      → merge_into_heap scale ids n k positions distances (nearest k seen)
        ≡ nearest k (push_all (candidates scale ids n positions distances) seen)
  unfolding merge_into_heap for_up prefix push_all
  merge_into_heap-nearest laws scale ids zero k positions distances seen d = refl
  merge_into_heap-nearest laws scale ids (suc n) k positions distances seen d =
      let cs = candidates scale ids n positions distances in
      let c = candidate scale ids positions distances n in
      let before = merge_into_heap-nearest laws scale ids n k positions distances seen d in
      ap (offer k c) before
      ∙ offer-nearest laws k c (push_all cs seen) (push_all-IsDescending laws cs seen d)
      ∙ ap (nearest k) (sym (push_all-snoc cs c seen))
