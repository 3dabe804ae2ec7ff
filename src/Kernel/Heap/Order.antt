-- ===== src/Kernel/Heap/Order.antt =====
-- Sorted heaps, and the k nearest of all candidates as their specification.
use pdxearch.Prelude.{
  ℕ, suc, ◌+◌, ◌-◌, ◌≡◌, refl, inl, inr, false, List, [], ◌∷◌, arith, length, drop, All, Bool-cases,
}
use pdxearch.Kernel.Float.{Float, IsOrdered}
use pdxearch.Kernel.Heap.{KnnCandidate, Heap, push}

module _ {ℓ} {F : Type ℓ} ⦃f : Float F⦄ where
  -- No element is nearer than one behind it.
  abbrev pub IsDescending : Heap F → Type 0
  IsDescending [] = Unit
  IsDescending (x ∷ h) = All (λ y. f.lt x.distance y.distance ≡ false) h × IsDescending h

  -- The specification: all candidates that were ever pushed, sorted.
  unfoldable pub push_all : List (KnnCandidate F) → Heap F → Heap F
  push_all [] h = h
  push_all (c ∷ cs) h = push_all cs (push c h)

  -- The `k` nearest of a sorted heap.
  unfoldable pub nearest : ℕ → Heap F → Heap F
  nearest k h = drop (length h - k) h

  pub length-push : (c : KnnCandidate F) (h : Heap F) → length (push c h) ≡ suc (length h)
  unfolding push
  length-push c [] = refl
  length-push c (x ∷ h) = ground (arith, length-push c h)

  pub length-push_all :
      (cs : List (KnnCandidate F)) (h : Heap F) → length (push_all cs h) ≡ length cs + length h
  unfolding push_all
  length-push_all [] h = omega arith
  length-push_all (c ∷ cs) h = omega (arith, length-push_all cs (push c h), length-push c h)

  pub All-push {κ} :
      (P : KnnCandidate F → Type κ) (c : KnnCandidate F) (h : Heap F)
      → P c
      → All P h
      → All P (push c h)
  unfolding push
  All-push P c [] p ps = (p, tt)
  All-push P c (x ∷ h) p (q, qs) = elim (Bool-cases (f.lt c.distance x.distance)) [
    | inl e ↦ rw e (q, All-push P c h p qs)
    | inr e ↦ rw e (p, (q, qs))
  ]

  pub All-push_all {κ} :
      (P : KnnCandidate F → Type κ) (cs : List (KnnCandidate F)) (h : Heap F)
      → All P cs
      → All P h
      → All P (push_all cs h)
  unfolding push_all
  All-push_all P [] h p ps = ps
  All-push_all P (c ∷ cs) h (p, q) ps = All-push_all P cs (push c h) q (All-push P c h p ps)

  module _ (laws : IsOrdered F) where
    open laws use {irreflexive, transitive, separates}

    -- What is farther than one element is farther than all that are not farther than it.
    pub All-above :
        (c x : KnnCandidate F) (h : Heap F)
        → f.lt c.distance x.distance ≡ false
        → All (λ y. f.lt x.distance y.distance ≡ false) h
        → All (λ y. f.lt c.distance y.distance ≡ false) h
    All-above c x [] e a = tt
    All-above c x (y ∷ h) e (a, rest) =
        (ground (arith, separates c.distance x.distance y.distance), All-above c x h e rest)

    pub push-IsDescending :
        (c : KnnCandidate F) (h : Heap F) → IsDescending h → IsDescending (push c h)
    unfolding push
    push-IsDescending c [] s = (tt, tt)
    push-IsDescending c (x ∷ h) (a, s) = elim (Bool-cases (f.lt c.distance x.distance)) [
      | inl e ↦ rw e (
        All-push (λ y. f.lt x.distance y.distance ≡ false) c h
            (ground (arith, transitive x.distance c.distance x.distance, irreflexive x.distance)) a,
        push-IsDescending c h s,
      )
      | inr e ↦ rw e ((e, All-above c x h e a), (a, s))
    ]

    pub push_all-IsDescending :
        (cs : List (KnnCandidate F)) (h : Heap F) → IsDescending h → IsDescending (push_all cs h)
    unfolding push_all
    push_all-IsDescending [] h s = s
    push_all-IsDescending (c ∷ cs) h s =
        push_all-IsDescending cs (push c h) (push-IsDescending c h s)
