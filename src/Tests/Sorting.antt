-- ===== src/Tests/Sorting.antt =====
-- A sorting that rearranges, and puts the smallest first.
use pdxearch.Prelude.{
  ℕ, zero, suc, ◌+◌, ◌≤◌, ◌≡◌, ◌≢◌, refl, sym, ◌∙◌, inl, inr, Bool, List, [], ◌∷◌, arith, ltb, ◌==◌,
  bit, if◌then◌else◌, length, take, All, Bool-cases,
}
use pdxearch.Computers.Visit.{count}
use pdxearch.Kernel.Global.{Sorting, IsSorting}
use pdxearch.Kernel.Global.Filtered.Smallest.{IsSelecting}

-- Sorting by insertion, up to the end.
abbrev insert : (ℕ → ℕ → Bool) → ℕ → List ℕ → List ℕ
insert less v [] = v ∷ []
insert less v (w ∷ ws) = if less w v then w ∷ insert less v ws else v ∷ w ∷ ws

abbrev insertion_sort : (ℕ → ℕ → Bool) → List ℕ → List ℕ
insertion_sort less [] = []
insertion_sort less (v ∷ vs) = insert less v (insertion_sort less vs)

count-insert :
    (less : ℕ → ℕ → Bool) (v : ℕ) (ws : List ℕ) (u : ℕ)
    → count u (insert less v ws) ≡ bit (v == u) + count u ws
count-insert less v [] u = refl
count-insert less v (w ∷ ws) u = ground (arith, count-insert less v ws u)

count-insertion_sort :
    (less : ℕ → ℕ → Bool) (vs : List ℕ) (u : ℕ) → count u (insertion_sort less vs) ≡ count u vs
count-insertion_sort less [] u = refl
count-insertion_sort less (v ∷ vs) u =
    omega (arith, count-insert less v (insertion_sort less vs) u, count-insertion_sort less vs u)

length-insert :
    (less : ℕ → ℕ → Bool) (v : ℕ) (ws : List ℕ) → length (insert less v ws) ≡ length ws + 1
length-insert less v [] = omega arith
length-insert less v (w ∷ ws) = ground (arith, length-insert less v ws)

length-insertion_sort :
    (less : ℕ → ℕ → Bool) (vs : List ℕ) → length (insertion_sort less vs) ≡ length vs
length-insertion_sort less [] = refl
length-insertion_sort less (v ∷ vs) =
    omega (arith, length-insert less v (insertion_sort less vs), length-insertion_sort less vs)

abbrev pub insertion : Sorting
insertion = record { sort = insertion_sort; partial_sort = λ less n xs. insertion_sort less xs }

pub insertion-IsSorting : IsSorting insertion
insertion-IsSorting = record {
  sort-count = count-insertion_sort;
  partial_sort-count = λ less n. count-insertion_sort less;
  partial_sort-length = λ less n. length-insertion_sort less;
}

All-insert :
    (P : ℕ → Type 0) (less : ℕ → ℕ → Bool) (v : ℕ) (ws : List ℕ)
    → P v
    → All P ws
    → All P (insert less v ws)
All-insert P less v [] q qs = (q, tt)
All-insert P less v (w ∷ ws) q (r, rs) = elim (Bool-cases (less w v)) [
  | inl after ↦ rw after (r, All-insert P less v ws q rs)
  | inr before ↦ rw before (q, (r, rs))
]

All-count : (P : ℕ → Type 0) (xs : List ℕ) (v : ℕ) → All P xs → count v xs ≢ 0 → P v
All-count P [] v h n = absurd (n refl)
All-count P (x ∷ xs) v (q, qs) n = elim (Bool-cases (x == v)) [
  | inl here ↦ let e : v ≡ x = ground arith in rw e q
  | inr away ↦ All-count P xs v qs (λ z. n (ground arith))
]

module _ (d : ℕ → ℕ) where
  abbrev less_by : ℕ → ℕ → Bool
  less_by i1 i2 = ltb (d i1) (d i2)

  abbrev IsSorted : List ℕ → Type 0
  IsSorted [] = Unit
  IsSorted (x ∷ xs) = All (λ y. d x ≤ d y) xs × IsSorted xs

  All-le : (a b : ℕ) (xs : List ℕ) → a ≤ b → All (λ y. b ≤ d y) xs → All (λ y. a ≤ d y) xs
  All-le a b [] h qs = tt
  All-le a b (x ∷ xs) h (q, qs) = (omega arith, All-le a b xs h qs)

  insert-IsSorted : (v : ℕ) (ws : List ℕ) → IsSorted ws → IsSorted (insert less_by v ws)
  insert-IsSorted v [] s = (tt, tt)
  insert-IsSorted v (w ∷ ws) (q, s) = elim (Bool-cases (less_by w v)) [
    | inl after ↦
        rw after (All-insert (λ y. d w ≤ d y) less_by v ws (ground arith) q, insert-IsSorted v ws s)
    | inr before ↦
        let le : d v ≤ d w = ground arith in rw before ((le, All-le (d v) (d w) ws le q), (q, s))
  ]

  insertion_sort-IsSorted : (vs : List ℕ) → IsSorted (insertion_sort less_by vs)
  insertion_sort-IsSorted [] = tt
  insertion_sort-IsSorted (v ∷ vs) = insert-IsSorted v _ (insertion_sort-IsSorted vs)

  take-smallest :
      (n : ℕ) (xs : List ℕ) (u v : ℕ)
      → IsSorted xs
      → count u (take n xs) ≢ 0
      → count v xs ≢ 0
      → count v (take n xs) ≡ 0
      → d u ≤ d v
  take-smallest zero xs u v s hu hv e = absurd (hu refl)
  take-smallest (suc n) [] u v s hu hv e = absurd (hu refl)
  take-smallest (suc n) (x ∷ xs) u v (q, s) hu hv e =
      let behind : count v xs ≢ 0 = λ z. hv (omega arith) in
      elim (Bool-cases (x == u)) [
        | inl here ↦
            let same : u ≡ x = ground arith in rw same (All-count (λ y. d x ≤ d y) xs v q behind)
        | inr away ↦ take-smallest n xs u v s (λ z. hu (ground arith)) behind (omega arith)
      ]

pub insertion-IsSelecting : IsSelecting insertion
insertion-IsSelecting = record {
  smallest = λ d n xs u v hu hv e.
      take-smallest d n (insertion_sort (less_by d) xs) u v (insertion_sort-IsSorted d xs) hu
        (λ z. hv (sym (count-insertion_sort (less_by d) xs v) ∙ z)) e;
}
