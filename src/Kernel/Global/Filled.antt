-- ===== src/Kernel/Global/Filled.antt =====
-- The heap of `SearchGlobal` and `FilteredSearchGlobal` of src/include/pdxearch/pdxearch.hpp while
-- it fills up, and the result that is read off it.
use mathlib.Core.Path.{subst}
use pdxearch.Prelude.{
  Bool, ℕ, zero, suc, ◌+◌, ◌-◌, ◌≤◌, ◌<◌, ◌^◌, ◌≡◌, refl, ap, sym, ◌∙◌, ◌⊎◌, inl, inr, arith, min,
  true, List, [], ◌∷◌, length, drop, All,
}
use pdxearch.Computers.Reference.{squares}
use pdxearch.Kernel.Float.{Float, IsOrdered}
use pdxearch.Kernel.Heap.{
  KnnCandidate, Heap, fill_result, without_initialization, build_result_set_from_heap,
}
use pdxearch.Kernel.Heap.Order.{
  IsDescending, push_all, nearest, length-push_all, All-push_all, push_all-IsDescending,
}
use pdxearch.Kernel.Heap.Merge.{length-nearest}
use pdxearch.Kernel.Heap.Result.{IsAscending, build_result_set-IsAscending, length-fill_result}
use pdxearch.Kernel.Scan.Guarantees.{squares-bound}
use pdxearch.Kernel.Search.{Searcher, SearchState}
use pdxearch.Kernel.Search.Leaving.{IsSearchable, IsOfIndex, Leaves}
use pdxearch.Kernel.Search.Offered.{All-map}

module _ {ℓ} {F : Type ℓ} ⦃f : Float F⦄ where
  drop-All {κ} : (P : KnnCandidate F → Type κ) (n : ℕ) (h : Heap F) → All P h → All P (drop n h)
  drop-All P zero h a = a
  drop-All P (suc n) [] a = tt
  drop-All P (suc n) (y ∷ h) (_, a) = drop-All P n h a

  drop-IsDescending : (n : ℕ) (h : Heap F) → IsDescending h → IsDescending (drop n h)
  drop-IsDescending zero h d = d
  drop-IsDescending (suc n) [] d = tt
  drop-IsDescending (suc n) (y ∷ h) (_, d) = drop-IsDescending n h d

  nearest-All {κ} :
      (P : KnnCandidate F → Type κ) (n : ℕ) (h : Heap F) → All P h → All P (nearest n h)
  unfolding nearest
  nearest-All P n h a = drop-All P (length h - n) h a

  nearest-IsDescending : (n : ℕ) (h : Heap F) → IsDescending h → IsDescending (nearest n h)
  unfolding nearest
  nearest-IsDescending n h d = drop-IsDescending (length h - n) h d

  fill_result-All {κ} :
      (P : KnnCandidate F → Type κ) (n : ℕ) (h : Heap F) (result : List (KnnCandidate F))
      → All P h
      → All P result
      → All P (fill_result n h result)
  unfolding fill_result
  fill_result-All P zero h result a b = b
  fill_result-All P (suc n) [] result a b = b
  fill_result-All P (suc n) (y ∷ h) result (p, a) b = fill_result-All P n h (y ∷ result) a (p, b)

module _ {ℓ} {F : Type ℓ} ⦃f : Float F⦄ (searcher : Searcher F) where
  open searcher use {pdx_data}

  -- Distances below the greatest float are not taken for the initialization element.
  abbrev pub IsFinite : Type 0
  IsFinite =
      (n : ℕ)
      → n < 2 ^ 32
      → f.lt (f.mul (f.of_u32 n) pdx_data.inverse_quantization_scale_squared) f.greatest ≡ true

module _ {ℓ} {F : Type ℓ} ⦃f : Float F⦄ (searcher : Searcher F) (x : ℕ → ℕ → ℕ → ℕ)
    (is_selected : ℕ → ℕ → Bool) where
  open searcher use {pdx_data, k}

  -- A sorted heap that holds as many selected embeddings of the index as have been visited, up to k.
  pub record IsFilled (h : Heap F) (visited : ℕ) : Type ℓ where
    pub descending : IsDescending h
    pub filled : length h ≡ min k visited
    pub exact : All (IsOfIndex searcher x is_selected) h

  -- A scan keeps a full heap full.
  pub Leaves-IsFilled :
      (laws : IsOrdered F) (ready : IsSearchable searcher x) (IsDue : KnnCandidate F → Type ℓ)
      (h : Heap F) (t : SearchState F) (visited more : ℕ)
      → k ≤ length h
      → IsFilled h visited
      → Leaves searcher x (IsOfIndex searcher x is_selected) laws ready is_selected IsDue h t
      → IsFilled t.heap (visited + more)
  Leaves-IsFilled laws ready IsDue h t visited more is_full inv (cs, e, known, due) =
      let Known = IsOfIndex searcher x is_selected in
      let size = inv.filled in
      record {
        descending = subst IsDescending (sym e) (
            nearest-IsDescending k (push_all cs h)
              (push_all-IsDescending laws cs h inv.descending));
        filled =
            ap length e ∙ omega (arith, length-nearest k (push_all cs h), length-push_all cs h);
        exact =
            subst (λ (a : Heap F). All Known a) (sym e)
              (nearest-All Known k (push_all cs h) (
                All-push_all Known cs h
                  (All-map (λ a. Known a ⊎ Known a) Known (λ a p. elim p [ inl q ↦ q | inr q ↦ q ])
                    cs known)
                  inv.exact));
      }

  without_initialization_idle :
      IsOrdered F
      → IsSearchable searcher x
      → IsFinite searcher
      → (h : Heap F) → All (IsOfIndex searcher x is_selected) h
      → without_initialization h ≡ h
  without_initialization_idle laws ready finite [] a = refl
  without_initialization_idle laws ready finite (y ∷ h) ((id, c, at, (v, hv, _, e)), a) =
      let q = searcher.prepared_query in
      let total = pdx_data.num_vertical_dimensions + pdx_data.num_horizontal_dimensions in
      let low = squares-bound q (x id v) 0 total ready.query_bytes (ready.bytes id v) ready.few in
      let near : f.lt y.distance f.greatest ≡ true =
        subst (λ (b : KnnCandidate F). f.lt b.distance f.greatest ≡ true) (sym e)
          (finite (squares q (x id v) 0 total) (omega arith)) in
      rw (laws.eq-of_lt y.distance f.greatest near)

  -- The result comes with the nearest first and has all of the heap.
  pub result-IsFilled :
      IsOrdered F
      → IsSearchable searcher x
      → IsFinite searcher
      → (h : Heap F) (visited : ℕ) → IsFilled h visited
      → let result = build_result_set_from_heap k h in
        IsAscending result
        × (length result ≡ min k visited)
        × All (IsOfIndex searcher x is_selected) result
  unfolding build_result_set_from_heap
  result-IsFilled laws ready finite h visited inv =
      let whole = without_initialization_idle laws ready finite h inv.exact in
      let size = inv.filled in
      (
        (build_result_set-IsAscending k h inv.descending).0,
        rw (whole, build_result_set_from_heap)
            (omega (arith, length-fill_result (min (length h) k) h [])),
        rw (whole, build_result_set_from_heap) (fill_result-All _ _ h [] inv.exact tt),
      )
