-- ===== src/Kernel/Search/Offered.antt =====
-- What one iteration of a search offers to the shared heap.
use mathlib.Core.Path.{subst}
use mathlib.Core.List.{Mem, mem-append_left, mem-append_right, mem-cons_self}
use pdxearch.Kernel.Scan.Loops.{IsNear}
use pdxearch.Prelude.{
  ℕ, zero, suc, ◌+◌, ◌<◌, ◌≡◌, ◌≢◌, refl, ap, sym, ◌∙◌, ◌⊎◌, inl, inr, Bool, true, List, [], ◌∷◌,
  ◌++◌, arith, ◌==◌, if◌then◌else◌, Buffer, prefix, All, All-append, Bool-cases, for_up, ==_iff,
}
use pdxearch.Computers.Visit.{count, count-append}
use pdxearch.Computers.Reference.{squares}
use pdxearch.Kernel.Float.{Float, IsOrdered}
use pdxearch.Kernel.Heap.{KnnCandidate, Heap, merge_into_heap, candidate}
use pdxearch.Kernel.Heap.Order.{
  IsDescending, push_all, nearest, push-IsDescending, push_all-IsDescending,
}
use pdxearch.Kernel.Heap.Merge.{candidates, offer-nearest, merge_into_heap-nearest}
use pdxearch.Kernel.Index.{Cluster}
use pdxearch.Kernel.Scan.{Pruning}
use pdxearch.Kernel.Scan.Exact.{IsScanned}
use pdxearch.Kernel.Scan.Guarantees.{IsByteJob, no_wrap}
use pdxearch.Kernel.Search.{Searcher, Encounter, SearchState, job_of, offer_all, merge_kept}

count-prefix : (n i : ℕ) (p : Buffer ℕ) → i < n → count (p i) (prefix n p) ≢ 0
unfolding prefix
count-prefix zero i p lt = absurd (omega arith)
count-prefix (suc n) i p lt = elim (Bool-cases (i == n)) [
  | inl last ↦ λ e. absurd (ground (arith, count-append (p i) (prefix n p) (p n ∷ [])))
  | inr before ↦ λ e.
      let earlier = count-prefix n i p (ground arith) in
      absurd (ground (arith, count-append (p i) (prefix n p) (p n ∷ [])))
]

All-prefix {ℓ κ} :
    {A : Type ℓ} (P : A → Type κ) (n : ℕ) (g : ℕ → A)
    → ((i : ℕ) → i < n → P (g i))
    → All P (prefix n g)
unfolding prefix
All-prefix P zero g h = tt
All-prefix P (suc n) g h =
    All-append P (prefix n g) (g n ∷ []) (All-prefix P n g λ i lt. h i (omega arith))
      (h n (omega arith), tt)

-- What is counted is listed.
index_of : (n v : ℕ) (p : Buffer ℕ) → count v (prefix n p) ≢ 0 → (i : ℕ) × (i < n) × (p i ≡ v)
unfolding prefix
index_of zero v p some_listed = absurd (some_listed refl)
index_of (suc n) v p some_listed = elim (Bool-cases (p n == v)) [
  | inl last ↦ (n, omega arith, (==_iff _ _).0 last)
  | inr before ↦
      let (i, lt, e) =
        index_of n v p
          (λ e. some_listed (ground (arith, count-append v (prefix n p) (p n ∷ [])))) in
      (i, omega arith, e)
]

mem-prefix {ℓ} : {A : Type ℓ} (n i : ℕ) (g : ℕ → A) → i < n → Mem (g i) (prefix n g)
unfolding prefix
mem-prefix zero i g lt = absurd (omega arith)
mem-prefix (suc n) i g lt = elim (Bool-cases (i == n)) [
  | inl last ↦
      let e : i ≡ n = (==_iff _ _).0 last in
      mem-append_right (prefix n g) (subst (λ (j : ℕ). Mem (g j) (g n ∷ [])) (sym e) mem-cons_self)
  | inr before ↦ mem-append_left (g n ∷ []) (mem-prefix n i g (ground arith))
]

pub All-map {ℓ κ μ} :
    {A : Type ℓ} (P : A → Type κ) (Q : A → Type μ)
    → ((a : A) → P a → Q a)
    → (xs : List A) → All P xs
    → All Q xs
All-map P Q g [] h = tt
All-map P Q g (x ∷ xs) (h, hs) = (g x h, All-map P Q g xs hs)

module _ {ℓ} {F : Type ℓ} ⦃f : Float F⦄ where
  pub push_all-append :
      (cs ds : List (KnnCandidate F)) (h : Heap F)
      → push_all (cs ++ ds) h ≡ push_all ds (push_all cs h)
  unfolding push_all
  push_all-append [] ds h = refl
  push_all-append (c ∷ cs) ds h = push_all-append cs ds _

  module _ (searcher : Searcher F) where
    pub offer_all-nearest :
        IsOrdered F
        → (cs : List (KnnCandidate F)) (seen : Heap F) → IsDescending seen
        → offer_all searcher cs (nearest searcher.k seen) ≡ nearest searcher.k (push_all cs seen)
    unfolding offer_all push_all
    offer_all-nearest laws [] seen d = refl
    offer_all-nearest laws (c ∷ cs) seen d =
        ap (offer_all searcher cs) (offer-nearest laws searcher.k c seen d)
        ∙ offer_all-nearest laws cs _ (push-IsDescending laws c seen d)

    -- The candidate for an embedding of a cluster, with its exact distance, scaled back.
    abbrev pub exact_of : (ℕ → ℕ → ℕ) → Cluster → ℕ → KnnCandidate F
    exact_of x c v = record {
      index = c.indices v;
      distance =
          f.mul
            (f.of_u32 (
              squares searcher.prepared_query (x v) 0 (
                searcher.pdx_data.num_vertical_dimensions
                + searcher.pdx_data.num_horizontal_dimensions)))
            searcher.pdx_data.inverse_quantization_scale_squared;
    }

    -- A candidate with the exact distance of a selected embedding of a cluster.
    abbrev pub IsExact : (ℕ → ℕ → ℕ) → (ℕ → Bool) → Cluster → KnnCandidate F → Type ℓ
    IsExact x is_selected c a =
        (v : ℕ) × (v < c.num_embeddings) × (is_selected v ≡ true) × (a ≡ exact_of x c v)

    -- A candidate that an iteration must offer: one of another thread, or a selected embedding of
    -- the cluster that is nearer than every threshold that can be read.
    abbrev pub IsDueAt : (ℕ → ℕ → ℕ) → (ℕ → Bool) → Encounter F → Cluster → KnnCandidate F → Type ℓ
    IsDueAt x is_selected e c a =
        Mem a e.others
        ⊎ ((v : ℕ) × (v < c.num_embeddings)
            × (is_selected v ≡ true)
            × IsNear (job_of searcher e c) x is_selected v
            × (a ≡ exact_of x c v))

    module _ (x : ℕ → ℕ → ℕ) (e : Encounter F) (c : Cluster) (is_selected : ℕ → Bool)
        (ok : IsByteJob (job_of searcher e c) x is_selected) (t : Pruning)
        (scanned : IsScanned (job_of searcher e c) x is_selected t) where
      abbrev scale : F
      scale = searcher.pdx_data.inverse_quantization_scale_squared

      abbrev kept : List (KnnCandidate F)
      kept = candidates scale c.indices t.kept.count t.kept.positions t.distances

      kept-IsExact :
          (i : ℕ)
          → i < t.kept.count
          → IsExact x is_selected c (candidate scale c.indices t.kept.positions t.distances i)
            × (candidate scale c.indices t.kept.positions t.distances i
                ≡ exact_of x c (t.kept.positions i))
      kept-IsExact i lt = elim (scanned.exact (t.kept.positions i)) [
        | inl out ↦ absurd (count-prefix t.kept.count i t.kept.positions lt out)
        | inr (_, hv, sel, d) ↦
            let same : candidate scale c.indices t.kept.positions t.distances i
                ≡ exact_of x c (t.kept.positions i) =
              ap
                (λ (n : ℕ). record {
                  index = c.indices (t.kept.positions i);
                  distance = f.mul (f.of_u32 n) scale;
                })
                (d ∙ no_wrap (job_of searcher e c) x is_selected (t.kept.positions i) ok) in
            ((t.kept.positions i, hv, sel, same), same)
      ]

      -- A near embedding is one of the candidates.
      kept-mem :
          (v : ℕ)
          → v < c.num_embeddings
          → is_selected v ≡ true
          → IsNear (job_of searcher e c) x is_selected v
          → Mem (exact_of x c v) kept
      kept-mem v hv sel near =
          let (i, lt, at) =
            index_of t.kept.count v t.kept.positions
              (let once = scanned.near v hv sel near in λ none_left. absurd (omega arith)) in
          let same : candidate scale c.indices t.kept.positions t.distances i ≡ exact_of x c v =
            (kept-IsExact i lt).1 ∙ ap (exact_of x c) at in
          subst (λ (a : KnnCandidate F). Mem a kept) same
            (mem-prefix t.kept.count i (candidate scale c.indices t.kept.positions t.distances) lt)

      merge-nothing :
          (h : Heap F)
          → (if t.kept.count == 0
              then h
              else merge_into_heap scale c.indices t.kept.count searcher.k t.kept.positions
                  t.distances h)
            ≡ merge_into_heap scale c.indices t.kept.count searcher.k t.kept.positions t.distances h
      unfolding merge_into_heap for_up
      merge-nothing h = elim (Bool-cases (t.kept.count == 0)) [
        | inl none_kept ↦ let e0 : t.kept.count ≡ 0 = (==_iff _ _).0 none_kept in rw e0
        | inr some_kept ↦ rw some_kept
      ]

      -- An iteration that scans a cluster leaves the k nearest of what the heap stands for and of a
      -- list of candidates: those of the other threads, and exact ones of the cluster.
      pub merge_kept-nearest {κ} :
          (IsKnown : KnnCandidate F → Type κ)
          → IsOrdered F
          → (s : SearchState F) (seen : Heap F) → IsDescending seen
          → s.heap ≡ nearest searcher.k seen
          → All IsKnown e.others
          → (cs : List (KnnCandidate F)) × ((merge_kept searcher e c t s).heap
              ≡ nearest searcher.k (push_all cs seen))
            × All (λ a. IsKnown a ⊎ IsExact x is_selected c a) cs
            × ((a : KnnCandidate F) → IsDueAt x is_selected e c a → Mem a cs)
      merge_kept-nearest IsKnown laws s seen d h known =
          let before : offer_all searcher e.others s.heap
              ≡ nearest searcher.k (push_all e.others seen) =
            ap (offer_all searcher e.others) h ∙ offer_all-nearest laws e.others seen d in
          (
            e.others ++ kept,
            merge-nothing _
                ∙ ap
                    (merge_into_heap scale c.indices t.kept.count searcher.k t.kept.positions
                      t.distances)
                    before
                ∙ merge_into_heap-nearest laws scale c.indices t.kept.count searcher.k
                    t.kept.positions t.distances (push_all e.others seen)
                    (push_all-IsDescending laws e.others seen d)
                ∙ ap (nearest searcher.k) (sym (push_all-append e.others kept seen)),
            All-append (λ a. IsKnown a ⊎ IsExact x is_selected c a) e.others kept
                (All-map IsKnown (λ a. IsKnown a ⊎ IsExact x is_selected c a) (λ a p. inl p)
                  e.others known)
                (All-prefix (λ a. IsKnown a ⊎ IsExact x is_selected c a) t.kept.count
                  (candidate scale c.indices t.kept.positions t.distances)
                  λ i lt. inr (kept-IsExact i lt).0),
            λ a due. elim due [
              | inl other ↦ mem-append_left kept other
              | inr (v, hv, sel, near, e') ↦
                  mem-append_right e.others
                    (subst (λ (b : KnnCandidate F). Mem b kept) (sym e') (kept-mem v hv sel near))
            ],
          )
