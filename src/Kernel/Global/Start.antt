-- ===== src/Kernel/Global/Start.antt =====
-- The full scan of `Start` of src/include/pdxearch/pdxearch.hpp, and what it pushes.
use mathlib.Core.Path.{ap₂}
use native.Mathlib.Nat.{mul_comm}
use pdxearch.Prelude.{
  ℕ, zero, suc, ◌+◌, ◌-◌, ◌*◌, ◌/◌, ◌%◌, ◌^◌, ◌≤◌, ◌<◌, ◌≡◌, ◌≢◌, refl, ap, sym, ◌∙◌, inl, inr,
  arith, List, [], ◌∷◌, ltb, Buffer, length, take, min, get_elem?, some, Bool, for_up_inv, All,
  length-take, Bool-cases, length-prefix,
}
use pdxearch.Computers.{add32, vertical_u8, horizontal_u8}
use pdxearch.Computers.Visit.{count, count-range, touch_listed}
use pdxearch.Computers.Reference.{IsStored, squares, vertical_u8-squares, horizontal_u8-squares}
use pdxearch.Kernel.Float.{Float, IsOrdered}
use pdxearch.Kernel.Heap.{KnnCandidate, Heap, push, candidate}
use pdxearch.Kernel.Heap.Order.{IsDescending, length-push, push-IsDescending, All-push}
use pdxearch.Kernel.Index.{Cluster}
use pdxearch.Kernel.Positions.{reset_pruning_distances}
use pdxearch.Kernel.Positions.Compaction.{range}
use pdxearch.Kernel.Positions.Masking.{reset_pruning_distances_lem}
use pdxearch.Kernel.Scan.Calls.{everything}
use pdxearch.Kernel.Scan.Invariant.{squares-split}
use pdxearch.Kernel.Scan.Guarantees.{squares-bound}
use pdxearch.Kernel.Search.{Searcher, SearchState}
use pdxearch.Kernel.Search.Offered.{IsExact}
use pdxearch.Kernel.Search.Leaving.{IsSearchable}
use pdxearch.Kernel.Global.{
  Sorting, IsSorting, block_distance, start_block, start_distances, push_sorted, start,
}

module _ {ℓ} {F : Type ℓ} ⦃f : Float F⦄ (sorting : Sorting) (searcher : Searcher F) where
  open searcher use {pdx_data, k, prepared_query as q}
  open pdx_data use {num_vertical_dimensions as V, num_horizontal_dimensions as H}

  module _ (c : Cluster) (x : ℕ → ℕ → ℕ) (stored : IsStored V H c.num_embeddings c.block x)
      (whole : H % 64 ≡ 0) (v : ℕ) (hv : v < c.num_embeddings) where
    pub once : count v (range c.num_embeddings) ≡ 1
    once = count-range v c.num_embeddings ∙ ground arith

    pub reset_zero : (d : Buffer ℕ) → reset_pruning_distances c.num_embeddings d v ≡ 0
    reset_zero d = reset_pruning_distances_lem c.num_embeddings v d ∙ ground arith

    -- A block of 64 horizontal dimensions of a stored embedding.
    pub block_distance-squares :
        (r : ℕ)
        → r < (H + 63) / 64
        → block_distance sorting searcher c (r * 64) v ≡ squares q (x v) (V + r * 64) 64 % 2 ^ 32
    block_distance-squares r hr =
        let n = c.num_embeddings in
        ap
          (λ t.
            horizontal_u8 (λ i. q (V + r * 64 + i)) (λ i. c.block (t + r * 64 * n + v * 64 + i)) 64)
          (mul_comm V n)
        ∙ horizontal_u8-squares V H n q c.block x stored r v hr hv

    start_block-distance :
        (r : ℕ) (b : Buffer ℕ)
        → r < (H + 63) / 64
        → b v ≡ squares q (x v) 0 (V + r * 64) % 2 ^ 32
        → start_block sorting searcher c (r * 64) b v ≡ squares q (x v) 0 (V + suc r * 64) % 2 ^ 32
    start_block-distance r b hr old =
        let n = c.num_embeddings in
        let more = squares q (x v) (V + r * 64) 64 in
        let done = squares q (x v) 0 (V + r * 64) in
        let sum : (done % 2 ^ 32 + more % 2 ^ 32) % 2 ^ 32 ≡ (done + more) % 2 ^ 32 = omega arith in
        let longer : V + suc r * 64 - (V + r * 64) ≡ 64 = omega arith in
        touch_listed (λ v a. add32 a (block_distance sorting searcher c (r * 64) v)) (λ i. i) v b n
          once
        ∙ ap₂ add32 old (block_distance-squares r hr)
        ∙ sum
        ∙ ap (λ t. t % 2 ^ 32)
            (ap (λ t. done + squares q (x v) (V + r * 64) t) (sym longer)
              ∙ sym (squares-split q (x v) (V + r * 64) (V + suc r * 64) (omega arith)))

    -- The distance of each embedding over all dimensions.
    pub start_distances-squares :
        (d : Buffer ℕ) → start_distances sorting searcher c d v ≡ squares q (x v) 0 (V + H) % 2 ^ 32
    unfolding start_distances
    start_distances-squares d =
        let n = c.num_embeddings in
        let fresh = reset_pruning_distances n d in
        let same : V - 0 ≡ V + 0 * 64 = omega arith in
        let part = squares q (x v) 0 (V + 0 * 64) in
        let nothing : (0 + part) % 2 ^ 32 ≡ part % 2 ^ 32 = omega arith in
        let all : V + (H + 63) / 64 * 64 ≡ V + H = omega arith in
        let vertical : vertical_u8 q c.block n n 0 V (λ i. i) fresh v
            ≡ squares q (x v) 0 (V + 0 * 64) % 2 ^ 32 =
          vertical_u8-squares V H n q c.block x stored n 0 V
            (record {
              starts = refl;
              ordered = omega arith;
              ends_by = omega arith;
              ends = inr refl;
            })
            (λ i. i) v hv fresh once (omega (arith, reset_zero d))
          ∙ ap (λ t. (t + squares q (x v) 0 (V - 0)) % 2 ^ 32) (reset_zero d)
          ∙ ap (λ t. (0 + squares q (x v) 0 t) % 2 ^ 32) same
          ∙ nothing in
        for_up_inv (λ r b. b v ≡ squares q (x v) 0 (V + r * 64) % 2 ^ 32)
          (λ r b. start_block sorting searcher c (r * 64) b) ((H + 63) / 64)
          (vertical_u8 q c.block n n 0 V (λ i. i) fresh) vertical
          (λ r b lt old. start_block-distance r b lt old)
        ∙ ap (λ t. squares q (x v) 0 t % 2 ^ 32) all

  pub listed-All {κ} : (P : ℕ → Type κ) (xs : List ℕ) → ((v : ℕ) → count v xs ≢ 0 → P v) → All P xs
  listed-All P [] h = tt
  listed-All P (x ∷ xs) h =
      (h x (λ e. absurd (ground arith)), listed-All P xs (λ v n. h v (λ e. n (omega arith))))

  pub push_sorted-All {κ} :
      (P : KnnCandidate F → Type κ) (c : Cluster) (d : Buffer ℕ) (is : List ℕ) (h : Heap F)
      → All
          (λ i. P (candidate pdx_data.inverse_quantization_scale_squared c.indices (λ j. j) d i))
          is
      → All P h
      → All P (push_sorted sorting searcher c d is h)
  unfolding push_sorted
  push_sorted-All P c d [] h p ps = ps
  push_sorted-All P c d (i ∷ is) h (p, q) ps = push_sorted-All P c d is _ q (All-push P _ h p ps)

  pub push_sorted-length :
      (c : Cluster) (d : Buffer ℕ) (is : List ℕ) (h : Heap F)
      → length (push_sorted sorting searcher c d is h) ≡ length is + length h
  unfolding push_sorted
  push_sorted-length c d [] h = omega arith
  push_sorted-length c d (i ∷ is) h = omega (
    arith,
    push_sorted-length c d is
        (push (candidate pdx_data.inverse_quantization_scale_squared c.indices (λ j. j) d i) h),
    length-push (candidate pdx_data.inverse_quantization_scale_squared c.indices (λ j. j) d i) h,
  )

  pub push_sorted-IsDescending :
      IsOrdered F
      → (c : Cluster) (d : Buffer ℕ) (is : List ℕ) (h : Heap F) → IsDescending h
      → IsDescending (push_sorted sorting searcher c d is h)
  unfolding push_sorted
  push_sorted-IsDescending laws c d [] h s = s
  push_sorted-IsDescending laws c d (i ∷ is) h s =
      push_sorted-IsDescending laws c d is _ (push-IsDescending laws _ h s)

  pub take-All {κ} : (P : ℕ → Type κ) (n : ℕ) (xs : List ℕ) → All P xs → All P (take n xs)
  take-All P zero xs h = tt
  take-All P (suc n) [] h = tt
  take-All P (suc n) (x ∷ xs) (p, ps) = (p, take-All P n xs ps)

  pub count-take_le : (v n : ℕ) (xs : List ℕ) → count v xs ≡ 0 → count v (take n xs) ≡ 0
  count-take_le v zero xs e = refl
  count-take_le v (suc n) [] e = refl
  count-take_le v (suc n) (x ∷ xs) e = omega (arith, count-take_le v n xs (omega arith))

  pub inside : (v n : ℕ) → count v (range n) ≢ 0 → v < n
  inside v n h = elim (Bool-cases (ltb v n)) [
    | inl below ↦ ground arith
    | inr past ↦ absurd (h (count-range v n ∙ ground arith))
  ]

  -- An embedding that is pushed, with its exact distance.
  start-candidate :
      (x : ℕ → ℕ → ℕ → ℕ) (ready : IsSearchable searcher x) (id : ℕ) (c : Cluster)
      → get_elem? pdx_data.clusters id ≡ some c
      → (d0 : Buffer ℕ) (v : ℕ) → v < c.num_embeddings
      → IsExact searcher (x id) everything c (
          candidate pdx_data.inverse_quantization_scale_squared c.indices
            (λ j. j)
            (start_distances sorting searcher c d0)
            v)
  start-candidate x ready id c at d0 v hv =
      let low = squares-bound q (x id v) 0 (V + H) ready.query_bytes (ready.bytes id v) ready.few in
      let fits : squares q (x id v) 0 (V + H) % 2 ^ 32 ≡ squares q (x id v) 0 (V + H) =
        omega arith in
      (
        v,
        hv,
        refl,
        ap
            (λ (n : ℕ). record {
              index = c.indices v;
              distance = f.mul (f.of_u32 n) pdx_data.inverse_quantization_scale_squared;
            })
            (start_distances-squares c (x id) (ready.stored id c at) ready.whole v hv d0 ∙ fits),
      )

  -- What `Start` does to a heap with room: it stays sorted, takes as many embeddings as there are, up
  -- to k, and each has its exact distance.
  pub start-IsExact :
      IsOrdered F
      → IsSorting sorting
      → (x : ℕ → ℕ → ℕ → ℕ) (ready : IsSearchable searcher x) (id : ℕ) (c : Cluster)
      → get_elem? pdx_data.clusters id ≡ some c
      → (s : SearchState F) → IsDescending s.heap
      → length s.heap ≤ k
      → let t = start sorting searcher c s in
        IsDescending t.heap
        × (length t.heap ≡ min k (length s.heap + c.num_embeddings))
        × ((P : KnnCandidate F → Type ℓ)
            → ((a : KnnCandidate F) → IsExact searcher (x id) everything c a → P a)
            → All P s.heap
            → All P t.heap)
  unfolding start
  start-IsExact laws sorts x ready id c at s down room =
      let d0 = s.pruning_distances in
      let d = start_distances sorting searcher c d0 in
      let m = min (k - length s.heap) c.num_embeddings in
      let less : ℕ → ℕ → Bool = λ i1 i2. ltb (d i1) (d i2) in
      let sorted = sorting.partial_sort less m (range c.num_embeddings) in
      let sorted_length : length sorted ≡ c.num_embeddings =
        sorts.partial_sort-length less m (range c.num_embeddings)
        ∙ length-prefix c.num_embeddings (λ i. i) in
      (
        push_sorted-IsDescending laws c d (take m sorted) s.heap down,
        omega (
          arith,
          push_sorted-length c d (take m sorted) s.heap,
          length-take m sorted,
          sorted_length,
        ),
        λ P h ps.
            push_sorted-All P c d (take m sorted) s.heap
              (take-All _ m sorted (
                listed-All _ sorted (λ v seen. h _ (
                  start-candidate x ready id c at d0 v (
                    inside v c.num_embeddings (λ e.
                      seen (sorts.partial_sort-count less m (range c.num_embeddings) v ∙ e)))))))
              ps,
      )
