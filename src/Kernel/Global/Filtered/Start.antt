-- ===== src/Kernel/Global/Filtered/Start.antt =====
-- What `FilteredStart` of src/include/pdxearch/pdxearch.hpp pushes.
use pdxearch.Prelude.{
  ℕ, ◌+◌, ◌-◌, ◌/◌, ◌%◌, ◌^◌, ◌≤◌, ◌<◌, ◌≡◌, ap, ◌∙◌, arith, min, Bool, true, false, ltb, Buffer,
  length, take, select, get_elem?, some, All, length-take, length-prefix, length-select-le,
}
use pdxearch.Computers.Reference.{squares}
use pdxearch.Kernel.Float.{Float, IsOrdered}
use pdxearch.Kernel.Heap.{KnnCandidate}
use pdxearch.Kernel.Heap.Order.{IsDescending}
use pdxearch.Kernel.Index.{Cluster}
use pdxearch.Kernel.Positions.{u32_max, init_positions_from_selection, mask_distances}
use pdxearch.Kernel.Positions.Compaction.{range}
use pdxearch.Kernel.Positions.Masking.{mask_distances_lem}
use pdxearch.Kernel.Scan.Calls.{passing}
use pdxearch.Kernel.Scan.Guarantees.{squares-small}
use pdxearch.Kernel.Search.{Searcher, SearchState}
use pdxearch.Kernel.Search.Offered.{IsExact}
use pdxearch.Kernel.Search.Leaving.{IsSearchable}
use pdxearch.Kernel.Global.{Sorting, IsSorting}
use pdxearch.Kernel.Global.Start.{
  push_sorted-All, push_sorted-length, push_sorted-IsDescending, listed-All, inside, count-take_le,
}
use pdxearch.Kernel.Global.Filtered.{filtered_distances, filtered_start}
use pdxearch.Kernel.Global.Filtered.Distances.{filtered_distances-squares}
use pdxearch.Kernel.Global.Filtered.Smallest.{IsSelecting, first-passing}

module _ {ℓ} {F : Type ℓ} ⦃f : Float F⦄ (sorting : Sorting) (searcher : Searcher F)
    (is_dense : ℕ → ℕ → Bool) (x : ℕ → ℕ → ℕ → ℕ) (ready : IsSearchable searcher x) (id : ℕ)
    (c : Cluster) (selection : Buffer ℕ) (passing_tuples : ℕ) (s : SearchState F) where
  open searcher use {pdx_data, k, prepared_query as q}
  open pdx_data use {num_vertical_dimensions as V, num_horizontal_dimensions as H}

  -- The masked distances.
  abbrev masked : Buffer ℕ
  masked =
      mask_distances c.num_embeddings
        (filtered_distances sorting searcher is_dense c passing_tuples
          (init_positions_from_selection c.num_embeddings s.pruning_positions selection)
          s.pruning_distances)
        selection

  module _ (at : get_elem? pdx_data.clusters id ≡ some c) where
    masked-passing :
        (v : ℕ)
        → v < c.num_embeddings
        → passing selection v ≡ true
        → masked v ≡ squares q (x id v) 0 (V + H)
    masked-passing v hv passes =
        let small =
          squares-small q (x id v) 0 (V + H) ready.query_bytes (ready.bytes id v) ready.few in
        let fits : squares q (x id v) 0 (V + H) % 2 ^ 32 ≡ squares q (x id v) 0 (V + H) =
          omega arith in
        mask_distances_lem c.num_embeddings v _ selection
        ∙ ground arith
        ∙ filtered_distances-squares sorting searcher is_dense c (x id) (ready.stored id c at)
            ready.whole v hv passing_tuples s.pruning_positions selection s.pruning_distances passes
        ∙ fits

    masked-less :
        ((i : ℕ) → selection i < 2)
        → (v w : ℕ) → v < c.num_embeddings
        → w < c.num_embeddings
        → passing selection v ≡ true
        → passing selection w ≡ false
        → masked v < masked w
    masked-less bits v w hv hw pv pw =
        let small =
          squares-small q (x id v) 0 (V + H) ready.query_bytes (ready.bytes id v) ready.few in
        let low = masked-passing v hv pv in
        let bit_w = bits w in
        let high : masked w ≡ u32_max / 2 =
          mask_distances_lem c.num_embeddings w _ selection ∙ ground arith in
        omega arith

    -- What `FilteredStart` does to a heap with room: it stays sorted, takes as many embeddings as
    -- pass, up to k, and each passes and has its exact distance.
    pub filtered_start-IsExact :
        IsOrdered F
        → IsSorting sorting
        → IsSelecting sorting
        → ((i : ℕ) → selection i < 2)
        → passing_tuples ≡ length (select (passing selection) (range c.num_embeddings))
        → IsDescending s.heap
        → length s.heap ≤ k
        → let t = filtered_start sorting searcher is_dense selection passing_tuples c s in
          IsDescending t.heap
          × (length t.heap ≡ min k (length s.heap + passing_tuples))
          × ((P : KnnCandidate F → Type ℓ)
              → ((a : KnnCandidate F) → IsExact searcher (x id) (passing selection) c a → P a)
              → All P s.heap
              → All P t.heap)
    unfolding filtered_start
    filtered_start-IsExact laws sorts selecting bits counted down room =
        let n = c.num_embeddings in
        let m = min (k - length s.heap) passing_tuples in
        let less : ℕ → ℕ → Bool = λ i1 i2. ltb (masked i1) (masked i2) in
        let sorted = sorting.partial_sort less m (range n) in
        let sorted_length : length sorted ≡ n =
          sorts.partial_sort-length less m (range n) ∙ length-prefix n (λ i. i) in
        let few : m ≤ length (select (passing selection) (range n)) = omega arith in
        (
          push_sorted-IsDescending sorting searcher laws c masked (take m sorted) s.heap down,
          omega (
            arith,
            push_sorted-length sorting searcher c masked (take m sorted) s.heap,
            length-take m sorted,
            sorted_length,
            length-select-le (passing selection) (range n),
            length-prefix n (λ i. i),
          ),
          λ P h ps.
              push_sorted-All sorting searcher P c masked (take m sorted) s.heap
                (listed-All sorting searcher _ (take m sorted) (λ v seen.
                  let hv = inside sorting searcher v n (λ e. seen (
                    count-take_le sorting searcher v m sorted
                      (sorts.partial_sort-count less m (range n) v ∙ e))) in
                  let passes =
                    first-passing (passing selection) sorting selecting masked n m few
                      (masked-less bits) v hv seen in
                  h _ (
                    v,
                    hv,
                    passes,
                    ap
                        (λ (d : ℕ). record {
                          index = c.indices v;
                          distance = f.mul (f.of_u32 d) pdx_data.inverse_quantization_scale_squared;
                        })
                        (masked-passing v hv passes),
                  )))
                ps,
        )
