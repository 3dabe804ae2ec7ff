-- ===== src/Kernel/Global/Filtered/Distances.antt =====
-- The distances that `FilteredStart` of src/include/pdxearch/pdxearch.hpp computes.
use pdxearch.Prelude.{
  ℕ, suc, ◌+◌, ◌-◌, ◌*◌, ◌/◌, ◌%◌, ◌^◌, ◌<◌, ◌≡◌, refl, ap, ◌∙◌, inl, inr, arith, Bool, true, ◌==◌,
  Buffer, for_up_inv, Bool-cases,
}
use pdxearch.Computers.{add32}
use pdxearch.Computers.Visit.{count, count-range, count-select, touch_listed}
use pdxearch.Computers.Reference.{IsStored, squares, vertical_u8-squares}
use pdxearch.Kernel.Float.{Float}
use pdxearch.Kernel.Index.{Cluster}
use pdxearch.Kernel.Positions.{
  Positions, survivors, reset_pruning_distances, init_positions_from_selection,
}
use pdxearch.Kernel.Positions.Compaction.{range, survivors-init_positions_from_selection}
use pdxearch.Kernel.Scan.Calls.{passing}
use pdxearch.Kernel.Scan.Invariant.{squares-split}
use pdxearch.Kernel.Search.{Searcher}
use pdxearch.Kernel.Global.{Sorting, block_distance}
use pdxearch.Kernel.Global.Start.{once, reset_zero, block_distance-squares}
use pdxearch.Kernel.Global.Filtered.{horizontal_blocks, filtered_distances}

-- What passes the selection vector is listed once.
count-passing :
    (n v : ℕ) (p selection : Buffer ℕ)
    → v < n
    → passing selection v ≡ true
    → count v (survivors (init_positions_from_selection n p selection)) ≡ 1
count-passing n v p selection hv passes =
    ap (count v) (survivors-init_positions_from_selection n p selection)
    ∙ count-select (λ i. selection i == 1) v (range n)
    ∙ ground (arith, count-range v n)

module _ {ℓ} {F : Type ℓ} ⦃f : Float F⦄ (sorting : Sorting) (searcher : Searcher F)
    (is_dense : ℕ → ℕ → Bool) (c : Cluster) (x : ℕ → ℕ → ℕ) where
  open searcher use {pdx_data, prepared_query as q}
  open pdx_data use {num_vertical_dimensions as V, num_horizontal_dimensions as H}

  module _ (stored : IsStored V H c.num_embeddings c.block x) (whole : H % 64 ≡ 0) (v : ℕ)
      (hv : v < c.num_embeddings) where
    -- The distance over the first horizontal dimensions, and that with the vertical ones.
    abbrev IsPartial : ℕ → Buffer ℕ → Type 0
    IsPartial r b =
        (b v < 2 ^ 32)
        × ((b v + squares q (x v) 0 V) % 2 ^ 32 ≡ squares q (x v) 0 (V + r * 64) % 2 ^ 32)

    horizontal_blocks-IsPartial :
        (s : Positions) (b : Buffer ℕ)
        → count v (survivors s) ≡ 1
        → b v ≡ 0
        → IsPartial ((H + 63) / 64) (horizontal_blocks sorting searcher is_dense c s b)
    unfolding horizontal_blocks
    horizontal_blocks-IsPartial s b listed e =
        let alone = squares q (x v) 0 V in
        let nothing : (0 + alone) % 2 ^ 32 ≡ alone % 2 ^ 32 = omega arith in
        for_up_inv IsPartial _ ((H + 63) / 64) b
          (
            omega arith,
            ap (λ t. (t + squares q (x v) 0 V) % 2 ^ 32) e
                ∙ nothing
                ∙ ap (λ t. squares q (x v) 0 t % 2 ^ 32) (start V),
          )
          (λ r b hr (low, old).
            let more = squares q (x v) (V + r * 64) 64 in
            let done = squares q (x v) 0 (V + r * 64) in
            let left = squares q (x v) 0 V in
            let longer : V + suc r * 64 - (V + r * 64) ≡ 64 = omega arith in
            let step =
              touch_listed (λ v a. add32 a (block_distance sorting searcher c (r * 64) v))
                s.positions v b s.count listed
              ∙ ap (λ t. add32 (b v) t)
                  (block_distance-squares sorting searcher c x stored whole v hv r hr) in
            let whole_sum : squares q (x v) 0 (V + suc r * 64) ≡ done + more =
              squares-split q (x v) (V + r * 64) (V + suc r * 64) (omega arith)
              ∙ ap (λ t. done + squares q (x v) (V + r * 64) t) longer in
            let bound : (b v + more % 2 ^ 32) % 2 ^ 32 < 2 ^ 32 = omega arith in
            let sum : ((b v + more % 2 ^ 32) % 2 ^ 32 + left) % 2 ^ 32 ≡ (done + more) % 2 ^ 32 =
              omega arith in
            (rw step bound, rw (step, whole_sum) sum))
      where
        start : (n : ℕ) → n ≡ n + 0 * 64
        start n = omega arith

    -- The distance of an embedding that passes is that over all dimensions, by either kernel.
    pub filtered_distances-squares :
        (passing_tuples : ℕ) (p selection d : Buffer ℕ)
        → passing selection v ≡ true
        → filtered_distances sorting searcher is_dense c passing_tuples
            (init_positions_from_selection c.num_embeddings p selection)
            d
            v
          ≡ squares q (x v) 0 (V + H) % 2 ^ 32
    unfolding filtered_distances
    filtered_distances-squares passing_tuples p selection d passes =
        let n = c.num_embeddings in
        let s = init_positions_from_selection n p selection in
        let listed = count-passing n v p selection hv passes in
        let (low, part) =
          horizontal_blocks-IsPartial s (reset_pruning_distances n d) listed
            (reset_zero sorting searcher c x stored whole v hv d) in
        let blocks =
          horizontal_blocks sorting searcher is_dense c s (reset_pruning_distances n d) in
        let all : V + (H + 63) / 64 * 64 ≡ V + H = omega arith in
        let vertical = λ (m : ℕ) (positions : Buffer ℕ).
          vertical_u8-squares V H n q c.block x stored m 0 V
            (record {
              starts = refl;
              ordered = omega arith;
              ends_by = omega arith;
              ends = inr refl;
            })
            positions v hv blocks in
        let from : V - 0 ≡ V = omega arith in
        let to_all =
          ap (λ t. (blocks v + squares q (x v) 0 t) % 2 ^ 32) from
          ∙ part
          ∙ ap (λ t. squares q (x v) 0 t % 2 ^ 32) all in
        elim (Bool-cases (is_dense passing_tuples n)) [
          | inl dense ↦
              rw dense
                (vertical n (λ i. i) (once sorting searcher c x stored whole v hv) low ∙ to_all)
          | inr sparse ↦ rw sparse (vertical s.count s.positions listed low ∙ to_all)
        ]
