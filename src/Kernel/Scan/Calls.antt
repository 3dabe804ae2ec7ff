-- ===== src/Kernel/Scan/Calls.antt =====
-- The calls of `Warmup` and `Prune` for a cluster.
use pdxearch.Prelude.{
  ℕ, ◌≤◌, ◌<◌, ◌≡◌, refl, ap, ◌∙◌, inl, inr, Bool, true, ◌&&◌, List, some, All, arith, ltb, ◌==◌,
  Buffer, Bool-cases,
}
use pdxearch.Dimensions.{dimensions_fetching_sizes, pdx_max_dims}
use pdxearch.Dimensions.Fetching.{
  sum, IsInterleaved, fetching_sizes-IsInterleaved, sum-fetching_sizes,
}
use pdxearch.Computers.Visit.{count, count-select, count-range}
use pdxearch.Kernel.Float.{Float}
use pdxearch.Kernel.Positions.{
  reset_pruning_distances, mask_distances, init_positions, init_positions_filtered,
}
use pdxearch.Kernel.Positions.Compaction.{
  range, survivors-init_positions, survivors-init_positions_filtered,
}
use pdxearch.Kernel.Positions.Masking.{reset_pruning_distances_lem, mask_distances_lem}
use pdxearch.Kernel.Scan.{
  Job, Progress, Pruning, read_threshold, warmup, warmup_filtered, prune, prune_filtered, scan,
  scan_filtered,
}
use pdxearch.Kernel.Scan.Invariant.{WarmupInv}
use pdxearch.Kernel.Scan.Loops.{IsJob}
use pdxearch.Kernel.Scan.Exact.{IsScanned, prune_lem, start-WarmupInv, warmup_loop-start}

-- The embeddings that a filtered search may return.
abbrev pub passing : Buffer ℕ → ℕ → Bool
passing selection v = selection v == 1

-- Every embedding of a cluster passes the filter of an unfiltered search.
abbrev pub everything : ℕ → Bool
everything v = true

module _ {ℓ} {F : Type ℓ} ⦃f : Float F⦄ (job : Job F) (x : ℕ → ℕ → ℕ) where
  open job use {n_vectors as n}

  -- `Warmup<false>` returns, with exact distances.
  warmup_lem :
      (sizes : List ℕ) (needed : ℕ) (d : Buffer ℕ)
      → IsJob job x everything
      → All IsInterleaved sizes
      → job.num_vertical_dimensions ≤ sum sizes
      → (p : Progress) × (warmup job sizes needed d ≡ some p) × WarmupInv job x everything p
  unfolding warmup
  warmup_lem sizes needed d ok fours enough =
      warmup_loop-start job x everything ok sizes needed _ fours enough refl
        λ v hv sel. reset_pruning_distances_lem n v d ∙ ground arith

  -- `Warmup<true>` returns, with exact distances of what the filter passes.
  warmup_filtered_lem :
      (sizes : List ℕ) (needed : ℕ) (is_selective : Bool) (selection d : Buffer ℕ)
      → IsJob job x (passing selection)
      → All IsInterleaved sizes
      → job.num_vertical_dimensions ≤ sum sizes
      → (p : Progress) × (warmup_filtered job sizes needed is_selective selection d ≡ some p)
        × WarmupInv job x (passing selection) p
  unfolding warmup_filtered
  warmup_filtered_lem sizes needed is_selective selection d ok fours enough =
      let start : (v : ℕ)
          → v < n
          → passing selection v ≡ true
          → mask_distances n (reset_pruning_distances n d) selection v ≡ 0 =
        λ v hv sel.
          mask_distances_lem n v (reset_pruning_distances n d) selection
          ∙ ground (arith, reset_pruning_distances_lem n v d) in
      elim (Bool-cases is_selective) [
        | inl skip ↦ rw skip (_, refl, start-WarmupInv job x (passing selection) ok _ refl start)
        | inr loop ↦
            rw loop (
              warmup_loop-start job x (passing selection) ok sizes needed _ fours enough refl start)
      ]

  -- `Prune<false>` and `Prune<true>` after them.
  after_warmup :
      (ok : IsJob job x everything) (positions : Buffer ℕ) (p : Progress)
      → WarmupInv job x everything p
      → (t : Pruning) × (prune job positions p ≡ some t) × IsScanned job x everything t
  unfolding prune
  after_warmup ok positions p inv =
      let threshold = (read_threshold job p).threshold in
      prune_lem job x everything ok p (init_positions n positions threshold p.distances) inv λ v.
        ap (count v) (survivors-init_positions n threshold positions p.distances)
        ∙ count-select (λ i. ltb (p.distances i) threshold) v (range n)
        ∙ ground (arith, count-range v n)

  after_warmup_filtered :
      (selection : Buffer ℕ) (ok : IsJob job x (passing selection)) (positions : Buffer ℕ)
      (p : Progress)
      → WarmupInv job x (passing selection) p
      → (t : Pruning) × (prune_filtered job positions selection p ≡ some t)
        × IsScanned job x (passing selection) t
  unfolding prune_filtered
  after_warmup_filtered selection ok positions p inv =
      let threshold = (read_threshold job p).threshold in
      prune_lem job x (passing selection) ok p
        (init_positions_filtered n positions threshold p.distances selection) inv
        λ v.
          ap (count v)
            (survivors-init_positions_filtered n threshold positions p.distances selection)
          ∙ count-select (λ i. ltb (p.distances i) threshold && selection i == 1) v (range n)
          ∙ ground (arith, count-range v n)

  module _ (few : job.num_vertical_dimensions ≤ pdx_max_dims) where
    table_covers : job.num_vertical_dimensions ≤ sum dimensions_fetching_sizes
    table_covers = rw sum-fetching_sizes (omega arith)

    pub scan_lem :
        (needed : ℕ) (positions d : Buffer ℕ)
        → IsJob job x everything
        → (t : Pruning) × (scan job needed positions d ≡ some t) × IsScanned job x everything t
    unfolding scan
    scan_lem needed positions d ok =
        let (p, e, inv) =
          warmup_lem dimensions_fetching_sizes needed d ok fetching_sizes-IsInterleaved
            table_covers in
        rw (e, scan) (after_warmup ok positions p inv)

    pub scan_filtered_lem :
        (needed : ℕ) (is_selective : Bool) (selection positions d : Buffer ℕ)
        → IsJob job x (passing selection)
        → (t : Pruning) × (scan_filtered job needed is_selective selection positions d ≡ some t)
          × IsScanned job x (passing selection) t
    unfolding scan_filtered
    scan_filtered_lem needed is_selective selection positions d ok =
        let (p, e, inv) =
          warmup_filtered_lem dimensions_fetching_sizes needed is_selective selection d ok
            fetching_sizes-IsInterleaved table_covers in
        rw (e, scan_filtered) (after_warmup_filtered selection ok positions p inv)
