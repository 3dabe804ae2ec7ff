-- ===== src/Kernel/Scan/Exact.antt =====
-- The scan of a cluster is total, gives exact distances to what it keeps, and keeps what is near.
use pdxearch.Prelude.{
  ℕ, ◌+◌, ◌%◌, ◌^◌, ◌≤◌, ◌<◌, ◌≡◌, refl, ap, sym, ◌∙◌, ◌⊎◌, inl, inr, Bool, true, ◌&&◌, List, some,
  All, arith, ltb, if◌then◌else◌, prefix, Bool-cases, sum_below, sum_below-zero, bit,
}
use pdxearch.Dimensions.Fetching.{sum, IsInterleaved}
use pdxearch.Computers.{sq_diff}
use pdxearch.Computers.Visit.{count}
use pdxearch.Computers.Reference.{squares}
use pdxearch.Kernel.Float.{Float}
use pdxearch.Kernel.Positions.{Positions, survivors}
use pdxearch.Kernel.Scan.{
  Job, Progress, Pruning, warmup_loop, read_threshold, prune_loops, prune_fuel,
}
use pdxearch.Kernel.Scan.Invariant.{WarmupInv, partial}
use pdxearch.Kernel.Scan.Loops.{
  IsJob, IsNear, full, ScanInv, horizontal_loop_lem, vertical_loop_lem, warmup_loop_lem,
  partial-full, partial-le-full, vertical_loop_idle,
}

module _ {ℓ} {F : Type ℓ} ⦃f : Float F⦄ (job : Job F) (x : ℕ → ℕ → ℕ) (is_selected : ℕ → Bool) where
  open job use {
    num_vertical_dimensions as V, num_horizontal_dimensions as H, n_vectors as n, query as q, block,
  }

  -- What a scan leaves: an embedding is either out, or listed once, selected, and at its exact
  -- distance modulo 2^32; a selected embedding whose full distance is below every threshold that
  -- can be read is listed.
  pub record IsScanned (t : Pruning) : Type 0 where
    pub exact :
        (v : ℕ)
        → (count v (survivors t.kept) ≡ 0)
          ⊎ ((count v (survivors t.kept) ≡ 1)
              × (v < n)
              × (is_selected v ≡ true)
              × (t.distances v ≡ full job x is_selected v % 2 ^ 32))
    pub near :
        (v : ℕ)
        → v < n
        → is_selected v ≡ true
        → IsNear job x is_selected v
        → count v (survivors t.kept) ≡ 1

  module _ (ok : IsJob job x is_selected) where
    -- With nothing listed every embedding is out.
    count-none : (s : Positions) (v : ℕ) → s.count ≡ 0 → count v (survivors s) ≡ 0
    unfolding prefix
    count-none s v e = rw e

    finished_idle : (t : Pruning) → ScanInv job x is_selected t → t.kept.count ≡ 0 → IsScanned t
    finished_idle t inv e = record {
      exact = λ v. inl (count-none t.kept v e);
      near = inv.near_kept;
    }

    finished :
        (t : Pruning)
        → ScanInv job x is_selected t
        → t.horizontal ≡ H
        → (t.kept.count ≡ 0) ⊎ (t.vertical ≡ V)
        → IsScanned t
    finished t inv h (inl e) = finished_idle t inv e
    finished t inv h (inr e) =
        let inv' = inv.pruning in
        record {
          exact = λ v. elim (inv'.tracked v) [
            | inl out ↦ inl out
            | inr (once, hv, sel, d) ↦ inr (
              once,
              hv,
              sel,
              d ∙ ap (λ t. t % 2 ^ 32) (rw (e, h) (partial-full job x is_selected v)),
            )
          ];
          near = inv.near_kept;
        }

    prune_loops_lem :
        (s : Pruning)
        → ScanInv job x is_selected s
        → (t : Pruning) × (prune_loops job s ≡ some t) × IsScanned t
    prune_loops_lem s inv =
        let (t, e, inv_t, end_t) =
          horizontal_loop_lem job x is_selected ok (prune_fuel job) s inv
            (let split = ok.split in omega arith) in
        rw (e, prune_loops)
          (elim end_t [
            | inl idle ↦ (
              t,
              vertical_loop_idle job x is_selected ok (prune_fuel job) t (omega arith) idle,
              finished_idle t inv_t idle,
            )
            | inr all ↦
                let (u, e', inv_u, same, end_u) =
                  vertical_loop_lem job x is_selected ok (prune_fuel job) t inv_t all
                    (let split = ok.split in omega arith) in
                (u, e', finished u inv_u same end_u)
          ])

    -- The first compaction lists every selected embedding below the threshold once.
    first-IsTracked :
        (p : Progress) (kept : Positions) (threshold : ℕ)
        → WarmupInv job x is_selected p
        → ((v : ℕ)
            → count v (survivors kept)
              ≡ (if ltb (p.distances v) threshold && is_selected v then bit (ltb v n) else 0))
        → (v : ℕ)
        → (count v (survivors kept) ≡ 0)
          ⊎ ((count v (survivors kept) ≡ 1)
              × (v < n)
              × (is_selected v ≡ true)
              × (p.distances v ≡ partial job x is_selected p.current_dimension_idx 0 v % 2 ^ 32))
    first-IsTracked p kept threshold inv counts v =
        elim (Bool-cases (ltb (p.distances v) threshold && is_selected v && ltb v n)) [
          | inl in_all ↦
              let hv : v < n = ground arith in
              let sel : is_selected v ≡ true = ground arith in
              inr (
                counts v ∙ ground arith,
                hv,
                sel,
                inv.exact v hv sel
                    ∙ ap (λ t. t % 2 ^ 32)
                        (nothing_more (squares q (x v) 0 p.current_dimension_idx)),
              )
          | inr not_all ↦ inl (counts v ∙ ground arith)
        ]
      where
        nothing_more : (a : ℕ) → a ≡ a + squares q (x v) V 0
        nothing_more a = omega (arith, sum_below-zero (λ i. sq_diff (q (V + i)) (x v (V + i))))

    pub prune_lem :
        (p : Progress) (kept : Positions)
        → WarmupInv job x is_selected p
        → ((v : ℕ)
            → count v (survivors kept) ≡ (
                if ltb (p.distances v) (read_threshold job p).threshold && is_selected v
                then bit (ltb v n)
                else 0))
        → (t : Pruning) × (prune_loops job (record {
          progress = read_threshold job p;
          kept = kept;
          vertical = p.current_dimension_idx;
          horizontal = 0;
        })
            ≡ some t)
          × IsScanned t
    prune_lem p kept inv counts =
        let split = ok.split in
        let cut = inv.cut in
        prune_loops_lem _ (record {
          pruning = record {
            cut = inv.cut;
            blocks = refl;
            inside = omega arith;
            dimensions = omega arith;
            tracked = first-IsTracked p kept _ inv counts;
          };
          near_kept = λ v hv sel near.
              let low =
                partial-le-full job x is_selected p.current_dimension_idx 0 v cut.0 (omega arith) in
              let e = inv.exact v hv sel in
              let far = near p.readings p.current_dimension_idx in
              let below : ltb (p.distances v) (read_threshold job p).threshold ≡ true =
                ground arith in
              counts v ∙ ground arith;
        })

    -- Distances of 0 for the selected embeddings are exact before the first dimension.
    pub start-WarmupInv :
        (p : Progress)
        → p.current_dimension_idx ≡ 0
        → ((v : ℕ) → v < n → is_selected v ≡ true → p.distances v ≡ 0)
        → WarmupInv job x is_selected p
    unfolding sum_below
    start-WarmupInv p e zeros = record {
      cut = rw e (omega arith, inl refl);
      exact = λ v hv sel. zeros v hv sel ∙ ap (λ c. squares q (x v) 0 c % 2 ^ 32) (sym e);
    }

    -- The loop of `Warmup` from its start.
    pub warmup_loop-start :
        (sizes : List ℕ) (needed : ℕ) (p : Progress)
        → All IsInterleaved sizes
        → V ≤ sum sizes
        → p.current_dimension_idx ≡ 0
        → ((v : ℕ) → v < n → is_selected v ≡ true → p.distances v ≡ 0)
        → (r : Progress) × (warmup_loop job sizes needed 0 p ≡ some r)
          × WarmupInv job x is_selected r
    warmup_loop-start sizes needed p fours enough e zeros =
        warmup_loop_lem job x is_selected ok sizes needed 0 p fours (omega arith)
          (start-WarmupInv p e zeros)
