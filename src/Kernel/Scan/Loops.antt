-- ===== src/Kernel/Scan/Loops.antt =====
-- The loops of `Prune` and `Warmup` end within their fuel and their table, keep the invariant, and
-- keep every embedding that is nearer than all thresholds.
use pdxearch.Prelude.{
  ℕ, zero, suc, ◌+◌, ◌-◌, ◌*◌, ◌%◌, ◌^◌, ◌≤◌, ◌<◌, ◌≡◌, ◌≢◌, refl, ap, sym, ◌∙◌, ◌⊎◌, inl, inr, min,
  Bool, true, false, not, ◌&&◌, List, [], ◌∷◌, some, All, arith, ltb, ◌==◌, if◌then◌else◌,
  Bool-cases, ==_iff,
}
use pdxearch.Dimensions.Fetching.{sum, IsInterleaved}
use pdxearch.Computers.Visit.{count}
use pdxearch.Computers.Reference.{IsStored, squares}
use pdxearch.Kernel.Float.{Float}
use pdxearch.Kernel.Positions.{survivors, evaluate_pruning_predicate_scalar}
use pdxearch.Kernel.Scan.{
  Job, Progress, Pruning, get_pruning_threshold, warmup_round, warmup_loop, horizontal_round,
  vertical_round, horizontal_loop, vertical_loop,
}
use pdxearch.Kernel.Scan.Invariant.{
  WarmupInv, PruneInv, partial, count-evaluate, squares-split, squares-add, warmup_round-WarmupInv,
  horizontal_round-PruneInv, vertical_round-PruneInv, horizontal_round-distance,
  vertical_round-distance,
}

module _ {ℓ} {F : Type ℓ} ⦃f : Float F⦄ (job : Job F) (x : ℕ → ℕ → ℕ) (is_selected : ℕ → Bool) where
  open job use {
    num_vertical_dimensions as V, num_horizontal_dimensions as H, n_vectors as n, query as q, block,
  }

  -- The job reads a stored cluster whose dimensions are split into whole horizontal blocks.
  pub record IsJob : Type 0 where
    pub stored : IsStored V H n block x
    pub split : job.num_dimensions ≡ V + H
    pub whole : H % 64 ≡ 0

  -- The distance over all dimensions.
  abbrev pub full : ℕ → ℕ
  full v = squares q (x v) 0 (V + H)

  -- No threshold that is read prunes the embedding by its distance over all dimensions.
  abbrev pub IsNear : ℕ → Type 0
  IsNear v = (i dim : ℕ) → full v < get_pruning_threshold job (job.tops i) dim

  pub record ScanInv (s : Pruning) : Type 0 where
    pub pruning : PruneInv job x is_selected s
    pub near_kept :
        (v : ℕ) → v < n → is_selected v ≡ true → IsNear v → count v (survivors s.kept) ≡ 1

  pub partial-full : (v : ℕ) → partial job x is_selected V H v ≡ full v
  partial-full v =
      let e : V + H - V ≡ H = omega arith in
      ap (λ t. squares q (x v) 0 V + squares q (x v) V t) (sym e)
      ∙ sym (squares-split q (x v) V (V + H) (omega arith))

  pub partial-le-full : (c h v : ℕ) → c ≤ V → h ≤ H → partial job x is_selected c h v ≤ full v
  partial-le-full c h v hc hh =
      let room : c + (V - c) ≡ V = omega arith in
      let more : h + (H - h) ≡ H = omega arith in
      let first = squares-split q (x v) c V hc in
      let second : squares q (x v) V H ≡ squares q (x v) V h + squares q (x v) (V + h) (H - h) =
        ap (squares q (x v) V) (sym more) ∙ squares-add q (x v) V h (H - h) in
      let all = partial-full v in omega arith

  -- A near embedding passes a compaction.
  near_passes :
      (s : Pruning) (a i dim c h v : ℕ)
      → c ≤ V
      → h ≤ H
      → IsNear v
      → count v (survivors s.kept) ≡ 1
      → a ≡ partial job x is_selected c h v % 2 ^ 32
      → (if ltb a (get_pruning_threshold job (job.tops i) dim)
          then count v (survivors s.kept)
          else 0)
        ≡ 1
  near_passes s a i dim c h v hc hh near once e =
      let low = partial-le-full c h v hc hh in
      let far = near i dim in
      let below : a < get_pruning_threshold job (job.tops i) dim = omega arith in ground arith

  module _ (ok : IsJob) where
    horizontal_round-ScanInv :
        (s : Pruning) → s.horizontal < H → ScanInv s → ScanInv (horizontal_round job s)
    unfolding horizontal_round
    horizontal_round-ScanInv s lt inv =
        let inv' = inv.pruning in
        let next = horizontal_round-PruneInv job x is_selected ok.stored s lt ok.whole inv' in
        record {
          pruning = next;
          near_kept = λ v hv sel near.
              let once = inv.near_kept v hv sel near in
              elim (horizontal_round-distance job x is_selected ok.stored s v inv' lt
                (inv'.tracked v)) [
                  | inl out ↦ absurd (omega arith)
                  | inr (_, _, _, e) ↦
                      count-evaluate s.kept.count _ v s.kept.positions _
                      ∙ near_passes s _ s.readings (s.current_dimension_idx + 64) s.vertical
                          (s.horizontal + 64) v inv'.cut.0 next.inside near once e
                ];
        }

    vertical_round-ScanInv :
        (s : Pruning)
        → s.vertical < V
        → s.horizontal ≡ H
        → ScanInv s
        → ScanInv (vertical_round job s)
    unfolding vertical_round
    vertical_round-ScanInv s lt done inv =
        let inv' = inv.pruning in
        record {
          pruning = vertical_round-PruneInv job x is_selected ok.stored s lt done ok.split inv';
          near_kept = λ v hv sel near.
              let once = inv.near_kept v hv sel near in
              elim (vertical_round-distance job x is_selected ok.stored s v inv' lt
                (inv'.tracked v)) [
                  | inl out ↦ absurd (omega arith)
                  | inr (_, _, _, e) ↦
                      count-evaluate s.kept.count _ v s.kept.positions _
                      ∙ near_passes s _ s.readings
                          (min (s.current_dimension_idx + 64) job.num_dimensions)
                          (min (s.vertical + 64) V) s.horizontal v (omega arith) inv'.inside near
                          once e
                ];
        }

    vertical-round : (s : Pruning) → (vertical_round job s).vertical ≡ min (s.vertical + 64) V
    unfolding vertical_round
    vertical-round s = refl

    horizontal-vertical_round : (s : Pruning) → (vertical_round job s).horizontal ≡ s.horizontal
    unfolding vertical_round
    horizontal-vertical_round s = refl

    horizontal-round : (s : Pruning) → (horizontal_round job s).horizontal ≡ s.horizontal + 64
    unfolding horizontal_round
    horizontal-round s = refl

    -- With nothing listed the vertical loop does not run.
    pub vertical_loop_idle :
        (fuel : ℕ) (s : Pruning) → 0 < fuel → s.kept.count ≡ 0 → vertical_loop job fuel s ≡ some s
    unfolding vertical_loop
    vertical_loop_idle zero s h e = absurd (omega arith)
    vertical_loop_idle (suc fuel) s h e =
        let stop : (not (s.kept.count == 0) && ltb s.vertical V) ≡ false = ground arith in rw stop

    -- Fuel for the blocks that are left is enough, and the loop stops when nothing is listed or all
    -- blocks are read.
    pub horizontal_loop_lem :
        (fuel : ℕ) (s : Pruning)
        → ScanInv s
        → H < s.horizontal + 64 * fuel
        → (t : Pruning) × (horizontal_loop job fuel s ≡ some t)
          × ScanInv t
          × ((t.kept.count ≡ 0) ⊎ (t.horizontal ≡ H))
    unfolding horizontal_loop
    horizontal_loop_lem zero s inv lt =
        let inv' = inv.pruning in let low = inv'.inside in absurd (omega arith)
    horizontal_loop_lem (suc fuel) s inv lt =
        let test = not (H == 0) && not (s.kept.count == 0) && ltb s.horizontal H in
        elim (Bool-cases test) [
          | inl go ↦
              let more : s.horizontal < H = ground arith in
              rw go (
                horizontal_loop_lem fuel (horizontal_round job s)
                  (horizontal_round-ScanInv s more inv) (rw (horizontal-round s) (omega arith)))
          | inr stop ↦
              let inv' = inv.pruning in
              let low = inv'.inside in rw stop (s, refl, inv, ground arith)
        ]

    pub vertical_loop_lem :
        (fuel : ℕ) (s : Pruning)
        → ScanInv s
        → s.horizontal ≡ H
        → V < s.vertical + 64 * fuel
        → (t : Pruning) × (vertical_loop job fuel s ≡ some t)
          × ScanInv t
          × (t.horizontal ≡ H)
          × ((t.kept.count ≡ 0) ⊎ (t.vertical ≡ V))
    unfolding vertical_loop
    vertical_loop_lem zero s inv done lt =
        let inv' = inv.pruning in let low = inv'.cut.0 in absurd (omega arith)
    vertical_loop_lem (suc fuel) s inv done lt =
        elim (Bool-cases (not (s.kept.count == 0) && ltb s.vertical V)) [
          | inl go ↦
              let more : s.vertical < V = ground arith in
              let t = vertical_round job s in
              let inv_t = vertical_round-ScanInv s more done inv in
              let inv_t' = inv_t.pruning in
              let same : t.horizontal ≡ H = horizontal-vertical_round s ∙ done in
              rw go (elim (Bool-cases (t.current_dimension_idx == job.num_dimensions)) [
                | inl last ↦
                    let all : t.current_dimension_idx ≡ job.num_dimensions = (==_iff _ _).0 last in
                    let dims = inv_t'.dimensions in
                    let split = ok.split in rw last (t, refl, inv_t, same, inr (omega arith))
                | inr further ↦
                    let open_end : t.current_dimension_idx ≢ job.num_dimensions = ground arith in
                    let dims = inv_t'.dimensions in
                    let split = ok.split in
                    let step = vertical-round s in
                    rw further (vertical_loop_lem fuel t inv_t same (omega arith))
              ])
          | inr stop ↦
              let inv' = inv.pruning in
              let low = inv'.cut.0 in rw stop (s, refl, inv, done, ground arith)
        ]

    current-warmup_round :
        (s : ℕ) (p : Progress)
        → (warmup_round job s p).current_dimension_idx ≡ min (p.current_dimension_idx + s) V
    unfolding warmup_round
    current-warmup_round s p = refl

    -- Fetching sizes that cover the vertical dimensions are enough: the loop never reads past them.
    pub warmup_loop_lem :
        (sizes : List ℕ) (needed pruned : ℕ) (p : Progress)
        → All IsInterleaved sizes
        → V ≤ p.current_dimension_idx + sum sizes
        → WarmupInv job x is_selected p
        → (r : Progress) × (warmup_loop job sizes needed pruned p ≡ some r)
          × WarmupInv job x is_selected r
    unfolding warmup_loop
    warmup_loop_lem [] needed pruned p fours enough inv =
        let stop : (ltb pruned needed && ltb p.current_dimension_idx V) ≡ false = ground arith in
        rw stop (p, refl, inv)
    warmup_loop_lem (s ∷ sizes) needed pruned p (four, fours) enough inv =
        elim (Bool-cases (ltb pruned needed && ltb p.current_dimension_idx V)) [
          | inl go ↦
              let more : p.current_dimension_idx < V = ground arith in
              let r = warmup_round job s p in
              rw go (
                warmup_loop_lem sizes needed
                  (evaluate_pruning_predicate_scalar 0 n r.distances r.threshold) r fours
                  (rw (current-warmup_round s p) (omega arith))
                  (warmup_round-WarmupInv job x is_selected ok.stored s p four more inv))
          | inr stop ↦ rw stop (p, refl, inv)
        ]
