-- ===== src/Kernel/Scan/Invariant.antt =====
-- What holds of the distances between the rounds of `Warmup` and `Prune`.
use mathlib.Core.Path.{ap₂}
use native.Mathlib.Nat.{mul_comm}
use pdxearch.Prelude.{
  ℕ, ◌+◌, ◌-◌, ◌*◌, ◌/◌, ◌%◌, ◌^◌, ◌≤◌, ◌<◌, ◌≡◌, refl, ap, sym, ◌∙◌, ◌⊎◌, inl, inr, min, Bool,
  true, arith, ltb, if◌then◌else◌, Buffer, prefix, sum_below-add, sum_below-congr, Bool-cases,
}
use pdxearch.Computers.{add32, sq_diff, touch, vertical_u8, horizontal_u8}
use pdxearch.Computers.Visit.{count, count-select, count-range, touch_listed}
use pdxearch.Computers.Reference.{
  IsStored, IsRange, squares, vertical_u8-squares, horizontal_u8-squares,
}
use pdxearch.Kernel.Float.{Float}
use pdxearch.Kernel.Positions.{Positions, survivors, evaluate_pruning_predicate_on_positions}
use pdxearch.Kernel.Positions.Compaction.{survivors-evaluate}
use pdxearch.Kernel.Scan.{Job, Progress, Pruning, warmup_round, horizontal_round, vertical_round}

pub squares-add :
    (q x : ℕ → ℕ) (lo a b : ℕ) → squares q x lo (a + b) ≡ squares q x lo a + squares q x (lo + a) b
squares-add q x lo a b =
    sum_below-add a b (λ i. sq_diff (q (lo + i)) (x (lo + i)))
    ∙ ap (λ t. squares q x lo a + t)
        (sum_below-congr b _ _ λ i lt.
          let e : lo + (a + i) ≡ lo + a + i = omega arith in ap (λ t. sq_diff (q t) (x t)) e)

pub squares-split :
    (q x : ℕ → ℕ) (c last : ℕ)
    → c ≤ last
    → squares q x 0 last ≡ squares q x 0 c + squares q x c (last - c)
squares-split q x c last le =
    let whole : c + (last - c) ≡ last = omega arith in
    let from : 0 + c ≡ c = omega arith in
    ap (squares q x 0) (sym whole)
    ∙ squares-add q x 0 c (last - c)
    ∙ ap (λ t. squares q x 0 c + squares q x t (last - c)) from

pub mod_add : (a b : ℕ) → (a % 2 ^ 32 + b) % 2 ^ 32 ≡ (a + b) % 2 ^ 32
mod_add a b = omega arith

pub mod_small : (a b : ℕ) → a ≡ b % 2 ^ 32 → a < 2 ^ 32
mod_small a b e = omega arith

-- A number of vertical dimensions after which the kernels can go on.
abbrev pub IsCut : ℕ → ℕ → Type 0
IsCut V c = (c ≤ V) × ((c % 4 ≡ 0) ⊎ (c ≡ V))

pub IsCut-step :
    (V c s : ℕ)
    → IsCut V c
    → c < V
    → s % 4 ≡ 0
    → IsRange V c (min (c + s) V) × IsCut V (min (c + s) V)
IsCut-step V c s cut lt whole = ground arith

-- A listed embedding stays listed exactly when it passes the compaction.
pub count-evaluate :
    (n threshold v : ℕ) (p d : Buffer ℕ)
    → count v (survivors (evaluate_pruning_predicate_on_positions n p threshold d))
      ≡ (if ltb (d v) threshold then count v (prefix n p) else 0)
count-evaluate n threshold v p d =
    ap (count v) (survivors-evaluate n threshold p d) ∙ count-select _ v (prefix n p)

module _ {ℓ} {F : Type ℓ} ⦃f : Float F⦄ (job : Job F) (x : ℕ → ℕ → ℕ) (is_selected : ℕ → Bool) where
  open job use {
    num_vertical_dimensions as V, num_horizontal_dimensions as H, n_vectors as n, query as q, block,
  }

  -- The distance over the first `c` vertical and the first `h` horizontal dimensions.
  abbrev pub partial : (c h v : ℕ) → ℕ
  partial c h v = squares q (x v) 0 c + squares q (x v) V h

  pub record WarmupInv (p : Progress) : Type 0 where
    pub cut : IsCut V p.current_dimension_idx
    pub exact :
        (v : ℕ)
        → v < n
        → is_selected v ≡ true
        → p.distances v ≡ squares q (x v) 0 p.current_dimension_idx % 2 ^ 32

  -- Either an embedding is out, or it is listed once and its distance is exact so far.
  abbrev pub IsTracked : Pruning → ℕ → Type 0
  IsTracked s v =
      (count v (survivors s.kept) ≡ 0)
      ⊎ ((count v (survivors s.kept) ≡ 1)
          × (v < n)
          × (is_selected v ≡ true)
          × (s.distances v ≡ partial s.vertical s.horizontal v % 2 ^ 32))

  pub record PruneInv (s : Pruning) : Type 0 where
    pub cut : IsCut V s.vertical
    pub blocks : s.horizontal % 64 ≡ 0
    pub inside : s.horizontal ≤ H
    pub dimensions : s.current_dimension_idx ≡ s.vertical + s.horizontal
    pub tracked : (v : ℕ) → IsTracked s v

  module _ (stored : IsStored V H n block x) where
    pub warmup_round-WarmupInv :
        (s : ℕ) (p : Progress)
        → s % 4 ≡ 0
        → p.current_dimension_idx < V
        → WarmupInv p
        → WarmupInv (warmup_round job s p)
    unfolding warmup_round
    warmup_round-WarmupInv s p whole lt inv =
        let c = p.current_dimension_idx in
        let last = min (c + s) V in
        let (range, cut) = IsCut-step V c s inv.cut lt whole in
        let join : c + (last - c) ≡ last = omega arith in
        record {
          cut = cut;
          exact = λ v hv sel.
              let old = inv.exact v hv sel in
              let done = squares q (x v) 0 c in
              vertical_u8-squares V H n q block x stored n c last range (λ i. i) v hv p.distances
                (count-range v n ∙ ground arith) (mod_small _ done old)
              ∙ ap (λ t. (t + squares q (x v) c (last - c)) % 2 ^ 32) old
              ∙ mod_add done (squares q (x v) c (last - c))
              ∙ ap (λ t. t % 2 ^ 32) (sym (squares-split q (x v) c last range.ordered));
        }

    -- A compaction keeps the invariant, if the listed embeddings have exact distances.
    compact-IsTracked :
        (s : Positions) (threshold c h v : ℕ) (d : Buffer ℕ)
        → (count v (survivors s) ≡ 0)
          ⊎ ((count v (survivors s) ≡ 1)
              × (v < n)
              × (is_selected v ≡ true)
              × (d v ≡ partial c h v % 2 ^ 32))
        → let kept =
            survivors (evaluate_pruning_predicate_on_positions s.count s.positions threshold d) in
          (count v kept ≡ 0)
          ⊎ ((count v kept ≡ 1) × (v < n) × (is_selected v ≡ true) × (d v ≡ partial c h v % 2 ^ 32))
    compact-IsTracked s threshold c h v d (inl out) =
        inl (count-evaluate s.count threshold v s.positions d ∙ ground arith)
    compact-IsTracked s threshold c h v d (inr (once, hv, sel, e)) =
        elim (Bool-cases (ltb (d v) threshold)) [
          | inl near ↦
              inr (count-evaluate s.count threshold v s.positions d ∙ rw near once, hv, sel, e)
          | inr far ↦ inl (count-evaluate s.count threshold v s.positions d ∙ rw far)
        ]

    pub vertical_round-distance :
        (s : Pruning) (v : ℕ)
        → PruneInv s
        → s.vertical < V
        → IsTracked s v
        → let last = min (s.vertical + 64) V in
          let d = vertical_u8 q block s.kept.count n s.vertical last s.kept.positions s.distances in
          (count v (survivors s.kept) ≡ 0)
          ⊎ ((count v (survivors s.kept) ≡ 1)
              × (v < n)
              × (is_selected v ≡ true)
              × (d v ≡ partial last s.horizontal v % 2 ^ 32))
    vertical_round-distance s v inv lt (inl out) = inl out
    vertical_round-distance s v inv lt (inr (once, hv, sel, old)) =
        let c = s.vertical in
        let last = min (c + 64) V in
        let (range, cut) = IsCut-step V c 64 inv.cut lt refl in
        let done = partial c s.horizontal v in
        let more = squares q (x v) c (last - c) in
        let regroup : done + more ≡ squares q (x v) 0 c + more + squares q (x v) V s.horizontal =
          omega arith in
        inr (
          once,
          hv,
          sel,
          vertical_u8-squares V H n q block x stored s.kept.count c last range s.kept.positions v hv
                s.distances once (mod_small _ done old)
              ∙ ap (λ t. (t + more) % 2 ^ 32) old
              ∙ mod_add done more
              ∙ ap (λ t. t % 2 ^ 32) regroup
              ∙ ap (λ t. (t + squares q (x v) V s.horizontal) % 2 ^ 32)
                  (sym (squares-split q (x v) c last range.ordered)),
        )

    -- The block that a round of the horizontal loop reads for an embedding.
    horizontal_block :
        (h v : ℕ)
        → h % 64 ≡ 0
        → h < H
        → v < n
        → horizontal_u8 (λ i. q (V + h + i)) (λ i. block (V * n + h * n + v * 64 + i)) 64
          ≡ squares q (x v) (V + h) 64 % 2 ^ 32
    horizontal_block h v whole lt hv =
        let e : h / 64 * 64 ≡ h = omega arith in
        let comm : V * n ≡ n * V = mul_comm V n in
        ap (λ t. horizontal_u8 (λ i. q (V + h + i)) (λ i. block (t + h * n + v * 64 + i)) 64) comm
        ∙ ap (λ t. horizontal_u8 (λ i. q (V + t + i)) (λ i. block (n * V + t * n + v * 64 + i)) 64)
            (sym e)
        ∙ horizontal_u8-squares V H n q block x stored (h / 64) v (omega arith) hv
        ∙ ap (λ t. squares q (x v) (V + t) 64 % 2 ^ 32) e

    pub horizontal_round-distance :
        (s : Pruning) (v : ℕ)
        → PruneInv s
        → s.horizontal < H
        → IsTracked s v
        → let d =
            touch s.kept.count s.kept.positions
              (λ v a. add32 a (
                horizontal_u8
                  (λ i. q (V + s.horizontal + i))
                  (λ i. block (V * n + s.horizontal * n + v * 64 + i))
                  64))
              s.distances in
          (count v (survivors s.kept) ≡ 0)
          ⊎ ((count v (survivors s.kept) ≡ 1)
              × (v < n)
              × (is_selected v ≡ true)
              × (d v ≡ partial s.vertical (s.horizontal + 64) v % 2 ^ 32))
    horizontal_round-distance s v inv lt (inl out) = inl out
    horizontal_round-distance s v inv lt (inr (once, hv, sel, old)) =
        let h = s.horizontal in
        let done = partial s.vertical h v in
        let more = squares q (x v) (V + h) 64 in
        let sum : (done % 2 ^ 32 + more % 2 ^ 32) % 2 ^ 32 ≡ (done + more) % 2 ^ 32 = omega arith in
        let regroup : done + more ≡ squares q (x v) 0 s.vertical + (squares q (x v) V h + more) =
          omega arith in
        inr (
          once,
          hv,
          sel,
          touch_listed
                (λ v a.
                  add32 a (
                    horizontal_u8 (λ i. q (V + h + i)) (λ i. block (V * n + h * n + v * 64 + i))
                      64))
                s.kept.positions v s.distances s.kept.count once
              ∙ ap₂ add32 old (horizontal_block h v inv.blocks lt hv)
              ∙ sum
              ∙ ap (λ t. t % 2 ^ 32) regroup
              ∙ ap (λ t. (squares q (x v) 0 s.vertical + t) % 2 ^ 32)
                  (sym (squares-add q (x v) V h 64)),
        )

    pub horizontal_round-PruneInv :
        (s : Pruning)
        → s.horizontal < H
        → H % 64 ≡ 0
        → PruneInv s
        → PruneInv (horizontal_round job s)
    unfolding horizontal_round
    horizontal_round-PruneInv s lt whole inv =
        let blocks = inv.blocks in
        let dims = inv.dimensions in
        record {
          cut = inv.cut;
          blocks = omega arith;
          inside = omega arith;
          dimensions = omega arith;
          tracked = λ v.
              compact-IsTracked s.kept _ s.vertical (s.horizontal + 64) v _
                (horizontal_round-distance s v inv lt (inv.tracked v));
        }

    pub vertical_round-PruneInv :
        (s : Pruning)
        → s.vertical < V
        → s.horizontal ≡ H
        → job.num_dimensions ≡ V + H
        → PruneInv s
        → PruneInv (vertical_round job s)
    unfolding vertical_round
    vertical_round-PruneInv s lt done split inv =
        let (range, cut) = IsCut-step V s.vertical 64 inv.cut lt refl in
        let dims = inv.dimensions in
        record {
          cut = cut;
          blocks = inv.blocks;
          inside = inv.inside;
          dimensions = omega arith;
          tracked = λ v.
              compact-IsTracked s.kept _ (min (s.vertical + 64) V) s.horizontal v _
                (vertical_round-distance s v inv lt (inv.tracked v));
        }
