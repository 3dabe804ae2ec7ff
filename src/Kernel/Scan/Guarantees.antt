-- ===== src/Kernel/Scan/Guarantees.antt =====
-- What `Warmup` and `Prune` guarantee of a stored cluster.
use pdxearch.Prelude.{
  ℕ, zero, suc, ◌+◌, ◌-◌, ◌*◌, ◌/◌, ◌%◌, ◌^◌, ◌≤◌, ◌<◌, ◌≡◌, ◌∙◌, ◌⊎◌, inl, inr, Bool, some, arith,
  Buffer, sum_below, refl, ==_iff,
}
use pdxearch.Dimensions.{pdx_max_dims}
use pdxearch.Computers.{sq_diff}
use pdxearch.Computers.Visit.{count}
use pdxearch.Computers.Reference.{squares}
use pdxearch.Kernel.Float.{Float}
use pdxearch.Kernel.Positions.{survivors, u32_max}
use pdxearch.Kernel.Scan.{Job, Pruning, scan, scan_filtered}
use pdxearch.Kernel.Scan.Loops.{IsJob, IsNear, full}
use pdxearch.Kernel.Scan.Calls.{everything, passing, scan_lem, scan_filtered_lem}

sum_below-le : (c n : ℕ) (f : ℕ → ℕ) → ((i : ℕ) → f i ≤ c) → sum_below n f ≤ n * c
unfolding sum_below
sum_below-le c zero f h = omega arith
sum_below-le c (suc n) f h = let first = sum_below-le c n f h in let last = h n in ground arith

below_square : (g : ℕ) → g ≤ 255 → g * g ≤ 65_025
below_square g le = grind arith

sq_diff-le : (a b : ℕ) → a < 256 → b < 256 → sq_diff a b ≤ 65_025
unfolding sq_diff
sq_diff-le a b ha hb = let gap : a - b + (b - a) ≤ 255 = omega arith in below_square _ gap

-- Bytes in the query and in an embedding keep every partial sum of their squared distance, up to
-- the greatest number of dimensions of an index, within half of the range of a `uint32_t`: neither
-- an exact distance nor one that is added to a masked distance wraps.
pub squares-small :
    (q x : ℕ → ℕ) (lo len : ℕ)
    → ((i : ℕ) → q i < 256)
    → ((i : ℕ) → x i < 256)
    → len ≤ pdx_max_dims
    → squares q x lo len < u32_max / 2
squares-small q x lo len hq hx few =
    let all =
      sum_below-le 65_025 len (λ i. sq_diff (q (lo + i)) (x (lo + i)))
        (λ i. sq_diff-le _ _ (hq (lo + i)) (hx (lo + i))) in
    omega arith

pub squares-bound :
    (q x : ℕ → ℕ) (lo len : ℕ)
    → ((i : ℕ) → q i < 256)
    → ((i : ℕ) → x i < 256)
    → len ≤ pdx_max_dims
    → u32_max / 2 + squares q x lo len ≤ u32_max
squares-bound q x lo len hq hx few = omega (arith, squares-small q x lo len hq hx few)

module _ {ℓ} {F : Type ℓ} ⦃f : Float F⦄ (job : Job F) (x : ℕ → ℕ → ℕ) where
  open job use {
    num_vertical_dimensions as V, num_horizontal_dimensions as H, n_vectors as n, query as q,
  }

  -- A stored cluster of an index within the limit of dimensions, with bytes as its values.
  pub record IsByteJob (is_selected : ℕ → Bool) : Type 0 where
    pub is_job : IsJob job x is_selected
    pub few : V + H ≤ pdx_max_dims
    pub query_bytes : (i : ℕ) → q i < 256
    pub bytes : (v i : ℕ) → x v i < 256

  pub no_wrap :
      (is_selected : ℕ → Bool) (v : ℕ)
      → IsByteJob is_selected
      → full job x is_selected v % 2 ^ 32 ≡ full job x is_selected v
  no_wrap is_selected v ok =
      let low = squares-bound q (x v) 0 (V + H) ok.query_bytes (ok.bytes v) ok.few in omega arith

  -- `Warmup` and `Prune` return, whatever the heap's top is at each of their readings and whatever
  -- the buffers held before. Each embedding is then either pruned or listed exactly once, and the
  -- distance of a listed embedding is its squared Euclidean distance to the query over all
  -- dimensions, without wrap-around.
  pub scan-exact :
      (needed : ℕ) (positions d : Buffer ℕ) (v : ℕ)
      → IsByteJob everything
      → (t : Pruning) × (scan job needed positions d ≡ some t)
        × ((count v (survivors t.kept) ≡ 0)
            ⊎ ((count v (survivors t.kept) ≡ 1)
                × (v < n)
                × (t.distances v ≡ squares q (x v) 0 (V + H))))
  scan-exact needed positions d v ok =
      let few = ok.few in
      let (t, e, scanned) = scan_lem job x (omega arith) needed positions d ok.is_job in
      (
        t,
        e,
        elim (scanned.exact v) [
          | inl out ↦ inl out
          | inr (once, hv, _, dist) ↦ inr (once, hv, dist ∙ no_wrap everything v ok)
        ],
      )

  -- An embedding of the cluster whose squared distance is below the pruning threshold that each
  -- reading of the heap's top gives, at every number of dimensions, is never pruned.
  pub scan-near :
      (needed : ℕ) (positions d : Buffer ℕ) (v : ℕ)
      → IsByteJob everything
      → v < n
      → IsNear job x everything v
      → (t : Pruning) × (scan job needed positions d ≡ some t)
        × (count v (survivors t.kept) ≡ 1)
        × (t.distances v ≡ squares q (x v) 0 (V + H))
  scan-near needed positions d v ok hv near =
      let few = ok.few in
      let (t, e, scanned) = scan_lem job x (omega arith) needed positions d ok.is_job in
      let once = scanned.near v hv refl near in
      (
        t,
        e,
        once,
        elim (scanned.exact v) [
          | inl out ↦ absurd (omega arith)
          | inr (_, _, _, dist) ↦ dist ∙ no_wrap everything v ok
        ],
      )

  -- `Warmup<true>` and `Prune<true>` return in the same way, whether or not they skip the scan of
  -- all embeddings, and what they list exactly once, with its exact squared distance, passes the
  -- filter.
  pub scan_filtered-exact :
      (needed : ℕ) (is_selective : Bool) (selection positions d : Buffer ℕ) (v : ℕ)
      → IsByteJob (passing selection)
      → (t : Pruning) × (scan_filtered job needed is_selective selection positions d ≡ some t)
        × ((count v (survivors t.kept) ≡ 0)
            ⊎ ((count v (survivors t.kept) ≡ 1)
                × (v < n)
                × (selection v ≡ 1)
                × (t.distances v ≡ squares q (x v) 0 (V + H))))
  scan_filtered-exact needed is_selective selection positions d v ok =
      let few = ok.few in
      let (t, e, scanned) =
        scan_filtered_lem job x (omega arith) needed is_selective selection positions d ok.is_job in
      (
        t,
        e,
        elim (scanned.exact v) [
          | inl out ↦ inl out
          | inr (once, hv, sel, dist) ↦
              inr (once, hv, (==_iff _ _).0 sel, dist ∙ no_wrap (passing selection) v ok)
        ],
      )

  -- An embedding that passes the filter and is near in the sense above is never pruned by the
  -- filtered scan.
  pub scan_filtered-near :
      (needed : ℕ) (is_selective : Bool) (selection positions d : Buffer ℕ) (v : ℕ)
      → IsByteJob (passing selection)
      → v < n
      → selection v ≡ 1
      → IsNear job x (passing selection) v
      → (t : Pruning) × (scan_filtered job needed is_selective selection positions d ≡ some t)
        × (count v (survivors t.kept) ≡ 1)
        × (t.distances v ≡ squares q (x v) 0 (V + H))
  scan_filtered-near needed is_selective selection positions d v ok hv sel near =
      let few = ok.few in
      let (t, e, scanned) =
        scan_filtered_lem job x (omega arith) needed is_selective selection positions d ok.is_job in
      let once = scanned.near v hv ((==_iff _ _).1 sel) near in
      (
        t,
        e,
        once,
        elim (scanned.exact v) [
          | inl out ↦ absurd (omega arith)
          | inr (_, _, _, dist) ↦ dist ∙ no_wrap (passing selection) v ok
        ],
      )
