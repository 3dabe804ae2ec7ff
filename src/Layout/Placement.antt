-- ===== src/Layout/Placement.antt =====
-- The place of dimension d of embedding v in a stored cluster, for both layouts.
use pdxearch.Prelude.{
  ℕ, ◌+◌, ◌-◌, ◌*◌, ◌/◌, ◌%◌, ◌≤◌, ◌<◌, ◌≡◌, ap, ◌∙◌, arith, Buffer, ltb, if◌then◌else◌,
}
use pdxearch.Layout.Assign.{Eigen, Matrix, IsAssignment}
use pdxearch.Layout.Stored.{
  stored_u8-group, stored_u8-tail, stored_u8-horizontal, stored_u8-above, horizontal_inside,
  horizontal_below, horizontal_above, end_of_block,
}
use pdxearch.Layout.{
  input, store_horizontal, store_cluster_embeddings_f32, store_cluster_embeddings_u8,
}

-- Dimension-major: all values of a vertical dimension side by side. Behind the vertical part the
-- horizontal blocks keep 64 values of an embedding side by side.
abbrev pub place_f32 : (V n v d : ℕ) → ℕ
place_f32 V n v d =
    if ltb d V then d * n + v else n * V + ((d - V) / 64 * (n * 64) + (v * 64 + (d - V) % 64))

-- As above, but the vertical dimensions in groups of four, and the fewer than four left in one group.
abbrev pub place_u8 : (V n v d : ℕ) → ℕ
place_u8 V n v d =
    if ltb d (V / 4 * 4)
    then d / 4 * 4 * n + (v * 4 + d % 4)
    else (if ltb d V
        then V / 4 * 4 * n + (v * (V - V / 4 * 4) + (d - V / 4 * 4))
        else n * V + ((d - V) / 64 * (n * 64) + (v * 64 + (d - V) % 64)))

module _ {A : Type 0} ⦃eigen : Eigen A⦄ where
  -- Both parts of the layout for U8: what is stored, and what is left alone.
  placed_u8 :
      IsAssignment A
      → (V H D n : ℕ) (out embeddings : Buffer A) → H % 64 ≡ 0
      → ((v d : ℕ)
          → v < n
          → d < V + H
          → store_cluster_embeddings_u8 V H D out embeddings n (place_u8 V n v d)
            ≡ embeddings (v * D + d))
        × ((k : ℕ) → n * (V + H) ≤ k → store_cluster_embeddings_u8 V H D out embeddings n k ≡ out k)
  placed_u8 laws V H D n out embeddings whole = (placed, behind)
    where
      group :
          (v d : ℕ)
          → v < n
          → d < V / 4 * 4
          → store_cluster_embeddings_u8 V H D out embeddings n (d / 4 * 4 * n + (v * 4 + d % 4))
            ≡ embeddings (v * D + d)
      group v d hv hd =
          let e : d / 4 * 4 + d % 4 ≡ d = omega arith in
          stored_u8-group laws V H D n out embeddings (d / 4) v (d % 4) (omega arith) hv
            (omega arith)
          ∙ ap (λ t. embeddings (v * D + t)) e

      tail :
          (v d : ℕ)
          → v < n
          → V / 4 * 4 ≤ d
          → d < V
          → store_cluster_embeddings_u8 V H D out embeddings n
              (V / 4 * 4 * n + (v * (V - V / 4 * 4) + (d - V / 4 * 4)))
            ≡ embeddings (v * D + d)
      tail v d hv low hd =
          let e : V / 4 * 4 + (d - V / 4 * 4) ≡ d = omega arith in
          stored_u8-tail laws V H D n out embeddings v (d - V / 4 * 4) hv (omega arith)
          ∙ ap (λ t. embeddings (v * D + t)) e

      horizontal :
          (v d : ℕ)
          → v < n
          → V ≤ d
          → d < V + H
          → store_cluster_embeddings_u8 V H D out embeddings n
              (n * V + ((d - V) / 64 * (n * 64) + (v * 64 + (d - V) % 64)))
            ≡ embeddings (v * D + d)
      horizontal v d hv low hd =
          let e : V + (d - V) / 64 * 64 + (d - V) % 64 ≡ d = omega arith in
          stored_u8-horizontal laws V H D n out embeddings ((d - V) / 64) v ((d - V) % 64)
            (omega arith) hv (omega arith)
          ∙ ap (λ t. embeddings (v * D + t)) e

      placed :
          (v d : ℕ)
          → v < n
          → d < V + H
          → store_cluster_embeddings_u8 V H D out embeddings n (place_u8 V n v d)
            ≡ embeddings (v * D + d)
      placed v d hv hd = ground (arith, group v d hv, tail v d hv, horizontal v d hv)

      behind :
          (k : ℕ) → n * (V + H) ≤ k → store_cluster_embeddings_u8 V H D out embeddings n k ≡ out k
      behind k = stored_u8-above laws V H D n out embeddings k whole

  placed_f32 :
      IsAssignment A
      → (V H D n : ℕ) (out embeddings : Buffer A) → H % 64 ≡ 0
      → ((v d : ℕ)
          → v < n
          → d < V + H
          → store_cluster_embeddings_f32 V H D out embeddings n (place_f32 V n v d)
            ≡ embeddings (v * D + d))
        × ((k : ℕ)
            → n * (V + H) ≤ k
            → store_cluster_embeddings_f32 V H D out embeddings n k ≡ out k)
  unfolding store_cluster_embeddings_f32
  placed_f32 laws V H D n out embeddings whole = (placed, behind)
    where
      m : Matrix A
      m = input embeddings D

      first : Buffer A
      first = eigen.assign out 0 V n (λ d v. m v d)

      vertical :
          (v d : ℕ)
          → v < n
          → d < V
          → store_horizontal V H n m first (d * n + v) ≡ embeddings (v * D + d)
      vertical v d hv hd =
          let inside : d * n + v < V * n = end_of_block d v V n hd hv in
          let place : d * n + v ≡ 0 + (d * n + v) = omega arith in
          horizontal_below laws V H n m first _ (omega arith)
          ∙ ap first place
          ∙ laws.inside out 0 V n (λ d v. m v d) d v hd hv

      horizontal :
          (v d : ℕ)
          → v < n
          → V ≤ d
          → d < V + H
          → store_horizontal V H n m first
              (n * V + ((d - V) / 64 * (n * 64) + (v * 64 + (d - V) % 64)))
            ≡ embeddings (v * D + d)
      horizontal v d hv low hd =
          let e : V + (d - V) / 64 * 64 + (d - V) % 64 ≡ d = omega arith in
          horizontal_inside laws V H n m first ((d - V) / 64) v ((d - V) % 64) (omega arith) hv
            (omega arith)
          ∙ ap (λ t. embeddings (v * D + t)) e

      placed :
          (v d : ℕ)
          → v < n
          → d < V + H
          → store_horizontal V H n m first (place_f32 V n v d) ≡ embeddings (v * D + d)
      placed v d hv hd = ground (arith, vertical v d hv, horizontal v d hv)

      behind : (k : ℕ) → n * (V + H) ≤ k → store_horizontal V H n m first k ≡ out k
      behind k h =
          horizontal_above laws V H n m first k whole h
          ∙ laws.above out 0 V n (λ d v. m v d) k (omega arith)

  -- Storing n embeddings for U8, with a whole number of horizontal blocks, puts every dimension of
  -- every embedding at its place in the PDX layout. The assignment of
  -- Eigen meets its laws.
  pub store_u8-place :
      IsAssignment A
      → (V H D n : ℕ) (out embeddings : Buffer A) (v d : ℕ) → H % 64 ≡ 0
      → v < n
      → d < V + H
      → store_cluster_embeddings_u8 V H D out embeddings n (place_u8 V n v d)
        ≡ embeddings (v * D + d)
  store_u8-place laws V H D n out embeddings v d whole =
      (placed_u8 laws V H D n out embeddings whole).0 v d

  -- Storing n embeddings for U8, with a whole number of horizontal blocks, writes nothing behind
  -- the n * (V + H) values that the cluster allocates.
  pub store_u8-behind :
      IsAssignment A
      → (V H D n : ℕ) (out embeddings : Buffer A) (k : ℕ) → H % 64 ≡ 0
      → n * (V + H) ≤ k
      → store_cluster_embeddings_u8 V H D out embeddings n k ≡ out k
  store_u8-behind laws V H D n out embeddings k whole =
      (placed_u8 laws V H D n out embeddings whole).1 k

  -- Storing n embeddings for F32, with a whole number of horizontal blocks, puts every dimension of
  -- every embedding at its place in the PDX layout. The assignment of
  -- Eigen meets its laws.
  pub store_f32-place :
      IsAssignment A
      → (V H D n : ℕ) (out embeddings : Buffer A) (v d : ℕ) → H % 64 ≡ 0
      → v < n
      → d < V + H
      → store_cluster_embeddings_f32 V H D out embeddings n (place_f32 V n v d)
        ≡ embeddings (v * D + d)
  store_f32-place laws V H D n out embeddings v d whole =
      (placed_f32 laws V H D n out embeddings whole).0 v d

  -- Storing n embeddings for F32, with a whole number of horizontal blocks, writes nothing behind
  -- the n * (V + H) values that the cluster allocates.
  pub store_f32-behind :
      IsAssignment A
      → (V H D n : ℕ) (out embeddings : Buffer A) (k : ℕ) → H % 64 ≡ 0
      → n * (V + H) ≤ k
      → store_cluster_embeddings_f32 V H D out embeddings n k ≡ out k
  store_f32-behind laws V H D n out embeddings k whole =
      (placed_f32 laws V H D n out embeddings whole).1 k
