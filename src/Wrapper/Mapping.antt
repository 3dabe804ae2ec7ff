-- ===== src/Wrapper/Mapping.antt =====
-- The maps between rows and positions in clusters.
use mathlib.Core.Option.{some-injective, none-ne-some}
use pdxearch.Prelude.{
  ℕ, zero, suc, ◌+◌, ◌%◌, ◌^◌, ◌<◌, ◌≡◌, ◌≢◌, refl, ap, sym, ◌∙◌, inl, inr, List, [], ◌∷◌, some,
  arith, ◌==◌, for_up, Buffer, length, get_or, get_elem?, Bool-cases,
}
use pdxearch.Wrapper.{RowMaps, place_embedding, place_cluster, place_clusters}

module _ (key : ℕ → ℕ) (row_ids : Buffer ℕ) where
  -- The row at a position of a cluster.
  abbrev pub row_at : List ℕ → ℕ → ℕ
  row_at assignment p = row_ids (get_or assignment p 0)

  module _ (assignment : List ℕ) (c : ℕ) (m : RowMaps) where
    abbrev placed : ℕ → RowMaps
    placed n = for_up n (place_embedding key row_ids assignment c) m

    metadata_untouched :
        (n k : ℕ)
        → ((p : ℕ) → p < n → key (row_at assignment p) ≢ k)
        → (placed n).row_id_metadata k ≡ m.row_id_metadata k
    unfolding for_up
    metadata_untouched zero k other = refl
    metadata_untouched (suc n) k other =
        let here = other n (omega arith) in
        let before = metadata_untouched n k (λ p lt. other p (omega arith)) in ground arith

    metadata_placed :
        (n p : ℕ)
        → p < n
        → ((p' : ℕ) → p' < n → key (row_at assignment p') ≡ key (row_at assignment p) → p' ≡ p)
        → (placed n).row_id_metadata (key (row_at assignment p))
          ≡ record { cluster_id = c; index_in_cluster = p }
    unfolding for_up
    metadata_placed zero p lt distinct = absurd (omega arith)
    metadata_placed (suc n) p lt distinct = elim (Bool-cases (n == p)) [
      | inl last ↦ let e : n ≡ p = ground arith in rw e (ground arith)
      | inr earlier ↦
          let apart : key (row_at assignment n) ≢ key (row_at assignment p) =
            λ same. let e = distinct n (omega arith) same in absurd (ground arith) in
          let before = metadata_placed n p (ground arith) (λ p' lt'. distinct p' (omega arith)) in
          ground arith
    ]

    pub indices_placed : (n p : ℕ) → p < n → (placed n).indices c p ≡ row_at assignment p % 2 ^ 32
    unfolding for_up
    indices_placed zero p lt = absurd (omega arith)
    indices_placed (suc n) p lt = elim (Bool-cases (n == p)) [
      | inl last ↦ let e : n ≡ p = ground arith in rw e (ground arith)
      | inr earlier ↦ let before = indices_placed n p (ground arith) in ground arith
    ]

    indices_untouched : (n c' p : ℕ) → c' ≢ c → (placed n).indices c' p ≡ m.indices c' p
    unfolding for_up
    indices_untouched zero c' p other = refl
    indices_untouched (suc n) c' p other =
        let before = indices_untouched n c' p other in ground arith

  -- The assignments give different rows at different positions, by the keys of the rows.
  pub record IsDistinct (assignments : List (List ℕ)) : Type 0 where
    pub distinct :
        (i j p p' : ℕ) (a b : List ℕ)
        → get_elem? assignments i ≡ some a
        → get_elem? assignments j ≡ some b
        → p < length a
        → p' < length b
        → key (row_at a p) ≡ key (row_at b p')
        → (i ≡ j) × (p ≡ p')

  clusters_metadata :
      (assignments : List (List ℕ)) (i k : ℕ) (m : RowMaps)
      → ((j p : ℕ) (a : List ℕ)
          → get_elem? assignments j ≡ some a
          → p < length a
          → key (row_at a p) ≢ k)
      → (place_clusters key row_ids assignments i m).row_id_metadata k ≡ m.row_id_metadata k
  unfolding place_clusters place_cluster
  clusters_metadata [] i k m other = refl
  clusters_metadata (a ∷ rest) i k m other =
      clusters_metadata rest (suc i) k (place_cluster key row_ids a i m) (λ j. other (suc j))
      ∙ metadata_untouched a i m (length a) k (λ p. other 0 p a refl)

  clusters_indices :
      (assignments : List (List ℕ)) (i c p : ℕ) (m : RowMaps)
      → c < i
      → (place_clusters key row_ids assignments i m).indices c p ≡ m.indices c p
  unfolding place_clusters place_cluster
  clusters_indices [] i c p m lt = refl
  clusters_indices (a ∷ rest) i c p m lt =
      let other : c ≢ i = λ e. absurd (omega arith) in
      clusters_indices rest (suc i) c p (place_cluster key row_ids a i m) (omega arith)
      ∙ indices_untouched a i m (length a) c p other

  IsDistinct-tail : (a : List ℕ) (rest : List (List ℕ)) → IsDistinct (a ∷ rest) → IsDistinct rest
  IsDistinct-tail a rest d = record {
    distinct = λ i j p p' b b' e e' lt lt' same.
        let (ij, pp) = d.distinct (suc i) (suc j) p p' b b' e e' lt lt' same in (omega arith, pp);
  }

  placed_from :
      (assignments : List (List ℕ)) (i c p : ℕ) (a : List ℕ) (m : RowMaps)
      → IsDistinct assignments
      → get_elem? assignments c ≡ some a
      → p < length a
      → ((place_clusters key row_ids assignments i m).row_id_metadata (key (row_at a p))
          ≡ record { cluster_id = i + c; index_in_cluster = p })
        × ((place_clusters key row_ids assignments i m).indices (i + c) p ≡ row_at a p % 2 ^ 32)
  unfolding place_clusters place_cluster
  placed_from [] i c p a m d e lt = absurd (none-ne-some a e)
  placed_from (b ∷ bs) i zero p a m d e lt =
      let same : b ≡ a = some-injective b a e in
      let lt' : p < length b = rw same lt in
      let n = place_cluster key row_ids b i m in
      let at_i : i + 0 ≡ i = omega arith in
      rw (sym same, at_i)
        (
          clusters_metadata bs (suc i) (key (row_at b p)) n (λ j p' a' e' hp' k_same.
                let (zero_suc, _) = d.distinct 0 (suc j) p p' b a' refl e' lt' hp' (sym k_same) in
                absurd (omega arith))
              ∙ metadata_placed b i m (length b) p lt'
                  (λ p' hp' k_same. (d.distinct 0 0 p' p b b refl refl hp' lt' k_same).1),
          clusters_indices bs (suc i) i p n (omega arith) ∙ indices_placed b i m (length b) p lt',
        )
  placed_from (b ∷ bs) i (suc c) p a m d e lt =
      let next : i + suc c ≡ suc i + c = omega arith in
      rw next (
        placed_from bs (suc i) c p a (place_cluster key row_ids b i m) (IsDistinct-tail b bs d) e
          lt)

  -- The set-up of an index maps rows and positions to each other: the row that k-means assigned to a
  -- position of a cluster is mapped by the metadata to that cluster and position, and the cluster's
  -- index at that position is the row id modulo 2 ^ 32. The keys of the assigned rows are different.
  pub place_clusters-inverse :
      (assignments : List (List ℕ)) (c p : ℕ) (assignment : List ℕ) (m : RowMaps)
      → IsDistinct assignments
      → get_elem? assignments c ≡ some assignment
      → p < length assignment
      → let t = place_clusters key row_ids assignments 0 m in
        (t.row_id_metadata (key (row_at assignment p))
          ≡ record { cluster_id = c; index_in_cluster = p })
        × (t.indices c p ≡ row_at assignment p % 2 ^ 32)
  place_clusters-inverse assignments c p assignment m d e lt =
      let (forth, back) = placed_from assignments 0 c p assignment m d e lt in
      let start : 0 + c ≡ c = omega arith in
      (
        forth ∙ ap (λ (t : ℕ). record { cluster_id = t; index_in_cluster = p }) start,
        ap (λ (t : ℕ). (place_clusters key row_ids assignments 0 m).indices t p) (sym start) ∙ back,
      )
