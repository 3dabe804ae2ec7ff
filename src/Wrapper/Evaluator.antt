-- ===== src/Wrapper/Evaluator.antt =====
-- What the predicate evaluator of a filtered search marks.
use pdxearch.Prelude.{
  ℕ, ◌+◌, ◌<◌, ◌≡◌, refl, ap, ◌∙◌, inl, inr, Bool, false, ◌||◌, ◌&&◌, List, [], ◌∷◌, some, arith,
  ◌==◌, if◌then◌else◌, Buffer, All, length, select, get_elem?, le_or_lt,
}
use pdxearch.Kernel.Index.{Cluster}
use pdxearch.Kernel.Search.{ClusterOffsets, PredicateEvaluator, compute_offsets}
use pdxearch.Kernel.Search.Offsets.{no_offsets, offsets-disjoint}
use pdxearch.Kernel.Search.Filtered.{is_passing}
use pdxearch.Wrapper.{RowIdClusterMapping, mark, mark_all, create_predicate_evaluator}

-- Some element passes the test.
abbrev pub any : (ℕ → Bool) → List ℕ → Bool
any p [] = false
any p (x ∷ xs) = p x || any p xs

module _ (key : ℕ → ℕ) (metadata : Buffer RowIdClusterMapping) (o : ClusterOffsets) where
  abbrev mapping : ℕ → RowIdClusterMapping
  mapping row_id = metadata (key row_id)

  abbrev slot : ℕ → ℕ
  slot row_id = o.cluster_offsets (mapping row_id).cluster_id + (mapping row_id).index_in_cluster

  pub marked :
      (rows : List ℕ) (p : PredicateEvaluator) (i : ℕ)
      → (mark_all key metadata o rows p).selection_vector i
        ≡ (if any (λ r. slot r == i) rows then 1 else p.selection_vector i)
  unfolding mark_all
  marked [] p i = refl
  marked (r ∷ rows) p i = ground (arith, marked rows (mark o (mapping r) p) i)

  counted :
      (rows : List ℕ) (p : PredicateEvaluator) (c : ℕ)
      → (mark_all key metadata o rows p).n_passing_tuples c
        ≡ p.n_passing_tuples c + length (select (λ r. (mapping r).cluster_id == c) rows)
  unfolding mark_all
  counted [] p c = omega arith
  counted (r ∷ rows) p c = ground (arith, counted rows (mark o (mapping r) p) c)

  -- The number of passing tuples of a cluster is the number of passing rows that are mapped to it.
  pub n_passing-count :
      (rows : List ℕ) (c : ℕ)
      → (create_predicate_evaluator key metadata o rows).n_passing_tuples c
        ≡ length (select (λ r. (metadata (key r)).cluster_id == c) rows)
  unfolding create_predicate_evaluator
  n_passing-count rows c = counted rows _ c ∙ omega arith

  -- A row is mapped into the index: to a cluster of it and a position inside.
  abbrev pub IsMapped : List Cluster → ℕ → Type 0
  IsMapped clusters r =
      (c : Cluster) × (get_elem? clusters (metadata (key r)).cluster_id ≡ some c)
      × ((metadata (key r)).index_in_cluster < c.num_embeddings)

any-congr : (p q : ℕ → Bool) (rows : List ℕ) → All (λ r. p r ≡ q r) rows → any p rows ≡ any q rows
any-congr p q [] h = refl
any-congr p q (r ∷ rows) (e, h) = rw (e, any-congr p q rows h)

module _ (key : ℕ → ℕ) (metadata : Buffer RowIdClusterMapping) (clusters : List Cluster) where
  abbrev offsets : ClusterOffsets
  offsets = compute_offsets 0 clusters no_offsets

  -- The slots of two positions of the index are equal only for the same position.
  slot_of :
      (id v a w : ℕ) (c d : Cluster)
      → get_elem? clusters id ≡ some c
      → get_elem? clusters a ≡ some d
      → v < c.num_embeddings
      → w < d.num_embeddings
      → (offsets.cluster_offsets a + w == offsets.cluster_offsets id + v) ≡ (a == id && w == v)
  slot_of id v a w c d at at' hv hw = elim (le_or_lt id a) [
    | inr below ↦ let apart = (offsets-disjoint clusters a id d c below at' at).0 in ground arith
    | inl above ↦ elim (le_or_lt a id) [
      | inr higher ↦
          let apart = (offsets-disjoint clusters id a c d higher at at').0 in ground arith
      | inl equal ↦ let e : a ≡ id = omega arith in rw e (ground arith)
    ]
  ]

  slots_equal :
      (id v : ℕ) (c : Cluster) (rows : List ℕ)
      → get_elem? clusters id ≡ some c
      → v < c.num_embeddings
      → All (IsMapped key metadata offsets clusters) rows
      → All
          (λ r.
            (offsets.cluster_offsets (metadata (key r)).cluster_id
                + (metadata (key r)).index_in_cluster
              == offsets.cluster_offsets id + v)
            ≡ ((metadata (key r)).cluster_id == id && (metadata (key r)).index_in_cluster == v))
          rows
  slots_equal id v c [] at hv mapped = tt
  slots_equal id v c (r ∷ rows) at hv ((d, at', hw), mapped) = (
    slot_of id v (metadata (key r)).cluster_id (metadata (key r)).index_in_cluster c d at at' hv hw,
    slots_equal id v c rows at hv mapped,
  )

  -- An embedding of a cluster passes the evaluator that is made from some rows, with the offsets of
  -- the index, exactly when one of the rows is mapped to its cluster and its position. All the rows
  -- are mapped into the index.
  pub is_passing-any :
      (rows : List ℕ) (id v : ℕ) (c : Cluster)
      → All (IsMapped key metadata offsets clusters) rows
      → get_elem? clusters id ≡ some c
      → v < c.num_embeddings
      → is_passing
          (compute_offsets 0 clusters no_offsets)
          (create_predicate_evaluator key metadata (compute_offsets 0 clusters no_offsets) rows)
          id
          v
        ≡ any
            (λ r. (metadata (key r)).cluster_id == id && (metadata (key r)).index_in_cluster == v)
            rows
  unfolding create_predicate_evaluator
  is_passing-any rows id v c mapped at hv =
      ap (λ t. t == 1) (marked key metadata offsets rows _ (offsets.cluster_offsets id + v))
      ∙ one_iff (any (λ r. slot key metadata offsets r == offsets.cluster_offsets id + v) rows)
      ∙ any-congr _ _ rows (slots_equal id v c rows at hv mapped)
    where
      one_iff : (b : Bool) → ((if b then 1 else 0) == 1) ≡ b
      one_iff b = ground arith
