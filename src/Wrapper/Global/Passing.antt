-- ===== src/Wrapper/Global/Passing.antt =====
-- What the evaluator of `FilteredSearch` marks are the positions of the passing rows.
use mathlib.Core.Option.{some-injective}
use mathlib.Core.Path.{subst}
use pdxearch.Prelude.{
  ℕ, ◌<◌, ◌≡◌, refl, ap, sym, ◌∙◌, inl, inr, Bool, true, false, ◌&&◌, List, [], ◌∷◌, some, arith,
  ◌==◌, Buffer, All, length, get_elem?, Bool-cases,
}
use pdxearch.Kernel.Float.{Float}
use pdxearch.Kernel.Heap.{KnnCandidate}
use pdxearch.Kernel.Index.{Cluster}
use pdxearch.Kernel.Search.{Searcher, ClusterOffsets, PredicateEvaluator, compute_offsets}
use pdxearch.Kernel.Search.Offsets.{no_offsets}
use pdxearch.Kernel.Search.Leaving.{IsOfIndex}
use pdxearch.Kernel.Search.Filtered.{is_passing}
use pdxearch.Kernel.Global.{Sorting}
use pdxearch.Kernel.Global.Filtered.Visiting.{IsCounted}
use pdxearch.Wrapper.{RowIdClusterMapping, create_predicate_evaluator}
use pdxearch.Wrapper.Counting.{IsRepeatFree, AreApart, is_at, positions_taken, select-range}
use pdxearch.Wrapper.Evaluator.{any, IsMapped, marked, is_passing-any, n_passing-count}

module _ (clusters : List Cluster) (metadata : Buffer RowIdClusterMapping) where
  abbrev cluster_of : ℕ → ℕ
  cluster_of r = (metadata r).cluster_id

  abbrev position_of : ℕ → ℕ
  position_of r = (metadata r).index_in_cluster

  -- The metadata of a row leads to a position that holds the row.
  pub record IsRowOf (r : ℕ) : Type 0 where
    pub cluster : Cluster
    pub at : get_elem? clusters (metadata r).cluster_id ≡ some cluster
    pub inside : (metadata r).index_in_cluster < cluster.num_embeddings
    pub holds : cluster.indices (metadata r).index_in_cluster ≡ r

  abbrev offsets : ClusterOffsets
  offsets = compute_offsets 0 clusters no_offsets

  abbrev evaluator : List ℕ → PredicateEvaluator
  evaluator rows = create_predicate_evaluator (λ r. r) metadata offsets rows

  evaluator-bits : (rows : List ℕ) (i : ℕ) → (evaluator rows).selection_vector i < 2
  unfolding create_predicate_evaluator
  evaluator-bits rows i =
      subst (λ n. n < 2)
        (sym (
          marked (λ r. r) metadata offsets rows
            (record { n_passing_tuples = λ c. 0; selection_vector = λ j. 0 }) i))
        (ground arith)

  rows-IsMapped :
      (rows : List ℕ) → All IsRowOf rows → All (IsMapped (λ r. r) metadata offsets clusters) rows
  rows-IsMapped [] h = tt
  rows-IsMapped (r ∷ rows) (h, hs) = ((h.cluster, h.at, h.inside), rows-IsMapped rows hs)

  -- Two rows at one position are equal.
  same_place :
      (r q : ℕ)
      → IsRowOf r
      → IsRowOf q
      → cluster_of r ≡ cluster_of q
      → position_of r ≡ position_of q
      → r ≡ q
  same_place r q h h' e e' =
      let same : h.cluster ≡ h'.cluster =
        some-injective h.cluster h'.cluster (sym h.at ∙ ap (get_elem? clusters) e ∙ h'.at) in
      sym h.holds
      ∙ ap (λ (c : Cluster). c.indices (position_of r)) same
      ∙ ap h'.cluster.indices e'
      ∙ h'.holds

  free :
      (r : ℕ) (rows : List ℕ)
      → IsRowOf r
      → All IsRowOf rows
      → any (λ q. q == r) rows ≡ false
      → is_at cluster_of position_of (cluster_of r) 0 (position_of r) rows ≡ false
  free r [] h hs e = refl
  free r (q ∷ rows) h (h', hs) e =
      elim (Bool-cases (cluster_of q == cluster_of r && position_of q == position_of r)) [
        | inr other ↦ rw other (free r rows h hs (ground arith))
        | inl both ↦
            let same = same_place q r h' h (ground arith) (ground arith) in absurd (ground arith)
      ]

  apart :
      (id : ℕ) (c : Cluster) (rows : List ℕ)
      → get_elem? clusters id ≡ some c
      → All IsRowOf rows
      → IsRepeatFree rows
      → AreApart cluster_of position_of id c.num_embeddings rows
  apart id c [] at hs e = tt
  apart id c (r ∷ rows) at (h, hs) (e, es) = (
    λ here.
        let same : h.cluster ≡ c =
          some-injective h.cluster c (sym h.at ∙ ap (get_elem? clusters) here ∙ at) in
        (
          subst (λ (b : Cluster). position_of r < b.num_embeddings) same h.inside,
          subst
              (λ (i : ℕ).
                is_at cluster_of position_of i c.num_embeddings (position_of r) rows ≡ false)
              here (free r rows h hs e),
        ),
    apart id c rows at hs es,
  )

  -- A position that is marked has one of the rows.
  found :
      (rows : List ℕ) (id v : ℕ)
      → All IsRowOf rows
      → is_at cluster_of position_of id 0 v rows ≡ true
      → (r : ℕ) × IsRowOf r
        × (any (λ q. q == r) rows ≡ true)
        × (cluster_of r ≡ id)
        × (position_of r ≡ v)
  found [] id v hs e = absurd (ground arith)
  found (r ∷ rows) id v (h, hs) e = elim (Bool-cases (cluster_of r == id && position_of r == v)) [
    | inl here ↦ (r, h, ground arith, ground arith, ground arith)
    | inr elsewhere ↦
        let (q, hq, seen, at, pos) = found rows id v hs (ground arith) in
        (q, hq, ground arith, at, pos)
  ]

  module _ {ℓ} {F : Type ℓ} ⦃f : Float F⦄ (sorting : Sorting) (searcher : Searcher F)
      (is_dense : ℕ → ℕ → Bool) (x : ℕ → ℕ → ℕ → ℕ) (rows : List ℕ) (hs : All IsRowOf rows)
      (same : searcher.pdx_data.clusters ≡ clusters) where
    pub evaluator-IsCounted :
        IsRepeatFree rows → IsCounted sorting searcher is_dense x offsets (evaluator rows)
    unfolding create_predicate_evaluator
    evaluator-IsCounted different = record {
      bits = evaluator-bits rows;
      counted = λ id c at_searcher.
          let at = ap (λ cs. get_elem? cs id) (sym same) ∙ at_searcher in
          n_passing-count (λ r. r) metadata offsets rows id
          ∙ sym (
              positions_taken cluster_of position_of id c.num_embeddings rows
                (apart id c rows at hs different))
          ∙ sym (
              ap length (
                select-range _ _ c.num_embeddings (λ v hv.
                  is_passing-any (λ r. r) metadata clusters rows id v c (rows-IsMapped rows hs) at
                    hv)));
    }

    -- A candidate that is marked is one of the rows.
    pub marked_row :
        (a : KnnCandidate F)
        → IsOfIndex searcher x (is_passing offsets (evaluator rows)) a
        → any (λ q. q == a.index) rows ≡ true
    marked_row a (id, c, at_searcher, (v, hv, sel, e)) =
        let at = ap (λ cs. get_elem? cs id) (sym same) ∙ at_searcher in
        let (r, h, seen, here, pos) = found rows id v hs (
          sym (is_passing-any (λ r. r) metadata clusters rows id v c (rows-IsMapped rows hs) at hv)
          ∙ sel) in
        let one : h.cluster ≡ c =
          some-injective h.cluster c (sym h.at ∙ ap (get_elem? clusters) here ∙ at) in
        let row : r ≡ a.index =
          sym h.holds
          ∙ ap (λ (b : Cluster). b.indices (position_of r)) one
          ∙ ap c.indices pos
          ∙ sym (ap KnnCandidate.index e) in
        subst (λ (i : ℕ). any (λ q. q == i) rows ≡ true) row seen
