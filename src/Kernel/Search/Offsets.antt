-- ===== src/Kernel/Search/Offsets.antt =====
-- The offsets of the clusters' selection vectors.
use pdxearch.Prelude.{
  ℕ, zero, suc, ◌+◌, ◌≤◌, ◌<◌, ◌≡◌, refl, ap, sym, ◌∙◌, List, [], ◌∷◌, some, arith, length,
  get_elem?, take,
}
use mathlib.Core.Option.{some-injective, some-ne-none}
use pdxearch.Kernel.Index.{Cluster}
use pdxearch.Kernel.Search.{ClusterOffsets, add_cluster, compute_offsets}

-- The number of embeddings of some clusters.
abbrev pub embeddings : List Cluster → ℕ
embeddings [] = 0
embeddings (c ∷ cs) = c.num_embeddings + embeddings cs

total_offsets :
    (i : ℕ) (cs : List Cluster) (o : ClusterOffsets)
    → (compute_offsets i cs o).total_embeddings ≡ o.total_embeddings + embeddings cs
unfolding compute_offsets
total_offsets i [] o = omega arith
total_offsets i (c ∷ cs) o = omega (arith, total_offsets (suc i) cs (add_cluster i c o))

untouched :
    (i : ℕ) (cs : List Cluster) (o : ClusterOffsets) (j : ℕ)
    → j < i
    → (compute_offsets i cs o).cluster_offsets j ≡ o.cluster_offsets j
unfolding compute_offsets
untouched i [] o j lt = refl
untouched i (c ∷ cs) o j lt =
    untouched (suc i) cs (add_cluster i c o) j (omega arith) ∙ ground arith

offset_from :
    (i : ℕ) (cs : List Cluster) (o : ClusterOffsets) (j : ℕ)
    → j < length cs
    → (compute_offsets i cs o).cluster_offsets (i + j) ≡ o.total_embeddings + embeddings (take j cs)
unfolding compute_offsets
offset_from i [] o j lt = absurd (omega arith)
offset_from i (c ∷ cs) o zero lt =
    let e : i + 0 ≡ i = omega arith in
    ap (compute_offsets (suc i) cs (add_cluster i c o)).cluster_offsets e
    ∙ untouched (suc i) cs (add_cluster i c o) i (omega arith)
    ∙ ground arith
offset_from i (c ∷ cs) o (suc j) lt =
    let e : i + suc j ≡ suc i + j = omega arith in
    ap (compute_offsets (suc i) cs (add_cluster i c o)).cluster_offsets e
    ∙ offset_from (suc i) cs (add_cluster i c o) j (omega arith)
    ∙ omega arith

take-next :
    (i : ℕ) (cs : List Cluster) (c : Cluster)
    → get_elem? cs i ≡ some c
    → (embeddings (take (suc i) cs) ≡ embeddings (take i cs) + c.num_embeddings) × (i < length cs)
take-next i [] c e = absurd (some-ne-none c (sym e))
take-next zero (b ∷ cs) c e =
    let same : b.num_embeddings ≡ c.num_embeddings =
      ap Cluster.num_embeddings (some-injective b c e) in
    (omega arith, omega arith)
take-next (suc i) (b ∷ cs) c e = let (sum, lt) = take-next i cs c e in (omega arith, omega arith)

embeddings_mono :
    (i j : ℕ) (cs : List Cluster) → i ≤ j → embeddings (take i cs) ≤ embeddings (take j cs)
embeddings_mono zero j cs le = omega arith
embeddings_mono (suc i) zero cs le = absurd (omega arith)
embeddings_mono (suc i) (suc j) [] le = omega arith
embeddings_mono (suc i) (suc j) (c ∷ cs) le = omega (arith, embeddings_mono i j cs (omega arith))

embeddings-take-le : (i : ℕ) (cs : List Cluster) → embeddings (take i cs) ≤ embeddings cs
embeddings-take-le zero cs = omega arith
embeddings-take-le (suc i) [] = omega arith
embeddings-take-le (suc i) (c ∷ cs) = omega (arith, embeddings-take-le i cs)

-- The offsets before the loop of the constructor.
abbrev pub no_offsets : ClusterOffsets
no_offsets = record { cluster_offsets = λ i. 0; total_embeddings = 0; max_cluster_size = 0 }

-- The constructor gives each cluster a part of the selection vector of its own: of two clusters in
-- the index the part of the first ends where or before the part of the second starts, and that of
-- the second ends within the total number of embeddings, for which the vector is allocated.
pub offsets-disjoint :
    (clusters : List Cluster) (i j : ℕ) (first second : Cluster)
    → i < j
    → get_elem? clusters i ≡ some first
    → get_elem? clusters j ≡ some second
    → let o = compute_offsets 0 clusters no_offsets in
      (o.cluster_offsets i + first.num_embeddings ≤ o.cluster_offsets j)
      × (o.cluster_offsets j + second.num_embeddings ≤ o.total_embeddings)
offsets-disjoint clusters i j first second lt e e' =
    let (sum, hi) = take-next i clusters first e in
    let (sum', hj) = take-next j clusters second e' in
    let low = embeddings_mono (suc i) j clusters (omega arith) in
    let high = embeddings-take-le (suc j) clusters in
    let total = total_offsets 0 clusters no_offsets in
    let at_i =
      ap (compute_offsets 0 clusters no_offsets).cluster_offsets (plain i)
      ∙ offset_from 0 clusters no_offsets i hi in
    let at_j =
      ap (compute_offsets 0 clusters no_offsets).cluster_offsets (plain j)
      ∙ offset_from 0 clusters no_offsets j hj in
    (omega arith, omega arith)
  where
    plain : (m : ℕ) → m ≡ 0 + m
    plain m = omega arith
