-- ===== src/Wrapper/SetUp/Rows.antt =====
-- Where the set-up of an index puts the rows.
use mathlib.Core.Path.{subst}
use pdxearch.Prelude.{
  to_unsigned, ℕ, ◌^◌, ◌≤◌, ◌<◌, ◌≡◌, ap, sym, ◌∙◌, arith, List, Buffer, length, get_or, get_elem?,
  some,
}
use pdxearch.Dimensions.{pdx_max_dims}
use pdxearch.Layout.Assign.{Eigen, IsAssignment}
use pdxearch.Computers.{Arithmetic}
use pdxearch.Kernel.Float.{Float}
use pdxearch.Kernel.Index.{Cluster}
use pdxearch.Kernel.Heap.{KnnCandidate}
use pdxearch.Kernel.Scan.Calls.{everything}
use pdxearch.Kernel.Search.{Searcher}
use pdxearch.Kernel.Search.Leaving.{IsOfIndex, get_elem-inside}
use pdxearch.KMeans.{SuperKMeans, IsAssigning}
use pdxearch.KMeans.Partition.{IsPartition, compute_kmeans-IsPartition}
use pdxearch.Quantizer.{Scaling}
use pdxearch.Wrapper.{RowMaps, RowIdClusterMapping, place_clusters}
use mathlib.Core.Option.{some-injective}
use pdxearch.Wrapper.Construction.{PdxearchWrapper}
use pdxearch.Wrapper.Mapping.{IsDistinct, place_clusters-inverse}
use pdxearch.Wrapper.SetUp.Built.{IsBuilt}
use pdxearch.Wrapper.SetUp.Searchable.{
  params_of, lists_of, result_of, length-clusters, metadata_of, cluster_of_list, get_elem-below,
}

-- One of the rows that are set up.
abbrev pub IsRow : Buffer ℕ → ℕ → ℕ → Type 0
IsRow row_ids num_embeddings r = (v : ℕ) × (v < num_embeddings) × (row_ids v ≡ r)

module _ {ℓ} {F : Type ℓ} ⦃f : Float F⦄ ⦃ops : Arithmetic F⦄ ⦃scaling : Scaling F⦄ ⦃eigen : Eigen ℕ⦄
    (kmeans : SuperKMeans F) (wrapper : PdxearchWrapper) (key : ℕ → ℕ) (num_clusters : ℕ)
    (row_ids : Buffer ℕ) (embeddings : Buffer F) (num_embeddings : ℕ) (fresh : ℕ → Buffer ℕ)
    (maps : RowMaps) where
  open wrapper use {num_dimensions}

  abbrev lists : List (List ℕ)
  lists = lists_of kmeans wrapper key num_clusters row_ids embeddings num_embeddings fresh maps

  -- What the set-up relies on: the laws of the libraries, a number of dimensions from 1 to the limit,
  -- and rows with different keys and with row ids that fit in a `uint32_t`.
  pub record IsReady : Type ℓ where
    pub assigning : IsAssigning kmeans
    pub assignment : IsAssignment ℕ
    pub some_dims : 0 < num_dimensions
    pub few_dims : num_dimensions ≤ pdx_max_dims
    pub some_clusters : 0 < num_clusters
    pub keys :
        (v w : ℕ)
        → v < num_embeddings
        → w < num_embeddings
        → key (row_ids v) ≡ key (row_ids w)
        → v ≡ w
    pub row_ids_fit : (v : ℕ) → v < num_embeddings → row_ids v < 2 ^ 32

  -- A row is at a position of a cluster, and the metadata says so.
  pub record IsPlaced (v : ℕ) : Type ℓ where
    pub id : ℕ
    pub position : ℕ
    pub members : List ℕ
    pub cluster : Cluster
    pub mapped :
        (result_of kmeans wrapper key num_clusters row_ids embeddings num_embeddings fresh
            maps).row_id_metadata
          (key (row_ids v))
        ≡ record { cluster_id = id; index_in_cluster = position }
    pub listed : get_elem? lists id ≡ some members
    pub at :
        get_elem?
          (result_of kmeans wrapper key num_clusters row_ids embeddings num_embeddings fresh
            maps).index.clusters
          id
        ≡ some cluster
    pub inside : position < cluster.num_embeddings
    pub holds : cluster.indices position ≡ row_ids v

  module _ (ready : IsReady) where
    pub partition : IsPartition num_embeddings lists × (length lists ≡ num_clusters)
    partition =
        compute_kmeans-IsPartition kmeans ready.assigning embeddings num_embeddings num_dimensions
          num_clusters wrapper.distance_metric (to_unsigned 32 wrapper.seed) ready.some_clusters

    lists-IsDistinct : IsDistinct key row_ids lists
    lists-IsDistinct = record {
      distinct = λ i j p p' a b at at' hp hp' same.
          let part = partition.0 in
          part.distinct i j p p' a b at at' hp hp' (
            ready.keys (get_or a p 0) (get_or b p' 0) (part.inside i p a at hp)
              (part.inside j p' b at' hp') same);
    }

    -- Every row of the table is placed.
    pub row-IsPlaced : (v : ℕ) → v < num_embeddings → IsPlaced v
    row-IsPlaced v hv =
        let (c, p, a, at_a, hp, e) = partition.0.listed v hv in
        let (back, there) =
          place_clusters-inverse key row_ids lists c p a maps lists-IsDistinct at_a hp in
        let row : row_ids (get_or a p 0) ≡ row_ids v = ap row_ids e in
        let below = get_elem-below lists c a at_a in
        let size =
          length-clusters kmeans wrapper key num_clusters row_ids embeddings num_embeddings fresh
            maps in
        let (cl, at_cl) =
          get_elem-inside
            (result_of kmeans wrapper key num_clusters row_ids embeddings num_embeddings fresh
              maps).index.clusters
            c (omega arith) in
        let (b, at_b, built) =
          cluster_of_list kmeans wrapper key num_clusters row_ids embeddings num_embeddings fresh
            maps ready.assignment ready.some_dims ready.few_dims c cl at_cl in
        let same : b ≡ a = some-injective b a (sym at_b ∙ at_a) in
        let built_a : IsBuilt key num_dimensions row_ids embeddings
            (params_of kmeans wrapper key num_clusters row_ids embeddings num_embeddings fresh maps)
            fresh a cl =
          subst
            (λ (l : List ℕ).
              IsBuilt key num_dimensions row_ids embeddings
                (params_of kmeans wrapper key num_clusters row_ids embeddings num_embeddings fresh
                  maps)
                fresh l cl)
            same built in
        let many = built_a.size in
        record {
          id = c;
          position = p;
          members = a;
          cluster = cl;
          mapped =
              ap (λ (m : Buffer RowIdClusterMapping). m (key (row_ids v)))
                (metadata_of kmeans wrapper key num_clusters row_ids embeddings num_embeddings fresh
                  maps)
              ∙ ap (λ r. (place_clusters key row_ids lists 0 maps).row_id_metadata (key r))
                  (sym row)
              ∙ back;
          listed = at_a;
          at = at_cl;
          inside = omega arith;
          holds = omega (arith, built_a.rows p hp, ready.row_ids_fit v hv);
        }

    -- The metadata leads from the row at a position of a cluster back to it.
    pub row-IsMapped :
        (id v : ℕ) (c : Cluster)
        → get_elem?
            (result_of kmeans wrapper key num_clusters row_ids embeddings num_embeddings fresh
              maps).index.clusters
            id
          ≡ some c
        → v < c.num_embeddings
        → (result_of kmeans wrapper key num_clusters row_ids embeddings num_embeddings fresh
              maps).row_id_metadata
            (key (c.indices v))
          ≡ record { cluster_id = id; index_in_cluster = v }
    row-IsMapped id v c at hv =
        let (a, at_a, built) =
          cluster_of_list kmeans wrapper key num_clusters row_ids embeddings num_embeddings fresh
            maps ready.assignment ready.some_dims ready.few_dims id c at in
        let size = built.size in
        let hp : v < length a = omega arith in
        let row : c.indices v ≡ row_ids (get_or a v 0) = omega (
          arith,
          built.rows v hp,
          ready.row_ids_fit (get_or a v 0) (partition.0.inside id v a at_a hp),
        ) in
        ap (λ (m : Buffer RowIdClusterMapping). m (key (c.indices v)))
          (metadata_of kmeans wrapper key num_clusters row_ids embeddings num_embeddings fresh maps)
        ∙ ap (λ r. (place_clusters key row_ids lists 0 maps).row_id_metadata (key r)) row
        ∙ (place_clusters-inverse key row_ids lists id v a maps lists-IsDistinct at_a hp).0

    -- A candidate is one of the rows.
    pub candidate-IsRow :
        (searcher : Searcher F) (x : ℕ → ℕ → ℕ → ℕ)
        → (a : KnnCandidate F)
        → IsOfIndex
            (record searcher {
              pdx_data =
                  (result_of kmeans wrapper key num_clusters row_ids embeddings num_embeddings fresh
                    maps).index;
            })
            x
            (λ id. everything)
            a
        → IsRow row_ids num_embeddings a.index
    candidate-IsRow searcher x a (id, c, at, (v, hv, _, e)) =
        let (l, at_l, built) =
          cluster_of_list kmeans wrapper key num_clusters row_ids embeddings num_embeddings fresh
            maps ready.assignment ready.some_dims ready.few_dims id c at in
        let size = built.size in
        let hp : v < length l = omega arith in
        (
          get_or l v 0,
          partition.0.inside id v l at_l hp,
          omega (
            arith,
            ap KnnCandidate.index e,
            built.rows v hp,
            ready.row_ids_fit (get_or l v 0) (partition.0.inside id v l at_l hp),
          ),
        )
