-- ===== src/KMeans.antt =====
-- src/include/index/pdxearch_kmeans.hpp: `ComputeKMeans`, which turns the result of a library into
-- lists of embeddings for the clusters. The library SuperKMeans is a parameter.
pub mod Partition
use pdxearch.Prelude.{
  ℕ, zero, suc, ◌<◌, Bool, true, false, List, [], ◌∷◌, ◌++◌, ltb, ◌==◌, not, if◌then◌else◌, for_up,
  Buffer,
}
use pdxearch.Wrapper.Construction.{DistanceMetric, l2sq, cosine, ip}

-- `HierarchicalSuperKMeansConfig`, as far as it differs between calls. `samples` is a sampling
-- fraction below 1.
pub record Config : Type 0 where
  pub samples : Bool
  pub angular : Bool
  pub seed : ℕ

-- `HierarchicalSuperKMeans`, made for a number of clusters and of dimensions.
pub record SuperKMeans {ℓ} (F : Type ℓ) : Type ℓ where
  pub train :
      Config
      → (num_clusters num_dimensions : ℕ) → (embeddings : Buffer F) → (num_embeddings : ℕ)
      → Buffer F
  pub assign :
      Config
      → (num_clusters num_dimensions : ℕ) → (embeddings centroids : Buffer F) → (num_embeddings : ℕ)
      → Buffer ℕ

-- It assigns each embedding to one of its clusters.
pub record IsAssigning {ℓ} {F : Type ℓ} (kmeans : SuperKMeans F) : Type ℓ where
  pub assigned :
      (config : Config) (num_clusters num_dimensions : ℕ) (embeddings centroids : Buffer F)
      (num_embeddings v : ℕ)
      → 0 < num_clusters
      → v < num_embeddings
      → kmeans.assign config num_clusters num_dimensions embeddings centroids num_embeddings v
        < num_clusters

-- `KMeansResult`
pub record KMeansResult {ℓ} (F : Type ℓ) : Type ℓ where
  pub centroids : Buffer F
  pub assignments : List (List ℕ)

-- `MIN_EMBEDDINGS_TO_SAMPLE`
abbrev pub min_embeddings_to_sample : ℕ
min_embeddings_to_sample = 30_720

-- `assignments(num_clusters)`
abbrev pub no_assignments : ℕ → List (List ℕ)
no_assignments zero = []
no_assignments (suc n) = [] ∷ no_assignments n

-- `assignments[cluster].emplace_back(vec_id)`
abbrev pub emplace_back : List (List ℕ) → (cluster vec_id : ℕ) → List (List ℕ)
emplace_back [] cluster vec_id = []
emplace_back (a ∷ lists) zero vec_id = (a ++ vec_id ∷ []) ∷ lists
emplace_back (a ∷ lists) (suc cluster) vec_id = a ∷ emplace_back lists cluster vec_id

-- The loops over the embeddings, from the cluster of each to the embeddings of each cluster.
unfoldable pub convert_assignments : (num_clusters num_embeddings : ℕ) → Buffer ℕ → List (List ℕ)
convert_assignments num_clusters num_embeddings assignments =
    for_up num_embeddings (λ vec_id r. emplace_back r (assignments vec_id) vec_id)
      (no_assignments num_clusters)

abbrev pub is_angular : DistanceMetric → Bool
is_angular l2sq = false
is_angular cosine = true
is_angular ip = true

module _ {ℓ} {F : Type ℓ} (kmeans : SuperKMeans F) where
  -- `ComputeKMeans`
  unfoldable pub compute_kmeans :
      (embeddings : Buffer F)
      → (num_embeddings num_dimensions num_clusters : ℕ) → DistanceMetric
      → (seed : ℕ) → KMeansResult F
  compute_kmeans embeddings num_embeddings num_dimensions num_clusters distance_metric seed =
      let config : Config = record {
        samples = not (ltb num_embeddings min_embeddings_to_sample);
        angular = is_angular distance_metric;
        seed = seed;
      } in
      let centroids = kmeans.train config num_clusters num_dimensions embeddings num_embeddings in
      if num_clusters == 1
      then record {
        centroids = embeddings;
        assignments = convert_assignments 1 num_embeddings (λ vec_id. 0);
      }
      else record {
        centroids = centroids;
        assignments =
            convert_assignments num_clusters num_embeddings (
              kmeans.assign config num_clusters num_dimensions embeddings centroids num_embeddings);
      }
