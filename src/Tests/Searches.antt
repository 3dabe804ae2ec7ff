-- ===== src/Tests/Searches.antt =====
-- Searches of a small index with one cluster.
use mathlib.Core.Path.{subst}
use mathlib.Core.Option.{some-injective, none-ne-some}
use pdxearch.Prelude.{
  ℕ, zero, suc, ◌+◌, ◌*◌, ◌%◌, ◌^◌, ◌≤◌, ◌≡◌, ◌⊎◌, refl, true, false, [], ◌∷◌, some, arith, Buffer,
  get_elem?, min,
}
use pdxearch.Layout.{store_cluster_embeddings_u8}
use pdxearch.Layout.Assign.{direct, direct-IsAssignment}
use pdxearch.Computers.Reference.{IsStored}
use pdxearch.Kernel.Float.{whole, whole-IsOrdered}
use pdxearch.Kernel.Heap.{KnnCandidate, Heap}
use pdxearch.Kernel.Heap.Order.{nearest}
use pdxearch.Kernel.Index.{Cluster, IndexPdxIvf}
use pdxearch.Kernel.Store.{store_u8-IsStored}
use pdxearch.Kernel.Scan.Calls.{everything}
use pdxearch.Kernel.Search.{
  Searcher, Encounter, SearchState, PredicateEvaluator, ClusterOffsets, compute_offsets, search,
  filtered_search,
}
use pdxearch.Kernel.Search.Offsets.{no_offsets, offsets-disjoint}
use pdxearch.Kernel.Search.Leaving.{IsSearchable, IsOfIndex, IsMerged, IsDue}
use pdxearch.Kernel.Search.Shared.{search-nearest}
use pdxearch.Kernel.Search.Filtered.{is_passing, is_searched, filtered_search-nearest}

abbrev pub zeros : Buffer ℕ
zeros k = 0

abbrev pub bytes : Buffer ℕ
bytes k = k % 256

abbrev pub rows : ℕ → ℕ → ℕ → ℕ
rows id v d = bytes (v * 70 + d)

abbrev pub cluster : Cluster
cluster = record {
  num_embeddings = 2;
  indices = λ v. 10 + v;
  block = store_cluster_embeddings_u8 6 64 70 zeros bytes 2;
}

abbrev pub index : IndexPdxIvf ℕ
index = record {
  num_dimensions = 70;
  num_vertical_dimensions = 6;
  num_horizontal_dimensions = 64;
  clusters = cluster ∷ [];
  is_normalized = false;
  centroids = zeros;
  quantization_scale_squared = 1;
  inverse_quantization_scale_squared = 1;
}

abbrev pub searcher : Searcher ℕ
searcher = record {
  pdx_data = index;
  ratios = λ d. 1;
  k = 1;
  prepared_query = bytes;
  cluster_indices_in_access_order = 0 ∷ [];
  tuples_needed_to_exit = λ n. n;
  is_selective = λ passing_tuples n. false;
}

abbrev pub initialization : Heap ℕ
initialization = record { index = 0; distance = 10 ^ 12 } ∷ []

-- Another thread offers a candidate in each iteration.
abbrev pub other : KnnCandidate ℕ
other = record { index = 99; distance = 123_456_789 }

abbrev pub encounter : ℕ → Encounter ℕ
encounter i = record { tops = λ j. 10 ^ 12; others = other ∷ [] }

abbrev pub IsOther : KnnCandidate ℕ → Type 0
IsOther c = c ≡ other

abbrev start : SearchState ℕ
start = record {
  heap = initialization;
  pruning_positions = zeros;
  pruning_distances = zeros;
  offset = 0;
}

cluster_stored :
    (id : ℕ) (c : Cluster)
    → get_elem? (cluster ∷ []) id ≡ some c
    → IsStored 6 64 c.num_embeddings c.block (rows id)
cluster_stored zero c e =
    subst (λ (b : Cluster). IsStored 6 64 b.num_embeddings b.block (rows 0))
      (some-injective cluster c e) (store_u8-IsStored direct-IsAssignment 6 64 70 2 zeros bytes)
cluster_stored (suc id) c e = absurd (none-ne-some c e)

pub searcher-IsSearchable : IsSearchable searcher rows
searcher-IsSearchable = record {
  stored = cluster_stored;
  split = refl;
  whole = refl;
  few = ground arith;
  query_bytes = λ i. ground arith;
  bytes = λ id v i. ground arith;
}

search-nearest_example :
    (t : SearchState ℕ) × (search searcher encounter 3 start ≡ some t)
    × IsMerged 1
        (λ a. IsOther a ⊎ IsOfIndex searcher rows (λ id. everything) a)
        (IsDue searcher rows (λ id. everything) (λ id. true) encounter 0 (0 ∷ []))
        initialization
        t.heap
unfolding nearest
search-nearest_example =
    search-nearest searcher rows IsOther whole-IsOrdered searcher-IsSearchable encounter 3 start
      initialization (omega arith, tt) (tt, tt) refl (λ j. (refl, tt))

abbrev pub offsets : ClusterOffsets
offsets = compute_offsets 0 (cluster ∷ []) no_offsets

abbrev pub evaluator : PredicateEvaluator
evaluator = record { n_passing_tuples = λ id. 1; selection_vector = λ i. i }

filtered_search-nearest_example :
    (t : SearchState ℕ) × (filtered_search searcher encounter offsets evaluator 3 start ≡ some t)
    × (t.offset ≡ min (0 + 3) 1)
    × IsMerged 1
        (λ a. IsOther a ⊎ IsOfIndex searcher rows (is_passing offsets evaluator) a)
        (IsDue searcher rows
          (is_passing offsets evaluator)
          (is_searched searcher rows IsOther whole-IsOrdered searcher-IsSearchable offsets
            evaluator)
          encounter
          0
          (0 ∷ []))
        initialization
        t.heap
unfolding nearest
filtered_search-nearest_example =
    filtered_search-nearest searcher rows IsOther whole-IsOrdered searcher-IsSearchable offsets
      evaluator encounter 3 start initialization (omega arith, tt) refl (omega arith) (tt, tt) refl
      (λ j. (refl, tt))

offsets-disjoint_example :
    let o = compute_offsets 0 (cluster ∷ cluster ∷ []) no_offsets in
    (o.cluster_offsets 0 + 2 ≤ o.cluster_offsets 1) × (o.cluster_offsets 1 + 2 ≤ o.total_embeddings)
offsets-disjoint_example =
    offsets-disjoint (cluster ∷ cluster ∷ []) 0 1 cluster cluster (omega arith) refl refl
