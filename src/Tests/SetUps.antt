-- ===== src/Tests/SetUps.antt =====
-- A table of three rows, from its set-up to its searches.
use pdxearch.Prelude.{
  take, ◌⊎◌, ◌%◌, true, ℕ, zero, suc, ◌+◌, ◌*◌, ◌/◌, ◌≤◌, ◌<◌, ◌≡◌, refl, inr, arith, min, max,
  false, true, for_up, some, ltb, if◌then◌else◌, Buffer, All, pos, length,
}
use pdxearch.Kernel.Heap.Order.{nearest}
use pdxearch.Kernel.Scan.Calls.{everything}
use pdxearch.Kernel.Search.{SearchState}
use pdxearch.Kernel.Search.Leaving.{IsMerged, IsDue}
use pdxearch.Wrapper.RowGroup.{initialize_search, search_row_group}
use pdxearch.Wrapper.RowGroup.Found.{row_group, values, search_row_group-nearest}
use pdxearch.Tests.Searches.{encounter, IsOther, initialization}
use pdxearch.Layout.Assign.{direct, direct-IsAssignment}
use pdxearch.Kernel.Float.{whole, whole-IsOrdered}
use pdxearch.Kernel.Global.Filled.{IsFinite}
use pdxearch.Kernel.Search.{Searcher}
use pdxearch.Kernel.Search.Leaving.{IsSearchable}
use pdxearch.KMeans.{SuperKMeans, IsAssigning, compute_kmeans}
use pdxearch.KMeans.Partition.{IsPartition, compute_kmeans-IsPartition}
use pdxearch.Quantizer.{Scaling, compute_quantization_params, quantize_embedding}
use pdxearch.Quantizer.Order.{IsMonotone, quantize_embedding-monotone}
use pdxearch.Wrapper.{RowMaps}
use pdxearch.Wrapper.Construction.{PdxearchWrapper, l2sq, u8}
use pdxearch.Wrapper.SetUp.{SetUpIndex, set_up_index}
use pdxearch.Wrapper.SetUp.Rows.{IsRow, IsReady}
use pdxearch.Wrapper.SetUp.Searchable.{values_of, set_up_index-IsSearchable}
use pdxearch.Wrapper.Global.{Engine, Scratch, preprocess_query, searcher_for}
use pdxearch.Tests.Globals.{whole_arithmetic}
use pdxearch.Tests.Searches.{zeros, bytes}
use pdxearch.Tests.Sorting.{insertion, insertion-IsSorting}

instance abbrev pub whole_scaling : Scaling ℕ
whole_scaling = record {
  minimum = min;
  maximum = max;
  lowest = 0;
  divide = ◌/◌;
  square_root = λ n. n;
  round_to_int = pos;
}

times-le : (x y s : ℕ) → x ≤ y → x * s ≤ y * s
times-le x y zero le = omega arith
times-le x y (suc s) le = omega (arith, times-le x y s le)

whole-IsMonotone : IsMonotone ℕ
whole-IsMonotone = record {
  sub_mono = λ x y b h. ground arith;
  mul_mono = λ x y s scale h. let le = times-le x y s (ground arith) in ground arith;
  round_mono = λ x y h. ground arith;
}

quantize_embedding-monotone_example :
    let q =
      quantize_embedding 3 bytes
        (record { quantization_base = 0; quantization_scale = 2 })
        zeros
        10 in
    (q (10 + 1) ≤ q (10 + 2)) × (q (10 + 2) < 256) × (q 13 ≡ 0)
quantize_embedding-monotone_example =
    quantize_embedding-monotone bytes (record { quantization_base = 0; quantization_scale = 2 })
      zeros 10 whole-IsMonotone 3 1 2 13 (omega arith) (omega arith) (inr (omega arith)) refl refl

-- The embeddings behind the first one are all in the second cluster.
abbrev pub two_groups : SuperKMeans ℕ
two_groups = record {
  train = λ config k d embeddings n. embeddings;
  assign = λ config k d embeddings centroids n v. if ltb v k then v else 0;
}

two_groups-IsAssigning : IsAssigning two_groups
two_groups-IsAssigning = record {
  assigned = λ config k d embeddings centroids n v some_left lt. ground arith;
}

compute_kmeans-IsPartition_example :
    let r = compute_kmeans two_groups bytes 5 3 2 l2sq 42 in
    IsPartition 5 r.assignments × (length r.assignments ≡ 2)
compute_kmeans-IsPartition_example =
    compute_kmeans-IsPartition two_groups two_groups-IsAssigning bytes 5 3 2 l2sq 42 (omega arith)

abbrev pub wrapper : PdxearchWrapper
wrapper = record {
  num_dimensions = 3;
  is_normalized = true;
  distance_metric = l2sq;
  quantization = u8;
  n_probe = 0;
  seed = pos 42;
}

abbrev pub row_ids : Buffer ℕ
row_ids v = 10 + v

abbrev own_key : ℕ → ℕ
own_key r = r

abbrev pub maps : RowMaps
maps = record {
  row_id_metadata = λ r. record { cluster_id = 0; index_in_cluster = 0 };
  indices = λ c p. 0;
}

abbrev pub fresh : ℕ → Buffer ℕ
fresh c = zeros

pub ready_index : IsReady two_groups wrapper own_key 2 row_ids bytes 3 fresh maps
ready_index = record {
  assigning = two_groups-IsAssigning;
  assignment = direct-IsAssignment;
  some_dims = omega arith;
  few_dims = omega arith;
  some_clusters = omega arith;
  keys = λ v w hv hw e. omega arith;
  row_ids_fit = λ v hv. omega arith;
}

abbrev pub made : SetUpIndex ℕ
made = set_up_index two_groups wrapper own_key 2 row_ids bytes 3 fresh maps

abbrev pub engine : Engine ℕ
engine = record {
  sorting = insertion;
  rotate = λ b. b;
  ratios = λ d. 1;
  tuples_needed_to_exit = λ n. n;
  is_selective = λ passing_tuples n. false;
  is_dense = λ passing_tuples n. false;
}

abbrev pub scratch : Scratch ℕ
scratch = record {
  normalized_query = zeros;
  quantized_query = zeros;
  pruning_positions = zeros;
  pruning_distances = zeros;
}

abbrev searcher : ℕ → Searcher ℕ
searcher limit = searcher_for engine made scratch limit (preprocess_query engine made scratch bytes)

inverse_scale : made.index.inverse_quantization_scale_squared ≡ 0
unfolding set_up_index compute_quantization_params for_up
inverse_scale = refl

pub finite : (limit : ℕ) → IsFinite (searcher limit)
finite limit n small = rw inverse_scale (ground arith)

set_up_index-IsSearchable_example :
    IsSearchable
      (record (searcher 2) { pdx_data = made.index; prepared_query = zeros })
      (values_of two_groups wrapper own_key 2 row_ids bytes 3 fresh maps)
set_up_index-IsSearchable_example =
    set_up_index-IsSearchable two_groups wrapper own_key 2 row_ids bytes 3 fresh maps
      direct-IsAssignment (omega arith) (omega arith)
      (record (searcher 2) { prepared_query = zeros }) (λ i. omega arith)

abbrev group_key : ℕ → ℕ
group_key r = r % 122_880

group_ready : IsReady two_groups wrapper group_key 2 row_ids bytes 3 fresh maps
group_ready = record {
  assigning = two_groups-IsAssigning;
  assignment = direct-IsAssignment;
  some_dims = omega arith;
  few_dims = omega arith;
  some_clusters = omega arith;
  keys = λ v w hv hw e. omega arith;
  row_ids_fit = λ v hv. omega arith;
}

abbrev group : SetUpIndex ℕ
group = row_group two_groups wrapper group_key 2 row_ids bytes 3 fresh maps group_ready

abbrev group_searcher : Searcher ℕ
group_searcher = initialize_search engine group zeros bytes 1

abbrev group_values : ℕ → ℕ → ℕ → ℕ
group_values = values two_groups wrapper group_key 2 row_ids bytes 3 fresh maps group_ready

search_row_group-nearest_example :
    (t : SearchState ℕ) × (search_row_group engine group zeros bytes 1 initialization encounter 1
        zeros zeros
      ≡ some t)
    × IsMerged 1
        (λ a. IsOther a ⊎ IsRow row_ids 3 a.index)
        (IsDue group_searcher group_values
          (λ id. everything)
          (λ id. true)
          encounter
          0
          (take
            (min 1 (length group.index.clusters))
            group_searcher.cluster_indices_in_access_order))
        initialization
        t.heap
unfolding nearest
search_row_group-nearest_example =
    search_row_group-nearest two_groups wrapper group_key 2 row_ids bytes 3 fresh maps group_ready
      IsOther whole-IsOrdered engine insertion-IsSorting zeros (λ i. omega arith) bytes 1 encounter
      1 zeros zeros initialization initialization (omega arith) (tt, tt) refl (λ j. (refl, tt))
