-- ===== src/Wrapper/Construction.antt =====
-- The constructors and the getters of the wrappers of src/include/index/pdxearch_wrapper.hpp.
use pdxearch.Prelude.{
  ℕ, Bool, true, false, ◌==◌, if◌then◌else◌, ℤ, pos, to_unsigned, Result, ok, err,
}
use pdxearch.Wrapper.{compute_num_clusters_for_row_group}

-- `PDX::DistanceMetric` and `PDX::Quantization`
pub data DistanceMetric : Type 0 where
  l2sq cosine ip : DistanceMetric

pub data Quantization : Type 0 where
  f32 u8 f16 bf : Quantization

-- `DistanceMetricRequiresNormalization`
abbrev pub distance_metric_requires_normalization : DistanceMetric → Bool
distance_metric_requires_normalization l2sq = false
distance_metric_requires_normalization cosine = true
distance_metric_requires_normalization ip = true

-- `PDXearchWrapper`, less its rotation matrix. The last field is that of the derived class.
pub record PdxearchWrapper : Type 0 where
  pub num_dimensions : ℕ
  pub is_normalized : Bool
  pub distance_metric : DistanceMetric
  pub quantization : Quantization
  pub n_probe : ℕ
  pub seed : ℤ

abbrev pub default_distance_metric : DistanceMetric
default_distance_metric = l2sq

abbrev pub default_quantization : Quantization
default_quantization = u8

abbrev pub default_n_probe : ℤ
default_n_probe = pos 24

-- The constructor of `PDXearchWrapper`, whose caller passes `n_probe` as an `int32_t`.
abbrev pub make_wrapper : Quantization → DistanceMetric → ℕ → ℤ → ℤ → PdxearchWrapper
make_wrapper quantization distance_metric num_dimensions n_probe seed = record {
  num_dimensions = num_dimensions;
  is_normalized = distance_metric_requires_normalization distance_metric;
  distance_metric = distance_metric;
  quantization = quantization;
  n_probe = to_unsigned 32 n_probe;
  seed = seed;
}

pub data WrapperError : Type 0 where
  estimated_cardinality_zero : WrapperError

-- `PDXearchWrapperParallel`
pub record ParallelWrapper : Type 0 where
  pub base : PdxearchWrapper
  pub num_row_groups : ℕ
  pub num_clusters_per_row_group : ℕ

-- The constructor of `PDXearchWrapperParallel`. `ceil_groups` is the rounded quotient of floats.
unfoldable pub make_parallel :
    ℕ → (ℕ → ℕ) → PdxearchWrapper → ℕ → Result WrapperError ParallelWrapper
make_parallel default_row_group_size ceil_groups base estimated_cardinality =
    if estimated_cardinality == 0
    then err estimated_cardinality_zero
    else ok (record {
      base = base;
      num_row_groups = ceil_groups estimated_cardinality;
      num_clusters_per_row_group =
          compute_num_clusters_for_row_group default_row_group_size estimated_cardinality;
    })
