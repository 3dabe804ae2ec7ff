-- ===== src/Index.antt =====
-- The class of src/index/pdxearch_index.cpp and src/include/index/pdxearch_index.hpp: its
-- constructor, its options and names, and what the optimizer asks it.
pub mod Options
pub mod Chosen
pub mod Binding
use pdxearch.Prelude.{
  ℕ, ◌+◌, ◌≡◌, refl, Bool, true, false, ◌&&◌, List, [], ◌∷◌, map, Option, none, some, ltb, ◌==◌,
  if◌then◌else◌, String, same_text, ℤ, pos, negsuc, Result, ok, err, ◌>>=◌, ◌>>◌, throw_if,
}
use pdxearch.Expression.{
  LogicalType, float, blob, integer, array, Value, ColumnBinding, Expression, column_ref, constant,
  call, Expressions, nil, cons, FunctionMatcher, Bindings, DuckDb,
}
use pdxearch.Wrapper.Construction.{
  DistanceMetric, l2sq, cosine, ip, Quantization, f32, u8, f16, bf, PdxearchWrapper, make_wrapper,
  default_distance_metric, default_quantization, default_n_probe,
}

pub data IndexError : Type 0 where
  unsupported_constraint unsupported_quantization unknown_metric : IndexError
  unknown_quantization : IndexError

-- `DISTANCE_METRIC_MAP` and `QUANTIZATION_MAP`
abbrev pub distance_metric_map : List (String × DistanceMetric)
distance_metric_map = ("l2sq", l2sq) ∷ ("cosine", cosine) ∷ []

abbrev pub quantization_map : List (String × Quantization)
quantization_map = ("f32", f32) ∷ ("u8", u8) ∷ []

-- `GetDistanceMetric` and `GetQuantization`, with the cases that throw.
abbrev pub get_distance_metric : DistanceMetric → Result IndexError String
get_distance_metric l2sq = ok "l2sq"
get_distance_metric cosine = ok "cosine"
get_distance_metric ip = err unknown_metric

abbrev pub get_quantization : Quantization → Result IndexError String
get_quantization f32 = ok "f32"
get_quantization u8 = ok "u8"
get_quantization f16 = err unknown_quantization
get_quantization bf = err unknown_quantization

-- A matcher for functions on arrays of this size, or on blobs.
abbrev pub distance_matcher : ℕ → List String → FunctionMatcher
distance_matcher num_dimensions names = record {
  functions = names;
  lhs_types = array float num_dimensions ∷ blob ∷ [];
  rhs_types = array float num_dimensions ∷ blob ∷ [];
}

-- `MakeFunctionMatcher`: the functions that a metric is for.
abbrev pub make_function_matcher : ℕ → DistanceMetric → Result IndexError FunctionMatcher
make_function_matcher num_dimensions l2sq =
    ok (distance_matcher num_dimensions ("array_distance" ∷ "<->" ∷ []))
make_function_matcher num_dimensions cosine =
    ok (distance_matcher num_dimensions ("array_cosine_distance" ∷ "<=>" ∷ []))
make_function_matcher num_dimensions ip = err unknown_metric

-- `PDXearchIndex`. The expression is the last of `unbound_expressions`.
pub record PdxearchIndex : Type 0 where
  pub wrapper : PdxearchWrapper
  pub matcher : FunctionMatcher
  pub column_ids : List ℕ
  pub unbound_expression : Expression

-- `quantization == F32`, `quantization == U8`, or the throw.
abbrev pub supported : Quantization → Result IndexError (Unit {0})
supported f32 = ok tt
supported u8 = ok tt
supported _ = err unsupported_quantization

-- The end of the constructor, which makes the matcher from the wrapper.
unfoldable pub index_of : List ℕ → Expression → PdxearchWrapper → Result IndexError PdxearchIndex
index_of column_ids unbound_expression wrapper = do
  matcher ← make_function_matcher wrapper.num_dimensions wrapper.distance_metric
  ok (record {
    wrapper = wrapper;
    matcher = matcher;
    column_ids = column_ids;
    unbound_expression = unbound_expression;
  })

module _ (db : DuckDb) where
  -- `find` of a `case_insensitive_map_t`
  unfoldable pub find_ci {ℓ} : {A : Type ℓ} → String → List (String × A) → Option A
  find_ci k [] = none
  find_ci k ((j, v) ∷ m) = if same_text (db.lower j) (db.lower k) then some v else find_ci k m

  -- One lookup of the constructor: an option that is absent or of an unknown name is the default.
  unfoldable pub named_option {ℓ} :
      {A : Type ℓ} → String → List (String × A) → A → List (String × Value) → A
  named_option k names default options = elim (find_ci k options) [
    | none ↦ default
    | some v ↦ elim (find_ci (db.get_string v) names) [ none ↦ default | some a ↦ a ]
  ]

  unfoldable pub int32_option : String → ℤ → List (String × Value) → ℤ
  int32_option k default options = elim (find_ci k options) [
    | none ↦ default
    | some v ↦ db.get_int32 v
  ]

  -- The constructor of `PDXearchIndex`, less that of the wrapper's derived class. The seed without
  -- an option is drawn at random.
  unfoldable pub make_index :
      (is_constrained : Bool)
      → (num_dimensions : ℕ) → (random_seed : ℤ) → (column_ids : List ℕ)
      → (unbound_expression : Expression) → (options : List (String × Value))
      → Result IndexError PdxearchIndex
  make_index is_constrained num_dimensions random_seed column_ids unbound_expression options = do
    throw_if is_constrained unsupported_constraint
    let dist_metric = named_option "metric" distance_metric_map default_distance_metric options
    let quantization = named_option "quantization" quantization_map default_quantization options
    let n_probe = int32_option "n_probe" default_n_probe options
    let seed = int32_option "seed" random_seed options
    supported quantization
    index_of column_ids unbound_expression
        (make_wrapper quantization dist_metric num_dimensions n_probe seed)

  -- `GetEffectiveNProbe`, with the setting `pdxearch_n_probe` if there is one.
  unfoldable pub get_effective_n_probe : PdxearchIndex → Option Value → ℕ
  get_effective_n_probe index none = index.wrapper.n_probe
  get_effective_n_probe index (some setting) = elim setting [
    | Value.integer_value i ↦ elim (db.get_int32 (Value.integer_value i)) [
      | pos n ↦ n
      | negsuc n ↦ index.wrapper.n_probe
    ]
    | _ ↦ index.wrapper.n_probe
  ]
