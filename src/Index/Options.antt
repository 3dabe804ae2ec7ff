-- ===== src/Index/Options.antt =====
-- The validation of src/index/create/pdxearch_index_create_plan.cpp: every accepted set of options
-- is one that the constructor of the index reads as it stands.
use pdxearch.Prelude.{
  ℕ, Bool, List, [], ◌∷◌, none, some, ltb, ◌==◌, if◌then◌else◌, String, same_text, pos, negsuc,
  Result, ok, err, ◌>>=◌, ◌>>◌, throw_if,
}
use pdxearch.Dimensions.{pdx_max_dims}
use pdxearch.Expression.{LogicalType, float, array, Value, varchar_value, integer_value, DuckDb}
use pdxearch.Index.{distance_metric_map, quantization_map, find_ci}

-- The `BinderException`s of `CreatePlan`.
pub data BinderError : Type 0 where
  metric_not_a_string metric_not_allowed : BinderError
  quantization_not_a_string quantization_not_allowed : BinderError
  n_probe_not_an_integer n_probe_negative seed_not_an_integer : BinderError
  unknown_option : String → BinderError
  not_one_column not_an_array not_of_floats empty_table : BinderError
  too_many_dimensions : ℕ → BinderError

-- The type of the key column.
abbrev pub check_type : LogicalType → Result BinderError ℕ
check_type (array float n) = if ltb pdx_max_dims n then err (too_many_dimensions n) else ok n
check_type (array _ n) = err not_of_floats
check_type _ = err not_an_array

module _ (db : DuckDb) where
  -- `StringUtil::CIEquals`
  abbrev pub ci_equals : String → String → Bool
  ci_equals a b = same_text (db.lower a) (db.lower b)

  abbrev pub check_name {ℓ} :
      {A : Type ℓ}
      → List (String × A)
      → BinderError
      → BinderError
      → Value
      → Result BinderError (Unit {0})
  check_name names not_a_string not_allowed (varchar_value s) =
      elim (find_ci db (db.get_string (varchar_value s)) names) [
        | none ↦ err not_allowed
        | some a ↦ ok tt
      ]
  check_name names not_a_string not_allowed _ = err not_a_string

  abbrev pub check_n_probe : Value → Result BinderError (Unit {0})
  check_n_probe (integer_value i) = elim (db.get_int32 (integer_value i)) [
    | pos n ↦ ok tt
    | negsuc n ↦ err n_probe_negative
  ]
  check_n_probe _ = err n_probe_not_an_integer

  abbrev pub check_seed : Value → Result BinderError (Unit {0})
  check_seed (integer_value i) = ok tt
  check_seed _ = err seed_not_an_integer

  -- One round of the loop over the options.
  unfoldable pub check_option : String → Value → Result BinderError (Unit {0})
  check_option k v =
      if ci_equals k "metric"
      then check_name distance_metric_map metric_not_a_string metric_not_allowed v
      else (if ci_equals k "quantization"
          then check_name quantization_map quantization_not_a_string quantization_not_allowed v
          else (if ci_equals k "n_probe"
              then check_n_probe v
              else (if ci_equals k "seed" then check_seed v else err (unknown_option k))))

  -- The loop.
  unfoldable pub check_options : List (String × Value) → Result BinderError (Unit {0})
  check_options [] = ok tt
  check_options ((k, v) ∷ options) = do check_option k v; check_options options

  -- `CreatePlan` up to the construction of the operators: the number of dimensions.
  unfoldable pub create_plan :
      List (String × Value)
      → (key_types : List LogicalType) → (estimated_cardinality : ℕ) → Result BinderError ℕ
  create_plan options (key_type ∷ []) estimated_cardinality = do
    check_options options
    n ← check_type key_type
    throw_if (estimated_cardinality == 0) empty_table
    ok n
  create_plan options key_types estimated_cardinality = do check_options options; err not_one_column
