-- ===== src/Tests/Options.antt =====
-- The options of an index at small inputs.
use pdxearch.Prelude.{
  err, ◌-◌, ◌^◌, ◌≤◌, ◌≡◌, refl, Bool, true, false, List, [], ◌∷◌, Option, none, some, String, ℤ,
  pos, ok,
}
use pdxearch.Dimensions.{pdx_max_dims}
use pdxearch.Expression.{
  float, array, Value, varchar_value, integer_value, Expression, column_ref, call, nil, cons,
  Bindings, DuckDb, IsDocumented,
}
use pdxearch.Wrapper.Construction.{cosine, u8, make_wrapper}
use pdxearch.Index.{unsupported_constraint, PdxearchIndex, distance_matcher, find_ci, make_index}
use pdxearch.Index.Options.{create_plan, check_options, check_option}
use pdxearch.Index.Chosen.{IsChosen, create_plan-make_index}

abbrev string_of : Value → String
string_of (varchar_value s) = s
string_of _ = ""

abbrev int32_of : Value → ℤ
int32_of (integer_value i) = i
int32_of _ = pos 0

abbrev arguments_of : Expression → Option Bindings
arguments_of (call f (cons a (cons b nil))) =
    some (record { function = call f (cons a (cons b nil)); first = a; second = b })
arguments_of _ = none

abbrev is_column : Expression → Bool
is_column (column_ref b) = true
is_column _ = false

-- A database whose names are all in lower case.
abbrev pub sample_db : DuckDb
sample_db = record {
  lower = λ s. s;
  get_string = string_of;
  get_int32 = int32_of;
  matches = λ m e. arguments_of e;
  equals = λ e x. is_column x;
  column_identifier_row_id = 2 ^ 64 - 1;
}

abbrev pub sample_db_documented : IsDocumented sample_db
sample_db_documented = record {
  lower-metric = refl;
  lower-quantization = refl;
  lower-n_probe = refl;
  lower-seed = refl;
  get_string-varchar = λ s. refl;
  get_int32-integer = λ i. refl;
}

-- `WITH (metric = 'cosine', n_probe = 10)`
abbrev with_options : List (String × Value)
with_options = ("metric", varchar_value "cosine") ∷ ("n_probe", integer_value (pos 10)) ∷ []

abbrev pub embedding_column : Expression
embedding_column = column_ref (record { table_index = 0; column_index = 0 })

abbrev pub sample_index : PdxearchIndex
sample_index = record {
  wrapper = make_wrapper u8 cosine 2 (pos 10) (pos 42);
  matcher = distance_matcher 2 ("array_cosine_distance" ∷ "<=>" ∷ []);
  column_ids = 1 ∷ [];
  unbound_expression = embedding_column;
}

accepted : create_plan sample_db with_options (array float 2 ∷ []) 1000 ≡ ok 2
unfolding create_plan check_options check_option find_ci
accepted = refl

create_plan-make_index_example :
    (index : PdxearchIndex) × (make_index sample_db false 2
        (pos 42)
        (1 ∷ [])
        embedding_column
        with_options
      ≡ ok index)
    × IsChosen sample_db sample_db_documented with_options index.wrapper
    × (index.wrapper.num_dimensions ≡ 2)
    × (2 ≤ pdx_max_dims)
    × (make_index sample_db true 2 (pos 42) (1 ∷ []) embedding_column with_options
        ≡ err unsupported_constraint)
create_plan-make_index_example =
    create_plan-make_index sample_db sample_db_documented with_options (array float 2 ∷ []) 1000 2
      (pos 42) (1 ∷ []) embedding_column accepted
