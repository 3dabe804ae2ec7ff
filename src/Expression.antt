-- ===== src/Expression.antt =====
-- What src/index reads of the expressions, values and types of DuckDB. The functions of DuckDB on
-- them are the fields of `DuckDb`, a parameter of the models that call them.
use pdxearch.Prelude.{ℕ, ◌≡◌, Bool, List, Option, String, ℤ}

pub data LogicalType : Type 0 where
  float blob varchar integer tinyint row_type other_type : LogicalType
  array : LogicalType → ℕ → LogicalType

-- The children of an array of floats are given by the bits of each float.
pub data Value : Type 0 where
  varchar_value : String → Value
  integer_value : ℤ → Value
  blob_value : List ℕ → Value
  array_value : List ℕ → Value
  null_value : LogicalType → Value
  other_value : Value

pub record ColumnBinding : Type 0 where
  pub table_index : ℕ
  pub column_index : ℕ

-- `BOUND_COLUMN_REF`, `VALUE_CONSTANT`, and any other expression with its children.
mutual
  pub data Expression : Type 0 where
    column_ref : ColumnBinding → Expression
    constant : Value → Expression
    call : String → Expressions → Expression

  pub data Expressions : Type 0 where
    nil : Expressions
    cons : Expression → Expressions → Expressions

-- `FunctionExpressionMatcher` as the source fills it: the names, and the types of each argument.
pub record FunctionMatcher : Type 0 where
  pub functions : List String
  pub lhs_types : List LogicalType
  pub rhs_types : List LogicalType

-- What a match binds: the call, and the expressions that the two argument matchers took.
pub record Bindings : Type 0 where
  pub function : Expression
  pub first : Expression
  pub second : Expression

pub record DuckDb : Type 0 where
  -- `StringUtil::Lower`, by which `CIEquals` and `case_insensitive_map_t` compare
  pub lower : String → String
  -- `Value::GetValue<string>` and `Value::GetValue<int32_t>`
  pub get_string : Value → String
  pub get_int32 : Value → ℤ
  -- `ExpressionMatcher::Match`
  pub matches : FunctionMatcher → Expression → Option Bindings
  -- `Expression::Equals`
  pub equals : Expression → Expression → Bool
  -- `COLUMN_IDENTIFIER_ROW_ID`
  pub column_identifier_row_id : ℕ

-- What the documentation of DuckDB says of values, and of the lower case of the source's own names.
pub record IsDocumented (db : DuckDb) : Type 0 where
  pub lower-metric : db.lower "metric" ≡ "metric"
  pub lower-quantization : db.lower "quantization" ≡ "quantization"
  pub lower-n_probe : db.lower "n_probe" ≡ "n_probe"
  pub lower-seed : db.lower "seed" ≡ "seed"
  pub get_string-varchar : (s : String) → db.get_string (varchar_value s) ≡ s
  pub get_int32-integer : (i : ℤ) → db.get_int32 (integer_value i) ≡ i
