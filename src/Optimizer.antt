-- ===== src/Optimizer.antt =====
-- src/index/search/pdxearch_scan_optimizer.cpp: a search for the nearest rows, recognised in a query
-- plan and replaced by a scan of an index.
pub mod Rewriting
pub mod Columns
pub mod Depth
pub mod Merging
pub mod Effect
use pdxearch.Prelude.{
  ℕ, zero, suc, ◌+◌, ◌-◌, ◌≡◌, refl, Bool, true, false, not, ◌&&◌, ◌||◌, List, [], ◌∷◌, ◌++◌, map,
  Option, none, some, ltb, ◌==◌, if◌then◌else◌, length, get_elem?, get_or, take, String, same_text,
  max,
}
use pdxearch.Expression.{
  ColumnBinding, Value, blob_value, array_value, Expression, column_ref, constant, Bindings, DuckDb,
}
use pdxearch.Blob.{Scales, blob_dimension_count, decode_blob_to_float_array}
use pdxearch.Index.{PdxearchIndex}
use pdxearch.Index.Binding.{try_bind_index_expression}

-- An index of a table, as `TableIndexList::Scan` yields it.
pub record IndexEntry : Type 0 where
  pub is_bound : Bool
  pub index_type : String
  pub index : PdxearchIndex

-- `LogicalTopN`, with each key of its order. The source does not read its offset.
pub record OrderByNode : Type 0 where
  pub is_ascending : Bool
  pub expression : Expression

pub record TopN : Type 0 where
  pub orders : List OrderByNode
  pub limit : ℕ
  pub estimated_cardinality : ℕ

-- `LogicalProjection`
pub record Projection : Type 0 where
  pub table_index : ℕ
  pub expressions : List Expression
  pub estimated_cardinality : ℕ

-- `PDXearchIndexScanBindData`. The floats of the query are given by their bits.
pub record ScanBindData : Type 0 where
  pub index : PdxearchIndex
  pub limit : ℕ
  pub query_embedding : List ℕ

-- `LogicalGet`. Of the filters that are pushed down, the columns are told.
pub record Get : Type 0 where
  pub table_index : ℕ
  pub function_name : String
  pub bind_data : Option ScanBindData
  pub has_dynamic_filters : Bool
  pub is_duck_table : Bool
  pub indexes : List IndexEntry
  pub table_filters : List ℕ
  pub column_ids : List ℕ
  pub projection_ids : List ℕ

-- `LogicalPDXearchIndexScan`, and `LogicalPDXearchIndexFilteredScan`
pub record IndexScan : Type 0 where
  pub bind_data : ScanBindData
  pub column_ids : List ℕ
  pub table_index : ℕ

pub data Operator : Type 0 where
  top_n : TopN → Operator
  projection : Projection → Operator
  get : Get → Operator
  index_scan : IndexScan → Operator
  filtered_scan : IndexScan → (row_id_column : Expression) → Operator
  other_operator : ℕ → Operator

-- `LogicalOperator`, with its children.
mutual
  pub data Plan : Type 0 where
    node : Operator → Plans → Plan

  pub data Plans : Type 0 where
    no_plans : Plans
    more_plans : Plan → Plans → Plans

abbrev pub operator_of : Plan → Operator
operator_of (node op children) = op

abbrev pub children_of : Plan → Plans
children_of (node op children) = children

-- A call on each child, and whether any has succeeded.
abbrev pub each_plan : (Plan → Bool × Plan) → Plans → Bool × Plans
each_plan f no_plans = (false, no_plans)
each_plan f (more_plans p ps) =
    let (ok, p') = f p in let (oks, ps') = each_plan f ps in (ok || oks, more_plans p' ps')

pattern abbrev pub only : Plan → Plans
only p = more_plans p no_plans

-- `PDXearchIndex::TYPE_NAME`
abbrev pub type_name : String
type_name = "PDXEARCH"

-- A chain of tests, of which the first to fail ends the callback.
infixl 5 ◌>>=◌ ◌>>◌
abbrev ◌>>=◌ {ℓ κ} : {A : Type ℓ} {B : Type κ} → Option A → (A → Option B) → Option B
none >>= f = none
some a >>= f = f a

abbrev ◌>>◌ {κ} : {B : Type κ} → Option (Unit {0}) → Option B → Option B
m >> k = m >>= λ _. k

abbrev when : Bool → Option (Unit {0})
when true = some tt
when false = none

abbrev pub is_empty : List ℕ → Bool
is_empty [] = true
is_empty _ = false

-- A top-n operator over a projection over a scan, each the only child.
abbrev pub recognise : Plan → Option (TopN × Projection × Get × Plans)
recognise (node (top_n t) (only (node (projection p) (only (node (get g) children))))) =
    some (t, p, g, children)
recognise _ = none

abbrev pub column_of : Expression → Option ColumnBinding
column_of (column_ref b) = some b
column_of _ = none

-- The tests on the operator and its children, before the index: the key of the order must be a
-- column of the projection.
abbrev pub order_column : List OrderByNode → Option ColumnBinding
order_column (order ∷ []) = if order.is_ascending then column_of order.expression else none
order_column _ = none

module _ (db : DuckDb) (scales : Scales ℕ) where
  -- The test of the bindings: a constant vector on one side, and the indexed expression on the other.
  abbrev pub is_query : Expression → Expression → Expression → Option Value
  is_query index_expr (constant v) index_expr_ref =
      if db.equals index_expr index_expr_ref then some v else none
  is_query index_expr _ index_expr_ref = none

  -- The test, then the same with the bindings swapped.
  abbrev pub matched_embedding : Expression → Bindings → Option Value
  matched_embedding index_expr b = elim (is_query index_expr b.first b.second) [
    | some v ↦ some v
    | none ↦ is_query index_expr b.second b.first
  ]

  -- The query, of a blob or of an array. The matcher has checked the type of an array. A NULL, for
  -- which the accessors of DuckDB throw, is no query here.
  abbrev pub query_of : ℕ → Value → Option (List ℕ)
  query_of num_dimensions (blob_value bytes) =
      if blob_dimension_count (length bytes) == num_dimensions
      then some (decode_blob_to_float_array scales bytes)
      else none
  query_of num_dimensions (array_value elements) = some (take num_dimensions elements)
  query_of num_dimensions _ = none

  -- The callback for an index of the table.
  unfoldable pub match_index : ℕ → Get → Expression → IndexEntry → Option ScanBindData
  match_index limit g projection_expr entry = do
    when (entry.is_bound && same_text type_name entry.index_type)
    bindings ← db.matches entry.index.matcher projection_expr
    index_expr ← try_bind_index_expression entry.index g.table_index g.column_ids
    v ← matched_embedding index_expr bindings
    query ← query_of entry.index.wrapper.num_dimensions v
    some (record { index = entry.index; limit = limit; query_embedding = query })

  -- `Scan`, which goes through the indexes up to the first that matches.
  unfoldable pub find_index : ℕ → Get → Expression → List IndexEntry → Option ScanBindData
  find_index limit g projection_expr [] = none
  find_index limit g projection_expr (entry ∷ entries) =
      elim (match_index limit g projection_expr entry) [
        | none ↦ find_index limit g projection_expr entries
        | some bind_data ↦ some bind_data
      ]

  -- The data of an index scan that finds what these operators ask for.
  unfoldable pub find_scan : TopN → Projection → Get → Option ScanBindData
  find_scan t p g = do
    b ← order_column t.orders
    projection_expr ← get_elem? p.expressions b.column_index
    when (same_text g.function_name "seq_scan")
    when (not g.has_dynamic_filters)
    when g.is_duck_table
    find_index t.limit g projection_expr g.indexes

  -- The place of the rowid among the columns of a scan.
  abbrev pub rowid_position : List ℕ → Option ℕ
  rowid_position [] = none
  rowid_position (c ∷ cs) =
      if c == db.column_identifier_row_id
      then some 0
      else (elim (rowid_position cs) [ none ↦ none | some i ↦ some (suc i) ])

  -- The columns that the filters need, with the rowid, and its place among them.
  abbrev pub with_rowid : List ℕ → Option ℕ → List ℕ × ℕ
  with_rowid table_filters (some rowid_pos) = (table_filters, rowid_pos)
  with_rowid table_filters none =
      (table_filters ++ db.column_identifier_row_id ∷ [], length table_filters)

  abbrev pub filter_columns : List ℕ → List ℕ × ℕ
  filter_columns table_filters = with_rowid table_filters (rowid_position table_filters)

  -- The scan of the table that yields only the rowid of the rows that pass the filters.
  abbrev pub rowid_get : Get → Get
  rowid_get g =
      let (columns, rowid_pos) = filter_columns g.table_filters in
      record g { column_ids = columns; projection_ids = rowid_pos ∷ [] }

  abbrev pub scan_of : Get → ScanBindData → IndexScan
  scan_of g bind_data = record {
    bind_data = bind_data;
    column_ids = g.column_ids;
    table_index = g.table_index;
  }

  -- The table scan as the global version makes it a scan of the index. Its estimate is left out.
  abbrev pub global_get : Get → ScanBindData → Get
  global_get g bind_data = record g {
    function_name = "pdxearch_index_scan";
    bind_data = some bind_data;
  }

  -- The three replacements for the table scan. `is_global` is PDX_USE_ALTERNATIVE_GLOBAL_VERSION.
  unfoldable pub replace_scan : Bool → TopN → Projection → Get → Plans → ScanBindData → Plan
  replace_scan is_global t p g children bind_data =
      if is_empty g.table_filters
      then (if is_global
          then node (projection p) (only (node (get (global_get g bind_data)) children))
          else node (projection (record p { estimated_cardinality = t.estimated_cardinality }))
              (only (node (index_scan (scan_of g bind_data)) no_plans)))
      else node (projection (record p { estimated_cardinality = t.estimated_cardinality })) (
          only (
            node
              (filtered_scan (scan_of g bind_data) (
                column_ref (record {
                  table_index = g.table_index;
                  column_index = (filter_columns g.table_filters).1;
                })))
              (only (node (get (rowid_get g)) children))))

  -- `TryOptimize`
  unfoldable pub try_optimize : Bool → Plan → Bool × Plan
  try_optimize is_global plan = elim (recognise plan) [
    | none ↦ (false, plan)
    | some (t, p, g, children) ↦ elim (find_scan t p g) [
      | none ↦ (false, plan)
      | some bind_data ↦ (true, replace_scan is_global t p g children bind_data)
    ]
  ]

  -- `OptimizeChildren`, on fuel. Its loop is over the children of the plan that was replaced.
  unfoldable pub optimize_children : Bool → ℕ → Plan → Bool × Plan
  optimize_children is_global zero plan = (false, plan)
  optimize_children is_global (suc fuel) plan =
      let (ok, plan') = try_optimize is_global plan in
      let (oks, children) = each_plan (optimize_children is_global fuel) (children_of plan') in
      (ok || oks, node (operator_of plan') children)
