-- ===== src/Optimizer/Columns.antt =====
-- The columns of a scan that src/index/search/pdxearch_scan_optimizer.cpp puts in the place of
-- another, with `GetColumnBindings` of src/index/search/pdxearch_index_scan_logical.cpp and
-- pdxearch_index_filtered_scan_logical.cpp.
use mathlib.Core.Path.{subst}
use mathlib.Core.List.{Mem, mem-append_left}
use pdxearch.Prelude.{
  ℕ, ◌≡◌, refl, sym, ap, ◌∙◌, ◌⊎◌, same_text, inl, inr, arith, Bool, true, false, ◌&&◌, ◌||◌, List,
  [], ◌∷◌, ◌++◌, Option, none, some, ◌==◌, ==_iff, if◌then◌else◌, length, get_elem?, Bool-cases,
  Option-cases,
}
use pdxearch.Expression.{ColumnBinding, column_ref, DuckDb}
use pdxearch.Blob.{Scales}
use pdxearch.Optimizer.{
  scan_of, rowid_get, IndexScan, TopN, Projection, Get, ScanBindData, Operator, projection, get,
  index_scan, filtered_scan, Plan, Plans, no_plans, node, only, operator_of, is_empty,
  rowid_position, with_rowid, filter_columns, replace_scan, try_optimize,
}
use pdxearch.Optimizer.Rewriting.{IsNearestSearch, nearest_plan, try_optimize-cases}

abbrev pub contains : ℕ → List ℕ → Bool
contains i [] = false
contains i (j ∷ js) = i == j || contains i js

-- The column of the table that an operator yields under a binding. A scan of a table leaves out
-- those that it does not project. The scans of an index yield all, as `GetColumnBindings` says.
abbrev pub column_at : Operator → ColumnBinding → Option ℕ
column_at (get g) b =
    if b.table_index == g.table_index
      && (is_empty g.projection_ids || contains b.column_index g.projection_ids)
    then get_elem? g.column_ids b.column_index
    else none
column_at (index_scan s) b =
    if b.table_index == s.table_index then get_elem? s.column_ids b.column_index else none
column_at (filtered_scan s row_id_column) b =
    if b.table_index == s.table_index then get_elem? s.column_ids b.column_index else none
column_at _ b = none

-- The data that a scan of an index searches with.
abbrev pub bind_data_of : Operator → Option ScanBindData
bind_data_of (get g) = if same_text g.function_name "pdxearch_index_scan" then g.bind_data else none
bind_data_of (index_scan s) = some s.bind_data
bind_data_of (filtered_scan s row_id_column) = some s.bind_data
bind_data_of _ = none

abbrev pub is_filtered_scan : Operator → Bool
is_filtered_scan (filtered_scan s row_id_column) = true
is_filtered_scan _ = false

-- What the only child reads from.
abbrev pub sources : Plan → Plans
sources (node op (only (node child children))) = children
sources _ = no_plans

-- The operator of the only child.
abbrev pub below : Plan → Option Operator
below (node op (only (node child children))) = some child
below _ = none

module _ (db : DuckDb) (scales : Scales ℕ) where
  rowid_position-get :
      (cs : List ℕ) {i : ℕ}
      → rowid_position db scales cs ≡ some i
      → get_elem? cs i ≡ some db.column_identifier_row_id
  rowid_position-get [] h = ground arith
  rowid_position-get (c ∷ cs) h = elim (Bool-cases (c == db.column_identifier_row_id)) [
    | inl here ↦ ground (arith, ==_iff c db.column_identifier_row_id)
    | inr away ↦ elim (Option-cases (rowid_position db scales cs)) [
      | inl missing ↦ ground arith
      | inr (j, e) ↦ ground (arith, rowid_position-get cs e)
    ]
  ]

  get-append : (cs : List ℕ) (c : ℕ) → get_elem? (cs ++ c ∷ []) (length cs) ≡ some c
  get-append [] c = refl
  get-append (d ∷ cs) c = get-append cs c

  with_rowid-get :
      (fs : List ℕ) (o : Option ℕ)
      → rowid_position db scales fs ≡ o
      → let (columns, rowid_pos) = with_rowid db scales fs o in
        (get_elem? columns rowid_pos ≡ some db.column_identifier_row_id)
        × ((f : ℕ) → Mem f fs → Mem f columns)
  with_rowid-get fs none e = (get-append fs db.column_identifier_row_id, λ f m. mem-append_left _ m)
  with_rowid-get fs (some i) e = (rowid_position-get fs e, λ f m. m)

  -- The scan below a filtered scan yields the rowid, and reads each column that a filter is about.
  pub filter_columns-rowid :
      (fs : List ℕ)
      → let (columns, rowid_pos) = filter_columns db scales fs in
        (get_elem? columns rowid_pos ≡ some db.column_identifier_row_id)
        × ((f : ℕ) → Mem f fs → Mem f columns)
  filter_columns-rowid fs = with_rowid-get fs (rowid_position db scales fs) refl

  -- A filtered scan gets the rows from the old scan of the table with the same filters, which reads
  -- the columns of the filters and yields only the rowid, under the binding of the filtered scan.
  pub record IsFilteredBy (g : Get) (children : Plans) (scan : Operator) (from : Plans)
      : Type 0 where
    pub index : IndexScan
    pub row_id_column : ColumnBinding
    pub filtered : scan ≡ filtered_scan index (column_ref row_id_column)
    pub rows : Get
    pub source : from ≡ only (node (get rows) children)
    pub same_scan :
        rows ≡ record g { column_ids = rows.column_ids; projection_ids = rows.projection_ids }
    pub yields_rowid : column_at (get rows) row_id_column ≡ some db.column_identifier_row_id
    pub yields_only : rows.projection_ids ≡ row_id_column.column_index ∷ []
    pub reads : (f : ℕ) → Mem f g.table_filters → Mem f rows.column_ids

  -- What has come in the place of a projection over a scan of a table: the same projection, up to
  -- its estimate, over a scan of an index that searches with the given data and yields each column
  -- of the old scan under the same binding. If the old scan has filters, the rows come from it.
  pub record IsReplacement (p : Projection) (g : Get) (children : Plans) (d : ScanBindData)
      (plan : Plan) : Type 0 where
    pub cardinality : ℕ
    pub same_projection :
        operator_of plan ≡ projection (record p { estimated_cardinality = cardinality })
    pub scan : Operator
    pub child : below plan ≡ some scan
    pub columns :
        (b : ColumnBinding) (c : ℕ) → column_at (get g) b ≡ some c → column_at scan b ≡ some c
    pub searches : bind_data_of scan ≡ some d
    pub filters :
        (is_empty g.table_filters ≡ true) × (is_filtered_scan scan ≡ false)
        ⊎ (is_empty g.table_filters ≡ false) × IsFilteredBy g children scan (sources plan)

  rowid_get-IsFilteredBy :
      (g : Get) (children : Plans) (d : ScanBindData)
      → IsFilteredBy g children
          (filtered_scan (scan_of db scales g d) (
            column_ref (record {
              table_index = g.table_index;
              column_index = (filter_columns db scales g.table_filters).1;
            })))
          (only (node (get (rowid_get db scales g)) children))
  rowid_get-IsFilteredBy g children d =
      let (at, all) = filter_columns-rowid g.table_filters in
      record {
        index = _;
        row_id_column = _;
        filtered = refl;
        rows = _;
        source = refl;
        same_scan = refl;
        yields_rowid = ground arith;
        yields_only = refl;
        reads = all;
      }

  replace_scan-IsReplacement :
      (is_global : Bool) (t : TopN) (p : Projection) (g : Get) (children : Plans) (d : ScanBindData)
      → IsReplacement p g children d (replace_scan db scales is_global t p g children d)
  unfolding replace_scan
  replace_scan-IsReplacement is_global t p g children d =
      elim (Bool-cases (is_empty g.table_filters)) [
        | inl unfiltered ↦
            rw (replace_scan, unfiltered)
              (elim (Bool-cases is_global) [
                | inl global ↦ rw global (record {
                  cardinality = p.estimated_cardinality;
                  same_projection = refl;
                  scan = _;
                  child = refl;
                  columns = λ b c h. h;
                  searches = refl;
                  filters = inl (unfiltered, refl);
                })
                | inr parallel ↦ rw parallel (record {
                  cardinality = t.estimated_cardinality;
                  same_projection = refl;
                  scan = _;
                  child = refl;
                  columns = λ b c h. ground arith;
                  searches = refl;
                  filters = inl (unfiltered, refl);
                })
              ])
        | inr filtered ↦
            rw (replace_scan, filtered)
              (record {
                cardinality = t.estimated_cardinality;
                same_projection = refl;
                scan = _;
                child = refl;
                columns = λ b c h. ground arith;
                searches = refl;
                filters = inr (filtered, rowid_get-IsFilteredBy g children d);
              })
      ]

  -- A plan that `TryOptimize` replaces is a search for the nearest rows that an index can answer: a
  -- top-n operator over a projection over a scan of a table. In its place is the same projection, up
  -- to its estimate, over a scan of that index with the limit and the query of the search, which
  -- yields each column of the table scan under its binding. If the table scan has filters, the index
  -- scan is filtered by the rowids that the table scan yields with the same filters.
  pub try_optimize-IsReplacement :
      (is_global : Bool) (plan : Plan) {plan' : Plan}
      → try_optimize db scales is_global plan ≡ (true, plan')
      → (t : TopN) × (p : Projection) × (g : Get) × (children : Plans) × (b : ScanBindData) × (plan
          ≡ nearest_plan t p g children)
        × IsNearestSearch db scales t p g b
        × IsReplacement p g children b plan'
  try_optimize-IsReplacement is_global plan h = elim (try_optimize-cases db scales is_global plan) [
    | inl same ↦ ground arith
    | inr (t, p, g, children, b, e, m, run) ↦ (
      t,
      p,
      g,
      children,
      b,
      e,
      m,
      subst (IsReplacement p g children b) (ap (λ r. r.1) (sym run ∙ h))
          (replace_scan-IsReplacement is_global t p g children b),
    )
  ]
