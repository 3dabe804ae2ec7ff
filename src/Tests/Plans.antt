-- ===== src/Tests/Plans.antt =====
-- The optimizer on the plans of small queries.
use pdxearch.Prelude.{ℕ, ◌≡◌, refl, true, false, [], ◌∷◌, none, map, arith}
use pdxearch.Expression.{array_value, Expression, column_ref, constant, call, nil, cons}
use pdxearch.Index.Binding.{try_bind_index_expression, bind_expression}
use pdxearch.Optimizer.{
  TopN, Projection, Get, ScanBindData, IndexScan, Plan, Plans, no_plans, try_optimize,
  optimize_children, find_scan, find_index, match_index, replace_scan,
}
use pdxearch.Optimizer.Rewriting.{nearest_plan, IsNearestSearch}
use pdxearch.Optimizer.Columns.{IsReplacement, try_optimize-IsReplacement}
use pdxearch.Optimizer.Depth.{depth, optimize_children-fuel}
use pdxearch.Optimizer.Merging.{prune_projection, inline, map-inline-prune_projection}
use pdxearch.Tests.Options.{sample_db, sample_index}
use pdxearch.Tests.Blobs.{whole_scales}

abbrev column : ℕ → ℕ → Expression
column t c = column_ref (record { table_index = t; column_index = c })

-- `SELECT id, vec, distance ORDER BY distance LIMIT 10`, with the distance in the third column.
abbrev search_top_n : TopN
search_top_n = record {
  orders = record { is_ascending = true; expression = column 9 2 } ∷ [];
  limit = 10;
  estimated_cardinality = 10;
}

abbrev distance_expression : Expression
distance_expression =
    call "array_cosine_distance"
      (cons (column 5 1) (cons (constant (array_value (3 ∷ 4 ∷ []))) nil))

abbrev search_projection : Projection
search_projection = record {
  table_index = 9;
  expressions = column 5 0 ∷ column 5 1 ∷ distance_expression ∷ [];
  estimated_cardinality = 1000;
}

-- A scan of the columns 7 and 1 with a filter on column 7.
abbrev search_get : Get
search_get = record {
  table_index = 5;
  function_name = "seq_scan";
  bind_data = none;
  has_dynamic_filters = false;
  is_duck_table = true;
  indexes = record { is_bound = true; index_type = "PDXEARCH"; index = sample_index } ∷ [];
  table_filters = 7 ∷ [];
  column_ids = 7 ∷ 1 ∷ [];
  projection_ids = [];
}

abbrev found_scan : ScanBindData
found_scan = record { index = sample_index; limit = 10; query_embedding = 3 ∷ 4 ∷ [] }

abbrev search_plan : Plan
search_plan = nearest_plan search_top_n search_projection search_get no_plans

abbrev optimized_plan : Plan
optimized_plan =
    replace_scan sample_db whole_scales false search_top_n search_projection search_get no_plans
      found_scan

optimizes : try_optimize sample_db whole_scales false search_plan ≡ (true, optimized_plan)
unfolding try_optimize find_scan find_index match_index try_bind_index_expression bind_expression
optimizes = refl

try_optimize-IsReplacement_example :
    (t : TopN) × (p : Projection) × (g : Get) × (children : Plans) × (b : ScanBindData)
    × (search_plan ≡ nearest_plan t p g children)
    × IsNearestSearch sample_db whole_scales t p g b
    × IsReplacement sample_db whole_scales p g children b optimized_plan
try_optimize-IsReplacement_example =
    try_optimize-IsReplacement sample_db whole_scales false search_plan optimizes

optimize_children-fuel_example :
    optimize_children sample_db whole_scales false 3 search_plan
    ≡ optimize_children sample_db whole_scales false 8 search_plan
unfolding depth
optimize_children-fuel_example =
    optimize_children-fuel sample_db whole_scales false 3 8 search_plan (omega arith) (omega arith)

-- The projection above reads the id and the embedding, and not the distance.
abbrev upper_projection : Projection
upper_projection = record {
  table_index = 11;
  expressions = column 9 0 ∷ column 9 1 ∷ [];
  estimated_cardinality = 10;
}

map-inline-prune_projection_example :
    map (inline (prune_projection upper_projection search_projection)) upper_projection.expressions
    ≡ map (inline search_projection) upper_projection.expressions
map-inline-prune_projection_example = map-inline-prune_projection upper_projection search_projection

abbrev a_scan : IndexScan
a_scan = record { bind_data = found_scan; column_ids = 7 ∷ 1 ∷ []; table_index = 5 }

abbrev global_scan : Get
global_scan = record search_get { function_name = "pdxearch_index_scan" }
