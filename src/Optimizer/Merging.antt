-- ===== src/Optimizer/Merging.antt =====
-- `MergeProjections` of src/index/search/pdxearch_scan_optimizer.cpp: what the projection above does
-- not read is not computed by the one below.
use mathlib.Core.Path.{subst, ap₂}
use pdxearch.Prelude.{
  ℕ, zero, suc, ◌+◌, ◌≡◌, refl, ap, inl, inr, arith, Bool, true, false, ◌&&◌, ◌||◌, List, [], ◌∷◌,
  ◌++◌, Option, none, some, ◌==◌, ==_iff, if◌then◌else◌, get_or, map, same_text, Bool-cases,
}
use pdxearch.Expression.{
  tinyint, null_value, ColumnBinding, Expression, Expressions, column_ref, constant, call, nil,
  cons,
}
use pdxearch.Optimizer.{
  Projection, Operator, projection, get, index_scan, filtered_scan, Plan, Plans, node, no_plans,
  more_plans,
}

abbrev pub same_binding : ColumnBinding → ColumnBinding → Bool
same_binding a b = a.table_index == b.table_index && a.column_index == b.column_index

-- `referenced_bindings.find(binding) != end()`
abbrev pub is_referenced : ColumnBinding → List ColumnBinding → Bool
is_referenced b [] = false
is_referenced b (c ∷ cs) = same_binding b c || is_referenced b cs

-- The column references of an expression, as `EnumerateExpression` meets them.
unfoldable mutual
  pub references : Expression → List ColumnBinding
  references (column_ref b) = b ∷ []
  references (constant v) = []
  references (call f es) = references_of_all es

  pub references_of_all : Expressions → List ColumnBinding
  references_of_all nil = []
  references_of_all (cons e es) = references e ++ references_of_all es

unfoldable pub referenced_bindings : List Expression → List ColumnBinding
referenced_bindings [] = []
referenced_bindings (e ∷ es) = references e ++ referenced_bindings es

-- The loop over the expressions of the projection below, from the i-th on.
unfoldable pub prune_from : ℕ → List ColumnBinding → ℕ → List Expression → List Expression
prune_from table_index referenced i [] = []
prune_from table_index referenced i (e ∷ es) =
    (if is_referenced (record { table_index = table_index; column_index = i }) referenced
      then e
      else constant (null_value tinyint))
    ∷ prune_from table_index referenced (suc i) es

abbrev pub prune_projection : Projection → Projection → Projection
prune_projection parent child = record child {
  expressions =
      prune_from child.table_index (referenced_bindings parent.expressions) 0 child.expressions;
}

-- `GetName` of the two logical operators, and the test that recognises a scan of an index.
abbrev pub is_merged_scan : Operator → Bool
is_merged_scan (get g) = same_text g.function_name "pdxearch_index_scan"
is_merged_scan (index_scan s) = same_text "PDXEARCH_INDEX_SCAN" "PDXEARCH_INDEX_FILT_SCAN"
is_merged_scan (filtered_scan s row_id_column) =
    same_text "PDXEARCH_INDEX_FILT_SCAN" "PDXEARCH_INDEX_FILT_SCAN"
is_merged_scan _ = false

-- The tests of the plan, and the change, which returns without a look at the children.
abbrev pub merge_here : Operator → Plans → Option Plans
merge_here (projection parent)
      (more_plans (node (projection child) (more_plans (node scan plans) scans)) children) =
    if is_merged_scan scan
    then some (
        more_plans
          (node (projection (prune_projection parent child)) (more_plans (node scan plans) scans))
          children)
    else none
merge_here _ _ = none

-- `MergeProjections`
unfoldable mutual
  pub merge_projections : Plan → Plan
  merge_projections (node op plans) =
      let deeper = merge_all plans in
      elim (merge_here op plans) [ some merged ↦ node op merged | none ↦ node op deeper ]

  pub merge_all : Plans → Plans
  merge_all no_plans = no_plans
  merge_all (more_plans p ps) = more_plans (merge_projections p) (merge_all ps)

-- An expression with the column references of a projection replaced by what stands there: what it
-- computes from the columns below.
abbrev pub standing_for : Projection → ColumnBinding → Expression
standing_for child b =
    if b.table_index == child.table_index
    then get_or child.expressions b.column_index (column_ref b)
    else column_ref b

unfoldable mutual
  pub inline : Projection → Expression → Expression
  inline child (column_ref b) = standing_for child b
  inline child (constant v) = constant v
  inline child (call f es) = call f (inline_all child es)

  pub inline_all : Projection → Expressions → Expressions
  inline_all child nil = nil
  inline_all child (cons e es) = cons (inline child e) (inline_all child es)

is_referenced-append :
    (b : ColumnBinding) (xs ys : List ColumnBinding)
    → is_referenced b (xs ++ ys) ≡ (is_referenced b xs || is_referenced b ys)
is_referenced-append b [] ys = refl
is_referenced-append b (x ∷ xs) ys = ground (arith, is_referenced-append b xs ys)

-- A referenced expression stays where it was.
get_or-prune :
    (t : ℕ) (r : List ColumnBinding) (i j : ℕ) (es : List Expression) (d : Expression)
    → is_referenced (record { table_index = t; column_index = i + j }) r ≡ true
    → get_or (prune_from t r i es) j d ≡ get_or es j d
unfolding prune_from
get_or-prune t r i j [] d h = refl
get_or-prune t r i zero (e ∷ es) d h =
    let s : i + 0 ≡ i = omega arith in
    let h' : is_referenced (record { table_index = t; column_index = i }) r ≡ true =
      subst (λ n. is_referenced (record { table_index = t; column_index = n }) r ≡ true) s h in
    rw h'
get_or-prune t r i (suc j) (e ∷ es) d h =
    let s : i + suc j ≡ suc i + j = omega arith in
    get_or-prune t r (suc i) j es d
      (subst (λ n. is_referenced (record { table_index = t; column_index = n }) r ≡ true) s h)

abbrev pub pruned_to : List ColumnBinding → Projection → Projection
pruned_to r child = record child {
  expressions = prune_from child.table_index r 0 child.expressions;
}

standing_for-prune :
    (child : Projection) (r : List ColumnBinding) (b : ColumnBinding)
    → is_referenced b r ≡ true
    → standing_for (pruned_to r child) b ≡ standing_for child b
standing_for-prune child r b h = elim (Bool-cases (b.table_index == child.table_index)) [
  | inl here ↦
      let t : b.table_index ≡ child.table_index = (==_iff _ _).0 here in
      let same : b ≡ record { table_index = child.table_index; column_index = 0 + b.column_index } =
        ground arith in
      rw here (
        get_or-prune child.table_index r 0 b.column_index child.expressions (column_ref b)
          (subst (λ c. is_referenced c r ≡ true) same h))
  | inr away ↦ rw away
]

abbrev Within : List ColumnBinding → List ColumnBinding → Type 0
Within xs r = (b : ColumnBinding) → is_referenced b xs ≡ true → is_referenced b r ≡ true

Within-append : (xs ys r : List ColumnBinding) → Within (xs ++ ys) r → Within xs r × Within ys r
Within-append xs ys r h = (
  (λ b m. h b (ground (arith, is_referenced-append b xs ys))),
  λ b m. h b (ground (arith, is_referenced-append b xs ys)),
)

self_referenced : (b : ColumnBinding) → is_referenced b (b ∷ []) ≡ true
self_referenced b = ground arith

mutual
  unfolding references inline

  inline-pruned :
      (child : Projection) (r : List ColumnBinding) (e : Expression)
      → Within (references e) r
      → inline (pruned_to r child) e ≡ inline child e
  inline-pruned child r (column_ref b) h = standing_for-prune child r b (h b (self_referenced b))
  inline-pruned child r (constant v) h = refl
  inline-pruned child r (call f es) h = ap (call f) (inline_all-pruned child r es h)

  inline_all-pruned :
      (child : Projection) (r : List ColumnBinding) (es : Expressions)
      → Within (references_of_all es) r
      → inline_all (pruned_to r child) es ≡ inline_all child es
  inline_all-pruned child r nil h = refl
  inline_all-pruned child r (cons e es) h =
      let parts = Within-append (references e) (references_of_all es) r h in
      ap₂ cons (inline-pruned child r e parts.0) (inline_all-pruned child r es parts.1)

map-inline-pruned :
    (child : Projection) (r : List ColumnBinding) (es : List Expression)
    → Within (referenced_bindings es) r
    → map (inline (pruned_to r child)) es ≡ map (inline child) es
unfolding referenced_bindings
map-inline-pruned child r [] h = refl
map-inline-pruned child r (e ∷ es) h =
    let parts = Within-append (references e) (referenced_bindings es) r h in
    ap₂ (λ x xs. x ∷ xs) (inline-pruned child r e parts.0) (map-inline-pruned child r es parts.1)

-- What the upper projection computes from the columns of the scan is the same after the lower one
-- has lost the expressions that the upper one does not read.
pub map-inline-prune_projection :
    (parent child : Projection)
    → map (inline (prune_projection parent child)) parent.expressions
      ≡ map (inline child) parent.expressions
map-inline-prune_projection parent child =
    map-inline-pruned child (referenced_bindings parent.expressions) parent.expressions (λ b h. h)
