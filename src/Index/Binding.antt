-- ===== src/Index/Binding.antt =====
-- `TryBindIndexExpression` of src/index/pdxearch_index.cpp: the expression of the index, rewritten to
-- the columns of a table scan.
use mathlib.Core.Path.{subst}
use pdxearch.Prelude.{
  ℕ, suc, ◌≡◌, refl, inl, inr, arith, Bool, true, false, ◌&&◌, List, [], ◌∷◌, Option, none, some,
  ◌==◌, ==_iff, if◌then◌else◌, get_elem?, get_or, String, Bool-cases, Option-cases, if_some,
}
use pdxearch.Expression.{
  ColumnBinding, Expression, Expressions, column_ref, constant, call, nil, cons,
}
use pdxearch.Index.{PdxearchIndex}

-- The first `i` with `table_columns[i] == referenced_column`.
abbrev pub position_of : ℕ → List ℕ → Option ℕ
position_of referenced_column [] = none
position_of referenced_column (c ∷ cs) =
    if c == referenced_column
    then some 0
    else (elim (position_of referenced_column cs) [ none ↦ none | some i ↦ some (suc i) ])

-- The two flags that the recursion passes by reference.
pub record Flags : Type 0 where
  pub success : Bool
  pub found : Bool

module _ (table_idx : ℕ) (index_columns table_columns : List ℕ) where
  -- A column reference is rewritten to the place of its column in the scan, if it has one.
  abbrev pub place_column : ColumnBinding → Flags → Option ℕ → Expression × Flags
  place_column b flags none = (
    column_ref (record { table_index = table_idx; column_index = b.column_index }),
    record { success = false; found = true },
  )
  place_column b flags (some i) = (
    column_ref (record { table_index = table_idx; column_index = i }),
    record flags { found = true },
  )

  abbrev pub bind_column : ColumnBinding → Flags → Expression × Flags
  bind_column b flags =
      place_column b flags (position_of (get_or index_columns b.column_index 0) table_columns)

  -- `TryBindIndexExpressionInternal`
  unfoldable mutual
    pub bind_expression : Expression → Flags → Expression × Flags
    bind_expression (column_ref b) flags = bind_column b flags
    bind_expression (constant v) flags = (constant v, flags)
    bind_expression (call f es) flags =
        let (es', flags') = bind_children es flags in (call f es', flags')

    pub bind_children : Expressions → Flags → Expressions × Flags
    bind_children nil flags = (nil, flags)
    bind_children (cons e es) flags =
        let (e', flags') = bind_expression e flags in
        let (es', flags'') = bind_children es flags' in (cons e' es', flags'')

  -- An expression, and the same one with each column looked up in the scan.
  mutual
    pub data IsBound : Expression → Expression → Type 0 where
      bound_column :
          (b : ColumnBinding) (i : ℕ)
          → get_elem? table_columns i ≡ some (get_or index_columns b.column_index 0)
          → IsBound
              (column_ref b)
              (column_ref (record { table_index = table_idx; column_index = i }))
      bound_constant : {v : _} → IsBound (constant v) (constant v)
      bound_call :
          (f : String) {es es' : Expressions} → AreBound es es' → IsBound (call f es) (call f es')

    pub data AreBound : Expressions → Expressions → Type 0 where
      bound_nil : AreBound nil nil
      bound_cons :
          {e e' : Expression} {es es' : Expressions}
          → IsBound e e'
          → AreBound es es'
          → AreBound (cons e es) (cons e' es')

-- `TryBindIndexExpression` for a scan of these columns under this table index.
unfoldable pub try_bind_index_expression :
    PdxearchIndex → (table_index : ℕ) → (column_ids : List ℕ) → Option Expression
try_bind_index_expression index table_index column_ids =
    let (e, flags) =
      bind_expression table_index index.column_ids column_ids index.unbound_expression
        (record { success = true; found = false }) in
    if flags.success && flags.found then some e else none

position_of-get_elem :
    (c : ℕ) (cs : List ℕ) {i : ℕ} → position_of c cs ≡ some i → get_elem? cs i ≡ some c
position_of-get_elem c [] h = ground arith
position_of-get_elem c (d ∷ cs) h = elim (Bool-cases (d == c)) [
  | inl here ↦ ground (arith, ==_iff d c)
  | inr away ↦ elim (Option-cases (position_of c cs)) [
    | inl missing ↦ ground arith
    | inr (j, e) ↦ ground (arith, position_of-get_elem c cs e)
  ]
]

module _ (table_idx : ℕ) (index_columns table_columns : List ℕ) where
  place_column-IsBound :
      (b : ColumnBinding) (flags : Flags) (o : Option ℕ)
      → position_of (get_or index_columns b.column_index 0) table_columns ≡ o
      → (place_column table_idx index_columns table_columns b flags o).1.success ≡ true
      → (flags.success ≡ true)
        × IsBound table_idx index_columns table_columns
            (column_ref b)
            (place_column table_idx index_columns table_columns b flags o).0
  place_column-IsBound b flags none e h = ground arith
  place_column-IsBound b flags (some i) e h =
      (h, bound_column b i (position_of-get_elem _ table_columns e))

  mutual
    unfolding bind_expression

    bind_expression-IsBound :
        (e : Expression) (flags : Flags)
        → (bind_expression table_idx index_columns table_columns e flags).1.success ≡ true
        → (flags.success ≡ true)
          × IsBound table_idx index_columns table_columns e
              (bind_expression table_idx index_columns table_columns e flags).0
    bind_expression-IsBound (column_ref b) flags h =
        place_column-IsBound b flags
          (position_of (get_or index_columns b.column_index 0) table_columns) refl h
    bind_expression-IsBound (constant v) flags h = (h, bound_constant)
    bind_expression-IsBound (call f es) flags h =
        let (ok, bs) = bind_children-AreBound es flags h in (ok, bound_call f bs)

    bind_children-AreBound :
        (es : Expressions) (flags : Flags)
        → (bind_children table_idx index_columns table_columns es flags).1.success ≡ true
        → (flags.success ≡ true)
          × AreBound table_idx index_columns table_columns es
              (bind_children table_idx index_columns table_columns es flags).0
    bind_children-AreBound nil flags h = (h, bound_nil)
    bind_children-AreBound (cons e es) flags h =
        let (ok', bs) = bind_children-AreBound es _ h in
        let (ok, b) = bind_expression-IsBound e flags ok' in (ok, bound_cons b bs)

-- An expression that the optimizer gets for a scan is that of the index, with every column read where
-- the scan has it.
pub try_bind-IsBound :
    (index : PdxearchIndex) (table_index : ℕ) (column_ids : List ℕ) {e : Expression}
    → try_bind_index_expression index table_index column_ids ≡ some e
    → IsBound table_index index.column_ids column_ids index.unbound_expression e
unfolding try_bind_index_expression
try_bind-IsBound index table_index column_ids h =
    let (e', flags) =
      bind_expression table_index index.column_ids column_ids index.unbound_expression
        (record { success = true; found = false }) in
    let (good, same) = if_some (flags.success && flags.found) h in
    subst (IsBound table_index index.column_ids column_ids index.unbound_expression) same
      (bind_expression-IsBound table_index index.column_ids column_ids index.unbound_expression _
        (ground arith)).1
