-- ===== src/Optimizer/Rewriting.antt =====
-- When `TryOptimize` of src/index/search/pdxearch_scan_optimizer.cpp replaces a plan, and by what.
use mathlib.Core.Path.{subst}
use mathlib.Core.Option.{some-injective, none-ne-some}
use mathlib.Core.List.{Mem, mem-cons_self, mem-cons_of_mem}
use pdxearch.Prelude.{
  ℕ, ◌≡◌, refl, sym, ◌⊎◌, inl, inr, arith, Bool, true, false, not, ◌&&◌, List, [], ◌∷◌, Option,
  none, some, get_elem?, same_text, same_text_iff, Bool-cases, Option-cases,
}
use pdxearch.Expression.{ColumnBinding, Value, Expression, column_ref, constant, Bindings, DuckDb}
use pdxearch.Blob.{Scales}
use pdxearch.Index.Binding.{IsBound, try_bind_index_expression, try_bind-IsBound}
use pdxearch.Optimizer.{
  IndexEntry, OrderByNode, TopN, Projection, Get, ScanBindData, Plan, Plans, node, only, top_n,
  projection, get, recognise, is_query, matched_embedding, query_of, match_index, find_index,
  order_column, column_of, find_scan, replace_scan, try_optimize, type_name, when, ◌>>=◌,
}

-- The plan of a search for the nearest rows.
abbrev pub nearest_plan : TopN → Projection → Get → Plans → Plan
nearest_plan t p g children =
    node (top_n t) (only (node (projection p) (only (node (get g) children))))

recognise-some :
    (plan : Plan) {t : TopN} {p : Projection} {g : Get} {children : Plans}
    → recognise plan ≡ some (t, p, g, children)
    → plan ≡ nearest_plan t p g children
recognise-some (node (top_n t) (only (node (projection p) (only (node (get g) children))))) h = cc
recognise-some plan h = cc

-- A chain that ends well has passed each test.
>>=-some {ℓ κ} :
    {A : Type ℓ} {B : Type κ} (m : Option A) (f : A → Option B) {b : B}
    → (m >>= f) ≡ some b
    → (a : A) × (m ≡ some a) × (f a ≡ some b)
>>=-some none f h = cc
>>=-some (some a) f h = (a, refl, h)

when-true : (b : Bool) {u : Unit} → when b ≡ some u → b ≡ true
when-true true h = refl
when-true false h = cc

column_of-some : (e : Expression) {b : ColumnBinding} → column_of e ≡ some b → e ≡ column_ref b
column_of-some (column_ref c) h = cc
column_of-some e h = cc

false_of_not : (b : Bool) → not b ≡ true → b ≡ false
false_of_not b h = ground arith

module _ (db : DuckDb) (scales : Scales ℕ) where
  -- One side is a constant, and the other is the expression of the index.
  is_query-some :
      (e x y : Expression) {v : Value}
      → is_query db scales e x y ≡ some v
      → (x ≡ constant v) × (db.equals e y ≡ true)
  is_query-some e (constant w) y h = ground arith
  is_query-some e x y h = cc

  pub record IsMatch (limit : ℕ) (g : Get) (e : Expression) (b : ScanBindData) : Type 0 where
    pub entry : IndexEntry
    pub listed : Mem entry g.indexes
    pub bound : entry.is_bound ≡ true
    pub typed : entry.index_type ≡ type_name
    pub same_index : b.index ≡ entry.index
    pub same_limit : b.limit ≡ limit
    pub bindings : Bindings
    pub matched : db.matches b.index.matcher e ≡ some bindings
    pub indexed : Expression
    pub is_bound_to :
        IsBound g.table_index b.index.column_ids g.column_ids b.index.unbound_expression indexed
    pub embedding : Value
    pub sides :
        ((bindings.first ≡ constant embedding) × (db.equals indexed bindings.second ≡ true))
        ⊎ ((bindings.second ≡ constant embedding) × (db.equals indexed bindings.first ≡ true))
    pub decoded :
        query_of db scales b.index.wrapper.num_dimensions embedding ≡ some b.query_embedding

  both : (a c : Bool) → (a && c) ≡ true → (a ≡ true) × (c ≡ true)
  both a c h = ground arith

  matched-sides :
      (e : Expression) (bs : Bindings) {v : Value}
      → matched_embedding db scales e bs ≡ some v
      → ((bs.first ≡ constant v) × (db.equals e bs.second ≡ true))
        ⊎ ((bs.second ≡ constant v) × (db.equals e bs.first ≡ true))
  matched-sides e bs h = elim (Option-cases (is_query db scales e bs.first bs.second)) [
    | inl missed ↦ inr (is_query-some e bs.second bs.first (ground arith))
    | inr (w, hit) ↦ inl (is_query-some e bs.first bs.second (ground arith))
  ]

  -- One index: what its callback returns fits the query.
  match_index-IsMatch :
      (limit : ℕ) (g : Get) (e : Expression) (entry : IndexEntry) {b : ScanBindData}
      → Mem entry g.indexes
      → match_index db scales limit g e entry ≡ some b
      → IsMatch limit g e b
  unfolding match_index
  match_index-IsMatch limit g e entry m h =
      let (u, guard, h1) =
        >>=-some (when (entry.is_bound && same_text type_name entry.index_type)) _ h in
      let (bs, matched, h2) = >>=-some (db.matches entry.index.matcher e) _ h1 in
      let (ie, tried, h3) =
        >>=-some (try_bind_index_expression entry.index g.table_index g.column_ids) _ h2 in
      let (v, sided, h4) = >>=-some (matched_embedding db scales ie bs) _ h3 in
      let (q, decoded, h5) =
        >>=-some (query_of db scales entry.index.wrapper.num_dimensions v) _ h4 in
      let made : record { index = entry.index; limit = limit; query_embedding = q } ≡ _ =
        some-injective _ _ h5 in
      let guards = both _ _ (when-true _ guard) in
      subst (IsMatch limit g e) made (record {
        entry = entry;
        listed = m;
        bound = guards.0;
        typed = sym ((same_text_iff _ _).0 guards.1);
        same_index = refl;
        same_limit = refl;
        bindings = bs;
        matched = matched;
        indexed = ie;
        is_bound_to = try_bind-IsBound entry.index g.table_index g.column_ids tried;
        embedding = v;
        sides = matched-sides ie bs sided;
        decoded = decoded;
      })

  -- The scan over the indexes.
  find_index-IsMatch :
      (limit : ℕ) (g : Get) (e : Expression) (entries : List IndexEntry) {b : ScanBindData}
      → ((entry : IndexEntry) → Mem entry entries → Mem entry g.indexes)
      → find_index db scales limit g e entries ≡ some b
      → IsMatch limit g e b
  unfolding find_index
  find_index-IsMatch limit g e [] sub h = absurd (none-ne-some _ h)
  find_index-IsMatch limit g e (entry ∷ entries) sub h =
      elim (Option-cases (match_index db scales limit g e entry)) [
        | inl missed ↦
            find_index-IsMatch limit g e entries (λ x m. sub x (mem-cons_of_mem entry m))
              (ground arith)
        | inr (b', hit) ↦
            match_index-IsMatch limit g e entry (sub entry mem-cons_self) (ground arith)
      ]

  -- What the operators must be.
  pub record IsNearestSearch (t : TopN) (p : Projection) (g : Get) (b : ScanBindData) : Type 0 where
    pub order : OrderByNode
    pub single : t.orders ≡ order ∷ []
    pub ascending : order.is_ascending ≡ true
    pub key : ColumnBinding
    pub key_column : order.expression ≡ column_ref key
    pub distance : Expression
    pub projected : get_elem? p.expressions key.column_index ≡ some distance
    pub table_scan : g.function_name ≡ "seq_scan"
    pub static : g.has_dynamic_filters ≡ false
    pub duck_table : g.is_duck_table ≡ true
    pub match : IsMatch t.limit g distance b

  order_column-some :
      (orders : List OrderByNode) {key : ColumnBinding}
      → order_column orders ≡ some key
      → (order : OrderByNode) × (orders ≡ order ∷ [])
        × (order.is_ascending ≡ true)
        × (order.expression ≡ column_ref key)
  order_column-some [] h = cc
  order_column-some (o ∷ p ∷ orders) h = cc
  order_column-some (o ∷ []) h = elim (Bool-cases o.is_ascending) [
    | inl up ↦ (o, refl, up, column_of-some o.expression (ground arith))
    | inr down ↦ ground arith
  ]

  find_scan-IsNearestSearch :
      (t : TopN) (p : Projection) (g : Get) {b : ScanBindData}
      → find_scan db scales t p g ≡ some b
      → IsNearestSearch t p g b
  unfolding find_scan
  find_scan-IsNearestSearch t p g h =
      let (key, ordered, h1) = >>=-some (order_column t.orders) _ h in
      let (e, projected, h2) = >>=-some (get_elem? p.expressions key.column_index) _ h1 in
      let (u, scanned, h3) = >>=-some (when (same_text g.function_name "seq_scan")) _ h2 in
      let (w, undynamic, h4) = >>=-some (when (not g.has_dynamic_filters)) _ h3 in
      let (x, duck, h5) = >>=-some (when g.is_duck_table) _ h4 in
      let (order, single, ascending, key_column) = order_column-some t.orders ordered in
      record {
        order = order;
        single = single;
        ascending = ascending;
        key = key;
        key_column = key_column;
        distance = e;
        projected = projected;
        table_scan = (same_text_iff _ _).0 (when-true _ scanned);
        static = false_of_not _ (when-true _ undynamic);
        duck_table = when-true _ duck;
        match = find_index-IsMatch t.limit g e g.indexes (λ x m. m) h5;
      }

  -- Either a plan is left as it is, or it is a search for the nearest rows of which the index has
  -- been found, and the scan of the table is replaced.
  pub try_optimize-cases :
      (is_global : Bool) (plan : Plan)
      → (try_optimize db scales is_global plan ≡ (false, plan))
        ⊎ ((t : TopN) × (p : Projection) × (g : Get) × (children : Plans) × (b : ScanBindData)
            × (plan ≡ nearest_plan t p g children)
            × IsNearestSearch t p g b
            × (try_optimize db scales is_global plan
                ≡ (true, replace_scan db scales is_global t p g children b)))
  unfolding try_optimize
  try_optimize-cases is_global plan = elim (Option-cases (recognise plan)) [
    | inl other ↦ inl (rw (try_optimize, other))
    | inr ((t, p, g, children), e) ↦ elim (Option-cases (find_scan db scales t p g)) [
      | inl none_found ↦ inl (rw (try_optimize, e, none_found))
      | inr (b, found) ↦ inr (
        t,
        p,
        g,
        children,
        b,
        recognise-some plan e,
        find_scan-IsNearestSearch t p g found,
        rw (try_optimize, e, found),
      )
    ]
  ]
