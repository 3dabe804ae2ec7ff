-- ===== src/Index/Chosen.antt =====
-- The options that `CreatePlan` accepts are the ones that the constructor takes.
use pdxearch.Prelude.{
  ℕ, ◌≤◌, ◌%◌, ◌^◌, ◌≡◌, ◌≢◌, refl, sym, ◌∙◌, ap, to_unsigned, ◌⊎◌, inl, inr, arith, true, false,
  List, [], ◌∷◌, none, some, ◌==◌, String, same_text, same_text_iff, ℤ, pos, negsuc, ok, err,
  throw_if, Bool-cases, Option-cases, >>=-ok, >>-ok, err-ne-ok,
}
use pdxearch.Dimensions.{pdx_max_dims}
use pdxearch.Expression.{
  FunctionMatcher, LogicalType, float, array, Value, varchar_value, integer_value, DuckDb,
  IsDocumented, Expression,
}
use pdxearch.Wrapper.Construction.{
  make_wrapper, ip, l2sq, cosine, DistanceMetric, Quantization, PdxearchWrapper,
  default_distance_metric, default_quantization, default_n_probe,
}
use pdxearch.Index.{
  unsupported_constraint, supported, index_of, make_function_matcher, distance_metric_map,
  quantization_map, find_ci, named_option, int32_option, make_index, PdxearchIndex,
}
use pdxearch.Index.Options.{
  BinderError, not_one_column, empty_table, metric_not_a_string, metric_not_allowed,
  quantization_not_a_string, quantization_not_allowed, ci_equals, check_name, check_n_probe,
  check_option, check_options, check_type, create_plan,
}

module _ (db : DuckDb) (doc : IsDocumented db) where
  -- What an option that names something stands for.
  abbrev pub Named {ℓ} :
      {A : Type ℓ} → String → List (String × A) → A → List (String × Value) → A → Type ℓ
  Named k names default options a =
      ((find_ci db k options ≡ none) × (a ≡ default))
      ⊎ ((s : String) × (find_ci db k options ≡ some (varchar_value s))
          × (find_ci db s names ≡ some a))

  -- An accepted option is found under a key that was checked.
  checked :
      (k : String) (options : List (String × Value)) {v : Value}
      → check_options db options ≡ ok tt
      → find_ci db k options ≡ some v
      → (j : String) × (db.lower j ≡ db.lower k) × (check_option db j v ≡ ok tt)
  unfolding check_options find_ci
  checked k [] h e = ground arith
  checked k ((j, w) ∷ options) h e =
      let steps = >>-ok (check_option db j w) (check_options db options) h in
      elim (Bool-cases (same_text (db.lower j) (db.lower k))) [
        | inl here ↦ (j, (same_text_iff _ _).0 here, ground arith)
        | inr away ↦ checked k options steps.1 (ground arith)
      ]

  named_of_check {ℓ} :
      {A : Type ℓ} (names : List (String × A)) (x y : BinderError) (v : Value)
      → check_name db names x y v ≡ ok tt
      → (s : String) × (a : A) × (v ≡ varchar_value s) × (find_ci db s names ≡ some a)
  named_of_check names x y (varchar_value s) h =
      elim (Option-cases (find_ci db (db.get_string (varchar_value s)) names)) [
        | inl unknown ↦ ground arith
        | inr (a, e) ↦
            (s, a, refl, ap (λ t. find_ci db t names) (sym (doc.get_string-varchar s)) ∙ e)
      ]
  named_of_check names x y v h = err-ne-ok h

  chosen_name {ℓ} :
      {A : Type ℓ} (k : String) (names : List (String × A)) (x y : BinderError) (default : A)
      (options : List (String × Value))
      → ((v : Value) → find_ci db k options ≡ some v → check_name db names x y v ≡ ok tt)
      → Named k names default options (named_option db k names default options)
  unfolding named_option
  chosen_name k names x y default options h = elim (Option-cases (find_ci db k options)) [
    | inl e ↦ inl (e, rw (e, named_option))
    | inr (v, e) ↦
        let (s, a, is_s, found) = named_of_check names x y v (h v e) in
        let read : find_ci db (db.get_string v) names ≡ some a =
          rw (is_s, doc.get_string-varchar s) found in
        let taken : named_option db k names default options ≡ a = rw (e, named_option, read) in
        inr (s, e ∙ ap some is_s, found ∙ ap some (sym taken))
  ]

  keys_differ :
      (j k l : String)
      → db.lower j ≡ db.lower k
      → db.lower k ≡ k
      → db.lower l ≡ l
      → k ≢ l
      → ci_equals db j l ≡ false
  keys_differ j k l e ek el ne = ground (arith, same_text_iff (db.lower j) (db.lower l))

  metric_checked :
      (options : List (String × Value)) (v : Value)
      → check_options db options ≡ ok tt
      → find_ci db "metric" options ≡ some v
      → check_name db distance_metric_map metric_not_a_string metric_not_allowed v ≡ ok tt
  unfolding check_option
  metric_checked options v h e =
      let (j, same, c) = checked "metric" options h e in
      ground (arith, same_text_iff (db.lower j) (db.lower "metric"))

  quantization_checked :
      (options : List (String × Value)) (v : Value)
      → check_options db options ≡ ok tt
      → find_ci db "quantization" options ≡ some v
      → check_name db quantization_map quantization_not_a_string quantization_not_allowed v ≡ ok tt
  unfolding check_option
  quantization_checked options v h e =
      let (j, same, c) = checked "quantization" options h e in
      let not_metric : ci_equals db j "metric" ≡ false =
        keys_differ j "quantization" "metric" same doc.lower-quantization doc.lower-metric
          (ground (arith, same_text_iff "quantization" "metric")) in
      ground (arith, same_text_iff (db.lower j) (db.lower "quantization"))

  n_probe_checked :
      (options : List (String × Value)) (v : Value)
      → check_options db options ≡ ok tt
      → find_ci db "n_probe" options ≡ some v
      → check_n_probe db v ≡ ok tt
  unfolding check_option
  n_probe_checked options v h e =
      let (j, same, c) = checked "n_probe" options h e in
      let not_metric : ci_equals db j "metric" ≡ false =
        keys_differ j "n_probe" "metric" same doc.lower-n_probe doc.lower-metric
          (ground (arith, same_text_iff "n_probe" "metric")) in
      let not_quantization : ci_equals db j "quantization" ≡ false =
        keys_differ j "n_probe" "quantization" same doc.lower-n_probe doc.lower-quantization
          (ground (arith, same_text_iff "n_probe" "quantization")) in
      ground (arith, same_text_iff (db.lower j) (db.lower "n_probe"))

  -- An option that holds a whole number that is not negative.
  abbrev pub Counted : String → ℤ → List (String × Value) → ℕ → Type 0
  Counted k default options n =
      ((find_ci db k options ≡ none) × (default ≡ pos n))
      ⊎ (find_ci db k options ≡ some (integer_value (pos n)))

  count_of_check : (v : Value) → check_n_probe db v ≡ ok tt → (n : ℕ) × (v ≡ integer_value (pos n))
  count_of_check (integer_value (pos n)) h = (n, refl)
  count_of_check (integer_value (negsuc n)) h = ground (arith, doc.get_int32-integer (negsuc n))
  count_of_check v h = err-ne-ok h

  -- What the user chose, or the default where nothing was said.
  pub record IsChosen (options : List (String × Value)) (w : PdxearchWrapper) : Type 0 where
    pub metric :
        Named "metric" distance_metric_map default_distance_metric options w.distance_metric
    pub quantization :
        Named "quantization" quantization_map default_quantization options w.quantization
    pub n_probe : (n : ℕ) × Counted "n_probe" default_n_probe options n × (w.n_probe ≡ n % 2 ^ 32)

  metric_supported :
      (options : List (String × Value)) (a : DistanceMetric)
      → Named "metric" distance_metric_map default_distance_metric options a
      → a ≢ ip
  unfolding find_ci
  metric_supported options a h = ground arith

  quantization_supported :
      (options : List (String × Value)) (a : Quantization)
      → Named "quantization" quantization_map default_quantization options a
      → supported a ≡ ok tt
  unfolding find_ci
  quantization_supported options a h = ground arith

  check_type-array :
      (t : LogicalType) {n : ℕ} → check_type t ≡ ok n → (t ≡ array float n) × (n ≤ pdx_max_dims)
  check_type-array (array float m) h = ground arith
  check_type-array t h = ground arith

  create_plan-checks :
      (options : List (String × Value)) (types : List LogicalType) (cardinality : ℕ) {n : ℕ}
      → create_plan db options types cardinality ≡ ok n
      → (check_options db options ≡ ok tt)
        × (types ≡ array float n ∷ [])
        × (n ≤ pdx_max_dims)
        × (1 ≤ cardinality)
  unfolding create_plan
  create_plan-checks options [] cardinality h =
      err-ne-ok (>>-ok (check_options db options) (err not_one_column) h).1
  create_plan-checks options (t ∷ []) cardinality h =
      let (accepted, rest) = >>-ok (check_options db options) _ h in
      let (m, is_array, last) = >>=-ok (check_type t) _ rest in
      let (filled, same) = >>-ok (throw_if (cardinality == 0) empty_table) (ok m) last in
      let shape = check_type-array t is_array in ground arith
  create_plan-checks options (t ∷ u ∷ types) cardinality h =
      err-ne-ok (>>-ok (check_options db options) (err not_one_column) h).1

  matcher_of :
      (n : ℕ) (d : DistanceMetric)
      → d ≢ ip
      → (m : FunctionMatcher) × (make_function_matcher n d ≡ ok m)
  matcher_of n l2sq ne = (_, refl)
  matcher_of n cosine ne = (_, refl)
  matcher_of n ip ne = absurd (ne refl)

  n_probe_chosen :
      (options : List (String × Value))
      → check_options db options ≡ ok tt
      → (n : ℕ) × Counted "n_probe" default_n_probe options n
        × (to_unsigned 32 (int32_option db "n_probe" default_n_probe options) ≡ n % 2 ^ 32)
  unfolding int32_option
  n_probe_chosen options h = elim (Option-cases (find_ci db "n_probe" options)) [
    | inl e ↦ (24, inl (e, refl), rw (e, to_unsigned, int32_option))
    | inr (v, e) ↦
        let (n, is_n) = count_of_check v (n_probe_checked options v h e) in
        (
          n,
          inr (e ∙ ap some is_n),
          rw (to_unsigned, int32_option, e, is_n, doc.get_int32-integer (pos n)),
        )
  ]

  -- For options and a key type that `CreatePlan` accepts, the constructor makes an index, if the
  -- index has no constraint, and throws none of its exceptions. The metric and the quantization are
  -- the named ones or the defaults, n_probe is the given number or the default, and the dimensions
  -- are those of the key and at most the limit. `CreatePlan` does not look at the constraint: for a
  -- unique index the constructor throws.
  pub create_plan-make_index :
      (options : List (String × Value)) (types : List LogicalType) (cardinality : ℕ) (n : ℕ)
      (seed : ℤ) (columns : List ℕ) (e : Expression)
      → create_plan db options types cardinality ≡ ok n
      → (index : PdxearchIndex) × (make_index db false n seed columns e options ≡ ok index)
        × IsChosen options index.wrapper
        × (index.wrapper.num_dimensions ≡ n)
        × (n ≤ pdx_max_dims)
        × (make_index db true n seed columns e options ≡ err unsupported_constraint)
  unfolding make_index index_of
  create_plan-make_index options types cardinality n seed columns e h =
      let (accepted, _, small, _) = create_plan-checks options types cardinality h in
      let metric =
        chosen_name "metric" distance_metric_map metric_not_a_string metric_not_allowed
          default_distance_metric options (λ v found. metric_checked options v accepted found) in
      let quantization =
        chosen_name "quantization" quantization_map quantization_not_a_string
          quantization_not_allowed default_quantization options
          (λ v found. quantization_checked options v accepted found) in
      let wrapper =
        make_wrapper (named_option db "quantization" quantization_map default_quantization options)
          (named_option db "metric" distance_metric_map default_distance_metric options) n
          (int32_option db "n_probe" default_n_probe options)
          (int32_option db "seed" seed options) in
      let (matcher, made) = matcher_of n _ (metric_supported options _ metric) in
      (
        record {
          wrapper = wrapper;
          matcher = matcher;
          column_ids = columns;
          unbound_expression = e;
        },
        rw (quantization_supported options _ quantization, index_of, made),
        record {
          metric = metric;
          quantization = quantization;
          n_probe = n_probe_chosen options accepted;
        },
        refl,
        small,
        refl,
      )
