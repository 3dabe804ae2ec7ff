-- ===== src/FilteredScan/Collecting.antt =====
-- What the threads search for the first time.
use pdxearch.Prelude.{
  ℕ, ◌≤◌, ◌≡◌, refl, ap, sym, ◌∙◌, inl, inr, Bool, true, false, not, ◌&&◌, List, [], ◌∷◌, ◌++◌,
  arith, ltb, ◌==◌, bit, if◌then◌else◌, select, select-append, All, Bool-cases,
}
use mathlib.Core.List.{append-nil, append_assoc}
use pdxearch.Computers.Visit.{count, count-append}
use pdxearch.Wrapper.{get_row_group_id}
use pdxearch.FilteredScan.{
  FirstSearch, LocalSink, is_empty, search_current, sink, sink_all, combine, no_rows,
}
use pdxearch.FilteredScan.Emitting.{concat}

-- All row ids that the calls search in a row group.
abbrev pub searched_in : ℕ → List FirstSearch → List ℕ
searched_in g [] = []
searched_in g (c ∷ cs) =
    if c.row_group_id == g then c.passing_row_ids ++ searched_in g cs else searched_in g cs

module _ (default_row_group_size : ℕ) where
  abbrev in_group : ℕ → ℕ → Bool
  in_group g r = get_row_group_id default_row_group_size r == g

  -- The chunks of a sequential scan: the rows of a chunk are of one row group, and those of later
  -- chunks of the same or of later row groups.
  abbrev pub IsScanOrder : ℕ → List (List ℕ) → Type 0
  IsScanOrder g [] = Unit
  IsScanOrder g ([] ∷ chunks) = IsScanOrder g chunks
  IsScanOrder g ((r ∷ rs) ∷ chunks) =
      (g ≤ get_row_group_id default_row_group_size r)
      × All
          (λ s.
            get_row_group_id default_row_group_size s ≡ get_row_group_id default_row_group_size r)
          rs
      × IsScanOrder (get_row_group_id default_row_group_size r) chunks

  searched_in-append :
      (g : ℕ) (cs ds : List FirstSearch)
      → searched_in g (cs ++ ds) ≡ searched_in g cs ++ searched_in g ds
  searched_in-append g [] ds = refl
  searched_in-append g (c ∷ cs) ds = elim (Bool-cases (c.row_group_id == g)) [
    | inl here ↦ rw here (
        ap (λ t. c.passing_row_ids ++ t) (searched_in-append g cs ds)
        ∙ sym (append_assoc c.passing_row_ids (searched_in g cs) (searched_in g ds)))
    | inr away ↦ rw away (searched_in-append g cs ds)
  ]

  -- What a thread has collected for a row group: what its calls have searched, and the staging area.
  abbrev collected : ℕ → LocalSink → List ℕ
  collected g l =
      searched_in g l.calls
      ++ (if l.current_row_group_id == g then l.current_row_group_passing_rowids else [])

  record Collected (l : LocalSink) (seen : List ℕ) : Type 0 where
    all : (g : ℕ) → collected g l ≡ select (in_group g) seen
    once :
        (g : ℕ)
        → count g l.row_group_ids_of_row_groups_with_passing_tuples
          ≤ bit (ltb g l.current_row_group_id)

  -- The rows of a chunk are all those of its row group, and none of another.
  select-chunk :
      (g h : ℕ) (rs : List ℕ)
      → All (λ s. get_row_group_id default_row_group_size s ≡ h) rs
      → select (in_group g) rs ≡ (if h == g then rs else [])
  select-chunk g h [] a = ground arith
  select-chunk g h (r ∷ rs) (e, a) = ground (arith, select-chunk g h rs a)

  same_group :
      (a p n : List ℕ) (b : Bool)
      → a ++ (if b then p ++ n else []) ≡ (a ++ (if b then p else [])) ++ (if b then n else [])
  same_group a p n true = sym (append_assoc a p n)
  same_group a p n false = sym (append-nil (a ++ []))

  nothing_staged :
      (a n : List ℕ) (b c : Bool)
      → a ++ (if b then n else []) ≡ (a ++ (if c then [] else [])) ++ (if b then n else [])
  nothing_staged a n b true = ap (λ t. t ++ (if b then n else [])) (sym (append-nil a))
  nothing_staged a n b false = ap (λ t. t ++ (if b then n else [])) (sym (append-nil a))

  is_empty-nil : (rs : List ℕ) → is_empty rs ≡ true → rs ≡ []
  is_empty-nil [] e = refl
  is_empty-nil (r ∷ rs) e = ground arith

  -- The search of the staged rows moves them to the calls.
  search_current-calls :
      (g : ℕ) (l : LocalSink) → searched_in g (search_current l).calls ≡ collected g l
  search_current-calls g l =
      searched_in-append g l.calls _
      ∙ ap (λ t. searched_in g l.calls ++ t)
          (elim (Bool-cases (l.current_row_group_id == g)) [
            | inl here ↦ rw here (append-nil l.current_row_group_passing_rowids)
            | inr away ↦ rw away
          ])

  module _ (r : ℕ) (rs : List ℕ) (l : LocalSink) where
    abbrev id : ℕ
    id = get_row_group_id default_row_group_size r

    abbrev staged : List ℕ
    staged = l.current_row_group_passing_rowids

    -- `Sink` adds the chunk to what is collected for its row group.
    collected-sink :
        l.current_row_group_id ≤ id
        → (g : ℕ)
        → collected g (sink default_row_group_size (r ∷ rs) l)
          ≡ collected g l ++ (if id == g then r ∷ rs else [])
    unfolding sink
    collected-sink le g =
        elim (Bool-cases (ltb l.current_row_group_id id && not (is_empty staged))) [
          | inl new ↦
              rw new (ap (λ t. t ++ (if id == g then r ∷ rs else [])) (search_current-calls g l))
          | inr old ↦ rw old (elim (Bool-cases (is_empty staged)) [
            | inl empty ↦ rw (is_empty-nil staged empty) (
                nothing_staged (searched_in g l.calls) (r ∷ rs) (id == g)
                  (l.current_row_group_id == g))
            | inr some_rows ↦
                let e : l.current_row_group_id ≡ id = ground arith in
                rw e (same_group (searched_in g l.calls) staged (r ∷ rs) (id == g))
          ])
        ]

    once-sink :
        l.current_row_group_id ≤ id
        → (g : ℕ)
        → count g l.row_group_ids_of_row_groups_with_passing_tuples
          ≤ bit (ltb g l.current_row_group_id)
        → count g
            (sink default_row_group_size (r ∷ rs) l).row_group_ids_of_row_groups_with_passing_tuples
          ≤ bit (ltb g id)
    unfolding sink
    once-sink le g before =
        elim (Bool-cases (ltb l.current_row_group_id id && not (is_empty staged))) [
          | inl new ↦ rw new (
              ground (
                arith,
                count-append g l.row_group_ids_of_row_groups_with_passing_tuples
                    (l.current_row_group_id ∷ []),
              ))
          | inr old ↦ rw old (ground arith)
        ]

    current-sink : (sink default_row_group_size (r ∷ rs) l).current_row_group_id ≡ id
    unfolding sink
    current-sink = refl

  sink_all-Collected :
      (chunks : List (List ℕ)) (l : LocalSink) (seen : List ℕ)
      → IsScanOrder l.current_row_group_id chunks
      → Collected l seen
      → Collected (sink_all default_row_group_size chunks l) (seen ++ concat chunks)
  unfolding sink_all sink
  sink_all-Collected [] l seen order inv = rw (append-nil seen) inv
  sink_all-Collected ([] ∷ chunks) l seen order inv = sink_all-Collected chunks l seen order inv
  sink_all-Collected ((r ∷ rs) ∷ chunks) l seen (le, rows, order) inv =
      rw (sym (append_assoc seen (r ∷ rs) (concat chunks))) (
        sink_all-Collected chunks (sink default_row_group_size (r ∷ rs) l) (seen ++ r ∷ rs) order
          (record {
            all = λ g.
                collected-sink r rs l le g
                ∙ ap
                    (λ t.
                      t ++ (if get_row_group_id default_row_group_size r == g then r ∷ rs else []))
                    (inv.all g)
                ∙ ap (λ t. select (in_group g) seen ++ t)
                    (sym (
                      select-chunk g (get_row_group_id default_row_group_size r) (r ∷ rs)
                        (refl, rows)))
                ∙ sym (select-append (in_group g) seen (r ∷ rs));
            once = λ g. once-sink r rs l le g (inv.once g);
          }))

  nothing_left : (a p : List ℕ) (b : Bool) → p ≡ [] → a ≡ a ++ (if b then p else [])
  nothing_left a p true e = rw e (sym (append-nil a))
  nothing_left a p false e = sym (append-nil a)

  combine-Collected :
      (l : LocalSink) (seen : List ℕ) (g : ℕ)
      → Collected l seen
      → (searched_in g (combine l).calls ≡ select (in_group g) seen)
        × (count g (combine l).row_group_ids_of_row_groups_with_passing_tuples ≤ 1)
  unfolding combine
  combine-Collected l seen g inv =
      let before = inv.once g in
      elim (Bool-cases (is_empty l.current_row_group_passing_rowids)) [
        | inl empty ↦ rw empty (
          nothing_left (searched_in g l.calls) l.current_row_group_passing_rowids
                (l.current_row_group_id == g)
                (is_empty-nil l.current_row_group_passing_rowids empty)
              ∙ inv.all g,
          ground arith,
        )
        | inr some_rows ↦ rw some_rows (
          search_current-calls g l ∙ inv.all g,
          ground (
            arith,
            count-append g l.row_group_ids_of_row_groups_with_passing_tuples
                (l.current_row_group_id ∷ []),
          ),
        )
      ]

  -- A thread whose chunks come in the order of a sequential scan makes, with `Sink` for each chunk and
  -- `Combine` at the end, at most one first search of each row group, and the searches of a row group
  -- get exactly the row ids of it that the thread has seen, in order.
  pub first_searches-select :
      (chunks : List (List ℕ)) (g : ℕ)
      → IsScanOrder 0 chunks
      → let l = combine (sink_all default_row_group_size chunks no_rows) in
        (searched_in g l.calls
          ≡ select (λ r. get_row_group_id default_row_group_size r == g) (concat chunks))
        × (count g l.row_group_ids_of_row_groups_with_passing_tuples ≤ 1)
  first_searches-select chunks g order =
      combine-Collected (sink_all default_row_group_size chunks no_rows) (concat chunks) g (
        sink_all-Collected chunks no_rows [] order
          (record { all = λ h. ground arith; once = λ h. omega arith }))
