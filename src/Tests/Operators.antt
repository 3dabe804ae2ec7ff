-- ===== src/Tests/Operators.antt =====
-- The wrapper and the filtered scan at small inputs.
use pdxearch.Prelude.{
  ℕ, ◌-◌, ◌/◌, ◌^◌, length, ◌+◌, ◌≤◌, ◌≡◌, refl, List, [], ◌∷◌, arith, select, ◌==◌,
}
use pdxearch.Kernel.Float.{whole}
use pdxearch.Kernel.Heap.{Heap}
use pdxearch.Computers.Visit.{count}
use pdxearch.Wrapper.{get_row_group_id}
use pdxearch.FilteredScan.{no_rows, sink_all, combine}
use pdxearch.FilteredScan.Collecting.{searched_in, first_searches-select}
use pdxearch.FilteredScan.Emitting.{concat}

-- Two chunks of the first row group and one of the second.
abbrev chunks : List (List ℕ)
chunks = (3 ∷ 4 ∷ []) ∷ (9 ∷ []) ∷ (122_880 ∷ []) ∷ []

first_searches-select_example :
    let l = combine (sink_all 122_880 chunks no_rows) in
    (searched_in 0 l.calls ≡ select (λ r. get_row_group_id 122_880 r == 0) (concat chunks))
    × (count 0 l.row_group_ids_of_row_groups_with_passing_tuples ≤ 1)
first_searches-select_example =
    first_searches-select 122_880 chunks 0
      (omega arith, (refl, tt), (omega arith, tt, (omega arith, tt, tt)))

-- A heap that gains a candidate in each iteration.
abbrev gain : Heap ℕ → Heap ℕ
gain h = record { index = length h; distance = 3 } ∷ h

abbrev start : Heap ℕ
start = record { index = 1337; distance = 10 ^ 12 } ∷ []

abbrev rounded_up : ℕ → ℕ → ℕ
rounded_up n m = (n + m - 1) / m

abbrev results : List ℕ
results = 5 ∷ 6 ∷ []
