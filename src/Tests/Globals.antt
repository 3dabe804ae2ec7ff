-- ===== src/Tests/Globals.antt =====
-- The global searches of a small index.
use pdxearch.Prelude.{
  ℕ, ◌+◌, ◌-◌, ◌*◌, ◌≡◌, refl, List, [], ◌∷◌, some, arith, All, min, length, get_elem?, zero, suc,
  ◌%◌, select, prefix, false,
}
use mathlib.Core.Option.{some-injective, none-ne-some}
use mathlib.Core.Path.{subst}
use pdxearch.Computers.{Arithmetic}
use pdxearch.Kernel.Float.{whole, whole-IsOrdered}
use pdxearch.Kernel.Heap.{KnnCandidate}
use pdxearch.Kernel.Heap.Result.{IsAscending}
use pdxearch.Kernel.Index.{Cluster}
use pdxearch.Kernel.Scan.Calls.{everything}
use pdxearch.Kernel.Search.{PredicateEvaluator, compute_offsets}
use pdxearch.Kernel.Positions.Compaction.{range}
use pdxearch.Kernel.Search.Leaving.{IsOfIndex}
use pdxearch.Kernel.Search.Filtered.{is_passing}
use pdxearch.Kernel.Global.{search_global}
use pdxearch.Kernel.Global.Visiting.{embeddings_of, visited_clusters, search_global-exact}
use pdxearch.Kernel.Global.Filtered.{filtered_search_global}
use pdxearch.Kernel.Global.Filtered.Visiting.{IsCounted, passing_of, filtered_search_global-exact}
use pdxearch.Tests.Sorting.{insertion, insertion-IsSorting, insertion-IsSelecting}
use pdxearch.Tests.Searches.{zeros, bytes, rows, cluster, searcher, searcher-IsSearchable, offsets}

instance abbrev pub whole_arithmetic : Arithmetic ℕ
whole_arithmetic = record { nought = 0; add = ◌+◌; sub = ◌-◌; mul = ◌*◌ }

search_global-exact_example :
    (result : List (KnnCandidate ℕ)) × (search_global insertion searcher bytes 0 zeros zeros
      ≡ some result)
    × IsAscending result
    × (length result
        ≡ min 1 (
            embeddings_of insertion searcher rows
              (visited_clusters insertion searcher rows bytes 0)))
    × All (IsOfIndex searcher rows (λ id. everything)) result
search_global-exact_example =
    search_global-exact insertion searcher rows whole-IsOrdered insertion-IsSorting
      searcher-IsSearchable (λ n small. ground arith) bytes 0 zeros zeros

-- Every other embedding passes.
abbrev evaluator : PredicateEvaluator
evaluator = record { n_passing_tuples = λ id. 1; selection_vector = λ i. i % 2 }

abbrev IsCountedAt : ℕ → Cluster → Type 0
IsCountedAt id c = 1 ≡ length (select (is_passing offsets evaluator id) (range c.num_embeddings))

counted_first : IsCountedAt 0 cluster
unfolding compute_offsets prefix
counted_first = refl

counted : (id : ℕ) (c : Cluster) → get_elem? (cluster ∷ []) id ≡ some c → IsCountedAt id c
counted zero c e = subst (IsCountedAt 0) (some-injective cluster c e) counted_first
counted (suc id) c e = absurd (none-ne-some c e)

evaluator-IsCounted :
    IsCounted insertion searcher (λ passing_tuples n. false) rows offsets evaluator
evaluator-IsCounted = record { bits = λ i. ground arith; counted = counted }

filtered_search_global-exact_example :
    (result : List (KnnCandidate ℕ)) × (filtered_search_global insertion searcher
        (λ passing_tuples n. false)
        offsets
        evaluator
        bytes
        0
        zeros
        zeros
      ≡ some result)
    × IsAscending result
    × (length result
        ≡ min 1 (
            passing_of insertion searcher
              (λ passing_tuples n. false)
              rows
              offsets
              evaluator
              (visited_clusters insertion searcher rows bytes 0)))
    × All (IsOfIndex searcher rows (is_passing offsets evaluator)) result
filtered_search_global-exact_example =
    filtered_search_global-exact insertion searcher (λ passing_tuples n. false) rows offsets
      evaluator whole-IsOrdered insertion-IsSorting insertion-IsSelecting searcher-IsSearchable
      evaluator-IsCounted (λ n small. ground arith) bytes 0 zeros zeros
