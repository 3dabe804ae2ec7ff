-- ===== src/Tests/ParallelScans.antt =====
-- A run of the unfiltered scan with one row group.
use mathlib.Core.List.{reverse}
use mathlib.Core.Path.{subst}
use pdxearch.Prelude.{ℕ, ◌≤◌, ◌≡◌, refl, List, [], ◌∷◌, some, arith, take, map}
use pdxearch.Kernel.Float.{whole, whole-IsOrdered}
use pdxearch.Kernel.Heap.{KnnCandidate, offer, fill_result, push, build_result_set_from_heap}
use pdxearch.Kernel.Heap.Order.{push_all, nearest}
use pdxearch.ParallelScan.{
  SourceResult, blocked, finished, have_more_output, SourceState, source_state, start_search,
  finish_event, source_get_data, emit_results, finish_task, Reach, start, call, offers, ends,
  emitted_row_ids,
}
use pdxearch.ParallelScan.Sound.{ids}
use pdxearch.ParallelScan.Reachable.{source_get_data-answers, finished-nearest}

abbrev found : KnnCandidate ℕ
found = record { index = 7; distance = 5 }

abbrev searching : SourceState ℕ
searching = start_search 1 1 2048 (source_state 1 1 2048)

abbrev offered : SourceState ℕ
offered = record searching { global_heap = offer 1 found searching.global_heap }

abbrev completed : SourceState ℕ
completed = finish_event 1 1 2048 (record offered { unfinished_tasks = 0 })

abbrev emptied : SourceState ℕ
emptied = record completed { pdxearch_row_ids_idx = 1 }

abbrev results : List SourceResult
results = blocked ∷ have_more_output (7 ∷ []) ∷ []

first_call : source_get_data 1 1 2048 (source_state 1 1 2048) ≡ some (blocked, searching)
unfolding source_get_data emit_results
first_call = refl

task_ended : finish_task 1 1 2048 offered ≡ completed
unfolding finish_task
task_ended = refl

second_call : source_get_data 1 1 2048 completed ≡ some (have_more_output (7 ∷ []), emptied)
unfolding source_get_data emit_results build_result_set_from_heap fill_result push
second_call = refl

third_call : source_get_data 1 1 2048 emptied ≡ some (finished, emptied)
unfolding source_get_data emit_results build_result_set_from_heap fill_result push
third_call = refl

run : Reach 1 1 2048 (source_state 1 1 2048) results (found ∷ []) emptied
run =
    call (have_more_output (7 ∷ [])) emptied
      (subst (λ s. Reach 1 1 2048 (source_state 1 1 2048) (blocked ∷ []) (found ∷ []) s) task_ended
        (ends (offers found (call blocked searching start first_call) (omega arith)) (omega arith)))
      second_call

source_get_data-answers_example :
    (1 ≤ 1)
    × ((r : SourceResult) × (t : SourceState ℕ) × (source_get_data 1 1 2048 emptied ≡ some (r, t)))
    × (emitted_row_ids results ≡ take 1 (ids 1 1 2048 (found ∷ [])))
source_get_data-answers_example =
    source_get_data-answers 1 1 2048 whole-IsOrdered (omega arith) (omega arith) run

finished-nearest_example :
    emitted_row_ids results ≡ map (λ c. c.index) (reverse (nearest 1 (push_all (found ∷ []) [])))
finished-nearest_example =
    finished-nearest 1 1 2048 whole-IsOrdered (omega arith) (omega arith) (refl, tt) run third_call
