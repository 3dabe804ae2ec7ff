-- ===== src/GlobalScan/Collecting.antt =====
-- What the filtered scan searches for.
use pdxearch.Prelude.{
  ℕ, suc, ◌≡◌, refl, ap, sym, ◌∙◌, List, [], ◌∷◌, ◌++◌, Option, false, arith, ◌==◌, length,
}
use mathlib.Core.List.{append-nil, append_assoc}
use pdxearch.Wrapper.Global.{valid_row_ids, all_valid_row_ids}
use pdxearch.GlobalScan.{global_sink, global_sink_all, global_combine_all}

all_valid-append :
    (xs ys : List (List (Option ℕ)))
    → all_valid_row_ids (xs ++ ys) ≡ all_valid_row_ids xs ++ all_valid_row_ids ys
all_valid-append [] ys = refl
all_valid-append (x ∷ xs) ys =
    ap (λ t. valid_row_ids x ++ t) (all_valid-append xs ys)
    ∙ sym (append_assoc (valid_row_ids x) (all_valid_row_ids xs) (all_valid_row_ids ys))

-- The row ids that pass the filter in the chunks of the threads, in order.
abbrev pub passing_row_ids : List (List (List (Option ℕ))) → List ℕ
passing_row_ids [] = []
passing_row_ids (chunks ∷ threads) = all_valid_row_ids chunks ++ passing_row_ids threads

sink-valid :
    (chunk : List (Option ℕ)) (vectors : List (List (Option ℕ)))
    → all_valid_row_ids (global_sink chunk vectors)
      ≡ all_valid_row_ids vectors ++ valid_row_ids chunk
unfolding global_sink
sink-valid [] vectors = sym (append-nil (all_valid_row_ids vectors))
sink-valid (r ∷ chunk) vectors =
    let some_rows : (suc (length chunk) == 0) ≡ false = ground arith in
    rw some_rows (
      all_valid-append vectors ((r ∷ chunk) ∷ [])
      ∙ ap (λ t. all_valid_row_ids vectors ++ t) (append-nil (valid_row_ids (r ∷ chunk))))

sink_all-valid :
    (chunks vectors : List (List (Option ℕ)))
    → all_valid_row_ids (global_sink_all chunks vectors)
      ≡ all_valid_row_ids vectors ++ all_valid_row_ids chunks
unfolding global_sink_all
sink_all-valid [] vectors = sym (append-nil (all_valid_row_ids vectors))
sink_all-valid (chunk ∷ chunks) vectors =
    sink_all-valid chunks (global_sink chunk vectors)
    ∙ ap (λ t. t ++ all_valid_row_ids chunks) (sink-valid chunk vectors)
    ∙ append_assoc (all_valid_row_ids vectors) (valid_row_ids chunk) (all_valid_row_ids chunks)

pub combine_all-valid :
    (threads : List (List (List (Option ℕ)))) (vectors : List (List (Option ℕ)))
    → all_valid_row_ids (global_combine_all threads vectors)
      ≡ all_valid_row_ids vectors ++ passing_row_ids threads
unfolding global_combine_all
combine_all-valid [] vectors = sym (append-nil (all_valid_row_ids vectors))
combine_all-valid (chunks ∷ threads) vectors =
    combine_all-valid threads (vectors ++ global_sink_all chunks [])
    ∙ ap (λ t. t ++ passing_row_ids threads)
        (all_valid-append vectors (global_sink_all chunks [])
          ∙ ap (λ t. all_valid_row_ids vectors ++ t) (sink_all-valid chunks []))
    ∙ append_assoc (all_valid_row_ids vectors) (all_valid_row_ids chunks) (passing_row_ids threads)
