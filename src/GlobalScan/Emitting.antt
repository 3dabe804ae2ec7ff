-- ===== src/GlobalScan/Emitting.antt =====
-- The emission of the unfiltered scan is that of the filtered one.
use pdxearch.Prelude.{
  ℕ, zero, suc, ◌+◌, ◌-◌, ◌≤◌, ◌<◌, ◌≡◌, refl, ap, sym, ◌∙◌, inl, inr, min, List, [], ◌∷◌, ◌++◌,
  some, arith, ltb, ◌&&◌, length, get_or, take, drop, All, Bool-cases, length-append, length-take,
  length-drop,
}
use mathlib.Core.Path.{subst}
use mathlib.Core.List.{append-nil, append_assoc}
use pdxearch.FilteredScan.{get_all_data}
use pdxearch.FilteredScan.Emitting.{concat, get_all_data-concat}
use pdxearch.GlobalScan.{IndexScanState, global_scan_loop, scan_execute_all}

drop-get : (i : ℕ) (xs : List ℕ) → i < length xs → drop i xs ≡ get_or xs i 0 ∷ drop (i + 1) xs
drop-get i [] lt = absurd (omega arith)
drop-get zero (x ∷ xs) lt = refl
drop-get (suc i) (x ∷ xs) lt =
    let e : suc i + 1 ≡ suc (i + 1) = omega arith in rw e (drop-get i xs (omega arith))

module _ (standard_vector_size : ℕ) where
  -- What the loop leaves: the row ids up to the end of the vector or of the result.
  loop_lem :
      (fuel : ℕ) (pushed row_ids : List ℕ) (i : ℕ)
      → standard_vector_size < length pushed + fuel
      → length pushed ≤ standard_vector_size
      → let n = min (standard_vector_size - length pushed) (length row_ids - i) in
        global_scan_loop standard_vector_size fuel pushed
          (record { current_row = i; row_ids = row_ids })
        ≡ some
            (pushed ++ take n (drop i row_ids), record { current_row = i + n; row_ids = row_ids })
  unfolding global_scan_loop
  loop_lem zero pushed row_ids i enough small = absurd (omega arith)
  loop_lem (suc fuel) pushed row_ids i enough small =
      elim (Bool-cases (ltb (length pushed) standard_vector_size && ltb i (length row_ids))) [
        | inr full ↦
            let n : min (standard_vector_size - length pushed) (length row_ids - i) ≡ 0 =
              ground arith in
            let e : i + 0 ≡ i = omega arith in
            rw (full, n, e)
              (ap (λ t. some (t, record { current_row = i; row_ids = row_ids }))
                (sym (append-nil pushed)))
        | inl room ↦
            let x = get_or row_ids i 0 in
            let lt : i < length row_ids = ground arith in
            let size : length (pushed ++ x ∷ []) ≡ length pushed + 1 =
              length-append pushed (x ∷ []) in
            let more =
              loop_lem fuel (pushed ++ x ∷ []) row_ids (i + 1) (omega arith) (ground arith) in
            let m =
              min (standard_vector_size - length (pushed ++ x ∷ [])) (length row_ids - (i + 1)) in
            let n = min (standard_vector_size - length pushed) (length row_ids - i) in
            let one_more : n ≡ suc m = ground arith in
            let at : i + 1 + m ≡ i + n = omega arith in
            let rest : (pushed ++ x ∷ []) ++ take m (drop (i + 1) row_ids)
                ≡ pushed ++ take n (drop i row_ids) =
              rw (one_more, drop-get i row_ids lt)
                (append_assoc pushed (x ∷ []) (take m (drop (i + 1) row_ids))) in
            rw room (more ∙ rw (rest, at) refl)
      ]

  -- The calls of Execute fetch what those of `GetData` of the filtered scan fetch.
  execute_all-get_all_data :
      (fuel : ℕ) (row_ids : List ℕ) (i : ℕ)
      → scan_execute_all standard_vector_size fuel (record { current_row = i; row_ids = row_ids })
        ≡ get_all_data standard_vector_size fuel row_ids i
  unfolding scan_execute_all get_all_data
  execute_all-get_all_data zero row_ids i = refl
  execute_all-get_all_data (suc fuel) row_ids i =
      let n = min standard_vector_size (length row_ids - i) in
      let state : ℕ → IndexScanState = λ k. record { current_row = k; row_ids = row_ids } in
      let room : standard_vector_size - 0 ≡ standard_vector_size = omega arith in
      let scan =
        subst
          (λ s.
            global_scan_loop standard_vector_size (standard_vector_size + 1) [] (state i)
            ≡ some (
              take (min s (length row_ids - i)) (drop i row_ids),
              state (i + min s (length row_ids - i)),
            ))
          room (loop_lem (standard_vector_size + 1) [] row_ids i (omega arith) (omega arith)) in
      let size : length (take n (drop i row_ids)) ≡ n =
        length-take n (drop i row_ids) ∙ ground (arith, length-drop i row_ids) in
      rw (scan_execute_all, scan, size, execute_all-get_all_data fuel row_ids (i + n)) refl

  -- The calls of `PDXearchIndexScanExecute` end, and together they fetch exactly the row ids of the
  -- search, in order and each as often as it is there, in chunks that are not empty and no longer
  -- than a vector of DuckDB, which are those that the filtered scan makes of them. A vector has room
  -- for at least one value.
  pub scan_execute_all-concat :
      0 < standard_vector_size
      → (row_ids : List ℕ)
      → let state : IndexScanState = record { current_row = 0; row_ids = row_ids } in
        (chunks : List (List ℕ)) × (scan_execute_all standard_vector_size (length row_ids + 1) state
          ≡ some chunks)
        × (get_all_data standard_vector_size (length row_ids + 1) row_ids 0 ≡ some chunks)
        × (concat chunks ≡ row_ids)
        × All (λ c. (0 < length c) × (length c ≤ standard_vector_size)) chunks
  scan_execute_all-concat some_room row_ids =
      let (chunks, e, all, sizes) = get_all_data-concat standard_vector_size some_room row_ids in
      (chunks, execute_all-get_all_data (length row_ids + 1) row_ids 0 ∙ e, e, all, sizes)
