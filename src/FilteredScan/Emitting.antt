-- ===== src/FilteredScan/Emitting.antt =====
-- The emission of the results.
use pdxearch.Prelude.{
  ℕ, zero, suc, ◌+◌, ◌-◌, ◌≤◌, ◌<◌, ◌≡◌, refl, ap, sym, ◌∙◌, inl, inr, min, List, [], ◌∷◌, ◌++◌,
  some, arith, ◌==◌, length, drop, All, Bool-cases, take-append-drop, length-take, length-drop,
}
use pdxearch.FilteredScan.{get_data, get_all_data}

abbrev pub concat : List (List ℕ) → List ℕ
concat [] = []
concat (xs ∷ xss) = xs ++ concat xss

drop-drop : (m n : ℕ) (xs : List ℕ) → drop m (drop n xs) ≡ drop (n + m) xs
drop-drop m zero xs = let e : 0 + m ≡ m = omega arith in rw e
drop-drop zero (suc n) [] = let e : suc n + 0 ≡ suc n = omega arith in rw e refl
drop-drop (suc m) (suc n) [] = let e : suc n + suc m ≡ suc (n + suc m) = omega arith in rw e refl
drop-drop m (suc n) (x ∷ xs) =
    let e : suc n + m ≡ suc (n + m) = omega arith in rw e (drop-drop m n xs)

drop-all : (n : ℕ) (xs : List ℕ) → length xs ≤ n → drop n xs ≡ []
drop-all zero [] le = refl
drop-all zero (x ∷ xs) le = absurd (omega arith)
drop-all (suc n) [] le = refl
drop-all (suc n) (x ∷ xs) le = drop-all n xs (omega arith)

module _ (standard_vector_size : ℕ) (some_room : 0 < standard_vector_size) where
  emitted :
      (fuel : ℕ) (row_ids : List ℕ) (i : ℕ)
      → i ≤ length row_ids
      → length row_ids < i + fuel
      → (chunks : List (List ℕ)) × (get_all_data standard_vector_size fuel row_ids i ≡ some chunks)
        × (concat chunks ≡ drop i row_ids)
        × All (λ c. (0 < length c) × (length c ≤ standard_vector_size)) chunks
  unfolding get_all_data
  emitted zero row_ids i le lt = absurd (omega arith)
  emitted (suc fuel) row_ids i le lt =
      let n = min standard_vector_size (length row_ids - i) in
      elim (Bool-cases (n == 0)) [
        | inl done ↦
            let end : length row_ids ≤ i = ground arith in
            rw done ([], refl, sym (drop-all i row_ids end), tt)
        | inr more ↦
            let (chunks, e, all, sizes) =
              emitted fuel row_ids (i + n) (omega arith) (ground arith) in
            let size = length-take n (drop i row_ids) in
            let size' = length-drop i row_ids in
            rw (more, e)
              (
                get_data standard_vector_size row_ids i ∷ chunks,
                refl,
                ap (λ t. get_data standard_vector_size row_ids i ++ t)
                      (all ∙ sym (drop-drop n i row_ids))
                    ∙ take-append-drop n (drop i row_ids),
                ((ground arith, ground arith), sizes),
              )
      ]

  -- The calls of `GetData` end, and together they emit exactly the row ids of the result, in order
  -- and each as often as it is there, in chunks that are not empty and no longer than a vector of
  -- DuckDB. Such a vector has room for at least one value.
  pub get_all_data-concat :
      (row_ids : List ℕ)
      → (chunks : List (List ℕ)) × (get_all_data standard_vector_size (length row_ids + 1) row_ids 0
          ≡ some chunks)
        × (concat chunks ≡ row_ids)
        × All (λ c. (0 < length c) × (length c ≤ standard_vector_size)) chunks
  get_all_data-concat row_ids = emitted (length row_ids + 1) row_ids 0 (omega arith) (omega arith)
