-- ===== src/ParallelScan/Answers.antt =====
-- What a call of `GetData` of the unfiltered scan answers.
use mathlib.Core.List.{append_assoc, append-nil}
use pdxearch.Prelude.{
  ℕ, zero, suc, ◌+◌, ◌-◌, ◌≤◌, ◌<◌, ◌≡◌, refl, ap, sym, ◌∙◌, ◌⊎◌, inl, inr, arith, min, Bool, true,
  false, List, [], ◌∷◌, ◌++◌, some, ◌==◌, bit, length, take, drop, Bool-cases,
}
use pdxearch.Kernel.Float.{Float}
use pdxearch.Kernel.Heap.{KnnCandidate}
use pdxearch.ParallelScan.{
  SourceResult, blocked, finished, have_more_output, SourceState, start_search, emit_results,
  source_get_data, emitted_row_ids,
}
use pdxearch.ParallelScan.Sound.{ids, IsSearching, IsEmitting, IsSound}

abbrev pub is_last : SourceResult → Bool
is_last blocked = false
is_last finished = true
is_last (have_more_output row_ids) = false

emitted-append :
    (rs qs : List SourceResult)
    → emitted_row_ids (rs ++ qs) ≡ emitted_row_ids rs ++ emitted_row_ids qs
emitted-append [] qs = refl
emitted-append (blocked ∷ rs) qs = emitted-append rs qs
emitted-append (finished ∷ rs) qs = emitted-append rs qs
emitted-append (have_more_output row_ids ∷ rs) qs =
    ap (λ t. row_ids ++ t) (emitted-append rs qs)
    ∙ sym (append_assoc row_ids (emitted_row_ids rs) (emitted_row_ids qs))

take-nil : (n : ℕ) → take {A = ℕ} n [] ≡ []
take-nil zero = refl
take-nil (suc n) = refl

take-further : (i n : ℕ) (xs : List ℕ) → take (i + n) xs ≡ take i xs ++ take n (drop i xs)
take-further zero n xs = let e : 0 + n ≡ n = omega arith in rw e refl
take-further (suc i) n [] = let e : suc i + n ≡ suc (i + n) = omega arith in rw e (sym (take-nil n))
take-further (suc i) n (x ∷ xs) =
    let e : suc i + n ≡ suc (i + n) = omega arith in rw e (ap (λ t. x ∷ t) (take-further i n xs))

take_whole : (n : ℕ) (xs : List ℕ) → length xs ≤ n → take n xs ≡ xs
take_whole zero [] le = refl
take_whole zero (x ∷ xs) le = absurd (omega arith)
take_whole (suc n) [] le = refl
take_whole (suc n) (x ∷ xs) le = ap (λ t. x ∷ t) (take_whole n xs (omega arith))

module _ {ℓ} {F : Type ℓ} ⦃f : Float F⦄ (limit num_row_groups standard_vector_size : ℕ) where
  -- A call of `GetData` never reads row ids that are not there; it says that it has finished only
  -- after all row ids are emitted.
  pub record IsAnswered (rs : List SourceResult) (cs : List (KnnCandidate F)) (s : SourceState F)
      (r : SourceResult) (t : SourceState F) : Type ℓ where
    pub answer : source_get_data limit num_row_groups standard_vector_size s ≡ some (r, t)
    pub sound : IsSound limit num_row_groups standard_vector_size (rs ++ r ∷ []) cs t
    pub last :
        is_last r ≡ true → emitted_row_ids rs ≡ ids limit num_row_groups standard_vector_size cs

  answer_idle :
      (rs : List SourceResult) (cs : List (KnnCandidate F)) (s : SourceState F)
      → s.search_started ≡ true
      → IsSound limit num_row_groups standard_vector_size rs cs s
      → IsSearching limit num_row_groups standard_vector_size rs s
      → IsAnswered rs cs s blocked s
  unfolding source_get_data emit_results
  answer_idle rs cs s begun inv p = record {
    answer = rw (begun, source_get_data, emit_results, p.incomplete) refl;
    sound = record {
      once = inv.once;
      heap = inv.heap;
      phase = inl (record {
        incomplete = p.incomplete;
        at_start = p.at_start;
        nothing = emitted-append rs (blocked ∷ []) ∙ append-nil (emitted_row_ids rs) ∙ p.nothing;
        begun = p.begun;
      });
    };
    last = λ e. absurd (ground arith);
  }

  -- The call that starts the search.
  pub answer_first :
      (rs : List SourceResult) (cs : List (KnnCandidate F)) (s : SourceState F)
      → s.search_started ≡ false
      → IsSound limit num_row_groups standard_vector_size rs cs s
      → IsSearching limit num_row_groups standard_vector_size rs s
      → IsAnswered rs cs s blocked (record s {
        search_started = true;
        scheduled_events = s.scheduled_events + 1;
        unfinished_tasks = num_row_groups;
      })
  unfolding source_get_data emit_results
  answer_first rs cs s fresh inv p =
      let groups : (0 < num_row_groups) ⊎ (num_row_groups ≡ 0) =
        elim (Bool-cases (num_row_groups == 0)) [
          | inl none_there ↦ inr (ground arith)
          | inr some_there ↦ inl (ground arith)
        ] in
      let none_before : s.scheduled_events ≡ 0 = inv.once ∙ ap bit fresh in
      record {
        answer = rw (fresh, source_get_data, emit_results, p.incomplete) refl;
        sound = record {
          once = ap (λ n. n + 1) none_before;
          heap = inv.heap;
          phase = inl (record {
            incomplete = p.incomplete;
            at_start = p.at_start;
            nothing =
                emitted-append rs (blocked ∷ []) ∙ append-nil (emitted_row_ids rs) ∙ p.nothing;
            begun = inr (refl, groups);
          });
        };
        last = λ e. absurd (ground arith);
      }

  -- A call after the search: it has finished, or the index moves on.
  pub answer_after :
      (rs : List SourceResult) (cs : List (KnnCandidate F)) (s : SourceState F)
      → 0 < standard_vector_size
      → IsSound limit num_row_groups standard_vector_size rs cs s
      → IsEmitting limit num_row_groups standard_vector_size rs cs s
      → (r : SourceResult) × (t : SourceState F) × IsAnswered rs cs s r t
        × IsEmitting limit num_row_groups standard_vector_size (rs ++ r ∷ []) cs t
        × ((r ≡ finished) ⊎ (s.pdxearch_row_ids_idx < t.pdxearch_row_ids_idx))
  unfolding source_get_data emit_results
  answer_after rs cs s room inv p =
      let same : start_search limit num_row_groups standard_vector_size s ≡ s = rw p.begun refl in
      let i = s.pdxearch_row_ids_idx in
      let n =
        min standard_vector_size (length (ids limit num_row_groups standard_vector_size cs) - i) in
      let inside = p.inside in
      elim (Bool-cases (n == 0)) [
        | inl done ↦
            let after : IsEmitting limit num_row_groups standard_vector_size (rs ++ finished ∷ [])
                cs s =
              record {
                completed = p.completed;
                begun = p.begun;
                none_left = p.none_left;
                stored = p.stored;
                inside = p.inside;
                so_far =
                    emitted-append rs (finished ∷ []) ∙ append-nil (emitted_row_ids rs) ∙ p.so_far;
              } in
            (
              finished,
              s,
              record {
                answer =
                    ap (emit_results limit num_row_groups standard_vector_size) same
                    ∙ simp (emit_results, p.completed, p.stored, done);
                sound = record { once = inv.once; heap = inv.heap; phase = inr after };
                last = λ e.
                    p.so_far
                    ∙ take_whole i (ids limit num_row_groups standard_vector_size cs)
                        (ground arith);
              },
              after,
              inl refl,
            )
        | inr more ↦
            let chunk = take n (drop i (ids limit num_row_groups standard_vector_size cs)) in
            let t : SourceState F = record s { pdxearch_row_ids_idx = i + n } in
            let after : IsEmitting limit num_row_groups standard_vector_size
                (rs ++ have_more_output chunk ∷ []) cs t =
              record {
                completed = p.completed;
                begun = p.begun;
                none_left = p.none_left;
                stored = p.stored;
                inside = omega arith;
                so_far =
                    emitted-append rs (have_more_output chunk ∷ [])
                    ∙ ap (λ l. emitted_row_ids rs ++ l) (append-nil chunk)
                    ∙ ap (λ l. l ++ chunk) p.so_far
                    ∙ sym (take-further i n (ids limit num_row_groups standard_vector_size cs));
              } in
            (
              have_more_output chunk,
              t,
              record {
                answer =
                    ap (emit_results limit num_row_groups standard_vector_size) same
                    ∙ simp (emit_results, p.completed, p.stored, more);
                sound = record { once = inv.once; heap = inv.heap; phase = inr after };
                last = λ e. absurd (ground arith);
              },
              after,
              inr (ground arith),
            )
      ]

  pub get_data-IsAnswered :
      (rs : List SourceResult) (cs : List (KnnCandidate F)) (s : SourceState F)
      → 0 < standard_vector_size
      → IsSound limit num_row_groups standard_vector_size rs cs s
      → (r : SourceResult) × (t : SourceState F) × IsAnswered rs cs s r t
  get_data-IsAnswered rs cs s room inv = elim inv.phase [
    | inr p ↦ let (r, t, answered, _, _) = answer_after rs cs s room inv p in (r, t, answered)
    | inl p ↦ elim (Bool-cases s.search_started) [
      | inl begun ↦ (blocked, s, answer_idle rs cs s begun inv p)
      | inr fresh ↦ (blocked, _, answer_first rs cs s fresh inv p)
    ]
  ]
