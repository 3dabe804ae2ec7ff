-- ===== src/Kernel/Search/Leaving.antt =====
-- What an iteration of a search leaves in the shared heap, and what it must not lose.
use mathlib.Core.Path.{subst}
use mathlib.Core.Option.{some-injective}
use mathlib.Core.List.{Mem, mem-append_left, mem-append_right}
use pdxearch.Prelude.{
  true, ℕ, zero, suc, ◌+◌, ◌%◌, ◌≤◌, ◌<◌, ◌≡◌, refl, ap, sym, ◌∙◌, ◌⊎◌, inl, inr, Bool, List, [],
  ◌∷◌, ◌++◌, some, arith, All, All-append, length, get_elem?,
}
use pdxearch.Dimensions.{pdx_max_dims}
use pdxearch.Computers.Reference.{IsStored}
use pdxearch.Kernel.Float.{Float, IsOrdered}
use pdxearch.Kernel.Heap.{KnnCandidate, Heap}
use pdxearch.Kernel.Heap.Order.{IsDescending, push_all, nearest}
use pdxearch.Kernel.Index.{Cluster}
use pdxearch.Kernel.Scan.{Pruning}
use pdxearch.Kernel.Scan.Exact.{IsScanned}
use pdxearch.Kernel.Scan.Guarantees.{IsByteJob}
use pdxearch.Kernel.Search.{Searcher, Encounter, SearchState, job_of, offer_all, merge_kept}
use pdxearch.Kernel.Search.Offered.{
  All-map, push_all-append, offer_all-nearest, IsExact, IsDueAt, merge_kept-nearest,
}

pub get_elem-inside {ℓ} :
    {A : Type ℓ} (xs : List A) (i : ℕ) → i < length xs → (a : A) × (get_elem? xs i ≡ some a)
get_elem-inside [] i lt = absurd (omega arith)
get_elem-inside (x ∷ xs) zero lt = (x, refl)
get_elem-inside (x ∷ xs) (suc i) lt = get_elem-inside xs i (omega arith)

-- A heap holds the k nearest of what an earlier one stood for and of one list of candidates, each of
-- which is found, and which has all those that are due.
pub record IsMerged {ℓ κ ι} {F : Type ℓ} ⦃f : Float F⦄ (k : ℕ) (IsFound : KnnCandidate F → Type κ)
    (IsDue : KnnCandidate F → Type ι) (seen heap : Heap F) : Type (ℓ ⊔ κ ⊔ ι) where
  pub candidates : List (KnnCandidate F)
  pub kept : heap ≡ nearest k (push_all candidates seen)
  pub each : All IsFound candidates
  pub complete : (a : KnnCandidate F) → IsDue a → Mem a candidates

module _ {ℓ} {F : Type ℓ} ⦃f : Float F⦄ (searcher : Searcher F) (x : ℕ → ℕ → ℕ → ℕ) where
  open searcher use {pdx_data, k}

  -- An index within the limit of dimensions whose clusters are stored; `x id` has the embeddings of
  -- cluster id. The query and the embeddings are bytes.
  pub record IsSearchable : Type ℓ where
    pub stored :
        (id : ℕ) (c : Cluster)
        → get_elem? pdx_data.clusters id ≡ some c
        → IsStored pdx_data.num_vertical_dimensions pdx_data.num_horizontal_dimensions
            c.num_embeddings c.block
            (x id)
    pub split :
        pdx_data.num_dimensions
        ≡ pdx_data.num_vertical_dimensions + pdx_data.num_horizontal_dimensions
    pub whole : pdx_data.num_horizontal_dimensions % 64 ≡ 0
    pub few : pdx_data.num_vertical_dimensions + pdx_data.num_horizontal_dimensions ≤ pdx_max_dims
    pub query_bytes : (i : ℕ) → searcher.prepared_query i < 256
    pub bytes : (id v i : ℕ) → x id v i < 256

  pub job-IsByteJob :
      IsSearchable
      → (e : Encounter F) (is_selected : ℕ → Bool) (id : ℕ) (c : Cluster)
      → get_elem? pdx_data.clusters id ≡ some c
      → IsByteJob (job_of searcher e c) (x id) is_selected
  job-IsByteJob ready e is_selected id c at = record {
    is_job = record { stored = ready.stored id c at; split = ready.split; whole = ready.whole };
    few = ready.few;
    query_bytes = ready.query_bytes;
    bytes = ready.bytes id;
  }

  -- A candidate with the exact distance of a selected embedding of the index.
  abbrev pub IsOfIndex : (ℕ → ℕ → Bool) → KnnCandidate F → Type ℓ
  IsOfIndex is_selected a =
      (id : ℕ) × (c : Cluster) × (get_elem? pdx_data.clusters id ≡ some c)
      × IsExact searcher (x id) (is_selected id) c a

  module _ {κ} (IsKnown : KnnCandidate F → Type κ) (laws : IsOrdered F) (ready : IsSearchable)
      (is_selected : ℕ → ℕ → Bool) where
    -- What a search leaves: the k nearest of what the heap stood for and of candidates of other
    -- threads and of the index, with all that were due among them.
    abbrev pub Leaves : (KnnCandidate F → Type ℓ) → Heap F → SearchState F → Type (ℓ ⊔ κ)
    Leaves IsDue seen t =
        (cs : List (KnnCandidate F)) × (t.heap ≡ nearest k (push_all cs seen))
        × All (λ a. IsKnown a ⊎ IsOfIndex is_selected a) cs
        × ((a : KnnCandidate F) → IsDue a → Mem a cs)

    -- An iteration that skips the cluster, of which nothing is due.
    pub skipped :
        (e : Encounter F) (s : SearchState F) (seen : Heap F) (IsDue : KnnCandidate F → Type ℓ)
        → IsDescending seen
        → s.heap ≡ nearest k seen
        → All IsKnown e.others
        → ((a : KnnCandidate F) → IsDue a → Mem a e.others)
        → Leaves IsDue seen (record s { heap = offer_all searcher e.others s.heap })
    skipped e s seen IsDue d h known due = (
      e.others,
      ap (offer_all searcher e.others) h ∙ offer_all-nearest searcher laws e.others seen d,
      All-map IsKnown (λ a. IsKnown a ⊎ IsOfIndex is_selected a) (λ a p. inl p) e.others known,
      due,
    )

    pub merged :
        (e : Encounter F) (s : SearchState F) (seen : Heap F) (id : ℕ) (c : Cluster) (t : Pruning)
        → get_elem? pdx_data.clusters id ≡ some c
        → IsScanned (job_of searcher e c) (x id) (is_selected id) t
        → IsDescending seen
        → s.heap ≡ nearest k seen
        → All IsKnown e.others
        → Leaves (IsDueAt searcher (x id) (is_selected id) e c) seen (merge_kept searcher e c t s)
    merged e s seen id c t at scanned d h known =
        let (cs, e', a, due) =
          merge_kept-nearest searcher (x id) e c (is_selected id)
            (job-IsByteJob ready e (is_selected id) id c at) t scanned IsKnown laws s seen d h
            known in
        (
          cs,
          e',
          All-map (λ a. IsKnown a ⊎ IsExact searcher (x id) (is_selected id) c a)
              (λ a. IsKnown a ⊎ IsOfIndex is_selected a)
              (λ a p. elim p [ inl known_a ↦ inl known_a | inr exact ↦ inr (id, c, at, exact) ]) cs
              a,
          due,
        )

    -- What a search leaves after more iterations.
    pub chain :
        (seen : Heap F) (s t : SearchState F)
        (IsDue IsDueLater IsDueInAll : KnnCandidate F → Type ℓ) (first : Leaves IsDue seen s)
        → Leaves IsDueLater (push_all first.0 seen) t
        → ((a : KnnCandidate F) → IsDueInAll a → IsDue a ⊎ IsDueLater a)
        → Leaves IsDueInAll seen t
    chain seen s t IsDue IsDueLater IsDueInAll (cs, e, a, due) (ds, e', b, due') split = (
      cs ++ ds,
      e' ∙ ap (nearest k) (sym (push_all-append cs ds seen)),
      All-append (λ a. IsKnown a ⊎ IsOfIndex is_selected a) cs ds a b,
      λ c in_all. elim (split c in_all) [
        | inl now ↦ mem-append_left ds (due c now)
        | inr later ↦ mem-append_right cs (due' c later)
      ],
    )

    -- What is due may be narrowed.
    pub weaken :
        (seen : Heap F) (t : SearchState F) (IsDue IsDueToo : KnnCandidate F → Type ℓ)
        → ((a : KnnCandidate F) → IsDueToo a → IsDue a)
        → Leaves IsDue seen t
        → Leaves IsDueToo seen t
    weaken seen t IsDue IsDueToo g (cs, e, a, due) = (cs, e, a, λ c h. due c (g c h))

  -- The candidates that are due in the iteration for a cluster. `is_searched` tells the clusters that
  -- are not skipped.
  abbrev pub IsDueNow :
      (ℕ → ℕ → Bool) → (ℕ → Bool) → Encounter F → ℕ → Cluster → KnnCandidate F → Type ℓ
  IsDueNow is_selected is_searched e id c a =
      Mem a e.others ⊎ ((is_searched id ≡ true) × IsDueAt searcher (x id) (is_selected id) e c a)

  -- The candidates that are due while some clusters are visited, from iteration i on.
  abbrev pub IsDue :
      (ℕ → ℕ → Bool) → (ℕ → Bool) → (ℕ → Encounter F) → ℕ → List ℕ → KnnCandidate F → Type ℓ
  IsDue is_selected is_searched env i [] a = Mem a []
  IsDue is_selected is_searched env i (id ∷ ids) a =
      ((c : Cluster) × (get_elem? pdx_data.clusters id ≡ some c)
        × IsDueNow is_selected is_searched (env i) id c a)
      ⊎ IsDue is_selected is_searched env (suc i) ids a

  -- Such a candidate is due now or later.
  pub now_or_later :
      (is_selected : ℕ → ℕ → Bool) (is_searched : ℕ → Bool) (env : ℕ → Encounter F) (i id : ℕ)
      (ids : List ℕ) (c : Cluster)
      → get_elem? pdx_data.clusters id ≡ some c
      → (a : KnnCandidate F) → IsDue is_selected is_searched env i (id ∷ ids) a
      → IsDueNow is_selected is_searched (env i) id c a
        ⊎ IsDue is_selected is_searched env (suc i) ids a
  now_or_later is_selected is_searched env i id ids c at a (inl (b, at', due)) = inl (
      subst (λ (c' : Cluster). IsDueNow is_selected is_searched (env i) id c' a)
        (some-injective b c (sym at' ∙ at)) due)
  now_or_later is_selected is_searched env i id ids c at a (inr later) = inr later
