-- ===== src/KMeans/Partition.antt =====
-- The lists that `ComputeKMeans` makes have each embedding once.
use mathlib.Core.Option.{some-injective, none-ne-some}
use pdxearch.Prelude.{
  ℕ, zero, suc, ◌+◌, ◌<◌, ◌≡◌, refl, ap, sym, ◌∙◌, ◌⊎◌, inl, inr, List, [], ◌∷◌, ◌++◌, some, arith,
  ◌==◌, Buffer, for_up_inv, length, length-append, get_or, get_elem?, Bool-cases, le_or_lt,
}
use pdxearch.KMeans.{
  SuperKMeans, IsAssigning, no_assignments, emplace_back, convert_assignments, compute_kmeans,
}
use pdxearch.Wrapper.Construction.{DistanceMetric}

-- How many there are in the lists.
abbrev pub lengths : List (List ℕ) → ℕ
lengths [] = 0
lengths (a ∷ lists) = length a + lengths lists

-- Lists that have each number below n at one position.
pub record IsPartition (n : ℕ) (lists : List (List ℕ)) : Type 0 where
  pub sized : lengths lists ≡ n
  pub listed :
      (v : ℕ)
      → v < n
      → (c p : ℕ) × (a : List ℕ) × (get_elem? lists c ≡ some a)
        × (p < length a)
        × (get_or a p 0 ≡ v)
  pub inside : (c p : ℕ) (a : List ℕ) → get_elem? lists c ≡ some a → p < length a → get_or a p 0 < n
  pub distinct :
      (i j p p' : ℕ) (a b : List ℕ)
      → get_elem? lists i ≡ some a
      → get_elem? lists j ≡ some b
      → p < length a
      → p' < length b
      → get_or a p 0 ≡ get_or b p' 0
      → (i ≡ j) × (p ≡ p')

length-emplace_back :
    (lists : List (List ℕ)) (c v : ℕ) → length (emplace_back lists c v) ≡ length lists
length-emplace_back [] c v = refl
length-emplace_back (a ∷ lists) zero v = refl
length-emplace_back (a ∷ lists) (suc c) v = ap suc (length-emplace_back lists c v)

get_or-before : (a : List ℕ) (p v : ℕ) → p < length a → get_or (a ++ v ∷ []) p 0 ≡ get_or a p 0
get_or-before [] p v lt = absurd (omega arith)
get_or-before (x ∷ a) zero v lt = refl
get_or-before (x ∷ a) (suc p) v lt = get_or-before a p v (omega arith)

get_or-behind : (a : List ℕ) (v : ℕ) → get_or (a ++ v ∷ []) (length a) 0 ≡ v
get_or-behind [] v = refl
get_or-behind (x ∷ a) v = get_or-behind a v

-- A position after a push was there before, or is the new one.
position :
    (lists : List (List ℕ)) (c v j p : ℕ) (b : List ℕ)
    → get_elem? (emplace_back lists c v) j ≡ some b
    → p < length b
    → (a : List ℕ) × (get_elem? lists j ≡ some a)
      × (((p < length a) × (get_or b p 0 ≡ get_or a p 0))
          ⊎ ((j ≡ c) × (p ≡ length a) × (get_or b p 0 ≡ v)))
position [] c v j p b e lt = absurd (none-ne-some b e)
position (a ∷ lists) zero v zero p b e lt =
    let same : a ++ v ∷ [] ≡ b = some-injective (a ++ v ∷ []) b e in
    let size : length b ≡ length a + 1 = ap length (sym same) ∙ length-append a (v ∷ []) in
    elim (le_or_lt (length a) p) [
      | inr before ↦ (
        a,
        refl,
        inl (before, ap (λ (l : List ℕ). get_or l p 0) (sym same) ∙ get_or-before a p v before),
      )
      | inl past ↦
          let last : p ≡ length a = omega arith in
          (
            a,
            refl,
            inr (
              refl,
              last,
              ap (λ (l : List ℕ). get_or l p 0) (sym same)
                  ∙ ap (λ i. get_or (a ++ v ∷ []) i 0) last
                  ∙ get_or-behind a v,
            ),
          )
    ]
position (a ∷ lists) zero v (suc j) p b e lt = (b, e, inl (lt, refl))
position (a ∷ lists) (suc c) v zero p b e lt = (b, e, inl (lt, refl))
position (a ∷ lists) (suc c) v (suc j) p b e lt =
    let (l, at, where_it_is) = position lists c v j p b e lt in
    (
      l,
      at,
      elim where_it_is [ inl old ↦ inl old | inr (here, end, new) ↦ inr (ap suc here, end, new) ],
    )

-- What was there is still there.
kept :
    (lists : List (List ℕ)) (c v i p : ℕ) (a : List ℕ)
    → get_elem? lists i ≡ some a
    → p < length a
    → (b : List ℕ) × (get_elem? (emplace_back lists c v) i ≡ some b)
      × (p < length b)
      × (get_or b p 0 ≡ get_or a p 0)
kept [] c v i p a e lt = absurd (none-ne-some a e)
kept (b ∷ lists) zero v zero p a e lt =
    let same : b ≡ a = some-injective b a e in
    rw same (a ++ v ∷ [], refl, omega (arith, length-append a (v ∷ [])), get_or-before a p v lt)
kept (b ∷ lists) zero v (suc i) p a e lt = (a, e, lt, refl)
kept (b ∷ lists) (suc c) v zero p a e lt = (a, e, lt, refl)
kept (b ∷ lists) (suc c) v (suc i) p a e lt = kept lists c v i p a e lt

added :
    (lists : List (List ℕ)) (c v : ℕ)
    → c < length lists
    → (p : ℕ) × (b : List ℕ) × (get_elem? (emplace_back lists c v) c ≡ some b)
      × (p < length b)
      × (get_or b p 0 ≡ v)
added [] c v lt = absurd (omega arith)
added (a ∷ lists) zero v lt =
    (length a, a ++ v ∷ [], refl, omega (arith, length-append a (v ∷ [])), get_or-behind a v)
added (a ∷ lists) (suc c) v lt = added lists c v (omega arith)

none_there : (k i : ℕ) (a : List ℕ) → get_elem? (no_assignments k) i ≡ some a → length a ≡ 0
none_there zero i a e = absurd (none-ne-some a e)
none_there (suc k) zero a e = ap length (sym (some-injective [] a e))
none_there (suc k) (suc i) a e = none_there k i a e

length-no_assignments : (k : ℕ) → length (no_assignments k) ≡ k
length-no_assignments zero = refl
length-no_assignments (suc k) = ap suc (length-no_assignments k)

lengths-no_assignments : (k : ℕ) → lengths (no_assignments k) ≡ 0
lengths-no_assignments zero = refl
lengths-no_assignments (suc k) = omega (arith, lengths-no_assignments k)

lengths-emplace_back :
    (lists : List (List ℕ)) (c v : ℕ)
    → c < length lists
    → lengths (emplace_back lists c v) ≡ suc (lengths lists)
lengths-emplace_back [] c v lt = absurd (omega arith)
lengths-emplace_back (a ∷ lists) zero v lt = omega (arith, length-append a (v ∷ []))
lengths-emplace_back (a ∷ lists) (suc c) v lt =
    omega (arith, lengths-emplace_back lists c v (omega arith))

emplace_back-IsPartition :
    (lists : List (List ℕ)) (c n : ℕ)
    → c < length lists
    → IsPartition n lists
    → IsPartition (suc n) (emplace_back lists c n)
emplace_back-IsPartition lists c n lt inv = record {
  sized = lengths-emplace_back lists c n lt ∙ ap suc inv.sized;
  listed = λ v hv. elim (Bool-cases (v == n)) [
    | inl last ↦
        let (p, b, at, hp, e) = added lists c n lt in
        let same : v ≡ n = ground arith in (c, p, b, at, hp, e ∙ sym same)
    | inr earlier ↦
        let (i, p, a, at, hp, e) = inv.listed v (ground arith) in
        let (b, at', hp', e') = kept lists c n i p a at hp in (i, p, b, at', hp', e' ∙ e)
  ];
  inside = λ i p b at hp.
      let (a, at', place) = position lists c n i p b at hp in
      elim place [
        | inl (hp', e) ↦ let below = inv.inside i p a at' hp' in omega arith
        | inr (_, _, e) ↦ omega arith
      ];
  distinct = λ i j p p' a b at at' hp hp' e.
      let (a0, at0, place) = position lists c n i p a at hp in
      let (b0, bt0, place') = position lists c n j p' b at' hp' in
      elim place [
        | inl (lt_a, old) ↦ elim place' [
          | inl (lt_b, old') ↦ inv.distinct i j p p' a0 b0 at0 bt0 lt_a lt_b (sym old ∙ e ∙ old')
          | inr (_, _, new') ↦ let below = inv.inside i p a0 at0 lt_a in absurd (omega arith)
        ]
        | inr (here, end, new) ↦ elim place' [
          | inl (lt_b, old') ↦ let below = inv.inside j p' b0 bt0 lt_b in absurd (omega arith)
          | inr (here', end', new') ↦
              let same : a0 ≡ b0 =
                some-injective a0 b0 (sym at0 ∙ ap (get_elem? lists) (here ∙ sym here') ∙ bt0) in
              (here ∙ sym here', end ∙ ap length same ∙ sym end')
        ]
      ];
}

-- Each embedding of a call is in one of the lists, once, where the clusters are in range.
pub convert_assignments-IsPartition :
    (num_clusters num_embeddings : ℕ) (assignments : Buffer ℕ)
    → ((v : ℕ) → v < num_embeddings → assignments v < num_clusters)
    → IsPartition num_embeddings (convert_assignments num_clusters num_embeddings assignments)
      × (length (convert_assignments num_clusters num_embeddings assignments) ≡ num_clusters)
unfolding convert_assignments
convert_assignments-IsPartition k n assignments in_range =
    for_up_inv (λ i lists. IsPartition i lists × (length lists ≡ k))
      (λ v r. emplace_back r (assignments v) v) n (no_assignments k)
      (
        record {
          sized = lengths-no_assignments k;
          listed = λ v hv. absurd (omega arith);
          inside = λ c p a at hp. let e = none_there k c a at in absurd (omega arith);
          distinct =
              λ i j p p' a b at at' hp hp'. let e = none_there k i a at in absurd (omega arith);
        },
        length-no_assignments k,
      )
      (λ v lists lt (inv, size).
        let fits = in_range v lt in
        (
          emplace_back-IsPartition lists (assignments v) v (omega arith) inv,
          length-emplace_back lists (assignments v) v ∙ size,
        ))

-- `ComputeKMeans` gives as many lists as there are clusters, and each embedding is at one position of
-- one of them and at no other, for a library that assigns each embedding to one of its clusters.
pub compute_kmeans-IsPartition {ℓ} :
    {F : Type ℓ} (kmeans : SuperKMeans F)
    → IsAssigning kmeans
    → (embeddings : Buffer F) (num_embeddings num_dimensions num_clusters : ℕ)
      (distance_metric : DistanceMetric) (seed : ℕ)
    → 0 < num_clusters
    → let r =
        compute_kmeans kmeans embeddings num_embeddings num_dimensions num_clusters distance_metric
          seed in
      IsPartition num_embeddings r.assignments × (length r.assignments ≡ num_clusters)
unfolding compute_kmeans
compute_kmeans-IsPartition kmeans laws embeddings n d k metric seed some_clusters =
    elim (Bool-cases (k == 1)) [
      | inl one ↦
          let e : k ≡ 1 = ground arith in
          rw e (convert_assignments-IsPartition 1 n (λ v. 0) (λ v lt. omega arith))
      | inr more ↦ rw more (
          convert_assignments-IsPartition k n _
            (λ v lt. laws.assigned _ k d embeddings _ n v some_clusters lt))
    ]
