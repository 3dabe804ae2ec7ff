-- ===== src/Wrapper/SetUp/Built.antt =====
-- The clusters that the loops of the set-up build.
use mathlib.Core.Option.{none-ne-some, some-injective}
use mathlib.Core.Path.{subst}
use pdxearch.Prelude.{
  ℕ, zero, suc, ◌+◌, ◌*◌, ◌/◌, ◌%◌, ◌^◌, ◌≤◌, ◌<◌, ◌≡◌, refl, ap, ◌∙◌, arith, List, [], ◌∷◌, ◌++◌,
  Buffer, length, length-append, get_or, get_elem?, some,
}
use pdxearch.Dimensions.{get_pdx_dimension_split, pdx_max_dims}
use pdxearch.Dimensions.Split.{get_pdx_dimension_split-IsSplit}
use pdxearch.Layout.Assign.{Eigen, IsAssignment}
use pdxearch.Computers.{Arithmetic}
use pdxearch.Computers.Reference.{IsStored}
use pdxearch.Kernel.Float.{Float}
use pdxearch.Kernel.Index.{Cluster}
use pdxearch.Kernel.Store.{store_u8-IsStored}
use pdxearch.Quantizer.{Scaling, ScalarQuantizationParams, quantize_value}
use pdxearch.Wrapper.{RowMaps, place_cluster, place_clusters}
use pdxearch.Wrapper.Mapping.{indices_placed}
use pdxearch.Wrapper.SetUp.{Gathered, stored_cluster, gather_cluster, gather_clusters}
use pdxearch.Wrapper.SetUp.Gathering.{gathered, gathered-maps, gathered-clusters, gathered-tmp}

get_elem-before {ℓ} :
    {A : Type ℓ} (xs ys : List A) (i : ℕ) → i < length xs → get_elem? (xs ++ ys) i ≡ get_elem? xs i
get_elem-before [] ys i lt = absurd (omega arith)
get_elem-before (x ∷ xs) ys zero lt = refl
get_elem-before (x ∷ xs) ys (suc i) lt = get_elem-before xs ys i (omega arith)

get_elem-last {ℓ} :
    {A : Type ℓ} (xs : List A) (y : A) → get_elem? (xs ++ y ∷ []) (length xs) ≡ some y
get_elem-last [] y = refl
get_elem-last (x ∷ xs) y = get_elem-last xs y

-- Only the values of the stored embeddings and dimensions matter.
IsStored-congr :
    (V H n : ℕ) (block : Buffer ℕ) (x y : ℕ → ℕ → ℕ)
    → H % 64 ≡ 0
    → ((v d : ℕ) → v < n → d < V + H → x v d ≡ y v d)
    → IsStored V H n block x
    → IsStored V H n block y
IsStored-congr V H n block x y whole same stored = record {
  group = λ g v k hg hv hk. stored.group g v k hg hv hk ∙ same v (g * 4 + k) hv (omega arith);
  tail = λ v k hv hk. stored.tail v k hv hk ∙ same v (V / 4 * 4 + k) hv (omega arith);
  horizontal =
      λ r v k hr hv hk. stored.horizontal r v k hr hv hk ∙ same v (V + r * 64 + k) hv (omega arith);
}

module _ {ℓ} {F : Type ℓ} ⦃f : Float F⦄ ⦃ops : Arithmetic F⦄ ⦃scaling : Scaling F⦄ ⦃eigen : Eigen ℕ⦄
    (key : ℕ → ℕ) (num_dimensions : ℕ) (row_ids : Buffer ℕ) (embeddings : Buffer F)
    (params : ScalarQuantizationParams F) (fresh : ℕ → Buffer ℕ) where
  -- The quantized values of the embeddings that are assigned to a cluster.
  abbrev pub quantized_row : List ℕ → ℕ → ℕ → ℕ
  quantized_row assignment v d =
      quantize_value params (embeddings (get_or assignment v 0 * num_dimensions + d))

  -- A cluster with the assigned embeddings.
  pub record IsBuilt (assignment : List ℕ) (c : Cluster) : Type 0 where
    pub size : c.num_embeddings ≡ length assignment
    pub stored :
        let split = get_pdx_dimension_split num_dimensions in
        IsStored split.vertical_dimensions split.horizontal_dimensions c.num_embeddings c.block
          (quantized_row assignment)
    pub rows :
        (v : ℕ) → v < length assignment → c.indices v ≡ row_ids (get_or assignment v 0) % 2 ^ 32

  abbrev after : List ℕ → ℕ → Gathered → Gathered
  after = gather_cluster key num_dimensions row_ids embeddings params fresh

  abbrev after_all : List (List ℕ) → ℕ → Gathered → Gathered
  after_all = gather_clusters key num_dimensions row_ids embeddings params fresh

  abbrev last_cluster : List ℕ → ℕ → Gathered → Cluster
  last_cluster a i s =
      stored_cluster key num_dimensions row_ids embeddings params fresh a i
        (gathered key num_dimensions row_ids embeddings params fresh a i s (length a))

  after-clusters :
      (a : List ℕ) (i : ℕ) (s : Gathered)
      → (after a i s).clusters ≡ s.clusters ++ last_cluster a i s ∷ []
  unfolding gather_cluster
  after-clusters a i s =
      ap (λ cs. cs ++ last_cluster a i s ∷ [])
        (gathered-clusters key num_dimensions row_ids embeddings params fresh a i s (length a))

  after-maps :
      (a : List ℕ) (i : ℕ) (s : Gathered)
      → (after a i s).maps ≡ place_cluster key row_ids a i s.maps
  unfolding gather_cluster place_cluster
  after-maps a i s =
      gathered-maps key num_dimensions row_ids embeddings params fresh a i s (length a)

  -- The maps are those of the rows alone.
  pub after_all-maps :
      (lists : List (List ℕ)) (i : ℕ) (s : Gathered)
      → (after_all lists i s).maps ≡ place_clusters key row_ids lists i s.maps
  unfolding gather_clusters place_clusters
  after_all-maps [] i s = refl
  after_all-maps (a ∷ lists) i s =
      after_all-maps lists (suc i) (after a i s)
      ∙ ap (place_clusters key row_ids lists (suc i)) (after-maps a i s)

  length-after :
      (a : List ℕ) (i : ℕ) (s : Gathered) → length (after a i s).clusters ≡ suc (length s.clusters)
  length-after a i s =
      ap length (after-clusters a i s)
      ∙ omega (arith, length-append s.clusters (last_cluster a i s ∷ []))

  pub length-after_all :
      (lists : List (List ℕ)) (i : ℕ) (s : Gathered)
      → length (after_all lists i s).clusters ≡ length s.clusters + length lists
  unfolding gather_clusters
  length-after_all [] i s = omega arith
  length-after_all (a ∷ lists) i s =
      omega (arith, length-after_all lists (suc i) (after a i s), length-after a i s)

  stays :
      (lists : List (List ℕ)) (i : ℕ) (s : Gathered) (j : ℕ)
      → j < length s.clusters
      → get_elem? (after_all lists i s).clusters j ≡ get_elem? s.clusters j
  unfolding gather_clusters
  stays [] i s j lt = refl
  stays (a ∷ lists) i s j lt =
      stays lists (suc i) (after a i s) j (omega (arith, length-after a i s))
      ∙ ap (λ cs. get_elem? cs j) (after-clusters a i s)
      ∙ get_elem-before s.clusters (last_cluster a i s ∷ []) j lt

  last-IsBuilt :
      IsAssignment ℕ
      → 0 < num_dimensions
      → num_dimensions ≤ pdx_max_dims
      → (a : List ℕ) (i : ℕ) (s : Gathered) → IsBuilt a (last_cluster a i s)
  last-IsBuilt laws some_dims few a i s =
      let split = get_pdx_dimension_split num_dimensions in
      let n = length a in
      let divided = get_pdx_dimension_split-IsSplit num_dimensions some_dims few in
      let t = gathered key num_dimensions row_ids embeddings params fresh a i s n in
      let total = divided.total in
      record {
        size = refl;
        stored =
            IsStored-congr split.vertical_dimensions split.horizontal_dimensions n _
              (λ v d. t.tmp_cluster_embeddings (v * num_dimensions + d)) (quantized_row a)
              divided.whole_blocks
              (λ v d hv hd.
                gathered-tmp key num_dimensions row_ids embeddings params fresh a i s n v d hv
                  (omega arith))
              (store_u8-IsStored laws split.vertical_dimensions split.horizontal_dimensions
                num_dimensions n (fresh i) t.tmp_cluster_embeddings);
        rows = λ v hv.
            ap (λ (m : RowMaps). m.indices i v)
              (gathered-maps key num_dimensions row_ids embeddings params fresh a i s n)
            ∙ indices_placed key row_ids a i s.maps n v hv;
      }

  -- The cluster for each list of assigned embeddings is built from it.
  pub cluster-IsBuilt :
      IsAssignment ℕ
      → 0 < num_dimensions
      → num_dimensions ≤ pdx_max_dims
      → (lists : List (List ℕ)) (i c : ℕ) (s : Gathered) (a : List ℕ) → length s.clusters ≡ i
      → get_elem? lists c ≡ some a
      → (cl : Cluster) × (get_elem? (after_all lists i s).clusters (i + c) ≡ some cl) × IsBuilt a cl
  unfolding gather_clusters
  cluster-IsBuilt laws some_dims few [] i c s a size e = absurd (none-ne-some a e)
  cluster-IsBuilt laws some_dims few (b ∷ lists) i zero s a size e =
      let same : b ≡ a = some-injective b a e in
      let at_i : i + 0 ≡ length s.clusters = omega arith in
      (
        last_cluster b i s,
        ap (get_elem? (after_all (b ∷ lists) i s).clusters) at_i
            ∙ stays lists (suc i) (after b i s) (length s.clusters)
                (omega (arith, length-after b i s))
            ∙ ap (λ cs. get_elem? cs (length s.clusters)) (after-clusters b i s)
            ∙ get_elem-last s.clusters (last_cluster b i s),
        subst (λ (l : List ℕ). IsBuilt l (last_cluster b i s)) same
            (last-IsBuilt laws some_dims few b i s),
      )
  cluster-IsBuilt laws some_dims few (b ∷ lists) i (suc c) s a size e =
      let next : i + suc c ≡ suc i + c = omega arith in
      rw next (
        cluster-IsBuilt laws some_dims few lists (suc i) c (after b i s) a
          (omega (arith, length-after b i s)) e)
