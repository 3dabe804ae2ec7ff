-- ===== src/Tests/Scans.antt =====
-- The scan of a small stored cluster.
use pdxearch.Prelude.{
  ℕ, Bool, ◌+◌, ◌*◌, ◌%◌, ◌^◌, ◌<◌, ◌≡◌, ◌⊎◌, refl, true, false, some, arith, Buffer,
}
use pdxearch.Layout.{store_cluster_embeddings_u8}
use pdxearch.Layout.Assign.{direct, direct-IsAssignment}
use pdxearch.Computers.Visit.{count}
use pdxearch.Computers.Reference.{squares}
use pdxearch.Kernel.Float.{whole}
use pdxearch.Kernel.Positions.{survivors, u32_max}
use pdxearch.Kernel.Store.{store_u8-IsStored}
use pdxearch.Kernel.Scan.{Job, Pruning, scan, scan_filtered, get_pruning_threshold}
use pdxearch.Kernel.Scan.Loops.{IsNear}
use pdxearch.Kernel.Scan.Calls.{everything, passing}
use pdxearch.Kernel.Scan.Guarantees.{
  IsByteJob, squares-bound, scan-exact, scan-near, scan_filtered-exact, scan_filtered-near,
}

abbrev zeros : Buffer ℕ
zeros k = 0

abbrev bytes : Buffer ℕ
bytes k = k % 256

abbrev rows : ℕ → ℕ → ℕ
rows v d = bytes (v * 70 + d)

-- Two embeddings of 70 dimensions, 64 of them horizontal. The query is the first embedding.
abbrev job : Job ℕ
job = record {
  num_dimensions = 70;
  num_vertical_dimensions = 6;
  num_horizontal_dimensions = 64;
  quantization_scale_squared = 1;
  ratios = λ d. 1;
  query = bytes;
  block = store_cluster_embeddings_u8 6 64 70 zeros bytes 2;
  n_vectors = 2;
  tops = λ i. 10 ^ 12;
}

abbrev selection : Buffer ℕ
selection v = 1

job-IsByteJob : (is_selected : ℕ → Bool) → IsByteJob job rows is_selected
job-IsByteJob is_selected = record {
  is_job = record {
    stored = store_u8-IsStored direct-IsAssignment 6 64 70 2 zeros bytes;
    split = refl;
    whole = refl;
  };
  few = ground arith;
  query_bytes = λ i. ground arith;
  bytes = λ v i. ground arith;
}

threshold : (dim : ℕ) → get_pruning_threshold job (10 ^ 12) dim ≡ u32_max
unfolding get_pruning_threshold
threshold dim = ground arith

first-IsNear : (is_selected : ℕ → Bool) → IsNear job rows is_selected 0
first-IsNear is_selected i dim =
    let low =
      squares-bound bytes (rows 0) 0 70 (λ i. ground arith) (λ i. ground arith) (ground arith) in
    rw (threshold dim) (omega arith)

scan-exact_example :
    (t : Pruning) × (scan job 1 zeros zeros ≡ some t)
    × ((count 1 (survivors t.kept) ≡ 0)
        ⊎ ((count 1 (survivors t.kept) ≡ 1)
            × (1 < 2)
            × (t.distances 1 ≡ squares bytes (rows 1) 0 70)))
scan-exact_example = scan-exact job rows 1 zeros zeros 1 (job-IsByteJob everything)

scan-near_example :
    (t : Pruning) × (scan job 1 zeros zeros ≡ some t)
    × (count 0 (survivors t.kept) ≡ 1)
    × (t.distances 0 ≡ squares bytes (rows 0) 0 70)
scan-near_example =
    scan-near job rows 1 zeros zeros 0 (job-IsByteJob everything) (omega arith)
      (first-IsNear everything)

scan_filtered-exact_example :
    (t : Pruning) × (scan_filtered job 1 false selection zeros zeros ≡ some t)
    × ((count 1 (survivors t.kept) ≡ 0)
        ⊎ ((count 1 (survivors t.kept) ≡ 1)
            × (1 < 2)
            × (selection 1 ≡ 1)
            × (t.distances 1 ≡ squares bytes (rows 1) 0 70)))
scan_filtered-exact_example =
    scan_filtered-exact job rows 1 false selection zeros zeros 1 (job-IsByteJob (passing selection))

scan_filtered-near_example :
    (t : Pruning) × (scan_filtered job 1 true selection zeros zeros ≡ some t)
    × (count 0 (survivors t.kept) ≡ 1)
    × (t.distances 0 ≡ squares bytes (rows 0) 0 70)
scan_filtered-near_example =
    scan_filtered-near job rows 1 true selection zeros zeros 0 (job-IsByteJob (passing selection))
      (omega arith) refl (first-IsNear (passing selection))
