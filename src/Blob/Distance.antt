-- ===== src/Blob/Distance.antt =====
-- The distances between a blob and an array of src/index/pdxearch_blob_functions.cpp. The execution
-- is a template over one of the two operations on floats, over the arithmetic of floats as a
-- parameter.
use pdxearch.Prelude.{
  ℕ, ◌≡◌, refl, arith, List, [], ◌∷◌, map, Option, none, some, length, ◌==◌, if◌then◌else◌, Result,
  ok, err, ◌>>=◌, for_up, get_or,
}
use pdxearch.Kernel.Float.{Float}
use pdxearch.Computers.{Arithmetic}
use pdxearch.Quantizer.{Scaling}
use pdxearch.Expression.{LogicalType, float, array}
use pdxearch.Blob.{Scales, decode_blob_to_float_array, blob_dimension_count}

-- The exceptions of the bind and of the execution.
pub data DistanceError : Type 0 where
  first_not_an_array second_not_an_array : DistanceError
  dimensions_differ : (blob_dims array_size : ℕ) → DistanceError

-- `BlobArrayDistanceBind` and `ArrayBlobDistanceBind`, on the types of the two arguments: the size,
-- and the types that the arguments are cast to.
abbrev pub blob_array_distance_bind :
    LogicalType → LogicalType → Result DistanceError (ℕ × LogicalType × LogicalType)
blob_array_distance_bind blob_type (array _ n) = ok (n, blob_type, array float n)
blob_array_distance_bind _ _ = err second_not_an_array

abbrev pub array_blob_distance_bind :
    LogicalType → LogicalType → Result DistanceError (ℕ × LogicalType × LogicalType)
array_blob_distance_bind (array _ n) blob_type = ok (n, array float n, blob_type)
array_blob_distance_bind _ _ = err first_not_an_array

module _ {ℓ} {F : Type ℓ} ⦃f : Float F⦄ ⦃ops : Arithmetic F⦄ ⦃scaling : Scaling F⦄ where
  open ops use {nought, add, sub, mul}

  -- `BlobDistanceOp::Operation`
  abbrev pub blob_distance_op : List F → List F → (count : ℕ) → F
  blob_distance_op lhs rhs count = scaling.square_root (
      for_up count
        (λ i dist.
          let diff = sub (get_or lhs i nought) (get_or rhs i nought) in add dist (mul diff diff))
        nought)

  -- One of the three sums of the loop.
  abbrev pub dot : List F → List F → (count : ℕ) → F
  dot lhs rhs count =
      for_up count (λ i sum. add sum (mul (get_or lhs i nought) (get_or rhs i nought))) nought

  -- `BlobCosineDistanceOp::Operation`
  abbrev pub blob_cosine_distance_op : List F → List F → (count : ℕ) → F
  blob_cosine_distance_op lhs rhs count =
      let norms = mul (dot lhs lhs count) (dot rhs rhs count) in
      let similarity = scaling.divide (dot lhs rhs count) (scaling.square_root norms) in
      sub f.one (scaling.maximum (sub nought f.one) (scaling.minimum similarity f.one))

module _ {ℓ} {F : Type ℓ} (scales : Scales F) (operation : List F → List F → ℕ → F)
    (array_size : ℕ) where
  -- `operation` is the template parameter `OP`. One round of the loop, for a row of which either
  -- side may be NULL.
  abbrev pub execute_row :
      (List F → List F → F) → Option (List ℕ) → Option (List F) → Result DistanceError (Option F)
  execute_row distance (some blob) (some values) =
      if blob_dimension_count (length blob) == array_size
      then ok (some (distance (decode_blob_to_float_array scales blob) values))
      else err (dimensions_differ (blob_dimension_count (length blob)) array_size)
  execute_row distance _ _ = ok none

  -- `BlobArrayDistanceExecute`
  unfoldable pub blob_array_distance_execute :
      List (Option (List ℕ) × Option (List F)) → Result DistanceError (List (Option F))
  blob_array_distance_execute [] = ok []
  blob_array_distance_execute ((b, a) ∷ rows) = do
    r ← execute_row (λ decoded values. operation decoded values array_size) b a
    rs ← blob_array_distance_execute rows
    ok (r ∷ rs)

  -- `ArrayBlobDistanceExecute`
  unfoldable pub array_blob_distance_execute :
      List (Option (List F) × Option (List ℕ)) → Result DistanceError (List (Option F))
  array_blob_distance_execute [] = ok []
  array_blob_distance_execute ((a, b) ∷ rows) = do
    r ← execute_row (λ decoded values. operation values decoded array_size) b a
    rs ← array_blob_distance_execute rows
    ok (r ∷ rs)

  -- A row whose blob has another number of dimensions than the array.
  abbrev pub mismatch : Option (List ℕ) × Option (List F) → Option ℕ
  mismatch (some blob, some values) =
      if blob_dimension_count (length blob) == array_size
      then none
      else some (blob_dimension_count (length blob))
  mismatch _ = none

  abbrev pub first_mismatch : List (Option (List ℕ) × Option (List F)) → Option ℕ
  first_mismatch [] = none
  first_mismatch (row ∷ rows) = elim (mismatch row) [ none ↦ first_mismatch rows | some n ↦ some n ]

  -- The distance of a row, where there is one.
  abbrev pub row_distance : Option (List ℕ) × Option (List F) → Option F
  row_distance (some blob, some values) =
      some (operation (decode_blob_to_float_array scales blob) values array_size)
  row_distance _ = none

  -- The distances of all rows, or the exception of the first row that does not fit.
  abbrev pub all_distances :
      List (Option (List ℕ) × Option (List F)) → Option ℕ → Result DistanceError (List (Option F))
  all_distances rows none = ok (map row_distance rows)
  all_distances rows (some n) = err (dimensions_differ n array_size)

  pub blob_array_distance_execute_lem :
      (rows : List (Option (List ℕ) × Option (List F)))
      → blob_array_distance_execute rows ≡ all_distances rows (first_mismatch rows)
  unfolding blob_array_distance_execute
  blob_array_distance_execute_lem [] = refl
  blob_array_distance_execute_lem ((none, a) ∷ rows) =
      ground (arith, blob_array_distance_execute_lem rows)
  blob_array_distance_execute_lem ((some b, none) ∷ rows) =
      ground (arith, blob_array_distance_execute_lem rows)
  blob_array_distance_execute_lem ((some b, some a) ∷ rows) =
      ground (arith, blob_array_distance_execute_lem rows)

-- The two overloads agree, where the operation does not depend on the order of its arguments.
pub array_blob-blob_array {ℓ} :
    {F : Type ℓ} (scales : Scales F) (operation : List F → List F → ℕ → F) (array_size : ℕ)
    → ((xs ys : List F) (n : ℕ) → operation xs ys n ≡ operation ys xs n)
    → (rows : List (Option (List ℕ) × Option (List F)))
    → array_blob_distance_execute scales operation array_size (map (λ r. (r.1, r.0)) rows)
      ≡ blob_array_distance_execute scales operation array_size rows
unfolding array_blob_distance_execute blob_array_distance_execute
array_blob-blob_array scales operation array_size h [] = refl
array_blob-blob_array scales operation array_size h ((none, a) ∷ rows) =
    rw (array_blob-blob_array scales operation array_size h rows)
array_blob-blob_array scales operation array_size h ((some b, none) ∷ rows) =
    rw (array_blob-blob_array scales operation array_size h rows)
array_blob-blob_array scales operation array_size h ((some b, some a) ∷ rows) = rw (
  array_blob-blob_array scales operation array_size h rows,
  h a (decode_blob_to_float_array scales b) array_size,
)
