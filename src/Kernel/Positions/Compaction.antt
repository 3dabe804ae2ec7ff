-- ===== src/Kernel/Positions/Compaction.antt =====
-- The branch-free loops that build and compact the positions are filters.
use pdxearch.Prelude.{
  ℕ, zero, suc, ◌+◌, ◌≤◌, ◌≡◌, refl, ap, sym, Bool, true, false, List, [], ◌∷◌, ◌++◌, arith, ltb,
  ◌==◌, bit, if◌then◌else◌, ◌&&◌, select, select-append, for_up, for_up_inv, Buffer, write, prefix,
  prefix-write,
}
use mathlib.Core.List.{append-nil}
use native.Mathlib.Numerals.{add-one}
use native.Mathlib.Nat.{add-zero}
use pdxearch.Kernel.Positions.{
  Positions, survivors, keep_if_closer, evaluate_pruning_predicate_on_positions, init_positions,
  init_positions_filtered, init_positions_from_selection, evaluate_pruning_predicate_scalar,
}

-- The indices 0, 1, ..., n - 1.
abbrev pub range : ℕ → List ℕ
range n = prefix n (λ i. i)

-- Writing a value behind the survivors and counting it when a test passes appends it when it does.
prefix-place :
    (b : Bool) (p : Buffer ℕ) (c v : ℕ)
    → prefix (c + bit b) (write p c v) ≡ prefix c p ++ (if b then v ∷ [] else [])
unfolding prefix
prefix-place true p c v =
    rw (add-one, prefix-write c p v) (ap (λ t. prefix c p ++ t ∷ []) (ground arith))
prefix-place false p c v = rw (add-zero, prefix-write c p v) (sym (append-nil _))

select-snoc :
    (q : ℕ → Bool) (n : ℕ) (b : Buffer ℕ)
    → select q (prefix (suc n) b) ≡ select q (prefix n b) ++ (if q (b n) then b n ∷ [] else [])
unfolding prefix
select-snoc q n b = select-append q (prefix n b) (b n ∷ [])

module _ (threshold : ℕ) (d : Buffer ℕ) where
  abbrev is_closer : ℕ → Bool
  is_closer v = ltb (d v) threshold

  abbrev Compacted : Buffer ℕ → ℕ → Positions → Type 0
  Compacted p i s =
      (survivors s ≡ select is_closer (prefix i p))
      × (s.count ≤ i)
      × ((j : ℕ) → i ≤ j → s.positions j ≡ p j)

  keep_if_closer-Compacted :
      (p : Buffer ℕ) (i : ℕ) (s : Positions)
      → Compacted p i s
      → Compacted p (suc i) (keep_if_closer threshold d i s)
  keep_if_closer-Compacted p i s (same, low, above) =
      let v = s.positions i in
      let here : v ≡ p i = above i (omega arith) in
      let kept : write s.positions s.count v i ≡ v = ground arith in
      (
        rw kept (rw (prefix-place (is_closer v) s.positions s.count v, select-snoc, same, here)),
        ground arith,
        λ j h. ground (arith, above j),
      )

-- The in-place compaction of the first `n` positions leaves exactly those whose distance is below
-- the threshold, in their order.
pub survivors-evaluate :
    (n threshold : ℕ) (p d : Buffer ℕ)
    → survivors (evaluate_pruning_predicate_on_positions n p threshold d)
      ≡ select (λ v. ltb (d v) threshold) (prefix n p)
unfolding evaluate_pruning_predicate_on_positions prefix
survivors-evaluate n threshold p d =
    (for_up_inv (Compacted threshold d p) (keep_if_closer threshold d) n
      (record { positions = p; count = 0 }) (refl, (omega arith), λ j h. refl)
      (λ i s lt h. keep_if_closer-Compacted threshold d p i s h)).0

-- The list that one of the initialising loops builds.
survivors-place :
    (q : ℕ → Bool) (n : ℕ) (s : Positions)
    → survivors s ≡ select q (range n)
    → survivors (record { positions = write s.positions s.count n; count = s.count + bit (q n) })
      ≡ select q (range (suc n))
survivors-place q n s same = rw (prefix-place (q n) s.positions s.count n, select-snoc, same)

-- `InitPositionsArray<false>` lists the embeddings below the threshold in increasing order.
pub survivors-init_positions :
    (n threshold : ℕ) (p d : Buffer ℕ)
    → survivors (init_positions n p threshold d) ≡ select (λ v. ltb (d v) threshold) (range n)
unfolding init_positions for_up prefix
survivors-init_positions zero threshold p d = refl
survivors-init_positions (suc n) threshold p d =
    survivors-place (λ v. ltb (d v) threshold) n _ (survivors-init_positions n threshold p d)

-- `InitPositionsArray<true>` lists those that are selected as well.
pub survivors-init_positions_filtered :
    (n threshold : ℕ) (p d selection : Buffer ℕ)
    → survivors (init_positions_filtered n p threshold d selection)
      ≡ select (λ v. ltb (d v) threshold && selection v == 1) (range n)
unfolding init_positions_filtered for_up prefix
survivors-init_positions_filtered zero threshold p d selection = refl
survivors-init_positions_filtered (suc n) threshold p d selection =
    survivors-place (λ v. ltb (d v) threshold && selection v == 1) n _
      (survivors-init_positions_filtered n threshold p d selection)

-- `InitPositionsArrayFromSelectionVector` lists the selected embeddings.
pub survivors-init_positions_from_selection :
    (n : ℕ) (p selection : Buffer ℕ)
    → survivors (init_positions_from_selection n p selection)
      ≡ select (λ v. selection v == 1) (range n)
unfolding init_positions_from_selection for_up prefix
survivors-init_positions_from_selection zero p selection = refl
survivors-init_positions_from_selection (suc n) p selection =
    survivors-place (λ v. selection v == 1) n _
      (survivors-init_positions_from_selection n p selection)

-- The count of the embeddings to prune and the list of those to keep are complementary: together
-- they are all embeddings.
pub pruned-add-kept :
    (n threshold : ℕ) (p d : Buffer ℕ)
    → evaluate_pruning_predicate_scalar 0 n d threshold + (init_positions n p threshold d).count ≡ n
unfolding evaluate_pruning_predicate_scalar init_positions for_up
pruned-add-kept zero threshold p d = omega arith
pruned-add-kept (suc n) threshold p d = ground (arith, pruned-add-kept n threshold p d)
