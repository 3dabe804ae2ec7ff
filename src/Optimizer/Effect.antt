-- ===== src/Optimizer/Effect.antt =====
-- `Optimize` of src/index/search/pdxearch_scan_optimizer.cpp as a whole.
use mathlib.Core.Path.{ap₂}
use pdxearch.Prelude.{ℕ, zero, suc, ◌≡◌, refl, ap, inl, inr, arith, Bool, false, if◌then◌else◌}
use pdxearch.Expression.{DuckDb}
use pdxearch.Blob.{Scales}
use pdxearch.Optimizer.{
  Plan, Plans, node, no_plans, more_plans, operator_of, children_of, each_plan, try_optimize,
  optimize_children,
}
use pdxearch.Optimizer.Rewriting.{try_optimize-cases}
use pdxearch.Optimizer.Depth.{depth}
use pdxearch.Optimizer.Merging.{merge_projections}

module _ (db : DuckDb) (scales : Scales ℕ) (is_global : Bool) where
  -- `Optimize`, with fuel for the depth of the plan.
  unfoldable pub optimize : Plan → Plan
  optimize plan =
      let (did_use_pdxearch_scan, plan') =
        optimize_children db scales is_global (depth plan) plan in
      if did_use_pdxearch_scan then merge_projections plan' else plan'

  each_plan-unchanged :
      (f : Plan → Bool × Plan) (ps : Plans)
      → ((p : Plan) → (f p).0 ≡ false → (f p).1 ≡ p)
      → (each_plan f ps).0 ≡ false
      → (each_plan f ps).1 ≡ ps
  each_plan-unchanged f no_plans h e = refl
  each_plan-unchanged f (more_plans p ps) h e =
      ap₂ more_plans (h p (ground arith)) (each_plan-unchanged f ps h (ground arith))

  node-parts : (p : Plan) → node (operator_of p) (children_of p) ≡ p
  node-parts (node op children) = refl

  try_optimize-unchanged :
      (p : Plan)
      → (try_optimize db scales is_global p).0 ≡ false
      → (try_optimize db scales is_global p).1 ≡ p
  try_optimize-unchanged p h = elim (try_optimize-cases db scales is_global p) [
    | inl same ↦ ap (λ r. r.1) same
    | inr (t, q, g, children, b, e, m, run) ↦ ground arith
  ]

  optimize_children-unchanged :
      (n : ℕ) (p : Plan)
      → (optimize_children db scales is_global n p).0 ≡ false
      → (optimize_children db scales is_global n p).1 ≡ p
  unfolding optimize_children
  optimize_children-unchanged zero p h = refl
  optimize_children-unchanged (suc n) p h =
      let first = try_optimize-unchanged p (ground arith) in
      let rest =
        each_plan-unchanged (optimize_children db scales is_global n)
          (children_of (try_optimize db scales is_global p).1) (optimize_children-unchanged n)
          (ground arith) in
      rw (rest, node-parts (try_optimize db scales is_global p).1) first

  -- A query in which no scan of an index is used is left as it was.
  pub optimize-unchanged :
      (plan : Plan)
      → (optimize_children db scales is_global (depth plan) plan).0 ≡ false
      → optimize plan ≡ plan
  unfolding optimize
  optimize-unchanged plan h = rw h (optimize_children-unchanged (depth plan) plan h)
