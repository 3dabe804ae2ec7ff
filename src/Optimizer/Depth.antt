-- ===== src/Optimizer/Depth.antt =====
-- The recursion of `OptimizeChildren` ends: fuel for the depth of the plan is enough.
use pdxearch.Prelude.{ℕ, zero, suc, ◌≤◌, ◌≡◌, refl, inl, inr, arith, Bool, max, Bool-cases}
use pdxearch.Expression.{DuckDb}
use pdxearch.Blob.{Scales}
use pdxearch.Optimizer.Rewriting.{try_optimize-cases}
use pdxearch.Optimizer.{
  Plan, Plans, node, no_plans, more_plans, children_of, each_plan, TopN, Projection, Get,
  ScanBindData, is_empty, replace_scan, try_optimize, optimize_children,
}

unfoldable mutual
  pub depth : Plan → ℕ
  depth (node op children) = suc (depth_of_all children)

  pub depth_of_all : Plans → ℕ
  depth_of_all no_plans = 0
  depth_of_all (more_plans p ps) = max (depth p) (depth_of_all ps)

each_plan-congr :
    (f g : Plan → Bool × Plan) (n : ℕ) (ps : Plans)
    → ((p : Plan) → depth p ≤ n → f p ≡ g p)
    → depth_of_all ps ≤ n
    → each_plan f ps ≡ each_plan g ps
unfolding depth
each_plan-congr f g n no_plans h l = refl
each_plan-congr f g n (more_plans p ps) h l =
    rw (h p (omega arith), each_plan-congr f g n ps h (omega arith))

depth-node : (p : Plan) → depth p ≡ suc (depth_of_all (children_of p))
unfolding depth
depth-node (node op children) = refl

module _ (db : DuckDb) (scales : Scales ℕ) (is_global : Bool) where
  depth-replace :
      (t : TopN) (p : Projection) (g : Get) (children : Plans) (b : ScanBindData)
      → depth (replace_scan db scales is_global t p g children b)
        ≤ suc (suc (suc (depth_of_all children)))
  unfolding depth replace_scan
  depth-replace t p g children b = elim (Bool-cases (is_empty g.table_filters)) [
    | inl unfiltered ↦
        rw (replace_scan, unfiltered)
          (elim (Bool-cases is_global) [
            | inl global ↦ rw global (omega arith)
            | inr parallel ↦ rw parallel (omega arith)
          ])
    | inr filtered ↦ rw (replace_scan, filtered) (omega arith)
  ]

  depth-try_optimize : (plan : Plan) → depth (try_optimize db scales is_global plan).1 ≤ depth plan
  unfolding depth
  depth-try_optimize plan = elim (try_optimize-cases db scales is_global plan) [
    | inl same ↦ rw same (omega arith)
    | inr (t, p, g, children, b, e, m, run) ↦
        rw (run, e) (omega (arith, depth-replace t p g children b))
  ]

  -- With fuel for the depth of a plan, more fuel changes nothing.
  pub optimize_children-fuel :
      (n m : ℕ) (plan : Plan)
      → depth plan ≤ n
      → depth plan ≤ m
      → optimize_children db scales is_global n plan ≡ optimize_children db scales is_global m plan
  unfolding optimize_children
  optimize_children-fuel zero m plan l k = absurd (omega (arith, depth-node plan))
  optimize_children-fuel (suc n) zero plan l k = absurd (omega (arith, depth-node plan))
  optimize_children-fuel (suc n) (suc m) plan l k =
      let (ok, plan') = try_optimize db scales is_global plan in
      let shrinks = depth-try_optimize plan in
      rw (
        each_plan-congr (optimize_children db scales is_global n)
          (optimize_children db scales is_global m) (depth_of_all (children_of plan'))
          (children_of plan')
          (λ p h.
            optimize_children-fuel n m p (omega (arith, depth-node plan'))
              (omega (arith, depth-node plan')))
          (omega arith))
