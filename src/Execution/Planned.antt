-- ===== src/Execution/Planned.antt =====
-- A plan that the planner drew up, executed over dispatched tasks.
use rust_ia_micro_agents.Base.{
  ℕ, ◌+◌, ◌*◌, ◌<◌, ◌≤◌, max, String, ◌≡◌, refl, inl, inr, ◌⊎◌, false, List, [], ◌∷◌, ◌++◌, map,
  some, arith, All, length, is_empty, DateTime, u32_max, zero, suc,
}
use rust_ia_micro_agents.Base.Distinct.{IsFresh, AreDistinct}
use rust_ia_micro_agents.Base.Maps.{HashMap}
use rust_ia_micro_agents.Planner.Plan.{PlanTask, ExecutionPlan}
use rust_ia_micro_agents.Planner.Slugs.{integration_task_slug, scoped_task_id}
use rust_ia_micro_agents.Planner.Materialize.{
  PlanSeed, Planner, requested_ids, work_task, work_tasks, integration_task, scheduled,
  drafted_tasks, materialize_plan,
}
use rust_ia_micro_agents.Planner.Materialize.Shape.{
  length-materialize_plan, materialize_plan-AreDistinct,
}
use rust_ia_micro_agents.Team.Config.{TeamConfig, TeamRuntimeSettings}
use rust_ia_micro_agents.Execution.Scheduler.{Outcome, execute_plan_parallel}
use rust_ia_micro_agents.Execution.Scheduler.Covered.{IsCovered}
use rust_ia_micro_agents.Execution.Scheduler.Dependencies.{IsBlocked}
use rust_ia_micro_agents.Execution.Scheduler.Limits.{IsLimited}
use rust_ia_micro_agents.Execution.Dispatcher.Answers.{Schedule, dispatch_all}
use rust_ia_micro_agents.Execution.Dispatcher.Whole.{execute_plan_parallel_dispatched}

-- A task that was never tried.
abbrev IsNew : PlanTask → Type 0
IsNew t = (t.attempts ≡ 0) × (t.review_loops ≡ 0)

List-cases : (is : List String) → (is ≡ []) ⊎ (is_empty is ≡ false)
List-cases [] = inl refl
List-cases (i ∷ is) = inr refl

times_mono : (a b k : ℕ) → a ≤ b → a * k ≤ b * k
times_mono a b zero h = omega arith
times_mono a b (suc k) h = omega (arith, times_mono a b k h)

scheduled-IsCovered :
    (planner : Planner) (depth : ℕ) (depths : HashMap ℕ) (all_tasks ts : List PlanTask)
    → All (IsCovered all_tasks) (map (scheduled planner depth depths) ts)
unfolding scheduled
scheduled-IsCovered planner depth depths all_tasks [] = tt
scheduled-IsCovered planner depth depths all_tasks (t ∷ ts) = (
  elim (List-cases t.dependencies) [ inl e ↦ rw e (λ h. refl) | inr e ↦ rw e (λ h. cc) ],
  scheduled-IsCovered planner depth depths all_tasks ts,
)

scheduled-IsLimited :
    (planner : Planner) (depth : ℕ) (depths : HashMap ℕ) (mr ml : ℕ) (ts : List PlanTask)
    → All IsNew ts
    → All (IsLimited mr ml) (map (scheduled planner depth depths) ts)
unfolding scheduled
scheduled-IsLimited planner depth depths mr ml [] a = tt
scheduled-IsLimited planner depth depths mr ml (t ∷ ts) a =
    let (tried, sent) = a.0 in
    (
      record { tries = omega arith; loops = omega arith; spare = λ h. omega arith },
      scheduled-IsLimited planner depth depths mr ml ts a.1,
    )

All-snoc-IsNew :
    (ts : List PlanTask) (t : PlanTask) → All IsNew ts → IsNew t → All IsNew (ts ++ t ∷ [])
All-snoc-IsNew [] t a n = (n, tt)
All-snoc-IsNew (u ∷ us) t a n = (a.0, All-snoc-IsNew us t a.1 n)

work_tasks-IsNew :
    (planner : Planner) (plan_id goal : String) (roles valid_ids : List String) (left idx : ℕ)
    (seeds : List PlanSeed)
    → All IsNew (work_tasks planner plan_id goal roles valid_ids left idx seeds)
unfolding work_tasks work_task
work_tasks-IsNew planner plan_id goal roles valid_ids zero idx seeds = tt
work_tasks-IsNew planner plan_id goal roles valid_ids (suc left) idx [] = tt
work_tasks-IsNew planner plan_id goal roles valid_ids (suc left) idx (seed ∷ seeds) =
    ((refl, refl), work_tasks-IsNew planner plan_id goal roles valid_ids left (idx + 1) seeds)

drafted_tasks-IsNew :
    (planner : Planner) (plan_id goal : String) (team : TeamConfig) (roles : List String)
    (seeds : List PlanSeed)
    → All IsNew (drafted_tasks planner plan_id goal team roles seeds)
unfolding drafted_tasks integration_task
drafted_tasks-IsNew planner plan_id goal team roles seeds =
    All-snoc-IsNew _ _ (work_tasks-IsNew planner plan_id goal roles _ _ 0 seeds) (refl, refl)

module _ (planner : Planner) (uuid : String) (now : DateTime) (conversation_id : ℕ) (goal : String)
    (team : TeamConfig) (roles : List String) (settings : TeamRuntimeSettings)
    (assumptions risks : List String) (seeds : List PlanSeed) where
  abbrev plan : ExecutionPlan
  plan =
      materialize_plan planner uuid now conversation_id goal team roles settings assumptions risks
        seeds

  materialize_plan-IsCovered : All (IsCovered plan.tasks) plan.tasks
  unfolding materialize_plan
  materialize_plan-IsCovered = scheduled-IsCovered planner _ _ plan.tasks _

  materialize_plan-IsLimited : (mr ml : ℕ) → All (IsLimited mr ml) plan.tasks
  unfolding materialize_plan
  materialize_plan-IsLimited mr ml =
      scheduled-IsLimited planner _ _ mr ml _ (drafted_tasks-IsNew planner uuid goal team _ seeds)

  length-le : length plan.tasks ≤ max team.plan_max_tasks 2
  length-le = omega (
    arith,
    length-materialize_plan planner uuid now conversation_id goal team roles settings assumptions
        risks seeds,
  )

  enough_rounds :
      (ml fuel : ℕ)
      → max team.plan_max_tasks 2 * (2 * ml + 1) < fuel
      → length plan.tasks * (2 * ml + 1) < fuel
  enough_rounds ml fuel h =
      omega
        (arith, times_mono (length plan.tasks) (max team.plan_max_tasks 2) (2 * ml + 1) length-le)

  -- Executing a plan drawn up from drafts with distinct ids, none of them the integration task's,
  -- returns within a bound on the rounds that `plan_max_tasks` and the review loops give, whatever
  -- the tasks do. In the result each task that left its pending state has its dependencies done,
  -- none could still start, and each is within the limits on attempts and review loops.
  pub execute_plan_parallel_materialized :
      (s : Schedule) (to_lowercase : String → String) (persistent ephemeral mp mr ml fuel : ℕ)
      → ml ≤ u32_max
      → AreDistinct (requested_ids uuid 0 seeds)
      → IsFresh (scoped_task_id uuid integration_task_slug) (requested_ids uuid 0 seeds)
      → max team.plan_max_tasks 2 * (2 * ml + 1) < fuel
      → (out : Outcome) × (execute_plan_parallel
            (dispatch_all s)
            to_lowercase
            persistent
            ephemeral
            mp
            mr
            ml
            fuel
            (materialize_plan planner uuid now conversation_id goal team roles settings assumptions
              risks seeds)
          ≡ some out)
        × All (IsCovered out.plan.tasks) out.plan.tasks
        × All (IsBlocked out.plan.tasks) out.plan.tasks
        × All (IsLimited mr ml) out.plan.tasks
  execute_plan_parallel_materialized s lower persistent ephemeral mp mr ml fuel bounded distinct
        fresh enough =
      execute_plan_parallel_dispatched s lower persistent ephemeral mp mr ml fuel plan bounded
        (materialize_plan-AreDistinct planner uuid now conversation_id goal team roles settings
          assumptions risks seeds distinct fresh)
        materialize_plan-IsCovered (materialize_plan-IsLimited mr ml) (enough_rounds ml fuel enough)
