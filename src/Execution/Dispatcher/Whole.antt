-- ===== src/Execution/Dispatcher/Whole.antt =====
-- The scheduler over dispatched tasks: its laws hold with no hypothesis on the futures left.
use rust_ia_micro_agents.Base.{ℕ, ◌+◌, ◌*◌, ◌<◌, ◌≤◌, String, ◌≡◌, some, All, length, u32_max}
use rust_ia_micro_agents.Base.Distinct.{AreDistinct}
use rust_ia_micro_agents.Planner.Plan.{ExecutionPlan}
use rust_ia_micro_agents.Execution.Dispatcher.Answers.{
  Schedule, dispatch_all, dispatch_all-AnswersLaunched, dispatch_all-Counts,
}
use rust_ia_micro_agents.Execution.Scheduler.{Outcome, execute_plan_parallel}
use rust_ia_micro_agents.Execution.Scheduler.Ids.{ids}
use rust_ia_micro_agents.Execution.Scheduler.Termination.{execute_plan_parallel-total}
use rust_ia_micro_agents.Execution.Scheduler.Covered.{IsCovered}
use rust_ia_micro_agents.Execution.Scheduler.Dependencies.{
  IsBlocked, execute_plan_parallel-IsCovered, execute_plan_parallel-IsBlocked,
}
use rust_ia_micro_agents.Execution.Scheduler.Limits.{IsLimited, execute_plan_parallel-IsLimited}

-- Executing a plan with distinct ids over dispatched tasks returns a plan in which each task that
-- left its pending state has its dependencies done, none could still start, and each is within the
-- limits on attempts and review loops, whatever states of the team the tasks meet and whichever
-- of them panic, if the given tasks are covered and within the limits.
pub execute_plan_parallel_dispatched :
    (s : Schedule) (to_lowercase : String → String) (persistent ephemeral mp mr ml fuel : ℕ)
    (plan : ExecutionPlan)
    → ml ≤ u32_max
    → AreDistinct (ids plan.tasks)
    → All (IsCovered plan.tasks) plan.tasks
    → All (IsLimited mr ml) plan.tasks
    → length plan.tasks * (2 * ml + 1) < fuel
    → (out : Outcome) × (execute_plan_parallel
          (dispatch_all s)
          to_lowercase
          persistent
          ephemeral
          mp
          mr
          ml
          fuel
          plan
        ≡ some out)
      × All (IsCovered out.plan.tasks) out.plan.tasks
      × All (IsBlocked out.plan.tasks) out.plan.tasks
      × All (IsLimited mr ml) out.plan.tasks
execute_plan_parallel_dispatched s lower p e mp mr ml fuel plan bounded d c l enough =
    let (out, ran) =
      execute_plan_parallel-total (dispatch_all s) lower p e mp mr ml fuel plan bounded d enough in
    let answers = dispatch_all-AnswersLaunched s in
    (
      out,
      ran,
      execute_plan_parallel-IsCovered (dispatch_all s) lower p e mp mr ml fuel plan out answers d c
          ran,
      execute_plan_parallel-IsBlocked (dispatch_all s) lower p e mp mr ml fuel plan out answers d c
          ran,
      execute_plan_parallel-IsLimited (dispatch_all s) lower p e mp mr ml fuel plan out
          (dispatch_all-Counts s) d l ran,
    )
