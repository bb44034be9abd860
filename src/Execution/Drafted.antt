-- ===== src/Execution/Drafted.antt =====
-- The plan that the planner draws up of a goal alone, executed over dispatched tasks.
use rust_ia_micro_agents.Base.{
  ℕ, ◌+◌, ◌*◌, ◌<◌, ◌≤◌, max, String, ◌≡◌, refl, false, List, [], ◌∷◌, some, arith, All, is_empty,
  DateTime, u32_max,
}
use rust_ia_micro_agents.Planner.Plan.{ExecutionPlan}
use rust_ia_micro_agents.Planner.Materialize.{Planner, materialize_plan}
use rust_ia_micro_agents.Planner.Decomposition.{work_cap, build_initial_plan}
use rust_ia_micro_agents.Planner.Decomposition.Numbers.{
  requested_ids-AreDistinct, requested_ids-ne-integration,
}
use rust_ia_micro_agents.Planner.Decomposition.Drafts.{initial_seeds-IsDraft, initial_seeds-total}
use rust_ia_micro_agents.Team.Config.{TeamConfig, TeamRuntimeSettings}
use rust_ia_micro_agents.Execution.Scheduler.{Outcome, execute_plan_parallel}
use rust_ia_micro_agents.Execution.Scheduler.Covered.{IsCovered}
use rust_ia_micro_agents.Execution.Scheduler.Dependencies.{IsBlocked}
use rust_ia_micro_agents.Execution.Scheduler.Limits.{IsLimited}
use rust_ia_micro_agents.Execution.Dispatcher.Answers.{Schedule, dispatch_all}
use rust_ia_micro_agents.Execution.Planned.{execute_plan_parallel_materialized}

-- For a team with a role, every goal has a plan, and executing it returns within a bound on the
-- rounds that `plan_max_tasks` and the review loops give, whatever the tasks do. In the result each
-- task that left its pending state has its dependencies done, none could still start, and each is
-- within the limits on attempts and review loops.
pub build_initial_plan-executed :
    (planner : Planner) (uuid : String) (now : DateTime) (conversation_id : ℕ) (goal : String)
    (team : TeamConfig) (roles : List String) (settings : TeamRuntimeSettings) (s : Schedule)
    (to_lowercase : String → String) (persistent ephemeral mp mr ml fuel : ℕ)
    → is_empty roles ≡ false
    → ml ≤ u32_max
    → max team.plan_max_tasks 2 * (2 * ml + 1) < fuel
    → (plan : ExecutionPlan) × (out : Outcome) × (build_initial_plan planner uuid now
          conversation_id goal team roles settings
        ≡ some plan)
      × (execute_plan_parallel (dispatch_all s) to_lowercase persistent ephemeral mp mr ml fuel plan
          ≡ some out)
      × All (IsCovered out.plan.tasks) out.plan.tasks
      × All (IsBlocked out.plan.tasks) out.plan.tasks
      × All (IsLimited mr ml) out.plan.tasks
unfolding build_initial_plan
build_initial_plan-executed planner uuid now conversation_id goal team roles settings s to_lowercase
      persistent ephemeral mp mr ml fuel some_role bounded enough =
    let (seeds, e) =
      initial_seeds-total planner.to_lowercase roles goal (work_cap team) some_role in
    let d =
      initial_seeds-IsDraft planner.to_lowercase roles goal (work_cap team) seeds (omega arith) e in
    let assumptions = "User request can be decomposed safely" ∷ [] in
    let risks =
      "Insufficient context may require clarification" ∷ "External dependencies may fail" ∷ [] in
    let (out, runs, covered, blocked, limited) =
      execute_plan_parallel_materialized planner uuid now conversation_id goal team roles settings
        assumptions risks seeds s to_lowercase persistent ephemeral mp mr ml fuel bounded
        (requested_ids-AreDistinct uuid 0 seeds d.numbered)
        (requested_ids-ne-integration uuid 0 seeds d.numbered) enough in
    (
      materialize_plan planner uuid now conversation_id goal team roles settings assumptions risks
          seeds,
      out,
      rw (e, build_initial_plan) refl,
      runs,
      covered,
      blocked,
      limited,
    )
