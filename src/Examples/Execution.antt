-- ===== src/Examples/Execution.antt =====
-- The scheduler's and the dispatcher's theorems on plans of one or two tasks.
use rust_ia_micro_agents.Base.{
  ◌↔◌, Any, ◌≡◌, refl, String, false, List, [], ◌∷◌, none, some, All, arith, inl, inr,
}
use rust_ia_micro_agents.Base.Distinct.{AreDistinct}
use rust_ia_micro_agents.Planner.Plan.{TaskState, pending, accepted, completed, PlanTask}
use rust_ia_micro_agents.Planner.Dag.{is_startable, is_done, dependencies_done, ready_task_ids}
use rust_ia_micro_agents.Planner.Dag.Ready.{IsReady, ready_task_ids-iff_IsReady}
use rust_ia_micro_agents.Team.Subagent.{idle}
use rust_ia_micro_agents.Team.Subagent
use rust_ia_micro_agents.Team.Manager.Pool.{
  TeamManager, subagent_id, is_idle, suits, acquire_for_task,
}
use rust_ia_micro_agents.Team.Manager.Invariant.{IsWellFormed}
use rust_ia_micro_agents.Execution.Artifacts.{accept, request_revision}
use rust_ia_micro_agents.Execution.Dispatcher.{
  is_accept, no_subagent, reviewed, run_acquired, dispatch, run_one_task,
}
use rust_ia_micro_agents.Execution.Dispatcher.Answers.{
  IsAnswer, dispatch_all, run_one_task-IsAnswer, dispatch_all-AnswersLaunched,
}
use rust_ia_micro_agents.Execution.Dispatcher.Pool.{rows}
use rust_ia_micro_agents.Execution.Dispatcher.Balance.{spent, run_one_task-rows}
use rust_ia_micro_agents.Execution.Dispatcher.Depletion.{run_tasks, run_tasks_depleted}
use rust_ia_micro_agents.Execution.Dispatcher.Whole.{execute_plan_parallel_dispatched}
use rust_ia_micro_agents.Execution.Scheduler.{
  Outcome, launch, settle_task, settle, is_waiting, promote, is_accepted, ends_with,
  complete_integration, round, run, should_burst_parallel, adaptive_parallel_limit,
  execute_plan_parallel,
}
use rust_ia_micro_agents.Base.Maps.{get, insert, collect}
use rust_ia_micro_agents.Base.Decimal.{to_string}
use rust_ia_micro_agents.Execution.Scheduler.Ids.{ids}
use rust_ia_micro_agents.Execution.Scheduler.Termination.{execute_plan_parallel-total}
use rust_ia_micro_agents.Execution.Scheduler.Duplicates.{
  HasShadowed, execute_plan_parallel_diverges,
}
use rust_ia_micro_agents.Execution.Scheduler.Covered.{IsCovered}
use rust_ia_micro_agents.Execution.Scheduler.Dependencies.{
  IsBlocked, execute_plan_parallel-IsCovered, execute_plan_parallel-IsBlocked,
}
use rust_ia_micro_agents.Execution.Scheduler.Limits.{IsLimited}
use rust_ia_micro_agents.Samples.{
  one_member, all_accepted, member_with, team_of, task_with, plan_of, two_tasks, worker_reviewed,
}

abbrev kept_text : String → String
kept_text s = s

abbrev gather : PlanTask
gather = task_with "plan-1:gather" [] pending

two_tasks-AreDistinct : AreDistinct (ids two_tasks)
two_tasks-AreDistinct = ((refl, tt), (tt, tt))

two_tasks-IsCovered : All (IsCovered two_tasks) two_tasks
two_tasks-IsCovered = (λ h. refl, ((λ h. cc), tt))

two_tasks-IsLimited : All (IsLimited 1 1) two_tasks
two_tasks-IsLimited = (
  record { tries = omega arith; loops = omega arith; spare = λ h. omega arith },
  (record { tries = omega arith; loops = omega arith; spare = λ h. omega arith }, tt),
)

ready_task_ids_test : ready_task_ids two_tasks ≡ "plan-1:gather" ∷ []
unfolding ready_task_ids is_startable dependencies_done is_done get collect insert
ready_task_ids_test = refl

ready_task_ids-iff_IsReady_example :
    Any (λ j. j ≡ "plan-1:gather") (ready_task_ids two_tasks) ↔ IsReady two_tasks "plan-1:gather"
ready_task_ids-iff_IsReady_example = ready_task_ids-iff_IsReady two_tasks "plan-1:gather"

execute_plan_parallel-total_example :
    (out : Outcome) × (execute_plan_parallel
        (dispatch_all all_accepted)
        kept_text
        1
        0
        2
        1
        1
        7
        (plan_of two_tasks)
      ≡ some out)
execute_plan_parallel-total_example =
    execute_plan_parallel-total (dispatch_all all_accepted) kept_text 1 0 2 1 1 7
      (plan_of two_tasks) (omega arith) two_tasks-AreDistinct (omega arith)

execute_plan_parallel_dispatched_example :
    (out : Outcome) × (execute_plan_parallel
        (dispatch_all all_accepted)
        kept_text
        1
        0
        2
        1
        1
        7
        (plan_of two_tasks)
      ≡ some out)
    × All (IsCovered out.plan.tasks) out.plan.tasks
    × All (IsBlocked out.plan.tasks) out.plan.tasks
    × All (IsLimited 1 1) out.plan.tasks
execute_plan_parallel_dispatched_example =
    execute_plan_parallel_dispatched all_accepted kept_text 1 0 2 1 1 7 (plan_of two_tasks)
      (omega arith) two_tasks-AreDistinct two_tasks-IsCovered two_tasks-IsLimited (omega arith)

-- Both tasks are accepted, and the one that integrates is completed.
abbrev two_tasks_after : List PlanTask
two_tasks_after =
    record gather { state = accepted; attempts = 1 }
    ∷ record (task_with "plan-1:task-integrate" ("plan-1:gather" ∷ []) completed) { attempts = 1 }
    ∷ []

abbrev two_tasks_outcome : Outcome
two_tasks_outcome = record {
  plan = plan_of two_tasks_after;
  task_results =
      ("plan-1:gather", (run_one_task (worker_reviewed accept) one_member gather).result)
      ∷ (
        "plan-1:task-integrate",
        (run_one_task (worker_reviewed accept) one_member
            (task_with "plan-1:task-integrate" ("plan-1:gather" ∷ []) TaskState.ready)).result,
      )
      ∷ [];
  batches =
      record { task_ids = "plan-1:gather" ∷ []; width = 1; parallel_limit = 2 }
      ∷ record { task_ids = "plan-1:task-integrate" ∷ []; width = 1; parallel_limit = 2 }
      ∷ [];
}

two_tasks_run :
    execute_plan_parallel (dispatch_all all_accepted) kept_text 1 0 2 1 1 7 (plan_of two_tasks)
    ≡ some two_tasks_outcome
unfolding execute_plan_parallel dispatch_all run_one_task run ready_task_ids is_startable
    dependencies_done round promote settle launch is_done get collect insert dispatch
    acquire_for_task suits is_idle run_acquired reviewed is_accept settle_task is_waiting
    complete_integration ends_with is_accepted adaptive_parallel_limit should_burst_parallel
two_tasks_run = refl

execute_plan_parallel-IsCovered_example : All (IsCovered two_tasks_after) two_tasks_after
execute_plan_parallel-IsCovered_example =
    execute_plan_parallel-IsCovered (dispatch_all all_accepted) kept_text 1 0 2 1 1 7
      (plan_of two_tasks) two_tasks_outcome (dispatch_all-AnswersLaunched all_accepted)
      two_tasks-AreDistinct two_tasks-IsCovered two_tasks_run

execute_plan_parallel-IsBlocked_example : All (IsBlocked two_tasks_after) two_tasks_after
execute_plan_parallel-IsBlocked_example =
    execute_plan_parallel-IsBlocked (dispatch_all all_accepted) kept_text 1 0 2 1 1 7
      (plan_of two_tasks) two_tasks_outcome (dispatch_all-AnswersLaunched all_accepted)
      two_tasks-AreDistinct two_tasks-IsCovered two_tasks_run

-- `Task 1` and `task-1` are both sanitised to `task-1`.
abbrev twins : List PlanTask
twins = task_with "plan-1:task-1" [] pending ∷ task_with "plan-1:task-1" [] pending ∷ []

twins-HasShadowed : HasShadowed [] twins
unfolding is_startable
twins-HasShadowed = inr (inl (refl, refl, refl))

execute_plan_parallel_diverges_example :
    execute_plan_parallel (dispatch_all all_accepted) kept_text 1 0 2 1 1 1000 (plan_of twins)
    ≡ none
execute_plan_parallel_diverges_example =
    execute_plan_parallel_diverges (dispatch_all all_accepted) kept_text 1 0 2 1 1 1000
      (plan_of twins) twins-HasShadowed

run_one_task-IsAnswer_example :
    IsAnswer
      (worker_reviewed accept)
      gather
      (acquire_for_task 10 gather.id gather.candidate_role one_member).0
      (run_one_task (worker_reviewed accept) one_member gather).result
run_one_task-IsAnswer_example = run_one_task-IsAnswer (worker_reviewed accept) one_member gather

one_member-IsWellFormed : IsWellFormed one_member
unfolding subagent_id to_string
one_member-IsWellFormed = record {
  distinct = (tt, tt);
  members = (record { number = 1; named = refl; below = λ h. cc; free = λ h. (refl, refl) }, tt);
}

run_one_task-rows_example :
    let d = run_one_task (worker_reviewed request_revision) one_member gather in
    rows d.team.subagents ≡ rows (spent d.result one_member.subagents)
run_one_task-rows_example =
    run_one_task-rows (worker_reviewed request_revision) one_member gather one_member-IsWellFormed

abbrev exhausted_team : TeamManager
exhausted_team = team_of (member_with "subagent-1" Subagent.failed ∷ []) false

run_tasks_depleted_example :
    run_tasks ((worker_reviewed accept, gather) ∷ []) exhausted_team
    ≡ (no_subagent gather ∷ [], exhausted_team)
run_tasks_depleted_example =
    run_tasks_depleted ((worker_reviewed accept, gather) ∷ []) exhausted_team
      (record { all_failed = (refl, tt); no_spawn = refl })
