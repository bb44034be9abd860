-- ===== src/Execution/Dispatcher/Depletion.antt =====
-- A subagent that failed is not handed out again: `acquire_for_task` takes idle ones only, and no
-- step of a dispatched task makes a failed one idle.
use rust_ia_micro_agents.Base.{
  String, ◌≡◌, refl, false, List, [], ◌∷◌, map, Option, none, some, arith, All, find, DateTime,
}
use rust_ia_micro_agents.Planner.Plan.{PlanTask}
use rust_ia_micro_agents.Team.Subagent.{failed, Subagent}
use rust_ia_micro_agents.Team.Manager.Pool.{TeamManager, is_idle, suits, spawn, acquire_for_task}
use rust_ia_micro_agents.Execution.Artifacts.{TaskExecutionResult}
use rust_ia_micro_agents.Execution.Dispatcher.{Worker, no_subagent, dispatch, run_one_task}

-- Every subagent has failed, and none may be spawned.
pub record IsDepleted (m : TeamManager) : Type 0 where
  pub all_failed : All (λ a. a.state ≡ failed) m.subagents
  pub no_spawn : m.settings.allow_ephemeral_subagents ≡ false

none-suits :
    (preferred : Option String) (pool : List Subagent)
    → All (λ a. a.state ≡ failed) pool
    → find (suits preferred) pool ≡ none
unfolding suits is_idle
none-suits preferred [] h = refl
none-suits none (a ∷ rest) h = ground (arith, h.0, none-suits none rest h.1)
none-suits (some role) (a ∷ rest) h = ground (arith, h.0, none-suits (some role) rest h.1)

acquire_depleted :
    (now : DateTime) (task_id : String) (preferred : Option String) (m : TeamManager)
    → IsDepleted m
    → acquire_for_task now task_id preferred m ≡ (none, m)
unfolding acquire_for_task spawn
acquire_depleted now task_id preferred m d =
    rw (none-suits preferred m.subagents d.all_failed, acquire_for_task) (rw d.no_spawn refl)

-- The tasks one after another, over the team that the last one left.
unfoldable pub run_tasks :
    List (Worker × PlanTask) → TeamManager → List TaskExecutionResult × TeamManager
run_tasks [] team = ([], team)
run_tasks ((w, task) ∷ rest) team =
    let d = run_one_task w team task in
    let (results, team') = run_tasks rest d.team in (d.result ∷ results, team')

run_one_task_depleted :
    (w : Worker) (task : PlanTask) (m : TeamManager)
    → IsDepleted m
    → run_one_task w m task ≡ record { result = no_subagent task; team = m; events = [] }
unfolding run_one_task dispatch
run_one_task_depleted w task m d =
    rw (acquire_depleted w.acquired_at task.id task.candidate_role m d, run_one_task) refl

-- Once every subagent has failed and none may be spawned, no task is ever run again: each of any
-- sequence of tasks gets the answer that no subagent is available, and the team stays as it is.
pub run_tasks_depleted :
    (tasks : List (Worker × PlanTask)) (m : TeamManager)
    → IsDepleted m
    → run_tasks tasks m ≡ (map (λ p. no_subagent p.1) tasks, m)
unfolding run_tasks
run_tasks_depleted [] m d = refl
run_tasks_depleted ((w, task) ∷ rest) m d =
    rw (run_one_task_depleted w task m d, run_tasks_depleted rest m d) refl
