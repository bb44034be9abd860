-- ===== src/Execution/Scheduler.antt =====
-- src/execution/scheduler.rs. The futures of a batch run concurrently; a round sees of them only
-- the results in the order of their completion, which the environment `join` gives: `none` is a
-- future whose join failed. `batches` holds the published `parallel_batch_started` events.
pub mod Ids
pub mod Untouched
pub mod Termination
pub mod Duplicates
pub mod Covered
pub mod Dependencies
pub mod Limits
use rust_ia_micro_agents.Base.{
  ℕ, zero, suc, max, String, str_eq, find?, Bool, true, false, ◌&&◌, ◌||◌, List, [], ◌∷◌, ◌++◌, map,
  Option, none, some, length, is_empty, any, find, update_first, is_some, if◌then◌else◌, ltb, leb,
  saturating_add, u32_max, usize_max,
}
use rust_ia_micro_agents.Base.Maps.{HashMap, insert}
use rust_ia_micro_agents.Planner.Plan.{
  TaskState, pending, ready, running, accepted, retrying, completed, failed, PlanTask,
  ExecutionPlan,
}
use rust_ia_micro_agents.Planner.Dag.{states_of, dependencies_done, ready_task_ids}
use rust_ia_micro_agents.Execution.Artifacts.{TaskExecutionResult}

pub record Batch : Type 0 where
  pub task_ids : List String
  pub width : ℕ
  pub parallel_limit : ℕ

pub record RunState : Type 0 where
  pub tasks : List PlanTask
  pub results : HashMap TaskExecutionResult
  pub batches : List Batch

-- The results of the tasks launched in a round, given the round's number.
abbrev pub Join : Type 0
Join = ℕ → List PlanTask → List (Option TaskExecutionResult)

-- The first loop of a round: each ready task is cloned for its future and marked running.
unfoldable pub launch : List String → List PlanTask → List PlanTask × List PlanTask
launch [] tasks = ([], tasks)
launch (task_id ∷ ids) tasks = elim (find (λ t. str_eq t.id task_id) tasks) [
  | none ↦ launch ids tasks
  | some task ↦
      let (launched, rest) =
        launch ids
          (update_first (λ t. str_eq t.id task_id) (λ t. record t { state = running }) tasks) in
      (task ∷ launched, rest)
]

unfoldable pub settle_task : ℕ → ℕ → TaskExecutionResult → PlanTask → PlanTask
settle_task max_retries max_review_loops result task =
    if result.accepted
    then record task { attempts = result.attempts; state = accepted }
    else if leb result.attempts max_retries && ltb task.review_loops max_review_loops
    then record task {
      attempts = result.attempts;
      state = retrying;
      review_loops = saturating_add u32_max task.review_loops 1;
    }
    else record task { attempts = result.attempts; state = failed }

module _ (max_retries max_review_loops : ℕ) where
  -- The second loop: `while let Some(joined) = futures.next().await`.
  unfoldable pub settle :
      List (Option TaskExecutionResult)
      → List PlanTask
      → HashMap TaskExecutionResult
      → List PlanTask × HashMap TaskExecutionResult
  settle [] tasks results = (tasks, results)
  settle (none ∷ joined) tasks results = settle joined tasks results
  settle (some result ∷ joined) tasks results =
      settle joined
        (update_first (λ t. str_eq t.id result.task_id)
          (settle_task max_retries max_review_loops result) tasks)
        (insert result.task_id result results)

-- `matches!(state, Pending | Retrying)`.
unfoldable pub is_waiting : TaskState → Bool
is_waiting pending = true
is_waiting retrying = true
is_waiting _ = false

-- The third loop, over a snapshot of the states: a waiting task whose dependencies are done is ready.
unfoldable pub promote : HashMap TaskState → List PlanTask → List PlanTask
promote snapshot [] = []
promote snapshot (task ∷ tasks) =
    (if is_waiting task.state && dependencies_done snapshot task
      then record task { state = ready }
      else task)
    ∷ promote snapshot tasks

unfoldable pub is_accepted : TaskState → Bool
is_accepted accepted = true
is_accepted _ = false

unfoldable pub ends_with : String → String → Bool
ends_with String.[] suffix = str_eq String.[] suffix
ends_with (String.◌∷◌ c s) suffix = str_eq (String.◌∷◌ c s) suffix || ends_with s suffix

-- After the loop: an accepted integration task is completed.
unfoldable pub complete_integration : List PlanTask → List PlanTask
complete_integration [] = []
complete_integration (task ∷ tasks) =
    (if ends_with task.id ":task-integrate" && is_accepted task.state
      then record task { state = completed }
      else task)
    ∷ complete_integration tasks

module _ (join : Join) (limit max_retries max_review_loops : ℕ) where
  -- The body of the `loop` behind its test for an empty batch.
  unfoldable pub round : ℕ → RunState → RunState
  round n s =
      let ready_ids = ready_task_ids s.tasks in
      let (launched, running_tasks) = launch ready_ids s.tasks in
      let (settled, results) =
        settle max_retries max_review_loops (join n launched) running_tasks s.results in
      record {
        tasks = promote (states_of settled) settled;
        results = results;
        batches =
            s.batches
            ++ record { task_ids = ready_ids; width = length ready_ids; parallel_limit = limit }
              ∷ [];
      }

  -- The `loop`; `none` when the fuel runs out.
  unfoldable pub run : ℕ → ℕ → RunState → Option RunState
  run zero n s = none
  run (suc fuel) n s = elim (is_empty (ready_task_ids s.tasks)) [
    | true ↦ some s
    | false ↦ run fuel (suc n) (round n s)
  ]

abbrev burst_markers : List String
burst_markers =
    "muchos subagentes" ∷ "varios subagentes" ∷ "subtareas paralelas" ∷ "parallel workstreams"
    ∷ "parallel workstream" ∷ "parallel tracks" ∷ "paralelas" ∷ []

-- `to_lowercase` is the standard library's Unicode lower case.
unfoldable pub should_burst_parallel : (String → String) → ExecutionPlan → Bool
should_burst_parallel to_lowercase plan =
    any (λ needle. is_some (find? (to_lowercase plan.goal) needle)) burst_markers
    && leb 6 (length plan.tasks)

-- The number of permits of the semaphore.
unfoldable pub adaptive_parallel_limit : Bool → ℕ → ℕ → ℕ → ℕ
adaptive_parallel_limit burst max_parallel persistent_count effective_ephemeral_capacity =
    if burst
    then max
        (max max_parallel (saturating_add usize_max persistent_count effective_ephemeral_capacity))
        1
    else max max_parallel 1

-- What `execute_plan_parallel` returns, with the published batches.
pub record Outcome : Type 0 where
  pub plan : ExecutionPlan
  pub task_results : HashMap TaskExecutionResult
  pub batches : List Batch

abbrev pub initial : ExecutionPlan → RunState
initial plan = record { tasks = plan.tasks; results = []; batches = [] }

abbrev pub finish : ExecutionPlan → RunState → Outcome
finish plan s = record {
  plan = record plan { tasks = complete_integration s.tasks };
  task_results = s.results;
  batches = s.batches;
}

unfoldable pub execute_plan_parallel :
    Join → (String → String) → ℕ → ℕ → ℕ → ℕ → ℕ → ℕ → ExecutionPlan → Option Outcome
execute_plan_parallel join to_lowercase persistent_count effective_ephemeral_capacity max_parallel
      max_retries max_review_loops fuel plan =
    elim (run join
      (adaptive_parallel_limit (should_burst_parallel to_lowercase plan) max_parallel
        persistent_count effective_ephemeral_capacity)
      max_retries max_review_loops fuel 0 (initial plan)) [
        | none ↦ none
        | some s ↦ some (finish plan s)
      ]
