-- ===== src/Execution/Dispatcher.antt =====
-- src/execution/dispatcher.rs: one task, from the acquisition of a subagent to its release. What
-- the language model makes of the task and of its artifact, and the clock, are the environment's.
pub mod Answers
pub mod Pool
pub mod Balance
pub mod Depletion
pub mod Whole
use rust_ia_micro_agents.Base.{
  ℕ, String, Bool, true, false, List, [], ◌∷◌, ◌++◌, Option, none, some, if◌then◌else◌, F64,
  f64_zero, DateTime, saturating_add, u32_max,
}
use rust_ia_micro_agents.Planner.Plan.{PlanTask}
use rust_ia_micro_agents.Team.Subagent.{Subagent}
use rust_ia_micro_agents.Team.Manager.Pool.{
  TeamManager, AcquiredSubagent, ReleaseOutcome, acquire_for_task, mark_running, release,
}
use rust_ia_micro_agents.Execution.Artifacts.{
  TaskArtifact, TaskReview, ReviewAction, accept, TaskExecutionResult,
}
use rust_ia_micro_agents.Execution.Events.{
  Event, subagent_spawned, task_assigned, task_started, task_artifact_submitted, task_reviewed,
  task_decided, task_failed, subagent_destroyed,
}

-- `Result<TaskArtifact, String>`.
pub data Executed : Type 0 where
  submitted : TaskArtifact → Executed
  refused : String → Executed

-- The answers of `execute_task` and `review_task`, the readings of the clock at the acquisition,
-- the start and the release, and the elapsed milliseconds.
pub record Worker : Type 0 where
  pub conversation_id : ℕ
  pub trace_id : String
  pub execute_task : Subagent → PlanTask → Executed
  pub review_task : PlanTask → TaskArtifact → TaskReview
  pub acquired_at : DateTime
  pub started_at : DateTime
  pub released_at : DateTime
  pub duration_ms : ℕ

pub record Dispatch : Type 0 where
  pub result : TaskExecutionResult
  pub team : TeamManager
  pub events : List Event

unfoldable pub is_accept : ReviewAction → Bool
is_accept accept = true
is_accept _ = false

unfoldable pub no_subagent : PlanTask → TaskExecutionResult
no_subagent task = record {
  task_id = task.id;
  subagent_id = "none";
  subagent_role = "none";
  ephemeral = false;
  destroyed_on_release = false;
  artifact = none;
  review = none;
  accepted = false;
  error = some "no subagent available";
  duration_ms = 0;
  attempts = task.attempts;
}

module _ (w : Worker) where
  open w use {conversation_id, trace_id, released_at}

  -- The event of a release that destroyed its subagent.
  abbrev destroyed_events : PlanTask → Option ReleaseOutcome → List Event
  destroyed_events task none = []
  destroyed_events task (some outcome) =
      if outcome.destroyed
      then subagent_destroyed conversation_id trace_id task outcome.subagent ∷ []
      else []

  -- The `Ok(artifact)` arm.
  unfoldable pub reviewed :
      PlanTask → AcquiredSubagent → TaskArtifact → TeamManager → List Event → Dispatch
  reviewed task acquired artifact team events =
      let subagent = acquired.subagent in
      let review = w.review_task task artifact in
      let accepted = is_accept review.action in
      let (outcome, team') =
        release released_at subagent.id review.score (if accepted then none else some review.notes)
          team in
      record {
        result = record {
          task_id = task.id;
          subagent_id = subagent.id;
          subagent_role = subagent.role;
          ephemeral = subagent.ephemeral;
          destroyed_on_release = acquired.spawned;
          artifact = some artifact;
          review = some review;
          accepted = accepted;
          error = none;
          duration_ms = w.duration_ms;
          attempts = saturating_add u32_max task.attempts 1;
        };
        team = team';
        events =
            events
            ++ (task_artifact_submitted conversation_id trace_id task subagent artifact
                ∷ task_reviewed conversation_id trace_id task subagent review
                ∷ task_decided conversation_id trace_id accepted task subagent artifact review
                ∷ destroyed_events task outcome);
      }

  -- The `Err(err)` arm.
  unfoldable pub errored :
      PlanTask → AcquiredSubagent → String → TeamManager → List Event → Dispatch
  errored task acquired error team events =
      let subagent = acquired.subagent in
      let (outcome, team') = release released_at subagent.id f64_zero (some error) team in
      record {
        result = record {
          task_id = task.id;
          subagent_id = subagent.id;
          subagent_role = subagent.role;
          ephemeral = subagent.ephemeral;
          destroyed_on_release = acquired.spawned;
          artifact = none;
          review = none;
          accepted = false;
          error = some error;
          duration_ms = w.duration_ms;
          attempts = saturating_add u32_max task.attempts 1;
        };
        team = team';
        events =
            events
            ++ (task_failed conversation_id trace_id task subagent error
                ∷ destroyed_events task outcome);
      }

  -- The part of `run_one_task` behind a successful acquisition.
  unfoldable pub run_acquired : PlanTask → AcquiredSubagent → TeamManager → Dispatch
  run_acquired task acquired team =
      let subagent = acquired.subagent in
      let team' = mark_running w.started_at subagent.id team in
      let events =
        (if acquired.spawned
          then subagent_spawned conversation_id trace_id task subagent ∷ []
          else [])
        ++ (task_assigned conversation_id trace_id task subagent
            ∷ task_started conversation_id trace_id task subagent
            ∷ []) in
      elim (w.execute_task subagent task) [
        | submitted artifact ↦ reviewed task acquired artifact team' events
        | refused error ↦ errored task acquired error team' events
      ]

  -- By what the acquisition gave.
  unfoldable pub dispatch : PlanTask → Option AcquiredSubagent × TeamManager → Dispatch
  dispatch task (none, team) = record { result = no_subagent task; team = team; events = [] }
  dispatch task (some acquired, team) = run_acquired task acquired team

  unfoldable pub run_one_task : TeamManager → PlanTask → Dispatch
  run_one_task team task =
      dispatch task (acquire_for_task w.acquired_at task.id task.candidate_role team)
