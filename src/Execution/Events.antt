-- ===== src/Execution/Events.antt =====
-- The payloads of the events that execution/dispatcher.rs publishes, as the fields of their JSON.
use rust_ia_micro_agents.Base.{
  ℕ, zero, suc, String, str_eq, Bool, true, List, [], ◌∷◌, ◌++◌, F64, if◌then◌else◌, is_empty,
  unwrap_or, length,
}
use rust_ia_micro_agents.Base.Text.{codes, trim, split_whitespace, join_spaces}
use rust_ia_micro_agents.Planner.Plan.{PlanTask}
use rust_ia_micro_agents.Team.Subagent.{Subagent}
use rust_ia_micro_agents.Execution.Artifacts.{
  TaskArtifact, TaskReview, ReviewAction, accept, request_revision, retry, split_task, reassign,
  escalate_to_reasoning_model, fail_task,
}

-- A computed text stands as its code points.
pub data Json : Type 0 where
  str : String → Json
  text : List ℕ → Json
  num : ℕ → Json
  float : F64 → Json
  bool : Bool → Json
  strs : List String → Json

pub record Event : Type 0 where
  pub event_type : String
  pub payload : List (String × Json)

-- The loop of `preview_text`: at most `left` characters, then an ellipsis.
unfoldable pub cut : ℕ → List ℕ → List ℕ
cut left [] = []
cut zero (c ∷ cs) = 8230 ∷ []
cut (suc left) (c ∷ cs) = c ∷ cut left cs

unfoldable pub preview_text : String → ℕ → List ℕ
preview_text input max_chars =
    cut max_chars (trim (join_spaces (split_whitespace [] (codes input))))

abbrev prompt_source : PlanTask → String
prompt_source task =
    if is_empty (trim (codes task.description)) then task.title else task.description

abbrev route_of : PlanTask → Subagent → String
route_of task subagent = unwrap_or task.model_route subagent.model_route

abbrev model_of : PlanTask → Subagent → String
model_of task subagent =
    if str_eq task.resolved_model "" then route_of task subagent else task.resolved_model

unfoldable pub action_name : ReviewAction → String
action_name accept = "Accept"
action_name request_revision = "RequestRevision"
action_name retry = "Retry"
action_name split_task = "SplitTask"
action_name reassign = "Reassign"
action_name escalate_to_reasoning_model = "EscalateToReasoningModel"
action_name fail_task = "FailTask"

-- The conversation and the trace that every payload begins with.
module _ (conversation_id : ℕ) (trace_id : String) where
  abbrev event : String → List (String × Json) → Event
  event kind fields = record {
    event_type = kind;
    payload = ("conversation_id", num conversation_id) ∷ ("trace_id", str trace_id) ∷ fields;
  }

  unfoldable pub subagent_spawned : PlanTask → Subagent → Event
  subagent_spawned task subagent = event "subagent_spawned" (
      ("subagent_id", str subagent.id)
      ∷ ("role", str subagent.role)
      ∷ ("ephemeral", bool true)
      ∷ ("task_id", str task.id)
      ∷ ("reason", str "elastic_parallelism")
      ∷ [])

  abbrev task_fields : PlanTask → Subagent → List (String × Json)
  task_fields task subagent =
      ("task_id", str task.id)
      ∷ ("title", str task.title)
      ∷ ("description", text (preview_text task.description 180))
      ∷ ("prompt_preview", text (preview_text (prompt_source task) 180))
      ∷ ("subagent_id", str subagent.id)
      ∷ ("role", str subagent.role)
      ∷ ("route_key", str task.route_key)
      ∷ ("model_route", str (route_of task subagent))
      ∷ ("resolved_model", str (model_of task subagent))
      ∷ ("ephemeral", bool subagent.ephemeral)
      ∷ []

  unfoldable pub task_assigned : PlanTask → Subagent → Event
  task_assigned task subagent =
      event "task_assigned"
        (task_fields task subagent ++ ("dependencies", strs task.dependencies) ∷ [])

  unfoldable pub task_started : PlanTask → Subagent → Event
  task_started task subagent = event "task_started" (task_fields task subagent)

  unfoldable pub task_artifact_submitted : PlanTask → Subagent → TaskArtifact → Event
  task_artifact_submitted task subagent artifact = event "task_artifact_submitted" (
      ("task_id", str task.id)
      ∷ ("subagent_id", str subagent.id)
      ∷ ("role", str subagent.role)
      ∷ ("artifact_summary", text (preview_text artifact.summary 180))
      ∷ ("artifact_output_preview", text (preview_text artifact.output 220))
      ∷ ("evidence_count", num (length artifact.evidence))
      ∷ ("ephemeral", bool subagent.ephemeral)
      ∷ [])

  unfoldable pub task_reviewed : PlanTask → Subagent → TaskReview → Event
  task_reviewed task subagent review = event "task_reviewed" (
      ("task_id", str task.id)
      ∷ ("subagent_id", str subagent.id)
      ∷ ("role", str subagent.role)
      ∷ ("score", float review.score)
      ∷ ("action", str (action_name review.action))
      ∷ ("notes", text (preview_text review.notes 180))
      ∷ ("ephemeral", bool subagent.ephemeral)
      ∷ [])

  unfoldable pub task_decided : Bool → PlanTask → Subagent → TaskArtifact → TaskReview → Event
  task_decided accepted task subagent artifact review =
      event (if accepted then "task_accepted" else "task_rejected") (
        ("task_id", str task.id)
        ∷ ("subagent_id", str subagent.id)
        ∷ ("role", str subagent.role)
        ∷ ("score", float review.score)
        ∷ ("artifact_summary", text (preview_text artifact.summary 180))
        ∷ ("review_notes", text (preview_text review.notes 180))
        ∷ ("ephemeral", bool subagent.ephemeral)
        ∷ [])

  unfoldable pub task_failed : PlanTask → Subagent → String → Event
  task_failed task subagent error = event "task_failed" (
      ("task_id", str task.id)
      ∷ ("subagent_id", str subagent.id)
      ∷ ("role", str subagent.role)
      ∷ ("error", str error)
      ∷ ("ephemeral", bool subagent.ephemeral)
      ∷ [])

  unfoldable pub subagent_destroyed : PlanTask → Subagent → Event
  subagent_destroyed task subagent = event "subagent_destroyed" (
      ("subagent_id", str subagent.id)
      ∷ ("role", str subagent.role)
      ∷ ("task_id", str task.id)
      ∷ ("ephemeral", bool true)
      ∷ [])
