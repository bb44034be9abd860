-- ===== src/Execution/Artifacts.antt =====
-- src/execution/artifacts.rs, with the types it takes from team/worker.rs and team/reviewer.rs.
use rust_ia_micro_agents.Base.{ℕ, String, Bool, List, Option, F64}

pub record TaskArtifact : Type 0 where
  pub task_id : String
  pub summary : String
  pub evidence : List String
  pub output : String

pub data ReviewAction : Type 0 where
  accept request_revision retry split_task reassign : ReviewAction
  escalate_to_reasoning_model fail_task : ReviewAction

pub record TaskReview : Type 0 where
  pub action : ReviewAction
  pub score : F64
  pub notes : String

pub record TaskExecutionResult : Type 0 where
  pub task_id : String
  pub subagent_id : String
  pub subagent_role : String
  pub ephemeral : Bool
  pub destroyed_on_release : Bool
  pub artifact : Option TaskArtifact
  pub review : Option TaskReview
  pub accepted : Bool
  pub error : Option String
  pub duration_ms : ℕ
  pub attempts : ℕ
