-- ===== src/Planner/Plan.antt =====
-- src/planner/plan.rs: the states of a task, tasks and plans.
use rust_ia_micro_agents.Base.{ℕ, String, Bool, List, [], Option, F64, DateTime}

pub data TaskState : Type 0 where
  pending ready assigned running blocked waiting_review : TaskState
  accepted rejected retrying completed failed cancelled : TaskState

pub record PlanTask : Type 0 where
  pub id : String
  pub title : String
  pub description : String
  pub depth : ℕ
  pub dependencies : List String
  pub acceptance_criteria : List String
  pub candidate_role : Option String
  pub model_route : Option String
  pub route_key : String
  pub resolved_model : String
  pub requires_live_data : Bool
  pub evidence_inputs : List String
  pub analysis_track : String
  pub expected_artifact : String
  pub estimated_cost_usd : F64
  pub estimated_ms : ℕ
  pub max_latency_ms : ℕ
  pub state : TaskState
  pub attempts : ℕ
  pub review_loops : ℕ

pub record ExecutionPlan : Type 0 where
  pub id : String
  pub conversation_id : ℕ
  pub goal : String
  pub assumptions : List String
  pub risks : List String
  pub tasks : List PlanTask
  pub parallelizable_groups : List (List String)
  pub max_depth : ℕ
  pub created_at : DateTime
  pub updated_at : DateTime

-- `ExecutionPlan::new`; the fresh identifier and the clock's reading are arguments.
unfoldable pub new : String → DateTime → ℕ → String → ℕ → ExecutionPlan
new uuid now conversation_id goal max_depth = record {
  id = uuid;
  conversation_id = conversation_id;
  goal = goal;
  assumptions = [];
  risks = [];
  tasks = [];
  parallelizable_groups = [];
  max_depth = max_depth;
  created_at = now;
  updated_at = now;
}
