-- ===== src/Team/Subagent.antt =====
-- src/team/subagent.rs and the profile record of src/team/roles.rs.
use rust_ia_micro_agents.Base.{ℕ, String, Bool, List, Option, F64, DateTime}

pub data SubagentState : Type 0 where
  idle assigned running waiting_review paused failed : SubagentState

pub record Subagent : Type 0 where
  pub id : String
  pub role : String
  pub model_route : String
  pub resolved_model : String
  pub allowed_skills : List String
  pub ephemeral : Bool
  pub state : SubagentState
  pub current_task_id : Option String
  pub heartbeat_at : DateTime
  pub retries : ℕ
  pub last_review_score : F64
  pub last_error : Option String

pub record RoleProfile : Type 0 where
  pub role : String
  pub model_route : Option String
  pub allowed_skills : Option (List String)
  pub prompt_overlay : Option String
