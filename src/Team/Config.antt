-- ===== src/Team/Config.antt =====
-- src/team/config.rs: the team's settings, their validation and their normalisation.
pub mod Limits
use rust_ia_micro_agents.Base.{
  ℕ, max, String, Bool, true, false, ◌||◌, List, [], ◌∷◌, Option, is_empty, if◌then◌else◌, ltb,
  ◌==◌, saturating_add, usize_max,
}
use rust_ia_micro_agents.Base.Maps.{HashMap}
use rust_ia_micro_agents.Errors.{AppResult, ok, err, config, ◌>>=◌, ◌>>◌}

pub data SubagentMode : Type 0 where
  generalist specialist : SubagentMode

pub data PerformancePolicy : Type 0 where
  fast balanced_fast max_quality : PerformancePolicy

pub data EscalationTier : Type 0 where
  conservative standard aggressive : EscalationTier

pub record IdentityPermissions : Type 0 where
  pub allowed_skills : List String
  pub denied_skills : List String

pub record TeamConfig : Type 0 where
  pub team_size : ℕ
  pub max_parallel_tasks : ℕ
  pub allow_ephemeral_subagents : Bool
  pub max_ephemeral_subagents : ℕ
  pub subagent_mode : SubagentMode
  pub subagent_roleset : List String
  pub subagent_profile_path : Option String
  pub supervisor_review_interval_ms : ℕ
  pub max_review_loops_per_task : ℕ
  pub max_task_retries : ℕ
  pub plan_max_tasks : ℕ
  pub plan_max_depth : ℕ
  pub require_final_review : Bool
  pub progress_updates_enabled : Bool
  pub progress_update_threshold_ms : ℕ
  pub performance_policy : PerformancePolicy
  pub planner_aggressiveness : ℕ
  pub max_escalation_tier : EscalationTier
  pub typing_delay_ms : ℕ

pub record PrincipalSkillConfig : Type 0 where
  pub allowed_skills : List String
  pub denied_skills : List String

pub record RoleSpecialization : Type 0 where
  pub allowed_skills : List String
  pub model_route : Option String

pub record SubagentSpecialization : Type 0 where
  pub role : Option String
  pub allowed_skills : List String
  pub model_route : Option String

-- The runtime settings are the configuration's fields and three more.
pub record TeamRuntimeSettings : Type 0 where
  pub base : TeamConfig
  pub open base use *
  pub principal_skills : PrincipalSkillConfig
  pub role_specializations : HashMap RoleSpecialization
  pub subagent_specializations : HashMap SubagentSpecialization

abbrev check : Bool → String → AppResult (Unit {0})
check true message = err (config message)
check false message = ok tt

unfoldable pub max_capacity : TeamConfig → ℕ
max_capacity cfg =
    if cfg.allow_ephemeral_subagents
    then max (saturating_add usize_max cfg.team_size cfg.max_ephemeral_subagents) cfg.team_size
    else cfg.team_size

-- `TeamConfig::validate`.
unfoldable pub validate : TeamConfig → AppResult (Unit {0})
validate cfg = do
  check (cfg.team_size == 0) "FERRUM_TEAM_SIZE must be >= 1"
  check (cfg.max_parallel_tasks == 0) "FERRUM_MAX_PARALLEL_TASKS must be >= 1"
  check (ltb (max_capacity cfg) cfg.max_parallel_tasks)
      "FERRUM_MAX_PARALLEL_TASKS exceeds available persistent + ephemeral capacity"
  check (cfg.max_review_loops_per_task == 0 || cfg.max_task_retries == 0)
      "review loops and task retries must be >= 1"
  check (cfg.plan_max_tasks == 0 || cfg.plan_max_depth == 0) "plan limits must be >= 1"
  check (ltb 100 cfg.planner_aggressiveness)
      "FERRUM_PLANNER_AGGRESSIVENESS must be between 0 and 100"

unfoldable pub normalized_for_automatic_assignment : TeamRuntimeSettings → TeamRuntimeSettings
normalized_for_automatic_assignment s = record s {
  principal_skills = record { allowed_skills = "*" ∷ []; denied_skills = [] };
  role_specializations = [];
  subagent_specializations = [];
}

unfoldable pub from_bootstrap : TeamConfig → TeamRuntimeSettings
from_bootstrap cfg = normalized_for_automatic_assignment (record {
  base = cfg;
  principal_skills = record { allowed_skills = "*" ∷ []; denied_skills = [] };
  role_specializations = [];
  subagent_specializations = [];
})

unfoldable pub as_team_config : TeamRuntimeSettings → TeamConfig
as_team_config s = s.base

-- `TeamRuntimeSettings::validate`.
unfoldable pub validate_settings : TeamRuntimeSettings → AppResult (Unit {0})
validate_settings s = do
  validate (as_team_config s)
  check (is_empty s.principal_skills.allowed_skills) "principal skill set cannot be empty"
  check (is_empty s.subagent_roleset) "subagent roleset cannot be empty"

unfoldable pub effective_permissions :
    TeamRuntimeSettings → IdentityPermissions → IdentityPermissions
effective_permissions s defaults = record { allowed_skills = "*" ∷ []; denied_skills = [] }
