-- ===== src/Team/Config/Limits.antt =====
-- Validation of the settings of src/team/config.rs.
use rust_ia_micro_agents.Base.{
  max, min, ◌+◌, usize_max, if◌then◌else◌, ◌≤◌, ◌≡◌, ◌↔◌, false, arith, is_empty,
}
use rust_ia_micro_agents.Errors.{ok}
use rust_ia_micro_agents.Team.Config.{
  TeamConfig, TeamRuntimeSettings, max_capacity, validate, normalized_for_automatic_assignment,
  as_team_config, validate_settings,
}

-- At least one member, parallel task, review loop, retry, task and level; no more parallel tasks
-- than members with the ephemeral ones that are allowed; and a percentage.
pub record IsUsable (cfg : TeamConfig) : Type 0 where
  pub some_member : 1 ≤ cfg.team_size
  pub some_parallel : 1 ≤ cfg.max_parallel_tasks
  pub within_capacity :
      cfg.max_parallel_tasks
      ≤ max
          (min
            (cfg.team_size
              + (if cfg.allow_ephemeral_subagents then cfg.max_ephemeral_subagents else 0))
            usize_max)
          cfg.team_size
  pub some_review : 1 ≤ cfg.max_review_loops_per_task
  pub some_retry : 1 ≤ cfg.max_task_retries
  pub some_task : 1 ≤ cfg.plan_max_tasks
  pub some_depth : 1 ≤ cfg.plan_max_depth
  pub percentage : cfg.planner_aggressiveness ≤ 100

validate_sound : (cfg : TeamConfig) → validate cfg ≡ ok tt → IsUsable cfg
unfolding validate max_capacity
validate_sound cfg h = ground arith

validate_complete : (cfg : TeamConfig) → IsUsable cfg → validate cfg ≡ ok tt
unfolding validate max_capacity
validate_complete cfg u = ground arith

-- Settings normalised for automatic assignment are accepted exactly when their configuration is and
-- they name a role.
pub validate_settings-normalized :
    (s : TeamRuntimeSettings)
    → (validate_settings (normalized_for_automatic_assignment s) ≡ ok tt)
      ↔ (IsUsable s.base × (is_empty s.subagent_roleset ≡ false))
unfolding validate_settings normalized_for_automatic_assignment as_team_config
validate_settings-normalized s = (
  λ h. (validate_sound s.base (ground arith), ground arith),
  λ (u, r). ground (arith, validate_complete s.base u),
)
