-- ===== src/Samples.antt =====
-- The settings, the team, the tasks and the plans that the tests and the examples run on.
use rust_ia_micro_agents.Base.{String, Bool, true, false, List, [], ◌∷◌, none, f64_zero}
use rust_ia_micro_agents.Planner.Plan.{TaskState, pending, PlanTask, ExecutionPlan}
use rust_ia_micro_agents.Team.Config.{
  generalist, balanced_fast, standard, TeamConfig, TeamRuntimeSettings,
}
use rust_ia_micro_agents.Team.Subagent.{idle, SubagentState, Subagent}
use rust_ia_micro_agents.Team.Manager.Pool.{TeamManager}
use rust_ia_micro_agents.Execution.Dispatcher.Answers.{Schedule}
use rust_ia_micro_agents.Execution.Artifacts.{accept, ReviewAction}
use rust_ia_micro_agents.Execution.Dispatcher.{Worker, submitted}

abbrev pub small_config : TeamConfig
small_config = record {
  team_size = 2;
  max_parallel_tasks = 2;
  allow_ephemeral_subagents = true;
  max_ephemeral_subagents = 1;
  subagent_mode = generalist;
  subagent_roleset = "researcher" ∷ "verifier" ∷ [];
  subagent_profile_path = none;
  supervisor_review_interval_ms = 5000;
  max_review_loops_per_task = 1;
  max_task_retries = 1;
  plan_max_tasks = 8;
  plan_max_depth = 3;
  require_final_review = true;
  progress_updates_enabled = true;
  progress_update_threshold_ms = 1000;
  performance_policy = balanced_fast;
  planner_aggressiveness = 50;
  max_escalation_tier = standard;
  typing_delay_ms = 0;
}

abbrev pub small_settings : TeamRuntimeSettings
small_settings = record {
  base = small_config;
  principal_skills = record { allowed_skills = "*" ∷ []; denied_skills = [] };
  role_specializations = [];
  subagent_specializations = [];
}

abbrev pub member_with : String → SubagentState → Subagent
member_with i state = record {
  id = i;
  role = "researcher";
  model_route = "fast_text";
  resolved_model = "openrouter/free";
  allowed_skills = "*" ∷ [];
  ephemeral = false;
  state = state;
  current_task_id = none;
  heartbeat_at = 0;
  retries = 0;
  last_review_score = f64_zero;
  last_error = none;
}

abbrev pub team_of : List Subagent → Bool → TeamManager
team_of pool ephemerals = record {
  settings = record small_settings {
    base = record small_config { allow_ephemeral_subagents = ephemerals };
  };
  subagents = pool;
  profiles = [];
  permissions = record { allowed_skills = "*" ∷ []; denied_skills = [] };
  next_ephemeral_id = 1;
  suggested_ephemeral_capacity = 1;
}

abbrev pub task_with : String → List String → TaskState → PlanTask
task_with i dependencies state = record {
  id = i;
  title = "Compare prices";
  description = "Compare the prices of two shops";
  depth = 0;
  dependencies = dependencies;
  acceptance_criteria = [];
  candidate_role = none;
  model_route = none;
  route_key = "fast_text";
  resolved_model = "openrouter/free";
  requires_live_data = false;
  evidence_inputs = [];
  analysis_track = "";
  expected_artifact = "";
  estimated_cost_usd = f64_zero;
  estimated_ms = 1000;
  max_latency_ms = 5000;
  state = state;
  attempts = 0;
  review_loops = 0;
}

abbrev pub plan_of : List PlanTask → ExecutionPlan
plan_of tasks = record {
  id = "plan-1";
  conversation_id = 7;
  goal = "Compare prices";
  assumptions = [];
  risks = [];
  tasks = tasks;
  parallelizable_groups = [];
  max_depth = 3;
  created_at = 0;
  updated_at = 0;
}

-- A gathering task and the task that integrates it.
abbrev pub two_tasks : List PlanTask
two_tasks =
    task_with "plan-1:gather" [] pending
    ∷ task_with "plan-1:task-integrate" ("plan-1:gather" ∷ []) pending
    ∷ []

-- A worker whose artifacts are all reviewed with the given action.
abbrev pub worker_reviewed : ReviewAction → Worker
worker_reviewed action = record {
  conversation_id = 7;
  trace_id = "trace";
  execute_task = λ subagent task.
      submitted (record { task_id = task.id; summary = "done"; evidence = []; output = "prices" });
  review_task = λ task artifact. record { action = action; score = f64_zero; notes = "too short" };
  acquired_at = 10;
  started_at = 11;
  released_at = 12;
  duration_ms = 2;
}

abbrev pub one_member : TeamManager
one_member = team_of (member_with "subagent-1" idle ∷ []) false

-- Each task meets the idle member, and its artifact is accepted.
abbrev pub all_accepted : Schedule
all_accepted = record {
  worker = λ n task. worker_reviewed accept;
  team = λ n task. one_member;
  panics = λ n task. false;
}
