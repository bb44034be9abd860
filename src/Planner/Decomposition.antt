-- ===== src/Planner/Decomposition.antt =====
-- src/planner/decomposition.rs, the plans of a goal and of a planner model's answer, and
-- src/llm/response_types.rs, the shape of that answer.
pub mod Numbers
pub mod Drafts
pub mod Closed
use rust_ia_micro_agents.Base.{
  ℕ, ◌-◌, max, String, str_eq, Bool, not, ◌&&◌, ◌||◌, List, [], ◌∷◌, map, Option, none, some, any,
  filter, is_empty, length, ltb, if◌then◌else◌, or_else, F64, DateTime,
}
use rust_ia_micro_agents.Base.Rows.{take}
use rust_ia_micro_agents.Base.Text.{trimmed}
use rust_ia_micro_agents.Llm.Broker.{ModelMetadata, ModelRoutes}
use rust_ia_micro_agents.Planner.Plan.{PlanTask, ExecutionPlan}
use rust_ia_micro_agents.Planner.Materialize.{PlanSeed, Planner, materialize_plan}
use rust_ia_micro_agents.Planner.Routes.{resolve_task_model_selection}
use rust_ia_micro_agents.Planner.Goals.{is_integration_task_id, split_goal, chunk_seeds}
use rust_ia_micro_agents.Planner.Comparison.{build_comparison_seeds}
use rust_ia_micro_agents.Planner.Analysis.{build_structured_analysis_seeds}
use rust_ia_micro_agents.Team.Config.{TeamConfig, TeamRuntimeSettings}

pub record LlmPlanTask : Type 0 where
  pub id : String
  pub title : String
  pub description : String
  pub dependencies : List String
  pub acceptance_criteria : List String
  pub candidate_role : Option String
  pub model_route : Option String
  pub requires_live_data : Bool
  pub evidence_inputs : List String
  pub analysis_track : String
  pub expected_artifact : String
  pub estimated_cost_usd : F64
  pub estimated_ms : ℕ

pub record ExecutionPlanContract : Type 0 where
  pub goal : String
  pub assumptions : List String
  pub risks : List String
  pub tasks : List LlmPlanTask
  pub parallelizable_groups : List (List String)

-- What the planner asks of libraries: Unicode's lower case, the maximum of a cost and `0.0`, and
-- petgraph's levels.
pub record Libraries : Type 0 where
  pub to_lowercase : String → String
  pub at_least_free : F64 → F64
  pub topological_levels : List PlanTask → List (List String)

-- The planner of an identity's routes and time limit, the settings and a catalogue of models.
unfoldable pub planner_for :
    Libraries → ModelRoutes → ℕ → TeamRuntimeSettings → List ModelMetadata → Planner
planner_for libraries routes timeout_ms settings model_catalog = record {
  to_lowercase = libraries.to_lowercase;
  at_least_free = libraries.at_least_free;
  topological_levels = libraries.topological_levels;
  resolve_task_model_selection =
      resolve_task_model_selection libraries.to_lowercase libraries.at_least_free routes timeout_ms
        settings model_catalog;
}

abbrev pub work_cap : TeamConfig → ℕ
work_cap team = max (team.plan_max_tasks - 1) 1

-- The drafts of a goal that neither compares nor lists. `none` is the panic of `idx % roles.len()`
-- where there are no roles: a goal has a chunk always.
unfoldable pub build_chunk_seeds : List String → String → ℕ → Option (List PlanSeed)
build_chunk_seeds [] goal cap = none
build_chunk_seeds (role ∷ roles) goal cap =
    some (chunk_seeds (role ∷ roles) 0 (split_goal goal cap))

unfoldable pub initial_seeds : (String → String) → List String → String → ℕ → Option (List PlanSeed)
initial_seeds to_lowercase roles goal cap =
    or_else
      (or_else (build_comparison_seeds to_lowercase goal cap)
        (build_structured_analysis_seeds to_lowercase goal cap))
      (build_chunk_seeds roles goal cap)

-- The drafts that a contract's tasks give: blank ones and integration tasks are left out.
unfoldable pub is_work : LlmPlanTask → Bool
is_work task = not (str_eq (trimmed task.description) "") && not (is_integration_task_id task.id)

unfoldable pub seed_of : LlmPlanTask → PlanSeed
seed_of task = record {
  id = some task.id;
  title = task.title;
  description = task.description;
  dependencies = task.dependencies;
  acceptance_criteria = task.acceptance_criteria;
  candidate_role = task.candidate_role;
  requested_model_route = task.model_route;
  expected_artifact = task.expected_artifact;
  estimated_cost_usd = task.estimated_cost_usd;
  estimated_ms = task.estimated_ms;
}

unfoldable pub contract_seeds : TeamConfig → ExecutionPlanContract → List PlanSeed
unfolding is_work seed_of
contract_seeds team contract = map seed_of (take (work_cap team) (filter is_work contract.tasks))

-- The fresh identifier and the clock's reading are arguments.
module _ (planner : Planner) (uuid : String) (now : DateTime) (conversation_id : ℕ) (goal : String)
    (team : TeamConfig) (roles : List String) (settings : TeamRuntimeSettings) where
  unfoldable pub build_initial_plan : Option ExecutionPlan
  unfolding initial_seeds build_chunk_seeds
  build_initial_plan = elim (initial_seeds planner.to_lowercase roles goal (work_cap team)) [
    | none ↦ none
    | some seeds ↦ some (
        materialize_plan planner uuid now conversation_id goal team roles settings
          ("User request can be decomposed safely" ∷ [])
          ("Insufficient context may require clarification" ∷ "External dependencies may fail" ∷ [])
          seeds)
  ]

  -- The plan of drafts that are there.
  unfoldable pub plan_of_contract : ExecutionPlanContract → List PlanSeed → ExecutionPlan
  plan_of_contract contract seeds =
      materialize_plan planner uuid now conversation_id
        (if str_eq (trimmed contract.goal) "" then goal else contract.goal) team roles settings
        (if is_empty contract.assumptions
          then "Planner omitted assumptions; using runtime defaults" ∷ []
          else contract.assumptions)
        (if is_empty contract.risks then "Planner omitted explicit risks" ∷ [] else contract.risks)
        seeds

  unfoldable pub build_plan_from_contract : ExecutionPlanContract → Option ExecutionPlan
  unfolding contract_seeds plan_of_contract
  build_plan_from_contract contract =
      let seeds = contract_seeds team contract in
      if is_empty seeds then build_initial_plan else some (plan_of_contract contract seeds)

unfoldable pub plan_is_parallel_worth : ExecutionPlan → Bool
plan_is_parallel_worth plan =
    ltb 1 (length (filter (λ t. not (is_integration_task_id t.id)) plan.tasks))
    || any (λ group. ltb 1 (length group)) plan.parallelizable_groups
