-- ===== src/Planner/Materialize.antt =====
-- src/planner/decomposition.rs, `materialize_plan`: the plan of a list of drafted tasks.
pub mod Shape
use rust_ia_micro_agents.Base.{
  ℕ, ◌+◌, ◌-◌, ◌%◌, ◌^◌, min, max, String, str_eq, Bool, true, false, not, ◌&&◌, List, [], ◌∷◌,
  ◌++◌, map, Option, none, some, any, filter, is_empty, length, if◌then◌else◌, unwrap_or, F64,
  DateTime, zero, suc,
}
use rust_ia_micro_agents.Base.Maps.{HashMap, get, collect}
use rust_ia_micro_agents.Base.Text.{append, trimmed}
use rust_ia_micro_agents.Base.Decimal.{to_string}
use rust_ia_micro_agents.Planner.Plan.{TaskState, ready, pending, PlanTask, ExecutionPlan, new}
use rust_ia_micro_agents.Planner.Slugs.{
  integration_task_slug, sanitize_task_id, sanitize_dependency_id, scoped_task_id,
}
use rust_ia_micro_agents.Planner.Hints.{
  resolve_candidate_role, task_requires_live_data, requires_strict_reasoning, infer_evidence_inputs,
  infer_analysis_track,
}
use rust_ia_micro_agents.Team.Config.{TeamConfig, TeamRuntimeSettings}

pub record PlanSeed : Type 0 where
  pub id : Option String
  pub title : String
  pub description : String
  pub dependencies : List String
  pub acceptance_criteria : List String
  pub candidate_role : Option String
  pub requested_model_route : Option String
  pub expected_artifact : String
  pub estimated_cost_usd : F64
  pub estimated_ms : ℕ

-- The route and the model of a task, as `resolve_task_model_selection` returns them.
pub record TaskModel : Type 0 where
  pub model_route : Option String
  pub route_key : String
  pub resolved_model : String
  pub max_latency_ms : ℕ

-- What the planner asks of others: `to_lowercase`, the maximum of a cost and `0.0`, petgraph's
-- levels, and the selection of a model from role, title, description, requested route, cost and
-- duration, for a fixed identity, catalogue and settings.
pub record Planner : Type 0 where
  pub to_lowercase : String → String
  pub at_least_free : F64 → F64
  pub topological_levels : List PlanTask → List (List String)
  pub resolve_task_model_selection :
      Option String → String → String → Option String → F64 → ℕ → TaskModel

-- The bit pattern of `0.01`.
abbrev cent : F64
cent = 4576918229304087675

-- `requested_ids`: the scoped ids of all drafts, by their places.
unfoldable pub requested_id : String → ℕ → PlanSeed → String
requested_id plan_id idx seed =
    scoped_task_id plan_id
      (unwrap_or (sanitize_task_id seed.id idx) (append "task-" (to_string (idx + 1))))

unfoldable pub requested_ids : String → ℕ → List PlanSeed → List String
requested_ids plan_id idx [] = []
requested_ids plan_id idx (seed ∷ seeds) =
    requested_id plan_id idx seed ∷ requested_ids plan_id (idx + 1) seeds

unfoldable pub sanitized : List String → List String
sanitized [] = []
sanitized (raw ∷ raws) = elim (sanitize_dependency_id raw) [
  | none ↦ sanitized raws
  | some dep ↦ dep ∷ sanitized raws
]

abbrev pub is_known : List String → String → String → Bool
is_known valid_ids task_id dep = not (str_eq dep task_id) && any (λ j. str_eq j dep) valid_ids

unfoldable pub seed_dependencies : String → List String → String → PlanSeed → List String
seed_dependencies plan_id valid_ids task_id seed =
    filter (is_known valid_ids task_id) (map (scoped_task_id plan_id) (sanitized seed.dependencies))

module _ (planner : Planner) where
  open planner use {to_lowercase, at_least_free, topological_levels, resolve_task_model_selection}

  module _ (plan_id goal : String) (roles valid_ids : List String) where
    -- The task of one draft, at its place.
    unfoldable pub work_task : ℕ → PlanSeed → PlanTask
    work_task idx seed =
        let task_id = requested_id plan_id idx seed in
        let candidate_role =
          resolve_candidate_role to_lowercase roles seed.candidate_role seed.title seed.description
            idx in
        let selection =
          resolve_task_model_selection candidate_role seed.title seed.description
            seed.requested_model_route (at_least_free seed.estimated_cost_usd)
            (max seed.estimated_ms 250) in
        record {
          id = task_id;
          title =
              if str_eq (trimmed seed.title) ""
              then append "Work package " (to_string (idx + 1))
              else seed.title;
          description = seed.description;
          depth = 1;
          dependencies = seed_dependencies plan_id valid_ids task_id seed;
          acceptance_criteria =
              if is_empty seed.acceptance_criteria
              then "Answer the assigned subproblem" ∷ "Keep output concise and evidence-based" ∷ []
              else seed.acceptance_criteria;
          candidate_role = candidate_role;
          model_route = selection.model_route;
          route_key = selection.route_key;
          resolved_model = selection.resolved_model;
          requires_live_data = task_requires_live_data to_lowercase goal seed.description;
          evidence_inputs = infer_evidence_inputs to_lowercase goal seed.description;
          analysis_track = infer_analysis_track to_lowercase seed.title seed.description;
          expected_artifact =
              if str_eq (trimmed seed.expected_artifact) ""
              then "structured_markdown"
              else seed.expected_artifact;
          estimated_cost_usd = at_least_free seed.estimated_cost_usd;
          estimated_ms = max seed.estimated_ms 250;
          max_latency_ms = selection.max_latency_ms;
          state = ready;
          attempts = 0;
          review_loops = 0;
        }

    -- `seeds.into_iter().take(left).enumerate()`, from place `idx` on.
    unfoldable pub work_tasks : ℕ → ℕ → List PlanSeed → List PlanTask
    work_tasks zero idx seeds = []
    work_tasks (suc left) idx [] = []
    work_tasks (suc left) idx (seed ∷ seeds) = work_task idx seed ∷ work_tasks left (idx + 1) seeds

    abbrev integration_title : String
    integration_title = "Integrate accepted artifacts"

    abbrev integration_description : String
    integration_description = "Merge accepted outputs into final answer"

    -- The last task, which depends on all the others.
    unfoldable pub integration_task : List PlanTask → PlanTask
    integration_task tasks =
        let role =
          resolve_candidate_role to_lowercase roles (some "integrator") integration_title
            integration_description (length tasks) in
        let selection =
          resolve_task_model_selection role integration_title integration_description
            (some (
              if requires_strict_reasoning to_lowercase goal
              then "integrator_complex"
              else "fast_text"))
            cent 1200 in
        record {
          id = scoped_task_id plan_id integration_task_slug;
          title = integration_title;
          description = integration_description;
          depth = 1;
          dependencies = map (λ t. t.id) tasks;
          acceptance_criteria =
              "All mandatory artifacts are represented" ∷ "Final output is coherent and safe" ∷ [];
          candidate_role = role;
          model_route = selection.model_route;
          route_key = selection.route_key;
          resolved_model = selection.resolved_model;
          requires_live_data = task_requires_live_data to_lowercase goal integration_description;
          evidence_inputs = infer_evidence_inputs to_lowercase goal integration_description;
          analysis_track = "integration";
          expected_artifact = "final_answer_draft";
          estimated_cost_usd = cent;
          estimated_ms = 1200;
          max_latency_ms = selection.max_latency_ms;
          state = pending;
          attempts = 0;
          review_loops = 0;
        }

  -- `depth_by_task`: each id of a level with the level's number from one on.
  unfoldable pub depths_from : ℕ → List (List String) → List (String × ℕ)
  depths_from level [] = []
  depths_from level (ids ∷ levels) =
      map (λ i. (i, (level + 1) % 2 ^ 32)) ids ++ depths_from (level + 1) levels

  -- The last loop: depths, and the states by whether there are dependencies.
  unfoldable pub scheduled : ℕ → HashMap ℕ → PlanTask → PlanTask
  scheduled max_depth depth_by_task task = record task {
    depth = min (unwrap_or (get task.id depth_by_task) 1) max_depth;
    state = if is_empty task.dependencies then ready else pending;
  }

  unfoldable pub drafted_tasks :
      String → String → TeamConfig → List String → List PlanSeed → List PlanTask
  drafted_tasks plan_id goal team usable_roles seeds =
      let work =
        work_tasks plan_id goal usable_roles (requested_ids plan_id 0 seeds)
          (max (team.plan_max_tasks - 1) 1) 0 seeds in
      work ++ integration_task plan_id goal usable_roles (requested_ids plan_id 0 seeds) work ∷ []

  -- The fresh identifier and the clock's reading are arguments.
  unfoldable pub materialize_plan :
      String
      → DateTime
      → ℕ
      → String
      → TeamConfig
      → List String
      → TeamRuntimeSettings
      → List String
      → List String
      → List PlanSeed
      → ExecutionPlan
  materialize_plan uuid now conversation_id goal team roles settings assumptions risks seeds =
      let max_depth = team.plan_max_depth % 2 ^ 32 in
      let usable_roles = if is_empty roles then settings.subagent_roleset else roles in
      let drafted = drafted_tasks uuid goal team usable_roles seeds in
      let tasks =
        map (scheduled max_depth (collect [] (depths_from 0 (topological_levels drafted))))
          drafted in
      record (new uuid now conversation_id goal max_depth) {
        tasks = tasks;
        parallelizable_groups = topological_levels tasks;
        assumptions = assumptions;
        risks = risks;
      }
