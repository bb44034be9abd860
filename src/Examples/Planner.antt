-- ===== src/Examples/Planner.antt =====
-- The planner's identifiers and plans, and the theorems on them, for a few drafts.
use rust_ia_micro_agents.Base.{
  ◌+◌, ◌-◌, min, max, String, ◌≡◌, ◌↔◌, true, refl, List, [], ◌∷◌, ◌++◌, map, some, none, arith,
  All, length, f64_zero,
}
use rust_ia_micro_agents.Base.Distinct.{IsFresh, AreDistinct}
use rust_ia_micro_agents.Base.Text.{is_whitespace, codes_lt}
use rust_ia_micro_agents.Base.Maps.{get, insert, collect}
use rust_ia_micro_agents.Base.Decimal.{to_string}
use rust_ia_micro_agents.Planner.Plan.{pending, PlanTask}
use rust_ia_micro_agents.Planner.Slugs.{
  integration_task_slug, dashed, cleaned, sanitize_task_id, sanitize_dependency_id, scoped_task_id,
}
use rust_ia_micro_agents.Planner.Materialize.{
  PlanSeed, Planner, requested_id, requested_ids, sanitized, seed_dependencies, work_task,
  work_tasks, integration_task, scheduled, drafted_tasks, materialize_plan,
}
use rust_ia_micro_agents.Planner.Materialize.Shape.{
  IsKnownOnly, length-materialize_plan, materialize_plan-IsKnownOnly,
}
use rust_ia_micro_agents.Execution.Scheduler.{Outcome, execute_plan_parallel}
use rust_ia_micro_agents.Execution.Scheduler.Covered.{IsCovered}
use rust_ia_micro_agents.Execution.Scheduler.Dependencies.{IsBlocked}
use rust_ia_micro_agents.Execution.Scheduler.Limits.{IsLimited}
use rust_ia_micro_agents.Execution.Dispatcher.Answers.{dispatch_all}
use rust_ia_micro_agents.Execution.Planned.{execute_plan_parallel_materialized}
use rust_ia_micro_agents.Team.Config.{TeamConfig}
use rust_ia_micro_agents.Planner.Dag.{is_in, expand, task_map, reachable_dependencies}
use rust_ia_micro_agents.Planner.Dag.Dependencies.{IsDependency}
use rust_ia_micro_agents.Planner.Dag.Reachable.{reachable_dependencies-iff_IsDependency}
use rust_ia_micro_agents.Samples.{task_with, small_config, small_settings, all_accepted}

-- Two names of drafts that give one id.
first_name : sanitize_task_id (some "Task 1") 0 ≡ some "task-1"
unfolding sanitize_task_id cleaned dashed is_whitespace
first_name = refl

second_name : sanitize_task_id (some "-task-1 ") 1 ≡ some "task-1"
unfolding sanitize_task_id cleaned dashed is_whitespace
second_name = refl

third_name : sanitize_task_id none 2 ≡ some "task-3"
unfolding sanitize_task_id cleaned dashed is_whitespace to_string
third_name = refl

abbrev kept_text : String → String
kept_text s = s

abbrev plain_planner : Planner
plain_planner = record {
  to_lowercase = kept_text;
  at_least_free = λ cost. cost;
  topological_levels = λ tasks. [];
  resolve_task_model_selection = λ role title description route cost ms. record {
    model_route = none;
    route_key = "fast_text";
    resolved_model = "openrouter/free";
    max_latency_ms = 8000;
  };
}

abbrev seed_with : String → List String → PlanSeed
seed_with i dependencies = record {
  id = some i;
  title = "Compare prices";
  description = "Compare the prices of two shops";
  dependencies = dependencies;
  acceptance_criteria = [];
  candidate_role = some "researcher";
  requested_model_route = none;
  expected_artifact = "";
  estimated_cost_usd = f64_zero;
  estimated_ms = 100;
}

abbrev two_seeds : List PlanSeed
two_seeds = seed_with "gather" ("Compare" ∷ []) ∷ seed_with "compare" [] ∷ []

-- One draft fits, and the one that it depends on does not.
abbrev tight_config : TeamConfig
tight_config = record small_config { plan_max_tasks = 2 }

-- `materialize_plan` alone keeps the dependency on a draft beyond the cap; its callers pass no such
-- draft.
cut_off_dependency :
    map {B = String × List String}
      (λ (t : PlanTask). (t.id, t.dependencies))
      (materialize_plan plain_planner "p" 0 7 "Compare prices" tight_config
        ("researcher" ∷ [])
        small_settings
        []
        []
        two_seeds).tasks
    ≡ ("p:gather", "p:compare" ∷ []) ∷ ("p:task-integrate", "p:gather" ∷ []) ∷ []
unfolding materialize_plan drafted_tasks scheduled work_tasks work_task integration_task
    seed_dependencies sanitized sanitize_dependency_id requested_ids requested_id sanitize_task_id
    scoped_task_id cleaned dashed is_whitespace
cut_off_dependency = refl

length-materialize_plan_example :
    length
      (materialize_plan plain_planner "p" 0 7 "Compare prices" tight_config
        ("researcher" ∷ [])
        small_settings
        []
        []
        two_seeds).tasks
    ≡ min 2 (max (2 - 1) 1) + 1
length-materialize_plan_example =
    length-materialize_plan plain_planner "p" 0 7 "Compare prices" tight_config ("researcher" ∷ [])
      small_settings [] [] two_seeds

materialize_plan-IsKnownOnly_example :
    (work : List PlanTask) × (last : PlanTask) × ((materialize_plan plain_planner "p" 0 7
        "Compare prices" small_config
        ("researcher" ∷ [])
        small_settings
        []
        []
        two_seeds).tasks
      ≡ work ++ last ∷ [])
    × (last.id ≡ scoped_task_id "p" integration_task_slug)
    × (last.dependencies ≡ map (λ t. t.id) work)
    × All (IsKnownOnly (requested_ids "p" 0 two_seeds)) work
materialize_plan-IsKnownOnly_example =
    materialize_plan-IsKnownOnly plain_planner "p" 0 7 "Compare prices" small_config
      ("researcher" ∷ []) small_settings [] [] two_seeds

two_seeds-AreDistinct : AreDistinct (requested_ids "p" 0 two_seeds)
unfolding requested_ids requested_id sanitize_task_id scoped_task_id cleaned dashed is_whitespace
two_seeds-AreDistinct = ((refl, tt), (tt, tt))

two_seeds-IsFresh :
    IsFresh (scoped_task_id "p" integration_task_slug) (requested_ids "p" 0 two_seeds)
unfolding requested_ids requested_id sanitize_task_id scoped_task_id cleaned dashed is_whitespace
two_seeds-IsFresh = (refl, (refl, tt))

execute_plan_parallel_materialized_example :
    (out : Outcome) × (execute_plan_parallel (dispatch_all all_accepted) kept_text 1 0 2 1 1 25 (
        materialize_plan plain_planner "p" 0 7 "Compare prices" small_config
          ("researcher" ∷ [])
          small_settings
          []
          []
          two_seeds)
      ≡ some out)
    × All (IsCovered out.plan.tasks) out.plan.tasks
    × All (IsBlocked out.plan.tasks) out.plan.tasks
    × All (IsLimited 1 1) out.plan.tasks
execute_plan_parallel_materialized_example =
    execute_plan_parallel_materialized plain_planner "p" 0 7 "Compare prices" small_config
      ("researcher" ∷ []) small_settings [] [] two_seeds all_accepted kept_text 1 0 2 1 1 25
      (omega arith) two_seeds-AreDistinct two_seeds-IsFresh (omega arith)

-- `c` depends on `b`, `b` on `a` and on itself.
abbrev chain : List PlanTask
chain =
    task_with "a" [] pending
    ∷ task_with "b" ("b" ∷ "a" ∷ []) pending
    ∷ task_with "c" ("b" ∷ "gone" ∷ []) pending
    ∷ []

chain_of_c : reachable_dependencies chain "c" 6 ≡ some ("a" ∷ "b" ∷ "gone" ∷ [])
unfolding reachable_dependencies expand get insert collect codes_lt
chain_of_c = refl

reachable_dependencies-iff_IsDependency_example :
    (deps : List String) × (reachable_dependencies chain "c" 6 ≡ some deps)
    × ((d : String) → (is_in d deps ≡ true) ↔ IsDependency (task_map chain) "c" d)
reachable_dependencies-iff_IsDependency_example =
    reachable_dependencies-iff_IsDependency chain "c" 6 (omega arith)
