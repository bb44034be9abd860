-- ===== src/Examples/Decomposition.antt =====
-- Plans drawn up of a goal and of a contract, and the theorems on them.
use rust_ia_micro_agents.Base.{
  ◌≤◌, max, String, ◌≡◌, refl, true, false, List, [], ◌∷◌, map, Option, some, none, arith, All,
  length, f64_zero,
}
use rust_ia_micro_agents.Base.Distinct.{AreDistinct}
use rust_ia_micro_agents.Base.Text.{is_whitespace}
use rust_ia_micro_agents.Llm.Broker.{ModelRoutes}
use rust_ia_micro_agents.Planner.Plan.{ExecutionPlan}
use rust_ia_micro_agents.Planner.Materialize.{Planner, PlanSeed}
use rust_ia_micro_agents.Planner.Hints.{contains_any}
use rust_ia_micro_agents.Planner.Goals.{split_goal, is_integration_task_id}
use rust_ia_micro_agents.Planner.Comparison.{build_comparison_seeds}
use rust_ia_micro_agents.Planner.Analysis.{build_structured_analysis_seeds}
use rust_ia_micro_agents.Planner.Decomposition.{
  Libraries, LlmPlanTask, ExecutionPlanContract, planner_for, build_initial_plan,
  build_plan_from_contract,
}
use rust_ia_micro_agents.Planner.Decomposition.Closed.{
  task_ids, IsClosed, build_initial_plan_lem, build_plan_from_contract-IsClosed,
}
use rust_ia_micro_agents.Execution.Scheduler.{Outcome, execute_plan_parallel}
use rust_ia_micro_agents.Execution.Scheduler.Covered.{IsCovered}
use rust_ia_micro_agents.Execution.Scheduler.Dependencies.{IsBlocked}
use rust_ia_micro_agents.Execution.Scheduler.Limits.{IsLimited}
use rust_ia_micro_agents.Execution.Dispatcher.Answers.{dispatch_all}
use rust_ia_micro_agents.Execution.Drafted.{build_initial_plan-executed}
use rust_ia_micro_agents.Samples.{small_config, small_settings, all_accepted}

abbrev as_is : String → String
as_is s = s

abbrev sample_routes : ModelRoutes
sample_routes = record {
  fast = "fast";
  reasoning = "reasoning";
  tool_use = "tools";
  vision = "vision";
  reviewer = "reviewer";
  planner = "planner";
  router_fast = none;
  fast_text = none;
  reviewer_fast = none;
  reviewer_strict = none;
  integrator_complex = none;
  vision_understand = none;
  audio_transcribe = none;
  image_generate = none;
  fallback = [];
}

abbrev sample_libraries : Libraries
sample_libraries = record {
  to_lowercase = as_is;
  at_least_free = λ cost. cost;
  topological_levels = λ tasks. [];
}

abbrev sample_planner : Planner
sample_planner = planner_for sample_libraries sample_routes 8000 small_settings []

chunks :
    split_goal "find shops, read reviews and rank them" 7
    ≡ "find shops" ∷ "read reviews" ∷ "rank them" ∷ []
unfolding split_goal is_whitespace
chunks = refl

cut_chunks : split_goal "a; b; c" 2 ≡ "a" ∷ "b" ∷ []
unfolding split_goal is_whitespace
cut_chunks = refl

integration_id : is_integration_task_id "plan-1:task-integrate" ≡ true
unfolding is_integration_task_id
integration_id = refl

-- The filter of a contract's tasks does not see an identifier that is sanitised to the reserved one.
spaced_id : is_integration_task_id "Task Integrate" ≡ false
unfolding is_integration_task_id
spaced_id = refl

abbrev titles : Option (List PlanSeed) → List String
titles none = []
titles (some seeds) = map (λ s. s.description) seeds

compared :
    titles (build_comparison_seeds as_is "compara consumo y riesgo, ranking" 2)
    ≡ "Compara consumo, autonomia y costo operativo de cada opcion. Usa el contexto de la conversacion actual y mantente enfocado en el criterio 'consumo'. Criterios cubiertos: consumo."
      ∷ "Evalua riesgos clave, tradeoffs y posibles puntos debiles de cada opcion. Usa el contexto de la conversacion actual y mantente enfocado en el criterio 'riesgo'. Criterios cubiertos: riesgo."
      ∷ []
unfolding build_comparison_seeds
compared = refl

not_compared : build_comparison_seeds as_is "find shops" 7 ≡ none
unfolding build_comparison_seeds
not_compared = refl

analysed :
    length (titles (build_structured_analysis_seeds as_is "saas: tam, sam; legal; mvp; tesis" 3))
    ≡ 3
unfolding build_structured_analysis_seeds contains_any
analysed = refl

build_initial_plan_example :
    (plan : ExecutionPlan) × (build_initial_plan sample_planner "p" 0 7 "find shops, read reviews"
        small_config
        ("researcher" ∷ [])
        small_settings
      ≡ some plan)
    × AreDistinct (task_ids plan.tasks)
    × (length plan.tasks ≤ max 8 2)
    × IsClosed "p" plan.tasks
build_initial_plan_example =
    build_initial_plan_lem sample_planner "p" 0 7 "find shops, read reviews" small_config
      ("researcher" ∷ []) small_settings refl

abbrev drafted_task : String → List String → LlmPlanTask
drafted_task i dependencies = record {
  id = i;
  title = "Compare prices";
  description = "Compare the prices of two shops";
  dependencies = dependencies;
  acceptance_criteria = [];
  candidate_role = none;
  model_route = none;
  requires_live_data = false;
  evidence_inputs = [];
  analysis_track = "";
  expected_artifact = "";
  estimated_cost_usd = f64_zero;
  estimated_ms = 100;
}

abbrev sample_contract : ExecutionPlanContract
sample_contract = record {
  goal = "";
  assumptions = [];
  risks = [];
  tasks =
      drafted_task "gather" ("nowhere" ∷ [])
      ∷ drafted_task "compare" ("gather" ∷ [])
      ∷ drafted_task "task-integrate" []
      ∷ [];
  parallelizable_groups = [];
}

build_plan_from_contract-IsClosed_example :
    (plan : ExecutionPlan) × (build_plan_from_contract sample_planner "p" 0 7 "find shops"
        small_config
        ("researcher" ∷ [])
        small_settings
        sample_contract
      ≡ some plan)
    × IsClosed "p" plan.tasks
build_plan_from_contract-IsClosed_example =
    build_plan_from_contract-IsClosed sample_planner "p" 0 7 "find shops" small_config
      ("researcher" ∷ []) small_settings sample_contract refl

build_initial_plan-executed_example :
    (plan : ExecutionPlan) × (out : Outcome) × (build_initial_plan sample_planner "p" 0 7
        "find shops, read reviews" small_config
        ("researcher" ∷ [])
        small_settings
      ≡ some plan)
    × (execute_plan_parallel (dispatch_all all_accepted) as_is 1 0 2 1 1 25 plan ≡ some out)
    × All (IsCovered out.plan.tasks) out.plan.tasks
    × All (IsBlocked out.plan.tasks) out.plan.tasks
    × All (IsLimited 1 1) out.plan.tasks
build_initial_plan-executed_example =
    build_initial_plan-executed sample_planner "p" 0 7 "find shops, read reviews" small_config
      ("researcher" ∷ []) small_settings all_accepted as_is 1 0 2 1 1 25 refl (omega arith)
      (omega arith)
