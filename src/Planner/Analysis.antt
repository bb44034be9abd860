-- ===== src/Planner/Analysis.antt =====
-- src/planner/decomposition.rs, `build_structured_analysis_seeds`: the drafts of a goal that lists
-- the parts of a business analysis.
use rust_ia_micro_agents.Base.{
  ℕ, ◌+◌, max, String, Bool, not, ◌&&◌, ◌||◌, List, [], ◌∷◌, ◌++◌, Option, none, some, F64, filter,
  is_empty, length, if◌then◌else◌, ltb, leb,
}
use rust_ia_micro_agents.Base.Rows.{take}
use rust_ia_micro_agents.Base.Text.{append, join, count_char}
use rust_ia_micro_agents.Base.Decimal.{to_string}
use rust_ia_micro_agents.Planner.Goals.{contains, cost_medium, cost_high, task_number}
use rust_ia_micro_agents.Planner.Hints.{contains_any}
use rust_ia_micro_agents.Planner.Materialize.{PlanSeed}

pub record AnalysisTrack : Type 0 where
  pub needles : List String
  pub description : String
  pub role : String
  pub route : String
  pub estimated_cost_usd : F64
  pub estimated_ms : ℕ

unfoldable pub looks_like_business_analysis : String → Bool
looks_like_business_analysis normalized = contains_any normalized (
    "saas" ∷ "startup" ∷ "lanzar" ∷ "launch" ∷ "go-to-market" ∷ "traders" ∷ "mercado" ∷ "pricing"
    ∷ "regulación" ∷ "regulacion" ∷ "costos operativos" ∷ "costs" ∷ "arquitectura"
    ∷ "plan de lanzamiento" ∷ [])

unfoldable pub has_list_shape : String → Bool
has_list_shape normalized =
    contains normalized ";"
    || leb 4 (count_char b',' normalized)
    || contains normalized "separa en subtareas"
    || contains normalized "divide entre muchos subagentes"

unfoldable pub analysis_tracks : List AnalysisTrack
analysis_tracks =
    record {
      needles =
          "tam" ∷ "sam" ∷ "som" ∷ "competencia" ∷ "pricing" ∷ "adquisición de clientes"
          ∷ "adquisicion de clientes" ∷ "go-to-market" ∷ "gtm" ∷ [];
      description =
          "Analiza mercado, TAM/SAM/SOM, competencia, pricing y adquisición de clientes. Termina con una propuesta comercial compacta.";
      role = "researcher";
      route = "reasoning";
      estimated_cost_usd = cost_high;
      estimated_ms = 2600;
    }
    ∷ record {
      needles =
          "regulación" ∷ "regulacion" ∷ "riesgos legales" ∷ "riesgos operativos" ∷ "compliance"
          ∷ "legal" ∷ [];
      description =
          "Evalua regulación, compliance y riesgos legales/operativos. Prioriza los riesgos que realmente pueden bloquear el lanzamiento.";
      role = "verifier";
      route = "reasoning";
      estimated_cost_usd = cost_high;
      estimated_ms = 2800;
    }
    ∷ record {
      needles =
          "arquitectura técnica" ∷ "arquitectura" ∷ "costos operativos" ∷ "infraestructura" ∷ "mvp"
          ∷ "plan de lanzamiento" ∷ "90 días" ∷ "90 dias" ∷ [];
      description =
          "Define arquitectura técnica, costos operativos y un plan de lanzamiento realista de 90 días con hitos y dependencias.";
      role = "implementer";
      route = "reasoning";
      estimated_cost_usd = cost_high;
      estimated_ms = 2800;
    }
    ∷ record {
      needles =
          "recomendación ejecutiva" ∷ "recomendacion ejecutiva" ∷ "tradeoffs" ∷ "tesis"
          ∷ "positioning" ∷ [];
      description =
          "Prepara una tesis ejecutiva provisional con tradeoffs y condiciones para avanzar o no avanzar.";
      role = "integrator";
      route = "reviewer_strict";
      estimated_cost_usd = cost_medium;
      estimated_ms = 2200;
    }
    ∷ []

-- The `filter_map`: each track with the words of it that the goal has, if there are any.
unfoldable pub selected : String → List AnalysisTrack → List AnalysisTrack
selected normalized [] = []
selected normalized (track ∷ rest) =
    let found = filter (λ n. contains normalized n) track.needles in
    let others = selected normalized rest in
    if is_empty found then others else record track { needles = found } ∷ others

-- The drafts of the tracks, from place `idx` on.
unfoldable pub analysis_seeds : ℕ → List AnalysisTrack → List PlanSeed
analysis_seeds idx [] = []
analysis_seeds idx (track ∷ rest) =
    let covered = join ", " track.needles in
    record {
      id = some (task_number idx);
      title = append "Analysis track " (to_string (idx + 1));
      description = append track.description (append " Ejes cubiertos: " (append covered "."));
      dependencies = [];
      acceptance_criteria =
          "Answer the assigned analysis track"
          ∷ "Call out the main tradeoffs and evidence"
          ∷ append "Cover these axes: " covered
          ∷ [];
      candidate_role = some track.role;
      requested_model_route = some track.route;
      expected_artifact = "analysis_bundle";
      estimated_cost_usd = track.estimated_cost_usd;
      estimated_ms = track.estimated_ms;
    }
    ∷ analysis_seeds (idx + 1) rest

unfoldable pub constraints_seed : ℕ → PlanSeed
constraints_seed idx = record {
  id = some (task_number idx);
  title = "Synthesize recommendation constraints";
  description =
      "Resume los criterios de decisión, condiciones de entrada y señales de no-go para que la integración final tenga una base ejecutiva clara.";
  dependencies = [];
  acceptance_criteria =
      "Produce explicit go/no-go gates" ∷ "Summarize decision constraints concisely" ∷ [];
  candidate_role = some "verifier";
  requested_model_route = some "reasoning";
  expected_artifact = "decision_constraints";
  estimated_cost_usd = cost_medium;
  estimated_ms = 2000;
}

-- The drafts with the synthesis behind them, for a long list where there is room.
unfoldable pub with_constraints : String → ℕ → List PlanSeed → List PlanSeed
with_constraints normalized max_tasks seeds =
    if (leb 6 (count_char b',' normalized) || leb 3 (count_char b';' normalized))
      && ltb (length seeds) max_tasks
      && ltb (length seeds) 4
    then seeds ++ constraints_seed (length seeds) ∷ []
    else seeds

unfoldable pub build_structured_analysis_seeds :
    (String → String) → String → ℕ → Option (List PlanSeed)
unfolding looks_like_business_analysis has_list_shape analysis_tracks selected analysis_seeds
    constraints_seed with_constraints
build_structured_analysis_seeds to_lowercase goal max_tasks =
    let normalized = to_lowercase goal in
    let seeds = analysis_seeds 0 (take (max max_tasks 1) (selected normalized analysis_tracks)) in
    if not (looks_like_business_analysis normalized && has_list_shape normalized)
    then none
    else if is_empty seeds
    then none
    else some (with_constraints normalized max_tasks seeds)
