-- ===== src/Planner/Comparison.antt =====
-- src/planner/decomposition.rs, `build_comparison_seeds`: the drafts of a goal that asks to compare.
use rust_ia_micro_agents.Base.{
  ℕ, ◌+◌, max, String, str_eq, Bool, not, ◌&&◌, ◌||◌, List, [], ◌∷◌, ◌++◌, map, Option, none, some,
  filter, any, is_empty, length, if◌then◌else◌, ltb, leb,
}
use rust_ia_micro_agents.Base.Rows.{take}
use rust_ia_micro_agents.Base.Text.{append, join}
use rust_ia_micro_agents.Base.Decimal.{to_string}
use rust_ia_micro_agents.Planner.Goals.{contains, cost_low, cost_medium, task_number}
use rust_ia_micro_agents.Planner.Materialize.{PlanSeed}

pub record Criterion : Type 0 where
  pub needle : String
  pub description : String

pub record Track : Type 0 where
  pub description : String
  pub role : String
  pub route : String
  pub criteria_list : List String

unfoldable pub is_comparison : String → Bool
is_comparison normalized =
    contains normalized "compara"
    || contains normalized "compare"
    || contains normalized "comparación"
    || contains normalized "comparacion"
    || contains normalized "ranking"

unfoldable pub criteria : List Criterion
criteria =
    record {
      needle = "motor";
      description = "Analiza motor, respuesta y agrado de manejo de cada opcion.";
    }
    ∷ record {
      needle = "consumo";
      description = "Compara consumo, autonomia y costo operativo de cada opcion.";
    }
    ∷ record {
      needle = "reventa";
      description = "Evalua liquidez de reventa y retencion de valor de cada opcion.";
    }
    ∷ record {
      needle = "repuestos";
      description = "Compara disponibilidad y costo de repuestos y mantenimiento.";
    }
    ∷ record {
      needle = "confiabilidad";
      description = "Evalua confiabilidad historica y riesgos mecanicos relevantes.";
    }
    ∷ record {
      needle = "diversion";
      description = "Compara sensacion de manejo, respuesta y diversion al volante.";
    }
    ∷ record {
      needle = "costo";
      description = "Compara costo total de propiedad y costo-beneficio de cada opcion.";
    }
    ∷ record {
      needle = "riesgo";
      description = "Evalua riesgos clave, tradeoffs y posibles puntos debiles de cada opcion.";
    }
    ∷ []

-- The tracks of several criteria, each with all the words it may cover.
unfoldable pub grouped : List Track
grouped =
    record {
      description =
          "Compara consumo, costo total de propiedad y mantenimiento/repuestos de cada opcion.";
      role = "researcher";
      route = "fast_text";
      criteria_list = "consumo" ∷ "costo" ∷ "repuestos" ∷ [];
    }
    ∷ record {
      description =
          "Evalua reventa, confiabilidad y riesgos clave de cada opcion, explicando los tradeoffs principales.";
      role = "verifier";
      route = "reasoning";
      criteria_list = "reventa" ∷ "confiabilidad" ∷ "riesgo" ∷ [];
    }
    ∷ record {
      description =
          "Compara motor, respuesta, agrado de manejo y diversion al volante de cada opcion.";
      role = "researcher";
      route = "fast_text";
      criteria_list = "motor" ∷ "diversion" ∷ [];
    }
    ∷ []

-- The track of one criterion.
unfoldable pub single : Criterion → Track
single c =
    let is_risk = str_eq c.needle "riesgo" || str_eq c.needle "confiabilidad" in
    record {
      description = append c.description (
          append " Usa el contexto de la conversacion actual y mantente enfocado en el criterio '"
            (append c.needle "'."));
      role = if is_risk then "verifier" else "researcher";
      route = if is_risk then "reviewer_fast" else "fast_text";
      criteria_list = c.needle ∷ [];
    }

-- The track with those of its words that the goal has.
unfoldable pub covering : String → Track → Track
covering normalized t = record t {
  criteria_list = filter (λ n. contains normalized n) t.criteria_list;
}

-- `grouped_tracks`.
unfoldable pub tracks : String → List Track
unfolding criteria grouped single covering
tracks normalized =
    let matched = filter (λ c. contains normalized c.needle) criteria in
    if leb 5 (length matched)
    then map (covering normalized)
        (filter (λ t. any (λ n. contains normalized n) t.criteria_list) grouped)
    else map single matched

-- The drafts of the tracks, from place `idx` on.
unfoldable pub track_seeds : ℕ → List Track → List PlanSeed
track_seeds idx [] = []
track_seeds idx (track ∷ rest) =
    let covered = join ", " track.criteria_list in
    let is_bundle = ltb 1 (length track.criteria_list) in
    record {
      id = some (task_number idx);
      title = append "Comparison track " (to_string (idx + 1));
      description = append track.description (append " Criterios cubiertos: " (append covered "."));
      dependencies = [];
      acceptance_criteria =
          "Compare all named options for the assigned criterion set"
          ∷ "State tradeoffs clearly"
          ∷ append "Cover these criteria: " covered
          ∷ [];
      candidate_role = some track.role;
      requested_model_route = some track.route;
      expected_artifact = if is_bundle then "comparison_bundle" else "criterion_comparison";
      estimated_cost_usd = cost_low;
      estimated_ms = if is_bundle then 2200 else 1700;
    }
    ∷ track_seeds (idx + 1) rest

unfoldable pub ranking_seed : ℕ → PlanSeed
ranking_seed idx = record {
  id = some (task_number idx);
  title = "Build ranking recommendation";
  description =
      "Construye un ranking provisional con los hallazgos disponibles y explicita el criterio de desempate.";
  dependencies = [];
  acceptance_criteria =
      "Provide a provisional ranking" ∷ "Explain the rationale behind the ranking" ∷ [];
  candidate_role = some "verifier";
  requested_model_route = some "reasoning";
  expected_artifact = "ranking_draft";
  estimated_cost_usd = cost_medium;
  estimated_ms = 3200;
}

-- The drafts with the ranking behind them, where the goal asks for one and there is room.
unfoldable pub with_ranking : String → ℕ → List PlanSeed → List PlanSeed
with_ranking normalized max_tasks seeds =
    let is_grouped = any (λ s. str_eq s.expected_artifact "comparison_bundle") seeds in
    if contains normalized "ranking" && ltb (length seeds) max_tasks && not is_grouped
    then seeds ++ ranking_seed (length seeds) ∷ []
    else seeds

unfoldable pub build_comparison_seeds : (String → String) → String → ℕ → Option (List PlanSeed)
unfolding is_comparison tracks track_seeds ranking_seed with_ranking
build_comparison_seeds to_lowercase goal max_tasks =
    let normalized = to_lowercase goal in
    let seeds = track_seeds 0 (take (max max_tasks 1) (tracks normalized)) in
    if not (is_comparison normalized)
    then none
    else if is_empty seeds
    then none
    else some (with_ranking normalized max_tasks seeds)
