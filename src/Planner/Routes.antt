-- ===== src/Planner/Routes.antt =====
-- src/planner/decomposition.rs: the route and the model of a task.
use rust_ia_micro_agents.Base.{
  ℕ, min, max, String, str_eq, Bool, false, ◌||◌, List, [], ◌∷◌, Option, none, some, any,
  if◌then◌else◌, or_else, F64,
}
use rust_ia_micro_agents.Base.Maps.{HashMap}
use rust_ia_micro_agents.Base.Text.{codes, lower_codes, trim, is_one_of, eq_ignore_ascii_case}
use rust_ia_micro_agents.Planner.Hints.{contains_any, two_lines}
use rust_ia_micro_agents.Team.Config.{RoleSpecialization, TeamRuntimeSettings}
use rust_ia_micro_agents.Llm.Broker.{
  ModelMetadata, ModelRoutes, InputModality, OutputModality, ReasoningLevel, low, medium, high,
  resolve,
}
use rust_ia_micro_agents.Planner.Materialize.{TaskModel}

-- The loop of `role_model_override`, in the order in which the map gives its entries.
unfoldable pub override_in : String → HashMap RoleSpecialization → Option String
override_in role [] = none
override_in role ((configured_role, spec) ∷ specs) =
    or_else (if eq_ignore_ascii_case configured_role role then spec.model_route else none)
      (override_in role specs)

unfoldable pub role_model_override : TeamRuntimeSettings → Option String → Option String
role_model_override settings none = none
role_model_override settings (some role) = override_in role settings.role_specializations

unfoldable pub normalize_route_key : String → Option String
normalize_route_key requested =
    let normalized = lower_codes (trim (codes requested)) in
    if is_one_of normalized ("fast" ∷ "router_fast" ∷ "classifier" ∷ [])
    then some "router_fast"
    else if is_one_of normalized ("fast_text" ∷ [])
    then some "fast_text"
    else if is_one_of normalized ("planner" ∷ [])
    then some "planner"
    else if is_one_of normalized ("tool_use" ∷ "tool" ∷ [])
    then some "tool_use"
    else if is_one_of normalized ("reviewer" ∷ "reviewer_fast" ∷ [])
    then some "reviewer_fast"
    else if is_one_of normalized ("reviewer_strict" ∷ [])
    then some "reviewer_strict"
    else if is_one_of normalized ("reasoning" ∷ "integrator" ∷ [])
    then some "reasoning"
    else if is_one_of normalized ("integrator_complex" ∷ "integration_strong" ∷ [])
    then some "integrator_complex"
    else if is_one_of normalized ("vision" ∷ "vision_understand" ∷ [])
    then some "vision_understand"
    else if is_one_of normalized ("audio" ∷ "audio_transcribe" ∷ [])
    then some "audio_transcribe"
    else if is_one_of normalized ("image_generate" ∷ "image" ∷ [])
    then some "image_generate"
    else if is_one_of normalized ("reasoning_high" ∷ "deep_reasoning" ∷ "integrator_strong" ∷ [])
    then some "reasoning"
    else none

-- `candidate_role.map(|role| matches_role(role, aliases)).unwrap_or(false)`.
unfoldable pub matches_role : Option String → List String → Bool
matches_role none aliases = false
matches_role (some role) aliases = any (λ alias. eq_ignore_ascii_case role alias) aliases

module _ (to_lowercase : String → String) where
  unfoldable pub infer_route_key : Option String → String → String → String
  infer_route_key candidate_role title description =
      let words = to_lowercase (two_lines title description) in
      if contains_any words (
        "predict" ∷ "forecast" ∷ "btc" ∷ "eth" ∷ "crypto" ∷ "mercado" ∷ "trading" ∷ "macro"
        ∷ "scenario" ∷ "escenario" ∷ "tesis" ∷ "thesis" ∷ "valuation" ∷ "cost-benefit"
        ∷ "costo beneficio" ∷ "compare deeply" ∷ [])
      then "reasoning"
      else if matches_role candidate_role ("verifier" ∷ "reviewer" ∷ "qa" ∷ "quality" ∷ [])
          || contains_any words ("verify" ∷ "review" ∷ "check" ∷ "validate" ∷ "qa" ∷ "test" ∷ [])
      then "reviewer_fast"
      else if matches_role candidate_role ("integrator" ∷ "synthesizer" ∷ [])
          || contains_any words ("integrate" ∷ "synthesize" ∷ "merge" ∷ "final answer" ∷ [])
      then "reasoning"
      else if contains_any words
          ("image" ∷ "photo" ∷ "picture" ∷ "screenshot" ∷ "vision" ∷ "ocr" ∷ "diagram" ∷ [])
      then "vision_understand"
      else if matches_role candidate_role ("implementer" ∷ "operator" ∷ [])
          || contains_any words (
              "http" ∷ "fetch" ∷ "api" ∷ "search" ∷ "buscar" ∷ "memory" ∷ "recordatorio"
              ∷ "reminder" ∷ "tool" ∷ [])
      then "tool_use"
      else "fast_text"

  unfoldable pub infer_input_modality : String → String → InputModality
  infer_input_modality title description =
      let words = to_lowercase (two_lines title description) in
      if contains_any words ("audio" ∷ "voice" ∷ "speech" ∷ "transcribe" ∷ "recording" ∷ [])
      then InputModality.audio
      else if contains_any words
          ("image" ∷ "photo" ∷ "picture" ∷ "screenshot" ∷ "vision" ∷ "ocr" ∷ "diagram" ∷ [])
      then InputModality.image
      else InputModality.text

  unfoldable pub infer_output_modality : String → String → OutputModality
  infer_output_modality title description =
      let words = to_lowercase (two_lines title description) in
      if contains_any words ("generate image" ∷ "render image" ∷ "image output" ∷ [])
      then OutputModality.image
      else if contains_any words ("strict json" ∷ "json" ∷ "schema" ∷ [])
      then OutputModality.json
      else OutputModality.text

  unfoldable pub infer_reasoning_level : Option String → String → String → ReasoningLevel
  infer_reasoning_level candidate_role title description =
      let words = to_lowercase (two_lines title description) in
      if matches_role candidate_role ("integrator" ∷ "synthesizer" ∷ [])
        || contains_any words (
            "integrate" ∷ "synthesize" ∷ "merge" ∷ "plan" ∷ "final answer" ∷ "predict" ∷ "forecast"
            ∷ "trading" ∷ "btc" ∷ "crypto" ∷ "investment" ∷ "portafolio" ∷ "scenario" ∷ "estrategia"
            ∷ [])
      then high
      else if matches_role candidate_role ("verifier" ∷ "reviewer" ∷ "qa" ∷ "quality" ∷ [])
          || contains_any words (
              "verify" ∷ "review" ∷ "check" ∷ "validate" ∷ "compare" ∷ "analiza" ∷ "analyze"
              ∷ "contrast" ∷ [])
      then medium
      else low

  -- What `resolve_task_route_key` does without an override for the role.
  unfoldable pub requested_route_key : Option String → String → String → Option String → String
  requested_route_key candidate_role title description none =
      infer_route_key candidate_role title description
  requested_route_key candidate_role title description (some requested) =
      elim (normalize_route_key requested) [
        | some route_key ↦ route_key
        | none ↦ infer_route_key candidate_role title description
      ]

  unfoldable pub resolve_task_route_key :
      TeamRuntimeSettings → Option String → String → String → Option String → String
  resolve_task_route_key settings candidate_role title description requested_model_route =
      elim (role_model_override settings candidate_role) [
        | some explicit ↦ elim (normalize_route_key explicit) [
          | some route_key ↦ route_key
          | none ↦ infer_route_key candidate_role title description
        ]
        | none ↦ requested_route_key candidate_role title description requested_model_route
      ]

  -- `at_least_free` is the maximum of a cost and `0.0`.
  unfoldable pub resolve_task_model_selection :
      (F64 → F64)
      → ModelRoutes
      → ℕ
      → TeamRuntimeSettings
      → List ModelMetadata
      → Option String
      → String
      → String
      → Option String
      → F64
      → ℕ
      → TaskModel
  resolve_task_model_selection at_least_free routes timeout_ms settings model_catalog candidate_role
        title description requested_model_route estimated_cost_usd estimated_ms =
      let selected_route_key =
        resolve_task_route_key settings candidate_role title description requested_model_route in
      let max_latency_ms = min (max estimated_ms 250) (max timeout_ms 250) in
      let selection = resolve model_catalog routes (record {
        route_key = selected_route_key;
        input_modality = infer_input_modality title description;
        output_modality = infer_output_modality title description;
        reasoning_level = infer_reasoning_level candidate_role title description;
        requires_tools = str_eq selected_route_key "tool_use";
        max_cost_usd = some (at_least_free estimated_cost_usd);
        max_latency_ms = some max_latency_ms;
        performance_policy = settings.performance_policy;
        escalation_tier = settings.max_escalation_tier;
      }) in
      record {
        model_route = some selection.route_key;
        route_key = selection.route_key;
        resolved_model = selection.resolved_model;
        max_latency_ms = max_latency_ms;
      }
