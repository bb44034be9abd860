-- ===== src/Team/Manager/Blueprint.antt =====
-- src/team/manager.rs: the blueprint of a subagent from settings, profiles and identity.
use rust_ia_micro_agents.Base.{
  String, List, [], ◌∷◌, Option, none, some, any, if◌then◌else◌, ◌==◌, or_else, unwrap_or,
}
use rust_ia_micro_agents.Base.Maps.{HashMap, get}
use rust_ia_micro_agents.Base.Text.{codes, lower_codes, trim, is_one_of}
use rust_ia_micro_agents.Team.Config.{
  SubagentMode, generalist, specialist, TeamRuntimeSettings, IdentityPermissions,
}
use rust_ia_micro_agents.Team.Subagent.{RoleProfile}
use rust_ia_micro_agents.Llm.Broker.{openrouter_free_model}

pub record SubagentBlueprint : Type 0 where
  pub role : String
  pub model_route : String
  pub resolved_model : String
  pub allowed_skills : List String

unfoldable pub default_route_key : String → SubagentMode → String
default_route_key role generalist =
    let name = lower_codes (codes role) in
    if is_one_of name ("verifier" ∷ "reviewer" ∷ "qa" ∷ [])
    then "reviewer_fast"
    else if is_one_of name ("integrator" ∷ "synthesizer" ∷ [])
    then "reasoning"
    else if is_one_of name ("implementer" ∷ "operator" ∷ [])
    then "tool_use"
    else "fast_text"
default_route_key role specialist =
    let name = lower_codes (codes role) in
    if is_one_of name ("verifier" ∷ "reviewer" ∷ "qa" ∷ [])
    then "reviewer_strict"
    else if is_one_of name ("integrator" ∷ "synthesizer" ∷ [])
    then "reasoning"
    else if is_one_of name ("implementer" ∷ "operator" ∷ [])
    then "tool_use"
    else "fast_text"

unfoldable pub normalize_blueprint_route : String → String → SubagentMode → Option String
normalize_blueprint_route configured role mode =
    let normalized = lower_codes (trim (codes configured)) in
    if is_one_of normalized ("fast" ∷ "router_fast" ∷ "classifier" ∷ [])
    then some "router_fast"
    else if is_one_of normalized ("fast_text" ∷ [])
    then some "fast_text"
    else if is_one_of normalized ("planner" ∷ [])
    then some "planner"
    else if is_one_of normalized ("tool_use" ∷ "tool" ∷ [])
    then some "tool_use"
    else if is_one_of normalized ("reviewer" ∷ "reviewer_fast" ∷ [])
    then some "reviewer_fast"
    else if is_one_of normalized ("reviewer_strict" ∷ [])
    then some "reviewer_strict"
    else if is_one_of normalized ("reasoning" ∷ "integrator" ∷ [])
    then some "reasoning"
    else if is_one_of normalized ("integrator_complex" ∷ "integration_strong" ∷ [])
    then some "integrator_complex"
    else if is_one_of normalized ("vision" ∷ "vision_understand" ∷ [])
    then some "vision_understand"
    else if is_one_of normalized ("audio" ∷ "audio_transcribe" ∷ [])
    then some "audio_transcribe"
    else if is_one_of normalized ("image_generate" ∷ "image" ∷ [])
    then some "image_generate"
    else if any (λ c. c == b'/') (codes configured)
    then some (default_route_key role mode)
    else none

-- `specialization_skills`: a specialisation's skills, if it names any.
abbrev named_skills : List String → Option (List String)
named_skills [] = none
named_skills (s ∷ ss) = some (s ∷ ss)

abbrev and_then {ℓ κ} : {A : Type ℓ} {B : Type κ} → Option A → (A → Option B) → Option B
and_then none f = none
and_then (some a) f = f a

unfoldable pub build_blueprint :
    TeamRuntimeSettings
    → IdentityPermissions
    → HashMap RoleProfile
    → String
    → Option String
    → SubagentBlueprint
build_blueprint settings permissions profiles role subagent_id =
    let profile = get role profiles in
    let role_spec = get role settings.role_specializations in
    let subagent_spec = and_then subagent_id (λ i. get i settings.subagent_specializations) in
    let resolved_role = unwrap_or (and_then subagent_spec (λ spec. spec.role)) role in
    let configured =
      or_else
        (or_else (and_then subagent_spec (λ spec. spec.model_route))
          (and_then role_spec (λ spec. spec.model_route)))
        (and_then profile (λ p. p.model_route)) in
    record {
      role = resolved_role;
      model_route =
          unwrap_or
            (and_then configured
              (λ c. normalize_blueprint_route c resolved_role settings.subagent_mode))
            (default_route_key resolved_role settings.subagent_mode);
      resolved_model = openrouter_free_model;
      allowed_skills =
          unwrap_or
            (or_else
              (or_else (and_then subagent_spec (λ spec. named_skills spec.allowed_skills))
                (and_then role_spec (λ spec. named_skills spec.allowed_skills)))
              (and_then profile (λ p. p.allowed_skills)))
            permissions.allowed_skills;
    }

unfoldable pub fallback_blueprint : String → SubagentBlueprint
fallback_blueprint role = record {
  role = role;
  model_route = "fast_text";
  resolved_model = openrouter_free_model;
  allowed_skills = "*" ∷ [];
}
