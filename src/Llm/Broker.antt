-- ===== src/Llm/Broker.antt =====
-- src/llm/broker.rs and src/llm/models.rs: the choice of a model for a request.
use rust_ia_micro_agents.Base.{ℕ, String, Bool, List, Option, F64}
use rust_ia_micro_agents.Team.Config.{PerformancePolicy, EscalationTier}

abbrev pub openrouter_free_model : String
openrouter_free_model = "openrouter/free"

pub record ModelMetadata : Type 0 where
  pub id : String
  pub context_length : Option ℕ
  pub supports_text : Bool
  pub supports_tools : Bool
  pub supports_vision : Bool
  pub supports_audio_input : Bool
  pub supports_image_output : Bool
  pub prompt_cost_per_million : Option F64
  pub completion_cost_per_million : Option F64

-- src/identity/schema.rs: the models that an identity names for its routes.
pub record ModelRoutes : Type 0 where
  pub fast : String
  pub reasoning : String
  pub tool_use : String
  pub vision : String
  pub reviewer : String
  pub planner : String
  pub router_fast : Option String
  pub fast_text : Option String
  pub reviewer_fast : Option String
  pub reviewer_strict : Option String
  pub integrator_complex : Option String
  pub vision_understand : Option String
  pub audio_transcribe : Option String
  pub image_generate : Option String
  pub fallback : List String

pub data InputModality : Type 0 where
  text image audio : InputModality

pub data OutputModality : Type 0 where
  text json image : OutputModality

pub data ReasoningLevel : Type 0 where
  low medium high : ReasoningLevel

pub record ModelSelectionRequest : Type 0 where
  pub route_key : String
  pub input_modality : InputModality
  pub output_modality : OutputModality
  pub reasoning_level : ReasoningLevel
  pub requires_tools : Bool
  pub max_cost_usd : Option F64
  pub max_latency_ms : Option ℕ
  pub performance_policy : PerformancePolicy
  pub escalation_tier : EscalationTier

pub record ModelSelection : Type 0 where
  pub route_key : String
  pub resolved_model : String
  pub reason : String

-- `ModelBroker::resolve`, of a broker with the given catalogue.
unfoldable pub resolve : List ModelMetadata → ModelRoutes → ModelSelectionRequest → ModelSelection
resolve catalog routes request = record {
  route_key = request.route_key;
  resolved_model = openrouter_free_model;
  reason = "forced_openrouter_free";
}
