-- ===== src/Memory/Brain.antt =====
-- src/memory/brain.rs: what is remembered, when two memories say the same, and when a newer one
-- takes the place of an older one.
use rust_ia_micro_agents.Base.{
  ℕ, String, str_eq, ◌≡◌, refl, Bool, true, false, ◌&&◌, ◌||◌, not, List, [], ◌∷◌, ◌++◌, Option,
  none, some, is_empty, leb, if◌then◌else◌, or_else, F64, DateTime,
}
use rust_ia_micro_agents.Base.Text.{
  codes, codes_eq, lower_codes, trim, split_whitespace, join_spaces,
}

pub data BrainScopeKind : Type 0 where
  user conversation : BrainScopeKind

pub data BrainMemoryKind : Type 0 where
  preference goal constraint decision lesson source_location profile_fact : BrainMemoryKind

pub data BrainMemoryStatus : Type 0 where
  active superseded : BrainMemoryStatus

unfoldable pub scope_as_str : BrainScopeKind → String
scope_as_str user = "user"
scope_as_str conversation = "conversation"

unfoldable pub scope_from_db : String → BrainScopeKind
scope_from_db value = if str_eq value "conversation" then conversation else user

unfoldable pub kind_as_str : BrainMemoryKind → String
kind_as_str preference = "preference"
kind_as_str goal = "goal"
kind_as_str constraint = "constraint"
kind_as_str decision = "decision"
kind_as_str lesson = "lesson"
kind_as_str source_location = "source_location"
kind_as_str profile_fact = "profile_fact"

unfoldable pub kind_from_db : String → BrainMemoryKind
kind_from_db value =
    if str_eq value "goal"
    then goal
    else if str_eq value "constraint"
    then constraint
    else if str_eq value "decision"
    then decision
    else if str_eq value "lesson"
    then lesson
    else if str_eq value "source_location"
    then source_location
    else if str_eq value "profile_fact"
    then profile_fact
    else preference

unfoldable pub status_as_str : BrainMemoryStatus → String
status_as_str active = "active"
status_as_str superseded = "superseded"

unfoldable pub status_from_db : String → BrainMemoryStatus
status_from_db value = if str_eq value "superseded" then superseded else active

pub record BrainMemoryProvenance : Type 0 where
  pub channel : Option String
  pub user_id : Option String
  pub conversation_id : Option ℕ
  pub source_turn_id : Option ℕ
  pub trace_id : Option String
  pub tool_name : Option String
  pub url : Option String

unfoldable pub merge : BrainMemoryProvenance → BrainMemoryProvenance → BrainMemoryProvenance
merge self newer = record {
  channel = or_else newer.channel self.channel;
  user_id = or_else newer.user_id self.user_id;
  conversation_id = or_else newer.conversation_id self.conversation_id;
  source_turn_id = or_else newer.source_turn_id self.source_turn_id;
  trace_id = or_else newer.trace_id self.trace_id;
  tool_name = or_else newer.tool_name self.tool_name;
  url = or_else newer.url self.url;
}

pub record BrainMemory : Type 0 where
  pub id : ℕ
  pub scope_kind : BrainScopeKind
  pub user_id : Option String
  pub conversation_id : Option ℕ
  pub memory_kind : BrainMemoryKind
  pub memory_key : String
  pub subject : String
  pub what_value : String
  pub why_value : Option String
  pub where_context : Option String
  pub learned_value : Option String
  pub provenance : BrainMemoryProvenance
  pub confidence : F64
  pub status : BrainMemoryStatus
  pub superseded_by : Option ℕ
  pub source_turn_id : Option ℕ
  pub created_at : DateTime
  pub updated_at : DateTime

pub record BrainWriteCandidate : Type 0 where
  pub scope_kind : BrainScopeKind
  pub user_id : Option String
  pub conversation_id : Option ℕ
  pub memory_kind : BrainMemoryKind
  pub memory_key : String
  pub subject : String
  pub what_value : String
  pub why_value : Option String
  pub where_context : Option String
  pub learned_value : Option String
  pub provenance : BrainMemoryProvenance
  pub confidence : F64
  pub source_turn_id : Option ℕ

unfoldable pub normalize_field : String → List ℕ
normalize_field value = lower_codes (join_spaces (split_whitespace [] (trim (codes value))))

unfoldable pub normalize_optional : Option String → List ℕ
normalize_optional none = []
normalize_optional (some value) = normalize_field value

unfoldable pub same_content : BrainMemory → BrainWriteCandidate → Bool
same_content memory candidate =
    codes_eq (normalize_field memory.what_value) (normalize_field candidate.what_value)
    && codes_eq (normalize_optional memory.why_value) (normalize_optional candidate.why_value)
    && codes_eq (normalize_optional memory.where_context)
        (normalize_optional candidate.where_context)
    && codes_eq (normalize_optional memory.learned_value)
        (normalize_optional candidate.learned_value)

-- A part of the searched text that is there and not blank.
unfoldable pub search_part : Option String → List (List ℕ)
search_part none = []
search_part (some value) = let part = trim (codes value) in if is_empty part then [] else part ∷ []

unfoldable pub build_brain_search_text :
    String → String → Option String → Option String → Option String → List ℕ
build_brain_search_text subject what_value why_value where_context learned_value = join_spaces (
    (trim (codes subject) ∷ trim (codes what_value) ∷ [])
    ++ (search_part why_value ++ (search_part where_context ++ search_part learned_value)))

unfoldable pub search_text : BrainWriteCandidate → List ℕ
search_text c =
    build_brain_search_text c.subject c.what_value c.why_value c.where_context c.learned_value

unfoldable pub newer_turn : Option ℕ → Option ℕ → Bool
newer_turn (some existing_turn) (some candidate_turn) = leb existing_turn candidate_turn
newer_turn none (some candidate_turn) = true
newer_turn _ none = false

-- `within_margin a b` is `a + 0.05 >= b` on `f64`.
unfoldable pub candidate_should_supersede :
    (F64 → F64 → Bool) → BrainMemory → BrainWriteCandidate → Bool
candidate_should_supersede within_margin existing candidate =
    not (same_content existing candidate)
    && (newer_turn existing.source_turn_id candidate.source_turn_id
        || within_margin candidate.confidence existing.confidence)

scope_from_db-scope_as_str : (scope : BrainScopeKind) → scope_from_db (scope_as_str scope) ≡ scope
unfolding scope_from_db scope_as_str
scope_from_db-scope_as_str user = refl
scope_from_db-scope_as_str conversation = refl

kind_from_db-kind_as_str : (kind : BrainMemoryKind) → kind_from_db (kind_as_str kind) ≡ kind
unfolding kind_from_db kind_as_str
kind_from_db-kind_as_str preference = refl
kind_from_db-kind_as_str goal = refl
kind_from_db-kind_as_str constraint = refl
kind_from_db-kind_as_str decision = refl
kind_from_db-kind_as_str lesson = refl
kind_from_db-kind_as_str source_location = refl
kind_from_db-kind_as_str profile_fact = refl

status_from_db-status_as_str :
    (status : BrainMemoryStatus) → status_from_db (status_as_str status) ≡ status
unfolding status_from_db status_as_str
status_from_db-status_as_str active = refl
status_from_db-status_as_str superseded = refl

-- The names of the scope, the kind and the status that are written to the database are read back as
-- what they were.
pub from_db-as_str :
    (scope : BrainScopeKind) (kind : BrainMemoryKind) (status : BrainMemoryStatus)
    → (scope_from_db (scope_as_str scope) ≡ scope)
      × (kind_from_db (kind_as_str kind) ≡ kind)
      × (status_from_db (status_as_str status) ≡ status)
from_db-as_str scope kind status = (
  scope_from_db-scope_as_str scope,
  kind_from_db-kind_as_str kind,
  status_from_db-status_as_str status,
)
