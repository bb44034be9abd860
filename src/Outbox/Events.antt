-- ===== src/Outbox/Events.antt =====
-- The envelopes of src/telemetry/event_bus.rs, and the statements of src/storage/postgres.rs on the
-- table `outbox_events`. An identifier is the number that a UUID is; a JSON payload is its text.
use rust_ia_micro_agents.Base.{
  ℕ, suc, ◌%◌, ◌^◌, String, Bool, not, ◌&&◌, List, [], ◌∷◌, ◌++◌, Option, none, some, DateTime,
  if◌then◌else◌, ltb, ◌==◌, any, count, filter, is_some, or_else, unwrap_or,
}
use rust_ia_micro_agents.Base.Rows.{order_by, take, update_where}

abbrev pub Value : Type 0
Value = String

-- An `i64` of a payload.
pub data ℤ : Type 0 where
  pos negsuc : ℕ → ℤ

pub record RuntimeEvent : Type 0 where
  pub id : String
  pub event_type : String
  pub payload : Value
  pub created_at : DateTime

pub record BusEventEnvelope : Type 0 where
  pub id : ℕ
  pub event_kind : String
  pub stream_key : String
  pub aggregate_id : Option String
  pub conversation_id : Option ℤ
  pub trace_id : Option String
  pub task_id : Option String
  pub subagent_id : Option String
  pub route_key : Option String
  pub resolved_model : Option String
  pub evidence_count : Option ℕ
  pub reasoning_tier : Option String
  pub fallback_kind : Option String
  pub created_at : DateTime
  pub payload : Value

-- The first of the keys under which the payload has a value of the type.
unfoldable pub pick {ℓ} :
    {A : Type ℓ} → (Value → String → Option A) → Value → List String → Option A
pick get payload [] = none
pick get payload (key ∷ keys) = or_else (get payload key) (pick get payload keys)

-- `value.max(0) as u32`.
unfoldable pub clamped : Option ℤ → Option ℕ
clamped none = none
clamped (some (pos n)) = some (n % 2 ^ 32)
clamped (some (negsuc n)) = some 0

-- `parse_str` reads a UUID; `get_str` and `get_i64` read a field of an object.
module _ (parse_str : String → Option ℕ) (get_str : Value → String → Option String)
    (get_i64 : Value → String → Option ℤ) where
  -- `fresh` is the identifier drawn where the event's own is no UUID.
  unfoldable pub runtime_event_envelope : ℕ → RuntimeEvent → BusEventEnvelope
  unfolding pick clamped
  runtime_event_envelope fresh event = record {
    id = unwrap_or (parse_str event.id) fresh;
    event_kind = event.event_type;
    stream_key = "events";
    aggregate_id = pick get_str event.payload ("event_id" ∷ "plan_id" ∷ "task_id" ∷ []);
    conversation_id = pick get_i64 event.payload ("conversation_id" ∷ []);
    trace_id = pick get_str event.payload ("trace_id" ∷ []);
    task_id = pick get_str event.payload ("task_id" ∷ []);
    subagent_id = pick get_str event.payload ("subagent_id" ∷ []);
    route_key = pick get_str event.payload ("route_key" ∷ "model_route" ∷ []);
    resolved_model = pick get_str event.payload ("resolved_model" ∷ "model" ∷ []);
    evidence_count = clamped (pick get_i64 event.payload ("evidence_count" ∷ []));
    reasoning_tier = pick get_str event.payload ("reasoning_tier" ∷ []);
    fallback_kind = pick get_str event.payload ("fallback_kind" ∷ []);
    created_at = event.created_at;
    payload = event.payload;
  }

pub record OutboxEventRecord : Type 0 where
  pub envelope : BusEventEnvelope
  pub publish_attempts : ℕ
  pub published_at : Option DateTime
  pub last_error : Option String

abbrev pub event_id : OutboxEventRecord → ℕ
event_id row = row.envelope.id

abbrev pub has_event_id : ℕ → OutboxEventRecord → Bool
has_event_id i row = event_id row == i

-- `ON CONFLICT (id) DO NOTHING`.
unfoldable pub insert_outbox_event :
    BusEventEnvelope → List OutboxEventRecord → List OutboxEventRecord
insert_outbox_event envelope rows =
    if any (has_event_id envelope.id) rows
    then rows
    else rows
      ++ record {
        envelope = envelope;
        publish_attempts = 0;
        published_at = none;
        last_error = none;
      }
        ∷ []

-- `published_at IS NULL`.
unfoldable pub is_pending : OutboxEventRecord → Bool
is_pending row = not (is_some row.published_at)

unfoldable pub fetch_pending_outbox_events : ℕ → List OutboxEventRecord → List OutboxEventRecord
fetch_pending_outbox_events limit rows =
    take limit (order_by (λ row. row.envelope.created_at) (filter is_pending rows))

unfoldable pub mark_outbox_published :
    DateTime → ℕ → List OutboxEventRecord → List OutboxEventRecord
mark_outbox_published now id rows =
    update_where (has_event_id id)
      (λ row. record row {
        published_at = some now;
        publish_attempts = suc row.publish_attempts;
        last_error = none;
      })
      rows

-- Both cases of the statement's CASE give the error.
unfoldable pub record_outbox_failure :
    ℕ → String → ℕ → List OutboxEventRecord → List OutboxEventRecord
record_outbox_failure id error max_retries rows =
    update_where (has_event_id id)
      (λ row. record row {
        publish_attempts = suc row.publish_attempts;
        last_error = if ltb (suc row.publish_attempts) max_retries then some error else some error;
      })
      rows

pub record OutboxStats : Type 0 where
  pub pending : ℕ
  pub published : ℕ
  pub failed : ℕ

unfoldable pub outbox_stats : List OutboxEventRecord → OutboxStats
outbox_stats rows = record {
  pending = count is_pending rows;
  published = count (λ row. is_some row.published_at) rows;
  failed = count (λ row. is_pending row && ltb 0 row.publish_attempts) rows;
}
