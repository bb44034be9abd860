-- ===== src/Examples/Outbox.antt =====
-- The outbox on a few events, and the theorem on it.
use rust_ia_micro_agents.Base.{
  ℕ, true, false, ◌≡◌, refl, String, str_eq, List, [], ◌∷◌, Option, some, none, ◌==◌, if◌then◌else◌,
}
use rust_ia_micro_agents.Base.Rows.{order_by}
use rust_ia_micro_agents.Errors.{ok, err, http, storage}
use rust_ia_micro_agents.Outbox.Events.{
  Value, ℤ, negsuc, BusEventEnvelope, is_pending, runtime_event_envelope, insert_outbox_event,
  fetch_pending_outbox_events, mark_outbox_published, record_outbox_failure,
}
use rust_ia_micro_agents.Outbox.Publisher.{
  Answers, World, BusConfig, publish_event, tick_once, turn, Step, tick, enqueue, step, steps,
}

abbrev read_text : Value → String → Option String
read_text payload key =
    if str_eq key "model_route"
    then some "fast_text"
    else if str_eq key "task_id"
    then some "t1"
    else none

abbrev read_number : Value → String → Option ℤ
read_number payload key = if str_eq key "evidence_count" then some (negsuc 4) else none

abbrev event_numbered : ℕ → BusEventEnvelope
event_numbered i =
    runtime_event_envelope (λ s. none) read_text read_number i
      (record { id = "not a uuid"; event_type = "task_started"; payload = "{}"; created_at = i })

envelope_fields : (event_numbered 7).route_key ≡ some "fast_text"
unfolding runtime_event_envelope
envelope_fields = refl

envelope_count : (event_numbered 7).evidence_count ≡ some 0
unfolding runtime_event_envelope
envelope_count = refl

-- The stream takes the second event with an error, and the mark of the third is lost.
abbrev some_answers : Answers
some_answers n =
    if n == 1
    then record {
      published = λ e. err (http "timeout");
      taken = true;
      stored = ok tt;
      written = true;
    }
    else if n == 2
    then record {
      published = λ e. ok "0-1";
      taken = true;
      stored = err (storage "connection closed");
      written = false;
    }
    else record { published = λ e. ok "0-1"; taken = true; stored = ok tt; written = true }

abbrev small_bus : BusConfig
small_bus = record { outbox_publish_batch = 8; outbox_max_retries = 3 }

abbrev nothing_yet : World
nothing_yet = record { rows = []; stream = []; lost = []; used = 0; error_backoff_ms = 250 }

abbrev three_events : List Step
three_events =
    enqueue (event_numbered 1)
    ∷ enqueue (event_numbered 2)
    ∷ enqueue (event_numbered 3)
    ∷ enqueue (event_numbered 1)
    ∷ tick 10
    ∷ tick 20
    ∷ []

stream_after :
    (steps some_answers small_bus three_events nothing_yet).stream ≡ 1 ∷ 2 ∷ 3 ∷ 2 ∷ 3 ∷ []
unfolding steps step turn tick_once publish_event insert_outbox_event fetch_pending_outbox_events
    is_pending order_by mark_outbox_published record_outbox_failure runtime_event_envelope
stream_after = refl
