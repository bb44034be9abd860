-- ===== src/Outbox/Publisher.antt =====
-- src/telemetry/redis_bus.rs, `OutboxPublisher`: the loop that publishes the outbox. The stream and
-- the database answer from outside; the n-th event handled gets the n-th answer. A command that
-- answers with an error may have been carried out all the same.
use rust_ia_micro_agents.Base.{
  ℕ, suc, Bool, if◌then◌else◌, ◌*◌, min, String, List, [], ◌∷◌, ◌++◌, DateTime,
}
use rust_ia_micro_agents.Errors.{AppResult, ok, err, to_string}
use rust_ia_micro_agents.Outbox.Events.{
  BusEventEnvelope, OutboxEventRecord, event_id, insert_outbox_event, fetch_pending_outbox_events,
  mark_outbox_published, record_outbox_failure,
}

-- What XADD answers to an event, and the statement that writes the outcome down; and, for an answer
-- that is an error, whether the stream took the event and whether the statement was carried out.
pub record Answer : Type 0 where
  pub published : BusEventEnvelope → AppResult String
  pub taken : Bool
  pub stored : AppResult (Unit {0})
  pub written : Bool

abbrev pub Answers : Type 0
Answers = ℕ → Answer

-- The table, the identifiers that the stream has taken, those of them that were not marked, the number of answers used, and the loop's variable.
pub record World : Type 0 where
  pub rows : List OutboxEventRecord
  pub stream : List ℕ
  pub lost : List ℕ
  pub used : ℕ
  pub error_backoff_ms : ℕ

pub record BusConfig : Type 0 where
  pub outbox_publish_batch : ℕ
  pub outbox_max_retries : ℕ

module _ (answers : Answers) (config : BusConfig) where
  -- The body of the loop of `tick_once`; an error leaves the loop by `?`.
  unfoldable pub publish_event : DateTime → OutboxEventRecord → World → AppResult (Unit {0}) × World
  publish_event now event w =
      let answer = answers w.used in
      let next = record w { used = suc w.used } in
      let marked = mark_outbox_published now (event_id event) w.rows in
      let sent = w.stream ++ event_id event ∷ [] in
      let unmarked = w.lost ++ event_id event ∷ [] in
      elim (answer.published event.envelope) [
        | ok redis_id ↦ elim answer.stored [
          | ok done ↦ (ok tt, record next { rows = marked; stream = sent })
          | err e ↦ (
            err e,
            record next {
              rows = if answer.written then marked else w.rows;
              stream = sent;
              lost = if answer.written then w.lost else unmarked;
            },
          )
        ]
        | err reason ↦
            let recorded =
              record_outbox_failure (event_id event) (to_string reason) config.outbox_max_retries
                w.rows in
            let refused = record next {
              stream = if answer.taken then sent else w.stream;
              lost = if answer.taken then unmarked else w.lost;
            } in
            elim answer.stored [
              | ok done ↦ (ok tt, record refused { rows = recorded })
              | err e ↦
                  (err e, record refused { rows = if answer.written then recorded else w.rows })
            ]
      ]

  unfoldable pub publish_events :
      DateTime → List OutboxEventRecord → World → AppResult (Unit {0}) × World
  publish_events now [] w = (ok tt, w)
  publish_events now (event ∷ pending) w =
      let (outcome, after) = publish_event now event w in
      elim outcome [ err e ↦ (err e, after) | ok done ↦ publish_events now pending after ]

  unfoldable pub tick_once : DateTime → World → AppResult (Unit {0}) × World
  unfolding publish_events
  tick_once now w =
      publish_events now (fetch_pending_outbox_events config.outbox_publish_batch w.rows) w

  -- The loop of `spawn` behind a tick: how long to wait after an error the next time.
  unfoldable pub backoff : AppResult (Unit {0}) → ℕ → ℕ
  backoff (ok done) error_backoff_ms = 250
  backoff (err e) error_backoff_ms = min (error_backoff_ms * 2) 5000

  unfoldable pub turn : DateTime → World → World
  unfolding backoff
  turn now w =
      let (outcome, after) = tick_once now w in
      record after { error_backoff_ms = backoff outcome w.error_backoff_ms }

-- The turns of the loop, and the events that are enqueued meanwhile.
pub data Step : Type 0 where
  tick : DateTime → Step
  enqueue : BusEventEnvelope → Step

module _ (answers : Answers) (config : BusConfig) where
  unfoldable pub step : Step → World → World
  step (tick now) w = turn answers config now w
  step (enqueue envelope) w = record w { rows = insert_outbox_event envelope w.rows }

  unfoldable pub steps : List Step → World → World
  steps [] w = w
  steps (s ∷ rest) w = steps rest (step s w)
