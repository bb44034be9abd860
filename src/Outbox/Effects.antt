-- ===== src/Outbox/Effects.antt =====
-- What the handling of one event by src/telemetry/redis_bus.rs does to the outbox and the stream.
use rust_ia_micro_agents.Base.{
  ℕ, suc, ◌+◌, ◌≡◌, refl, sym, Bool, true, false, List, [], ◌∷◌, ◌++◌, some, none, inl, inr, arith,
  is_some, Bool-cases, if◌then◌else◌, ltb, DateTime,
}
use rust_ia_micro_agents.Base.Rows.{update_where}
use rust_ia_micro_agents.Errors.{AppError, AppResult-cases, to_string}
use rust_ia_micro_agents.Outbox.Events.{
  OutboxEventRecord, event_id, has_event_id, is_pending, mark_outbox_published,
  record_outbox_failure,
}
use rust_ia_micro_agents.Outbox.Publisher.{Answers, World, BusConfig, publish_event}

abbrev pub bit : Bool → ℕ
bit b = if b then 1 else 0

abbrev pub added : Bool → ℕ → List ℕ → List ℕ
added b d ids = if b then ids ++ d ∷ [] else ids

-- `sent`: the stream took the event; `unmarked`: it did, and the event was not marked.
pub record Effect (d : ℕ) (w w' : World) : Type 0 where
  pub sent : Bool
  pub unmarked : Bool
  pub change : OutboxEventRecord → OutboxEventRecord
  pub keeps_id : (row : OutboxEventRecord) → event_id (change row) ≡ event_id row
  pub counts :
      (row : OutboxEventRecord)
      → is_pending row ≡ true
      → bit sent ≡ bit unmarked + bit (is_some (change row).published_at)
  pub rows : w'.rows ≡ update_where (has_event_id d) change w.rows
  pub stream : w'.stream ≡ added sent d w.stream
  pub lost : w'.lost ≡ added unmarked d w.lost

update_where-same :
    (p : OutboxEventRecord → Bool) (rows : List OutboxEventRecord)
    → update_where p (λ row. row) rows ≡ rows
update_where-same p [] = refl
update_where-same p (row ∷ rows) = ground (arith, update_where-same p rows)

-- What becomes of the row of an event that was published, and of one that was not.
abbrev marked_row : DateTime → OutboxEventRecord → OutboxEventRecord
marked_row now row = record row {
  published_at = some now;
  publish_attempts = suc row.publish_attempts;
  last_error = none;
}

abbrev failed_row : AppError → ℕ → OutboxEventRecord → OutboxEventRecord
failed_row reason retries row = record row {
  publish_attempts = suc row.publish_attempts;
  last_error =
      if ltb (suc row.publish_attempts) retries
      then some (to_string reason)
      else some (to_string reason);
}

module _ (answers : Answers) (config : BusConfig) where
  pub publish_event-Effect :
      (now : DateTime) (event : OutboxEventRecord) (w : World)
      → Effect (event_id event) w (publish_event answers config now event w).1
  unfolding publish_event mark_outbox_published record_outbox_failure is_pending
  publish_event-Effect now event w =
      let answer = answers w.used in
      let i = event_id event in
      let as_before = sym (update_where-same (has_event_id i) w.rows) in
      elim (AppResult-cases (answer.published event.envelope)) [
        | inl (redis_id, p) ↦ elim (AppResult-cases answer.stored) [
          | inl (done, s) ↦
              rw (p, publish_event)
                (rw s (record {
                  sent = true;
                  unmarked = false;
                  change = marked_row now;
                  keeps_id = λ row. refl;
                  counts = λ row h. refl;
                  rows = refl;
                  stream = refl;
                  lost = refl;
                }))
          | inr (e, s) ↦ elim (Bool-cases answer.written) [
            | inl k ↦
                rw (p, publish_event)
                  (rw s (record {
                    sent = true;
                    unmarked = false;
                    change = marked_row now;
                    keeps_id = λ row. refl;
                    counts = λ row h. refl;
                    rows = rw k refl;
                    stream = refl;
                    lost = rw k refl;
                  }))
            | inr k ↦
                rw (p, publish_event)
                  (rw s (record {
                    sent = true;
                    unmarked = true;
                    change = λ row. row;
                    keeps_id = λ row. refl;
                    counts = λ row h. ground arith;
                    rows = rw k as_before;
                    stream = refl;
                    lost = rw k refl;
                  }))
          ]
        ]
        | inr (reason, p) ↦ elim (AppResult-cases answer.stored) [
          | inl (done, s) ↦
              rw (p, publish_event)
                (rw s (record {
                  sent = answer.taken;
                  unmarked = answer.taken;
                  change = failed_row reason config.outbox_max_retries;
                  keeps_id = λ row. refl;
                  counts = λ row h. ground arith;
                  rows = refl;
                  stream = refl;
                  lost = refl;
                }))
          | inr (e, s) ↦ elim (Bool-cases answer.written) [
            | inl k ↦
                rw (p, publish_event)
                  (rw s (record {
                    sent = answer.taken;
                    unmarked = answer.taken;
                    change = failed_row reason config.outbox_max_retries;
                    keeps_id = λ row. refl;
                    counts = λ row h. ground arith;
                    rows = rw k refl;
                    stream = refl;
                    lost = refl;
                  }))
            | inr k ↦
                rw (p, publish_event)
                  (rw s (record {
                    sent = answer.taken;
                    unmarked = answer.taken;
                    change = λ row. row;
                    keeps_id = λ row. refl;
                    counts = λ row h. ground arith;
                    rows = rw k as_before;
                    stream = refl;
                    lost = refl;
                  }))
          ]
        ]
      ]
