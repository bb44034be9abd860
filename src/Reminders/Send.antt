-- ===== src/Reminders/Send.antt =====
-- src/usecase/send_reminder.rs: one attempt of a reminder job. `send_text` is the Telegram client's
-- call, which may answer each attempt differently: it is given the number of attempts made before.
-- The n-th statement on the database gets the n-th of its answers.
use rust_ia_micro_agents.Base.{
  ℕ, ◌+◌, String, str_eq, Bool, not, ◌&&◌, List, [], ◌∷◌, ◌++◌, Option, none, some, ◌⊎◌, inl, inr,
  DateTime, if◌then◌else◌, length,
}
use rust_ia_micro_agents.Base.Text.{append}
use rust_ia_micro_agents.Errors.{AppResult, ok, err, validation, to_string}
use rust_ia_micro_agents.Reminders.Jobs.{
  Answer, takes_effect, Db, ReminderSendJob, OutboundMessageInsert, insert_outbound_message,
  complete_job, fail_job, mark_reminder_sent, mark_reminder_failed,
}

pub record OutboundSendResult : Type 0 where
  pub provider_message_id : Option String
  pub status : String

-- The two switches of `PolicyConfig` that the use case reads.
pub record PolicyConfig : Type 0 where
  pub outbound_enabled : Bool
  pub dry_run : Bool

-- The database, the jobs whose message went to `send_message`, in their order, the jobs whose
-- completion or failure could not be written, and the number of answers used.
pub record World : Type 0 where
  pub db : Db
  pub attempts : List ℕ
  pub unclosed : List ℕ
  pub used : ℕ

-- The history of unclosed jobs after the statement that closes one.
abbrev pub noted : Answer → ℕ → List ℕ → List ℕ
noted answer job_id unclosed = if takes_effect answer then unclosed else unclosed ++ job_id ∷ []

abbrev pub SendText : Type 0
SendText = ℕ → String → String → AppResult OutboundSendResult

unfoldable pub send_message :
    (String → String → AppResult OutboundSendResult)
    → String
    → String
    → String
    → AppResult OutboundSendResult
send_message send_text channel recipient message =
    if str_eq channel "telegram"
    then send_text recipient message
    else if str_eq channel "local"
    then ok (record { provider_message_id = none; status = "suppressed" })
    else err (validation (append "unsupported scheduler channel: " channel))

abbrev scheduler_message : ReminderSendJob → String → Option String → String → OutboundMessageInsert
scheduler_message parsed message provider_message_id status = record {
  trace_id = "scheduler";
  conversation_id = parsed.conversation_id;
  channel = parsed.channel;
  recipient = parsed.user_id;
  content = message;
  provider_message_id = provider_message_id;
  status = status;
}

module _ (answers : ℕ → Answer) where
  -- A job whose message was sent or is suppressed: `let _ =` drops the three results.
  unfoldable pub close : DateTime → ReminderSendJob → ℕ → OutboundMessageInsert → World → World
  close now parsed job_id message w =
      let (_, inserted) = insert_outbound_message (answers w.used) message w.db in
      let (_, marked) = mark_reminder_sent (answers (w.used + 1)) now parsed.reminder_id inserted in
      let (_, completed) = complete_job (answers (w.used + 2)) now job_id marked in
      record w {
        db = completed;
        unclosed = noted (answers (w.used + 2)) job_id w.unclosed;
        used = w.used + 3;
      }

  -- A job whose message was not sent: both results are dropped.
  unfoldable pub reject : DateTime → ReminderSendJob → ℕ → String → World → World
  reject now parsed job_id reason w =
      let (_, marked) = mark_reminder_failed (answers w.used) now parsed.reminder_id reason w.db in
      let (_, retried) = fail_job (answers (w.used + 1)) now job_id reason marked in
      record w {
        db = retried;
        unclosed = noted (answers (w.used + 1)) job_id w.unclosed;
        used = w.used + 2;
      }

module _ (answers : ℕ → Answer) (send_text : SendText) (policy : PolicyConfig)
    (now : DateTime) where
  -- `execute` behind its test of the job's id. `inl` is the error text.
  unfoldable pub execute_claimed : ReminderSendJob → ℕ → World → (String ⊎ Unit {0}) × World
  unfolding close reject
  execute_claimed parsed job_id w =
      let message = append "Reminder: " parsed.text in
      let attempted = record w { attempts = w.attempts ++ job_id ∷ [] } in
      if policy.outbound_enabled && not policy.dry_run
      then elim (send_message (send_text (length w.attempts)) parsed.channel parsed.user_id
          message) [
            | ok sent ↦ (
              inr tt,
              close answers now parsed job_id
                  (scheduler_message parsed message sent.provider_message_id sent.status) attempted,
            )
            | err e ↦ (inl (to_string e), reject answers now parsed job_id (to_string e) attempted)
          ]
      else (
        inr tt,
        close answers now parsed job_id (scheduler_message parsed message none "suppressed") w,
      )

  unfoldable pub execute : ReminderSendJob → World → (String ⊎ Unit {0}) × World
  unfolding execute_claimed send_message
  execute parsed w = elim parsed.job_id [
    | none ↦ (inl "missing claimed scheduler job_id", w)
    | some job_id ↦ execute_claimed parsed job_id w
  ]
