-- ===== src/Examples/Reminders.antt =====
-- The reminders' jobs on small tables, and the theorems on them.
use rust_ia_micro_agents.Base.{
  ℕ, ◌+◌, ◌==◌, ◌≤◌, ◌≡◌, refl, String, str_eq, true, false, List, [], ◌∷◌, ◌++◌, map, none, ◌⊎◌,
  inl, inr, arith, All, if◌then◌else◌,
}
use rust_ia_micro_agents.Base.Rows.{order_by}
use rust_ia_micro_agents.Errors.{AppError, ok, err, http}
use rust_ia_micro_agents.Reminders.Jobs.{
  Answer, carried_out, not_executed, takes_effect, answered, inserted_job, due_jobs, Value,
  JobStatus, Job, Db, ReminderSendJob, is_scheduled, is_due, enqueue_job, fail_job, complete_job,
  mark_reminder_sent, mark_reminder_failed, insert_outbound_message, create_reminder,
  claim_due_reminder_jobs, fetch_due_jobs,
}
use rust_ia_micro_agents.Reminders.Send.{PolicyConfig, World, SendText, execute}
use rust_ia_micro_agents.Reminders.Worker.{Step, tick, enqueue, run_job, tick_once, step, steps}
use rust_ia_micro_agents.Base.Selection.{occurrences}
use rust_ia_micro_agents.Reminders.Retries.{steps-attempts}
use rust_ia_micro_agents.Reminders.Claims.{IsTaken, claim_due_reminder_jobs-exclusive}
use rust_ia_micro_agents.Reminders.Blocking.{IsOldest, steps-blocked}

abbrev sending : PolicyConfig
sending = record { outbound_enabled = true; dry_run = false }

abbrev tea : ReminderSendJob
tea = record {
  job_id = none;
  reminder_id = 1;
  conversation_id = none;
  channel = "telegram";
  user_id = "42";
  text = "tea";
}

-- A decoder that knows one payload.
abbrev decode : Value → String ⊎ ReminderSendJob
decode v = if str_eq v "tea" then inr tea else inl "not an object"

abbrev unreachable_channel : SendText
unreachable_channel n recipient message = err (http "down")

abbrev working_channel : SendText
working_channel n recipient message = ok (record { provider_message_id = none; status = "sent" })

abbrev all_written : ℕ → Answer
all_written n = carried_out

-- Only the statement that completes the job in the first tick fails.
abbrev completion_lost : ℕ → Answer
completion_lost n = if n == 4 then not_executed "connection closed" else carried_out

abbrev empty_db : Db
empty_db = record {
  jobs = [];
  reminders = [];
  outbound_messages = [];
  conversations = [];
  next_job_id = 1;
  next_reminder_id = 1;
}

abbrev empty_world : World
empty_world = record { db = empty_db; attempts = []; unclosed = []; used = 0 }

abbrev minutes : List Step
minutes =
    enqueue "reminder.send" "tea" 0 0
    ∷ tick 0
    ∷ tick 60000
    ∷ tick 120000
    ∷ tick 180000
    ∷ tick 240000
    ∷ tick 300000
    ∷ []

-- Four attempts a minute apart, then the job has failed.
four_attempts :
    (steps decode all_written unreachable_channel sending minutes empty_world).attempts
    ≡ 1 ∷ 1 ∷ 1 ∷ 1 ∷ []
unfolding steps step tick_once fetch_due_jobs due_jobs order_by enqueue_job inserted_job is_due
    is_scheduled run_job execute fail_job mark_reminder_failed complete_job mark_reminder_sent
    insert_outbound_message answered takes_effect
four_attempts = refl

final_statuses :
    map
      (λ j. j.status)
      (steps decode all_written unreachable_channel sending minutes empty_world).db.jobs
    ≡ JobStatus.failed ∷ []
unfolding steps step tick_once fetch_due_jobs due_jobs order_by enqueue_job inserted_job is_due
    is_scheduled run_job execute fail_job mark_reminder_failed complete_job mark_reminder_sent
    insert_outbound_message answered takes_effect
final_statuses = refl

sent_once : (steps decode all_written working_channel sending minutes empty_world).attempts ≡ 1 ∷ []
unfolding steps step tick_once fetch_due_jobs due_jobs order_by enqueue_job inserted_job is_due
    is_scheduled run_job execute fail_job mark_reminder_failed complete_job mark_reminder_sent
    insert_outbound_message answered takes_effect
sent_once = refl

-- A job whose completion was not written is sent again.
sent_twice :
    let after = steps decode completion_lost working_channel sending minutes empty_world in
    (after.attempts ≡ 1 ∷ 1 ∷ []) × (after.unclosed ≡ 1 ∷ [])
unfolding steps step tick_once fetch_due_jobs due_jobs order_by enqueue_job inserted_job is_due
    is_scheduled run_job execute fail_job mark_reminder_failed complete_job mark_reminder_sent
    insert_outbound_message answered takes_effect
sent_twice = (refl, refl)

steps-attempts_example :
    let after = steps decode completion_lost unreachable_channel sending minutes empty_world in
    occurrences 1 after.attempts ≤ 4 + occurrences 1 after.unclosed
steps-attempts_example =
    steps-attempts decode completion_lost unreachable_channel sending minutes empty_world 1 refl
      refl

abbrev job_with : ℕ → Value → ℕ → Job
job_with i payload run_at = record {
  id = i;
  kind = "reminder.send";
  payload_json = payload;
  run_at = run_at;
  status = JobStatus.scheduled;
  retries = 0;
  last_error = none;
  last_run_at = none;
  created_at = 0;
}

-- An undecodable job, and a good one behind it.
abbrev blocked_world : World
blocked_world = record {
  db = record empty_db { jobs = job_with 1 "{}" 0 ∷ job_with 2 "tea" 10 ∷ []; next_job_id = 3 };
  attempts = [];
  unclosed = [];
  used = 0;
}

blocked_world-IsOldest : IsOldest (job_with 1 "{}" 0) blocked_world.db
unfolding is_scheduled
blocked_world-IsOldest = record {
  waiting = refl;
  stored = inl refl;
  behind = (inr (inl refl), (inr (inr (omega arith)), tt));
}

steps-blocked_example :
    let after =
      steps decode all_written working_channel sending
        (tick 20 ∷ enqueue "reminder.send" "tea" 30 25 ∷ tick 90000 ∷ [])
        blocked_world in
    (added : List Job) × (after.attempts ≡ [])
    × (after.db.jobs ≡ (job_with 1 "{}" 0 ∷ job_with 2 "tea" 10 ∷ []) ++ added)
steps-blocked_example =
    steps-blocked decode all_written working_channel sending (job_with 1 "{}" 0) "not an object"
      refl refl (tick 20 ∷ enqueue "reminder.send" "tea" 30 25 ∷ tick 90000 ∷ []) blocked_world
      blocked_world-IsOldest (omega arith)

abbrev due_world : Db
due_world = record empty_db {
  jobs = job_with 1 "tea" 0 ∷ job_with 2 "tea" 10 ∷ [];
  next_job_id = 3;
}

claim_due_reminder_jobs-exclusive_example :
    let outcome = claim_due_reminder_jobs decode 20 32 due_world in
    ((e : AppError) × (outcome ≡ (err e, due_world)))
    ⊎ ((jobs : List ReminderSendJob) × (db' : Db) × (outcome ≡ (ok jobs, db'))
        × All (IsTaken db') jobs)
claim_due_reminder_jobs-exclusive_example = claim_due_reminder_jobs-exclusive decode 20 32 due_world

created :
    map {B = ℕ × String}
      (λ j. (j.run_at, j.payload_json))
      (create_reminder (λ job. job.text) none "42" "tea" 500 0 empty_db).1.jobs
    ≡ (500, "tea") ∷ []
unfolding create_reminder inserted_job
created = refl
