-- ===== src/Reminders/Jobs.antt =====
-- The tables `jobs`, `reminders`, `outbound_messages` and `conversations` of
-- src/storage/postgres.rs, and its statements on them. The rows stand in the order of their ids,
-- which are the primary keys; a JSON column is its text. Times are in milliseconds. A statement is
-- given the database's answer to it; the two transactions are shown as they commit.
use rust_ia_micro_agents.Base.{
  ℕ, suc, ◌+◌, String, str_eq, Bool, true, false, ◌&&◌, List, [], ◌∷◌, ◌++◌, map, Option, none,
  some, ◌⊎◌, inl, inr, DateTime, if◌then◌else◌, leb, ◌==◌, find, filter,
}
use rust_ia_micro_agents.Base.Text.{append}
use rust_ia_micro_agents.Base.Rows.{order_by, take, update_where}
use rust_ia_micro_agents.Errors.{AppResult, ok, err, storage}

pub data JobStatus : Type 0 where
  scheduled queued done failed : JobStatus

pub data ReminderStatus : Type 0 where
  scheduled sent failed : ReminderStatus

abbrev pub Value : Type 0
Value = String

pub record Job : Type 0 where
  pub id : ℕ
  pub kind : String
  pub payload_json : Value
  pub run_at : DateTime
  pub status : JobStatus
  pub retries : ℕ
  pub last_error : Option String
  pub last_run_at : Option DateTime
  pub created_at : DateTime

pub record Reminder : Type 0 where
  pub id : ℕ
  pub conversation_id : Option ℕ
  pub user_id : String
  pub reminder_text : String
  pub due_at : DateTime
  pub status : ReminderStatus
  pub retries : ℕ
  pub last_error : Option String
  pub created_at : DateTime
  pub updated_at : DateTime

pub record OutboundMessageInsert : Type 0 where
  pub trace_id : String
  pub conversation_id : Option ℕ
  pub channel : String
  pub recipient : String
  pub content : String
  pub provider_message_id : Option String
  pub status : String

pub record Conversation : Type 0 where
  pub id : ℕ
  pub channel : String

pub record Db : Type 0 where
  pub jobs : List Job
  pub reminders : List Reminder
  pub outbound_messages : List OutboundMessageInsert
  pub conversations : List Conversation
  pub next_job_id : ℕ
  pub next_reminder_id : ℕ

pub record ReminderSendJob : Type 0 where
  pub job_id : Option ℕ
  pub reminder_id : ℕ
  pub conversation_id : Option ℕ
  pub channel : String
  pub user_id : String
  pub text : String

-- What becomes of a statement: it is carried out, it fails before it has changed anything, or it is
-- carried out and the answer is lost.
pub data Answer : Type 0 where
  carried_out : Answer
  not_executed : String → Answer
  unacknowledged : String → Answer

unfoldable pub takes_effect : Answer → Bool
takes_effect carried_out = true
takes_effect (not_executed e) = false
takes_effect (unacknowledged e) = true

-- The result of a statement that would leave `after` of `before`.
unfoldable pub answered {ℓ} : {A : Type ℓ} → String → Answer → A → Db → Db → AppResult A × Db
answered what carried_out a after before = (ok a, after)
answered what (not_executed e) a after before = (err (storage (append what e)), before)
answered what (unacknowledged e) a after before = (err (storage (append what e)), after)

unfoldable pub insert_outbound_message :
    Answer → OutboundMessageInsert → Db → AppResult (Unit {0}) × Db
unfolding answered
insert_outbound_message answer row db =
    answered "insert outbound message failed: " answer tt
      (record db { outbound_messages = db.outbound_messages ++ row ∷ [] }) db

-- The row that the INSERT of a job adds, and its id.
unfoldable pub inserted_job : String → Value → DateTime → DateTime → Db → ℕ × Db
inserted_job kind payload_json run_at now db = (
  db.next_job_id,
  record db {
    jobs =
        db.jobs
        ++ (record {
          id = db.next_job_id;
          kind = kind;
          payload_json = payload_json;
          run_at = run_at;
          status = JobStatus.scheduled;
          retries = 0;
          last_error = none;
          last_run_at = none;
          created_at = now;
        })
          ∷ [];
    next_job_id = suc db.next_job_id;
  },
)

unfoldable pub enqueue_job : Answer → String → Value → DateTime → DateTime → Db → AppResult ℕ × Db
unfolding inserted_job answered
enqueue_job answer kind payload_json run_at now db =
    let (job_id, after) = inserted_job kind payload_json run_at now db in
    answered "enqueue job failed: " answer job_id after db

unfoldable pub is_scheduled : JobStatus → Bool
is_scheduled JobStatus.scheduled = true
is_scheduled _ = false

-- `status = 'scheduled' AND run_at <= $1`.
unfoldable pub is_due : DateTime → Job → Bool
is_due now j = is_scheduled j.status && leb j.run_at now

abbrev pub has_job_id : ℕ → Job → Bool
has_job_id i j = j.id == i

-- The rows that the SELECT of `fetch_due_jobs` reads.
unfoldable pub due_rows : DateTime → ℕ → Db → List Job
due_rows now limit db = take limit (order_by (λ j. j.run_at) (filter (is_due now) db.jobs))

unfoldable pub due_jobs : DateTime → ℕ → Db → List (ℕ × String × Value)
unfolding due_rows
due_jobs now limit db = map (λ j. (j.id, j.kind, j.payload_json)) (due_rows now limit db)

unfoldable pub fetch_due_jobs : Answer → DateTime → ℕ → Db → AppResult (List (ℕ × String × Value))
unfolding due_jobs answered
fetch_due_jobs answer now limit db =
    (answered "fetch due jobs failed: " answer (due_jobs now limit db) db db).0

abbrev pub completed_job : DateTime → Job → Job
completed_job now j = record j { status = JobStatus.done; last_run_at = some now }

unfoldable pub complete_job : Answer → DateTime → ℕ → Db → AppResult (Unit {0}) × Db
unfolding answered
complete_job answer now job_id db =
    answered "complete job failed: " answer tt
      (record db { jobs = update_where (has_job_id job_id) (completed_job now) db.jobs }) db

-- The new values of the failed row are computed from the old ones.
unfoldable pub failed_job : DateTime → String → Job → Job
failed_job now reason j = record j {
  status = if leb 3 j.retries then JobStatus.failed else JobStatus.scheduled;
  retries = suc j.retries;
  last_error = some reason;
  last_run_at = some now;
  run_at = now + 60000;
}

unfoldable pub fail_job : Answer → DateTime → ℕ → String → Db → AppResult (Unit {0}) × Db
unfolding failed_job answered
fail_job answer now job_id reason db =
    answered "fail job failed: " answer tt
      (record db { jobs = update_where (has_job_id job_id) (failed_job now reason) db.jobs }) db

-- `kind = 'reminder.send' AND status = 'scheduled' AND run_at <= $1`.
unfoldable pub is_due_reminder : DateTime → Job → Bool
unfolding is_due
is_due_reminder now j = str_eq j.kind "reminder.send" && is_due now j

abbrev pub claim : DateTime → Job → Job
claim now j = record j { status = JobStatus.queued; last_run_at = some now }

module _ (from_value : Value → String ⊎ ReminderSendJob) where
  -- The loop over the selected rows. An error drops the transaction with its updates.
  unfoldable pub claim_rows : DateTime → List Job → Db → AppResult (List ReminderSendJob × Db)
  claim_rows now [] db = ok ([], db)
  claim_rows now (row ∷ rows) db = elim (from_value row.payload_json) [
    | inl e ↦ err (storage (append "claim due reminder jobs decode failed: " e))
    | inr job ↦
        elim (claim_rows now rows
          (record db { jobs = update_where (has_job_id row.id) (claim now) db.jobs })) [
            | err e ↦ err e
            | ok (jobs, claimed) ↦ ok (record job { job_id = some row.id } ∷ jobs, claimed)
          ]
  ]

  unfoldable pub claim_due_reminder_jobs : DateTime → ℕ → Db → AppResult (List ReminderSendJob) × Db
  unfolding claim_rows is_due_reminder
  claim_due_reminder_jobs now limit db =
      elim (claim_rows now
        (take limit (order_by (λ j. j.run_at) (filter (is_due_reminder now) db.jobs))) db) [
          | err e ↦ (err e, db)
          | ok (jobs, claimed) ↦ (ok jobs, claimed)
        ]

abbrev has_conversation_id : ℕ → Conversation → Bool
has_conversation_id i c = c.id == i

channel_of : Db → Option ℕ → String
channel_of db none = "local"
channel_of db (some i) = elim (find (has_conversation_id i) db.conversations) [
  | none ↦ "local"
  | some c ↦ c.channel
]

-- `to_value` is the JSON object with the five fields of the job, without `job_id`.
unfoldable pub create_reminder :
    (ReminderSendJob → Value) → Option ℕ → String → String → DateTime → DateTime → Db → ℕ × Db
unfolding channel_of inserted_job
create_reminder to_value conversation_id user_id reminder_text due_at now db =
    let reminder_id = db.next_reminder_id in
    let payload = to_value (record {
      job_id = none;
      reminder_id = reminder_id;
      conversation_id = conversation_id;
      channel = channel_of db conversation_id;
      user_id = user_id;
      text = reminder_text;
    }) in
    let with_reminder = record db {
      reminders =
          db.reminders
          ++ (record {
            id = reminder_id;
            conversation_id = conversation_id;
            user_id = user_id;
            reminder_text = reminder_text;
            due_at = due_at;
            status = ReminderStatus.scheduled;
            retries = 0;
            last_error = none;
            created_at = now;
            updated_at = now;
          })
            ∷ [];
      next_reminder_id = suc reminder_id;
    } in
    (reminder_id, (inserted_job "reminder.send" payload due_at now with_reminder).1)

abbrev has_reminder_id : ℕ → Reminder → Bool
has_reminder_id i r = r.id == i

unfoldable pub mark_reminder_sent : Answer → DateTime → ℕ → Db → AppResult (Unit {0}) × Db
unfolding answered
mark_reminder_sent answer now reminder_id db =
    answered "mark reminder sent failed: " answer tt
      (record db {
        reminders =
            update_where (has_reminder_id reminder_id)
              (λ r. record r { status = ReminderStatus.sent; updated_at = now }) db.reminders;
      })
      db

unfoldable pub mark_reminder_failed :
    Answer → DateTime → ℕ → String → Db → AppResult (Unit {0}) × Db
unfolding answered
mark_reminder_failed answer now reminder_id reason db =
    answered "mark reminder failed failed: " answer tt
      (record db {
        reminders =
            update_where (has_reminder_id reminder_id)
              (λ r. record r {
                status = ReminderStatus.failed;
                retries = suc r.retries;
                last_error = some reason;
                updated_at = now;
              })
              db.reminders;
      })
      db
