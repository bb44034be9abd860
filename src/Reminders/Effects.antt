-- ===== src/Reminders/Effects.antt =====
-- What the run of one job by src/scheduler/worker.rs does to the rows of the table `jobs`.
use rust_ia_micro_agents.Base.{
  ℕ, suc, ◌∙◌, ◌+◌, ◌≤◌, String, str_eq, ◌≡◌, refl, sym, ap, Bool, true, false, not, ◌&&◌, List, [],
  ◌∷◌, ◌++◌, ◌⊎◌, inl, inr, arith, leb, if◌then◌else◌, Bool-cases, DateTime, length, some,
}
use rust_ia_micro_agents.Base.Text.{append}
use rust_ia_micro_agents.Base.Rows.{update_where}
use rust_ia_micro_agents.Errors.{ok, AppResult-cases, to_string}
use rust_ia_micro_agents.Reminders.Jobs.{
  Value, Job, Db, ReminderSendJob, is_scheduled, OutboundMessageInsert, has_job_id, fail_job,
  failed_job, complete_job, completed_job, Answer, carried_out, not_executed, unacknowledged,
  takes_effect, answered, fetch_due_jobs, due_jobs, mark_reminder_sent, mark_reminder_failed,
  insert_outbound_message,
}
use rust_ia_micro_agents.Reminders.Send.{
  SendText, PolicyConfig, World, send_message, noted, close, reject, execute_claimed, execute,
}
use rust_ia_micro_agents.Reminders.Worker.{run_job}

-- What the run of one fetched job does to the rows and to the attempts.
pub record Effect (d : ℕ) (w w' : World) : Type 0 where
  pub sent : Bool
  pub written : Bool
  pub change : Job → Job
  pub keeps_id : (j : Job) → (change j).id ≡ j.id
  pub counts :
      (j : Job)
      → is_scheduled j.status ≡ true
      → j.retries ≤ 3
      → (is_scheduled (change j).status ≡ false)
        ⊎ ((j.retries + (if sent then 1 else 0) ≤ (change j).retries + (if written then 0 else 1))
            × ((change j).retries ≤ 3))
  pub jobs : w'.db.jobs ≡ update_where (has_job_id d) change w.db.jobs
  pub attempts : w'.attempts ≡ (if sent then w.attempts ++ d ∷ [] else w.attempts)
  pub unclosed : w'.unclosed ≡ (if written then w.unclosed else w.unclosed ++ d ∷ [])
  pub next : w'.db.next_job_id ≡ w.db.next_job_id

pub Sum-cases : {A B : Type 0} (s : A ⊎ B) → ((a : A) × (s ≡ inl a)) ⊎ ((b : B) × (s ≡ inr b))
Sum-cases (inl a) = inl (a, refl)
Sum-cases (inr b) = inr (b, refl)

update_where-same : (p : Job → Bool) (js : List Job) → update_where p (λ j. j) js ≡ js
update_where-same p [] = refl
update_where-same p (j ∷ js) = ground (arith, update_where-same p js)

failed_job-counts :
    (now : ℕ) (reason : String) (j : Job)
    → j.retries ≤ 3
    → (is_scheduled (failed_job now reason j).status ≡ false)
      ⊎ ((j.retries + 1 ≤ (failed_job now reason j).retries)
          × ((failed_job now reason j).retries ≤ 3))
unfolding failed_job is_scheduled
failed_job-counts now reason j h = elim (Bool-cases (leb 3 j.retries)) [
  | inl e ↦ rw e (inl refl)
  | inr e ↦ inr (omega arith, ground arith)
]

-- A statement that is carried out or not leaves one of two states.
pub answered-cases :
    (what : String) (answer : Answer) (after before : Db) (i : ℕ)
    → ((answered what answer i after before).1 ≡ after)
      ⊎ ((answered what answer i after before).1 ≡ before)
unfolding answered
answered-cases what carried_out after before i = inl refl
answered-cases what (not_executed e) after before i = inr refl
answered-cases what (unacknowledged e) after before i = inl refl

-- What a fetch that succeeds has read.
pub fetch_due_jobs-ok :
    (answer : Answer) (now limit : ℕ) (db : Db) (due : List (ℕ × String × Value))
    → fetch_due_jobs answer now limit db ≡ ok due
    → due ≡ due_jobs now limit db
unfolding fetch_due_jobs answered
fetch_due_jobs-ok carried_out now limit db due e = cc
fetch_due_jobs-ok (not_executed f) now limit db due e = cc
fetch_due_jobs-ok (unacknowledged f) now limit db due e = cc

-- The statements that leave the jobs alone.
abbrev KeepsJobs : Db → Db → Type 0
KeepsJobs db after = (after.jobs ≡ db.jobs) × (after.next_job_id ≡ db.next_job_id)

insert_outbound_message-KeepsJobs :
    (answer : Answer) (message : OutboundMessageInsert) (db : Db)
    → KeepsJobs db (insert_outbound_message answer message db).1
unfolding insert_outbound_message answered
insert_outbound_message-KeepsJobs carried_out message db = (refl, refl)
insert_outbound_message-KeepsJobs (not_executed e) message db = (refl, refl)
insert_outbound_message-KeepsJobs (unacknowledged e) message db = (refl, refl)

mark_reminder_sent-KeepsJobs :
    (answer : Answer) (now i : ℕ) (db : Db) → KeepsJobs db (mark_reminder_sent answer now i db).1
unfolding mark_reminder_sent answered
mark_reminder_sent-KeepsJobs carried_out now i db = (refl, refl)
mark_reminder_sent-KeepsJobs (not_executed e) now i db = (refl, refl)
mark_reminder_sent-KeepsJobs (unacknowledged e) now i db = (refl, refl)

mark_reminder_failed-KeepsJobs :
    (answer : Answer) (now i : ℕ) (reason : String) (db : Db)
    → KeepsJobs db (mark_reminder_failed answer now i reason db).1
unfolding mark_reminder_failed answered
mark_reminder_failed-KeepsJobs carried_out now i reason db = (refl, refl)
mark_reminder_failed-KeepsJobs (not_executed e) now i reason db = (refl, refl)
mark_reminder_failed-KeepsJobs (unacknowledged e) now i reason db = (refl, refl)

-- The statements that close a job, behind others that leave the jobs alone.
abbrev Rewrites : ℕ → (Job → Job) → Answer → Db → Db → Type 0
Rewrites d f answer db after =
    (after.jobs ≡ (if takes_effect answer then update_where (has_job_id d) f db.jobs else db.jobs))
    × (after.next_job_id ≡ db.next_job_id)

answered-Rewrites :
    (what : String) (answer : Answer) (d : ℕ) (f : Job → Job) (db mid : Db)
    → KeepsJobs db mid
    → Rewrites d f answer db
        (answered {0} what answer tt
          (record mid { jobs = update_where (has_job_id d) f mid.jobs })
          mid).1
unfolding answered takes_effect
answered-Rewrites what carried_out d f db mid (k, n) = (ap (update_where (has_job_id d) f) k, n)
answered-Rewrites what (not_executed e) d f db mid (k, n) = (k, n)
answered-Rewrites what (unacknowledged e) d f db mid (k, n) =
    (ap (update_where (has_job_id d) f) k, n)

KeepsJobs-trans : (a b c : Db) → KeepsJobs a b → KeepsJobs b c → KeepsJobs a c
KeepsJobs-trans a b c (j, n) (k, m) = (k ∙ j, m ∙ n)

unchanged : (d : ℕ) (w : World) → Effect d w w
unchanged d w = record {
  sent = false;
  written = true;
  change = λ j. j;
  keeps_id = λ j. refl;
  counts = λ j e h. inr (omega arith, h);
  jobs = sym (update_where-same (has_job_id d) w.db.jobs);
  attempts = refl;
  unclosed = refl;
  next = refl;
}

-- A change that closes a job or counts one failure, where its statement takes effect.
module _ (d : ℕ) (f : Job → Job) (keeps_id : (j : Job) → (f j).id ≡ j.id)
    (counts : (j : Job)
      → j.retries ≤ 3
      → (is_scheduled (f j).status ≡ false)
        ⊎ ((j.retries + 1 ≤ (f j).retries) × ((f j).retries ≤ 3))) where
  closing-Effect :
      (answer : Answer) (sent : Bool) (w : World) (after : Db) (used : ℕ)
      → Rewrites d f answer w.db after
      → Effect d w (record {
        db = after;
        attempts = if sent then w.attempts ++ d ∷ [] else w.attempts;
        unclosed = noted answer d w.unclosed;
        used = used;
      })
  closing-Effect answer sent w after used (k, n) = elim (Bool-cases (takes_effect answer)) [
    | inl e ↦ record {
      sent = sent;
      written = true;
      change = f;
      keeps_id = keeps_id;
      counts = λ j s h. ground (arith, counts j h);
      jobs = rw e at k;
      attempts = refl;
      unclosed = rw e refl;
      next = n;
    }
    | inr e ↦ record {
      sent = sent;
      written = false;
      change = λ j. j;
      keeps_id = λ j. refl;
      counts = λ j s h. inr (ground arith, h);
      jobs = (rw e at k) ∙ sym (update_where-same (has_job_id d) w.db.jobs);
      attempts = refl;
      unclosed = rw e refl;
      next = n;
    }
  ]

module _ (answers : ℕ → Answer) (send_text : SendText) (policy : PolicyConfig)
    (now : DateTime) where
  close-Effect :
      (parsed : ReminderSendJob) (d : ℕ) (message : OutboundMessageInsert) (sent : Bool) (w : World)
      → Effect d w (
          close answers now parsed d message
            (record w { attempts = if sent then w.attempts ++ d ∷ [] else w.attempts }))
  unfolding close complete_job is_scheduled
  close-Effect parsed d message sent w =
      let inserted = (insert_outbound_message (answers w.used) message w.db).1 in
      let marked = (mark_reminder_sent (answers (w.used + 1)) now parsed.reminder_id inserted).1 in
      closing-Effect d (completed_job now) (λ j. refl) (λ j h. inl refl) (answers (w.used + 2)) sent
        w _ (w.used + 3)
        (answered-Rewrites "complete job failed: " (answers (w.used + 2)) d (completed_job now) w.db
          marked
          (KeepsJobs-trans w.db inserted marked
            (insert_outbound_message-KeepsJobs (answers w.used) message w.db)
            (mark_reminder_sent-KeepsJobs (answers (w.used + 1)) now parsed.reminder_id inserted)))

  fail_job-Effect :
      (n d : ℕ) (reason : String) (mid : Db) (sent : Bool) (w : World) (used : ℕ)
      → KeepsJobs w.db mid
      → Effect d w (record {
        db = (fail_job (answers n) now d reason mid).1;
        attempts = if sent then w.attempts ++ d ∷ [] else w.attempts;
        unclosed = noted (answers n) d w.unclosed;
        used = used;
      })
  unfolding fail_job failed_job
  fail_job-Effect n d reason mid sent w used k =
      closing-Effect d (failed_job now reason) (λ j. refl) (failed_job-counts now reason)
        (answers n) sent w _ used
        (answered-Rewrites "fail job failed: " (answers n) d (failed_job now reason) w.db mid k)

  reject-Effect :
      (parsed : ReminderSendJob) (d : ℕ) (reason : String) (w : World)
      → Effect d w
          (reject answers now parsed d reason (record w { attempts = w.attempts ++ d ∷ [] }))
  unfolding reject
  reject-Effect parsed d reason w =
      fail_job-Effect (w.used + 1) d reason
        (mark_reminder_failed (answers w.used) now parsed.reminder_id reason w.db).1 true w
        (w.used + 2)
        (mark_reminder_failed-KeepsJobs (answers w.used) now parsed.reminder_id reason w.db)

  execute_claimed-Effect :
      (parsed : ReminderSendJob) (d : ℕ) (w : World)
      → Effect d w (execute_claimed answers send_text policy now parsed d w).1
  unfolding execute_claimed
  execute_claimed-Effect parsed d w =
      elim (Bool-cases (policy.outbound_enabled && not policy.dry_run)) [
        | inr e ↦ rw (e, execute_claimed) (close-Effect parsed d _ false w)
        | inl e ↦
            elim (AppResult-cases (
              send_message (send_text (length w.attempts)) parsed.channel parsed.user_id
                (append "Reminder: " parsed.text))) [
                  | inl (sent, answer) ↦
                      rw (e, execute_claimed) (rw answer (close-Effect parsed d _ true w))
                  | inr (reason, answer) ↦
                      rw (e, execute_claimed)
                        (rw answer (reject-Effect parsed d (to_string reason) w))
                ]
      ]

module _ (from_value : Value → String ⊎ ReminderSendJob) (answers : ℕ → Answer)
    (send_text : SendText) (policy : PolicyConfig) where
  pub run_job-Effect :
      (now d : ℕ) (kind : String) (payload : Value) (w : World)
      → Effect d w (run_job from_value answers send_text policy now (d, kind, payload) w).1
  unfolding run_job execute
  run_job-Effect now d kind payload w = elim (Bool-cases (str_eq kind "reminder.send")) [
    | inr e ↦
        rw (e, run_job)
          (fail_job-Effect answers send_text policy now w.used d "unknown job kind" w.db false w
            (suc w.used) (refl, refl))
    | inl e ↦ elim (Sum-cases (from_value payload)) [
      | inl (reason, r) ↦ rw (e, run_job) (rw r (unchanged d w))
      | inr (parsed, r) ↦
          rw (e, run_job)
            (rw r (
              execute_claimed-Effect answers send_text policy now
                (record parsed { job_id = some d }) d w))
    ]
  ]
