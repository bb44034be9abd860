-- ===== src/Reminders/Blocking.antt =====
-- What an undecodable payload does to the loop of src/scheduler/worker.rs.
use rust_ia_micro_agents.Base.{
  ℕ, suc, ◌≤◌, ◌<◌, String, eq_iff, ◌≡◌, refl, sym, ap, subst, none, true, false, List, [], ◌∷◌,
  ◌++◌, ◌⊎◌, inl, inr, arith, All, Any, filter, map, Bool-cases, ◌∙◌,
}
use mathlib.Core.List.{append-nil, append_assoc}
use rust_ia_micro_agents.Base.Text.{append}
use rust_ia_micro_agents.Base.Rows.{take, order_by-head, ComesAfter, All-snoc, Any-snoc}
use rust_ia_micro_agents.Reminders.Jobs.{
  Answer, inserted_job, fetch_due_jobs, Value, JobStatus, Job, Db, ReminderSendJob, is_scheduled,
  is_due, due_rows, due_jobs, enqueue_job,
}
use rust_ia_micro_agents.Reminders.Send.{SendText, PolicyConfig, World}
use rust_ia_micro_agents.Errors.{AppResult-cases, to_string}
use rust_ia_micro_agents.Reminders.Effects.{answered-cases, fetch_due_jobs-ok}
use rust_ia_micro_agents.Reminders.Worker.{
  run_job, run_jobs, tick_once, Step, tick, enqueue, step, steps,
}

abbrev run_time : Job → ℕ
run_time j = j.run_at

-- The row is the given one, is not scheduled, or is scheduled for a later time.
abbrev pub IsBehind : Job → Job → Type 0
IsBehind first j = (is_scheduled j.status ≡ false) ⊎ ComesAfter run_time first j

-- The job is in the table, is scheduled, and comes before every other scheduled job.
pub record IsOldest (first : Job) (db : Db) : Type 0 where
  pub waiting : is_scheduled first.status ≡ true
  pub stored : Any (λ j. j ≡ first) db.jobs
  pub behind : All (IsBehind first) db.jobs

-- A tick that is not before the job's time; a new job that is to run after it.
abbrev pub IsLater : Job → Step → Type 0
IsLater first (tick now) = first.run_at ≤ now
IsLater first (enqueue kind payload run_at now) = first.run_at < run_at

due_behind :
    (first : Job) (now : ℕ) (js : List Job)
    → All (IsBehind first) js
    → All (ComesAfter run_time first) (filter (is_due now) js)
unfolding is_due
due_behind first now [] h = tt
due_behind first now (j ∷ js) (inl e, h) = rw e (due_behind first now js h)
due_behind first now (j ∷ js) (inr c, h) = elim (Bool-cases (is_due now j)) [
  | inl e ↦ rw e (c, due_behind first now js h)
  | inr e ↦ rw e (due_behind first now js h)
]

due_stored :
    (first : Job) (now : ℕ) (js : List Job)
    → is_due now first ≡ true
    → Any (λ j. j ≡ first) js
    → Any (λ j. j ≡ first) (filter (is_due now) js)
due_stored first now [] due m = elim m [ ]
due_stored first now (j ∷ js) due (inl e) = rw (ap (is_due now) e ∙ due) (inl e)
due_stored first now (j ∷ js) due (inr m) = elim (Bool-cases (is_due now j)) [
  | inl e ↦ rw e (inr (due_stored first now js due m))
  | inr e ↦ rw e (due_stored first now js due m)
]

is_due-first :
    (first : Job) (now : ℕ)
    → is_scheduled first.status ≡ true
    → first.run_at ≤ now
    → is_due now first ≡ true
unfolding is_due
is_due-first first now e h = ground arith

-- The oldest job is the first that is fetched.
due_jobs-first :
    (first : Job) (now : ℕ) (db : Db)
    → IsOldest first db
    → first.run_at ≤ now
    → (rest : List (ℕ × String × Value)) × (due_jobs now 32 db
        ≡ (first.id, first.kind, first.payload_json) ∷ rest)
unfolding due_jobs due_rows
due_jobs-first first now db o h =
    let (rest, e) =
      order_by-head run_time first (filter (is_due now) db.jobs)
        (due_behind first now db.jobs o.behind)
        (due_stored first now db.jobs (is_due-first first now o.waiting h) o.stored) in
    (map (λ j. (j.id, j.kind, j.payload_json)) (take 31 rest), rw e refl)

module _ (from_value : Value → String ⊎ ReminderSendJob) (answers : ℕ → Answer)
    (send_text : SendText) (policy : PolicyConfig) (first : Job) (reason : String)
    (is_reminder : first.kind ≡ "reminder.send")
    (undecodable : from_value first.payload_json ≡ inl reason) where
  run_job-undecodable :
      (now : ℕ) (w : World)
      → run_job from_value answers send_text policy now (first.id, first.kind, first.payload_json) w
        ≡ (inl (append "invalid reminder payload: " reason), w)
  unfolding run_job
  run_job-undecodable now w = ground (arith, eq_iff first.kind "reminder.send")

  run_jobs-stopped :
      (now : ℕ) (rest : List (ℕ × String × Value)) (w : World)
      → run_jobs from_value answers send_text policy now
          ((first.id, first.kind, first.payload_json) ∷ rest)
          w
        ≡ (inl (append "invalid reminder payload: " reason), w)
  unfolding run_jobs
  run_jobs-stopped now rest w = ground (arith, run_job-undecodable now w)

  -- A tick that comes to a job whose payload is no reminder before every other scheduled job ends
  -- with an error, and leaves the tables and the channel alone.
  pub tick_once-stopped :
      (now : ℕ) (w : World)
      → IsOldest first w.db
      → first.run_at ≤ now
      → (e : String) × (tick_once from_value answers send_text policy now w
          ≡ (inl e, record w { used = suc w.used }))
  unfolding tick_once
  tick_once-stopped now w o h =
      elim (AppResult-cases (fetch_due_jobs (answers w.used) now 32 w.db)) [
        | inr (reason, e) ↦ (to_string reason, rw (e, tick_once) refl)
        | inl (due, e) ↦
            let (rest, q) = due_jobs-first first now w.db o h in
            let same : due ≡ (first.id, first.kind, first.payload_json) ∷ rest =
              fetch_due_jobs-ok (answers w.used) now 32 w.db due e ∙ q in
            (
              append "invalid reminder payload: " reason,
              rw (e, tick_once)
                  (rw same (run_jobs-stopped now rest (record w { used = suc w.used }))),
            )
      ]

  inserted_job-IsOldest :
      (kind : String) (payload : Value) (run_at now : ℕ) (db : Db)
      → IsOldest first db
      → first.run_at < run_at
      → IsOldest first (inserted_job kind payload run_at now db).1
  unfolding inserted_job
  inserted_job-IsOldest kind payload run_at now db o h = record {
    waiting = o.waiting;
    stored = Any-snoc (λ j. j ≡ first) db.jobs _ o.stored;
    behind = All-snoc (IsBehind first) db.jobs o.behind (inr (inr h));
  }

  -- A scheduled reminder job whose payload cannot be decoded, and that comes before every other
  -- scheduled job, is never failed and stays the first: whatever ticks follow from its time on,
  -- whatever jobs are enqueued for a later time and whichever statements fail, nothing is attempted
  -- any more, and no job of the table changes.
  pub steps-blocked :
      (ss : List Step) (w : World)
      → IsOldest first w.db
      → All (IsLater first) ss
      → let after = steps from_value answers send_text policy ss w in
        (added : List Job) × (after.attempts ≡ w.attempts) × (after.db.jobs ≡ w.db.jobs ++ added)
  unfolding steps step enqueue_job inserted_job
  steps-blocked [] w o h = ([], refl, sym (append-nil w.db.jobs))
  steps-blocked (tick now ∷ ss) w o h =
      let (reason, same) = tick_once-stopped now w o h.0 in
      subst
        (λ v.
          (added : List Job) × ((steps from_value answers send_text policy ss v).attempts
            ≡ w.attempts)
          × ((steps from_value answers send_text policy ss v).db.jobs ≡ w.db.jobs ++ added))
        (sym (ap (λ r. r.1) same)) (steps-blocked ss (record w { used = suc w.used }) o h.1)
  steps-blocked (enqueue kind payload run_at now ∷ ss) w o h =
      let inserted = inserted_job kind payload run_at now w.db in
      let P = λ (db : Db).
        (added : List Job) × ((steps from_value answers send_text policy ss
            (record w { db = db; used = suc w.used })).attempts
          ≡ w.attempts)
        × ((steps from_value answers send_text policy ss
              (record w { db = db; used = suc w.used })).db.jobs
            ≡ w.db.jobs ++ added) in
      elim (answered-cases "enqueue job failed: " (answers w.used) inserted.1 w.db inserted.0) [
        | inr e ↦ subst P (sym e) (steps-blocked ss (record w { used = suc w.used }) o h.1)
        | inl e ↦
            let next_job : Job = record {
              id = w.db.next_job_id;
              kind = kind;
              payload_json = payload;
              run_at = run_at;
              status = JobStatus.scheduled;
              retries = 0;
              last_error = none;
              last_run_at = none;
              created_at = now;
            } in
            let (added, same, k) =
              steps-blocked ss (record w { db = inserted.1; used = suc w.used })
                (inserted_job-IsOldest kind payload run_at now w.db o h.0) h.1 in
            subst P (sym e)
              (next_job ∷ added, same, k ∙ append_assoc w.db.jobs (next_job ∷ []) added)
      ]
