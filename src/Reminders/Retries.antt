-- ===== src/Reminders/Retries.antt =====
-- How often src/scheduler/worker.rs attempts a job: the column `retries` counts the failures, and
-- the statement of `fail_job` gives up when it stands at three.
use rust_ia_micro_agents.Base.{
  ℕ, suc, ◌+◌, subst, sym, ◌≤◌, ◌<◌, String, ◌≡◌, refl, List, [], ◌∷◌, ◌++◌, ◌⊎◌, inl, inr, arith,
  All, count, map, DateTime,
}
use rust_ia_micro_agents.Errors.{AppResult-cases}
use rust_ia_micro_agents.Base.Rows.{All-snoc}
use rust_ia_micro_agents.Base.Selection.{occurrences, count-snoc}
use rust_ia_micro_agents.Reminders.Jobs.{
  Answer, Db, due_jobs, inserted_job, Value, Job, ReminderSendJob, fetch_due_jobs, enqueue_job,
  has_job_id,
}
use rust_ia_micro_agents.Reminders.Send.{SendText, PolicyConfig, World}
use rust_ia_micro_agents.Reminders.Effects.{
  run_job-Effect, Sum-cases, answered-cases, fetch_due_jobs-ok,
}
use rust_ia_micro_agents.Reminders.Worker.{
  run_job, run_jobs, tick_once, Step, tick, enqueue, step, steps,
}
use rust_ia_micro_agents.Reminders.Running.{
  IsOpen, IsRunning, run_job-IsRunning, all_listed, stopped-IsRunning,
}
use rust_ia_micro_agents.Reminders.Due.{row_id, tick_once-start}

below_next : (n : ℕ) (js : List Job) → All (λ j. j.id < n) js → All (λ j. j.id < suc n) js
below_next n [] h = tt
below_next n (j ∷ js) h = (omega (arith, h.0), below_next n js h.1)

count_below :
    (n i : ℕ) (js : List Job) → All (λ j. j.id < n) js → n ≤ i → count (has_job_id i) js ≡ 0
count_below n i [] h le = refl
count_below n i (j ∷ js) h le = ground (arith, h.0, count_below n i js h.1)

distinct_new :
    (i : ℕ) (js : List Job) (j : Job)
    → All (λ k. k.id < j.id) js
    → count (has_job_id i) js ≤ 1
    → count (has_job_id i) (js ++ j ∷ []) ≤ 1
distinct_new i js j h d = ground (arith, count-snoc (λ k. k.id) i js j, count_below j.id i js h)

initial-IsRunning : (w : World) → w.db.jobs ≡ [] → w.attempts ≡ [] → IsRunning w []
initial-IsRunning w e a = record {
  attempted = λ i. rw a (omega arith);
  unused = λ i h. rw a refl;
  rows = rw e tt;
  ids = rw e tt;
  listed = rw e tt;
  distinct = λ i. rw e (omega arith);
  waiting = tt;
  once = λ i. omega arith;
}

module _ (from_value : Value → String ⊎ ReminderSendJob) (answers : ℕ → Answer)
    (send_text : SendText) (policy : PolicyConfig) where
  run_jobs-IsRunning :
      (now : DateTime) (jobs : List (ℕ × String × Value)) (w : World)
      → IsRunning w (map row_id jobs)
      → IsRunning (run_jobs from_value answers send_text policy now jobs w).1 []
  unfolding run_jobs
  run_jobs-IsRunning now [] w r = r
  run_jobs-IsRunning now ((d, kind, payload) ∷ jobs) w r =
      let ran = run_job from_value answers send_text policy now (d, kind, payload) w in
      let next =
        run_job-IsRunning (map row_id jobs)
          (run_job-Effect from_value answers send_text policy now d kind payload w) r in
      elim (Sum-cases ran.0) [
        | inl (e, stopped) ↦ rw (stopped, run_jobs) (stopped-IsRunning next)
        | inr (_, went_on) ↦ rw (went_on, run_jobs) (run_jobs-IsRunning now jobs ran.1 next)
      ]

  inserted_job-IsRunning :
      (kind : String) (payload : Value) (run_at now : DateTime) (used : ℕ) (w : World)
      → IsRunning w []
      → IsRunning (record w { db = (inserted_job kind payload run_at now w.db).1; used = used }) []
  unfolding inserted_job
  inserted_job-IsRunning kind payload run_at now used w r = record {
    attempted = r.attempted;
    unused = λ i h. r.unused i (omega arith);
    rows =
        All-snoc (IsOpen w) w.db.jobs r.rows
          (inr (ground (arith, r.unused w.db.next_job_id), omega arith));
    ids =
        All-snoc (λ j. j.id < suc w.db.next_job_id) w.db.jobs
          (below_next w.db.next_job_id w.db.jobs r.ids) (omega arith);
    listed = all_listed _;
    distinct = λ i. distinct_new i w.db.jobs _ r.ids (r.distinct i);
    waiting = tt;
    once = λ i. omega arith;
  }

  -- The invariant does not depend on how many answers were used.
  used-IsRunning :
      (used : ℕ) (w : World) (due : List ℕ)
      → IsRunning w due
      → IsRunning (record w { used = used }) due
  used-IsRunning used w due r = record {
    attempted = r.attempted;
    unused = r.unused;
    rows = r.rows;
    ids = r.ids;
    listed = r.listed;
    distinct = r.distinct;
    waiting = r.waiting;
    once = r.once;
  }

  enqueue-IsRunning :
      (kind : String) (payload : Value) (run_at now : DateTime) (w : World)
      → IsRunning w []
      → IsRunning (step from_value answers send_text policy (enqueue kind payload run_at now) w) []
  unfolding step enqueue_job
  enqueue-IsRunning kind payload run_at now w r =
      let inserted = inserted_job kind payload run_at now w.db in
      let P = λ (db : Db). IsRunning (record w { db = db; used = suc w.used }) [] in
      elim (answered-cases "enqueue job failed: " (answers w.used) inserted.1 w.db inserted.0) [
        | inl e ↦ subst P (sym e) (inserted_job-IsRunning kind payload run_at now (suc w.used) w r)
        | inr e ↦ subst P (sym e) (used-IsRunning (suc w.used) w [] r)
      ]

  tick_once-IsRunning :
      (now : DateTime) (w : World)
      → IsRunning w []
      → IsRunning (tick_once from_value answers send_text policy now w).1 []
  unfolding tick_once
  tick_once-IsRunning now w r =
      let next = record w { used = suc w.used } in
      let r' = used-IsRunning (suc w.used) w [] r in
      elim (AppResult-cases (fetch_due_jobs (answers w.used) now 32 w.db)) [
        | inl (due, e) ↦
            let same : due ≡ due_jobs now 32 w.db =
              fetch_due_jobs-ok (answers w.used) now 32 w.db due e in
            rw (e, tick_once)
              (rw same
                (run_jobs-IsRunning now (due_jobs now 32 w.db) next (tick_once-start now next r')))
        | inr (reason, e) ↦ rw (e, tick_once) r'
      ]

  step-IsRunning :
      (s : Step) (w : World)
      → IsRunning w []
      → IsRunning (step from_value answers send_text policy s w) []
  unfolding step
  step-IsRunning (tick now) w r = tick_once-IsRunning now w r
  step-IsRunning (enqueue kind payload run_at now) w r =
      enqueue-IsRunning kind payload run_at now w r

  steps-IsRunning :
      (ss : List Step) (w : World)
      → IsRunning w []
      → IsRunning (steps from_value answers send_text policy ss w) []
  unfolding steps
  steps-IsRunning [] w r = r
  steps-IsRunning (s ∷ ss) w r =
      steps-IsRunning ss (step from_value answers send_text policy s w) (step-IsRunning s w r)

  -- From a table with no jobs, in any sequence of ticks and new jobs, whatever the payloads are,
  -- whatever the channel answers and whichever statements fail, the message of a job is attempted
  -- at most four times, and once more for each time that its outcome could not be written.
  pub steps-attempts :
      (ss : List Step) (w : World) (i : ℕ)
      → w.db.jobs ≡ []
      → w.attempts ≡ []
      → let after = steps from_value answers send_text policy ss w in
        occurrences i after.attempts ≤ 4 + occurrences i after.unclosed
  steps-attempts ss w i e a = (steps-IsRunning ss w (initial-IsRunning w e a)).attempted i
