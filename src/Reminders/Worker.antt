-- ===== src/Reminders/Worker.antt =====
-- src/scheduler/worker.rs: the loop that runs the due jobs where no bus is configured.
use rust_ia_micro_agents.Base.{
  ℕ, suc, String, str_eq, List, [], ◌∷◌, some, ◌⊎◌, inl, inr, DateTime, if◌then◌else◌,
}
use rust_ia_micro_agents.Base.Text.{append}
use rust_ia_micro_agents.Errors.{ok, err, to_string}
use rust_ia_micro_agents.Reminders.Jobs.{
  Answer, Value, ReminderSendJob, fetch_due_jobs, fail_job, enqueue_job,
}
use rust_ia_micro_agents.Reminders.Send.{SendText, PolicyConfig, World, noted, execute}

-- What happens to the tables: the ticks of the loop, and the jobs that others enqueue meanwhile.
pub data Step : Type 0 where
  tick : DateTime → Step
  enqueue : String → Value → DateTime → DateTime → Step

module _ (from_value : Value → String ⊎ ReminderSendJob) (answers : ℕ → Answer)
    (send_text : SendText) (policy : PolicyConfig) where
  -- The body of the loop of `tick_once`; `inl` leaves the loop by `?`.
  unfoldable pub run_job : DateTime → ℕ × String × Value → World → (String ⊎ Unit {0}) × World
  run_job now (job_id, kind, payload) w =
      if str_eq kind "reminder.send"
      then elim (from_value payload) [
        | inl e ↦ (inl (append "invalid reminder payload: " e), w)
        | inr parsed ↦
            execute answers send_text policy now (record parsed { job_id = some job_id }) w
      ]
      else (
        inr tt,
        record w {
          db = (fail_job (answers w.used) now job_id "unknown job kind" w.db).1;
          unclosed = noted (answers w.used) job_id w.unclosed;
          used = suc w.used;
        },
      )

  unfoldable pub run_jobs :
      DateTime → List (ℕ × String × Value) → World → (String ⊎ Unit {0}) × World
  run_jobs now [] w = (inr tt, w)
  run_jobs now (job ∷ jobs) w =
      let (outcome, after) = run_job now job w in
      elim outcome [ inl e ↦ (inl e, after) | inr _ ↦ run_jobs now jobs after ]

  unfoldable pub tick_once : DateTime → World → (String ⊎ Unit {0}) × World
  unfolding run_jobs
  tick_once now w =
      let next = record w { used = suc w.used } in
      elim (fetch_due_jobs (answers w.used) now 32 w.db) [
        | err e ↦ (inl (to_string e), next)
        | ok due ↦ run_jobs now due next
      ]

  unfoldable pub step : Step → World → World
  step (tick now) w = (tick_once now w).1
  step (enqueue kind payload run_at now) w = record w {
    db = (enqueue_job (answers w.used) kind payload run_at now w.db).1;
    used = suc w.used;
  }

  unfoldable pub steps : List Step → World → World
  steps [] w = w
  steps (s ∷ rest) w = steps rest (step s w)
