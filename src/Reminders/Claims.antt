-- ===== src/Reminders/Claims.antt =====
-- `claim_due_reminder_jobs` of src/storage/postgres.rs: what a claim leaves behind.
use rust_ia_micro_agents.Base.{
  ℕ, ◌≤◌, String, ◌≡◌, refl, ◌&&◌, List, [], ◌∷◌, some, ◌⊎◌, inl, inr, arith, All, count, filter,
  DateTime,
}
use rust_ia_micro_agents.Base.Rows.{order_by, take, update_where}
use rust_ia_micro_agents.Errors.{AppError, ok, err, AppResult-cases}
use rust_ia_micro_agents.Reminders.Jobs.{
  Value, Job, Db, ReminderSendJob, is_scheduled, has_job_id, claim, is_due_reminder, claim_rows,
  claim_due_reminder_jobs,
}
use rust_ia_micro_agents.Reminders.Effects.{Sum-cases}

-- The rows of the id that a later tick or claim may take.
abbrev pub open_rows : ℕ → Db → ℕ
open_rows i db = count (λ j. has_job_id i j && is_scheduled j.status) db.jobs

abbrev pub IsTaken : Db → ReminderSendJob → Type 0
IsTaken db job = (i : ℕ) × (job.job_id ≡ some i) × (open_rows i db ≡ 0)

module _ (now : DateTime) where
  abbrev claimed_row : ℕ → Db → Db
  claimed_row d db = record db { jobs = update_where (has_job_id d) (claim now) db.jobs }

  open_rows-le :
      (i d : ℕ) (js : List Job)
      → count
          (λ j. has_job_id i j && is_scheduled j.status)
          (update_where (has_job_id d) (claim now) js)
        ≤ count (λ j. has_job_id i j && is_scheduled j.status) js
  unfolding is_scheduled
  open_rows-le i d [] = omega arith
  open_rows-le i d (j ∷ js) = ground (arith, open_rows-le i d js)

  open_rows-claimed :
      (i : ℕ) (js : List Job)
      → count
          (λ j. has_job_id i j && is_scheduled j.status)
          (update_where (has_job_id i) (claim now) js)
        ≡ 0
  unfolding is_scheduled
  open_rows-claimed i [] = refl
  open_rows-claimed i (j ∷ js) = ground (arith, open_rows-claimed i js)

module _ (from_value : Value → String ⊎ ReminderSendJob) (now : DateTime) where
  claim_rows-inv :
      (row : Job) (rows : List Job) (db : Db) (jobs : List ReminderSendJob) (db' : Db)
      → claim_rows from_value now (row ∷ rows) db ≡ ok (jobs, db')
      → (job : ReminderSendJob) × (rest : List ReminderSendJob) × (claim_rows from_value now rows
            (claimed_row now row.id db)
          ≡ ok (rest, db'))
        × (jobs ≡ record job { job_id = some row.id } ∷ rest)
  unfolding claim_rows
  claim_rows-inv row rows db jobs db' e = elim (Sum-cases (from_value row.payload_json)) [
    | inl (reason, d) ↦ cc d
    | inr (job, d) ↦
        elim (AppResult-cases (claim_rows from_value now rows (claimed_row now row.id db))) [
          | inr (reason, r) ↦ ground (arith, d, r)
          | inl ((rest, after), r) ↦ (job, rest, ground (arith, d, r), ground (arith, d, r))
        ]
  ]

  claim_rows-le :
      (i : ℕ) (rows : List Job) (db : Db) (jobs : List ReminderSendJob) (db' : Db)
      → claim_rows from_value now rows db ≡ ok (jobs, db')
      → open_rows i db' ≤ open_rows i db
  unfolding claim_rows
  claim_rows-le i [] db jobs db' e = ground arith
  claim_rows-le i (row ∷ rows) db jobs db' e =
      let (job, rest, r, _) = claim_rows-inv row rows db jobs db' e in
      omega (
        arith,
        claim_rows-le i rows (claimed_row now row.id db) rest db' r,
        open_rows-le now i row.id db.jobs,
      )

  claim_rows-IsTaken :
      (rows : List Job) (db : Db) (jobs : List ReminderSendJob) (db' : Db)
      → claim_rows from_value now rows db ≡ ok (jobs, db')
      → All (IsTaken db') jobs
  unfolding claim_rows
  claim_rows-IsTaken [] db jobs db' e =
      let none_claimed : jobs ≡ [] = ground arith in rw none_claimed tt
  claim_rows-IsTaken (row ∷ rows) db jobs db' e =
      let (job, rest, r, shape) = claim_rows-inv row rows db jobs db' e in
      rw shape (
        (
          row.id,
          refl,
          omega (
            arith,
            claim_rows-le row.id rows (claimed_row now row.id db) rest db' r,
            open_rows-claimed now row.id db.jobs,
          ),
        ),
        claim_rows-IsTaken rows (claimed_row now row.id db) rest db' r,
      )

  -- A claim either fails and changes nothing, or returns jobs no row of which is scheduled any more:
  -- no later tick or claim can take one of them again before it is failed.
  pub claim_due_reminder_jobs-exclusive :
      (limit : ℕ) (db : Db)
      → let outcome = claim_due_reminder_jobs from_value now limit db in
        ((e : AppError) × (outcome ≡ (err e, db)))
        ⊎ ((jobs : List ReminderSendJob) × (db' : Db) × (outcome ≡ (ok jobs, db'))
            × All (IsTaken db') jobs)
  unfolding claim_due_reminder_jobs
  claim_due_reminder_jobs-exclusive limit db =
      let rows = take limit (order_by (λ j. j.run_at) (filter (is_due_reminder now) db.jobs)) in
      elim (AppResult-cases (claim_rows from_value now rows db)) [
        | inr (e, r) ↦ inl (e, rw (r, claim_due_reminder_jobs) refl)
        | inl ((jobs, db'), r) ↦
            inr (
              jobs,
              db',
              rw (r, claim_due_reminder_jobs) refl,
              claim_rows-IsTaken rows db jobs db' r,
            )
      ]
