-- ===== src/Reminders/Due.antt =====
-- The jobs that a tick of src/scheduler/worker.rs fetches: scheduled, each once.
use rust_ia_micro_agents.Base.{
  ℕ, ◌≤◌, ◌<◌, String, ◌≡◌, refl, true, List, [], ◌∷◌, ◌⊎◌, inl, inr, arith, All, count, filter,
  map, Bool-cases, DateTime,
}
use rust_ia_micro_agents.Base.Rows.{
  order_by, All-order_by, All-take, count-take-le, count-filter-le, count-order_by,
}
use rust_ia_micro_agents.Base.Selection.{occurrences, All_listed}
use rust_ia_micro_agents.Reminders.Jobs.{
  Value, Job, Db, is_scheduled, is_due, due_rows, due_jobs, has_job_id,
}
use rust_ia_micro_agents.Reminders.Send.{World}
use rust_ia_micro_agents.Reminders.Running.{IsOpen, IsListed, IsWaiting, IsRunning}

abbrev pub row_id : ℕ × String × Value → ℕ
row_id row = row.0

abbrev fetched : Job → ℕ × String × Value
fetched j = (j.id, j.kind, j.payload_json)

ids_of_fetched :
    (i : ℕ) (rows : List Job)
    → occurrences i (map row_id (map fetched rows)) ≡ count (has_job_id i) rows
ids_of_fetched i [] = refl
ids_of_fetched i (j ∷ js) = ground (arith, ids_of_fetched i js)

waiting_of_fetched :
    (P : ℕ → Type 0) (rows : List Job)
    → All (λ j. P j.id) rows
    → All P (map row_id (map fetched rows))
waiting_of_fetched P [] h = tt
waiting_of_fetched P (j ∷ js) h = (h.0, waiting_of_fetched P js h.1)

module _ (now : DateTime) where
  due-IsWaiting :
      (w : World) (js : List Job)
      → All (IsOpen w) js
      → All (λ j. j.id < w.db.next_job_id) js
      → All (λ j. IsWaiting w j.id) (filter (is_due now) js)
  unfolding is_due
  due-IsWaiting w [] o h = tt
  due-IsWaiting w (j ∷ js) o h = elim (Bool-cases (is_due now j)) [
    | inr e ↦ rw e (due-IsWaiting w js o.1 h.1)
    | inl e ↦ rw e (((ground arith, h.0), due-IsWaiting w js o.1 h.1))
  ]

  is_due-scheduled : (j : Job) → is_due now j ≡ true → is_scheduled j.status ≡ true
  unfolding is_due
  is_due-scheduled j e = ground arith

  abbrev pub due_ids : Db → List ℕ
  due_ids db = map row_id (due_jobs now 32 db)

  due_ids-le :
      (db : Db) (i : ℕ)
      → occurrences i (due_ids db) ≤ count (has_job_id i) (filter (is_due now) db.jobs)
  unfolding due_jobs due_rows
  due_ids-le db i =
      let rows = filter (is_due now) db.jobs in
      omega (
        arith,
        ids_of_fetched i (due_rows now 32 db),
        count-take-le (has_job_id i) 32 (order_by (λ j. j.run_at) rows),
        count-order_by (has_job_id i) (λ j. j.run_at) rows,
      )

  due_listed :
      (ids : List ℕ) (js : List Job)
      → All (λ j. (occurrences j.id ids ≡ 0) ⊎ (is_due now j ≡ true)) js
      → All (IsListed ids) js
  due_listed ids [] h = tt
  due_listed ids (j ∷ js) h =
      (elim h.0 [ inl e ↦ inl e | inr e ↦ inr (is_due-scheduled j e) ], due_listed ids js h.1)

  due_ids-IsWaiting : (w : World) → IsRunning w [] → All (IsWaiting w) (due_ids w.db)
  unfolding due_jobs due_rows
  due_ids-IsWaiting w r =
      let P = λ (j : Job). IsWaiting w j.id in
      let rows = filter (is_due now) w.db.jobs in
      waiting_of_fetched (IsWaiting w) (due_rows now 32 w.db) (
        All-take P 32 (order_by (λ j. j.run_at) rows)
          (All-order_by P (λ j. j.run_at) rows (due-IsWaiting w w.db.jobs r.rows r.ids)))

  pub tick_once-start : (w : World) → IsRunning w [] → IsRunning w (due_ids w.db)
  tick_once-start w r = record {
    attempted = r.attempted;
    unused = r.unused;
    rows = r.rows;
    ids = r.ids;
    listed =
        due_listed (due_ids w.db) w.db.jobs (
          All_listed (λ j. j.id) (is_due now) (due_ids w.db) w.db.jobs r.distinct
            (due_ids-le w.db));
    distinct = r.distinct;
    waiting = due_ids-IsWaiting w r;
    once = λ i. omega (
      arith,
      due_ids-le w.db i,
      count-filter-le (has_job_id i) (is_due now) w.db.jobs,
      r.distinct i,
    );
  }
