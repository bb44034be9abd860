-- ===== src/Reminders/Running.antt =====
-- The invariant of a tick of src/scheduler/worker.rs, and that the run of a job keeps it.
use rust_ia_micro_agents.Base.{
  ℕ, ◌+◌, ◌≤◌, ◌<◌, ◌≡◌, refl, sym, ap, subst, true, false, List, [], ◌∷◌, ◌⊎◌, inl, inr, arith,
  All, count, ◌==◌, if◌then◌else◌, Bool-cases,
}
use rust_ia_micro_agents.Base.Rows.{update_where, count-update_where}
use rust_ia_micro_agents.Base.Selection.{occurrences, occurrences-snoc}
use rust_ia_micro_agents.Reminders.Jobs.{Job, is_scheduled, has_job_id}
use rust_ia_micro_agents.Reminders.Send.{World}
use rust_ia_micro_agents.Reminders.Effects.{Effect}

-- Each attempt of a row that may be attempted again was counted as a failure, of which there are at
-- most three, or could not be written down.
abbrev pub IsOpen : World → Job → Type 0
IsOpen w j =
    (is_scheduled j.status ≡ false)
    ⊎ ((occurrences j.id w.attempts ≤ j.retries + occurrences j.id w.unclosed) × (j.retries ≤ 3))

-- A row of an id that is still to be run in this tick is scheduled.
abbrev pub IsListed : List ℕ → Job → Type 0
IsListed due j = (occurrences j.id due ≡ 0) ⊎ (is_scheduled j.status ≡ true)

-- An id that may still be attempted.
abbrev pub IsWaiting : World → ℕ → Type 0
IsWaiting w d = (occurrences d w.attempts ≤ 3 + occurrences d w.unclosed) × (d < w.db.next_job_id)

-- The invariant of a tick; `due` are the ids that are still to be run in it.
pub record IsRunning (w : World) (due : List ℕ) : Type 0 where
  pub attempted : (i : ℕ) → occurrences i w.attempts ≤ 4 + occurrences i w.unclosed
  pub unused : (i : ℕ) → w.db.next_job_id ≤ i → occurrences i w.attempts ≡ 0
  pub rows : All (IsOpen w) w.db.jobs
  pub ids : All (λ j. j.id < w.db.next_job_id) w.db.jobs
  pub listed : All (IsListed due) w.db.jobs
  pub distinct : (i : ℕ) → count (has_job_id i) w.db.jobs ≤ 1
  pub waiting : All (IsWaiting w) due
  pub once : (i : ℕ) → occurrences i due ≤ 1

-- The row as `update_where` leaves it.
abbrev changed : ℕ → (Job → Job) → Job → Job
changed d f j = if has_job_id d j then f j else j

module _ {d : ℕ} {w w' : World} (e : Effect d w w') (due : List ℕ)
    (last : occurrences d due ≡ 0) where
  occurrences-Effect :
      (i : ℕ)
      → occurrences i w'.attempts
        ≡ occurrences i w.attempts + (if e.sent then (if d == i then 1 else 0) else 0)
  occurrences-Effect i = elim (Bool-cases e.sent) [
    | inl s ↦ rw s (rw (ap (occurrences i) e.attempts) (rw s (occurrences-snoc i d w.attempts)))
    | inr s ↦ rw s (rw (ap (occurrences i) e.attempts) (rw s (omega arith)))
  ]

  unclosed-Effect :
      (i : ℕ)
      → occurrences i w'.unclosed
        ≡ occurrences i w.unclosed + (if e.written then 0 else (if d == i then 1 else 0))
  unclosed-Effect i = elim (Bool-cases e.written) [
    | inl s ↦ rw s (rw (ap (occurrences i) e.unclosed) (rw s (omega arith)))
    | inr s ↦ rw s (rw (ap (occurrences i) e.unclosed) (rw s (occurrences-snoc i d w.unclosed)))
  ]

  row-IsOpen : (j : Job) → IsOpen w j → IsListed (d ∷ due) j → IsOpen w' (changed d e.change j)
  row-IsOpen j o l =
      ground (arith, occurrences-Effect j.id, unclosed-Effect j.id, e.counts j, e.keeps_id j)

  row-IsListed : (j : Job) → IsListed (d ∷ due) j → IsListed due (changed d e.change j)
  row-IsListed j l = ground (arith, e.keeps_id j, last)

  rows-Effect :
      (js : List Job)
      → All (IsOpen w) js
      → All (IsListed (d ∷ due)) js
      → All (IsOpen w') (update_where (has_job_id d) e.change js)
        × All (IsListed due) (update_where (has_job_id d) e.change js)
  rows-Effect [] o l = (tt, tt)
  rows-Effect (j ∷ js) o l =
      let (opens, listed) = rows-Effect js o.1 l.1 in
      ((row-IsOpen j o.0 l.0, opens), (row-IsListed j l.0, listed))

  ids-Effect :
      (n : ℕ) (js : List Job)
      → All (λ j. j.id < n) js
      → All (λ j. j.id < n) (update_where (has_job_id d) e.change js)
  ids-Effect n [] h = tt
  ids-Effect n (j ∷ js) h = (ground (arith, h.0, e.keeps_id j), ids-Effect n js h.1)

Effect-IsWaiting :
    {d : ℕ} {w w' : World} (e : Effect d w w') (due : List ℕ)
    → occurrences d due ≡ 0
    → All (IsWaiting w) due
    → All (IsWaiting w') due
Effect-IsWaiting e [] last h = tt
Effect-IsWaiting {d} e (k ∷ ks) last h = (
  (
    ground (arith, occurrences-Effect e [] refl k, unclosed-Effect e [] refl k),
    ground (arith, e.next),
  ),
  Effect-IsWaiting e ks (ground arith) h.1,
)

pub run_job-IsRunning :
    {d : ℕ} {w w' : World} (due : List ℕ) → Effect d w w' → IsRunning w (d ∷ due) → IsRunning w' due
run_job-IsRunning {d} {w} {w'} due e r =
    let last : occurrences d due ≡ 0 = ground (arith, r.once d) in
    let (opens, listed) = rows-Effect e due last w.db.jobs r.rows r.listed in
    record {
      attempted = λ i.
          ground
            (arith, occurrences-Effect e due last i, unclosed-Effect e due last i, r.attempted i);
      unused = λ i h. ground (arith, occurrences-Effect e due last i, r.unused i, e.next);
      rows = subst (All (IsOpen w')) (sym e.jobs) opens;
      ids = rw (e.jobs, e.next) (ids-Effect e due last w.db.next_job_id w.db.jobs r.ids);
      listed = subst (All (IsListed due)) (sym e.jobs) listed;
      distinct = λ i. rw e.jobs (
          rw
            (count-update_where (has_job_id i) (has_job_id d) e.change w.db.jobs
              (λ j. ap (λ k. k == i) (e.keeps_id j)))
            (r.distinct i));
      waiting = Effect-IsWaiting e due last r.waiting.1;
      once = λ i. ground (arith, r.once i);
    }

pub all_listed : (js : List Job) → All (IsListed []) js
all_listed [] = tt
all_listed (j ∷ js) = (inl refl, all_listed js)

-- A tick may end before all that it fetched was run.
pub stopped-IsRunning : {w : World} {due : List ℕ} → IsRunning w due → IsRunning w []
stopped-IsRunning {w} r = record {
  attempted = r.attempted;
  unused = r.unused;
  rows = r.rows;
  ids = r.ids;
  listed = all_listed w.db.jobs;
  distinct = r.distinct;
  waiting = tt;
  once = λ i. omega arith;
}
