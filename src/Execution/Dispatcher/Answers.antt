-- ===== src/Execution/Dispatcher/Answers.antt =====
-- The dispatcher's results are those that the scheduler's laws ask of a task's future.
use rust_ia_micro_agents.Base.{
  ℕ, ◌↔◌, min, u32_max, not, ◌+◌, ◌≤◌, String, str_eq, eq_refl, ◌≡◌, refl, sym, ◌⊎◌, inl, inr, Bool,
  true, false, List, [], ◌∷◌, Option, none, some, arith, All, Any, any, if◌then◌else◌, Bool-cases,
  is_some,
}
use rust_ia_micro_agents.Planner.Plan.{PlanTask}
use rust_ia_micro_agents.Team.Manager.Pool.{TeamManager, AcquiredSubagent, acquire_for_task}
use rust_ia_micro_agents.Execution.Artifacts.{
  TaskArtifact, TaskExecutionResult, ReviewAction, accept, request_revision, retry, split_task,
  reassign, escalate_to_reasoning_model, fail_task,
}
use rust_ia_micro_agents.Execution.Dispatcher.{
  Executed, submitted, refused, Worker, is_accept, no_subagent, reviewed, errored, run_acquired,
  dispatch, run_one_task,
}
use rust_ia_micro_agents.Execution.Scheduler.Untouched.{Answers, AnswersLaunched}
use rust_ia_micro_agents.Execution.Scheduler.Limits.{CountsOnce, Counts}

-- Whether the task was done: the subagent submitted an artifact, and the reviewer accepted it.
abbrev pub IsDone : Worker → PlanTask → Option AcquiredSubagent → Type 0
IsDone w task acquired =
    (a : AcquiredSubagent) × (artifact : TaskArtifact) × (acquired ≡ some a)
    × (w.execute_task a.subagent task ≡ submitted artifact)
    × ((w.review_task task artifact).action ≡ accept)

-- The result for a task, by what the acquisition gave.
pub record IsAnswer (w : Worker) (task : PlanTask) (acquired : Option AcquiredSubagent)
    (r : TaskExecutionResult) : Type 0 where
  pub named : r.task_id ≡ task.id
  pub counted :
      r.attempts ≡ (if is_some acquired then min (task.attempts + 1) u32_max else task.attempts)
  pub accepts : (r.accepted ≡ true) ↔ IsDone w task acquired
  pub reviewed : is_some r.review ≡ is_some r.artifact
  pub explained : is_some r.error ≡ not (is_some r.artifact)

is_accept_iff : (action : ReviewAction) → (is_accept action ≡ true) ↔ (action ≡ accept)
unfolding is_accept
is_accept_iff accept = (λ h. refl, λ h. refl)
is_accept_iff request_revision = (λ h. cc, λ h. cc)
is_accept_iff retry = (λ h. cc, λ h. cc)
is_accept_iff split_task = (λ h. cc, λ h. cc)
is_accept_iff reassign = (λ h. cc, λ h. cc)
is_accept_iff escalate_to_reasoning_model = (λ h. cc, λ h. cc)
is_accept_iff fail_task = (λ h. cc, λ h. cc)

pub Executed-cases :
    (x : Executed)
    → ((artifact : TaskArtifact) × (x ≡ submitted artifact))
      ⊎ ((error : String) × (x ≡ refused error))
Executed-cases (submitted artifact) = inl (artifact, refl)
Executed-cases (refused error) = inr (error, refl)

submitted-IsDone :
    (w : Worker) (task : PlanTask) (a : AcquiredSubagent) (artifact : TaskArtifact)
    → w.execute_task a.subagent task ≡ submitted artifact
    → (is_accept (w.review_task task artifact).action ≡ true) ↔ IsDone w task (some a)
submitted-IsDone w task a artifact e = (
  λ h. (a, artifact, refl, e, (is_accept_iff (w.review_task task artifact).action).0 h),
  λ (b, other, same, f, h).
      let p : a ≡ b = cc in
      let f' : w.execute_task a.subagent task ≡ submitted other = rw p f in
      let q : artifact ≡ other = cc in
      (is_accept_iff (w.review_task task artifact).action).1 (rw q h),
)

refused-IsDone :
    (w : Worker) (task : PlanTask) (a : AcquiredSubagent) (error : String)
    → w.execute_task a.subagent task ≡ refused error
    → (false ≡ true) ↔ IsDone w task (some a)
refused-IsDone w task a error e = (
  λ h. cc,
  λ (b, other, same, f, h).
      let p : a ≡ b = cc in
      let f' : w.execute_task a.subagent task ≡ submitted other = rw p f in cc,
)

run_acquired-IsAnswer :
    (w : Worker) (task : PlanTask) (a : AcquiredSubagent) (team : TeamManager)
    → IsAnswer w task (some a) (run_acquired w task a team).result
unfolding run_acquired reviewed errored
run_acquired-IsAnswer w task a team = elim (Executed-cases (w.execute_task a.subagent task)) [
  | inl (artifact, e) ↦
      rw (e, run_acquired)
        (record {
          named = refl;
          counted = refl;
          accepts = submitted-IsDone w task a artifact e;
          reviewed = refl;
          explained = refl;
        })
  | inr (error, e) ↦
      rw (e, run_acquired)
        (record {
          named = refl;
          counted = refl;
          accepts = refused-IsDone w task a error e;
          reviewed = refl;
          explained = refl;
        })
]

dispatch-IsAnswer :
    (w : Worker) (task : PlanTask) (x : Option AcquiredSubagent × TeamManager)
    → IsAnswer w task x.0 (dispatch w task x).result
unfolding dispatch no_subagent
dispatch-IsAnswer w task (none, team) = record {
  named = refl;
  counted = refl;
  accepts = (λ h. cc, λ (b, other, same, f, h). cc);
  reviewed = refl;
  explained = refl;
}
dispatch-IsAnswer w task (some a, team) = run_acquired-IsAnswer w task a team

-- A result names its task, counts one attempt more (up to the largest u32) if a subagent was
-- acquired and none otherwise, and is accepted exactly when the acquired subagent submitted an
-- artifact that the reviewer accepted; it has a review if and only if it has an artifact, and an
-- error if and only if it has none.
pub run_one_task-IsAnswer :
    (w : Worker) (team : TeamManager) (task : PlanTask)
    → IsAnswer w task
        (acquire_for_task w.acquired_at task.id task.candidate_role team).0
        (run_one_task w team task).result
unfolding run_one_task
run_one_task-IsAnswer w team task =
    dispatch-IsAnswer w task (acquire_for_task w.acquired_at task.id task.candidate_role team)

counted-le :
    (w : Worker) (team : TeamManager) (task : PlanTask)
    → (run_one_task w team task).result.attempts ≤ task.attempts + 1
counted-le w team task = ground (arith, (run_one_task-IsAnswer w team task).counted)

-- The futures of a batch as dispatched tasks: each meets some state of the shared team, as the
-- interleaving has it, and may be lost to a panic.
pub record Schedule : Type 0 where
  pub worker : ℕ → PlanTask → Worker
  pub team : ℕ → PlanTask → TeamManager
  pub panics : ℕ → PlanTask → Bool

unfoldable pub dispatch_all : Schedule → ℕ → List PlanTask → List (Option TaskExecutionResult)
dispatch_all s n [] = []
dispatch_all s n (t ∷ ts) =
    (if s.panics n t then none else some (run_one_task (s.worker n t) (s.team n t) t).result)
    ∷ dispatch_all s n ts

dispatch_all-Answers :
    (s : Schedule) (n : ℕ) (all_launched ts : List PlanTask)
    → All (λ t. any (λ u. str_eq u.id t.id) all_launched ≡ true) ts
    → All (Answers all_launched) (dispatch_all s n ts)
unfolding dispatch_all
dispatch_all-Answers s n l [] h = tt
dispatch_all-Answers s n l (t ∷ ts) h = elim (Bool-cases (s.panics n t)) [
  | inl e ↦ rw e (tt, dispatch_all-Answers s n l ts h.1)
  | inr e ↦ rw e (
    rw (run_one_task-IsAnswer (s.worker n t) (s.team n t) t).named h.0,
    dispatch_all-Answers s n l ts h.1,
  )
]

any_cons :
    (t : PlanTask) (ts us : List PlanTask)
    → All (λ u. any (λ v. str_eq v.id u.id) ts ≡ true) us
    → All (λ u. any (λ v. str_eq v.id u.id) (t ∷ ts) ≡ true) us
any_cons t ts [] h = tt
any_cons t ts (u ∷ us) h = (ground arith, any_cons t ts us h.1)

any_self : (ts : List PlanTask) → All (λ u. any (λ v. str_eq v.id u.id) ts ≡ true) ts
any_self [] = tt
any_self (t ∷ ts) = (ground (arith, eq_refl t.id), any_cons t ts ts (any_self ts))

-- The dispatched tasks answer for launched tasks only.
pub dispatch_all-AnswersLaunched : (s : Schedule) → AnswersLaunched (dispatch_all s)
dispatch_all-AnswersLaunched s n launched =
    dispatch_all-Answers s n launched launched (any_self launched)

abbrev Counted : TaskExecutionResult → PlanTask → Type 0
Counted r t = (t.id ≡ r.task_id) × (r.attempts ≤ t.attempts + 1)

dispatch_all-Counted :
    (s : Schedule) (n : ℕ) (all_launched ts : List PlanTask)
    → ((r : TaskExecutionResult) → Any (Counted r) ts → Any (Counted r) all_launched)
    → All (CountsOnce all_launched) (dispatch_all s n ts)
unfolding dispatch_all
dispatch_all-Counted s n l [] h = tt
dispatch_all-Counted s n l (t ∷ ts) h = elim (Bool-cases (s.panics n t)) [
  | inl e ↦ rw e (tt, dispatch_all-Counted s n l ts (λ r a. h r (inr a)))
  | inr e ↦
      let v = run_one_task-IsAnswer (s.worker n t) (s.team n t) t in
      let r = (run_one_task (s.worker n t) (s.team n t) t).result in
      rw e (
        h r (inl (sym v.named, counted-le (s.worker n t) (s.team n t) t)),
        dispatch_all-Counted s n l ts (λ r a. h r (inr a)),
      )
]

-- The dispatched tasks count one attempt more at most.
pub dispatch_all-Counts : (s : Schedule) → Counts (dispatch_all s)
dispatch_all-Counts s n launched = dispatch_all-Counted s n launched launched (λ r a. a)
