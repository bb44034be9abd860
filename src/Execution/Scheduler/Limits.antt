-- ===== src/Execution/Scheduler/Limits.antt =====
-- The counters of a task: how often it is tried and how often it is sent back.
use rust_ia_micro_agents.Base.{
  ℕ, zero, suc, ◌+◌, ◌≤◌, String, str_eq, ◌≡◌, ap, subst, Bool, true, List, [], ◌∷◌, Option, none,
  some, arith, find, update_first, is_empty, All, Any, and-elim, sym, ◌∙◌, inl, inr, Option-cases,
  Bool-cases,
}
use rust_ia_micro_agents.Base.Maps.{HashMap}
use rust_ia_micro_agents.Planner.Plan.{TaskState, running, PlanTask, ExecutionPlan}
use rust_ia_micro_agents.Planner.Dag.{is_startable, ready_task_ids}
use rust_ia_micro_agents.Execution.Artifacts.{TaskExecutionResult}
use rust_ia_micro_agents.Execution.Scheduler.{
  RunState, Join, Outcome, launch, settle_task, settle, is_waiting, promote, round, run,
  is_accepted, complete_integration, initial, should_burst_parallel, adaptive_parallel_limit,
  execute_plan_parallel,
}
use rust_ia_micro_agents.Execution.Scheduler.Ids.{ids, ids-round}
use rust_ia_micro_agents.Base.Distinct.{AreDistinct}
use rust_ia_micro_agents.Execution.Scheduler.Untouched.{listed, Within, Within-refl, find_id}
use rust_ia_micro_agents.Execution.Scheduler.Covered.{IsExact, ready_exactly}
use rust_ia_micro_agents.Execution.Scheduler.Dependencies.{finish_inversion}

-- `attempts` stays at most one over the retries, and below it while the task may start again.
pub record IsLimited (mr ml : ℕ) (t : PlanTask) : Type 0 where
  pub tries : t.attempts ≤ mr + 1
  pub loops : t.review_loops ≤ ml
  pub spare : is_startable t.state ≡ true → t.attempts ≤ mr

-- A result counts at most one attempt more than a launched task of its id.
abbrev pub CountsOnce : List PlanTask → Option TaskExecutionResult → Type 0
CountsOnce launched none = Unit
CountsOnce launched (some r) =
    Any (λ t. (t.id ≡ r.task_id) × (r.attempts ≤ t.attempts + 1)) launched

abbrev pub Counts : Join → Type 0
Counts join = (n : ℕ) (launched : List PlanTask) → All (CountsOnce launched) (join n launched)

-- Tasks with listed ids have an attempt left.
abbrev HasSpare : ℕ → List String → PlanTask → Type 0
HasSpare mr is t = listed t.id is ≡ true → t.attempts ≤ mr

All-update_first :
    (P : PlanTask → Type 0) (p : PlanTask → Bool) (f : PlanTask → PlanTask)
    → ((t : PlanTask) → P t → P (f t))
    → (ts : List PlanTask) → All P ts
    → All P (update_first p f ts)
All-update_first P p f h [] a = tt
All-update_first P p f h (t ∷ ts) a = elim (Bool-cases (p t)) [
  | inl e ↦ rw e (h t a.0, a.1)
  | inr e ↦ rw e (a.0, All-update_first P p f h ts a.1)
]

All-find :
    (P : PlanTask → Type 0) (p : PlanTask → Bool) (ts : List PlanTask) (t : PlanTask)
    → All P ts
    → find p ts ≡ some t
    → P t
All-find P p [] t a e = cc
All-find P p (u ∷ us) t a e = elim (Bool-cases (p u)) [
  | inl h ↦ let same : some u ≡ some t = rw h at e in let q : u ≡ t = cc in subst P q a.0
  | inr h ↦ All-find P p us t a.1 (rw h at e)
]

launched_spare :
    (mr : ℕ) (is js : List String) (tasks : List PlanTask)
    → Within js is
    → All (HasSpare mr is) tasks
    → All (λ t. t.attempts ≤ mr) (launch js tasks).0
unfolding launch
launched_spare mr is [] tasks w a = tt
launched_spare mr is (j ∷ js) tasks w a = elim (Option-cases (find (λ t. str_eq t.id j) tasks)) [
  | inl e ↦ rw (e, launch) (launched_spare mr is js tasks w.1 a)
  | inr (t, e) ↦
      rw (e, launch)
        (
          All-find (HasSpare mr is) (λ u. str_eq u.id j) tasks t a e (rw (find_id j tasks t e) w.0),
          launched_spare mr is js _ w.1 (
              All-update_first (HasSpare mr is) (λ u. str_eq u.id j)
                (λ u. record u { state = running }) (λ u h. h) tasks a),
        )
]

launch-IsLimited :
    (mr ml : ℕ) (js : List String) (tasks : List PlanTask)
    → All (IsLimited mr ml) tasks
    → All (IsLimited mr ml) (launch js tasks).1
unfolding launch is_startable
launch-IsLimited mr ml [] tasks a = a
launch-IsLimited mr ml (j ∷ js) tasks a = elim (Option-cases (find (λ t. str_eq t.id j) tasks)) [
  | inl e ↦ rw (e, launch) (launch-IsLimited mr ml js tasks a)
  | inr (t, e) ↦
      rw (e, launch)
        (launch-IsLimited mr ml js _ (
          All-update_first (IsLimited mr ml) (λ u. str_eq u.id j)
            (λ u. record u { state = running })
            (λ u h. record { tries = h.tries; loops = h.loops; spare = λ k. cc }) tasks a))
]

counted_attempts :
    (mr : ℕ) (r : TaskExecutionResult) (launched : List PlanTask)
    → All (λ t. t.attempts ≤ mr) launched
    → CountsOnce launched (some r)
    → r.attempts ≤ mr + 1
counted_attempts mr r [] a c = elim c [ ]
counted_attempts mr r (t ∷ ts) a (inl c) = omega (arith, a.0, c.1)
counted_attempts mr r (t ∷ ts) a (inr c) = counted_attempts mr r ts a.1 c

settle_task-IsLimited :
    (mr ml : ℕ) (r : TaskExecutionResult) (t : PlanTask)
    → r.attempts ≤ mr + 1
    → IsLimited mr ml t
    → IsLimited mr ml (settle_task mr ml r t)
unfolding settle_task is_startable
settle_task-IsLimited mr ml r t h v = ground arith

settle-IsLimited :
    (mr ml : ℕ) (launched : List PlanTask)
    → All (λ t. t.attempts ≤ mr) launched
    → (joined : List (Option TaskExecutionResult)) (tasks : List PlanTask)
      (results : HashMap TaskExecutionResult)
    → All (CountsOnce launched) joined
    → All (IsLimited mr ml) tasks
    → All (IsLimited mr ml) (settle mr ml joined tasks results).0
unfolding settle
settle-IsLimited mr ml launched sp [] tasks results c a = a
settle-IsLimited mr ml launched sp (none ∷ js) tasks results c a =
    settle-IsLimited mr ml launched sp js tasks results c.1 a
settle-IsLimited mr ml launched sp (some r ∷ js) tasks results c a =
    settle-IsLimited mr ml launched sp js _ _ c.1 (
      All-update_first (IsLimited mr ml) _ (settle_task mr ml r)
        (λ t v. settle_task-IsLimited mr ml r t (counted_attempts mr r launched sp c.0) v) tasks a)

promote-IsLimited :
    (mr ml : ℕ) (snapshot : HashMap TaskState) (ts : List PlanTask)
    → All (IsLimited mr ml) ts
    → All (IsLimited mr ml) (promote snapshot ts)
unfolding promote is_startable is_waiting
promote-IsLimited mr ml snapshot [] a = tt
promote-IsLimited mr ml snapshot (t ∷ ts) a =
    (let v = a.0 in ground arith, promote-IsLimited mr ml snapshot ts a.1)

exact-HasSpare :
    (mr ml : ℕ) (tasks ts : List PlanTask)
    → All (IsExact tasks) ts
    → All (IsLimited mr ml) ts
    → All (HasSpare mr (ready_task_ids tasks)) ts
exact-HasSpare mr ml tasks [] e a = tt
exact-HasSpare mr ml tasks (t ∷ ts) e a = (
  λ l. a.0.spare (and-elim (is_startable t.state) _ (sym e.0 ∙ l)).0,
  exact-HasSpare mr ml tasks ts e.1 a.1,
)

module _ (join : Join) (counts : Counts join) (limit mr ml : ℕ) where
  round-IsLimited :
      (n : ℕ) (s : RunState)
      → AreDistinct (ids s.tasks)
      → All (IsLimited mr ml) s.tasks
      → All (IsLimited mr ml) (round join limit mr ml n s).tasks
  unfolding round
  round-IsLimited n s d a =
      let ready_ids = ready_task_ids s.tasks in
      let (launched, running_tasks) = launch ready_ids s.tasks in
      promote-IsLimited mr ml _ _ (
        settle-IsLimited mr ml launched
          (launched_spare mr ready_ids ready_ids s.tasks (Within-refl ready_ids)
            (exact-HasSpare mr ml s.tasks s.tasks (ready_exactly s.tasks d) a))
          (join n launched) running_tasks s.results (counts n launched)
          (launch-IsLimited mr ml ready_ids s.tasks a))

  run-IsLimited :
      (fuel n : ℕ) (s end : RunState)
      → AreDistinct (ids s.tasks)
      → All (IsLimited mr ml) s.tasks
      → run join limit mr ml fuel n s ≡ some end
      → All (IsLimited mr ml) end.tasks
  unfolding run
  run-IsLimited zero n s end d a e = cc
  run-IsLimited (suc fuel) n s end d a e = elim (Bool-cases (is_empty (ready_task_ids s.tasks))) [
    | inl stop ↦
        let same : some s ≡ some end = rw (stop, run) at e in
        let p : s ≡ end = cc in subst (λ (r : RunState). All (IsLimited mr ml) r.tasks) p a
    | inr go ↦
        run-IsLimited fuel (suc n) (round join limit mr ml n s) end
          (rw (ids-round join limit mr ml n s) d) (round-IsLimited n s d a) (rw (go, run) at e)
  ]

complete_integration-IsLimited :
    (mr ml : ℕ) (ts : List PlanTask)
    → All (IsLimited mr ml) ts
    → All (IsLimited mr ml) (complete_integration ts)
unfolding complete_integration is_accepted is_startable
complete_integration-IsLimited mr ml [] a = tt
complete_integration-IsLimited mr ml (t ∷ ts) a =
    (let v = a.0 in ground arith, complete_integration-IsLimited mr ml ts a.1)

-- When the execution returns, each task records at most `max_retries + 1` attempts and was sent back
-- at most `max_review_loops` times, provided that the given tasks are within these limits, that their
-- ids are distinct and that a result counts one attempt more than its task at most.
pub execute_plan_parallel-IsLimited :
    (join : Join) (to_lowercase : String → String) (persistent ephemeral mp mr ml fuel : ℕ)
    (plan : ExecutionPlan) (out : Outcome)
    → Counts join
    → AreDistinct (ids plan.tasks)
    → All (IsLimited mr ml) plan.tasks
    → execute_plan_parallel join to_lowercase persistent ephemeral mp mr ml fuel plan ≡ some out
    → All (IsLimited mr ml) out.plan.tasks
unfolding execute_plan_parallel
execute_plan_parallel-IsLimited join to_lowercase persistent ephemeral mp mr ml fuel plan out counts
      d a e =
    let limit =
      adaptive_parallel_limit (should_burst_parallel to_lowercase plan) mp persistent ephemeral in
    let (s, ran, fin) = finish_inversion plan (run join limit mr ml fuel 0 (initial plan)) out e in
    let same : complete_integration s.tasks ≡ out.plan.tasks =
      ap (λ (o : Outcome). o.plan.tasks) fin in
    subst (All (IsLimited mr ml)) same (
      complete_integration-IsLimited mr ml s.tasks
        (run-IsLimited join counts limit mr ml fuel 0 (initial plan) s d a ran))
