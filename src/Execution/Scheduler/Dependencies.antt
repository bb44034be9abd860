-- ===== src/Execution/Scheduler/Dependencies.antt =====
-- No task leaves its pending state before its dependencies are accepted or completed, and those
-- stay so to the end of the execution; and at the end no task is left that could start.
use rust_ia_micro_agents.Base.{
  ℕ, String, ◌≡◌, refl, sym, ap, ◌∙◌, true, false, ◌&&◌, List, [], ◌∷◌, Option, none, some, arith,
  is_empty, All, is_some,
}
use rust_ia_micro_agents.Planner.Plan.{PlanTask, ExecutionPlan}
use rust_ia_micro_agents.Planner.Dag.{is_startable, is_done, ready_task_ids}
use rust_ia_micro_agents.Planner.Dag.Ready.{last_state, all_done}
use rust_ia_micro_agents.Execution.Scheduler.{
  RunState, Join, Outcome, run, is_accepted, complete_integration, initial, finish,
  should_burst_parallel, adaptive_parallel_limit, execute_plan_parallel,
}
use rust_ia_micro_agents.Execution.Scheduler.Ids.{ids}
use rust_ia_micro_agents.Base.Distinct.{AreDistinct}
use rust_ia_micro_agents.Execution.Scheduler.Untouched.{listed, AnswersLaunched}
use rust_ia_micro_agents.Execution.Scheduler.Covered.{
  IsCovered, IsExact, All-imp, ready_exactly, run-IsCovered,
}

last_state-complete_integration :
    (d : String) (ts : List PlanTask)
    → (is_some (last_state d (complete_integration ts)) ≡ is_some (last_state d ts))
      × (is_done (last_state d (complete_integration ts)) ≡ is_done (last_state d ts))
unfolding complete_integration is_accepted is_done
last_state-complete_integration d [] = (refl, refl)
last_state-complete_integration d (t ∷ ts) =
    let ih = last_state-complete_integration d ts in ground (arith, ih.0, ih.1)

all_done-complete_integration :
    (ts : List PlanTask) (deps : List String)
    → all_done (complete_integration ts) deps ≡ all_done ts deps
all_done-complete_integration ts [] = refl
all_done-complete_integration ts (d ∷ ds) =
    rw ((last_state-complete_integration d ts).1, all_done-complete_integration ts ds)

complete_integration-IsCovered :
    (tasks ts : List PlanTask)
    → All (IsCovered tasks) ts
    → All (IsCovered (complete_integration tasks)) (complete_integration ts)
unfolding complete_integration is_accepted
complete_integration-IsCovered tasks [] c = tt
complete_integration-IsCovered tasks (t ∷ ts) c = (
  ground (arith, all_done-complete_integration tasks t.dependencies),
  complete_integration-IsCovered tasks ts c.1,
)

-- Not a task that could still start.
abbrev pub IsBlocked : List PlanTask → PlanTask → Type 0
IsBlocked tasks t = (is_startable t.state && all_done tasks t.dependencies) ≡ false

nothing_listed : (i : String) (is : List String) → is_empty is ≡ true → listed i is ≡ false
nothing_listed i [] e = refl
nothing_listed i (j ∷ js) e = cc

complete_integration-IsBlocked :
    (tasks ts : List PlanTask)
    → All (IsBlocked tasks) ts
    → All (IsBlocked (complete_integration tasks)) (complete_integration ts)
unfolding complete_integration is_accepted is_startable
complete_integration-IsBlocked tasks [] c = tt
complete_integration-IsBlocked tasks (t ∷ ts) c = (
  ground (arith, all_done-complete_integration tasks t.dependencies),
  complete_integration-IsBlocked tasks ts c.1,
)

exhausted :
    (tasks : List PlanTask)
    → AreDistinct (ids tasks)
    → is_empty (ready_task_ids tasks) ≡ true
    → All (IsBlocked tasks) tasks
exhausted tasks d stop =
    All-imp (IsExact tasks) (IsBlocked tasks)
      (λ t e. sym e ∙ nothing_listed t.id (ready_task_ids tasks) stop) tasks (ready_exactly tasks d)

pub finish_inversion :
    (plan : ExecutionPlan) (o : Option RunState) (out : Outcome)
    → ◌≡◌ {A = Option Outcome} (elim o [ none ↦ none | some s ↦ some (finish plan s) ]) (some out)
    → (s : RunState) × (o ≡ some s) × (finish plan s ≡ out)
finish_inversion plan none out e = cc
finish_inversion plan (some s) out e = (s, refl, cc)

module _ (join : Join) (to_lowercase : String → String) (persistent ephemeral mp mr ml fuel : ℕ)
    (plan : ExecutionPlan) (out : Outcome) where
  abbrev Returns : Type 0
  Returns =
      execute_plan_parallel join to_lowercase persistent ephemeral mp mr ml fuel plan ≡ some out

  run_of_returns :
      AnswersLaunched join
      → AreDistinct (ids plan.tasks)
      → All (IsCovered plan.tasks) plan.tasks
      → Returns
      → (s : RunState) × (out.plan.tasks ≡ complete_integration s.tasks)
        × All (IsCovered s.tasks) s.tasks
        × All (IsBlocked s.tasks) s.tasks
  unfolding execute_plan_parallel
  run_of_returns answers d c e =
      let limit =
        adaptive_parallel_limit (should_burst_parallel to_lowercase plan) mp persistent ephemeral in
      let (s, ran, fin) =
        finish_inversion plan (run join limit mr ml fuel 0 (initial plan)) out e in
      let (covered, distinct, stop) =
        run-IsCovered join answers limit mr ml fuel 0 (initial plan) s d c ran in
      (s, cc (ap (λ (o : Outcome). o.plan.tasks) fin), covered, exhausted s.tasks distinct stop)

  -- When the execution returns, each task that is no longer pending has all its dependencies
  -- accepted or completed, provided that this holds of the given plan, that its ids are distinct
  -- and that the results answer launched tasks.
  pub execute_plan_parallel-IsCovered :
      AnswersLaunched join
      → AreDistinct (ids plan.tasks)
      → All (IsCovered plan.tasks) plan.tasks
      → Returns
      → All (IsCovered out.plan.tasks) out.plan.tasks
  execute_plan_parallel-IsCovered answers d c e =
      let (s, same, covered, blocked) = run_of_returns answers d c e in
      rw same (complete_integration-IsCovered s.tasks s.tasks covered)

  -- When the execution returns, no task is left that could still start: each that is pending, ready
  -- or retrying has a dependency that is neither accepted nor completed, provided that in the given
  -- plan each task that is not pending has its dependencies done, that its ids are distinct and that
  -- the results answer launched tasks.
  pub execute_plan_parallel-IsBlocked :
      AnswersLaunched join
      → AreDistinct (ids plan.tasks)
      → All (IsCovered plan.tasks) plan.tasks
      → Returns
      → All (IsBlocked out.plan.tasks) out.plan.tasks
  execute_plan_parallel-IsBlocked answers d c e =
      let (s, same, covered, blocked) = run_of_returns answers d c e in
      rw same (complete_integration-IsBlocked s.tasks s.tasks blocked)
