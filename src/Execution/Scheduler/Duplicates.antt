-- ===== src/Execution/Scheduler/Duplicates.antt =====
-- Two tasks of one id: `position` finds the first only, so the second is never marked running.
use rust_ia_micro_agents.Base.{
  ℕ, zero, suc, String, str_eq, eq_iff, ◌≡◌, refl, ◌⊎◌, inl, inr, true, false, List, [], ◌∷◌, map,
  Option, none, some, arith, any, find, filter, update_first, is_empty, Option-cases,
}
use rust_ia_micro_agents.Base.Maps.{HashMap}
use rust_ia_micro_agents.Planner.Plan.{TaskState, running, PlanTask, ExecutionPlan}
use rust_ia_micro_agents.Planner.Dag.{is_startable, states_of, dependencies_done, ready_task_ids}
use rust_ia_micro_agents.Execution.Artifacts.{TaskExecutionResult}
use rust_ia_micro_agents.Execution.Scheduler.{
  RunState, Join, launch, settle_task, settle, is_waiting, promote, round, run, initial,
  should_burst_parallel, adaptive_parallel_limit, execute_plan_parallel,
}
use rust_ia_micro_agents.Execution.Scheduler.Ids.{settle_task-id}

-- A task that may start and has no dependencies, behind another task of its id. `seen` holds the
-- ids in front of the list.
abbrev pub HasShadowed : List String → List PlanTask → Type 0
HasShadowed seen [] = ⊥
HasShadowed seen (t ∷ ts) =
    ((any (λ j. str_eq j t.id) seen ≡ true) × (is_startable t.state ≡ true) × (t.dependencies ≡ []))
    ⊎ HasShadowed (t.id ∷ seen) ts

HasShadowed-update_first :
    (i : String) (f : PlanTask → PlanTask) (seen : List String) (tasks : List PlanTask)
    → ((t : PlanTask) → (f t).id ≡ t.id)
    → any (λ j. str_eq j i) seen ≡ false
    → HasShadowed seen tasks
    → HasShadowed seen (update_first (λ t. str_eq t.id i) f tasks)
HasShadowed-update_first i f seen [] keep new h = h
HasShadowed-update_first i f seen (t ∷ ts) keep new h =
    ground (arith, eq_iff t.id i, keep t, HasShadowed-update_first i f (t.id ∷ seen) ts keep)

HasShadowed-launch :
    (is : List String) (tasks : List PlanTask)
    → HasShadowed [] tasks
    → HasShadowed [] (launch is tasks).1
unfolding launch
HasShadowed-launch [] tasks h = h
HasShadowed-launch (i ∷ is) tasks h = elim (Option-cases (find (λ t. str_eq t.id i) tasks)) [
  | inl e ↦ rw (e, launch) (HasShadowed-launch is tasks h)
  | inr (t, e) ↦
      rw (e, launch)
        (HasShadowed-launch is _ (
          HasShadowed-update_first i (λ u. record u { state = running }) [] tasks (λ u. refl) refl
            h))
]

HasShadowed-settle :
    (mr ml : ℕ) (joined : List (Option TaskExecutionResult)) (tasks : List PlanTask)
    (results : HashMap TaskExecutionResult)
    → HasShadowed [] tasks
    → HasShadowed [] (settle mr ml joined tasks results).0
unfolding settle
HasShadowed-settle mr ml [] tasks results h = h
HasShadowed-settle mr ml (none ∷ js) tasks results h = HasShadowed-settle mr ml js tasks results h
HasShadowed-settle mr ml (some r ∷ js) tasks results h = HasShadowed-settle mr ml js _ _ (
    HasShadowed-update_first r.task_id (settle_task mr ml r) [] tasks (settle_task-id mr ml r) refl
      h)

HasShadowed-promote :
    (snapshot : HashMap TaskState) (seen : List String) (tasks : List PlanTask)
    → HasShadowed seen tasks
    → HasShadowed seen (promote snapshot tasks)
unfolding promote is_startable is_waiting
HasShadowed-promote snapshot seen [] h = h
HasShadowed-promote snapshot seen (t ∷ ts) h =
    ground (arith, HasShadowed-promote snapshot (t.id ∷ seen) ts)

shadowed_ready :
    (states : HashMap TaskState) (seen : List String) (tasks : List PlanTask)
    → HasShadowed seen tasks
    → is_empty (
        map
          (λ t. t.id)
          (filter (dependencies_done states) (filter (λ t. is_startable t.state) tasks)))
      ≡ false
unfolding dependencies_done
shadowed_ready states seen [] h = elim h [ ]
shadowed_ready states seen (t ∷ ts) h = ground (arith, shadowed_ready states (t.id ∷ seen) ts)

run_diverges :
    (join : Join) (limit mr ml fuel n : ℕ) (s : RunState)
    → HasShadowed [] s.tasks
    → run join limit mr ml fuel n s ≡ none
unfolding run ready_task_ids
run_diverges join limit mr ml zero n s h = refl
run_diverges join limit mr ml (suc fuel) n s h =
    rw (shadowed_ready (states_of s.tasks) [] s.tasks h, run)
      (run_diverges join limit mr ml fuel (suc n) (round join limit mr ml n s) (
        unfold round in
        HasShadowed-promote _ [] _
          (HasShadowed-settle mr ml _ _ _ (HasShadowed-launch _ s.tasks h))))

-- If a task that may start and has no dependencies stands behind a task of the same id, no number
-- of rounds ends the execution, whatever the tasks' futures answer and whatever the limits are.
pub execute_plan_parallel_diverges :
    (join : Join) (to_lowercase : String → String) (persistent ephemeral mp mr ml fuel : ℕ)
    (plan : ExecutionPlan)
    → HasShadowed [] plan.tasks
    → execute_plan_parallel join to_lowercase persistent ephemeral mp mr ml fuel plan ≡ none
unfolding execute_plan_parallel
execute_plan_parallel_diverges join to_lowercase persistent ephemeral mp mr ml fuel plan h =
    let limit =
      adaptive_parallel_limit (should_burst_parallel to_lowercase plan) mp persistent ephemeral in
    rw (run_diverges join limit mr ml fuel 0 (initial plan) h, execute_plan_parallel)
