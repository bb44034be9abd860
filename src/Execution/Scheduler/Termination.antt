-- ===== src/Execution/Scheduler/Termination.antt =====
-- The loop of `execute_plan_parallel` ends: a measure of the tasks falls in each round.
use rust_ia_micro_agents.Base.{
  ℕ, zero, suc, ◌+◌, ◌-◌, ◌*◌, ◌≤◌, ◌<◌, String, str_eq, eq_iff, ◌≡◌, refl, Bool, true, false, ◌&&◌,
  List, [], ◌∷◌, map, Option, none, some, arith, length, any, find, filter, update_first, is_empty,
  All, inl, inr, Option-cases, Bool-cases, if◌then◌else◌, u32_max,
}
use rust_ia_micro_agents.Base.Maps.{HashMap}
use rust_ia_micro_agents.Planner.Plan.{TaskState, running, PlanTask, ExecutionPlan}
use rust_ia_micro_agents.Planner.Dag.{is_startable, states_of, dependencies_done, ready_task_ids}
use rust_ia_micro_agents.Execution.Artifacts.{TaskExecutionResult}
use rust_ia_micro_agents.Execution.Scheduler.{
  RunState, Join, Outcome, launch, settle_task, settle, is_waiting, promote, round, run, initial,
  finish, should_burst_parallel, adaptive_parallel_limit, execute_plan_parallel,
}
use rust_ia_micro_agents.Execution.Scheduler.Ids.{ids, ids-round}
use rust_ia_micro_agents.Base.Distinct.{AreDistinct}

-- Rounds that a task can still take part in, at most.
task_measure : ℕ → PlanTask → ℕ
task_measure ml t = 2 * (ml - t.review_loops) + (if is_startable t.state then 1 else 0)

pub measure : ℕ → List PlanTask → ℕ
measure ml [] = 0
measure ml (t ∷ ts) = task_measure ml t + measure ml ts

measure-update_first-le :
    (ml : ℕ) (p : PlanTask → Bool) (f : PlanTask → PlanTask)
    → ((t : PlanTask) → task_measure ml (f t) ≤ task_measure ml t)
    → (tasks : List PlanTask) → measure ml (update_first p f tasks) ≤ measure ml tasks
unfolding measure
measure-update_first-le ml p f h [] = omega arith
measure-update_first-le ml p f h (t ∷ ts) = ground (arith, h t, measure-update_first-le ml p f h ts)

running_measure :
    (ml : ℕ) (t : PlanTask) → task_measure ml (record t { state = running }) ≤ task_measure ml t
unfolding task_measure is_startable
running_measure ml t = ground arith

settle_measure :
    (mr ml : ℕ) (r : TaskExecutionResult)
    → ml ≤ u32_max
    → (t : PlanTask) → task_measure ml (settle_task mr ml r t) ≤ task_measure ml t
unfolding task_measure settle_task is_startable
settle_measure mr ml r h t = ground arith

measure-launch-le :
    (ml : ℕ) (is : List String) (tasks : List PlanTask)
    → measure ml (launch is tasks).1 ≤ measure ml tasks
unfolding launch
measure-launch-le ml [] tasks = omega arith
measure-launch-le ml (i ∷ is) tasks = elim (Option-cases (find (λ t. str_eq t.id i) tasks)) [
  | inl e ↦ rw (e, launch) (measure-launch-le ml is tasks)
  | inr (t, e) ↦
      let p = λ (u : PlanTask). str_eq u.id i in
      let f = λ (u : PlanTask). record u { state = running } in
      rw (e, launch)
        (omega (
          arith,
          measure-launch-le ml is (update_first p f tasks),
          measure-update_first-le ml p f (running_measure ml) tasks,
        ))
]

measure-settle-le :
    (mr ml : ℕ) (joined : List (Option TaskExecutionResult)) (tasks : List PlanTask)
    (results : HashMap TaskExecutionResult)
    → ml ≤ u32_max
    → measure ml (settle mr ml joined tasks results).0 ≤ measure ml tasks
unfolding settle
measure-settle-le mr ml [] tasks results h = omega arith
measure-settle-le mr ml (none ∷ js) tasks results h = measure-settle-le mr ml js tasks results h
measure-settle-le mr ml (some r ∷ js) tasks results h = omega (
  arith,
  measure-settle-le mr ml js (update_first (λ t. str_eq t.id r.task_id) (settle_task mr ml r) tasks)
      _ h,
  measure-update_first-le ml (λ t. str_eq t.id r.task_id) (settle_task mr ml r)
      (settle_measure mr ml r h) tasks,
)

measure-promote :
    (ml : ℕ) (snapshot : HashMap TaskState) (tasks : List PlanTask)
    → measure ml (promote snapshot tasks) ≡ measure ml tasks
unfolding promote measure task_measure is_startable is_waiting
measure-promote ml snapshot [] = refl
measure-promote ml snapshot (t ∷ ts) = ground (arith, measure-promote ml snapshot ts)

abbrev startable_with : String → PlanTask → Bool
startable_with i t = str_eq t.id i && is_startable t.state

no_match :
    (i : String) (t : PlanTask) (ts : List PlanTask)
    → str_eq t.id i ≡ true
    → All (λ j. str_eq j t.id ≡ false) (ids ts)
    → any (startable_with i) ts ≡ false
no_match i t [] e h = refl
no_match i t (u ∷ us) e h =
    ground (arith, eq_iff t.id i, eq_iff u.id i, eq_iff u.id t.id, no_match i t us e h.1)

-- Among distinct ids the first task of an id is the only one, so marking it running lowers the
-- measure when a task of that id may start.
measure-mark-lt :
    (ml : ℕ) (i : String) (tasks : List PlanTask)
    → AreDistinct (ids tasks)
    → any (startable_with i) tasks ≡ true
    → measure ml (update_first (λ t. str_eq t.id i) (λ t. record t { state = running }) tasks)
      < measure ml tasks
unfolding measure task_measure is_startable
measure-mark-lt ml i [] d h = cc
measure-mark-lt ml i (t ∷ ts) d h = ground (arith, no_match i t ts, measure-mark-lt ml i ts d.1)

find_of_any :
    (i : String) (tasks : List PlanTask)
    → any (startable_with i) tasks ≡ true
    → (t : PlanTask) × (find (λ u. str_eq u.id i) tasks ≡ some t)
find_of_any i [] h = cc
find_of_any i (t ∷ ts) h = elim (Bool-cases (str_eq t.id i)) [
  | inl e ↦ (t, rw e)
  | inr e ↦ let (u, found) = find_of_any i ts (ground arith) in (u, rw e found)
]

first_ready :
    (p : PlanTask → Bool) (i : String) (is : List String) (ts : List PlanTask)
    → map (λ t. t.id) (filter p (filter (λ t. is_startable t.state) ts)) ≡ i ∷ is
    → any (startable_with i) ts ≡ true
first_ready p i is [] e = cc
first_ready p i is (t ∷ ts) e = ground (arith, eq_iff t.id i, first_ready p i is ts)

measure-launch-lt :
    (ml : ℕ) (i : String) (is : List String) (tasks : List PlanTask)
    → AreDistinct (ids tasks)
    → any (startable_with i) tasks ≡ true
    → measure ml (launch (i ∷ is) tasks).1 < measure ml tasks
unfolding launch
measure-launch-lt ml i is tasks d h =
    let (t, e) = find_of_any i tasks h in
    let marked = update_first (λ u. str_eq u.id i) (λ u. record u { state = running }) tasks in
    rw (e, launch) (omega (arith, measure-launch-le ml is marked, measure-mark-lt ml i tasks d h))

module _ (join : Join) (limit mr ml : ℕ) (bounded : ml ≤ u32_max) where
  measure-round-lt :
      (n : ℕ) (s : RunState) (ready_ids : List String)
      → ready_task_ids s.tasks ≡ ready_ids
      → AreDistinct (ids s.tasks)
      → is_empty ready_ids ≡ false
      → measure ml (round join limit mr ml n s).tasks < measure ml s.tasks
  unfolding round ready_task_ids
  measure-round-lt n s [] e d h = cc
  measure-round-lt n s (i ∷ is) e d h =
      let (launched, running_tasks) = launch (i ∷ is) s.tasks in
      let joined = join n launched in
      rw (e, round)
        (omega (
          arith,
          measure-promote ml (states_of (settle mr ml joined running_tasks s.results).0)
              (settle mr ml joined running_tasks s.results).0,
          measure-settle-le mr ml joined running_tasks s.results bounded,
          measure-launch-lt ml i is s.tasks d
              (first_ready (dependencies_done (states_of s.tasks)) i is s.tasks e),
        ))

  run_total :
      (fuel n : ℕ) (s : RunState)
      → AreDistinct (ids s.tasks)
      → measure ml s.tasks < fuel
      → (end : RunState) × (run join limit mr ml fuel n s ≡ some end)
  unfolding run
  run_total zero n s d h = elim h [ ]
  run_total (suc fuel) n s d h = elim (Bool-cases (is_empty (ready_task_ids s.tasks))) [
    | inl e ↦ (s, rw (e, run))
    | inr e ↦
        rw (e, run)
          (run_total fuel (suc n) (round join limit mr ml n s)
            (rw (ids-round join limit mr ml n s) d)
            (omega (arith, measure-round-lt n s (ready_task_ids s.tasks) refl d e)))
  ]

measure-le : (ml : ℕ) (tasks : List PlanTask) → measure ml tasks ≤ length tasks * (2 * ml + 1)
unfolding measure task_measure
measure-le ml [] = omega arith
measure-le ml (t ∷ ts) = ground (arith, measure-le ml ts)

-- On a plan whose task ids are distinct the execution ends, whatever the tasks' futures answer:
-- more rounds than `tasks * (2 * max_review_loops + 1)` are never made, for a `u32` limit.
pub execute_plan_parallel-total :
    (join : Join) (to_lowercase : String → String) (persistent ephemeral mp mr ml fuel : ℕ)
    (plan : ExecutionPlan)
    → ml ≤ u32_max
    → AreDistinct (ids plan.tasks)
    → length plan.tasks * (2 * ml + 1) < fuel
    → (out : Outcome) × (execute_plan_parallel join to_lowercase persistent ephemeral mp mr ml fuel
          plan
        ≡ some out)
unfolding execute_plan_parallel
execute_plan_parallel-total join to_lowercase persistent ephemeral mp mr ml fuel plan bounded d h =
    let limit =
      adaptive_parallel_limit (should_burst_parallel to_lowercase plan) mp persistent ephemeral in
    let (end, e) =
      run_total join limit mr ml bounded fuel 0 (initial plan) d
        (omega (arith, measure-le ml plan.tasks)) in
    (finish plan end, rw (e, execute_plan_parallel))
