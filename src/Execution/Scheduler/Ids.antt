-- ===== src/Execution/Scheduler/Ids.antt =====
-- A round keeps the ids of the tasks and their order; a plan's ids are distinct or not.
use rust_ia_micro_agents.Base.{
  ℕ, String, str_eq, ◌≡◌, refl, ◌∙◌, Bool, List, [], ◌∷◌, map, Option, none, some, arith, find,
  update_first, inl, inr, Option-cases,
}
use rust_ia_micro_agents.Base.Maps.{HashMap}
use rust_ia_micro_agents.Planner.Plan.{TaskState, running, PlanTask}
use rust_ia_micro_agents.Planner.Dag.{ready_task_ids}
use rust_ia_micro_agents.Execution.Artifacts.{TaskExecutionResult}
use rust_ia_micro_agents.Execution.Scheduler.{
  RunState, Join, launch, settle_task, settle, promote, round,
}

abbrev pub ids : List PlanTask → List String
ids tasks = map (λ t. t.id) tasks

pub ids-update_first :
    (p : PlanTask → Bool) (f : PlanTask → PlanTask)
    → ((t : PlanTask) → (f t).id ≡ t.id)
    → (tasks : List PlanTask) → ids (update_first p f tasks) ≡ ids tasks
ids-update_first p f h [] = refl
ids-update_first p f h (t ∷ ts) = ground (arith, h t, ids-update_first p f h ts)

pub settle_task-id :
    (mr ml : ℕ) (r : TaskExecutionResult) (t : PlanTask) → (settle_task mr ml r t).id ≡ t.id
unfolding settle_task
settle_task-id mr ml r t = ground arith

pub ids-launch : (is : List String) (tasks : List PlanTask) → ids (launch is tasks).1 ≡ ids tasks
unfolding launch
ids-launch [] tasks = refl
ids-launch (i ∷ is) tasks = elim (Option-cases (find (λ t. str_eq t.id i) tasks)) [
  | inl e ↦ rw (e, launch) (ids-launch is tasks)
  | inr (t, e) ↦
      rw (e, launch)
        (ids-launch is _
          ∙ ids-update_first (λ u. str_eq u.id i) (λ u. record u { state = running }) (λ u. refl)
              tasks)
]

pub ids-settle :
    (mr ml : ℕ) (joined : List (Option TaskExecutionResult)) (tasks : List PlanTask)
    (results : HashMap TaskExecutionResult)
    → ids (settle mr ml joined tasks results).0 ≡ ids tasks
unfolding settle
ids-settle mr ml [] tasks results = refl
ids-settle mr ml (none ∷ js) tasks results = ids-settle mr ml js tasks results
ids-settle mr ml (some r ∷ js) tasks results =
    ids-settle mr ml js _ _ ∙ ids-update_first _ _ (settle_task-id mr ml r) tasks

pub ids-promote :
    (snapshot : HashMap TaskState) (tasks : List PlanTask)
    → ids (promote snapshot tasks) ≡ ids tasks
unfolding promote
ids-promote snapshot [] = refl
ids-promote snapshot (t ∷ ts) = ground (arith, ids-promote snapshot ts)

pub ids-round :
    (join : Join) (limit mr ml n : ℕ) (s : RunState)
    → ids (round join limit mr ml n s).tasks ≡ ids s.tasks
unfolding round
ids-round join limit mr ml n s =
    let (launched, running_tasks) = launch (ready_task_ids s.tasks) s.tasks in
    ids-promote _ _
    ∙ ids-settle mr ml (join n launched) running_tasks s.results
    ∙ ids-launch (ready_task_ids s.tasks) s.tasks
