-- ===== src/Planner/Decomposition/Closed.antt =====
-- A plan whose drafts all fit it depends on its own tasks alone.
use rust_ia_micro_agents.Base.{
  ℕ, zero, suc, ◌+◌, ◌%◌, ◌^◌, ◌≤◌, max, String, ◌≡◌, refl, sym, ap, subst, ◌∙◌, false, List, [],
  ◌∷◌, ◌++◌, map, some, inl, inr, arith, All, length, filter, is_empty, if◌then◌else◌, Bool-cases,
  DateTime,
}
use rust_ia_micro_agents.Base.Distinct.{AreDistinct}
use rust_ia_micro_agents.Base.Maps.{collect}
use rust_ia_micro_agents.Base.Rows.{take}
use rust_ia_micro_agents.Planner.Plan.{PlanTask, ExecutionPlan}
use rust_ia_micro_agents.Planner.Slugs.{integration_task_slug, scoped_task_id}
use rust_ia_micro_agents.Planner.Materialize.{
  PlanSeed, Planner, requested_ids, depths_from, work_task, work_tasks, integration_task, scheduled,
  drafted_tasks, materialize_plan,
}
use rust_ia_micro_agents.Planner.Materialize.Shape.{
  IsKnownOnly, map-snoc, ids-scheduled, scheduled-IsKnownOnly, work_tasks-IsKnownOnly,
  length-materialize_plan, materialize_plan-AreDistinct,
}
use rust_ia_micro_agents.Planner.Decomposition.{
  ExecutionPlanContract, is_work, seed_of, contract_seeds, work_cap, build_initial_plan,
  plan_of_contract, build_plan_from_contract,
}
use rust_ia_micro_agents.Planner.Decomposition.Numbers.{
  requested_ids-AreDistinct, requested_ids-ne-integration,
}
use rust_ia_micro_agents.Planner.Decomposition.Drafts.{
  length-take-le, initial_seeds-IsDraft, initial_seeds-total,
}
use rust_ia_micro_agents.Team.Config.{TeamConfig, TeamRuntimeSettings}

abbrev pub task_ids : List PlanTask → List String
task_ids tasks = map (λ t. t.id) tasks

-- The tasks but the last depend only on one another, none on itself; the last depends on exactly
-- them, and is the integration task of the plan.
abbrev pub IsClosed : String → List PlanTask → Type 0
IsClosed plan_id tasks =
    (work : List PlanTask) × (last : PlanTask) × (tasks ≡ work ++ last ∷ [])
    × (last.id ≡ scoped_task_id plan_id integration_task_slug)
    × (last.dependencies ≡ task_ids work)
    × All (IsKnownOnly (task_ids work)) work

ids-work_tasks :
    (planner : Planner) (plan_id goal : String) (roles valid_ids : List String) (left idx : ℕ)
    (seeds : List PlanSeed)
    → length seeds ≤ left
    → task_ids (work_tasks planner plan_id goal roles valid_ids left idx seeds)
      ≡ requested_ids plan_id idx seeds
unfolding work_tasks work_task requested_ids
ids-work_tasks planner plan_id goal roles valid_ids zero idx [] h = refl
ids-work_tasks planner plan_id goal roles valid_ids zero idx (seed ∷ seeds) h = absurd (omega arith)
ids-work_tasks planner plan_id goal roles valid_ids (suc left) idx [] h = refl
ids-work_tasks planner plan_id goal roles valid_ids (suc left) idx (seed ∷ seeds) h =
    ap (λ is. (work_task planner plan_id goal roles valid_ids idx seed).id ∷ is)
      (ids-work_tasks planner plan_id goal roles valid_ids left (idx + 1) seeds (omega arith))

length-map : {A B : Type 0} (f : A → B) (xs : List A) → length (map f xs) ≡ length xs
length-map f [] = refl
length-map f (x ∷ xs) = ap suc (length-map f xs)

length-contract_seeds-le :
    (team : TeamConfig) (contract : ExecutionPlanContract)
    → length (contract_seeds team contract) ≤ work_cap team
unfolding contract_seeds
length-contract_seeds-le team contract = omega (
  arith,
  length-map seed_of (take (work_cap team) (filter is_work contract.tasks)),
  length-take-le (work_cap team) (filter is_work contract.tasks),
)

module _ (planner : Planner) (uuid : String) (now : DateTime) (conversation_id : ℕ) (goal : String)
    (team : TeamConfig) (roles : List String) (settings : TeamRuntimeSettings) where
  materialize_plan-IsClosed :
      (assumptions risks : List String) (seeds : List PlanSeed)
      → length seeds ≤ work_cap team
      → IsClosed uuid
          (materialize_plan planner uuid now conversation_id goal team roles settings assumptions
            risks seeds).tasks
  unfolding materialize_plan drafted_tasks scheduled integration_task
  materialize_plan-IsClosed assumptions risks seeds h =
      let usable_roles = if is_empty roles then settings.subagent_roleset else roles in
      let valid_ids = requested_ids uuid 0 seeds in
      let cap = work_cap team in
      let work = work_tasks planner uuid goal usable_roles valid_ids cap 0 seeds in
      let depth = team.plan_max_depth % 2 ^ 32 in
      let depths = collect [] (
        depths_from planner 0
          (planner.topological_levels (drafted_tasks planner uuid goal team usable_roles seeds))) in
      let same = ids-scheduled planner depth depths work in
      let ids = ids-work_tasks planner uuid goal usable_roles valid_ids cap 0 seeds h in
      (
        map (scheduled planner depth depths) work,
        scheduled planner depth depths
            (integration_task planner uuid goal usable_roles valid_ids work),
        map-snoc (scheduled planner depth depths) work _,
        refl,
        sym same,
        subst (λ is. All (IsKnownOnly is) (map (scheduled planner depth depths) work))
            (sym (same ∙ ids))
            (scheduled-IsKnownOnly planner depth depths valid_ids work
              (work_tasks-IsKnownOnly planner uuid goal usable_roles valid_ids cap 0 seeds)),
      )

module _ (planner : Planner) (uuid : String) (now : DateTime) (conversation_id : ℕ) (goal : String)
    (team : TeamConfig) (roles : List String) (settings : TeamRuntimeSettings) where
  -- For a team with a role, a goal has a plan: its ids are distinct, there are at most
  -- `plan_max_tasks` tasks but two are always allowed, and its tasks are closed under dependencies.
  pub build_initial_plan_lem :
      is_empty roles ≡ false
      → (plan : ExecutionPlan) × (build_initial_plan planner uuid now conversation_id goal team
            roles settings
          ≡ some plan)
        × AreDistinct (task_ids plan.tasks)
        × (length plan.tasks ≤ max team.plan_max_tasks 2)
        × IsClosed uuid plan.tasks
  unfolding build_initial_plan
  build_initial_plan_lem some_role =
      let (seeds, e) =
        initial_seeds-total planner.to_lowercase roles goal (work_cap team) some_role in
      let d =
        initial_seeds-IsDraft planner.to_lowercase roles goal (work_cap team) seeds (omega arith)
          e in
      let assumptions = "User request can be decomposed safely" ∷ [] in
      let risks =
        "Insufficient context may require clarification" ∷ "External dependencies may fail" ∷ [] in
      (
        materialize_plan planner uuid now conversation_id goal team roles settings assumptions risks
            seeds,
        rw (e, build_initial_plan) refl,
        materialize_plan-AreDistinct planner uuid now conversation_id goal team roles settings
            assumptions risks seeds (requested_ids-AreDistinct uuid 0 seeds d.numbered)
            (requested_ids-ne-integration uuid 0 seeds d.numbered),
        omega (
          arith,
          length-materialize_plan planner uuid now conversation_id goal team roles settings
              assumptions risks seeds,
        ),
        materialize_plan-IsClosed planner uuid now conversation_id goal team roles settings
            assumptions risks seeds d.within,
      )

  plan_of_contract-IsClosed :
      (contract : ExecutionPlanContract)
      → IsClosed uuid
          (plan_of_contract planner uuid now conversation_id goal team roles settings contract
            (contract_seeds team contract)).tasks
  unfolding plan_of_contract
  plan_of_contract-IsClosed contract =
      materialize_plan-IsClosed planner uuid now conversation_id _ team roles settings _ _
        (contract_seeds team contract) (length-contract_seeds-le team contract)

  -- For a team with a role, every contract gives a plan, and its tasks are closed under
  -- dependencies: what the model invents as a dependency is dropped, and no task is cut off that
  -- another one waits for.
  pub build_plan_from_contract-IsClosed :
      (contract : ExecutionPlanContract)
      → is_empty roles ≡ false
      → (plan : ExecutionPlan) × (build_plan_from_contract planner uuid now conversation_id goal
            team roles settings contract
          ≡ some plan)
        × IsClosed uuid plan.tasks
  unfolding build_plan_from_contract plan_of_contract
  build_plan_from_contract-IsClosed contract some_role =
      let seeds = contract_seeds team contract in
      elim (Bool-cases (is_empty seeds)) [
        | inl none_left ↦
            let (plan, e, _, _, closed) = build_initial_plan_lem some_role in
            (plan, rw (none_left, build_plan_from_contract) e, closed)
        | inr some_left ↦ (
          plan_of_contract planner uuid now conversation_id goal team roles settings contract seeds,
          rw (some_left, build_plan_from_contract) refl,
          plan_of_contract-IsClosed contract,
        )
      ]
