-- ===== src/Planner/Materialize/Shape.antt =====
-- The shape of a materialised plan: how many tasks it has, how they are named, and what they depend
-- on.
use rust_ia_micro_agents.Base.{
  ℕ, zero, suc, ◌%◌, ◌^◌, ◌+◌, ◌-◌, min, max, String, str_eq, any, not, false, and-elim, ◌≡◌, refl,
  sym, ap, true, List, [], ◌∷◌, ◌++◌, map, filter, arith, All, length, DateTime, Bool-cases, inl,
  inr, if◌then◌else◌, is_empty,
}
use rust_ia_micro_agents.Base.Distinct.{IsFresh, AreDistinct, AreDistinct-snoc}
use rust_ia_micro_agents.Base.Maps.{HashMap, collect}
use rust_ia_micro_agents.Planner.Plan.{PlanTask, ExecutionPlan}
use rust_ia_micro_agents.Planner.Slugs.{integration_task_slug, scoped_task_id}
use rust_ia_micro_agents.Planner.Materialize.{
  PlanSeed, Planner, requested_id, requested_ids, is_known, sanitized, seed_dependencies,
  depths_from, work_task, work_tasks, integration_task, scheduled, drafted_tasks, materialize_plan,
}
use rust_ia_micro_agents.Team.Config.{TeamConfig, TeamRuntimeSettings}

length-map : (f : PlanTask → PlanTask) (ts : List PlanTask) → length (map f ts) ≡ length ts
length-map f [] = refl
length-map f (t ∷ ts) = ap suc (length-map f ts)

length_snoc : (ts : List PlanTask) (t : PlanTask) → length (ts ++ t ∷ []) ≡ length ts + 1
length_snoc [] t = refl
length_snoc (u ∷ us) t = omega (arith, length_snoc us t)

pub map-snoc :
    (f : PlanTask → PlanTask) (ts : List PlanTask) (t : PlanTask)
    → map f (ts ++ t ∷ []) ≡ map f ts ++ f t ∷ []
map-snoc f [] t = refl
map-snoc f (u ∷ us) t = ap (λ vs. f u ∷ vs) (map-snoc f us t)

pub ids-snoc :
    (ts : List PlanTask) (t : PlanTask)
    → map (λ (u : PlanTask). u.id) (ts ++ t ∷ []) ≡ map (λ u. u.id) ts ++ t.id ∷ []
ids-snoc [] t = refl
ids-snoc (u ∷ us) t = ap (λ vs. u.id ∷ vs) (ids-snoc us t)

pub ids-scheduled :
    (planner : Planner) (depth : ℕ) (depths : HashMap ℕ) (ts : List PlanTask)
    → map (λ (u : PlanTask). u.id) (map (scheduled planner depth depths) ts) ≡ map (λ u. u.id) ts
unfolding scheduled
ids-scheduled planner depth depths [] = refl
ids-scheduled planner depth depths (t ∷ ts) =
    ap (λ vs. t.id ∷ vs) (ids-scheduled planner depth depths ts)

-- The dependencies are among the known ids, and none is the task's own.
abbrev pub IsKnown : List String → String → String → Type 0
IsKnown valid_ids task_id dep =
    (str_eq dep task_id ≡ false) × (any (λ j. str_eq j dep) valid_ids ≡ true)

abbrev pub IsKnownOnly : List String → PlanTask → Type 0
IsKnownOnly valid_ids t = All (IsKnown valid_ids t.id) t.dependencies

filter-IsKnown :
    (valid_ids : List String) (task_id : String) (deps : List String)
    → All (IsKnown valid_ids task_id) (filter (is_known valid_ids task_id) deps)
filter-IsKnown valid_ids task_id [] = tt
filter-IsKnown valid_ids task_id (d ∷ ds) = elim (Bool-cases (is_known valid_ids task_id d)) [
  | inl e ↦ rw e (
    (
      ground (arith, and-elim (not (str_eq d task_id)) (any (λ j. str_eq j d) valid_ids) e),
      (and-elim (not (str_eq d task_id)) (any (λ j. str_eq j d) valid_ids) e).1,
    ),
    filter-IsKnown valid_ids task_id ds,
  )
  | inr e ↦ rw e (filter-IsKnown valid_ids task_id ds)
]

module _ (planner : Planner) (plan_id goal : String) (roles valid_ids : List String) where
  length-work_tasks :
      (left idx : ℕ) (seeds : List PlanSeed)
      → length (work_tasks planner plan_id goal roles valid_ids left idx seeds)
        ≡ min (length seeds) left
  unfolding work_tasks
  length-work_tasks zero idx seeds = omega arith
  length-work_tasks (suc left) idx [] = omega arith
  length-work_tasks (suc left) idx (seed ∷ seeds) =
      omega (arith, length-work_tasks left (idx + 1) seeds)

  pub work_tasks-IsKnownOnly :
      (left idx : ℕ) (seeds : List PlanSeed)
      → All (IsKnownOnly valid_ids) (work_tasks planner plan_id goal roles valid_ids left idx seeds)
  unfolding work_tasks work_task seed_dependencies
  work_tasks-IsKnownOnly zero idx seeds = tt
  work_tasks-IsKnownOnly (suc left) idx [] = tt
  work_tasks-IsKnownOnly (suc left) idx (seed ∷ seeds) = (
    filter-IsKnown valid_ids (requested_id plan_id idx seed)
        (map (scoped_task_id plan_id) (sanitized seed.dependencies)),
    work_tasks-IsKnownOnly left (idx + 1) seeds,
  )

  work_tasks-IsFresh :
      (i : String) (left idx : ℕ) (seeds : List PlanSeed)
      → IsFresh i (requested_ids plan_id idx seeds)
      → IsFresh i (map (λ t. t.id) (work_tasks planner plan_id goal roles valid_ids left idx seeds))
  unfolding work_tasks work_task requested_ids
  work_tasks-IsFresh i zero idx seeds f = tt
  work_tasks-IsFresh i (suc left) idx [] f = tt
  work_tasks-IsFresh i (suc left) idx (seed ∷ seeds) f =
      (f.0, work_tasks-IsFresh i left (idx + 1) seeds f.1)

  work_tasks-AreDistinct :
      (left idx : ℕ) (seeds : List PlanSeed)
      → AreDistinct (requested_ids plan_id idx seeds)
      → AreDistinct
          (map (λ t. t.id) (work_tasks planner plan_id goal roles valid_ids left idx seeds))
  unfolding work_tasks work_task requested_ids
  work_tasks-AreDistinct zero idx seeds d = tt
  work_tasks-AreDistinct (suc left) idx [] d = tt
  work_tasks-AreDistinct (suc left) idx (seed ∷ seeds) d = (
    work_tasks-IsFresh (requested_id plan_id idx seed) left (idx + 1) seeds d.0,
    work_tasks-AreDistinct left (idx + 1) seeds d.1,
  )

pub scheduled-IsKnownOnly :
    (planner : Planner) (depth : ℕ) (depths : HashMap ℕ) (valid_ids : List String)
    (ts : List PlanTask)
    → All (IsKnownOnly valid_ids) ts
    → All (IsKnownOnly valid_ids) (map (scheduled planner depth depths) ts)
unfolding scheduled
scheduled-IsKnownOnly planner depth depths valid_ids [] a = tt
scheduled-IsKnownOnly planner depth depths valid_ids (t ∷ ts) a =
    (a.0, scheduled-IsKnownOnly planner depth depths valid_ids ts a.1)

module _ (planner : Planner) (uuid : String) (now : DateTime) (conversation_id : ℕ) (goal : String)
    (team : TeamConfig) (roles : List String) (settings : TeamRuntimeSettings)
    (assumptions risks : List String) (seeds : List PlanSeed) where
  abbrev pub drawn_up : ExecutionPlan
  drawn_up =
      materialize_plan planner uuid now conversation_id goal team roles settings assumptions risks
        seeds

  -- A plan has a task for each draft, up to one less than `plan_max_tasks` but at least one, and the
  -- integration task.
  pub length-materialize_plan :
      length
        (materialize_plan planner uuid now conversation_id goal team roles settings assumptions
          risks seeds).tasks
      ≡ min (length seeds) (max (team.plan_max_tasks - 1) 1) + 1
  unfolding materialize_plan drafted_tasks
  length-materialize_plan =
      let usable_roles = if is_empty roles then settings.subagent_roleset else roles in
      let valid_ids = requested_ids uuid 0 seeds in
      let cap = max (team.plan_max_tasks - 1) 1 in
      let work = work_tasks planner uuid goal usable_roles valid_ids cap 0 seeds in
      rw
        (
          length-map _ _,
          length_snoc work _,
          length-work_tasks planner uuid goal usable_roles valid_ids cap 0 seeds,
        )
        refl

  -- The last task of a plan is the integration task and depends on exactly the tasks before it; each
  -- of those depends only on ids that were drafted, and never on itself.
  pub materialize_plan-IsKnownOnly :
      (work : List PlanTask) × (last : PlanTask) × ((materialize_plan planner uuid now
          conversation_id goal team roles settings assumptions risks seeds).tasks
        ≡ work ++ last ∷ [])
      × (last.id ≡ scoped_task_id uuid integration_task_slug)
      × (last.dependencies ≡ map (λ t. t.id) work)
      × All (IsKnownOnly (requested_ids uuid 0 seeds)) work
  unfolding materialize_plan drafted_tasks scheduled integration_task
  materialize_plan-IsKnownOnly =
      let usable_roles = if is_empty roles then settings.subagent_roleset else roles in
      let valid_ids = requested_ids uuid 0 seeds in
      let cap = max (team.plan_max_tasks - 1) 1 in
      let work = work_tasks planner uuid goal usable_roles valid_ids cap 0 seeds in
      let depth = team.plan_max_depth % 2 ^ 32 in
      let depths = collect [] (
        depths_from planner 0
          (planner.topological_levels (drafted_tasks planner uuid goal team usable_roles seeds))) in
      (
        map (scheduled planner depth depths) work,
        scheduled planner depth depths
            (integration_task planner uuid goal usable_roles valid_ids work),
        map-snoc (scheduled planner depth depths) work _,
        refl,
        sym (ids-scheduled planner depth depths work),
        scheduled-IsKnownOnly planner depth depths valid_ids work
            (work_tasks-IsKnownOnly planner uuid goal usable_roles valid_ids cap 0 seeds),
      )

  -- Among distinct drafted ids, none of which is the integration task's, a plan's ids are distinct.
  pub materialize_plan-AreDistinct :
      AreDistinct (requested_ids uuid 0 seeds)
      → IsFresh (scoped_task_id uuid integration_task_slug) (requested_ids uuid 0 seeds)
      → AreDistinct (map (λ t. t.id) drawn_up.tasks)
  unfolding materialize_plan drafted_tasks integration_task
  materialize_plan-AreDistinct d f =
      let usable_roles = if is_empty roles then settings.subagent_roleset else roles in
      let valid_ids = requested_ids uuid 0 seeds in
      let cap = max (team.plan_max_tasks - 1) 1 in
      let work = work_tasks planner uuid goal usable_roles valid_ids cap 0 seeds in
      rw (ids-scheduled planner _ _ _, ids-snoc work _)
        (AreDistinct-snoc _ _
          (work_tasks-IsFresh planner uuid goal usable_roles valid_ids _ cap 0 seeds f)
          (work_tasks-AreDistinct planner uuid goal usable_roles valid_ids cap 0 seeds d))
