-- ===== src/Planner/Dag/Ready.antt =====
-- What `ready_task_ids` returns, against a description that uses no map.
use rust_ia_micro_agents.Base.{
  String, str_eq, eq_iff, ◌↔◌, ◌⊎◌, inl, inr, true, sym, All, Any, Bool-cases, ◌≡◌, refl, ◌∙◌, Bool,
  ◌&&◌, List, [], ◌∷◌, map, Option, none, some, arith, all, any, filter, if◌then◌else◌, or_else,
}
use rust_ia_micro_agents.Base.Maps.{HashMap, get, insert, collect, get-insert}
use rust_ia_micro_agents.Planner.Plan.{
  TaskState, pending, ready, retrying, accepted, completed, PlanTask,
}
use rust_ia_micro_agents.Planner.Dag.{
  is_startable, is_done, states_of, dependencies_done, ready_task_ids,
}

-- The state of the last task with the given id.
abbrev pub last_state : String → List PlanTask → Option TaskState
last_state d [] = none
last_state d (t ∷ ts) = or_else (last_state d ts) (if str_eq t.id d then some t.state else none)

abbrev pub all_done : List PlanTask → List String → Bool
all_done tasks deps = all (λ d. is_done (last_state d tasks)) deps

get-collect :
    (d : String) (tasks : List PlanTask) (m : HashMap TaskState)
    → get d (collect m (map (λ t. (t.id, t.state)) tasks)) ≡ or_else (last_state d tasks) (get d m)
unfolding collect
get-collect d [] m = refl
get-collect d (t ∷ ts) m =
    ground (arith, get-collect d ts (insert t.id t.state m), get-insert t.id d t.state m)

pub get-states_of :
    (d : String) (tasks : List PlanTask) → get d (states_of tasks) ≡ last_state d tasks
unfolding get
get-states_of d tasks = ground (arith, get-collect d tasks [])

all_dependencies :
    (tasks : List PlanTask) (deps : List String)
    → all (λ dep. is_done (get dep (states_of tasks))) deps ≡ all_done tasks deps
all_dependencies tasks [] = refl
all_dependencies tasks (d ∷ ds) = rw (get-states_of d tasks, all_dependencies tasks ds)

pub dependencies_done_lem :
    (tasks : List PlanTask) (t : PlanTask)
    → dependencies_done (states_of tasks) t ≡ all_done tasks t.dependencies
unfolding dependencies_done
dependencies_done_lem tasks t = all_dependencies tasks t.dependencies

any-map-filter :
    (p q : PlanTask → Bool) (i : String) (ts : List PlanTask)
    → any (λ j. str_eq j i) (map (λ t. t.id) (filter p (filter q ts)))
      ≡ any (λ t. str_eq t.id i && (q t && p t)) ts
any-map-filter p q i [] = refl
any-map-filter p q i (t ∷ ts) = ground (arith, any-map-filter p q i ts)

any-congr :
    (p q : PlanTask → Bool)
    → ((t : PlanTask) → p t ≡ q t)
    → (ts : List PlanTask) → any p ts ≡ any q ts
any-congr p q h [] = refl
any-congr p q h (t ∷ ts) = rw (h t, any-congr p q h ts)

pub any-ready_task_ids :
    (tasks : List PlanTask) (i : String)
    → any (λ j. str_eq j i) (ready_task_ids tasks)
      ≡ any (λ t. str_eq t.id i && (is_startable t.state && all_done tasks t.dependencies)) tasks
unfolding ready_task_ids
any-ready_task_ids tasks i =
    any-map-filter (dependencies_done (states_of tasks)) (λ t. is_startable t.state) i tasks
    ∙ any-congr _ _ (λ t. rw (dependencies_done_lem tasks t)) tasks

abbrev pub IsStartable : TaskState → Type 0
IsStartable state = (state ≡ pending) ⊎ ((state ≡ ready) ⊎ (state ≡ retrying))

abbrev pub IsDone : Option TaskState → Type 0
IsDone state = (state ≡ some accepted) ⊎ (state ≡ some completed)

-- Some task of the id is pending, ready or retrying, and the last task recorded under each of its
-- dependencies is accepted or completed.
abbrev pub IsReady : List PlanTask → String → Type 0
IsReady tasks i =
    Any
      (λ t.
        (t.id ≡ i) × IsStartable t.state × All (λ d. IsDone (last_state d tasks)) t.dependencies)
      tasks

abbrev Decides : {A : Type 0} → (A → Bool) → (A → Type 0) → Type 0
Decides {A} p P = (a : A) → (p a ≡ true) ↔ P a

any-iff_Any :
    {A : Type 0} (p : A → Bool) (P : A → Type 0)
    → Decides p P
    → (xs : List A) → (any p xs ≡ true) ↔ Any P xs
any-iff_Any p P h [] = (λ e. cc, λ m. elim m [ ])
any-iff_Any p P h (x ∷ xs) = elim (Bool-cases (p x)) [
  | inl e ↦ (λ _. inl ((h x).0 e), λ _. ground (arith, e))
  | inr e ↦ (
    λ k. inr ((any-iff_Any p P h xs).0 (ground (arith, e))),
    λ m. elim m [
      | inl y ↦ cc (e, (h x).1 y)
      | inr y ↦ ground (arith, e, (any-iff_Any p P h xs).1 y)
    ],
  )
]

all-iff_All :
    {A : Type 0} (p : A → Bool) (P : A → Type 0)
    → Decides p P
    → (xs : List A) → (all p xs ≡ true) ↔ All P xs
all-iff_All p P h [] = (λ e. tt, λ m. refl)
all-iff_All p P h (x ∷ xs) = (
  λ k. ((h x).0 (ground arith), (all-iff_All p P h xs).0 (ground arith)),
  λ (a, rest). ground (arith, (h x).1 a, (all-iff_All p P h xs).1 rest),
)

is_startable-iff_IsStartable : (state : TaskState) → (is_startable state ≡ true) ↔ IsStartable state
unfolding is_startable
is_startable-iff_IsStartable state = (forward state, back state)
  where
    forward : (s : TaskState) → is_startable s ≡ true → IsStartable s
    forward pending h = inl refl
    forward ready h = inr (inl refl)
    forward retrying h = inr (inr refl)
    forward _ h = cc

    back : (s : TaskState) → IsStartable s → is_startable s ≡ true
    back s (inl e) = rw e refl
    back s (inr (inl e)) = rw e refl
    back s (inr (inr e)) = rw e refl

is_done-iff_IsDone : (state : Option TaskState) → (is_done state ≡ true) ↔ IsDone state
unfolding is_done
is_done-iff_IsDone state = (forward state, back state)
  where
    forward : (s : Option TaskState) → is_done s ≡ true → IsDone s
    forward (some accepted) h = inl refl
    forward (some completed) h = inr refl
    forward _ h = cc

    back : (s : Option TaskState) → IsDone s → is_done s ≡ true
    back s (inl e) = rw e refl
    back s (inr e) = rw e refl

ready_lem :
    (tasks : List PlanTask) (i : String) (t : PlanTask)
    → (str_eq t.id i && (is_startable t.state && all_done tasks t.dependencies) ≡ true)
      ↔ ((t.id ≡ i) × IsStartable t.state × All (λ d. IsDone (last_state d tasks)) t.dependencies)
ready_lem tasks i t =
    let dependencies =
      all-iff_All (λ d. is_done (last_state d tasks)) (λ d. IsDone (last_state d tasks))
        (λ d. is_done-iff_IsDone (last_state d tasks)) t.dependencies in
    (
      λ h. (
        (eq_iff t.id i).0 (ground arith),
        (is_startable-iff_IsStartable t.state).0 (ground arith),
        dependencies.0 (ground arith),
      ),
      λ (e, s, d). ground (
        arith,
        (eq_iff t.id i).1 e,
        (is_startable-iff_IsStartable t.state).1 s,
        dependencies.1 d,
      ),
    )

-- An id is returned exactly when some task of that id is pending, ready or retrying and the last
-- task recorded under each of its dependencies is accepted or completed.
pub ready_task_ids-iff_IsReady :
    (tasks : List PlanTask) (i : String) → Any (λ j. j ≡ i) (ready_task_ids tasks) ↔ IsReady tasks i
ready_task_ids-iff_IsReady tasks i =
    let listed =
      any-iff_Any (λ j. str_eq j i) (λ j. j ≡ i) (λ j. eq_iff j i) (ready_task_ids tasks) in
    let described = any-iff_Any _ _ (ready_lem tasks i) tasks in
    let same = any-ready_task_ids tasks i in
    (λ m. described.0 (sym same ∙ listed.1 m), λ m. listed.0 (same ∙ described.1 m))
