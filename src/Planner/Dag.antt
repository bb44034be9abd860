-- ===== src/Planner/Dag.antt =====
-- src/planner/dag.rs: which tasks may start, and what a task depends on.
pub mod Ready
pub mod Visits
pub mod Dependencies
pub mod Reachable
use rust_ia_micro_agents.Base.{
  ℕ, zero, suc, String, str_eq, Bool, true, false, List, [], ◌∷◌, ◌++◌, map, Option, none, some,
  all, any, filter, if◌then◌else◌,
}
use rust_ia_micro_agents.Base.Maps.{HashMap, get, collect}
use rust_ia_micro_agents.Base.Text.{codes, codes_lt}
use rust_ia_micro_agents.Planner.Plan.{
  TaskState, pending, ready, retrying, accepted, completed, PlanTask,
}

-- `matches!(state, Pending | Ready | Retrying)`.
unfoldable pub is_startable : TaskState → Bool
is_startable pending = true
is_startable ready = true
is_startable retrying = true
is_startable _ = false

-- `matches!(state, Some(Accepted) | Some(Completed))`.
unfoldable pub is_done : Option TaskState → Bool
is_done (some accepted) = true
is_done (some completed) = true
is_done _ = false

abbrev pub states_of : List PlanTask → HashMap TaskState
states_of tasks = collect [] (map (λ t. (t.id, t.state)) tasks)

unfoldable pub dependencies_done : HashMap TaskState → PlanTask → Bool
dependencies_done states task = all (λ dep. is_done (get dep states)) task.dependencies

unfoldable pub ready_task_ids : List PlanTask → List String
ready_task_ids tasks =
    map (λ t. t.id)
      (filter (dependencies_done (states_of tasks)) (filter (λ t. is_startable t.state) tasks))

abbrev pub is_in : String → List String → Bool
is_in i is = any (λ j. str_eq j i) is

-- `deps`, which holds what `visited` does, in the order of insertion, and the stack, its top first.
pub record Search : Type 0 where
  pub deps : List String
  pub stack : List String

-- The `for` loop over the dependencies of a task.
unfoldable pub visit : List String → Search → Search
visit [] s = s
visit (dep ∷ rest) s =
    visit rest
      (if is_in dep s.deps then s else record { deps = s.deps ++ dep ∷ []; stack = dep ∷ s.stack })

abbrev pub task_map : List PlanTask → HashMap PlanTask
task_map tasks = collect [] (map (λ t. (t.id, t)) tasks)

-- The body of the `while` loop behind `pop`.
unfoldable pub expand : HashMap PlanTask → String → Search → Search
unfolding visit
expand tasks current s = elim (get current tasks) [
  | none ↦ s
  | some task ↦ visit task.dependencies s
]

-- The `while` loop; `none` when the fuel runs out.
unfoldable pub search_loop : HashMap PlanTask → ℕ → Search → Option (List String)
search_loop tasks zero s = none
search_loop tasks (suc fuel) s = elim s.stack [
  | [] ↦ some s.deps
  | current ∷ stack ↦ search_loop tasks fuel (expand tasks current (record s { stack = stack }))
]

-- `sort` of texts is by their code points, as UTF-8 orders them.
unfoldable pub insert_sorted : String → List String → List String
insert_sorted i [] = i ∷ []
insert_sorted i (j ∷ js) =
    if codes_lt (codes j) (codes i) then j ∷ insert_sorted i js else i ∷ (j ∷ js)

unfoldable pub sort : List String → List String
unfolding insert_sorted
sort [] = []
sort (i ∷ is) = insert_sorted i (sort is)

unfoldable pub reachable_dependencies : List PlanTask → String → ℕ → Option (List String)
unfolding search_loop sort
reachable_dependencies tasks task_id fuel =
    elim (search_loop (task_map tasks) fuel (record { deps = []; stack = task_id ∷ [] })) [
      | none ↦ none
      | some deps ↦ some (sort deps)
    ]
