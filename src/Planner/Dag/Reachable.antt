-- ===== src/Planner/Dag/Reachable.antt =====
-- `reachable_dependencies` of src/planner/dag.rs: the search ends, and finds what a task depends on,
-- directly or through other tasks.
use rust_ia_micro_agents.Base.{
  ℕ, zero, suc, ◌≤◌, ◌<◌, String, str_eq, eq_iff, ◌≡◌, refl, sym, ap, subst, ◌∙◌, true, List, [],
  ◌∷◌, none, some, ◌⊎◌, inl, inr, ◌↔◌, arith, All, length, Bool-cases, Option-cases,
}
use rust_ia_micro_agents.Base.Maps.{HashMap, get}
use rust_ia_micro_agents.Planner.Plan.{PlanTask}
use rust_ia_micro_agents.Planner.Dag.{
  is_in, Search, visit, task_map, expand, search_loop, insert_sorted, sort, reachable_dependencies,
}
use rust_ia_micro_agents.Planner.Dag.Visits.{
  unseen, work, visit-work, visit-All, visit-deps, visit-stack, visit-found, visit-all,
}
use rust_ia_micro_agents.Planner.Dag.Dependencies.{
  here, next, Reached, IsDependency, all_dependencies, IsWithin, get-All, collect-All, All_is_in,
  tasks-IsWithin, All-at,
}

module _ (tasks : HashMap PlanTask) (start : String) where
  abbrev Closed : List String → String → Type 0
  Closed deps i =
      (t : PlanTask) → get i tasks ≡ some t → All (λ d. is_in d deps ≡ true) t.dependencies

  -- The stack is reached, what was found are dependencies, and what is not on the stack is done.
  record IsSearch (s : Search) : Type 0 where
    reached : All (Reached tasks start) s.stack
    found : All (IsDependency tasks start) s.deps
    done :
        (i : String) → is_in i (start ∷ s.deps) ≡ true → (is_in i s.stack ≡ true) ⊎ Closed s.deps i

  All-map :
      (P Q : String → Type 0)
      → ((i : String) → P i → Q i)
      → (is : List String) → All P is
      → All Q is
  All-map P Q f [] h = tt
  All-map P Q f (i ∷ is) h = (f i h.0, All-map P Q f is h.1)

  module _ (current : String) (rest deps : List String)
      (v : IsSearch (record { deps = deps; stack = current ∷ rest })) where
    skip-IsSearch : get current tasks ≡ none → IsSearch (record { deps = deps; stack = rest })
    skip-IsSearch missing = record {
      reached = v.reached.1;
      found = v.found;
      done = λ i h. elim (v.done i h) [
        | inr closed ↦ inr closed
        | inl on_stack ↦ elim (Bool-cases (str_eq current i)) [
          | inl same ↦ inr (λ t e. cc (ap (λ k. get k tasks) ((eq_iff current i).0 same)))
          | inr other ↦ inl (ground arith)
        ]
      ];
    }

    module _ (task : PlanTask) (e : get current tasks ≡ some task) where
      abbrev after : Search
      after = visit task.dependencies (record { deps = deps; stack = rest })

      own_deps : All (λ d. is_in d task.dependencies ≡ true) task.dependencies
      own_deps = All_is_in task.dependencies task.dependencies (λ i h. h)

      visit-done :
          (i : String)
          → is_in i (start ∷ deps) ≡ true
          → (is_in i after.stack ≡ true) ⊎ Closed after.deps i
      visit-done i h = elim (v.done i h) [
        | inr closed ↦ inr (λ t p.
            All-map (λ d. is_in d deps ≡ true) (λ d. is_in d after.deps ≡ true)
              (λ d k. visit-deps d task.dependencies _ k) t.dependencies (closed t p))
        | inl on_stack ↦ elim (Bool-cases (str_eq current i)) [
          | inl same ↦ inr (λ t p.
              let q : task ≡ t =
                ground (arith, e, p, ap (λ k. get k tasks) ((eq_iff current i).0 same)) in
              subst (λ (u : PlanTask). All (λ d. is_in d after.deps ≡ true) u.dependencies) q
                (visit-all task.dependencies _))
          | inr other ↦ inl (visit-stack i task.dependencies _ (ground arith))
        ]
      ]

      visit-IsSearch : IsSearch after
      visit-IsSearch =
          let (reached, found) =
            visit-All (Reached tasks start) (IsDependency tasks start) task.dependencies _
              (All-map (λ d. is_in d task.dependencies ≡ true) (Reached tasks start)
                (λ d h. next current d task v.reached.0 e h) task.dependencies own_deps)
              (All-map (λ d. is_in d task.dependencies ≡ true) (IsDependency tasks start)
                (λ d h. (current, task, v.reached.0, e, h)) task.dependencies own_deps)
              v.reached.1 v.found in
          record {
            reached = reached;
            found = found;
            done = λ i h. elim (Bool-cases (str_eq start i)) [
              | inl same ↦ visit-done i (ground arith)
              | inr other ↦
                  elim (visit-found i task.dependencies (record { deps = deps; stack = rest })
                    (ground arith)) [ inl old ↦ visit-done i (ground arith) | inr new ↦ inl new ]
            ];
          }

  expand_missing :
      (current : String) (s : Search) → get current tasks ≡ none → expand tasks current s ≡ s
  unfolding expand
  expand_missing current s e = rw (e, expand) refl

  expand_found :
      (current : String) (task : PlanTask) (s : Search)
      → get current tasks ≡ some task
      → expand tasks current s ≡ visit task.dependencies s
  unfolding expand
  expand_found current task s e = rw (e, expand) refl

  module _ (entries : List String)
      (within : (i : String) (t : PlanTask) → get i tasks ≡ some t → IsWithin entries t) where
    -- What the search returns: dependencies only, and with each all of its own.
    abbrev IsResult : List String → Type 0
    IsResult deps =
        All (IsDependency tasks start) deps
        × ((i : String) → is_in i (start ∷ deps) ≡ true → Closed deps i)

    search_loop-total :
        (fuel : ℕ) (deps stack : List String)
        → IsSearch (record { deps = deps; stack = stack })
        → work entries (record { deps = deps; stack = stack }) < fuel
        → (result : List String) × (search_loop tasks fuel (record { deps = deps; stack = stack })
            ≡ some result)
          × IsResult result
    unfolding search_loop
    search_loop-total zero deps stack v h = absurd (omega arith)
    search_loop-total (suc fuel) deps [] v h = (
      deps,
      refl,
      (v.found, λ i e. elim (v.done i e) [ inl on_stack ↦ cc | inr closed ↦ closed ]),
    )
    search_loop-total (suc fuel) deps (current ∷ rest) v h =
        elim (Option-cases (get current tasks)) [
          | inl missing ↦
              rw
                (expand_missing current (record { deps = deps; stack = rest }) missing, search_loop)
                (search_loop-total fuel deps rest (skip-IsSearch current rest deps v missing)
                  (omega arith))
          | inr (task, e) ↦
              rw (expand_found current task (record { deps = deps; stack = rest }) e, search_loop)
                (search_loop-total fuel (after current rest deps v task e).deps
                  (after current rest deps v task e).stack
                  (visit-IsSearch current rest deps v task e)
                  (omega (
                    arith,
                    visit-work entries task.dependencies (record { deps = deps; stack = rest })
                        (within current task e),
                  )))
        ]

  Reached-Closed :
      (deps : List String)
      → ((i : String) → is_in i (start ∷ deps) ≡ true → Closed deps i)
      → (i : String) → Reached tasks start i
      → is_in i (start ∷ deps) ≡ true
  Reached-Closed deps closed i (here _ e) = ground (arith, eq_iff start i, sym e)
  Reached-Closed deps closed d (next i _ t r e h) =
      let found = Reached-Closed deps closed i r in
      let own = All-at (λ k. is_in k deps ≡ true) d t.dependencies (closed i found t e) h in
      ground arith

length-le : (entries deps : List String) → unseen entries deps ≤ length entries
length-le [] deps = omega arith
length-le (e ∷ es) deps = ground (arith, length-le es deps)

is_in-insert_sorted :
    (i j : String) (is : List String) → is_in i (insert_sorted j is) ≡ is_in i (j ∷ is)
unfolding insert_sorted
is_in-insert_sorted i j [] = refl
is_in-insert_sorted i j (k ∷ ks) = ground (arith, is_in-insert_sorted i j ks)

is_in-sort : (i : String) (is : List String) → is_in i (sort is) ≡ is_in i is
unfolding sort
is_in-sort i [] = refl
is_in-sort i (j ∷ js) = ground (arith, is_in-insert_sorted i j (sort js), is_in-sort i js)

-- With more fuel than one for the task asked for and one for each entry of a list of dependencies,
-- the search returns, and a text is in the result exactly when some task that is reached names it as
-- a dependency.
pub reachable_dependencies-iff_IsDependency :
    (tasks : List PlanTask) (task_id : String) (fuel : ℕ)
    → suc (length (all_dependencies tasks)) < fuel
    → (deps : List String) × (reachable_dependencies tasks task_id fuel ≡ some deps)
      × ((d : String) → (is_in d deps ≡ true) ↔ IsDependency (task_map tasks) task_id d)
unfolding reachable_dependencies
reachable_dependencies-iff_IsDependency tasks task_id fuel h =
    let m = task_map tasks in
    let entries = all_dependencies tasks in
    let (found, e, (sound, closed)) =
      search_loop-total m task_id entries
        (λ i t p.
          get-All (IsWithin entries) m
            (collect-All (IsWithin entries) [] tasks tt (tasks-IsWithin entries tasks (λ i e. e))) i
            t p)
        fuel [] (task_id ∷ [])
        (record { reached = (here task_id refl, tt); found = tt; done = λ i h. inl h })
        (omega (arith, length-le entries [])) in
    (
      sort found,
      rw (e, reachable_dependencies) refl,
      λ d. (
        λ h. All-at (IsDependency m task_id) d found sound (sym (is_in-sort d found) ∙ h),
        λ (i, t, r, p, q).
            is_in-sort d found
            ∙ All-at (λ k. is_in k found ≡ true) d t.dependencies
                (closed i (Reached-Closed m task_id found closed i r) t p) q,
      ),
    )
