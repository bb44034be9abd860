-- ===== src/Execution/Scheduler/Covered.antt =====
-- Every round keeps the tasks that left their pending state with all their dependencies done.
use rust_ia_micro_agents.Base.{
  ℕ, zero, suc, String, str_eq, eq_iff, eq_refl, ◌≡◌, refl, sym, subst, ◌∙◌, Bool, true, false,
  ◌&&◌, List, [], ◌∷◌, some, arith, any, is_empty, All, inl, inr, Bool-cases, is_some, and-elim,
}
use rust_ia_micro_agents.Base.Maps.{HashMap}
use rust_ia_micro_agents.Planner.Plan.{TaskState, pending, PlanTask}
use rust_ia_micro_agents.Planner.Dag.{is_startable, is_done, states_of, ready_task_ids}
use rust_ia_micro_agents.Planner.Dag.Ready.{
  last_state, all_done, dependencies_done_lem, any-ready_task_ids,
}
use rust_ia_micro_agents.Execution.Scheduler.{
  RunState, Join, launch, settle, is_waiting, promote, round, run,
}
use rust_ia_micro_agents.Execution.Scheduler.Ids.{ids, ids-round}
use rust_ia_micro_agents.Base.Distinct.{AreDistinct}
use rust_ia_micro_agents.Execution.Scheduler.Untouched.{
  Pointwise, listed, IsUntouched, AnswersLaunched, settled-IsUntouched,
}

abbrev pub is_pending : TaskState → Bool
is_pending pending = true
is_pending _ = false

-- The task is pending, or all that it depends on is accepted or completed.
abbrev pub IsCovered : List PlanTask → PlanTask → Type 0
IsCovered tasks t = is_pending t.state ≡ false → all_done tasks t.dependencies ≡ true

-- A step that keeps ids and does not undo a finished task.
pub record Advances (t t' : PlanTask) : Type 0 where
  pub same_id : t'.id ≡ t.id
  pub same_dependencies : t'.dependencies ≡ t.dependencies
  pub done : is_done (some t.state) ≡ true → is_done (some t'.state) ≡ true

last_state_mono :
    (d : String) (xs ys : List PlanTask)
    → Pointwise Advances xs ys
    → (is_some (last_state d ys) ≡ is_some (last_state d xs))
      × (is_done (last_state d xs) ≡ true → is_done (last_state d ys) ≡ true)
last_state_mono d [] [] p = (refl, λ h. h)
last_state_mono d [] (y ∷ ys) p = elim p [ ]
last_state_mono d (x ∷ xs) [] p = elim p [ ]
last_state_mono d (x ∷ xs) (y ∷ ys) p =
    let ih = last_state_mono d xs ys p.1 in
    let same = p.0.same_id in let keep = p.0.done in ground (arith, ih.0, ih.1, same, keep)

all_done_mono :
    (xs ys : List PlanTask)
    → Pointwise Advances xs ys
    → (deps : List String) → all_done xs deps ≡ true
    → all_done ys deps ≡ true
all_done_mono xs ys p [] h = h
all_done_mono xs ys p (d ∷ ds) h =
    ground (arith, (last_state_mono d xs ys p).1, all_done_mono xs ys p ds)

-- Among distinct ids the ready ids are those of the tasks that may start with all dependencies done.
any_fresh :
    (q : PlanTask → Bool) (t : PlanTask) (ts : List PlanTask)
    → All (λ j. str_eq j t.id ≡ false) (ids ts)
    → any (λ u. str_eq u.id t.id && q u) ts ≡ false
any_fresh q t [] f = refl
any_fresh q t (u ∷ us) f = ground (arith, any_fresh q t us f.1)

any_skip :
    (q : PlanTask → Bool) (t : PlanTask) (all_tasks ts : List PlanTask)
    → All (λ j. str_eq j t.id ≡ false) (ids ts)
    → All (λ u. any (λ v. str_eq v.id u.id && q v) all_tasks ≡ q u) ts
    → All (λ u. any (λ v. str_eq v.id u.id && q v) (t ∷ all_tasks) ≡ q u) ts
any_skip q t all_tasks [] f h = tt
any_skip q t all_tasks (u ∷ us) f h =
    (ground (arith, eq_iff t.id u.id, eq_iff u.id t.id), any_skip q t all_tasks us f.1 h.1)

any_unique :
    (q : PlanTask → Bool) (ts : List PlanTask)
    → AreDistinct (ids ts)
    → All (λ u. any (λ v. str_eq v.id u.id && q v) ts ≡ q u) ts
any_unique q [] d = tt
any_unique q (t ∷ ts) d = (
  ground (arith, eq_refl t.id, any_fresh q t ts d.0),
  any_skip q t ts ts d.0 (any_unique q ts d.1),
)

abbrev pub IsExact : List PlanTask → PlanTask → Type 0
IsExact tasks t =
    listed t.id (ready_task_ids tasks) ≡ (is_startable t.state && all_done tasks t.dependencies)

pub All-imp :
    (P Q : PlanTask → Type 0)
    → ((t : PlanTask) → P t → Q t)
    → (ts : List PlanTask) → All P ts
    → All Q ts
All-imp P Q h [] a = tt
All-imp P Q h (t ∷ ts) a = (h t a.0, All-imp P Q h ts a.1)

pub ready_exactly : (tasks : List PlanTask) → AreDistinct (ids tasks) → All (IsExact tasks) tasks
ready_exactly tasks d =
    let q = λ (t : PlanTask). is_startable t.state && all_done tasks t.dependencies in
    All-imp _ _ (λ t e. any-ready_task_ids tasks t.id ∙ e) tasks (any_unique q tasks d)

module _ (tasks : List PlanTask) where
  abbrev is : List String
  is = ready_task_ids tasks

  untouched-Advances : (t t' : PlanTask) → IsExact tasks t → IsUntouched is t t' → Advances t t'
  unfolding is_startable is_done
  untouched-Advances t t' e u = record {
    same_id = u.same_id;
    same_dependencies = u.same_dependencies;
    done = elim (Bool-cases (listed t.id is)) [
      | inl l ↦ ground arith
      | inr l ↦ rw (u.kept l) (λ h. h)
    ];
  }

  settled-Advances :
      (xs ys : List PlanTask)
      → All (IsExact tasks) xs
      → Pointwise (IsUntouched is) xs ys
      → Pointwise Advances xs ys
  settled-Advances [] [] a p = tt
  settled-Advances [] (y ∷ ys) a p = elim p [ ]
  settled-Advances (x ∷ xs) [] a p = elim p [ ]
  settled-Advances (x ∷ xs) (y ∷ ys) a p =
      (untouched-Advances x y a.0 p.0, settled-Advances xs ys a.1 p.1)

  untouched-IsCovered :
      (settled : List PlanTask) (t t' : PlanTask)
      → Pointwise Advances tasks settled
      → IsExact tasks t
      → IsCovered tasks t
      → IsUntouched is t t'
      → IsCovered settled t'
  untouched-IsCovered settled t t' adv e c u left = elim (Bool-cases (listed t.id is)) [
    | inl l ↦ rw u.same_dependencies (
        all_done_mono tasks settled adv t.dependencies
          (and-elim (is_startable t.state) _ (sym e ∙ l)).1)
    | inr l ↦
        rw (u.kept l) (all_done_mono tasks settled adv t.dependencies (c (rw (u.kept l) at left)))
  ]

  settled-IsCovered :
      (settled xs ys : List PlanTask)
      → Pointwise Advances tasks settled
      → All (IsExact tasks) xs
      → All (IsCovered tasks) xs
      → Pointwise (IsUntouched is) xs ys
      → All (IsCovered settled) ys
  settled-IsCovered settled [] [] adv a c p = tt
  settled-IsCovered settled [] (y ∷ ys) adv a c p = elim p [ ]
  settled-IsCovered settled (x ∷ xs) [] adv a c p = elim p [ ]
  settled-IsCovered settled (x ∷ xs) (y ∷ ys) adv a c p = (
    untouched-IsCovered settled x y adv a.0 c.0 p.0,
    settled-IsCovered settled xs ys adv a.1 c.1 p.1,
  )

promote-Advances :
    (snapshot : HashMap TaskState) (ts : List PlanTask)
    → Pointwise Advances ts (promote snapshot ts)
unfolding promote is_waiting is_done
promote-Advances snapshot [] = tt
promote-Advances snapshot (t ∷ ts) = (ground arith, promote-Advances snapshot ts)

promote-IsCovered :
    (settled : List PlanTask)
    → (final ts : List PlanTask) → Pointwise Advances settled final
    → All (IsCovered settled) ts
    → All (IsCovered final) (promote (states_of settled) ts)
unfolding promote
promote-IsCovered settled final [] adv c = tt
promote-IsCovered settled final (t ∷ ts) adv c = (
  ground (arith, dependencies_done_lem settled t, all_done_mono settled final adv t.dependencies),
  promote-IsCovered settled final ts adv c.1,
)

module _ (join : Join) (answers : AnswersLaunched join) (limit mr ml : ℕ) where
  round-IsCovered :
      (n : ℕ) (s : RunState)
      → AreDistinct (ids s.tasks)
      → All (IsCovered s.tasks) s.tasks
      → All (IsCovered (round join limit mr ml n s).tasks) (round join limit mr ml n s).tasks
  unfolding round
  round-IsCovered n s d c =
      let (launched, running_tasks) = launch (ready_task_ids s.tasks) s.tasks in
      let settled = (settle mr ml (join n launched) running_tasks s.results).0 in
      let untouched =
        settled-IsUntouched mr ml (ready_task_ids s.tasks) s.tasks s.results (join n launched)
          (answers n launched) in
      let exact = ready_exactly s.tasks d in
      promote-IsCovered settled (promote (states_of settled) settled) settled
        (promote-Advances (states_of settled) settled)
        (settled-IsCovered s.tasks settled s.tasks settled
          (settled-Advances s.tasks s.tasks settled exact untouched) exact c untouched)

  -- What the loop leaves: the covered tasks, and none that could start.
  pub run-IsCovered :
      (fuel n : ℕ) (s end : RunState)
      → AreDistinct (ids s.tasks)
      → All (IsCovered s.tasks) s.tasks
      → run join limit mr ml fuel n s ≡ some end
      → All (IsCovered end.tasks) end.tasks
        × AreDistinct (ids end.tasks)
        × (is_empty (ready_task_ids end.tasks) ≡ true)
  unfolding run
  run-IsCovered zero n s end d c e = cc
  run-IsCovered (suc fuel) n s end d c e = elim (Bool-cases (is_empty (ready_task_ids s.tasks))) [
    | inl stop ↦
        let same : some s ≡ some end = rw (stop, run) at e in
        let p : s ≡ end = cc in
        subst
          (λ r.
            All (IsCovered r.tasks) r.tasks
            × AreDistinct (ids r.tasks)
            × (is_empty (ready_task_ids r.tasks) ≡ true))
          p (c, d, stop)
    | inr go ↦
        run-IsCovered fuel (suc n) (round join limit mr ml n s) end
          (rw (ids-round join limit mr ml n s) d) (round-IsCovered n s d c) (rw (go, run) at e)
  ]
