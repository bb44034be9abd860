-- ===== src/Execution/Scheduler/Untouched.antt =====
-- A round changes only the tasks whose ids it launches.
use rust_ia_micro_agents.Base.{
  ℕ, String, str_eq, eq_iff, eq_refl, ◌≡◌, refl, ◌∙◌, Bool, true, false, ◌||◌, List, [], ◌∷◌,
  Option, none, some, arith, any, find, update_first, All, inl, inr, Option-cases, Bool-cases,
}
use rust_ia_micro_agents.Base.Maps.{HashMap}
use rust_ia_micro_agents.Planner.Plan.{running, PlanTask}
use rust_ia_micro_agents.Execution.Artifacts.{TaskExecutionResult}
use rust_ia_micro_agents.Execution.Scheduler.{Join, launch, settle_task, settle}

abbrev pub Pointwise : (PlanTask → PlanTask → Type 0) → List PlanTask → List PlanTask → Type 0
Pointwise R [] [] = Unit
Pointwise R [] (y ∷ ys) = ⊥
Pointwise R (x ∷ xs) [] = ⊥
Pointwise R (x ∷ xs) (y ∷ ys) = R x y × Pointwise R xs ys

pub Pointwise-refl :
    (R : PlanTask → PlanTask → Type 0)
    → ((t : PlanTask) → R t t)
    → (ts : List PlanTask) → Pointwise R ts ts
Pointwise-refl R h [] = tt
Pointwise-refl R h (t ∷ ts) = (h t, Pointwise-refl R h ts)

pub Pointwise-trans :
    (R S T : PlanTask → PlanTask → Type 0)
    → ((a b c : PlanTask) → R a b → S b c → T a c)
    → (xs ys zs : List PlanTask) → Pointwise R xs ys
    → Pointwise S ys zs
    → Pointwise T xs zs
Pointwise-trans R S T h [] [] [] p q = tt
Pointwise-trans R S T h [] [] (z ∷ zs) p q = elim q [ ]
Pointwise-trans R S T h [] (y ∷ ys) zs p q = elim p [ ]
Pointwise-trans R S T h (x ∷ xs) [] zs p q = elim p [ ]
Pointwise-trans R S T h (x ∷ xs) (y ∷ ys) [] p q = elim q [ ]
Pointwise-trans R S T h (x ∷ xs) (y ∷ ys) (z ∷ zs) p q =
    (h x y z p.0 q.0, Pointwise-trans R S T h xs ys zs p.1 q.1)

abbrev pub listed : String → List String → Bool
listed i is = any (λ j. str_eq j i) is

-- The task keeps its id and dependencies, and keeps all else unless its id is listed.
pub record IsUntouched (is : List String) (t t' : PlanTask) : Type 0 where
  pub same_id : t'.id ≡ t.id
  pub same_dependencies : t'.dependencies ≡ t.dependencies
  pub kept : listed t.id is ≡ false → t' ≡ t

pub IsUntouched-refl : (is : List String) (t : PlanTask) → IsUntouched is t t
IsUntouched-refl is t = record { same_id = refl; same_dependencies = refl; kept = λ h. refl }

pub IsUntouched-trans :
    (is : List String) (a b c : PlanTask)
    → IsUntouched is a b
    → IsUntouched is b c
    → IsUntouched is a c
IsUntouched-trans is a b c p q = record {
  same_id = cc (p.same_id, q.same_id);
  same_dependencies = cc (p.same_dependencies, q.same_dependencies);
  kept = λ h. q.kept (rw p.same_id h) ∙ p.kept h;
}

update_first-IsUntouched :
    (is : List String) (i : String) (f : PlanTask → PlanTask) (tasks : List PlanTask)
    → listed i is ≡ true
    → ((t : PlanTask) → ((f t).id ≡ t.id) × ((f t).dependencies ≡ t.dependencies))
    → Pointwise (IsUntouched is) tasks (update_first (λ t. str_eq t.id i) f tasks)
update_first-IsUntouched is i f [] member keep = tt
update_first-IsUntouched is i f (t ∷ ts) member keep = elim (Bool-cases (str_eq t.id i)) [
  | inl e ↦ rw e (
    record {
      same_id = (keep t).0;
      same_dependencies = (keep t).1;
      kept = λ h. ground (arith, eq_iff t.id i);
    },
    Pointwise-refl (IsUntouched is) (IsUntouched-refl is) ts,
  )
  | inr e ↦ rw e (IsUntouched-refl is t, update_first-IsUntouched is i f ts member keep)
]

-- Each id of the first list is in the second.
abbrev pub Within : List String → List String → Type 0
Within is js = All (λ i. listed i js ≡ true) is

launch-IsUntouched :
    (is js : List String) (tasks : List PlanTask)
    → Within js is
    → Pointwise (IsUntouched is) tasks (launch js tasks).1
unfolding launch
launch-IsUntouched is [] tasks w = Pointwise-refl (IsUntouched is) (IsUntouched-refl is) tasks
launch-IsUntouched is (j ∷ js) tasks w = elim (Option-cases (find (λ t. str_eq t.id j) tasks)) [
  | inl e ↦ rw (e, launch) (launch-IsUntouched is js tasks w.1)
  | inr (t, e) ↦
      rw (e, launch)
        (Pointwise-trans _ _ _ (IsUntouched-trans is) tasks _ _
          (update_first-IsUntouched is j (λ u. record u { state = running }) tasks w.0
            (λ u. (refl, refl)))
          (launch-IsUntouched is js _ w.1))
]

-- A result answers a launched task.
abbrev pub Answers : List PlanTask → Option TaskExecutionResult → Type 0
Answers launched none = Unit
Answers launched (some r) = any (λ t. str_eq t.id r.task_id) launched ≡ true

-- Each future that was spawned yields one result, which names its task.
abbrev pub AnswersLaunched : Join → Type 0
AnswersLaunched join = (n : ℕ) (launched : List PlanTask) → All (Answers launched) (join n launched)

pub find_id :
    (i : String) (tasks : List PlanTask) (t : PlanTask)
    → find (λ u. str_eq u.id i) tasks ≡ some t
    → t.id ≡ i
find_id i [] t e = cc
find_id i (u ∷ us) t e = ground (arith, eq_iff u.id i, find_id i us t)

launched_listed :
    (i : String) (js : List String) (tasks : List PlanTask)
    → any (λ t. str_eq t.id i) (launch js tasks).0 ≡ true
    → listed i js ≡ true
unfolding launch
launched_listed i [] tasks h = h
launched_listed i (j ∷ js) tasks h = elim (Option-cases (find (λ t. str_eq t.id j) tasks)) [
  | inl e ↦ let rest = launched_listed i js tasks (rw (e, launch) at h) in ground arith
  | inr (t, e) ↦
      let marked = update_first (λ u. str_eq u.id j) (λ u. record u { state = running }) tasks in
      let h' : (str_eq t.id i || any (λ u. str_eq u.id i) (launch js marked).0) ≡ true =
        rw (e, launch) at h in
      ground (arith, find_id j tasks t e, launched_listed i js marked)
]

settle_task_keeps :
    (mr ml : ℕ) (r : TaskExecutionResult) (t : PlanTask)
    → ((settle_task mr ml r t).id ≡ t.id) × ((settle_task mr ml r t).dependencies ≡ t.dependencies)
unfolding settle_task
settle_task_keeps mr ml r t = ground arith

settle-IsUntouched :
    (mr ml : ℕ) (is : List String) (launched : List PlanTask)
    → ((i : String) → any (λ t. str_eq t.id i) launched ≡ true → listed i is ≡ true)
    → (joined : List (Option TaskExecutionResult)) (tasks : List PlanTask)
      (results : HashMap TaskExecutionResult)
    → All (Answers launched) joined
    → Pointwise (IsUntouched is) tasks (settle mr ml joined tasks results).0
unfolding settle
settle-IsUntouched mr ml is launched sub [] tasks results a =
    Pointwise-refl (IsUntouched is) (IsUntouched-refl is) tasks
settle-IsUntouched mr ml is launched sub (none ∷ js) tasks results a =
    settle-IsUntouched mr ml is launched sub js tasks results a.1
settle-IsUntouched mr ml is launched sub (some r ∷ js) tasks results a =
    Pointwise-trans _ _ _ (IsUntouched-trans is) tasks _ _
      (update_first-IsUntouched is r.task_id (settle_task mr ml r) tasks (sub r.task_id a.0)
        (settle_task_keeps mr ml r))
      (settle-IsUntouched mr ml is launched sub js _ _ a.1)

listed-cons : (j : String) (is js : List String) → Within js is → Within js (j ∷ is)
listed-cons j is [] w = tt
listed-cons j is (i ∷ js) w = (ground arith, listed-cons j is js w.1)

pub Within-refl : (is : List String) → Within is is
Within-refl [] = tt
Within-refl (i ∷ is) = (ground (arith, eq_refl i), listed-cons i is is (Within-refl is))

-- Between the start of a round and its last loop, only tasks with listed ids change.
pub settled-IsUntouched :
    (mr ml : ℕ) (is : List String) (tasks : List PlanTask) (results : HashMap TaskExecutionResult)
    (joined : List (Option TaskExecutionResult))
    → All (Answers (launch is tasks).0) joined
    → Pointwise (IsUntouched is) tasks (settle mr ml joined (launch is tasks).1 results).0
settled-IsUntouched mr ml is tasks results joined a =
    Pointwise-trans _ _ _ (IsUntouched-trans is) tasks _ _
      (launch-IsUntouched is is tasks (Within-refl is))
      (settle-IsUntouched mr ml is (launch is tasks).0 (λ i. launched_listed i is tasks) joined _
        results a)
