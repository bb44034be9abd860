-- ===== src/Planner/Dag/Dependencies.antt =====
-- The dependencies of tasks, direct ones and through others, and their entries in a map of tasks.
use rust_ia_micro_agents.Base.{
  String, str_eq, eq_iff, eq_refl, ◌≡◌, refl, subst, true, ◌||◌, List, [], ◌∷◌, ◌++◌, map, some,
  inl, inr, arith, All, Bool-cases,
}
use rust_ia_micro_agents.Base.Maps.{HashMap, get, insert, collect}
use rust_ia_micro_agents.Planner.Plan.{PlanTask}
use rust_ia_micro_agents.Planner.Dag.{is_in}

-- The tasks that a task leads to by its dependencies, itself included.
pub data Reached (tasks : HashMap PlanTask) (start : String) : String → Type 0 where
  here : (i : String) → i ≡ start → Reached tasks start i
  next :
      (i d : String) (t : PlanTask)
      → Reached tasks start i
      → get i tasks ≡ some t
      → is_in d t.dependencies ≡ true
      → Reached tasks start d

-- Some task that is reached names it as a dependency.
abbrev pub IsDependency : HashMap PlanTask → String → String → Type 0
IsDependency tasks start d =
    (i : String) × (t : PlanTask) × Reached tasks start i
    × (get i tasks ≡ some t)
    × (is_in d t.dependencies ≡ true)

-- All entries of all lists of dependencies.
abbrev pub all_dependencies : List PlanTask → List String
all_dependencies [] = []
all_dependencies (t ∷ ts) = t.dependencies ++ all_dependencies ts

abbrev pub IsWithin : List String → PlanTask → Type 0
IsWithin entries t = All (λ d. is_in d entries ≡ true) t.dependencies

pub get-All :
    (P : PlanTask → Type 0) (m : HashMap PlanTask)
    → All (λ kv. P kv.1) m
    → (i : String) (t : PlanTask) → get i m ≡ some t
    → P t
unfolding get
get-All P [] h i t e = cc
get-All P ((k, v) ∷ m) h i t e = elim (Bool-cases (str_eq k i)) [
  | inl same ↦ let p : v ≡ t = ground arith in subst P p h.0
  | inr other ↦ get-All P m h.1 i t (ground arith)
]

insert-All :
    (P : PlanTask → Type 0) (k : String) (v : PlanTask) (m : HashMap PlanTask)
    → P v
    → All (λ kv. P kv.1) m
    → All (λ kv. P kv.1) (insert k v m)
unfolding insert
insert-All P k v [] p h = (p, tt)
insert-All P k v ((j, u) ∷ m) p h = elim (Bool-cases (str_eq j k)) [
  | inl e ↦ rw (e, insert) (p, h.1)
  | inr e ↦ rw (e, insert) (h.0, insert-All P k v m p h.1)
]

pub collect-All :
    (P : PlanTask → Type 0) (m : HashMap PlanTask) (ts : List PlanTask)
    → All (λ kv. P kv.1) m
    → All P ts
    → All (λ kv. P kv.1) (collect m (map (λ t. (t.id, t)) ts))
unfolding collect
collect-All P m [] h a = h
collect-All P m (t ∷ ts) h a = collect-All P (insert t.id t m) ts (insert-All P t.id t m a.0 h) a.1

is_in-append : (i : String) (is js : List String) → is_in i (is ++ js) ≡ (is_in i is || is_in i js)
is_in-append i [] js = refl
is_in-append i (k ∷ ks) js = ground (arith, is_in-append i ks js)

-- A text of a list is in every list that holds it.
pub All_is_in :
    (ds entries : List String)
    → ((i : String) → is_in i ds ≡ true → is_in i entries ≡ true)
    → All (λ d. is_in d entries ≡ true) ds
All_is_in [] entries h = tt
All_is_in (d ∷ ds) entries h =
    (h d (ground (arith, eq_refl d)), All_is_in ds entries (λ i e. h i (ground arith)))

pub tasks-IsWithin :
    (entries : List String) (ts : List PlanTask)
    → ((i : String) → is_in i (all_dependencies ts) ≡ true → is_in i entries ≡ true)
    → All (IsWithin entries) ts
tasks-IsWithin entries [] h = tt
tasks-IsWithin entries (t ∷ ts) h = (
  All_is_in t.dependencies entries
      (λ i e. h i (ground (arith, is_in-append i t.dependencies (all_dependencies ts)))),
  tasks-IsWithin entries ts
      (λ i e. h i (ground (arith, is_in-append i t.dependencies (all_dependencies ts)))),
)

pub All-at :
    (P : String → Type 0) (i : String) (is : List String) → All P is → is_in i is ≡ true → P i
All-at P i [] h e = cc
All-at P i (j ∷ js) h e = elim (Bool-cases (str_eq j i)) [
  | inl same ↦ subst P ((eq_iff j i).0 same) h.0
  | inr other ↦ All-at P i js h.1 (ground arith)
]
