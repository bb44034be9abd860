-- ===== src/Planner/Dag/Visits.antt =====
-- What the loop over the dependencies of a task does to the search of src/planner/dag.rs,
-- `reachable_dependencies`.
use rust_ia_micro_agents.Base.{
  ℕ, ◌+◌, ◌≤◌, ◌<◌, String, str_eq, eq_iff, eq_refl, ◌≡◌, ap, true, false, not, ◌||◌, List, [], ◌∷◌,
  ◌++◌, ◌⊎◌, inl, inr, arith, All, count, length, if◌then◌else◌, Bool-cases,
}
use rust_ia_micro_agents.Planner.Dag.{is_in, Search, visit}

is_in-snoc : (i j : String) (is : List String) → is_in i (is ++ j ∷ []) ≡ (is_in i is || str_eq j i)
is_in-snoc i j [] = ground arith
is_in-snoc i j (k ∷ ks) = ground (arith, is_in-snoc i j ks)

-- How many of the entries were not visited yet.
abbrev pub unseen : List String → List String → ℕ
unseen entries deps = count (λ e. not (is_in e deps)) entries

unseen-snoc-le :
    (i : String) (deps entries : List String)
    → unseen entries (deps ++ i ∷ []) ≤ unseen entries deps
unseen-snoc-le i deps [] = omega arith
unseen-snoc-le i deps (e ∷ es) = ground (arith, is_in-snoc e i deps, unseen-snoc-le i deps es)

unseen-snoc-lt :
    (i : String) (deps entries : List String)
    → is_in i entries ≡ true
    → is_in i deps ≡ false
    → unseen entries (deps ++ i ∷ []) < unseen entries deps
unseen-snoc-lt i deps [] h new = cc
unseen-snoc-lt i deps (e ∷ es) h new = elim (Bool-cases (str_eq e i)) [
  | inl same ↦
      let p : e ≡ i = (eq_iff e i).0 same in
      ground (arith, is_in-snoc e i deps, unseen-snoc-le i deps es, p, ap (λ k. is_in k deps) p)
  | inr other ↦
      ground (arith, is_in-snoc e i deps, unseen-snoc-lt i deps es, unseen-snoc-le i deps es)
]

abbrev pub work : List String → Search → ℕ
work entries s = length s.stack + unseen entries s.deps

-- One dependency of the `for` loop.
abbrev visited : String → Search → Search
visited dep s =
    if is_in dep s.deps then s else record { deps = s.deps ++ dep ∷ []; stack = dep ∷ s.stack }

pub visit-work :
    (entries ds : List String) (s : Search)
    → All (λ d. is_in d entries ≡ true) ds
    → work entries (visit ds s) ≤ work entries s
unfolding visit
visit-work entries [] s h = omega arith
visit-work entries (d ∷ ds) s h = elim (Bool-cases (is_in d s.deps)) [
  | inl e ↦ rw (e, visit) (visit-work entries ds s h.1)
  | inr e ↦
      rw (e, visit)
        (omega (
          arith,
          visit-work entries ds (record { deps = s.deps ++ d ∷ []; stack = d ∷ s.stack }) h.1,
          unseen-snoc-lt d s.deps entries h.0 e,
        ))
]

All-snoc :
    (P : String → Type 0) (is : List String) (i : String) → All P is → P i → All P (is ++ i ∷ [])
All-snoc P [] i h p = (p, tt)
All-snoc P (j ∷ js) i h p = (h.0, All-snoc P js i h.1 p)

-- What holds of the stack, or of the dependencies found, and of the new ones.
pub visit-All :
    (P Q : String → Type 0) (ds : List String) (s : Search)
    → All P ds
    → All Q ds
    → All P s.stack
    → All Q s.deps
    → All P (visit ds s).stack × All Q (visit ds s).deps
unfolding visit
visit-All P Q [] s p q stack deps = (stack, deps)
visit-All P Q (d ∷ ds) s p q stack deps = elim (Bool-cases (is_in d s.deps)) [
  | inl e ↦ rw (e, visit) (visit-All P Q ds s p.1 q.1 stack deps)
  | inr e ↦
      rw (e, visit)
        (visit-All P Q ds (record { deps = s.deps ++ d ∷ []; stack = d ∷ s.stack }) p.1 q.1
          (p.0, stack) (All-snoc Q s.deps d deps q.0))
]

-- Nothing found is lost, and what is newly found is on the stack.
pub visit-deps :
    (i : String) (ds : List String) (s : Search)
    → is_in i s.deps ≡ true
    → is_in i (visit ds s).deps ≡ true
unfolding visit
visit-deps i [] s h = h
visit-deps i (d ∷ ds) s h = visit-deps i ds (visited d s) (ground (arith, is_in-snoc i d s.deps))

pub visit-stack :
    (i : String) (ds : List String) (s : Search)
    → is_in i s.stack ≡ true
    → is_in i (visit ds s).stack ≡ true
unfolding visit
visit-stack i [] s h = h
visit-stack i (d ∷ ds) s h = visit-stack i ds (visited d s) (ground arith)

pub visit-found :
    (i : String) (ds : List String) (s : Search)
    → is_in i (visit ds s).deps ≡ true
    → (is_in i s.deps ≡ true) ⊎ (is_in i (visit ds s).stack ≡ true)
unfolding visit
visit-found i [] s h = inl h
visit-found i (d ∷ ds) s h = elim (visit-found i ds (visited d s) h) [
  | inr e ↦ inr e
  | inl e ↦ elim (Bool-cases (is_in i s.deps)) [
    | inl old ↦ inl old
    | inr new ↦ inr (visit-stack i ds (visited d s) (ground (arith, is_in-snoc i d s.deps)))
  ]
]

pub visit-all : (ds : List String) (s : Search) → All (λ d. is_in d (visit ds s).deps ≡ true) ds
unfolding visit
visit-all [] s = tt
visit-all (d ∷ ds) s = (
  visit-deps d ds (visited d s) (ground (arith, is_in-snoc d d s.deps, eq_refl d)),
  visit-all ds (visited d s),
)
