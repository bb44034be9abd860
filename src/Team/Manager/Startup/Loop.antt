-- ===== src/Team/Manager/Startup/Loop.antt =====
-- What the loop of a reconciliation does to the pool: the busy subagents stay, and each number that it
-- has passed has its persistent subagent.
use rust_ia_micro_agents.Base.{
  ℕ, zero, suc, ◌+◌, ◌<◌, ◌≤◌, ◌%◌, String, str_eq, eq_iff, eq_refl, ◌≡◌, refl, inl, inr, ◌⊎◌, Bool,
  true, false, List, [], ◌∷◌, ◌++◌, some, arith, All, Any, update_first, filter, any, is_some,
  is_empty, Bool-cases, DateTime, get_elem?, length,
}
use rust_ia_micro_agents.Base.Maps.{HashMap}
use native.Mathlib.Decide.{ℕ_discrete}
use rust_ia_micro_agents.Base.Text.{codes}
use rust_ia_micro_agents.Base.Text.{codes_lt}
use rust_ia_micro_agents.Team.Config.{TeamRuntimeSettings, IdentityPermissions}
use rust_ia_micro_agents.Team.Subagent.{Subagent, RoleProfile}
use rust_ia_micro_agents.Team.Manager.Pool.{subagent_id}
use rust_ia_micro_agents.Team.Manager.Blueprint.{SubagentBlueprint}
use rust_ia_micro_agents.Team.Manager.Startup.{
  role_at, new_subagent, persistent_with, refreshed, reconcile_member, reconcile_from, desired_ids,
  is_retained, insert_by_id, sort_by_id,
}
use rust_ia_micro_agents.Team.Manager.Startup.Reconcile.{IsPool, member, member-IsPool}

-- The pool holds this very subagent.
abbrev pub Holds : Subagent → List Subagent → Type 0
Holds a pool = Any (λ b. b ≡ a) pool

Any-update_first :
    (P : Subagent → Type 0) (p : Subagent → Bool) (f : Subagent → Subagent)
    → ((b : Subagent) → P b → P (f b))
    → (pool : List Subagent) → Any P pool
    → Any P (update_first p f pool)
Any-update_first P p f h [] a = elim a [ ]
Any-update_first P p f h (b ∷ rest) (inl e) = elim (Bool-cases (p b)) [
  | inl k ↦ rw k (inl (h b e))
  | inr k ↦ rw k (inl e)
]
Any-update_first P p f h (b ∷ rest) (inr r) = elim (Bool-cases (p b)) [
  | inl k ↦ rw k (inr r)
  | inr k ↦ rw k (inr (Any-update_first P p f h rest r))
]

Any-append_left :
    (P : Subagent → Type 0) (pool more : List Subagent) → Any P pool → Any P (pool ++ more)
Any-append_left P [] more a = elim a [ ]
Any-append_left P (b ∷ rest) more (inl e) = inl e
Any-append_left P (b ∷ rest) more (inr r) = inr (Any-append_left P rest more r)

Any-last :
    (P : Subagent → Type 0) (pool : List Subagent) (b : Subagent) → P b → Any P (pool ++ b ∷ [])
Any-last P [] b h = inl h
Any-last P (a ∷ rest) b h = inr (Any-last P rest b h)

pub Any-filter :
    (P : Subagent → Type 0) (q : Subagent → Bool)
    → ((b : Subagent) → P b → q b ≡ true)
    → (pool : List Subagent) → Any P pool
    → Any P (filter q pool)
Any-filter P q h [] a = elim a [ ]
Any-filter P q h (b ∷ rest) (inl e) = rw (h b e) (inl e)
Any-filter P q h (b ∷ rest) (inr r) = elim (Bool-cases (q b)) [
  | inl k ↦ rw k (inr (Any-filter P q h rest r))
  | inr k ↦ rw k (Any-filter P q h rest r)
]

Any-insert_by_id :
    (P : Subagent → Type 0) (a : Subagent) (pool : List Subagent)
    → P a ⊎ Any P pool
    → Any P (insert_by_id a pool)
unfolding insert_by_id
Any-insert_by_id P a [] h = h
Any-insert_by_id P a (b ∷ bs) h = elim (Bool-cases (codes_lt (codes b.id) (codes a.id))) [
  | inr e ↦ rw e h
  | inl e ↦ rw e (elim h [
    | inl x ↦ inr (Any-insert_by_id P a bs (inl x))
    | inr r ↦ elim r [ inl y ↦ inl y | inr s ↦ inr (Any-insert_by_id P a bs (inr s)) ]
  ])
]

pub Any-sort_by_id :
    (P : Subagent → Type 0) (pool : List Subagent) → Any P pool → Any P (sort_by_id pool)
unfolding sort_by_id
Any-sort_by_id P [] a = a
Any-sort_by_id P (b ∷ rest) (inl e) = Any-insert_by_id P b (sort_by_id rest) (inl e)
Any-sort_by_id P (b ∷ rest) (inr r) =
    Any-insert_by_id P b (sort_by_id rest) (inr (Any-sort_by_id P rest r))

get_elem?_total {ℓ} :
    {A : Type ℓ} (xs : List A) (i : ℕ) → i < length xs → (x : A) × (get_elem? xs i ≡ some x)
get_elem?_total [] i h = elim h [ ]
get_elem?_total (x ∷ xs) zero h = (x, refl)
get_elem?_total (x ∷ xs) (suc i) h = get_elem?_total xs i (omega arith)

-- A named role is found at every index.
pub role_at_total :
    (roles : List String) (idx : ℕ)
    → is_empty roles ≡ false
    → (role : String) × (role_at roles idx ≡ some role)
unfolding role_at
role_at_total [] idx h = cc
role_at_total (r ∷ rs) idx h = get_elem?_total (r ∷ rs) (idx % length (r ∷ rs)) (grind arith)

-- A persistent subagent of the given id.
abbrev pub IsPersistent : String → Subagent → Type 0
IsPersistent i b = (b.ephemeral ≡ false) × (b.id ≡ i)

module _ (now : DateTime) (settings : TeamRuntimeSettings) (permissions : IdentityPermissions)
    (profiles : HashMap RoleProfile) where
  refreshed_busy :
      (blueprint : SubagentBlueprint) (a b : Subagent)
      → is_some a.current_task_id ≡ true
      → b ≡ a
      → refreshed now settings permissions profiles blueprint b ≡ a
  unfolding refreshed
  refreshed_busy blueprint a b busy e = rw (e, busy)

  member-Holds :
      (a : Subagent) (idx : ℕ) (role : String) (pool : List Subagent)
      → is_some a.current_task_id ≡ true
      → Holds a pool
      → Holds a (member now settings permissions profiles idx role pool)
  unfolding reconcile_member
  member-Holds a idx role pool busy h =
      let p = persistent_with now settings permissions profiles (subagent_id (idx + 1)) in
      elim (Bool-cases (any p pool)) [
        | inl e ↦
            rw e (Any-update_first (λ b. b ≡ a) p _ (λ b q. refreshed_busy _ a b busy q) pool h)
        | inr e ↦ rw e (Any-append_left (λ b. b ≡ a) pool _ h)
      ]

  refreshed-IsPersistent :
      (i : String) (blueprint : SubagentBlueprint) (b : Subagent)
      → IsPersistent i b
      → IsPersistent i (refreshed now settings permissions profiles blueprint b)
  unfolding refreshed
  refreshed-IsPersistent i blueprint b h = ground arith

  any-IsPersistent :
      (i : String) (pool : List Subagent)
      → any (persistent_with now settings permissions profiles i) pool ≡ true
      → Any (IsPersistent i) pool
  any-IsPersistent i [] h = absurd (cc)
  any-IsPersistent i (b ∷ rest) h =
      elim (Bool-cases (persistent_with now settings permissions profiles i b)) [
        | inl e ↦ inl (ground (arith, eq_iff b.id i))
        | inr e ↦ inr (any-IsPersistent i rest (ground arith))
      ]

  new-IsPersistent :
      (i : String) (blueprint : SubagentBlueprint) → IsPersistent i (new_subagent now i blueprint)
  unfolding new_subagent
  new-IsPersistent i blueprint = (refl, refl)

  -- A pass of the loop puts its own persistent subagent into the pool, and keeps the others.
  member_present :
      (idx : ℕ) (role : String) (pool : List Subagent)
      → Any
          (IsPersistent (subagent_id (idx + 1)))
          (member now settings permissions profiles idx role pool)
  unfolding reconcile_member
  member_present idx role pool =
      let i = subagent_id (idx + 1) in
      let p = persistent_with now settings permissions profiles i in
      elim (Bool-cases (any p pool)) [
        | inl e ↦ rw e (
            Any-update_first (IsPersistent i) p _ (λ b q. refreshed-IsPersistent i _ b q) pool
              (any-IsPersistent i pool e))
        | inr e ↦ rw e (Any-last (IsPersistent i) pool _ (new-IsPersistent i _))
      ]

  member_keeps :
      (i : String) (idx : ℕ) (role : String) (pool : List Subagent)
      → Any (IsPersistent i) pool
      → Any (IsPersistent i) (member now settings permissions profiles idx role pool)
  unfolding reconcile_member
  member_keeps i idx role pool h =
      let p = persistent_with now settings permissions profiles (subagent_id (idx + 1)) in
      elim (Bool-cases (any p pool)) [
        | inl e ↦
            rw e
              (Any-update_first (IsPersistent i) p _ (λ b q. refreshed-IsPersistent i _ b q) pool h)
        | inr e ↦ rw e (Any-append_left (IsPersistent i) pool _ h)
      ]

  -- All that the loop over the members gives, from `idx` on.
  pub record Reconciled (next left idx : ℕ) (pool after : List Subagent) : Type 0 where
    pub well_formed : IsPool next pool → IsPool next after
    pub busy : (a : Subagent) → is_some a.current_task_id ≡ true → Holds a pool → Holds a after
    pub kept : (i : String) → Any (IsPersistent i) pool → Any (IsPersistent i) after
    pub present : (k : ℕ) → idx < k → k ≤ idx + left → Any (IsPersistent (subagent_id k)) after

  pub reconcile_from-Reconciled :
      (next left idx : ℕ) (pool : List Subagent)
      → is_empty settings.subagent_roleset ≡ false
      → (after : List Subagent) × (reconcile_from now settings permissions profiles left idx pool
          ≡ some after)
        × Reconciled next left idx pool after
  unfolding reconcile_from
  reconcile_from-Reconciled next zero idx pool h = (
    pool,
    refl,
    record {
      well_formed = λ w. w;
      busy = λ a b s. s;
      kept = λ i s. s;
      present = λ k lo hi. absurd (omega arith);
    },
  )
  reconcile_from-Reconciled next (suc left) idx pool h =
      let (role, e) = role_at_total settings.subagent_roleset idx h in
      let pool' = member now settings permissions profiles idx role pool in
      let (after, ran, r) = reconcile_from-Reconciled next left (idx + 1) pool' h in
      (
        after,
        rw (e, reconcile_from) ran,
        record {
          well_formed = λ w.
              r.well_formed (member-IsPool now settings permissions profiles next idx role pool w);
          busy = λ a b s. r.busy a b (member-Holds a idx role pool b s);
          kept = λ i s. r.kept i (member_keeps i idx role pool s);
          present = λ k lo hi. elim (ℕ_discrete k (idx + 1)) [
            | yes same ↦ rw same (r.kept (subagent_id (idx + 1)) (member_present idx role pool))
            | no other ↦ r.present k (omega arith) (omega arith)
          ];
        },
      )

desired_ids_listed :
    (n k : ℕ) → 0 < k → k ≤ n → any (λ i. str_eq i (subagent_id k)) (desired_ids n) ≡ true
unfolding desired_ids
desired_ids_listed zero k lo hi = absurd (omega arith)
desired_ids_listed (suc n) k lo hi = elim (ℕ_discrete k (n + 1)) [
  | yes same ↦ rw same (any_end (subagent_id (n + 1)) (desired_ids n))
  | no other ↦ any_front (subagent_id k) (desired_ids n) _ (desired_ids_listed n k lo (omega arith))
]
  where
    any_end : (i : String) (is : List String) → any (λ j. str_eq j i) (is ++ i ∷ []) ≡ true
    any_end i [] = ground (arith, eq_refl i)
    any_end i (j ∷ js) = ground (arith, any_end i js)

    any_front :
        (i : String) (is js : List String)
        → any (λ j. str_eq j i) is ≡ true
        → any (λ j. str_eq j i) (is ++ js) ≡ true
    any_front i [] js h = cc
    any_front i (j ∷ more) js h = ground (arith, any_front i more js)

pub kept_filter :
    (q : Subagent → Bool) (pool : List Subagent) → All (λ a. q a ≡ true) (filter q pool)
kept_filter q [] = tt
kept_filter q (a ∷ rest) = elim (Bool-cases (q a)) [
  | inl e ↦ rw e (e, kept_filter q rest)
  | inr e ↦ rw e (kept_filter q rest)
]

pub busy_retained :
    (n : ℕ) (a b : Subagent) → is_some a.current_task_id ≡ true → b ≡ a → is_retained n b ≡ true
unfolding is_retained
busy_retained n a b busy e = rw (e, busy) (ground arith)

pub persistent_retained :
    (n k : ℕ) (b : Subagent)
    → 0 < k
    → k ≤ n
    → IsPersistent (subagent_id k) b
    → is_retained n b ≡ true
unfolding is_retained
persistent_retained n k b lo hi (long, named) =
    rw named (ground (arith, desired_ids_listed n k lo hi))
