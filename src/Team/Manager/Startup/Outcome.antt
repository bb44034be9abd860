-- ===== src/Team/Manager/Startup/Outcome.antt =====
-- `reconcile_persistent_pool` of src/team/manager.rs as a whole, from its loop.
use rust_ia_micro_agents.Base.{
  String, str_eq, eq_iff, ◌||◌, ◌++◌, ◌+◌, ◌⊎◌, sym, any, Bool, ℕ, zero, suc, [], ◌∷◌, inl, inr,
  refl, Bool-cases, ◌<◌, ◌≤◌, ◌≡◌, subst, true, false, List, some, arith, All, Any, filter, is_some,
  is_empty, DateTime,
}
use rust_ia_micro_agents.Team.Subagent.{Subagent}
use rust_ia_micro_agents.Team.Manager.Pool.{TeamManager, subagent_id}
use rust_ia_micro_agents.Team.Manager.Invariant.{IsMember, IsWellFormed}
use rust_ia_micro_agents.Team.Manager.Startup.{
  desired_ids, reconcile_from, is_retained, sort_by_id, reconcile_persistent_pool,
}
use rust_ia_micro_agents.Team.Manager.Startup.Reconcile.{
  All-filter, All-sort_by_id, AreDistinct-filter, AreDistinct-sort_by_id,
}
use rust_ia_micro_agents.Team.Manager.Startup.Loop.{
  Holds, Any-filter, Any-sort_by_id, IsPersistent, Reconciled, reconcile_from-Reconciled,
  kept_filter, busy_retained, persistent_retained,
}

-- From n down to one.
abbrev pub numbers : ℕ → List ℕ
numbers zero = []
numbers (suc n) = suc n ∷ numbers n

-- A subagent that a team of the size may have: an ephemeral one, a busy one, or one numbered up to it.
abbrev pub IsSupplied : ℕ → Subagent → Type 0
IsSupplied team_size b =
    (b.ephemeral ≡ true)
    ⊎ ((is_some b.current_task_id ≡ true) ⊎ Any (λ k. b.id ≡ subagent_id k) (numbers team_size))

desired_ids-numbers :
    (n : ℕ) (i : String)
    → any (λ j. str_eq j i) (desired_ids n) ≡ true
    → Any (λ k. i ≡ subagent_id k) (numbers n)
unfolding desired_ids
desired_ids-numbers zero i h = cc
desired_ids-numbers (suc n) i h = elim (Bool-cases (str_eq (subagent_id (suc n)) i)) [
  | inl e ↦ inl (sym ((eq_iff (subagent_id (suc n)) i).0 e))
  | inr e ↦ inr (
      desired_ids-numbers n i
        (ground (arith, e, any-snoc (λ j. str_eq j i) (desired_ids n) (subagent_id (n + 1)))))
]
  where
    any-snoc :
        (p : String → Bool) (xs : List String) (x : String)
        → any p (xs ++ x ∷ []) ≡ (any p xs || p x)
    any-snoc p [] x = ground arith
    any-snoc p (y ∷ ys) x = ground (arith, any-snoc p ys x)

is_retained-IsSupplied : (n : ℕ) (b : Subagent) → is_retained n b ≡ true → IsSupplied n b
unfolding is_retained
is_retained-IsSupplied n b h = elim (Bool-cases b.ephemeral) [
  | inl e ↦ inl e
  | inr e ↦ elim (Bool-cases (is_some b.current_task_id)) [
    | inl k ↦ inr (inl k)
    | inr k ↦ inr (inr (desired_ids-numbers n b.id (ground (arith, e, k))))
  ]
]

retained-IsSupplied :
    (n : ℕ) (pool : List Subagent)
    → All (λ b. is_retained n b ≡ true) pool
    → All (IsSupplied n) pool
retained-IsSupplied n [] h = tt
retained-IsSupplied n (b ∷ rest) h =
    (is_retained-IsSupplied n b h.0, retained-IsSupplied n rest h.1)

module _ (now : DateTime) (m : TeamManager)
    (named : is_empty m.settings.subagent_roleset ≡ false) where
  loop :
      (after : List Subagent) × (reconcile_from now m.settings m.permissions m.profiles
          m.settings.team_size 0 m.subagents
        ≡ some after)
      × Reconciled now m.settings m.permissions m.profiles m.next_ephemeral_id m.settings.team_size
          0 m.subagents after
  loop =
      reconcile_from-Reconciled now m.settings m.permissions m.profiles m.next_ephemeral_id
        m.settings.team_size 0 m.subagents named

  reconciled : List Subagent → TeamManager
  reconciled pool = record m {
    subagents = sort_by_id (filter (is_retained m.settings.team_size) pool);
  }

  -- With a role named, reconciling a well-formed pool does not panic, and its result is well formed.
  pub reconcile_persistent_pool-total :
      IsWellFormed m
      → (m' : TeamManager) × (reconcile_persistent_pool now m ≡ some m') × IsWellFormed m'
  unfolding reconcile_persistent_pool reconciled
  reconcile_persistent_pool-total w =
      let (after, ran, r) = loop in
      let (d, ms) = r.well_formed (w.distinct, w.members) in
      let q = is_retained m.settings.team_size in
      (
        reconciled after,
        rw (ran, reconcile_persistent_pool),
        record {
          distinct = AreDistinct-sort_by_id (filter q after) (AreDistinct-filter q after d);
          members =
              All-sort_by_id (IsMember m.next_ephemeral_id) (filter q after)
                (All-filter (IsMember m.next_ephemeral_id) q after ms);
        },
      )

  reconciled_lem :
      (m' : TeamManager) → reconcile_persistent_pool now m ≡ some m' → reconciled loop.0 ≡ m'
  unfolding reconcile_persistent_pool reconciled
  reconciled_lem m' e =
      let (after, ran, r) = loop in
      let same : some (reconciled after) ≡ some m' = rw (ran, reconcile_persistent_pool) at e in cc

  busy_kept :
      (m' : TeamManager) (a : Subagent)
      → reconcile_persistent_pool now m ≡ some m'
      → is_some a.current_task_id ≡ true
      → Holds a m.subagents
      → Holds a m'.subagents
  unfolding reconciled
  busy_kept m' a e busy held =
      let (after, ran, r) = loop in
      let q = is_retained m.settings.team_size in
      subst (λ (n : TeamManager). Holds a n.subagents) (reconciled_lem m' e)
        (Any-sort_by_id (λ b. b ≡ a) (filter q after)
          (Any-filter (λ b. b ≡ a) q (λ b s. busy_retained _ a b busy s) after
            (r.busy a busy held)))

  numbered_present :
      (m' : TeamManager) (k : ℕ)
      → reconcile_persistent_pool now m ≡ some m'
      → 0 < k
      → k ≤ m.settings.team_size
      → Any (IsPersistent (subagent_id k)) m'.subagents
  unfolding reconciled
  numbered_present m' k e lo hi =
      let (after, ran, r) = loop in
      let q = is_retained m.settings.team_size in
      subst (λ (n : TeamManager). Any (IsPersistent (subagent_id k)) n.subagents)
        (reconciled_lem m' e)
        (Any-sort_by_id (IsPersistent (subagent_id k)) (filter q after) (
          Any-filter (IsPersistent (subagent_id k)) q
            (λ b s. persistent_retained m.settings.team_size k b lo hi s) after
            (r.present k lo (omega arith))))

  all_retained :
      (m' : TeamManager)
      → reconcile_persistent_pool now m ≡ some m'
      → All (λ b. is_retained m.settings.team_size b ≡ true) m'.subagents
  unfolding reconciled
  all_retained m' e =
      let (after, ran, r) = loop in
      let q = is_retained m.settings.team_size in
      subst (λ (n : TeamManager). All (λ b. q b ≡ true) n.subagents) (reconciled_lem m' e)
        (All-sort_by_id (λ b. q b ≡ true) (filter q after) (kept_filter q after))

  all_busy_kept :
      (m' : TeamManager) (pool : List Subagent)
      → reconcile_persistent_pool now m ≡ some m'
      → ((a : Subagent) → Holds a pool → Holds a m.subagents)
      → All (λ a. Holds a m'.subagents) (filter (λ a. is_some a.current_task_id) pool)
  all_busy_kept m' [] e within = tt
  all_busy_kept m' (a ∷ rest) e within =
      let behind = all_busy_kept m' rest e (λ b h. within b (inr h)) in
      elim (Bool-cases (is_some a.current_task_id)) [
        | inl k ↦ rw k (busy_kept m' a e k (within a (inl refl)), behind)
        | inr k ↦ rw k behind
      ]

  all_present :
      (m' : TeamManager) (n : ℕ)
      → reconcile_persistent_pool now m ≡ some m'
      → n ≤ m.settings.team_size
      → All (λ k. Any (IsPersistent (subagent_id k)) m'.subagents) (numbers n)
  all_present m' zero e h = tt
  all_present m' (suc n) e h =
      (numbered_present m' (suc n) e (omega arith) h, all_present m' n e (omega arith))

  -- Reconciling keeps each subagent that has a task just as it was, has the persistent subagent of
  -- each number from one to the team's size in its result, and keeps only subagents that are
  -- ephemeral, busy or numbered so.
  pub reconcile_persistent_pool-keeps :
      (m' : TeamManager)
      → reconcile_persistent_pool now m ≡ some m'
      → All (λ a. Holds a m'.subagents) (filter (λ a. is_some a.current_task_id) m.subagents)
        × All (λ k. Any (IsPersistent (subagent_id k)) m'.subagents) (numbers m.settings.team_size)
        × All (IsSupplied m.settings.team_size) m'.subagents
  reconcile_persistent_pool-keeps m' e = (
    all_busy_kept m' m.subagents e (λ a h. h),
    all_present m' m.settings.team_size e (omega arith),
    retained-IsSupplied m.settings.team_size m'.subagents (all_retained m' e),
  )
