-- ===== src/Team/Manager/Startup/Reconcile.antt =====
-- Reconciling the pool with new settings keeps its invariant and every subagent that has a task.
use rust_ia_micro_agents.Base.{
  ℕ, ◌+◌, String, str_eq, eq_iff, ◌≡◌, refl, inl, inr, Bool, false, List, [], ◌∷◌, ◌++◌, arith, All,
  filter, any, Bool-cases, DateTime,
}
use rust_ia_micro_agents.Base.Maps.{HashMap}
use rust_ia_micro_agents.Base.Text.{codes}
use rust_ia_micro_agents.Base.Distinct.{IsFresh, AreDistinct, AreDistinct-snoc}
use rust_ia_micro_agents.Base.Text.{codes_lt}
use rust_ia_micro_agents.Team.Config.{TeamRuntimeSettings, IdentityPermissions}
use rust_ia_micro_agents.Team.Subagent.{Subagent, RoleProfile}
use rust_ia_micro_agents.Team.Manager.Pool.{subagent_id}
use rust_ia_micro_agents.Team.Manager.Invariant.{
  subagent_id-ne-ephemeral_id, IsMember, agent_ids, agent_ids-update_first, All-update_first,
}
use rust_ia_micro_agents.Team.Manager.Operations.{agent_ids_snoc}
use rust_ia_micro_agents.Team.Manager.Blueprint.{SubagentBlueprint}
use rust_ia_micro_agents.Team.Manager.Startup.{
  new_subagent, blueprint_at, persistent_with, refreshed, reconcile_member, insert_by_id,
  sort_by_id,
}

-- Sorting and retaining move or drop items only.
All-insert_by_id :
    (P : Subagent → Type 0) (a : Subagent) (pool : List Subagent)
    → P a
    → All P pool
    → All P (insert_by_id a pool)
unfolding insert_by_id
All-insert_by_id P a [] h ms = (h, tt)
All-insert_by_id P a (b ∷ bs) h ms = elim (Bool-cases (codes_lt (codes b.id) (codes a.id))) [
  | inl e ↦ rw e (ms.0, All-insert_by_id P a bs h ms.1)
  | inr e ↦ rw e (h, ms)
]

pub All-sort_by_id :
    (P : Subagent → Type 0) (pool : List Subagent) → All P pool → All P (sort_by_id pool)
unfolding sort_by_id
All-sort_by_id P [] ms = tt
All-sort_by_id P (a ∷ rest) ms =
    All-insert_by_id P a (sort_by_id rest) ms.0 (All-sort_by_id P rest ms.1)

pub All-filter :
    (P : Subagent → Type 0) (q : Subagent → Bool) (pool : List Subagent)
    → All P pool
    → All P (filter q pool)
All-filter P q [] ms = tt
All-filter P q (a ∷ rest) ms = elim (Bool-cases (q a)) [
  | inl e ↦ rw e (ms.0, All-filter P q rest ms.1)
  | inr e ↦ rw e (All-filter P q rest ms.1)
]

abbrev Differs : String → Subagent → Type 0
Differs i a = str_eq a.id i ≡ false

fresh-All : (i : String) (pool : List Subagent) → IsFresh i (agent_ids pool) → All (Differs i) pool
fresh-All i [] f = tt
fresh-All i (a ∷ rest) f = (f.0, fresh-All i rest f.1)

All-IsFresh :
    (i : String) (pool : List Subagent) → All (Differs i) pool → IsFresh i (agent_ids pool)
All-IsFresh i [] f = tt
All-IsFresh i (a ∷ rest) f = (f.0, All-IsFresh i rest f.1)

AreDistinct-insert_by_id :
    (a : Subagent) (pool : List Subagent)
    → All (Differs a.id) pool
    → AreDistinct (agent_ids pool)
    → AreDistinct (agent_ids (insert_by_id a pool))
unfolding insert_by_id
AreDistinct-insert_by_id a [] f d = (tt, tt)
AreDistinct-insert_by_id a (b ∷ bs) f d = elim (Bool-cases (codes_lt (codes b.id) (codes a.id))) [
  | inl e ↦ rw e (
    All-IsFresh b.id _ (
        All-insert_by_id (Differs b.id) a bs (ground (arith, eq_iff a.id b.id, eq_iff b.id a.id))
          (fresh-All b.id bs d.0)),
    AreDistinct-insert_by_id a bs f.1 d.1,
  )
  | inr e ↦ rw e (All-IsFresh a.id (b ∷ bs) f, d)
]

pub AreDistinct-sort_by_id :
    (pool : List Subagent)
    → AreDistinct (agent_ids pool)
    → AreDistinct (agent_ids (sort_by_id pool))
unfolding sort_by_id
AreDistinct-sort_by_id [] d = tt
AreDistinct-sort_by_id (a ∷ rest) d =
    AreDistinct-insert_by_id a (sort_by_id rest)
      (All-sort_by_id (Differs a.id) rest (fresh-All a.id rest d.0))
      (AreDistinct-sort_by_id rest d.1)

pub AreDistinct-filter :
    (q : Subagent → Bool) (pool : List Subagent)
    → AreDistinct (agent_ids pool)
    → AreDistinct (agent_ids (filter q pool))
AreDistinct-filter q [] d = tt
AreDistinct-filter q (a ∷ rest) d = elim (Bool-cases (q a)) [
  | inl e ↦ rw e (
    All-IsFresh a.id _ (All-filter (Differs a.id) q rest (fresh-All a.id rest d.0)),
    AreDistinct-filter q rest d.1,
  )
  | inr e ↦ rw e (AreDistinct-filter q rest d.1)
]

-- The pool's part of the invariant.
abbrev pub IsPool : ℕ → List Subagent → Type 0
IsPool next pool = AreDistinct (agent_ids pool) × All (IsMember next) pool

pub All-snoc :
    (P : Subagent → Type 0) (pool : List Subagent) (new : Subagent)
    → All P pool
    → P new
    → All P (pool ++ new ∷ [])
All-snoc P [] new ms h = (h, tt)
All-snoc P (a ∷ rest) new ms h = (ms.0, All-snoc P rest new ms.1 h)

module _ (now : DateTime) (settings : TeamRuntimeSettings) (permissions : IdentityPermissions)
    (profiles : HashMap RoleProfile) where
  abbrev pub member : ℕ → String → List Subagent → List Subagent
  member idx role pool = reconcile_member now settings permissions profiles idx role pool

  -- No member of another kind has a persistent member's id.
  absent_fresh :
      (next n : ℕ) (pool : List Subagent)
      → All (IsMember next) pool
      → any (persistent_with now settings permissions profiles (subagent_id n)) pool ≡ false
      → All (Differs (subagent_id n)) pool
  absent_fresh next n [] ms h = tt
  absent_fresh next n (a ∷ rest) ms h = (
    let v = ms.0 in
        ground (arith, eq_iff a.id (subagent_id n), subagent_id-ne-ephemeral_id n v.number),
    absent_fresh next n rest ms.1 (ground arith),
  )

  new-IsMember :
      (next n : ℕ) (blueprint : SubagentBlueprint)
      → IsMember next (new_subagent now (subagent_id n) blueprint)
  unfolding new_subagent
  new-IsMember next n blueprint = record {
    number = n;
    named = refl;
    below = λ e. cc;
    free = λ e. (refl, refl);
  }

  refreshed-IsMember :
      (next : ℕ) (blueprint : SubagentBlueprint) (a : Subagent)
      → IsMember next a
      → IsMember next (refreshed now settings permissions profiles blueprint a)
  unfolding refreshed
  refreshed-IsMember next blueprint a v = record {
    number = v.number;
    named = ground (arith, v.named);
    below = λ e. v.below (ground arith);
    free = λ e. ground (arith, v.free);
  }

  pub refreshed_id :
      (blueprint : SubagentBlueprint) (a : Subagent)
      → (refreshed now settings permissions profiles blueprint a).id ≡ a.id
  unfolding refreshed
  refreshed_id blueprint a = ground arith

  pub new_id : (i : String) (blueprint : SubagentBlueprint) → (new_subagent now i blueprint).id ≡ i
  unfolding new_subagent
  new_id i blueprint = refl

  pub member-IsPool :
      (next idx : ℕ) (role : String) (pool : List Subagent)
      → IsPool next pool
      → IsPool next (member idx role pool)
  unfolding reconcile_member
  member-IsPool next idx role pool (d, ms) =
      let i = subagent_id (idx + 1) in
      let blueprint = blueprint_at now settings permissions profiles role idx in
      let p = persistent_with now settings permissions profiles i in
      elim (Bool-cases (any p pool)) [
        | inl e ↦ rw e (
          rw
              (agent_ids-update_first p (refreshed now settings permissions profiles blueprint)
                (refreshed_id blueprint) pool)
              d,
          All-update_first (IsMember next) p _ (λ a q v. refreshed-IsMember next blueprint a v) pool
              ms,
        )
        | inr e ↦ rw e (
          rw (agent_ids_snoc pool (new_subagent now i blueprint), new_id i blueprint)
              (AreDistinct-snoc i (agent_ids pool)
                (All-IsFresh i pool (absent_fresh next (idx + 1) pool ms e)) d),
          All-snoc (IsMember next) pool _ ms (new-IsMember next (idx + 1) blueprint),
        )
      ]
