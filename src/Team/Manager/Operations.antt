-- ===== src/Team/Manager/Operations.antt =====
-- Every operation of the pool keeps its invariant.
use rust_ia_micro_agents.Base.{
  ℕ, suc, ◌+◌, ◌%◌, ◌^◌, ◌<◌, String, eq_iff, ◌≡◌, refl, sym, ap, subst, inl, inr, Bool, true,
  false, ◌&&◌, List, [], ◌∷◌, ◌++◌, Option, none, some, arith, All, find, update_first, Bool-cases,
  Option-cases, F64, DateTime, ltb,
}
use rust_ia_micro_agents.Base.Distinct.{IsFresh, AreDistinct-snoc}
use rust_ia_micro_agents.Team.Subagent.{idle, running, Subagent}
use rust_ia_micro_agents.Team.Manager.Pool.{
  TeamManager, is_idle, has_id, ephemeral_count, effective_ephemeral_capacity, ephemeral_id,
  spawned_subagent, spawn, assign, suits, acquire_for_task, mark_running, heartbeat, returned,
  release, force_idle,
}
use rust_ia_micro_agents.Team.Manager.Invariant.{
  ephemeral_id-injective, subagent_id-ne-ephemeral_id, IsMember, agent_ids, IsWellFormed,
  agent_ids-update_first, update-IsWellFormed, remove-IsWellFormed,
}

pub next-IsFresh :
    (next : ℕ) (pool : List Subagent)
    → All (IsMember next) pool
    → IsFresh (ephemeral_id next) (agent_ids pool)
next-IsFresh next [] ms = tt
next-IsFresh next (a ∷ rest) ms = (
  let v = ms.0 in
      ground (
        arith,
        eq_iff a.id (ephemeral_id next),
        ephemeral_id-injective v.number next,
        subagent_id-ne-ephemeral_id v.number next,
      ),
  next-IsFresh next rest ms.1,
)

members_snoc :
    (next : ℕ) (new : Subagent) (pool : List Subagent)
    → IsMember (suc next) new
    → All (IsMember next) pool
    → All (IsMember (suc next)) (pool ++ new ∷ [])
members_snoc next new [] n ms = (n, tt)
members_snoc next new (a ∷ rest) n ms =
    let v = ms.0 in
    (
      record {
        number = v.number;
        named = v.named;
        below = λ e. omega (arith, v.below e);
        free = v.free;
      },
      members_snoc next new rest n ms.1,
    )

pub agent_ids_snoc :
    (pool : List Subagent) (new : Subagent)
    → agent_ids (pool ++ new ∷ []) ≡ agent_ids pool ++ new.id ∷ []
agent_ids_snoc [] new = refl
agent_ids_snoc (a ∷ rest) new = ap (λ l. a.id ∷ l) (agent_ids_snoc rest new)

spawned-IsMember :
    (now : DateTime) (task_id : String) (preferred : Option String) (m : TeamManager)
    → IsMember (suc m.next_ephemeral_id) (spawned_subagent now task_id m preferred)
unfolding spawned_subagent is_idle
spawned-IsMember now task_id preferred m = record {
  number = m.next_ephemeral_id;
  named = refl;
  below = λ e. omega arith;
  free = λ e. cc;
}

spawned_id :
    (now : DateTime) (task_id : String) (preferred : Option String) (m : TeamManager)
    → (spawned_subagent now task_id m preferred).id ≡ ephemeral_id m.next_ephemeral_id
unfolding spawned_subagent
spawned_id now task_id preferred m = refl

spawn-IsWellFormed :
    (now : DateTime) (task_id : String) (preferred : Option String) (m : TeamManager)
    → m.next_ephemeral_id + 1 < 2 ^ 64
    → IsWellFormed m
    → IsWellFormed (spawn now task_id preferred m).1
unfolding spawn
spawn-IsWellFormed now task_id preferred m h w =
    let new = spawned_subagent now task_id m preferred in
    let next : (m.next_ephemeral_id + 1) % 2 ^ 64 ≡ suc m.next_ephemeral_id = omega arith in
    elim (Bool-cases (
      m.settings.allow_ephemeral_subagents
      && ltb (ephemeral_count m) (effective_ephemeral_capacity m))) [
        | inr e ↦ rw e w
        | inl e ↦ rw e (record {
          distinct =
              rw (agent_ids_snoc m.subagents new, spawned_id now task_id preferred m)
                (AreDistinct-snoc (ephemeral_id m.next_ephemeral_id) (agent_ids m.subagents)
                  (next-IsFresh m.next_ephemeral_id m.subagents w.members) w.distinct);
          members = rw next (
              members_snoc m.next_ephemeral_id new m.subagents
                (spawned-IsMember now task_id preferred m) w.members);
        })
      ]

assign-IsMember :
    (now : DateTime) (task_id : String) (next : ℕ) (a : Subagent)
    → IsMember next a
    → IsMember next (assign now task_id a)
unfolding is_idle
assign-IsMember now task_id next a v = record {
  number = v.number;
  named = v.named;
  below = v.below;
  free = λ e. cc;
}

running-IsMember :
    (now : DateTime) (next : ℕ) (a : Subagent)
    → IsMember next a
    → IsMember next (record a { state = running; heartbeat_at = now })
unfolding is_idle
running-IsMember now next a v = record {
  number = v.number;
  named = v.named;
  below = v.below;
  free = λ e. cc;
}

-- Acquiring keeps the pool well formed, as long as the counter of ephemeral subagents does not wrap.
pub acquire_for_task-IsWellFormed :
    (now : DateTime) (task_id : String) (preferred : Option String) (m : TeamManager)
    → m.next_ephemeral_id + 1 < 2 ^ 64
    → IsWellFormed m
    → IsWellFormed (acquire_for_task now task_id preferred m).1
unfolding acquire_for_task
acquire_for_task-IsWellFormed now task_id preferred m h w =
    elim (Option-cases (find (suits preferred) m.subagents)) [
      | inl e ↦ rw (e, acquire_for_task) (spawn-IsWellFormed now task_id preferred m h w)
      | inr (a, e) ↦
          rw (e, acquire_for_task)
            (update-IsWellFormed m (suits preferred) (assign now task_id) (λ b. refl)
              (λ b q v. assign-IsMember now task_id m.next_ephemeral_id b v) w)
    ]

pub mark_running-IsWellFormed :
    (now : DateTime) (i : String) (m : TeamManager)
    → IsWellFormed m
    → IsWellFormed (mark_running now i m)
unfolding mark_running
mark_running-IsWellFormed now i m w =
    update-IsWellFormed m (has_id i) _ (λ a. refl)
      (λ a q v. running-IsMember now m.next_ephemeral_id a v) w

pub heartbeat-IsWellFormed :
    (now : DateTime) (i : String) (m : TeamManager)
    → IsWellFormed m
    → IsWellFormed (heartbeat now i m)
unfolding heartbeat
heartbeat-IsWellFormed now i m w =
    update-IsWellFormed m (has_id i) _ (λ a. refl)
      (λ a q v. record { number = v.number; named = v.named; below = v.below; free = v.free }) w

pub find_fit {ℓ} :
    {A : Type ℓ} (p : A → Bool) (xs : List A) (a : A) → find p xs ≡ some a → p a ≡ true
find_fit p [] a e = cc
find_fit p (x ∷ xs) a e = elim (Bool-cases (p x)) [
  | inl h ↦
      let same : some x ≡ some a = rw h at e in let q : x ≡ a = cc in subst (λ y. p y ≡ true) q h
  | inr h ↦ find_fit p xs a (rw h at e)
]

-- The first fit is the item that a search finds.
pub All-update_found {ℓ} :
    {A : Type ℓ} (P : A → Type 0) (p : A → Bool) (f : A → A) (xs : List A) (a : A)
    → find p xs ≡ some a
    → (P a → P (f a))
    → All P xs
    → All P (update_first p f xs)
All-update_found P p f [] a e h ms = tt
All-update_found P p f (x ∷ xs) a e h ms = elim (Bool-cases (p x)) [
  | inl k ↦
      let same : some x ≡ some a = rw k at e in
      let q : x ≡ a = cc in rw k (subst (λ y. P y → P (f y)) (sym q) h ms.0, ms.1)
  | inr k ↦ rw k (ms.0, All-update_found P p f xs a (rw k at e) h ms.1)
]

found-IsWellFormed :
    (m : TeamManager) (p : Subagent → Bool) (f : Subagent → Subagent) (a : Subagent)
    → find p m.subagents ≡ some a
    → ((b : Subagent) → (f b).id ≡ b.id)
    → (IsMember m.next_ephemeral_id a → IsMember m.next_ephemeral_id (f a))
    → IsWellFormed m
    → IsWellFormed (record m { subagents = update_first p f m.subagents })
found-IsWellFormed m p f a e same keep w = record {
  distinct = rw (agent_ids-update_first p f same m.subagents) w.distinct;
  members = All-update_found (IsMember m.next_ephemeral_id) p f m.subagents a e keep w.members;
}

returned-IsMember :
    (now : DateTime) (score : F64) (error : Option String) (next : ℕ) (a : Subagent)
    → a.ephemeral ≡ false
    → IsMember next a
    → IsMember next (returned now score error a)
unfolding returned is_idle
returned-IsMember now score error next a e v = record {
  number = v.number;
  named = ground (arith, v.named);
  below = λ h. absurd (ground arith);
  free = λ h. ground arith;
}

returned_id :
    (now : DateTime) (score : F64) (error : Option String) (a : Subagent)
    → (returned now score error a).id ≡ a.id
unfolding returned
returned_id now score error a = ground arith

pub release-IsWellFormed :
    (now : DateTime) (i : String) (score : F64) (error : Option String) (m : TeamManager)
    → IsWellFormed m
    → IsWellFormed (release now i score error m).1
unfolding release
release-IsWellFormed now i score error m w = elim (Option-cases (find (has_id i) m.subagents)) [
  | inl e ↦ rw (e, release) w
  | inr (a, e) ↦ elim (Bool-cases a.ephemeral) [
    | inl short ↦ rw (e, release) (rw short (remove-IsWellFormed m (has_id i) w))
    | inr long ↦
        rw (e, release)
          (rw long (
            found-IsWellFormed m (has_id i) (returned now score error) a e
              (returned_id now score error)
              (returned-IsMember now score error m.next_ephemeral_id a long) w))
  ]
]

idled-IsMember :
    (now : DateTime) (next : ℕ) (a : Subagent)
    → a.ephemeral ≡ false
    → IsMember next a
    → IsMember next (record a { state = idle; current_task_id = none; heartbeat_at = now })
idled-IsMember now next a e v = record {
  number = v.number;
  named = v.named;
  below = v.below;
  free = λ h. (refl, e);
}

pub force_idle-IsWellFormed :
    (now : DateTime) (i : String) (m : TeamManager)
    → IsWellFormed m
    → IsWellFormed (force_idle now i m)
unfolding force_idle
force_idle-IsWellFormed now i m w = elim (Option-cases (find (has_id i) m.subagents)) [
  | inl e ↦ rw (e, force_idle) w
  | inr (a, e) ↦ elim (Bool-cases a.ephemeral) [
    | inl short ↦ rw (e, force_idle) (rw short (remove-IsWellFormed m (has_id i) w))
    | inr long ↦
        rw (e, force_idle)
          (rw long (
            found-IsWellFormed m (has_id i) _ a e (λ b. refl)
              (idled-IsMember now m.next_ephemeral_id a long) w))
  ]
]
