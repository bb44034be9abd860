-- ===== src/Team/Manager/Exchange.antt =====
-- Handing subagents out and taking them back: histories of calls, what an acquisition gives, and
-- what a release undoes.
use rust_ia_micro_agents.Base.{
  ℕ, ◌+◌, ◌^◌, ◌<◌, ◌≤◌, max, String, str_eq, eq_iff, eq_refl, ◌≡◌, refl, subst, inl, inr, Bool,
  false, List, [], ◌∷◌, ◌++◌, Option, none, some, arith, find, update_first, remove_first, count,
  Bool-cases, F64, DateTime, length,
}
use rust_ia_micro_agents.Base.Distinct.{IsFresh, AreDistinct}
use rust_ia_micro_agents.Team.Subagent.{idle, running, Subagent}
use rust_ia_micro_agents.Team.Manager.Pool.{
  TeamManager, has_id, is_ephemeral, ephemeral_count, effective_ephemeral_capacity,
  spawned_subagent, spawn, assign, suits, acquire_for_task, mark_running, heartbeat, returned,
  release, force_idle,
}
use rust_ia_micro_agents.Team.Manager.Invariant.{agent_ids, IsWellFormed}
use rust_ia_micro_agents.Team.Manager.Operations.{
  acquire_for_task-IsWellFormed, mark_running-IsWellFormed, heartbeat-IsWellFormed,
  release-IsWellFormed, force_idle-IsWellFormed,
}

-- The calls that the tasks, in whatever order they take the lock, make of the pool.
pub data Call : Type 0 where
  acquires : String → Option String → Call
  marks beats forces : String → Call
  releases : String → F64 → Option String → Call

unfoldable pub step : DateTime → Call → TeamManager → TeamManager
step now (acquires task_id preferred) m = (acquire_for_task now task_id preferred m).1
step now (marks i) m = mark_running now i m
step now (beats i) m = heartbeat now i m
step now (forces i) m = force_idle now i m
step now (releases i score error) m = (release now i score error m).1

unfoldable pub run : List (DateTime × Call) → TeamManager → TeamManager
run [] m = m
run ((now, c) ∷ cs) m = run cs (step now c m)

spawn-next-le :
    (now : DateTime) (task_id : String) (preferred : Option String) (m : TeamManager)
    → (spawn now task_id preferred m).1.next_ephemeral_id ≤ m.next_ephemeral_id + 1
unfolding spawn
spawn-next-le now task_id preferred m = ground arith

acquire-next-le :
    (now : DateTime) (task_id : String) (preferred : Option String) (m : TeamManager)
    → (acquire_for_task now task_id preferred m).1.next_ephemeral_id ≤ m.next_ephemeral_id + 1
unfolding acquire_for_task
acquire-next-le now task_id preferred m = ground (arith, spawn-next-le now task_id preferred m)

release-next :
    (now : DateTime) (i : String) (score : F64) (error : Option String) (m : TeamManager)
    → (release now i score error m).1.next_ephemeral_id ≡ m.next_ephemeral_id
unfolding release
release-next now i score error m = ground arith

force_idle-next :
    (now : DateTime) (i : String) (m : TeamManager)
    → (force_idle now i m).next_ephemeral_id ≡ m.next_ephemeral_id
unfolding force_idle
force_idle-next now i m = ground arith

step-next-le :
    (now : DateTime) (c : Call) (m : TeamManager)
    → (step now c m).next_ephemeral_id ≤ m.next_ephemeral_id + 1
unfolding step mark_running heartbeat
step-next-le now (acquires task_id preferred) m = acquire-next-le now task_id preferred m
step-next-le now (marks i) m = omega arith
step-next-le now (beats i) m = omega arith
step-next-le now (forces i) m = omega (arith, force_idle-next now i m)
step-next-le now (releases i score error) m = omega (arith, release-next now i score error m)

step-IsWellFormed :
    (now : DateTime) (c : Call) (m : TeamManager)
    → m.next_ephemeral_id + 1 < 2 ^ 64
    → IsWellFormed m
    → IsWellFormed (step now c m)
unfolding step
step-IsWellFormed now (acquires task_id preferred) m h w =
    acquire_for_task-IsWellFormed now task_id preferred m h w
step-IsWellFormed now (marks i) m h w = mark_running-IsWellFormed now i m w
step-IsWellFormed now (beats i) m h w = heartbeat-IsWellFormed now i m w
step-IsWellFormed now (forces i) m h w = force_idle-IsWellFormed now i m w
step-IsWellFormed now (releases i score error) m h w = release-IsWellFormed now i score error m w

-- After any history of calls the ids are still distinct, ephemeral subagents are numbered below the
-- counter and idle ones are persistent and without a task, as long as the history is too short
-- for the counter to wrap at 2^64.
pub run-IsWellFormed :
    (cs : List (DateTime × Call)) (m : TeamManager)
    → m.next_ephemeral_id + length cs < 2 ^ 64
    → IsWellFormed m
    → IsWellFormed (run cs m)
unfolding run
run-IsWellFormed [] m h w = w
run-IsWellFormed ((now, c) ∷ cs) m h w =
    run-IsWellFormed cs (step now c m) (omega (arith, step-next-le now c m))
      (step-IsWellFormed now c m (omega arith) w)

count-update_first :
    (p : Subagent → Bool) (f : Subagent → Subagent)
    → ((a : Subagent) → (f a).ephemeral ≡ a.ephemeral)
    → (pool : List Subagent) → count is_ephemeral (update_first p f pool) ≡ count is_ephemeral pool
count-update_first p f h [] = refl
count-update_first p f h (a ∷ rest) = ground (arith, h a, count-update_first p f h rest)

count-remove_first-le :
    (p : Subagent → Bool) (pool : List Subagent)
    → count is_ephemeral (remove_first p pool) ≤ count is_ephemeral pool
count-remove_first-le p [] = omega arith
count-remove_first-le p (a ∷ rest) = ground (arith, count-remove_first-le p rest)

count_snoc-le :
    (pool : List Subagent) (a : Subagent)
    → count is_ephemeral (pool ++ a ∷ []) ≤ count is_ephemeral pool + 1
count_snoc-le [] a = ground arith
count_snoc-le (b ∷ rest) a = ground (arith, count_snoc-le rest a)

abbrev ephemerals : TeamManager → ℕ
ephemerals m = count is_ephemeral m.subagents

abbrev cap : TeamManager → ℕ
cap m = m.settings.max_ephemeral_subagents

spawn-count-le :
    (now : DateTime) (task_id : String) (preferred : Option String) (m : TeamManager)
    → (ephemerals (spawn now task_id preferred m).1 ≤ max (ephemerals m) (cap m))
      × (cap (spawn now task_id preferred m).1 ≡ cap m)
unfolding spawn ephemeral_count effective_ephemeral_capacity
spawn-count-le now task_id preferred m =
    ground (arith, count_snoc-le m.subagents (spawned_subagent now task_id m preferred))

returned_ephemeral :
    (now : DateTime) (score : F64) (error : Option String) (a : Subagent)
    → (returned now score error a).ephemeral ≡ a.ephemeral
unfolding returned
returned_ephemeral now score error a = ground arith

step-count-le :
    (now : DateTime) (c : Call) (m : TeamManager)
    → (ephemerals (step now c m) ≤ max (ephemerals m) (cap m)) × (cap (step now c m) ≡ cap m)
unfolding step acquire_for_task mark_running heartbeat force_idle release
step-count-le now (acquires task_id preferred) m = ground (
  arith,
  spawn-count-le now task_id preferred m,
  count-update_first (suits preferred) (assign now task_id) (λ a. refl) m.subagents,
)
step-count-le now (marks i) m = (
  omega (
    arith,
    count-update_first (has_id i) (λ a. record a { state = running; heartbeat_at = now })
        (λ a. refl) m.subagents,
  ),
  refl,
)
step-count-le now (beats i) m = (
  omega (
    arith,
    count-update_first (has_id i) (λ a. record a { heartbeat_at = now }) (λ a. refl) m.subagents,
  ),
  refl,
)
step-count-le now (forces i) m = ground (
  arith,
  count-remove_first-le (has_id i) m.subagents,
  count-update_first (has_id i)
      (λ b. record b { state = idle; current_task_id = none; heartbeat_at = now }) (λ a. refl)
      m.subagents,
)
step-count-le now (releases i score error) m = ground (
  arith,
  count-remove_first-le (has_id i) m.subagents,
  count-update_first (has_id i) (returned now score error) (returned_ephemeral now score error)
      m.subagents,
)

run-count-le :
    (cs : List (DateTime × Call)) (m : TeamManager)
    → ephemerals (run cs m) ≤ max (ephemerals m) (cap m)
unfolding run
run-count-le [] m = omega arith
run-count-le ((now, c) ∷ cs) m =
    omega
      (arith, run-count-le cs (step now c m), (step-count-le now c m).0, (step-count-le now c m).1)

-- Under fixed settings no history of calls raises the number of ephemeral subagents over
-- `max_ephemeral_subagents`, or over what it was where that was more.
pub ephemeral_count-run-le :
    (cs : List (DateTime × Call)) (m : TeamManager)
    → ephemeral_count (run cs m) ≤ max (ephemeral_count m) m.settings.max_ephemeral_subagents
unfolding ephemeral_count
ephemeral_count-run-le cs m = run-count-le cs m

found_differs :
    (i : String) (p : Subagent → Bool) (pool : List Subagent) (a : Subagent)
    → IsFresh i (agent_ids pool)
    → find p pool ≡ some a
    → str_eq a.id i ≡ false
found_differs i p [] a f e = cc
found_differs i p (b ∷ rest) a f e = elim (Bool-cases (p b)) [
  | inl k ↦
      let same : some b ≡ some a = rw k at e in
      let q : b ≡ a = cc in subst (λ (c : Subagent). str_eq c.id i ≡ false) q f.0
  | inr k ↦ found_differs i p rest a f.1 (rw k at e)
]

-- Among distinct ids, what a search finds is found by its id, before and after its change.
pub find-id :
    (p : Subagent → Bool) (f : Subagent → Subagent) (pool : List Subagent) (a : Subagent)
    → AreDistinct (agent_ids pool)
    → (f a).id ≡ a.id
    → find p pool ≡ some a
    → (find (has_id a.id) pool ≡ some a) × (find (has_id a.id) (update_first p f pool) ≡ some (f a))
find-id p f [] a d h e = absurd (cc)
find-id p f (b ∷ rest) a d h e = elim (Bool-cases (p b)) [
  | inl k ↦
      let same : some b ≡ some a = rw k at e in let q : b ≡ a = cc in ground (arith, eq_refl a.id)
  | inr k ↦
      let e' : find p rest ≡ some a = rw k at e in
      ground (
        arith,
        find-id p f rest a d.1 h e',
        found_differs b.id p rest a d.0 e',
        eq_iff a.id b.id,
        eq_iff b.id a.id,
      )
]
