-- ===== src/Execution/Dispatcher/Pool.antt =====
-- The calls of one dispatched task on the pool, src/execution/dispatcher.rs.
use rust_ia_micro_agents.Base.{
  ℕ, String, eq_iff, eq_refl, ◌≡◌, ◌≢◌, refl, sym, ap, subst, ◌∙◌, inl, inr, Bool, true, false, not,
  List, [], ◌∷◌, ◌++◌, map, Option, none, some, arith, All, find, update_first, remove_first,
  if◌then◌else◌, Bool-cases, is_some, F64, DateTime,
}
use rust_ia_micro_agents.Base.Distinct.{IsFresh, AreDistinct}
use rust_ia_micro_agents.Planner.Plan.{PlanTask}
use rust_ia_micro_agents.Team.Subagent.{SubagentState, idle, Subagent}
use rust_ia_micro_agents.Team.Manager.Pool.{
  TeamManager, AcquiredSubagent, is_idle, has_id, suits, mark_running, returned, release,
}
use rust_ia_micro_agents.Team.Manager.Invariant.{IsMember, agent_ids}
use rust_ia_micro_agents.Execution.Dispatcher.{Worker, is_accept, reviewed, errored, run_acquired}
use rust_ia_micro_agents.Execution.Dispatcher.Answers.{Executed-cases}

-- A subagent but for its heartbeat and what it remembers of its last review (score and error).
abbrev pub Row : Type 0
Row = String × String × String × String × List String × Bool × SubagentState × Option String × ℕ

abbrev pub row : Subagent → Row
row a = (
  a.id, a.role, a.model_route, a.resolved_model, a.allowed_skills, a.ephemeral, a.state,
  a.current_task_id, a.retries,
)

abbrev pub rows : List Subagent → List Row
rows pool = map row pool

-- Two changes of one subagent are one.
pub update_first_fuse :
    (p : Subagent → Bool) (f g : Subagent → Subagent) (pool : List Subagent) (a : Subagent)
    → AreDistinct (agent_ids pool)
    → ((b : Subagent) → (f b).id ≡ b.id)
    → find p pool ≡ some a
    → update_first (has_id a.id) g (update_first p f pool) ≡ update_first p (λ b. g (f b)) pool
update_first_fuse p f g [] a d h e = refl
update_first_fuse p f g (b ∷ rest) a d h e = elim (Bool-cases (p b)) [
  | inl k ↦
      let same : some b ≡ some a = rw k at e in
      let q : b ≡ a = cc in ground (arith, eq_refl a.id, h a)
  | inr k ↦
      let e' : find p rest ≡ some a = rw k at e in
      ground (
        arith,
        update_first_fuse p f g rest a d.1 h e',
        found_ne b.id p rest a d.0 e',
        eq_iff b.id a.id,
      )
]
  where
    found_ne :
        (i : String) (q : Subagent → Bool) (xs : List Subagent) (c : Subagent)
        → IsFresh i (agent_ids xs)
        → find q xs ≡ some c
        → i ≢ c.id
    found_ne i q [] c f r = cc
    found_ne i q (x ∷ xs) c f r = elim (Bool-cases (q x)) [
      | inl k ↦
          let same : some x ≡ some c = rw k at r in
          let z : x ≡ c = cc in λ eq. ground (arith, eq_iff x.id i)
      | inr k ↦ found_ne i q xs c f.1 (rw k at r)
    ]

pub rows-update_two :
    (p : Subagent → Bool) (f g : Subagent → Subagent) (pool : List Subagent) (a : Subagent)
    → find p pool ≡ some a
    → row (f a) ≡ row (g a)
    → rows (update_first p f pool) ≡ rows (update_first p g pool)
rows-update_two p f g [] a e h = refl
rows-update_two p f g (b ∷ rest) a e h = elim (Bool-cases (p b)) [
  | inl k ↦
      let same : some b ≡ some a = rw k at e in
      let q : b ≡ a = cc in
      rw k (
        ap (λ (r : Row). r ∷ rows rest) (subst (λ (c : Subagent). row (f c) ≡ row (g c)) (sym q) h))
  | inr k ↦ rw k (ap (λ (l : List Row). row b ∷ l) (rows-update_two p f g rest a (rw k at e) h))
]

pub update_first_same :
    (p : Subagent → Bool) (pool : List Subagent) → update_first p (λ b. b) pool ≡ pool
update_first_same p [] = refl
update_first_same p (b ∷ rest) = ground (arith, update_first_same p rest)

-- A change by a test and by the id of what the test finds are the same change.
pub update_first_id :
    (p : Subagent → Bool) (g : Subagent → Subagent) (pool : List Subagent) (a : Subagent)
    → AreDistinct (agent_ids pool)
    → find p pool ≡ some a
    → update_first (has_id a.id) g pool ≡ update_first p g pool
update_first_id p g pool a d e =
    ap (update_first (has_id a.id) g) (sym (update_first_same p pool))
    ∙ update_first_fuse p (λ b. b) g pool a d (λ b. refl) e

-- At the end of a pool that lacks its id, a subagent is found, changed and removed alone.
module _ (i : String) (new : Subagent) (named : new.id ≡ i) where
  pub find_last :
      (pool : List Subagent)
      → IsFresh i (agent_ids pool)
      → find (has_id i) (pool ++ new ∷ []) ≡ some new
  find_last [] f = ground (arith, eq_refl i)
  find_last (b ∷ rest) f = ground (arith, find_last rest f.1)

  pub update_last :
      (g : Subagent → Subagent) (pool : List Subagent)
      → IsFresh i (agent_ids pool)
      → update_first (has_id i) g (pool ++ new ∷ []) ≡ pool ++ g new ∷ []
  update_last g [] f = ground (arith, eq_refl i)
  update_last g (b ∷ rest) f = ground (arith, update_last g rest f.1)

  pub remove_last :
      (pool : List Subagent)
      → IsFresh i (agent_ids pool)
      → remove_first (has_id i) (pool ++ new ∷ []) ≡ pool
  remove_last [] f = ground (arith, eq_refl i)
  remove_last (b ∷ rest) f = ground (arith, remove_last rest f.1)

pub release_persistent :
    (now : DateTime) (i : String) (score : F64) (error : Option String) (m : TeamManager)
    (a : Subagent)
    → find (has_id i) m.subagents ≡ some a
    → a.ephemeral ≡ false
    → (release now i score error m).1.subagents
      ≡ update_first (has_id i) (returned now score error) m.subagents
unfolding release
release_persistent now i score error m a e h = rw (e, release) (rw h)

pub release_ephemeral :
    (now : DateTime) (i : String) (score : F64) (error : Option String) (m : TeamManager)
    (a : Subagent)
    → find (has_id i) m.subagents ≡ some a
    → a.ephemeral ≡ true
    → (release now i score error m).1.subagents ≡ remove_first (has_id i) m.subagents
unfolding release
release_ephemeral now i score error m a e h = rw (e, release) (rw h)

-- A dispatched task marks its subagent running and releases it, with an error unless it is accepted.
pub run_acquired-release :
    (w : Worker) (task : PlanTask) (a : AcquiredSubagent) (team : TeamManager)
    → (score : F64) × (error : Option String) × ((run_acquired w task a team).team
        ≡ (release w.released_at a.subagent.id score error
            (mark_running w.started_at a.subagent.id team)).1)
      × (is_some error ≡ not (run_acquired w task a team).result.accepted)
unfolding run_acquired reviewed errored
run_acquired-release w task a team = elim (Executed-cases (w.execute_task a.subagent task)) [
  | inl (artifact, e) ↦
      let review = w.review_task task artifact in
      rw (e, run_acquired)
        (
          review.score,
          (if is_accept review.action then none else some review.notes),
          refl,
          ground arith,
        )
  | inr (error, e) ↦ rw (e, run_acquired) (0, some error, refl, refl)
]

pub idle_state : (s : SubagentState) → is_idle s ≡ true → s ≡ idle
unfolding is_idle
idle_state s h = ground arith

pub found-IsMember :
    (next : ℕ) (p : Subagent → Bool) (pool : List Subagent) (a : Subagent)
    → All (IsMember next) pool
    → find p pool ≡ some a
    → IsMember next a
found-IsMember next p [] a ms e = absurd (cc)
found-IsMember next p (b ∷ rest) a ms e = elim (Bool-cases (p b)) [
  | inl k ↦
      let same : some b ≡ some a = rw k at e in let q : b ≡ a = cc in subst (IsMember next) q ms.0
  | inr k ↦ found-IsMember next p rest a ms.1 (rw k at e)
]

pub suits_idle :
    (preferred : Option String) (a : Subagent) → suits preferred a ≡ true → is_idle a.state ≡ true
unfolding suits
suits_idle none a h = h
suits_idle (some role) a h = ground arith
