-- ===== src/Execution/Dispatcher/Balance.antt =====
-- The pool before and after one dispatched task, src/execution/dispatcher.rs.
use rust_ia_micro_agents.Base.{
  ℕ, saturating_add, u32_max, ◌+◌, ◌%◌, ◌^◌, String, eq_iff, ◌≡◌, ◌≢◌, refl, sym, ap, subst, ◌∙◌,
  ◌⊎◌, inl, inr, Bool, true, false, not, ◌||◌, ◌&&◌, List, [], ◌∷◌, ◌++◌, Option, none, some, arith,
  All, find, update_first, remove_first, if◌then◌else◌, Option-cases, Bool-cases, is_some, F64,
  DateTime, ltb,
}
use rust_ia_micro_agents.Base.Text.{codes}
use rust_ia_micro_agents.Base.Distinct.{IsFresh, AreDistinct}
use rust_ia_micro_agents.Planner.Plan.{PlanTask}
use rust_ia_micro_agents.Team.Subagent.{running, failed, Subagent}
use rust_ia_micro_agents.Team.Manager.Pool.{
  TeamManager, AcquiredSubagent, is_idle, has_id, suits, assign, spawn, spawned_subagent,
  acquire_for_task, mark_running, returned, release, ephemeral_id, subagent_id, ephemeral_count,
  effective_ephemeral_capacity,
}
use rust_ia_micro_agents.Team.Manager.Invariant.{
  IsMember, agent_ids, IsWellFormed, agent_ids-update_first,
}
use rust_ia_micro_agents.Team.Manager.Operations.{find_fit, next-IsFresh}
use rust_ia_micro_agents.Team.Manager.Exchange.{find-id}
use rust_ia_micro_agents.Execution.Artifacts.{TaskExecutionResult}
use rust_ia_micro_agents.Execution.Dispatcher.{
  Worker, no_subagent, reviewed, errored, run_acquired, dispatch, run_one_task,
}
use rust_ia_micro_agents.Execution.Dispatcher.Answers.{Executed-cases}
use rust_ia_micro_agents.Execution.Dispatcher.Pool.{
  row, rows, update_first_fuse, rows-update_two, update_first_same, update_first_id, find_last,
  update_last, remove_last, release_persistent, release_ephemeral, run_acquired-release, idle_state,
  found-IsMember, suits_idle,
}

abbrev pub mark_failed : Subagent → Subagent
mark_failed a = record a { state = failed; retries = saturating_add u32_max a.retries 1 }

module _ (t1 t2 t3 : DateTime) (task_id : String) (preferred : Option String) (m : TeamManager)
    (wf : IsWellFormed m) (score : F64) (error : Option String) where
  abbrev pool : List Subagent
  pool = m.subagents

  row-returned :
      (a : Subagent)
      → is_idle a.state ≡ true
      → a.current_task_id ≡ none
      → row (
          returned t3 score error
            (record (assign t1 task_id a) { state = running; heartbeat_at = t2 }))
        ≡ row (if is_some error then mark_failed a else a)
  unfolding returned
  row-returned a i c = ground (arith, idle_state a.state i)

  choose :
      (i : String) (p : Subagent → Bool)
      → update_first p (λ b. if is_some error then mark_failed b else b) pool
        ≡ (if is_some error then update_first p mark_failed pool else pool)
  choose i p = elim (Bool-cases (is_some error)) [
    | inl e ↦ rw e
    | inr e ↦ rw e (update_first_same p pool)
  ]

  pub reused_rows :
      (a : Subagent)
      → find (suits preferred) pool ≡ some a
      → rows
          (release t3 a.id score error (
            mark_running t2 a.id (record m {
              subagents = update_first (suits preferred) (assign t1 task_id) pool;
            }))).1.subagents
        ≡ rows (if is_some error then update_first (has_id a.id) mark_failed pool else pool)
  unfolding mark_running
  reused_rows a e =
      let p = suits preferred in
      let start = λ (b : Subagent). record b { state = running; heartbeat_at = t2 } in
      let pool1 = update_first p (assign t1 task_id) pool in
      let pool2 = update_first (has_id a.id) start pool1 in
      let d1 : AreDistinct (agent_ids pool1) =
        rw (agent_ids-update_first p (assign t1 task_id) (λ b. refl) pool) wf.distinct in
      let found1 = (find-id p (assign t1 task_id) pool a wf.distinct refl e).1 in
      let found2 = (find-id (has_id a.id) start pool1 (assign t1 task_id a) d1 refl found1).1 in
      let member = found-IsMember m.next_ephemeral_id p pool a wf.members e in
      let i = suits_idle preferred a (find_fit p pool a e) in
      let fused : update_first (has_id a.id) (returned t3 score error) pool2
          ≡ update_first p (λ b. returned t3 score error (start (assign t1 task_id b))) pool =
        ap (update_first (has_id a.id) (returned t3 score error))
          (update_first_fuse p (assign t1 task_id) start pool a wf.distinct (λ b. refl) e)
        ∙ update_first_fuse p (λ b. start (assign t1 task_id b)) (returned t3 score error) pool a
            wf.distinct (λ b. refl) e in
      ap rows (
        release_persistent t3 a.id score error (record m { subagents = pool2 })
          (start (assign t1 task_id a)) found2 (member.free i).1
        ∙ fused)
      ∙ rows-update_two p _ (λ b. if is_some error then mark_failed b else b) pool a e
          (row-returned a i (member.free i).0)
      ∙ ap rows (
          sym (
            update_first_id p (λ b. if is_some error then mark_failed b else b) pool a wf.distinct
              e)
          ∙ choose a.id (has_id a.id))

  pub spawned_pool :
      (n : ℕ) (new : Subagent)
      → new.id ≡ ephemeral_id m.next_ephemeral_id
      → new.ephemeral ≡ true
      → (release t3 new.id score error (
          mark_running t2 new.id
            (record m { subagents = pool ++ new ∷ []; next_ephemeral_id = n }))).1.subagents
        ≡ pool
  unfolding mark_running
  spawned_pool n new named short =
      let start = λ (b : Subagent). record b { state = running; heartbeat_at = t2 } in
      let fresh : IsFresh new.id (agent_ids pool) =
        rw named (next-IsFresh m.next_ephemeral_id pool wf.members) in
      let marked = update_last new.id new refl start pool fresh in
      release_ephemeral t3 new.id score error
        (record m {
          subagents = update_first (has_id new.id) start (pool ++ new ∷ []);
          next_ephemeral_id = n;
        })
        (start new) (rw marked (find_last new.id (start new) refl pool fresh)) short
      ∙ ap (remove_first (has_id new.id)) marked
      ∙ remove_last new.id (start new) refl pool fresh

letter : List ℕ → ℕ
letter [] = 0
letter (c ∷ cs) = c

member_ne_none : (next : ℕ) (a : Subagent) → IsMember next a → a.id ≢ "none"
unfolding ephemeral_id subagent_id letter
member_ne_none next a v e =
    let h : letter (codes (if a.ephemeral then ephemeral_id v.number else subagent_id v.number))
        ≡ b'n' =
      ap (λ s. letter (codes s)) (sym v.named ∙ e) in
    elim (Bool-cases a.ephemeral) [
      | inl k ↦ let h' : ◌≡◌ {A = ℕ} b'e' b'n' = rw k at h in absurd (omega arith)
      | inr k ↦ let h' : ◌≡◌ {A = ℕ} b's' b'n' = rw k at h in absurd (omega arith)
    ]

none_absent :
    (next : ℕ) (f : Subagent → Subagent) (pool : List Subagent)
    → All (IsMember next) pool
    → update_first (has_id "none") f pool ≡ pool
none_absent next f [] ms = refl
none_absent next f (a ∷ rest) ms =
    let ne = member_ne_none next a ms.0 in
    ground (arith, eq_iff a.id "none", none_absent next f rest ms.1)

abbrev pub spent : TaskExecutionResult → List Subagent → List Subagent
spent result pool =
    if result.accepted || result.destroyed_on_release
    then pool
    else update_first (has_id result.subagent_id) mark_failed pool

run_acquired_result :
    (w : Worker) (task : PlanTask) (a : AcquiredSubagent) (team : TeamManager)
    → ((run_acquired w task a team).result.subagent_id ≡ a.subagent.id)
      × ((run_acquired w task a team).result.destroyed_on_release ≡ a.spawned)
unfolding run_acquired reviewed errored
run_acquired_result w task a team = elim (Executed-cases (w.execute_task a.subagent task)) [
  | inl (artifact, e) ↦ rw (e, run_acquired) (refl, refl)
  | inr (error, e) ↦ rw (e, run_acquired) (refl, refl)
]

swap_branches :
    (b : Bool) (xs ys : List Subagent)
    → (if not b then ys else xs) ≡ (if b || false then xs else ys)
swap_branches true xs ys = refl
swap_branches false xs ys = refl

reused-spent :
    (w : Worker) (team : TeamManager) (task : PlanTask) (a : Subagent)
    → IsWellFormed team
    → find (suits task.candidate_role) team.subagents ≡ some a
    → let d =
        run_acquired w task
          (record { subagent = assign w.acquired_at task.id a; spawned = false })
          (record team {
            subagents =
                update_first
                  (suits task.candidate_role)
                  (assign w.acquired_at task.id)
                  team.subagents;
          }) in
      rows d.team.subagents ≡ rows (spent d.result team.subagents)
reused-spent w team task a wf e =
    let acquired : AcquiredSubagent = record {
      subagent = assign w.acquired_at task.id a;
      spawned = false;
    } in
    let team1 = record team {
      subagents =
          update_first (suits task.candidate_role) (assign w.acquired_at task.id) team.subagents;
    } in
    let (score, error, released, failing) = run_acquired-release w task acquired team1 in
    let (named, destroyed) = run_acquired_result w task acquired team1 in
    ap (λ (m : TeamManager). rows m.subagents) released
    ∙ reused_rows w.acquired_at w.started_at w.released_at task.id task.candidate_role team wf score
        error a e
    ∙ ap rows (
        rw (named, destroyed, failing)
          (swap_branches (run_acquired w task acquired team1).result.accepted team.subagents
            (update_first (has_id a.id) mark_failed team.subagents)))

spawned-spent :
    (w : Worker) (team : TeamManager) (task : PlanTask) (new : Subagent) (n : ℕ)
    → IsWellFormed team
    → new.id ≡ ephemeral_id team.next_ephemeral_id
    → new.ephemeral ≡ true
    → let d =
        run_acquired w task
          (record { subagent = new; spawned = true })
          (record team { subagents = team.subagents ++ new ∷ []; next_ephemeral_id = n }) in
      rows d.team.subagents ≡ rows (spent d.result team.subagents)
spawned-spent w team task new n wf named short =
    let acquired : AcquiredSubagent = record { subagent = new; spawned = true } in
    let team1 = record team { subagents = team.subagents ++ new ∷ []; next_ephemeral_id = n } in
    let (score, error, released, failing) = run_acquired-release w task acquired team1 in
    let (same, destroyed) = run_acquired_result w task acquired team1 in
    ap (λ (m : TeamManager). rows m.subagents) released
    ∙ ap rows (
        spawned_pool w.acquired_at w.started_at w.released_at task.id task.candidate_role team wf
          score error n new named short)
    ∙ ap rows (
        rw (destroyed, same)
          (sym (
            second_holds (run_acquired w task acquired team1).result.accepted team.subagents
              (update_first (has_id new.id) mark_failed team.subagents))))
  where
    second_holds : (b : Bool) (xs ys : List Subagent) → (if b || true then xs else ys) ≡ xs
    second_holds true xs ys = refl
    second_holds false xs ys = refl

acquire_cases :
    (now : DateTime) (task_id : String) (preferred : Option String) (m : TeamManager)
    → ((a : Subagent) × (find (suits preferred) m.subagents ≡ some a)
        × (acquire_for_task now task_id preferred m ≡ (
          some (record { subagent = assign now task_id a; spawned = false }),
          record m { subagents = update_first (suits preferred) (assign now task_id) m.subagents },
        )))
      ⊎ ((acquire_for_task now task_id preferred m ≡ (
        some (record { subagent = spawned_subagent now task_id m preferred; spawned = true }),
        record m {
          subagents = m.subagents ++ spawned_subagent now task_id m preferred ∷ [];
          next_ephemeral_id = (m.next_ephemeral_id + 1) % 2 ^ 64;
        },
      ))
          ⊎ (acquire_for_task now task_id preferred m ≡ (none, m)))
unfolding acquire_for_task spawn
acquire_cases now task_id preferred m = elim (Option-cases (find (suits preferred) m.subagents)) [
  | inr (a, e) ↦ inl (a, e, rw (e, acquire_for_task) refl)
  | inl e ↦
      elim (Bool-cases (
        m.settings.allow_ephemeral_subagents
        && ltb (ephemeral_count m) (effective_ephemeral_capacity m))) [
          | inl k ↦ inr (inl (rw (e, acquire_for_task) (rw k refl)))
          | inr k ↦ inr (inr (rw (e, acquire_for_task) (rw k refl)))
        ]
]

spawned_subagent_fields :
    (now : DateTime) (task_id : String) (preferred : Option String) (m : TeamManager)
    → ((spawned_subagent now task_id m preferred).id ≡ ephemeral_id m.next_ephemeral_id)
      × ((spawned_subagent now task_id m preferred).ephemeral ≡ true)
unfolding spawned_subagent
spawned_subagent_fields now task_id preferred m = (refl, refl)

-- After one dispatched task over a well-formed pool the subagents are those before it, each with its
-- role, route, model, skills, state, task and retries, but that the persistent subagent of a task
-- that was not accepted is marked failed, with one retry more. Heartbeats and the score and error of
-- the last review are not compared.
pub run_one_task-rows :
    (w : Worker) (team : TeamManager) (task : PlanTask)
    → IsWellFormed team
    → rows (run_one_task w team task).team.subagents
      ≡ rows (spent (run_one_task w team task).result team.subagents)
unfolding run_one_task dispatch no_subagent
run_one_task-rows w team task wf =
    elim (acquire_cases w.acquired_at task.id task.candidate_role team) [
      | inl (a, found, e) ↦ subst Kept (sym e) (reused-spent w team task a wf found)
      | inr (inl e) ↦
          let (named, short) =
            spawned_subagent_fields w.acquired_at task.id task.candidate_role team in
          subst Kept (sym e)
            (spawned-spent w team task _ ((team.next_ephemeral_id + 1) % 2 ^ 64) wf named short)
      | inr (inr e) ↦
          subst Kept (sym e) (
            ap rows
              (sym (none_absent team.next_ephemeral_id mark_failed team.subagents wf.members)))
    ]
  where
    Kept : Option AcquiredSubagent × TeamManager → Type 0
    Kept x =
        rows (dispatch w task x).team.subagents
        ≡ rows (spent (dispatch w task x).result team.subagents)
