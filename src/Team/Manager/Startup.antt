-- ===== src/Team/Manager/Startup.antt =====
-- src/team/manager.rs: building the pool, and reconciling it with new settings.
pub mod Reconcile
pub mod Loop
pub mod Outcome
use rust_ia_micro_agents.Base.{
  ℕ, zero, suc, ◌+◌, ◌%◌, String, str_eq, Bool, true, false, not, ◌&&◌, ◌||◌, List, [], ◌∷◌, ◌++◌,
  map, Option, none, some, get_elem?, length, find, update_first, filter, any, is_some, is_empty,
  if◌then◌else◌, ltb, f64_zero, DateTime,
}
use rust_ia_micro_agents.Base.Maps.{HashMap}
use rust_ia_micro_agents.Base.Text.{codes_lt, codes}
use rust_ia_micro_agents.Errors.{AppResult, ok, err, config, ◌>>=◌, ◌>>◌}
use rust_ia_micro_agents.Team.Config.{
  TeamRuntimeSettings, IdentityPermissions, validate_settings, normalized_for_automatic_assignment,
}
use rust_ia_micro_agents.Team.Subagent.{idle, Subagent, RoleProfile}
use rust_ia_micro_agents.Team.Manager.Blueprint.{SubagentBlueprint, build_blueprint}
use rust_ia_micro_agents.Team.Manager.Pool.{TeamManager, is_ephemeral, has_id, subagent_id}

-- `roleset[idx % roleset.len()]`; `none` is the panic on an empty role set.
unfoldable pub role_at : List String → ℕ → Option String
role_at [] idx = none
role_at (r ∷ rs) idx = get_elem? (r ∷ rs) (idx % length (r ∷ rs))

unfoldable pub new_subagent : DateTime → String → SubagentBlueprint → Subagent
new_subagent now i blueprint = record {
  id = i;
  role = blueprint.role;
  model_route = blueprint.model_route;
  resolved_model = blueprint.resolved_model;
  allowed_skills = blueprint.allowed_skills;
  ephemeral = false;
  state = idle;
  current_task_id = none;
  heartbeat_at = now;
  retries = 0;
  last_review_score = f64_zero;
  last_error = none;
}

module _ (now : DateTime) (settings : TeamRuntimeSettings) (permissions : IdentityPermissions)
    (profiles : HashMap RoleProfile) where
  abbrev pub blueprint_at : String → ℕ → SubagentBlueprint
  blueprint_at role idx =
      build_blueprint settings permissions profiles role (some (subagent_id (idx + 1)))

  -- The members from `idx` on, as many as are left.
  unfoldable pub build_from : ℕ → ℕ → Option (List Subagent)
  build_from zero idx = some []
  build_from (suc left) idx = elim (role_at settings.subagent_roleset idx) [
    | none ↦ none
    | some role ↦ elim (build_from left (idx + 1)) [
      | none ↦ none
      | some rest ↦ some (new_subagent now (subagent_id (idx + 1)) (blueprint_at role idx) ∷ rest)
    ]
  ]

  -- `none` is a panic.
  unfoldable pub build_subagents : Option (AppResult (List Subagent))
  build_subagents =
      if is_empty settings.subagent_roleset
      then some (err (config "subagent roleset cannot be empty"))
      else elim (build_from settings.team_size 0) [ none ↦ none | some out ↦ some (ok out) ]

  abbrev pub persistent_with : String → Subagent → Bool
  persistent_with i a = not a.ephemeral && str_eq a.id i

  -- A member that has no task takes its new blueprint.
  unfoldable pub refreshed : SubagentBlueprint → Subagent → Subagent
  refreshed blueprint a = if is_some a.current_task_id then a else record a {
    role = blueprint.role;
    model_route = blueprint.model_route;
    resolved_model = blueprint.resolved_model;
    allowed_skills = blueprint.allowed_skills;
  }

  -- One pass of the `for` loop of `reconcile_persistent_pool`.
  unfoldable pub reconcile_member : ℕ → String → List Subagent → List Subagent
  reconcile_member idx role pool =
      if any (persistent_with (subagent_id (idx + 1))) pool
      then update_first (persistent_with (subagent_id (idx + 1)))
          (refreshed (blueprint_at role idx)) pool
      else pool ++ new_subagent now (subagent_id (idx + 1)) (blueprint_at role idx) ∷ []

  unfoldable pub reconcile_from : ℕ → ℕ → List Subagent → Option (List Subagent)
  reconcile_from zero idx pool = some pool
  reconcile_from (suc left) idx pool = elim (role_at settings.subagent_roleset idx) [
    | none ↦ none
    | some role ↦ reconcile_from left (idx + 1) (reconcile_member idx role pool)
  ]

-- `subagent-1` up to `subagent-n`.
unfoldable pub desired_ids : ℕ → List String
desired_ids zero = []
desired_ids (suc n) = desired_ids n ++ subagent_id (n + 1) ∷ []

unfoldable pub is_retained : ℕ → Subagent → Bool
is_retained team_size a =
    a.ephemeral || any (λ i. str_eq i a.id) (desired_ids team_size) || is_some a.current_task_id

-- The stable `sort_by` on the ids, by insertion.
unfoldable pub insert_by_id : Subagent → List Subagent → List Subagent
insert_by_id a [] = a ∷ []
insert_by_id a (b ∷ bs) =
    if codes_lt (codes b.id) (codes a.id) then b ∷ insert_by_id a bs else a ∷ b ∷ bs

unfoldable pub sort_by_id : List Subagent → List Subagent
sort_by_id [] = []
sort_by_id (a ∷ rest) = insert_by_id a (sort_by_id rest)

unfoldable pub reconcile_persistent_pool : DateTime → TeamManager → Option TeamManager
reconcile_persistent_pool now m =
    elim (reconcile_from now m.settings m.permissions m.profiles m.settings.team_size 0
      m.subagents) [
        | none ↦ none
        | some pool ↦
            some
              (record m { subagents = sort_by_id (filter (is_retained m.settings.team_size) pool) })
      ]

-- `TeamManager::list`.
unfoldable pub list : TeamManager → List Subagent
list m = sort_by_id m.subagents

-- `apply_runtime_settings`. Reading the profiles, writing the snapshot of the settings and
-- measuring the host's resources are the environment's; `none` is a panic.
unfoldable pub apply_runtime_settings :
    DateTime
    → AppResult (HashMap RoleProfile)
    → AppResult (Unit {0})
    → ℕ
    → TeamRuntimeSettings
    → TeamManager
    → Option (AppResult (TeamManager × TeamRuntimeSettings))
apply_runtime_settings now loaded stored suggested settings m =
    let next = normalized_for_automatic_assignment settings in
    elim (do validate_settings next; profiles ← loaded; stored; ok profiles) [
      | err e ↦ some (err e)
      | ok profiles ↦
          elim (reconcile_persistent_pool now (record m {
            settings = next;
            profiles = profiles;
            suggested_ephemeral_capacity = suggested;
          })) [ none ↦ none | some m' ↦ some (ok (m', m'.settings)) ]
    ]
