-- ===== src/Team/Manager/Pool.antt =====
-- src/team/manager.rs: the pool of subagents. Every operation takes the lock on the list of
-- subagents for its whole length, so it is one function from state to state; the clock's reading
-- is an argument.
use rust_ia_micro_agents.Base.{
  ℕ, ◌+◌, ◌%◌, ◌^◌, min, max, String, str_eq, Bool, true, false, not, ◌&&◌, List, [], ◌∷◌, ◌++◌,
  Option, none, some, find, update_first, remove_first, count, is_some, if◌then◌else◌, ltb,
  saturating_add, u32_max, usize_max, F64, f64_zero, DateTime,
}
use rust_ia_micro_agents.Base.Maps.{HashMap}
use rust_ia_micro_agents.Base.Text.{append, eq_ignore_ascii_case}
use rust_ia_micro_agents.Base.Decimal.{to_string}
use rust_ia_micro_agents.Team.Config.{TeamRuntimeSettings, IdentityPermissions}
use rust_ia_micro_agents.Team.Subagent.{
  SubagentState, idle, assigned, running, failed, Subagent, RoleProfile,
}
use rust_ia_micro_agents.Team.Manager.Blueprint.{
  SubagentBlueprint, build_blueprint, fallback_blueprint,
}

-- `suggested_ephemeral_capacity` is that of the resource monitor's last snapshot.
pub record TeamManager : Type 0 where
  pub settings : TeamRuntimeSettings
  pub subagents : List Subagent
  pub profiles : HashMap RoleProfile
  pub permissions : IdentityPermissions
  pub next_ephemeral_id : ℕ
  pub suggested_ephemeral_capacity : ℕ

pub record AcquiredSubagent : Type 0 where
  pub subagent : Subagent
  pub spawned : Bool

pub record ReleaseOutcome : Type 0 where
  pub subagent : Subagent
  pub destroyed : Bool

unfoldable pub is_idle : SubagentState → Bool
is_idle idle = true
is_idle _ = false

abbrev pub has_id : String → Subagent → Bool
has_id i a = str_eq a.id i

abbrev pub is_ephemeral : Subagent → Bool
is_ephemeral a = a.ephemeral

unfoldable pub ephemeral_count : TeamManager → ℕ
ephemeral_count m = count is_ephemeral m.subagents

unfoldable pub persistent_count : TeamManager → ℕ
persistent_count m = count (λ a. not a.ephemeral) m.subagents

unfoldable pub effective_ephemeral_capacity : TeamManager → ℕ
effective_ephemeral_capacity m =
    min m.settings.max_ephemeral_subagents m.suggested_ephemeral_capacity

unfoldable pub effective_parallel_limit : TeamManager → ℕ
effective_parallel_limit m =
    max
      (min m.settings.max_parallel_tasks
        (saturating_add usize_max m.settings.team_size (effective_ephemeral_capacity m)))
      1

unfoldable pub blueprint_for_role : TeamManager → Option String → SubagentBlueprint
blueprint_for_role m (some role) = build_blueprint m.settings m.permissions m.profiles role none
blueprint_for_role m none = elim m.settings.subagent_roleset [
  | [] ↦ fallback_blueprint "generalist"
  | role ∷ roles ↦ build_blueprint m.settings m.permissions m.profiles role none
]

unfoldable pub ephemeral_id : ℕ → String
ephemeral_id n = append "ephemeral-" (to_string n)

unfoldable pub subagent_id : ℕ → String
subagent_id n = append "subagent-" (to_string n)

-- The new ephemeral subagent of `acquire_for_task`.
unfoldable pub spawned_subagent : DateTime → String → TeamManager → Option String → Subagent
spawned_subagent now task_id m preferred_role =
    let blueprint = blueprint_for_role m preferred_role in
    record {
      id = ephemeral_id m.next_ephemeral_id;
      role = blueprint.role;
      model_route = blueprint.model_route;
      resolved_model = blueprint.resolved_model;
      allowed_skills = blueprint.allowed_skills;
      ephemeral = true;
      state = assigned;
      current_task_id = some task_id;
      heartbeat_at = now;
      retries = 0;
      last_review_score = f64_zero;
      last_error = none;
    }

-- The part of `acquire_for_task` behind the search for an idle subagent.
unfoldable pub spawn :
    DateTime → String → Option String → TeamManager → Option AcquiredSubagent × TeamManager
spawn now task_id preferred_role m =
    if m.settings.allow_ephemeral_subagents
      && ltb (ephemeral_count m) (effective_ephemeral_capacity m)
    then (
      some (record { subagent = spawned_subagent now task_id m preferred_role; spawned = true }),
      record m {
        subagents = m.subagents ++ spawned_subagent now task_id m preferred_role ∷ [];
        next_ephemeral_id = (m.next_ephemeral_id + 1) % 2 ^ 64;
      },
    )
    else (none, m)

abbrev pub assign : DateTime → String → Subagent → Subagent
assign now task_id a = record a {
  state = assigned;
  current_task_id = some task_id;
  heartbeat_at = now;
}

-- The idle subagents that serve a task with the given preference.
unfoldable pub suits : Option String → Subagent → Bool
suits none a = is_idle a.state
suits (some role) a = is_idle a.state && eq_ignore_ascii_case a.role role

unfoldable pub acquire_for_task :
    DateTime → String → Option String → TeamManager → Option AcquiredSubagent × TeamManager
acquire_for_task now task_id preferred_role m = elim (find (suits preferred_role) m.subagents) [
  | some a ↦ (
    some (record { subagent = assign now task_id a; spawned = false }),
    record m { subagents = update_first (suits preferred_role) (assign now task_id) m.subagents },
  )
  | none ↦ spawn now task_id preferred_role m
]

unfoldable pub mark_running : DateTime → String → TeamManager → TeamManager
mark_running now i m = record m {
  subagents =
      update_first (has_id i) (λ a. record a { state = running; heartbeat_at = now }) m.subagents;
}

unfoldable pub heartbeat : DateTime → String → TeamManager → TeamManager
heartbeat now i m = record m {
  subagents = update_first (has_id i) (λ a. record a { heartbeat_at = now }) m.subagents;
}

-- A persistent subagent after its release: failed if there was an error, else idle.
unfoldable pub returned : DateTime → F64 → Option String → Subagent → Subagent
returned now review_score error a =
    if is_some error
    then record a {
      state = failed;
      current_task_id = none;
      heartbeat_at = now;
      retries = saturating_add u32_max a.retries 1;
      last_review_score = review_score;
      last_error = error;
    }
    else record a {
      state = idle;
      current_task_id = none;
      heartbeat_at = now;
      last_review_score = review_score;
      last_error = error;
    }

-- An ephemeral subagent as its release reports it; it has left the pool.
unfoldable pub dismissed : DateTime → F64 → Option String → Subagent → Subagent
dismissed now review_score error a = record a {
  current_task_id = none;
  heartbeat_at = now;
  last_review_score = review_score;
  last_error = error;
}

unfoldable pub release :
    DateTime → String → F64 → Option String → TeamManager → Option ReleaseOutcome × TeamManager
release now i review_score error m = elim (find (has_id i) m.subagents) [
  | none ↦ (none, m)
  | some a ↦
      if a.ephemeral
      then (
        some (record { subagent = dismissed now review_score error a; destroyed = true }),
        record m { subagents = remove_first (has_id i) m.subagents },
      )
      else (
        some (record { subagent = returned now review_score error a; destroyed = false }),
        record m {
          subagents = update_first (has_id i) (returned now review_score error) m.subagents;
        },
      )
]

unfoldable pub force_idle : DateTime → String → TeamManager → TeamManager
force_idle now i m = elim (find (has_id i) m.subagents) [
  | none ↦ m
  | some a ↦
      if a.ephemeral
      then record m { subagents = remove_first (has_id i) m.subagents }
      else record m {
        subagents =
            update_first (has_id i)
              (λ b. record b { state = idle; current_task_id = none; heartbeat_at = now })
              m.subagents;
      }
]
