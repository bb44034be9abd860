-- ===== src/Examples/Team.antt =====
-- The team's theorems at concrete settings, pools and readings.
use rust_ia_micro_agents.Base.{
  filter, is_some, ℕ, ◌≡◌, ◌≤◌, ◌+◌, ◌*◌, max, ◌||◌, refl, ◌↔◌, true, false, List, [], ◌∷◌, none,
  some, All, Any, arith, is_empty, ltb, leb, ◌==◌, DateTime, f64_zero,
}
use rust_ia_micro_agents.Errors.{ok}
use rust_ia_micro_agents.Team.Config.{
  max_capacity, validate, validate_settings, normalized_for_automatic_assignment,
}
use rust_ia_micro_agents.Team.Config.Limits.{IsUsable, validate_settings-normalized}
use rust_ia_micro_agents.Team.Resources.{
  SystemReading, Floats, capture_snapshot, pressure_limiter, suggested-zero, suggested-le,
}
use rust_ia_micro_agents.Team.Subagent.{idle, running, Subagent}
use rust_ia_micro_agents.Team.Manager.Pool.{TeamManager, ephemeral_count, subagent_id}
use rust_ia_micro_agents.Team.Manager.Invariant.{IsWellFormed}
use rust_ia_micro_agents.Team.Manager.Exchange.{
  Call, acquires, marks, releases, run, run-IsWellFormed, ephemeral_count-run-le,
}
use rust_ia_micro_agents.Base.Text.{codes_lt}
use rust_ia_micro_agents.Team.Manager.Startup.{
  role_at, new_subagent, refreshed, reconcile_member, reconcile_from, desired_ids, is_retained,
  insert_by_id, sort_by_id, reconcile_persistent_pool,
}
use rust_ia_micro_agents.Base.Maps.{get}
use rust_ia_micro_agents.Base.Decimal.{to_string}
use rust_ia_micro_agents.Base.Text.{ascii_lower, is_one_of}
use rust_ia_micro_agents.Team.Manager.Blueprint.{default_route_key, build_blueprint}
use rust_ia_micro_agents.Team.Manager.Startup.Loop.{Holds, IsPersistent}
use rust_ia_micro_agents.Team.Manager.Startup.Outcome.{
  reconcile_persistent_pool-total, reconcile_persistent_pool-keeps, numbers, IsSupplied,
}
use rust_ia_micro_agents.Samples.{small_config, small_settings, member_with, team_of}

small_config_accepted : validate small_config ≡ ok tt
unfolding validate max_capacity
small_config_accepted = refl

validate_settings-normalized_example :
    (validate_settings (normalized_for_automatic_assignment small_settings) ≡ ok tt)
    ↔ (IsUsable small_config × (is_empty small_settings.subagent_roleset ≡ false))
validate_settings-normalized_example = validate_settings-normalized small_settings

-- Percentages as whole numbers.
abbrev whole_percents : Floats
whole_percents = record {
  F32 = ℕ;
  zero_f32 = 0;
  mean_usage = λ reading. 40;
  percent = λ a b. 50;
  at_least = λ x n. leb n x;
}

abbrev small_host : SystemReading
small_host = record {
  cpus = 4;
  total_memory = 4294967296;
  available_memory = 2147483648;
  free_memory = 1073741824;
  used_memory = 2147483648;
}

small_host_suggests :
    (capture_snapshot whole_percents 0 small_host 2 3).suggested_ephemeral_capacity ≡ 3
unfolding capture_snapshot pressure_limiter
small_host_suggests = refl

suggested-zero_example :
    let r = capture_snapshot whole_percents 0 small_host 2 3 in
    (r.suggested_ephemeral_capacity == 0)
    ≡ (3 == 0 || leb 95 r.cpu_usage_pct || ltb r.available_memory_mb 256)
suggested-zero_example = suggested-zero whole_percents 0 small_host 2 3

suggested-le_example :
    let r = capture_snapshot whole_percents 0 small_host 2 3 in
    (r.suggested_ephemeral_capacity ≤ 3)
    × (r.suggested_ephemeral_capacity + 2 ≤ max (r.cpu_cores * 2) (2 + 1))
    × (r.suggested_ephemeral_capacity * 384 ≤ max r.available_memory_mb 384)
suggested-le_example = suggested-le whole_percents 0 small_host 2 3

abbrev pair : TeamManager
pair = team_of (member_with "subagent-1" idle ∷ member_with "subagent-2" idle ∷ []) true

pair-IsWellFormed : IsWellFormed pair
unfolding subagent_id to_string
pair-IsWellFormed = record {
  distinct = ((refl, tt), (tt, tt));
  members = (
    record { number = 1; named = refl; below = λ h. cc; free = λ h. (refl, refl) },
    (record { number = 2; named = refl; below = λ h. cc; free = λ h. (refl, refl) }, tt),
  );
}

abbrev three_calls : List (DateTime × Call)
three_calls =
    (1, acquires "plan-1:gather" none)
    ∷ (2, marks "subagent-1")
    ∷ (3, releases "subagent-1" f64_zero (some "too short"))
    ∷ []

run-IsWellFormed_example : IsWellFormed (run three_calls pair)
run-IsWellFormed_example = run-IsWellFormed three_calls pair (omega arith) pair-IsWellFormed

ephemeral_count-run-le_example :
    ephemeral_count (run three_calls pair)
    ≤ max (ephemeral_count pair) pair.settings.max_ephemeral_subagents
ephemeral_count-run-le_example = ephemeral_count-run-le three_calls pair

reconcile_persistent_pool-total_example :
    (m' : TeamManager) × (reconcile_persistent_pool 5 pair ≡ some m') × IsWellFormed m'
reconcile_persistent_pool-total_example =
    reconcile_persistent_pool-total 5 pair refl pair-IsWellFormed

abbrev busy_member : Subagent
busy_member = record (member_with "subagent-1" running) { current_task_id = some "plan-1:gather" }

abbrev second_member : Subagent
second_member = record (member_with "subagent-2" idle) {
  role = "verifier";
  model_route = "reviewer_fast";
  heartbeat_at = 5;
}

abbrev lone : TeamManager
lone = team_of (busy_member ∷ member_with "subagent-9" idle ∷ []) true

abbrev refilled : TeamManager
refilled = team_of (busy_member ∷ second_member ∷ []) true

-- The idle ninth member is dropped, and the second is built anew.
refill_lone : reconcile_persistent_pool 5 lone ≡ some refilled
unfolding reconcile_persistent_pool reconcile_from role_at sort_by_id reconcile_member subagent_id
    to_string refreshed is_retained desired_ids insert_by_id new_subagent codes_lt build_blueprint
    get default_route_key is_one_of ascii_lower
refill_lone = refl

reconcile_persistent_pool-keeps_example :
    All (λ a. Holds a refilled.subagents) (filter (λ a. is_some a.current_task_id) lone.subagents)
    × All (λ k. Any (IsPersistent (subagent_id k)) refilled.subagents) (numbers 2)
    × All (IsSupplied 2) refilled.subagents
reconcile_persistent_pool-keeps_example =
    reconcile_persistent_pool-keeps 5 lone refl refilled refill_lone
