-- ===== src/Examples/Policy.antt =====
-- Permissions and budgets, and the theorems on them, for one identity.
use rust_ia_micro_agents.Base.{◌-◌, ◌≤◌, min, ◌≡◌, refl, true, false, [], ◌∷◌, arith, f64_zero}
use rust_ia_micro_agents.Base.Text.{eq_ignore_ascii_case, ascii_lower}
use rust_ia_micro_agents.Team.Config.{IdentityPermissions, effective_permissions}
use rust_ia_micro_agents.Policy.Permissions.{is_skill_allowed}
use rust_ia_micro_agents.Policy.Budgets.{
  TurnBudget, is_timed_out, consume_step, granted_steps, from_identity, granted_steps-le,
  granted_steps_in_time,
}
use rust_ia_micro_agents.Samples.{small_settings}

abbrev no_writing : IdentityPermissions
no_writing = record { allowed_skills = "*" ∷ []; denied_skills = "memory.write" ∷ [] }

deny_overrides_allow : is_skill_allowed no_writing "Memory.Write" ≡ false
unfolding is_skill_allowed eq_ignore_ascii_case ascii_lower
deny_overrides_allow = refl

-- The settings make every skill effective, also a denied one.
denied_but_effective :
    is_skill_allowed (effective_permissions small_settings no_writing) "memory.write" ≡ true
unfolding is_skill_allowed eq_ignore_ascii_case ascii_lower effective_permissions
denied_but_effective = refl

abbrev two_steps : TurnBudget
two_steps = from_identity (record {
  max_steps = 2;
  max_turn_cost_usd = f64_zero;
  max_input_tokens = 1000;
  max_output_tokens = 500;
  max_tool_calls = 1;
  timeout_ms = 10000;
})

two_steps_granted : granted_steps (5 ∷ 20000 ∷ 30 ∷ []) two_steps ≡ 1
unfolding granted_steps consume_step is_timed_out from_identity
two_steps_granted = refl

granted_steps-le_example :
    granted_steps (5 ∷ 20000 ∷ 30 ∷ []) two_steps ≤ two_steps.max_steps - two_steps.used_steps
unfolding from_identity
granted_steps-le_example = granted_steps-le (5 ∷ 20000 ∷ 30 ∷ []) two_steps (omega arith)

granted_steps_in_time_example :
    granted_steps (5 ∷ 20 ∷ 30 ∷ []) two_steps ≡ min 3 (two_steps.max_steps - two_steps.used_steps)
unfolding from_identity
granted_steps_in_time_example =
    granted_steps_in_time (5 ∷ 20 ∷ 30 ∷ []) two_steps (omega arith)
      (omega arith, (omega arith, (omega arith, tt)))
