-- ===== src/Policy/Permissions.antt =====
-- src/policy/permissions.rs: whether a skill may run.
use rust_ia_micro_agents.Base.{String, Bool, false, ◌||◌, any, is_empty, if◌then◌else◌, str_eq}
use rust_ia_micro_agents.Base.Text.{eq_ignore_ascii_case}
use rust_ia_micro_agents.Team.Config.{IdentityPermissions}

unfoldable pub is_skill_allowed : IdentityPermissions → String → Bool
is_skill_allowed permissions skill_name =
    if any (λ name. eq_ignore_ascii_case name skill_name) permissions.denied_skills
    then false
    else if is_empty permissions.allowed_skills
    then false
    else any (λ name. eq_ignore_ascii_case name skill_name || str_eq name "*")
        permissions.allowed_skills
