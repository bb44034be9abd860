-- ===== src/Planner/Slugs.antt =====
-- src/planner/decomposition.rs: the identifiers of planned tasks.
use rust_ia_micro_agents.Base.{
  ℕ, ◌+◌, String, str_eq, Bool, Option, none, some, if◌then◌else◌, ◌==◌, unwrap_or,
}
use rust_ia_micro_agents.Base.Text.{
  append, map_chars, trim_matches, trimmed, lower_char, is_ascii_alphanumeric,
}
use rust_ia_micro_agents.Base.Decimal.{to_string}
use Prim.Native.Char.{Char, code}

abbrev pub integration_task_slug : String
integration_task_slug = "task-integrate"

-- `map(|ch| if ch.is_ascii_alphanumeric() { ch } else { '-' })`.
unfoldable pub dashed : Char → Char
dashed c = if is_ascii_alphanumeric (code c) then c else "-"

abbrev pub is_dash : ℕ → Bool
is_dash c = c == b'-'

-- The part that both functions below share.
unfoldable pub cleaned : String → String
cleaned raw = map_chars lower_char (trim_matches is_dash (map_chars dashed (trimmed raw)))

unfoldable pub sanitize_task_id : Option String → ℕ → Option String
sanitize_task_id raw index =
    let slug = cleaned (unwrap_or raw "") in
    if str_eq slug "" then some (append "task-" (to_string (index + 1))) else some slug

unfoldable pub sanitize_dependency_id : String → Option String
sanitize_dependency_id raw = let slug = cleaned raw in if str_eq slug "" then none else some slug

unfoldable pub scoped_task_id : String → String → String
scoped_task_id plan_id local_id = append plan_id (append ":" local_id)
