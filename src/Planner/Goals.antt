-- ===== src/Planner/Goals.antt =====
-- src/planner/decomposition.rs, `split_goal` and what the drafts of a goal share.
use rust_ia_micro_agents.Base.{
  ℕ, ◌+◌, ◌%◌, max, String, str_eq, find?, Bool, not, List, [], ◌∷◌, map, none, some, is_some,
  filter, is_empty, length, get_elem?, if◌then◌else◌, F64,
}
use rust_ia_micro_agents.Base.Rows.{take}
use rust_ia_micro_agents.Base.Text.{append, replace, split_at, trimmed, last_piece}
use rust_ia_micro_agents.Base.Decimal.{to_string}
use rust_ia_micro_agents.Planner.Slugs.{integration_task_slug}
use rust_ia_micro_agents.Planner.Materialize.{PlanSeed}

abbrev pub contains : String → String → Bool
contains text needle = is_some (find? text needle)

-- The bit patterns of `0.01`, `0.015` and `0.02`.
abbrev pub cost_low : F64
cost_low = 4576918229304087675

abbrev pub cost_medium : F64
cost_medium = 4579800533065604792

abbrev pub cost_high : F64
cost_high = 4581421828931458171

unfoldable pub is_integration_task_id : String → Bool
is_integration_task_id task_id = str_eq (last_piece b':' task_id) integration_task_slug

-- `format!("task-{}", idx + 1)`.
unfoldable pub task_number : ℕ → String
task_number idx = append "task-" (to_string (idx + 1))

abbrev is_text : String → Bool
is_text s = not (str_eq s "")

-- Every separator becomes a full stop.
unfoldable pub normalized_goal : String → String
normalized_goal goal =
    replace
      (replace
        (replace
          (replace (replace (replace (replace goal "\n" ".") " and " ".") " y " ".") " luego " ".")
          " despues " ".")
        ";" ".")
      "," "."

unfoldable pub goal_chunks : String → List String
unfolding normalized_goal
goal_chunks goal = filter is_text (map trimmed (split_at b'.' (normalized_goal goal)))

unfoldable pub split_goal : String → ℕ → List String
unfolding goal_chunks
split_goal goal max_tasks =
    let chunks = goal_chunks goal in
    take (max max_tasks 1) (if is_empty chunks then goal ∷ [] else chunks)

-- The drafts of the chunks, from place `idx` on.
unfoldable pub chunk_seeds : List String → ℕ → List String → List PlanSeed
chunk_seeds roles idx [] = []
chunk_seeds roles idx (chunk ∷ chunks) =
    record {
      id = some (task_number idx);
      title = append "Work package " (to_string (idx + 1));
      description = chunk;
      dependencies = [];
      acceptance_criteria =
          "Answer the exact subproblem" ∷ "Provide concise evidence or rationale" ∷ [];
      candidate_role = get_elem? roles (idx % length roles);
      requested_model_route = none;
      expected_artifact = "structured_markdown";
      estimated_cost_usd = cost_low;
      estimated_ms = 1500;
    }
    ∷ chunk_seeds roles (idx + 1) chunks
