-- ===== src/Examples/Skills.antt =====
-- The selection of skills, and the theorem on it, for three skills and one text.
use rust_ia_micro_agents.Base.{
  ℕ, ◌≤◌, min, String, ◌≡◌, refl, Bool, false, List, [], ◌∷◌, none, All, count, length, leb, map,
}
use rust_ia_micro_agents.Base.Text.{map_chars, lower_char}
use rust_ia_micro_agents.Base.Ranking.{insert_descending, sort_descending, IsRanked}
use rust_ia_micro_agents.Reminders.Jobs.{Value}
use rust_ia_micro_agents.Skills.Selector.{
  builtin, SkillDefinition, trigger_score, tag_score, name_score, score, select, select-IsBest,
}

abbrev lower : String → String
lower s = map_chars lower_char s

abbrev skill_named : String → List String → List String → SkillDefinition Value
skill_named name tags triggers = record {
  manifest = record {
    name = name;
    version = "1.0.0";
    description = "";
    kind = builtin;
    entrypoint = name;
    input_schema = none;
    output_schema = none;
    permissions = [];
    timeout_ms = 1000;
    max_retries = 0;
    cache_ttl_secs = 0;
    idempotent = false;
    side_effects = "";
    tags = tags;
    triggers = triggers;
  };
  sections = [];
  folder = ".";
}

abbrev offered : List (SkillDefinition Value)
offered =
    skill_named "http.fetch" ("web" ∷ []) []
    ∷ skill_named "agent.status" ("memory" ∷ []) []
    ∷ skill_named "reminders.create" ("reminder" ∷ []) ("Remind" ∷ [])
    ∷ []

selected :
    map
      (λ skill. skill.manifest.name)
      (select lower offered "please remind me tomorrow" ("Memory" ∷ []) 4)
    ≡ "reminders.create" ∷ "agent.status" ∷ []
unfolding select score trigger_score tag_score name_score sort_descending insert_descending
selected = refl

select-IsBest_example :
    let chosen = select lower offered "please remind me tomorrow" ("Memory" ∷ []) 4 in
    let points = score lower {Value = Value} "please remind me tomorrow" ("Memory" ∷ []) in
    IsRanked points chosen
    × All (λ skill. 1 ≤ points skill) chosen
    × (length chosen ≤ 4)
    × ((p : SkillDefinition Value → Bool) → count p chosen ≤ count p offered)
    × ((s : ℕ)
        → 1 ≤ s
        → count (λ skill. leb s (points skill)) chosen
          ≡ min 4 (count (λ skill. leb s (points skill)) offered))
select-IsBest_example = select-IsBest lower offered "please remind me tomorrow" ("Memory" ∷ []) 4
