-- ===== src/Examples/Memory.antt =====
-- The table of memories, and the theorems on it, for one user's language.
use rust_ia_micro_agents.Base.{
  ℕ, String, ◌≡◌, refl, List, [], ◌∷◌, none, some, arith, count, max, leb, f64_zero, map,
}
use rust_ia_micro_agents.Base.Text.{
  is_whitespace, ascii_lower, trim, split_whitespace, close_word, join_spaces,
}
use rust_ia_micro_agents.Memory.Brain.{
  user, preference, goal, active, superseded, scope_as_str, scope_from_db, kind_as_str,
  kind_from_db, status_as_str, status_from_db, BrainMemoryProvenance, merge, BrainMemory,
  BrainWriteCandidate, normalize_field, normalize_optional, same_content, newer_turn,
  candidate_should_supersede, from_db-as_str,
}
use rust_ia_micro_agents.Memory.Ledger.{
  Confidences, is_active, same_scope, same_text, same_number, fits, row_of, merged, retired,
  save_or_merge_brain_candidate,
}
use rust_ia_micro_agents.Memory.Ledger.Places.{
  IsLedger, count-save_or_merge_brain_candidate, save_or_merge_brain_candidate-IsLedger,
}

from_db-as_str_example :
    (scope_from_db (scope_as_str user) ≡ user)
    × (kind_from_db (kind_as_str goal) ≡ goal)
    × (status_from_db (status_as_str superseded) ≡ superseded)
from_db-as_str_example = from_db-as_str user goal superseded

abbrev heard_on : String → BrainMemoryProvenance
heard_on channel = record {
  channel = some channel;
  user_id = some "u1";
  conversation_id = none;
  source_turn_id = some 10;
  trace_id = none;
  tool_name = none;
  url = none;
}

newer_wins : (merge (heard_on "telegram") (heard_on "cli")).channel ≡ some "cli"
unfolding merge
newer_wins = refl

abbrev language : String → ℕ → BrainWriteCandidate
language what turn = record {
  scope_kind = user;
  user_id = some "u1";
  conversation_id = none;
  memory_kind = preference;
  memory_key = "preference.assistant_language";
  subject = "assistant_language";
  what_value = what;
  why_value = none;
  where_context = none;
  learned_value = none;
  provenance = heard_on "telegram";
  confidence = f64_zero;
  source_turn_id = some turn;
}

-- Whole numbers for confidences, with no margin.
abbrev whole_confidences : Confidences
whole_confidences = record { greater = max; within_margin = λ a b. leb b a }

abbrev english : List BrainMemory
english = row_of 1 100 (language "Reply in English" 10) ∷ []

english-IsLedger : IsLedger english
english-IsLedger c = ground arith

-- A newer answer retires the older one, and the same words in another spelling do not.
spanish_statuses :
    map
      (λ m. m.status)
      (save_or_merge_brain_candidate whole_confidences 2 200
        (language "Responder en espanol" 11)
        english)
    ≡ active ∷ superseded ∷ []
unfolding save_or_merge_brain_candidate fits row_of is_active same_scope same_text same_number
    same_content normalize_field normalize_optional trim is_whitespace split_whitespace close_word
    join_spaces ascii_lower candidate_should_supersede newer_turn retired
spanish_statuses = refl

english_statuses :
    map
      (λ m. m.status)
      (save_or_merge_brain_candidate whole_confidences 2 200
        (language " reply  in ENGLISH" 11)
        english)
    ≡ active ∷ []
unfolding save_or_merge_brain_candidate fits row_of is_active same_scope same_text same_number
    same_content normalize_field normalize_optional trim is_whitespace split_whitespace close_word
    join_spaces ascii_lower merged
english_statuses = refl

count-save_or_merge_brain_candidate_example :
    count (fits (language "Responder en espanol" 11)) (
      save_or_merge_brain_candidate whole_confidences 2 200
        (language "Responder en espanol" 11)
        english)
    ≡ 1
count-save_or_merge_brain_candidate_example =
    count-save_or_merge_brain_candidate whole_confidences 2 200 (language "Responder en espanol" 11)
      english english-IsLedger

save_or_merge_brain_candidate-IsLedger_example : IsLedger (
    save_or_merge_brain_candidate whole_confidences 2 200
      (language "Responder en espanol" 11)
      english)
save_or_merge_brain_candidate-IsLedger_example =
    save_or_merge_brain_candidate-IsLedger whole_confidences 2 200
      (language "Responder en espanol" 11) english english-IsLedger
