-- ===== src/Examples/Summary.antt =====
-- The summary of a conversation, and the theorem on its panics, for one of two turns.
use rust_ia_micro_agents.Base.{◌≡◌, refl, ◌↔◌, ◌⊎◌, [], ◌∷◌, none, some, Any}
use rust_ia_micro_agents.Memory.Summary.{
  ConversationTurn, utf8_len, byte_len, slice_to, truncate, summary_lines, head_turns, tail_turns,
  summarize,
}
use rust_ia_micro_agents.Memory.Summary.Panics.{IsSplit, summarize-iff_IsSplit}

abbrev asked : ConversationTurn
asked = record { role = "user"; content = "Where?"; created_at = 1 }

-- 139 letters of one byte, and one of two.
abbrev answered : ConversationTurn
answered = record {
  role = "assistant";
  content =
      "aaaaaaaaaaaaaaaaaaaaaaaaaaaaaaaaaaaaaaaaaaaaaaaaaaaaaaaaaaaaaaaaaaaaaaaaaaaaaaaaaaaaaaaaaaaaaaaaaaaaaaaaaaaaaaaaaaaaaaaaaaaaaaaaaaaaaaaaaaaé";
  created_at = 2;
}

one_turn : summarize (asked ∷ []) ≡ some "user: Where?\nuser: Where?"
unfolding summarize summary_lines truncate byte_len utf8_len
one_turn = refl

panic : summarize (asked ∷ answered ∷ []) ≡ none
unfolding summarize summary_lines truncate byte_len utf8_len slice_to
panic = refl

summarize-iff_IsSplit_example : (summarize (asked ∷ answered ∷ []) ≡ none) ↔ (
    Any IsSplit (head_turns (asked ∷ answered ∷ []))
    ⊎ Any IsSplit (tail_turns (asked ∷ answered ∷ [])))
summarize-iff_IsSplit_example = summarize-iff_IsSplit (asked ∷ answered ∷ [])
