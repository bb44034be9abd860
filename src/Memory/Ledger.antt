-- ===== src/Memory/Ledger.antt =====
-- src/storage/postgres.rs, `save_or_merge_brain_candidate`: the table of memories. Its rows stand
-- with the newest first, as `ORDER BY id DESC` has them; the database gives a new row an id that no
-- row has, and every statement of a transaction succeeds.
pub mod Places
use rust_ia_micro_agents.Base.{
  ℕ, zero, suc, ◌+◌, ◌≤◌, ◌==◌, String, str_eq, eq_iff, eq_refl, ◌≡◌, refl, Bool, true, false, ◌&&◌,
  not, List, [], ◌∷◌, Option, none, some, arith, find, update_first, count, length, if◌then◌else◌,
  or_else, F64, DateTime, Bool-cases, Option-cases, inl, inr,
}
use rust_ia_micro_agents.Memory.Brain.{
  BrainScopeKind, user, conversation, BrainMemoryStatus, active, superseded, BrainMemory,
  BrainWriteCandidate, merge, same_content, candidate_should_supersede,
}

-- The operations on `f64` that the table needs: the maximum, and `a + 0.05 >= b`.
pub record Confidences : Type 0 where
  pub greater : F64 → F64 → F64
  pub within_margin : F64 → F64 → Bool

unfoldable pub is_active : BrainMemoryStatus → Bool
is_active active = true
is_active superseded = false

unfoldable pub same_scope : BrainScopeKind → BrainScopeKind → Bool
same_scope user user = true
same_scope conversation conversation = true
same_scope _ _ = false

-- `(b IS NULL AND a IS NULL) OR a = b`.
unfoldable pub same_text : Option String → Option String → Bool
same_text none none = true
same_text (some a) (some b) = str_eq a b
same_text _ _ = false

unfoldable pub same_number : Option ℕ → Option ℕ → Bool
same_number none none = true
same_number (some a) (some b) = a == b
same_number _ _ = false

-- The `WHERE` of the query for the existing memory.
unfoldable pub fits : BrainWriteCandidate → BrainMemory → Bool
fits c m =
    is_active m.status
    && same_scope m.scope_kind c.scope_kind
    && str_eq m.memory_key c.memory_key
    && same_text m.user_id c.user_id
    && same_number m.conversation_id c.conversation_id

-- `insert_brain_candidate`'s row.
unfoldable pub row_of : ℕ → DateTime → BrainWriteCandidate → BrainMemory
row_of id now c = record {
  id = id;
  scope_kind = c.scope_kind;
  user_id = c.user_id;
  conversation_id = c.conversation_id;
  memory_kind = c.memory_kind;
  memory_key = c.memory_key;
  subject = c.subject;
  what_value = c.what_value;
  why_value = c.why_value;
  where_context = c.where_context;
  learned_value = c.learned_value;
  provenance = c.provenance;
  confidence = c.confidence;
  status = active;
  superseded_by = none;
  source_turn_id = c.source_turn_id;
  created_at = now;
  updated_at = now;
}

module _ (confidences : Confidences) (id : ℕ) (now : DateTime) (c : BrainWriteCandidate) where
  -- The update of a row that says the same.
  unfoldable pub merged : BrainMemory → BrainMemory
  merged m = record m {
    subject = c.subject;
    what_value = c.what_value;
    why_value = c.why_value;
    where_context = c.where_context;
    learned_value = c.learned_value;
    provenance = merge m.provenance c.provenance;
    confidence = confidences.greater m.confidence c.confidence;
    source_turn_id = or_else c.source_turn_id m.source_turn_id;
    updated_at = now;
  }

  unfoldable pub retired : BrainMemory → BrainMemory
  retired m = record m { status = superseded; superseded_by = some id; updated_at = now }

  unfoldable pub save_or_merge_brain_candidate : List BrainMemory → List BrainMemory
  save_or_merge_brain_candidate rows = elim (find (fits c) rows) [
    | none ↦ row_of id now c ∷ rows
    | some existing ↦
        if same_content existing c
        then update_first (fits c) merged rows
        else if candidate_should_supersede confidences.within_margin existing c
        then row_of id now c ∷ update_first (fits c) retired rows
        else rows
  ]
