-- ===== src/Memory/Ledger/Places.antt =====
-- A place in the table of memories, and that saving leaves one active memory there.
use rust_ia_micro_agents.Base.{
  ℕ, ◌+◌, ◌≤◌, String, str_eq, eq_iff, eq_refl, ◌≡◌, refl, ap, Bool, true, false, List, [], ◌∷◌,
  Option, none, some, arith, find, update_first, count, DateTime, Bool-cases, Option-cases, inl,
  inr,
}
use rust_ia_micro_agents.Memory.Brain.{
  BrainScopeKind, user, conversation, BrainMemory, BrainWriteCandidate, same_content,
  candidate_should_supersede,
}
use rust_ia_micro_agents.Memory.Ledger.{
  Confidences, is_active, same_scope, same_text, same_number, fits, row_of, merged, retired,
  save_or_merge_brain_candidate,
}

-- No place, which a scope, a key, a user and a conversation give, holds two active memories.
abbrev pub IsLedger : List BrainMemory → Type 0
IsLedger rows = (c : BrainWriteCandidate) → count (fits c) rows ≤ 1

same_scope_eq : (a b : BrainScopeKind) → same_scope a b ≡ true → a ≡ b
unfolding same_scope
same_scope_eq user user h = refl
same_scope_eq user conversation h = cc
same_scope_eq conversation user h = cc
same_scope_eq conversation conversation h = refl

same_scope_refl : (a : BrainScopeKind) → same_scope a a ≡ true
unfolding same_scope
same_scope_refl user = refl
same_scope_refl conversation = refl

same_text_eq : (a b : Option String) → same_text a b ≡ true → a ≡ b
unfolding same_text
same_text_eq none none h = refl
same_text_eq none (some b) h = cc
same_text_eq (some a) none h = cc
same_text_eq (some a) (some b) h = ap some ((eq_iff a b).0 h)

same_text_refl : (a : Option String) → same_text a a ≡ true
unfolding same_text
same_text_refl none = refl
same_text_refl (some a) = eq_refl a

same_number_eq : (a b : Option ℕ) → same_number a b ≡ true → a ≡ b
unfolding same_number
same_number_eq none none h = refl
same_number_eq none (some b) h = cc
same_number_eq (some a) none h = cc
same_number_eq (some a) (some b) h = ap some (ground arith)

same_number_refl : (a : Option ℕ) → same_number a a ≡ true
unfolding same_number
same_number_refl none = refl
same_number_refl (some a) = ground arith

-- The candidates of one place fit the same rows.
fits_place :
    (id : ℕ) (now : DateTime) (c d : BrainWriteCandidate)
    → fits d (row_of id now c) ≡ true
    → (m : BrainMemory) → fits d m ≡ fits c m
unfolding fits row_of is_active
fits_place id now c d h m =
    let scope : same_scope c.scope_kind d.scope_kind ≡ true = ground arith in
    let key : str_eq c.memory_key d.memory_key ≡ true = ground arith in
    let text : same_text c.user_id d.user_id ≡ true = ground arith in
    let number : same_number c.conversation_id d.conversation_id ≡ true = ground arith in
    let e1 = same_scope_eq c.scope_kind d.scope_kind scope in
    let e2 = (eq_iff c.memory_key d.memory_key).0 key in
    let e3 = same_text_eq c.user_id d.user_id text in
    let e4 = same_number_eq c.conversation_id d.conversation_id number in rw (e1, e2, e3, e4) refl

fits-row_of : (id : ℕ) (now : DateTime) (c : BrainWriteCandidate) → fits c (row_of id now c) ≡ true
unfolding fits row_of is_active
fits-row_of id now c =
    rw
      (
        same_scope_refl c.scope_kind,
        eq_refl c.memory_key,
        same_text_refl c.user_id,
        same_number_refl c.conversation_id,
      )
      refl

module _ (p q : BrainMemory → Bool) (f : BrainMemory → BrainMemory) where
  count-none : (rows : List BrainMemory) → find p rows ≡ none → count p rows ≡ 0
  count-none [] h = refl
  count-none (m ∷ ms) h = elim (Bool-cases (p m)) [
    | inl e ↦ absurd (let k : some m ≡ none = rw e at h in cc)
    | inr e ↦ rw e (count-none ms (rw e at h))
  ]

  count_present :
      (rows : List BrainMemory) (a : BrainMemory) → find p rows ≡ some a → 1 ≤ count p rows
  count_present [] a h = cc
  count_present (m ∷ ms) a h = elim (Bool-cases (p m)) [
    | inl e ↦ rw e (omega arith)
    | inr e ↦ rw e (count_present ms a (rw e at h))
  ]

  count_same :
      (rows : List BrainMemory) → ((m : BrainMemory) → p m ≡ q m) → count p rows ≡ count q rows
  count_same [] h = refl
  count_same (m ∷ ms) h = rw (h m, count_same ms h)

  count-update_first :
      (rows : List BrainMemory)
      → ((m : BrainMemory) → q (f m) ≡ q m)
      → count q (update_first p f rows) ≡ count q rows
  count-update_first [] h = refl
  count-update_first (m ∷ ms) h = ground (arith, h m, count-update_first ms h)

  count-update_first-le :
      (rows : List BrainMemory)
      → ((m : BrainMemory) → q (f m) ≡ false)
      → count q (update_first p f rows) ≤ count q rows
  count-update_first-le [] h = omega arith
  count-update_first-le (m ∷ ms) h = ground (arith, h m, count-update_first-le ms h)

  count_retired :
      (rows : List BrainMemory) (a : BrainMemory)
      → ((m : BrainMemory) → p (f m) ≡ false)
      → find p rows ≡ some a
      → count p (update_first p f rows) + 1 ≡ count p rows
  count_retired [] a h e = cc
  count_retired (m ∷ ms) a h e = elim (Bool-cases (p m)) [
    | inl k ↦ rw (k, h m) (omega arith)
    | inr k ↦ rw (k, k) (count_retired ms a h (rw k at e))
  ]

module _ (confidences : Confidences) (id : ℕ) (now : DateTime) (c : BrainWriteCandidate) where
  fits-merged :
      (d : BrainWriteCandidate) (m : BrainMemory)
      → fits d (merged confidences id now c m) ≡ fits d m
  unfolding fits merged
  fits-merged d m = refl

  fits-retired :
      (d : BrainWriteCandidate) (m : BrainMemory) → fits d (retired confidences id now c m) ≡ false
  unfolding fits retired is_active
  fits-retired d m = refl

  -- If no place holds two active memories, then after a candidate is saved its place holds exactly
  -- one.
  pub count-save_or_merge_brain_candidate :
      (rows : List BrainMemory)
      → IsLedger rows
      → count (fits c) (save_or_merge_brain_candidate confidences id now c rows) ≡ 1
  unfolding save_or_merge_brain_candidate
  count-save_or_merge_brain_candidate rows l = elim (Option-cases (find (fits c) rows)) [
    | inl e ↦
        let absent = count-none (fits c) (fits c) (λ m. m) rows e in
        rw (e, save_or_merge_brain_candidate, fits-row_of id now c) (omega arith)
    | inr (a, e) ↦
        let present = count_present (fits c) (fits c) (λ m. m) rows a e in
        let single = l c in
        rw (e, save_or_merge_brain_candidate)
          (elim (Bool-cases (same_content a c)) [
            | inl s ↦
                rw
                  (
                    s,
                    count-update_first (fits c) (fits c) (merged confidences id now c) rows
                        (fits-merged c),
                  )
                  (omega arith)
            | inr s ↦
                rw s (elim (Bool-cases (candidate_should_supersede confidences.within_margin a c)) [
                  | inl k ↦
                      let gone =
                        count_retired (fits c) (fits c) (retired confidences id now c) rows a
                          (fits-retired c) e in
                      rw (k, fits-row_of id now c) (omega arith)
                  | inr k ↦ rw k (omega arith)
                ])
          ])
  ]

  -- Of another place, saving adds no active memory.
  count-save-le :
      (d : BrainWriteCandidate) (rows : List BrainMemory)
      → fits d (row_of id now c) ≡ false
      → count (fits d) (save_or_merge_brain_candidate confidences id now c rows)
        ≤ count (fits d) rows
  unfolding save_or_merge_brain_candidate
  count-save-le d rows other = elim (Option-cases (find (fits c) rows)) [
    | inl e ↦ rw (e, save_or_merge_brain_candidate, other) (omega arith)
    | inr (a, e) ↦
        rw (e, save_or_merge_brain_candidate)
          (elim (Bool-cases (same_content a c)) [
            | inl s ↦
                rw
                  (
                    s,
                    count-update_first (fits c) (fits d) (merged confidences id now c) rows
                        (fits-merged d),
                  )
                  (omega arith)
            | inr s ↦
                rw s (elim (Bool-cases (candidate_should_supersede confidences.within_margin a c)) [
                  | inl k ↦
                      rw (k, other)
                        (count-update_first-le (fits c) (fits d) (retired confidences id now c) rows
                          (fits-retired d))
                  | inr k ↦ rw k (omega arith)
                ])
          ])
  ]

  -- Saving a candidate keeps every place at one active memory at most.
  pub save_or_merge_brain_candidate-IsLedger :
      (rows : List BrainMemory)
      → IsLedger rows
      → IsLedger (save_or_merge_brain_candidate confidences id now c rows)
  save_or_merge_brain_candidate-IsLedger rows l d =
      let after = save_or_merge_brain_candidate confidences id now c rows in
      elim (Bool-cases (fits d (row_of id now c))) [
        | inl own ↦ omega (
          arith,
          count_same (fits d) (fits c) (λ m. m) after (fits_place id now c d own),
          count-save_or_merge_brain_candidate rows l,
        )
        | inr other ↦ omega (arith, count-save-le d rows other, l d)
      ]
