-- ===== src/Memory/Summary/Panics.antt =====
-- When the summary of a conversation panics.
use Prim.Native.Char.{Char, code}
use rust_ia_micro_agents.Base.{
  ℕ, ◌+◌, ◌-◌, ◌≤◌, ◌<◌, String, ◌≡◌, refl, ap, List, [], ◌∷◌, none, ◌⊎◌, inl, inr, ◌↔◌, arith, Any,
  ltb, Bool-cases, Option-cases,
}
use rust_ia_micro_agents.Base.Text.{append}
use rust_ia_micro_agents.Memory.Summary.{
  ConversationTurn, utf8_len, byte_len, slice_to, truncate, summary_line, summary_lines, head_turns,
  tail_turns, summarize,
}

-- A character of the text begins within its first n bytes and ends beyond them.
abbrev pub IsCut : ℕ → String → Type 0
IsCut n s =
    (before : String) × (c : Char) × (behind : String) × (s ≡ append before (String.◌∷◌ c behind))
    × (byte_len before < n)
    × (n < byte_len before + utf8_len (code c))

byte_len-append : (s t : String) → byte_len (append s t) ≡ byte_len s + byte_len t
unfolding byte_len
byte_len-append String.[] t = omega arith
byte_len-append (String.◌∷◌ c s) t = omega (arith, byte_len-append s t)

slice_to_inside :
    (n : ℕ) (before : String) (c : Char) (behind : String)
    → byte_len before < n
    → n < byte_len before + utf8_len (code c)
    → slice_to n (append before (String.◌∷◌ c behind)) ≡ none
unfolding slice_to byte_len
slice_to_inside n String.[] c behind lo hi = ground arith
slice_to_inside n (String.◌∷◌ d before) c behind lo hi =
    ground (arith, slice_to_inside (n - utf8_len (code d)) before c behind)

slice_to-IsCut : (n : ℕ) (s : String) → slice_to n s ≡ none → n ≤ byte_len s → IsCut n s
unfolding slice_to byte_len
slice_to-IsCut n String.[] e h = absurd (ground arith)
slice_to-IsCut n (String.◌∷◌ c s) e h = elim (Bool-cases (ltb n (utf8_len (code c)))) [
  | inl lt ↦ (String.[], c, s, refl, ground arith, ground arith)
  | inr ge ↦
      let (before, d, behind, p, lo, hi) =
        slice_to-IsCut (n - utf8_len (code c)) s (ground arith) (ground arith) in
      (String.◌∷◌ c before, d, behind, ap (String.◌∷◌ c) p, ground arith, ground arith)
]

-- Shortening a text panics exactly when one of its characters begins before the limit and ends
-- beyond it.
pub truncate-iff_IsCut : (s : String) (n : ℕ) → (truncate s n ≡ none) ↔ IsCut n s
unfolding truncate byte_len
truncate-iff_IsCut s n = (
  λ e. slice_to-IsCut n s (ground arith) (ground arith),
  λ (before, c, behind, p, lo, hi). ground (
    arith,
    ap byte_len p,
    byte_len-append before (String.◌∷◌ c behind),
    ap (slice_to n) p,
    slice_to_inside n before c behind,
  ),
)

-- The first 140 bytes of what was said end inside a character.
abbrev pub IsSplit : ConversationTurn → Type 0
IsSplit turn = IsCut 140 turn.content

summary_line-iff_IsSplit : (turn : ConversationTurn) → (summary_line turn ≡ none) ↔ IsSplit turn
summary_line-iff_IsSplit turn = elim (Option-cases (truncate turn.content 140)) [
  | inl e ↦ (λ h. (truncate-iff_IsCut turn.content 140).0 e, λ cut. rw (e, summary_line) refl)
  | inr (line, e) ↦ (λ h. cc, λ cut. cc ((truncate-iff_IsCut turn.content 140).1 cut))
]

summary_lines-iff_IsSplit :
    (turns : List ConversationTurn) → (summary_lines turns ≡ none) ↔ Any IsSplit turns
unfolding summary_lines
summary_lines-iff_IsSplit [] = (λ h. cc, λ m. elim m [ ])
summary_lines-iff_IsSplit (turn ∷ turns) = elim (Option-cases (summary_line turn)) [
  | inl e ↦ (λ h. inl ((summary_line-iff_IsSplit turn).0 e), λ m. rw (e, summary_lines) refl)
  | inr (line, e) ↦ (
    λ h. inr ((summary_lines-iff_IsSplit turns).0 (ground (arith, e))),
    λ m. elim m [
      | inl cut ↦ cc ((summary_line-iff_IsSplit turn).1 cut)
      | inr other ↦ rw (e, summary_lines) (rw ((summary_lines-iff_IsSplit turns).1 other) refl)
    ],
  )
]

-- The summary of a conversation panics exactly when, in one of its first three or last three turns,
-- a character begins within the first 140 bytes and ends beyond them.
pub summarize-iff_IsSplit :
    (turns : List ConversationTurn)
    → (summarize turns ≡ none) ↔ (Any IsSplit (head_turns turns) ⊎ Any IsSplit (tail_turns turns))
unfolding summarize
summarize-iff_IsSplit [] = (λ h. cc, λ m. elim m [ inl a ↦ elim a [ ] | inr a ↦ elim a [ ] ])
summarize-iff_IsSplit (turn ∷ rest) =
    let turns = turn ∷ rest in
    let head = summary_lines-iff_IsSplit (head_turns turns) in
    let tail = summary_lines-iff_IsSplit (tail_turns turns) in
    elim (Option-cases (summary_lines (head_turns turns))) [
      | inl e ↦ (λ h. inl (head.0 e), λ m. rw (e, summarize) refl)
      | inr (lines, e) ↦ elim (Option-cases (summary_lines (tail_turns turns))) [
        | inl f ↦ (λ h. inr (tail.0 f), λ m. rw (e, summarize) (rw f refl))
        | inr (more, f) ↦ (
          λ h. absurd (ground (arith, e, f)),
          λ m. elim m [ inl cut ↦ cc (e, head.1 cut) | inr cut ↦ cc (f, tail.1 cut) ],
        )
      ]
    ]
