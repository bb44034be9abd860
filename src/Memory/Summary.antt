-- ===== src/Memory/Summary.antt =====
-- src/memory/summary.rs: the deterministic summary of a conversation. `none` is the panic of a slice
-- that ends inside a character.
pub mod Panics
use Prim.Native.Char.{Char, code}
use rust_ia_micro_agents.Base.{
  ℕ, zero, suc, ◌+◌, ◌-◌, String, List, [], ◌∷◌, ◌++◌, Option, none, some, length, if◌then◌else◌,
  ltb, leb, ◌==◌, DateTime,
}
use rust_ia_micro_agents.Base.Rows.{take}
use rust_ia_micro_agents.Base.Text.{append, join}

-- src/storage/types.rs
pub record ConversationTurn : Type 0 where
  pub role : String
  pub content : String
  pub created_at : DateTime

-- `skip` of an iterator, and the slice from a place on.
abbrev drop : ℕ → List ConversationTurn → List ConversationTurn
drop zero xs = xs
drop (suc n) [] = []
drop (suc n) (x ∷ xs) = drop n xs

-- How many bytes UTF-8 has for a code point, and for a text.
unfoldable pub utf8_len : ℕ → ℕ
utf8_len c = if ltb c 128 then 1 else if ltb c 2048 then 2 else if ltb c 65536 then 3 else 4

unfoldable pub byte_len : String → ℕ
byte_len String.[] = 0
byte_len (String.◌∷◌ c s) = utf8_len (code c) + byte_len s

abbrev pub put : Char → Option String → Option String
put c none = none
put c (some s) = some (String.◌∷◌ c s)

-- `&input[..n]`.
unfoldable pub slice_to : ℕ → String → Option String
slice_to n String.[] = if n == 0 then some String.[] else none
slice_to n (String.◌∷◌ c s) =
    let rest = slice_to (n - utf8_len (code c)) s in
    if n == 0 then some String.[] else if ltb n (utf8_len (code c)) then none else put c rest

unfoldable pub truncate : String → ℕ → Option String
truncate input limit =
    if leb (byte_len input) limit
    then some input
    else elim (slice_to limit input) [ none ↦ none | some s ↦ some (append s "...") ]

abbrev pub summary_line : ConversationTurn → Option String
summary_line turn = elim (truncate turn.content 140) [
  | none ↦ none
  | some s ↦ some (append turn.role (append ": " s))
]

unfoldable pub summary_lines : List ConversationTurn → Option (List String)
summary_lines [] = some []
summary_lines (turn ∷ turns) = elim (summary_line turn) [
  | none ↦ none
  | some line ↦ elim (summary_lines turns) [ none ↦ none | some lines ↦ some (line ∷ lines) ]
]

abbrev pub head_turns : List ConversationTurn → List ConversationTurn
head_turns turns = take 3 turns

abbrev pub tail_turns : List ConversationTurn → List ConversationTurn
tail_turns turns = drop (length turns - 3) turns

abbrev ellipsis : ℕ → List String
ellipsis n = if ltb 6 n then "..." ∷ [] else []

unfoldable pub summarize : List ConversationTurn → Option String
summarize [] = some "No conversation yet."
summarize (turn ∷ rest) =
    let turns = turn ∷ rest in
    elim (summary_lines (head_turns turns)) [
      | none ↦ none
      | some head ↦ elim (summary_lines (tail_turns turns)) [
        | none ↦ none
        | some tail ↦ some (join "\n" (head ++ (ellipsis (length turns) ++ tail)))
      ]
    ]
