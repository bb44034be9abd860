-- ===== src/Base/Text.antt =====
-- The operations of Rust's `str` that the program uses. A text is walked as its list of code points.
use Prim.Native.Char.{Char, code}
use Prim.Native.String.{String, char_at, count as count_chars}
use text.Mathlib.Text.{starts_with}
use Prim.Native.Nat.{ℕ, zero, suc, ◌+◌, ◌-◌}
use mathlib.Core.Bool.{Bool, true, false, not, ◌&&◌, ◌||◌}
use mathlib.Core.List.{List, [], ◌∷◌, map, reverse, ◌++◌}
use rust_ia_micro_agents.Base.Tests.{ltb, leb, ◌==◌, if◌then◌else◌}
use rust_ia_micro_agents.Base.Lists.{any}

abbrev pub codes : String → List ℕ
codes String.[] = []
codes (String.◌∷◌ c s) = code c ∷ codes s

abbrev pub codes_eq : List ℕ → List ℕ → Bool
codes_eq [] [] = true
codes_eq [] (d ∷ ds) = false
codes_eq (c ∷ cs) [] = false
codes_eq (c ∷ cs) (d ∷ ds) = c == d && codes_eq cs ds

-- `s + t`, by clauses, so that a literal prefix computes.
abbrev pub append : String → String → String
append String.[] t = t
append (String.◌∷◌ c s) t = String.◌∷◌ c (append s t)

-- `char::to_ascii_lowercase`.
unfoldable pub ascii_lower : ℕ → ℕ
ascii_lower c = if leb b'A' c && leb c b'Z' then c + 32 else c

abbrev pub lower_codes : List ℕ → List ℕ
lower_codes cs = map ascii_lower cs

unfoldable pub eq_ignore_ascii_case : String → String → Bool
eq_ignore_ascii_case s t = codes_eq (lower_codes (codes s)) (lower_codes (codes t))

-- `char::is_whitespace`: the code points with Unicode's White_Space property.
unfoldable pub is_whitespace : ℕ → Bool
is_whitespace c =
    leb 9 c && leb c 13
    || c == 32
    || c == 133
    || c == 160
    || c == 5760
    || leb 8192 c && leb c 8202
    || c == 8232
    || c == 8233
    || c == 8239
    || c == 8287
    || c == 12288

abbrev pub drop_while : (ℕ → Bool) → List ℕ → List ℕ
drop_while p [] = []
drop_while p (c ∷ cs) = if p c then drop_while p cs else c ∷ cs

-- `str::trim`.
unfoldable pub trim : List ℕ → List ℕ
trim cs = reverse (drop_while is_whitespace (reverse (drop_while is_whitespace cs)))

-- The words of `split_whitespace`; `word` is the one being read, reversed.
unfoldable pub close_word : List ℕ → List (List ℕ) → List (List ℕ)
close_word [] ws = ws
close_word (c ∷ cs) ws = (c ∷ cs) ∷ ws

unfoldable pub split_whitespace : List ℕ → List ℕ → List (List ℕ)
split_whitespace word [] = close_word word []
split_whitespace word (c ∷ cs) =
    if is_whitespace c
    then close_word word (split_whitespace [] cs)
    else split_whitespace (word ++ c ∷ []) cs

unfoldable pub join_spaces : List (List ℕ) → List ℕ
join_spaces [] = []
join_spaces (w ∷ []) = w
join_spaces (w ∷ (v ∷ ws)) = w ++ 32 ∷ join_spaces (v ∷ ws)

-- A `match` arm of string literals.
unfoldable pub is_one_of : List ℕ → List String → Bool
is_one_of cs literals = any (λ l. codes_eq cs (codes l)) literals

-- A change of each character, and what is left without the characters at an end that fit `p`.
abbrev pub map_chars : (Char → Char) → String → String
map_chars f String.[] = String.[]
map_chars f (String.◌∷◌ c s) = String.◌∷◌ (f c) (map_chars f s)

abbrev pub trim_start_matches : (ℕ → Bool) → String → String
trim_start_matches p String.[] = String.[]
trim_start_matches p (String.◌∷◌ c s) =
    if p (code c) then trim_start_matches p s else String.◌∷◌ c s

-- A character before the text that is left of the rest; a fitting one with nothing behind it goes.
abbrev pub end_char : (ℕ → Bool) → Char → String → String
end_char p c String.[] = if p (code c) then String.[] else String.◌∷◌ c String.[]
end_char p c (String.◌∷◌ d s) = String.◌∷◌ c (String.◌∷◌ d s)

abbrev pub trim_end_matches : (ℕ → Bool) → String → String
trim_end_matches p String.[] = String.[]
trim_end_matches p (String.◌∷◌ c s) = end_char p c (trim_end_matches p s)

-- `str::trim_matches`, and `str::trim` as its case of white space.
abbrev pub trim_matches : (ℕ → Bool) → String → String
trim_matches p s = trim_end_matches p (trim_start_matches p s)

abbrev pub trimmed : String → String
trimmed s = trim_matches is_whitespace s

-- `to_ascii_lowercase` of a character.
abbrev pub lower_char : Char → Char
lower_char c =
    if leb b'A' (code c) && leb (code c) b'Z'
    then char_at "abcdefghijklmnopqrstuvwxyz" (code c - b'A')
    else c

-- `char::is_ascii_alphanumeric`.
abbrev pub is_ascii_alphanumeric : ℕ → Bool
is_ascii_alphanumeric c =
    leb b'0' c && leb c b'9' || leb b'A' c && leb c b'Z' || leb b'a' c && leb c b'z'

-- `str::replace`: the occurrences from the left, none over another. `skip` characters of the last
-- one are still to be passed over.
abbrev pub replace_from : String → String → ℕ → String → String
replace_from from to skip String.[] = String.[]
replace_from from to (suc skip) (String.◌∷◌ c s) = replace_from from to skip s
replace_from from to zero (String.◌∷◌ c s) = elim (starts_with (String.◌∷◌ c s) from) [
  | true ↦ append to (replace_from from to (count_chars from - 1) s)
  | false ↦ String.◌∷◌ c (replace_from from to zero s)
]

abbrev pub replace : String → String → String → String
replace s from to = replace_from from to 0 s

-- The pieces of `split` at a character; the first piece of the rest is put before `c`.
abbrev pub put_char : Char → List String → List String
put_char c [] = String.◌∷◌ c String.[] ∷ []
put_char c (piece ∷ pieces) = String.◌∷◌ c piece ∷ pieces

abbrev pub split_at : ℕ → String → List String
split_at sep String.[] = String.[] ∷ []
split_at sep (String.◌∷◌ c s) =
    let rest = split_at sep s in if code c == sep then String.[] ∷ rest else put_char c rest

-- `join`.
abbrev pub join : String → List String → String
join sep [] = String.[]
join sep (piece ∷ []) = piece
join sep (piece ∷ (next ∷ pieces)) = append piece (append sep (join sep (next ∷ pieces)))

-- `matches(c).count()`.
abbrev pub count_char : ℕ → String → ℕ
count_char d String.[] = 0
count_char d (String.◌∷◌ c s) = if code c == d then suc (count_char d s) else count_char d s

-- `rsplit(c).next()`: what stands behind the last `c`, or the whole text.
abbrev pub last_piece : ℕ → String → String
last_piece d String.[] = String.[]
last_piece d (String.◌∷◌ c s) =
    if ltb 0 (count_char d s) then last_piece d s else if code c == d then s else String.◌∷◌ c s

-- The text without its first `n` characters.
abbrev pub drop_chars : ℕ → String → String
drop_chars zero s = s
drop_chars (suc n) String.[] = String.[]
drop_chars (suc n) (String.◌∷◌ c s) = drop_chars n s

-- Texts are ordered by their bytes, which for UTF-8 is the order of their code points.
unfoldable pub codes_lt : List ℕ → List ℕ → Bool
codes_lt cs [] = false
codes_lt [] (d ∷ ds) = true
codes_lt (c ∷ cs) (d ∷ ds) = ltb c d || (not (ltb d c) && codes_lt cs ds)
