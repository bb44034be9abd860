-- ===== src/Base/Decimal.antt =====
-- `to_string` of an unsigned integer, and why different numbers have different texts.
use Prim.Native.Char.{Char, code}
use Prim.Native.String.{String}
use Prim.Native.Nat.{ℕ, zero, suc, ◌+◌, ◌-◌, ◌*◌, ◌/◌, ◌%◌, ◌<◌, ◌≤◌}
use mathlib.Core.Path.{◌≡◌, refl, sym, ap, ◌∙◌}
use mathlib.Core.Logic.{inl, inr}
use mathlib.Core.Bool.{Bool, true, false}
use native.Mathlib.Omega.{arith}
use rust_ia_micro_agents.Base.Tests.{ltb, ltb→lt, if◌then◌else◌, Bool-cases}

digit_char : ℕ → Char
digit_char zero = "0"
digit_char (suc zero) = "1"
digit_char (suc (suc zero)) = "2"
digit_char (suc (suc (suc zero))) = "3"
digit_char (suc (suc (suc (suc zero)))) = "4"
digit_char (suc (suc (suc (suc (suc zero))))) = "5"
digit_char (suc (suc (suc (suc (suc (suc zero)))))) = "6"
digit_char (suc (suc (suc (suc (suc (suc (suc zero))))))) = "7"
digit_char (suc (suc (suc (suc (suc (suc (suc (suc zero)))))))) = "8"
digit_char _ = "9"

digit_char-code : (d : ℕ) → d < 10 → code (digit_char d) ≡ d + 48
unfolding digit_char
digit_char-code zero h = refl
digit_char-code (suc zero) h = refl
digit_char-code (suc (suc zero)) h = refl
digit_char-code (suc (suc (suc zero))) h = refl
digit_char-code (suc (suc (suc (suc zero)))) h = refl
digit_char-code (suc (suc (suc (suc (suc zero))))) h = refl
digit_char-code (suc (suc (suc (suc (suc (suc zero)))))) h = refl
digit_char-code (suc (suc (suc (suc (suc (suc (suc zero))))))) h = refl
digit_char-code (suc (suc (suc (suc (suc (suc (suc (suc zero)))))))) h = refl
digit_char-code (suc (suc (suc (suc (suc (suc (suc (suc (suc n))))))))) h = omega arith

decimal_from : ℕ → ℕ → String → String
decimal_from zero n acc = acc
decimal_from (suc fuel) n acc =
    let rest = decimal_from fuel (n / 10) (String.◌∷◌ (digit_char (n % 10)) acc) in
    if ltb n 10 then String.◌∷◌ (digit_char n) acc else rest

-- A number has fewer digits than its successor, so the fuel is enough.
unfoldable pub to_string : ℕ → String
unfolding decimal_from digit_char
to_string n = decimal_from (suc n) n String.[]

value : ℕ → String → ℕ
value a String.[] = a
value a (String.◌∷◌ c s) = value (a * 10 + (code c - 48)) s

value-decimal_from :
    (fuel n : ℕ) (acc : String) → n < fuel → value 0 (decimal_from fuel n acc) ≡ value n acc
unfolding decimal_from value
value-decimal_from zero n acc h = elim h [ ]
value-decimal_from (suc fuel) n acc h = elim (Bool-cases (ltb n 10)) [
  | inl small ↦ rw small (ap (λ k. value k acc) (ground (arith, digit_char-code n)))
  | inr big ↦ rw big (
      value-decimal_from fuel (n / 10) (String.◌∷◌ (digit_char (n % 10)) acc) (ground arith)
      ∙ ap (λ k. value k acc) (ground (arith, digit_char-code (n % 10))))
]

pub to_string-injective : (m n : ℕ) → to_string m ≡ to_string n → m ≡ n
unfolding to_string value
to_string-injective m n e =
    sym (value-decimal_from (suc m) m String.[] (omega arith))
    ∙ ap (value 0) e
    ∙ value-decimal_from (suc n) n String.[] (omega arith)

abbrev pub IsDigit : Char → Type 0
IsDigit c = (48 ≤ code c) × (code c ≤ 57)

digit_char-IsDigit : (d : ℕ) → code (digit_char d) ≡ d + 48 → d < 10 → IsDigit (digit_char d)
digit_char-IsDigit d e h = (omega arith, omega arith)

-- A text of decimal digits.
abbrev pub IsDigits : String → Type 0
IsDigits String.[] = Unit
IsDigits (String.◌∷◌ c s) = IsDigit c × IsDigits s

abbrev pub is_blank : String → Bool
is_blank String.[] = true
is_blank (String.◌∷◌ c s) = false

decimal_from-IsDigits :
    (fuel n : ℕ) (acc : String) → IsDigits acc → IsDigits (decimal_from fuel n acc)
unfolding decimal_from
decimal_from-IsDigits zero n acc h = h
decimal_from-IsDigits (suc fuel) n acc h = elim (Bool-cases (ltb n 10)) [
  | inl small ↦
      let e = digit_char-code n (ltb→lt n 10 small) in
      rw small (digit_char-IsDigit n e (ltb→lt n 10 small), h)
  | inr big ↦ rw big (
      decimal_from-IsDigits fuel (n / 10) (String.◌∷◌ (digit_char (n % 10)) acc)
        (digit_char-IsDigit (n % 10) (digit_char-code (n % 10) (omega arith)) (omega arith), h))
]

-- The text of a number consists of digits, and of one at least.
pub to_string-IsDigits : (n : ℕ) → IsDigits (to_string n)
unfolding to_string
to_string-IsDigits n = decimal_from-IsDigits (suc n) n String.[] tt

decimal_from-is_blank :
    (fuel n : ℕ) (acc : String) → is_blank acc ≡ false → is_blank (decimal_from fuel n acc) ≡ false
unfolding decimal_from
decimal_from-is_blank zero n acc h = h
decimal_from-is_blank (suc fuel) n acc h = elim (Bool-cases (ltb n 10)) [
  | inl small ↦ rw small refl
  | inr big ↦
      rw big (decimal_from-is_blank fuel (n / 10) (String.◌∷◌ (digit_char (n % 10)) acc) refl)
]

pub to_string-is_blank : (n : ℕ) → is_blank (to_string n) ≡ false
unfolding to_string decimal_from
to_string-is_blank n = elim (Bool-cases (ltb n 10)) [
  | inl small ↦ rw small refl
  | inr big ↦
      rw big (decimal_from-is_blank n (n / 10) (String.◌∷◌ (digit_char (n % 10)) String.[]) refl)
]
